-- ===== src/Util/Glob/Accepts.antt =====
-- redis/src/util.c: patterns by their parts, as they are written, and the strings that they stand for.
use coffee_table.Prelude.{
  ℕ, ◌≡◌, Bool, true, false, ◌&&◌, ◌||◌, not, List, [], ◌∷◌, ◌==◌, if◌then◌else◌,
}
use coffee_table.Util.Glob.{same_char, in_range, is_empty}

-- a part of a class
pub data Item : Type 0 where
  plain escaped : ℕ → Item
  range : ℕ → ℕ → Item

pub data Part : Type 0 where
  star any : Part
  char quoted : ℕ → Part
  class : Bool → List Item → Part

-- a class, which something follows
abbrev pub write_items : List Item → List ℕ → List ℕ
write_items [] p = b']' ∷ p
write_items (plain c ∷ more) p = c ∷ write_items more p
write_items (escaped c ∷ more) p = b'\\' ∷ c ∷ write_items more p
write_items (range a b ∷ more) p = a ∷ b'-' ∷ b ∷ write_items more p

abbrev pub write : List Part → List ℕ
write [] = []
write (star ∷ g) = b'*' ∷ write g
write (any ∷ g) = b'?' ∷ write g
write (char c ∷ g) = c ∷ write g
write (quoted c ∷ g) = b'\\' ∷ c ∷ write g
write (class true items ∷ g) = b'[' ∷ b'^' ∷ write_items items (write g)
write (class false items ∷ g) = b'[' ∷ write_items items (write g)

-- a byte that has no other meaning within a class
abbrev pub IsPlain : ℕ → Type 0
IsPlain c = (c == b'\\' ≡ false) × (c == b']' ≡ false) × (c == b'-' ≡ false) × (c == b'^' ≡ false)

abbrev pub AreItems : List Item → Type 0
AreItems [] = Unit {0}
AreItems (plain c ∷ more) = IsPlain c × AreItems more
AreItems (escaped c ∷ more) = AreItems more
AreItems (range a b ∷ more) = IsPlain a × AreItems more

abbrev pub IsPattern : List Part → Type 0
IsPattern [] = Unit {0}
IsPattern (star ∷ g) = IsPattern g
IsPattern (any ∷ g) = IsPattern g
IsPattern (char c ∷ g) =
    ((c == b'*' ≡ false) × (c == b'?' ≡ false) × (c == b'[' ≡ false) × (c == b'\\' ≡ false))
    × IsPattern g
IsPattern (quoted c ∷ g) = IsPattern g
IsPattern (class negated items ∷ g) = AreItems items × IsPattern g

-- whether a byte is in a class
unfoldable pub has : Bool → ℕ → List Item → Bool
has nocase x [] = false
has nocase x (plain c ∷ more) = same_char nocase c x || has nocase x more
has nocase x (escaped c ∷ more) = (c == x) || has nocase x more
has nocase x (range a b ∷ more) = in_range nocase a b x || has nocase x more

abbrev pub in_class : Bool → ℕ → Bool → List Item → Bool
in_class nocase x negated items = if negated then not (has nocase x items) else has nocase x items

unfoldable pub any_suffix : (List ℕ → Bool) → List ℕ → Bool
any_suffix f [] = f []
any_suffix f (x ∷ s) = f (x ∷ s) || any_suffix f s

-- whether a string is one that the pattern stands for
unfoldable pub accepts : Bool → List Part → List ℕ → Bool
unfolding any_suffix has
accepts nocase [] s = is_empty s
accepts nocase (star ∷ g) s = any_suffix (accepts nocase g) s
accepts nocase (any ∷ g) [] = false
accepts nocase (any ∷ g) (x ∷ s) = accepts nocase g s
accepts nocase (char c ∷ g) [] = false
accepts nocase (char c ∷ g) (x ∷ s) = same_char nocase c x && accepts nocase g s
accepts nocase (quoted c ∷ g) [] = false
accepts nocase (quoted c ∷ g) (x ∷ s) = same_char nocase c x && accepts nocase g s
accepts nocase (class negated items ∷ g) [] = false
accepts nocase (class negated items ∷ g) (x ∷ s) =
    in_class nocase x negated items && accepts nocase g s
