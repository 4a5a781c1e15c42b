-- ===== src/Util/Glob/Match.antt =====
-- redis/src/util.c: the match of a pattern against the strings that it stands for.
use coffee_table.Prelude.{
  ℕ, zero, suc, ◌+◌, ◌≤◌, ◌<◌, ◌≡◌, refl, ap, ◌∙◌, inl, inr, ◌⊎◌, Bool, true, false, ◌||◌, ◌&&◌,
  Option, some, List, [], ◌∷◌, length, Bool-cases, arith,
}
use coffee_table.Util.Glob.{
  star_round, char_round, class_round, same_char, Text, at, is_empty, skip_stars, try_suffixes,
  try_text, match_loop, stringmatchlen, after, class_of, round,
}
use coffee_table.Util.Glob.Accepts.{
  plain, escaped, range, Item, Part, star, any, char, quoted, class, write, write_items, IsPattern,
  any_suffix, accepts, in_class,
}
use coffee_table.Util.Glob.Class.{class_of_lem}

or_self : (a b : Bool) → (a || b) || b ≡ a || b
or_self true b = refl
or_self false true = refl
or_self false false = refl

-- without the stars that it starts with
abbrev no_stars : List Part → List Part
no_stars (star ∷ g) = no_stars g
no_stars g = g

any_suffix_twice : (f : List ℕ → Bool) (s : List ℕ) → any_suffix (any_suffix f) s ≡ any_suffix f s
unfolding any_suffix
any_suffix_twice f [] = refl
any_suffix_twice f (x ∷ s) = rw (any_suffix_twice f s) (or_self (f (x ∷ s)) (any_suffix f s))

-- One star does what many do.
accepts-no_stars :
    (nocase : Bool) (g : List Part) (s : List ℕ)
    → accepts nocase (star ∷ g) s ≡ accepts nocase (star ∷ no_stars g) s
unfolding accepts
accepts-no_stars nocase (star ∷ g) s =
    any_suffix_twice (accepts nocase g) s ∙ accepts-no_stars nocase g s
accepts-no_stars nocase [] s = refl
accepts-no_stars nocase (any ∷ g) s = refl
accepts-no_stars nocase (char c ∷ g) s = refl
accepts-no_stars nocase (quoted c ∷ g) s = refl
accepts-no_stars nocase (class b items ∷ g) s = refl

skip_stars-write : (g : List Part) → IsPattern g → skip_stars (write g) ≡ write (no_stars g)
unfolding skip_stars
skip_stars-write [] h = refl
skip_stars-write (star ∷ g) h = skip_stars-write g h
skip_stars-write (any ∷ g) h = refl
skip_stars-write (char c ∷ g) h = rw (skip_stars, h.0.0) refl
skip_stars-write (quoted c ∷ g) h = refl
skip_stars-write (class true items ∷ g) h = refl
skip_stars-write (class false items ∷ g) h = refl

-- The empty string is one that only stars stand for.
accepts-nil :
    (nocase : Bool) (g : List Part)
    → IsPattern g
    → is_empty (skip_stars (write g)) ≡ accepts nocase g []
unfolding accepts skip_stars
accepts-nil nocase [] h = refl
accepts-nil nocase (star ∷ g) h = accepts-nil nocase g h
accepts-nil nocase (any ∷ g) h = refl
accepts-nil nocase (char c ∷ g) h = rw (skip_stars, h.0.0) refl
accepts-nil nocase (quoted c ∷ g) h = refl
accepts-nil nocase (class true items ∷ g) h = refl
accepts-nil nocase (class false items ∷ g) h = refl

-- what the loop does to a text that is not empty
abbrev Decides : (List ℕ → Text → Option Bool) → Bool → List Part → Type 0
Decides rec nocase g =
    (x : ℕ) (s : List ℕ) → rec (write g) (at (x ∷ s)) ≡ some (accepts nocase g (x ∷ s))

after_lem :
    (nocase : Bool) (rec : List ℕ → Text → Option Bool) (g : List Part) (s : List ℕ)
    → IsPattern g
    → Decides rec nocase g
    → after nocase rec (write g) (at s) ≡ some (accepts nocase g s)
after_lem nocase rec g [] h ih = ap some (accepts-nil nocase g h)
after_lem nocase rec g (x ∷ s) h ih = ih x s

try_lem :
    (nocase : Bool) (rec : List ℕ → Text → Option Bool) (g : List Part) (s : List ℕ)
    → Decides rec nocase g
    → accepts nocase g [] ≡ false
    → try_suffixes (λ t. rec (write g) (at t)) s ≡ some (any_suffix (accepts nocase g) s)
unfolding try_suffixes any_suffix
try_lem nocase rec g [] ih empty = rw empty refl
try_lem nocase rec g (x ∷ s) ih empty = elim (Bool-cases (accepts nocase g (x ∷ s))) [
  | inl hit ↦ rw (ih x s, hit) refl
  | inr miss ↦ rw (ih x s, miss) (try_lem nocase rec g s ih empty)
]

bare :
    (nocase : Bool) (g : List Part)
    → (no_stars g ≡ [])
      ⊎ ((is_empty (write (no_stars g)) ≡ false) × (accepts nocase (no_stars g) [] ≡ false))
unfolding accepts
bare nocase [] = inl refl
bare nocase (star ∷ g) = bare nocase g
bare nocase (any ∷ g) = inr (refl, refl)
bare nocase (char c ∷ g) = inr (refl, refl)
bare nocase (quoted c ∷ g) = inr (refl, refl)
bare nocase (class true items ∷ g) = inr (refl, refl)
bare nocase (class false items ∷ g) = inr (refl, refl)

all_accepted : (nocase : Bool) (s : List ℕ) → accepts nocase (star ∷ []) s ≡ true
unfolding accepts
all_accepted nocase [] = refl
all_accepted nocase (x ∷ s) = all_accepted nocase s

star_lem :
    (nocase : Bool) (rec : List ℕ → Text → Option Bool) (g : List Part) (s : List ℕ)
    → IsPattern g
    → Decides rec nocase (no_stars g)
    → star_round nocase rec (write g) (at s) ≡ some (accepts nocase (star ∷ g) s)
star_lem nocase rec g s h ih =
    rw (star_round, skip_stars-write g h, accepts-no_stars nocase g s)
      (elim (bare nocase g) [
        | inl none_left ↦ rw (none_left, all_accepted nocase s) refl
        | inr (some_left, not_empty) ↦
            let tried : try_suffixes (λ t. rec (write (no_stars g)) (at t)) s
                ≡ some (accepts nocase (star ∷ no_stars g) s) =
              try_lem nocase rec (no_stars g) s ih not_empty ∙ (unfold accepts in refl) in
            rw (some_left, try_text, skip_stars-write g h) tried
      ])

char_lem :
    (nocase : Bool) (rec : List ℕ → Text → Option Bool) (c : ℕ) (g : List Part) (x : ℕ) (s : List ℕ)
    → IsPattern g
    → Decides rec nocase g
    → char_round nocase rec c (write g) (at (x ∷ s))
      ≡ some (same_char nocase c x && accepts nocase g s)
char_lem nocase rec c g x s h ih = elim (Bool-cases (same_char nocase c x)) [
  | inl hit ↦ rw (char_round, hit) (after_lem nocase rec g s h ih)
  | inr miss ↦ rw (char_round, miss) refl
]

class_lem :
    (nocase : Bool) (rec : List ℕ → Text → Option Bool) (b : Bool) (p : List ℕ) (g : List Part)
    (x : ℕ) (s : List ℕ)
    → class_of nocase x p ≡ some (b, write g)
    → IsPattern g
    → Decides rec nocase g
    → class_round nocase rec p (at (x ∷ s)) ≡ some (b && accepts nocase g s)
class_lem nocase rec true p g x s e h ih = rw (class_round, e) (after_lem nocase rec g s h ih)
class_lem nocase rec false p g x s e h ih = rw (class_round, e) refl

no_stars-IsPattern : (g : List Part) → IsPattern g → IsPattern (no_stars g)
no_stars-IsPattern [] h = h
no_stars-IsPattern (star ∷ g) h = no_stars-IsPattern g h
no_stars-IsPattern (any ∷ g) h = h
no_stars-IsPattern (char c ∷ g) h = h
no_stars-IsPattern (quoted c ∷ g) h = h
no_stars-IsPattern (class b items ∷ g) h = h

length-no_stars : (g : List Part) → length (write (no_stars g)) ≤ length (write g)
length-no_stars [] = omega arith
length-no_stars (star ∷ g) = omega (arith, length-no_stars g)
length-no_stars (any ∷ g) = omega arith
length-no_stars (char c ∷ g) = omega arith
length-no_stars (quoted c ∷ g) = omega arith
length-no_stars (class b items ∷ g) = omega arith

length-write_items : (items : List Item) (p : List ℕ) → length p < length (write_items items p)
length-write_items [] p = omega arith
length-write_items (plain c ∷ more) p = omega (arith, length-write_items more p)
length-write_items (escaped c ∷ more) p = omega (arith, length-write_items more p)
length-write_items (range a b ∷ more) p = omega (arith, length-write_items more p)

match_loop_lem :
    (nocase : Bool) (fuel : ℕ) (g : List Part)
    → IsPattern g
    → length (write g) < fuel
    → Decides (match_loop nocase fuel) nocase g
unfolding match_loop accepts
match_loop_lem nocase zero g h few x s = absurd (omega arith)
match_loop_lem nocase (suc fuel) [] h few x s = refl
match_loop_lem nocase (suc fuel) (star ∷ g) h few x s =
    star_lem nocase (match_loop nocase fuel) g (x ∷ s) h (
      match_loop_lem nocase fuel (no_stars g) (no_stars-IsPattern g h)
        (omega (arith, length-no_stars g)))
match_loop_lem nocase (suc fuel) (any ∷ g) h few x s =
    after_lem nocase (match_loop nocase fuel) g s h (match_loop_lem nocase fuel g h (omega arith))
match_loop_lem nocase (suc fuel) (char c ∷ g) ((h1, h2, h3, h4), h) few x s =
    rw (match_loop, round, h1, h2, h3, h4)
      (char_lem nocase (match_loop nocase fuel) c g x s h
        (match_loop_lem nocase fuel g h (omega arith)))
match_loop_lem nocase (suc fuel) (quoted c ∷ g) h few x s =
    char_lem nocase (match_loop nocase fuel) c g x s h
      (match_loop_lem nocase fuel g h (omega arith))
match_loop_lem nocase (suc fuel) (class true items ∷ g) (h', h) few x s =
    class_lem nocase (match_loop nocase fuel) (in_class nocase x true items)
      (b'^' ∷ write_items items (write g)) g x s (class_of_lem nocase x items (write g) h').1 h
      (match_loop_lem nocase fuel g h (omega (arith, length-write_items items (write g))))
match_loop_lem nocase (suc fuel) (class false items ∷ g) (h', h) few x s =
    class_lem nocase (match_loop nocase fuel) (in_class nocase x false items)
      (write_items items (write g)) g x s (class_of_lem nocase x items (write g) h').0 h
      (match_loop_lem nocase fuel g h (omega (arith, length-write_items items (write g))))

-- On a string that is not empty a pattern, written with its special bytes quoted, is decided without a read behind
-- the end of either, and as its parts say: a star stands for any bytes, a question mark for one, a class for those
-- between its brackets or for the others, and any other byte for itself, up to the case of letters if that is asked for.
pub stringmatchlen-write :
    (nocase : Bool) (g : List Part) (x : ℕ) (s : List ℕ)
    → IsPattern g
    → stringmatchlen (write g) (x ∷ s) nocase ≡ some (accepts nocase g (x ∷ s))
unfolding stringmatchlen
stringmatchlen-write nocase g x s h =
    match_loop_lem nocase (length (write g) + 1) g h (omega arith) x s
