-- ===== src/Util/Glob/Class.antt =====
-- redis/src/util.c: a class of bytes, as it is written, read to its end.
use coffee_table.Prelude.{ℕ, ◌≡◌, refl, Bool, true, false, ◌||◌, some, List, [], ◌∷◌, ◌==◌}
use coffee_table.Util.Glob.{same_char, in_range, class_loop, class_of, is_negated, behind_sign}
use coffee_table.Util.Glob.Accepts.{
  Item, plain, escaped, range, write_items, IsPlain, AreItems, has, in_class,
}

or_false : (b : Bool) → b || false ≡ b
or_false true = refl
or_false false = refl

or_assoc : (a b c : Bool) → (a || b) || c ≡ a || (b || c)
or_assoc true b c = refl
or_assoc false b c = refl

-- Something is left of a class, and it does not look like the middle of a range.
left :
    (items : List Item) (p : List ℕ)
    → AreItems items
    → (b : ℕ) × (q : List ℕ) × (write_items items p ≡ b ∷ q) × (b == b'-' ≡ false)
left [] p h = (b']', p, refl, refl)
left (plain c ∷ more) p h = (c, write_items more p, refl, h.0.2)
left (escaped c ∷ more) p h = (b'\\', c ∷ write_items more p, refl, refl)
left (range a b ∷ more) p h = (a, b'-' ∷ b ∷ write_items more p, refl, h.0.2)

plain_step :
    (nocase : Bool) (x : ℕ) (found : Bool) (a b : ℕ) (q : List ℕ)
    → IsPlain a
    → b == b'-' ≡ false
    → class_loop nocase x found (a ∷ b ∷ q)
      ≡ class_loop nocase x (found || same_char nocase a x) (b ∷ q)
unfolding class_loop
plain_step nocase x found a b [] (h1, h2, h3, h4) e = rw (class_loop, h1, h2) refl
plain_step nocase x found a b (c ∷ q) (h1, h2, h3, h4) e = rw (class_loop, h1, h2, e) refl

class_end :
    (nocase : Bool) (x : ℕ) (found : Bool) (p : List ℕ)
    → class_loop nocase x found (b']' ∷ p) ≡ some (found, p)
unfolding class_loop
class_end nocase x found [] = refl
class_end nocase x found (a ∷ []) = refl
class_end nocase x found (a ∷ b ∷ p) = refl

pub class_loop_lem :
    (nocase : Bool) (x : ℕ) (found : Bool) (items : List Item) (p : List ℕ)
    → AreItems items
    → class_loop nocase x found (write_items items p) ≡ some (found || has nocase x items, p)
unfolding has
class_loop_lem nocase x found [] p h = rw (or_false found) (class_end nocase x found p)
class_loop_lem nocase x found (plain c ∷ more) p (h1, h) =
    let (b, q, e, other) = left more p h in
    let step : class_loop nocase x found (c ∷ write_items more p)
        ≡ class_loop nocase x (found || same_char nocase c x) (write_items more p) =
      rw e (plain_step nocase x found c b q h1 other) in
    rw (step, ← or_assoc found (same_char nocase c x) (has nocase x more))
      (class_loop_lem nocase x (found || same_char nocase c x) more p h)
class_loop_lem nocase x found (escaped c ∷ more) p h =
    let (b, q, e, other) = left more p h in
    let step : class_loop nocase x found (b'\\' ∷ c ∷ write_items more p)
        ≡ class_loop nocase x (found || (c == x)) (write_items more p) =
      rw e (unfold class_loop in refl) in
    rw (step, ← or_assoc found (c == x) (has nocase x more))
      (class_loop_lem nocase x (found || (c == x)) more p h)
class_loop_lem nocase x found (range a b ∷ more) p ((h1, h2, h3, h4), h) =
    let step : class_loop nocase x found (a ∷ b'-' ∷ b ∷ write_items more p)
        ≡ class_loop nocase x (found || in_range nocase a b x) (write_items more p) =
      unfold class_loop in rw (class_loop, h1, h2) refl in
    rw (step, ← or_assoc found (in_range nocase a b x) (has nocase x more))
      (class_loop_lem nocase x (found || in_range nocase a b x) more p h)

sign_of :
    (items : List Item) (p : List ℕ)
    → AreItems items
    → (is_negated (write_items items p) ≡ false)
      × (behind_sign (write_items items p) ≡ write_items items p)
sign_of [] p h = (refl, refl)
sign_of (plain c ∷ more) p (h, hs) = (h.3, rw h.3 refl)
sign_of (escaped c ∷ more) p h = (refl, refl)
sign_of (range a b ∷ more) p (h, hs) = (h.3, rw h.3 refl)

pub class_of_lem :
    (nocase : Bool) (x : ℕ) (items : List Item) (p : List ℕ)
    → AreItems items
    → (class_of nocase x (write_items items p) ≡ some (in_class nocase x false items, p))
      × (class_of nocase x (b'^' ∷ write_items items p) ≡ some (in_class nocase x true items, p))
class_of_lem nocase x items p h =
    let loop = class_loop_lem nocase x false items p h in
    let (sign, same) = sign_of items p h in
    (rw (class_of, same, loop, sign) refl, rw (class_of, loop) refl)
