-- ===== src/Sets/Tests.antt =====
-- Calls on a set of redis/src/t_set.c, and the theorem on them at concrete strings.
use coffee_table.Prelude.{
  ℕ, ◌≡◌, refl, Bool, true, false, ◌&&◌, some, List, [], ◌∷◌, ◌==◌, length, arith, inl, inr,
  Bool-cases,
}
use coffee_table.Dict.Bucket.{KeyType}
use coffee_table.Sets.{SetObject, set_type_create}
use coffee_table.Sets.Stands.{StandsFor}
use coffee_table.Sets.Runs.{SetCall, adds, takes, asks, set_calls, model_calls, set_calls_lem}

abbrev same_bytes : List ℕ → List ℕ → Bool
same_bytes [] [] = true
same_bytes [] (y ∷ t) = false
same_bytes (x ∷ s) [] = false
same_bytes (x ∷ s) (y ∷ t) = (x == y) && same_bytes s t

same_bytes_refl : (s : List ℕ) → same_bytes s s ≡ true
same_bytes_refl [] = refl
same_bytes_refl (x ∷ s) =
    let same : x == x ≡ true = ground arith in rw (same, same_bytes_refl s) refl

same_bytes-eq : (s t : List ℕ) → same_bytes s t ≡ true → s ≡ t
same_bytes-eq [] [] h = refl
same_bytes-eq [] (y ∷ t) h = cc
same_bytes-eq (x ∷ s) [] h = cc
same_bytes-eq (x ∷ s) (y ∷ t) h = elim (Bool-cases (x == y)) [
  | inl e ↦ let same : x ≡ y = ground arith in let rest = same_bytes-eq s t (rw e at h) in cc
  | inr e ↦ let no : false ≡ true = rw e at h in cc
]

instance abbrev byte_keys : KeyType (List ℕ)
byte_keys = record {
  hash = length;
  compare = same_bytes;
  compare_iff = λ a b. (same_bytes-eq a b, λ e. rw e (same_bytes_refl b));
}

-- The second integer is one too many for an integer set.
abbrev calls : List SetCall
calls =
    adds (b'7' ∷ [])
    ∷ adds (b'7' ∷ [])
    ∷ asks (b'7' ∷ [])
    ∷ adds (b'-' ∷ b'1' ∷ [])
    ∷ adds (b'a' ∷ [])
    ∷ takes (b'7' ∷ [])
    ∷ asks (b'7' ∷ [])
    ∷ asks (b'-' ∷ b'1' ∷ [])
    ∷ []

model_answers :
    (model_calls calls (λ q. false)).0
    ≡ true ∷ false ∷ true ∷ true ∷ true ∷ true ∷ false ∷ true ∷ []
model_answers = refl

set_calls_lem_example :
    (s' : SetObject) × (set_calls true 1 calls (set_type_create (b'7' ∷ []))
      ≡ some ((model_calls calls (λ q. false)).0, s'))
    × StandsFor 1 (model_calls calls (λ q. false)).1 s'
set_calls_lem_example = set_calls_lem true 1 calls (b'7' ∷ []) (omega arith) (omega arith)
