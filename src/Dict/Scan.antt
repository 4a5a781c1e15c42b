-- ===== src/Dict/Scan.antt =====
-- The scan of `dictRehash` (redis/src/dict.c) for the next bucket that is not empty.
use coffee_table.Prelude.{
  ℕ, zero, suc, ◌+◌, ◌<◌, ◌≡◌, refl, ap, ◌∙◌, some, List, [], ◌∷◌, arith, length, get_or, drop,
  total,
}
use coffee_table.Dict.{scan_used}
use coffee_table.Dict.Bucket.{Chain}

module _ {ℓ} {K V : Type ℓ} where
  pub record Scanned (t : List (Chain K V)) (first : ℕ) : Type ℓ where
    pub skipped : ℕ
    pub run : scan_used t first ≡ some (first + skipped)
    pub inside : skipped < length t
    pub empty : (j : ℕ) → j < skipped → get_or t j [] ≡ []

  pub scanned : (t : List (Chain K V)) (first : ℕ) → 0 < total t → Scanned t first
  unfolding scan_used total
  scanned [] first h = absurd (omega arith)
  scanned ((e ∷ c) ∷ t) first h = record {
    skipped = 0;
    run = ap some (omega arith);
    inside = omega arith;
    empty = λ j p. absurd (omega arith);
  }
  scanned ([] ∷ t) first h =
      let rest = scanned t (first + 1) (omega arith) in
      record {
        skipped = suc rest.skipped;
        run = rest.run ∙ ap some (omega arith);
        inside = omega (arith, rest.inside);
        empty = skip rest.skipped rest.empty;
      }
    where
      skip :
          (n : ℕ)
          → ((j : ℕ) → j < n → get_or t j [] ≡ [])
          → (j : ℕ) → j < suc n
          → get_or ([] ∷ t) j [] ≡ []
      skip n h zero p = refl
      skip n h (suc j) p = h j (omega arith)

  pub get_or-drop : (r j : ℕ) (t : List (Chain K V)) → get_or (drop r t) j [] ≡ get_or t (r + j) []
  get_or-drop zero j t = ap (λ n. get_or t n []) (omega arith)
  get_or-drop (suc r) j [] = refl
  get_or-drop (suc r) j (c ∷ t) =
      get_or-drop r j t ∙ ap (λ n. get_or (c ∷ t) n []) {x = suc (r + j)} (omega arith)

  -- Dropping empty buckets drops no entry.
  pub total-drop :
      (r : ℕ) (t : List (Chain K V))
      → ((i : ℕ) → i < r → get_or t i [] ≡ [])
      → total (drop r t) ≡ total t
  unfolding total
  total-drop zero t h = refl
  total-drop (suc r) [] h = refl
  total-drop (suc r) (c ∷ t) h =
      omega (arith, total-drop r t (λ i p. h (suc i) (omega arith)), ap length (h 0 (omega arith)))
