-- ===== src/Sets/Members.antt =====
-- redis/src/t_set.c: strings that are integers, among the members of an integer set.
use coffee_table.Prelude.{
  ℕ, ◌≡◌, refl, ap, sym, ◌∙◌, inl, inr, Bool, true, false, ◌&&◌, ◌||◌, not, Option, none, some,
  List, Bool-cases, Option-cases, is_some, if◌then◌else◌, arith,
}
use coffee_table.Prelude.Int.{ℤ, pos, negsuc}
use coffee_table.Util.{ll2string, string2ll, fits_long}
use coffee_table.Util.Canonical.{ll2string-string2ll}
use coffee_table.Intset.{eqb_ℤ, Enc, fits}
use coffee_table.Intset.Valid.{eqb_ℤ-eq, eqb_ℤ_refl}
use coffee_table.Dict.Bucket.{KeyType}

-- a test on the integer that a string is, if it is one
abbrev pub over : (ℤ → Bool) → List ℕ → Bool
over f q = elim (string2ll q) [ none ↦ false | some k ↦ f k ]

pub fits-wide : (e : Enc) (x : ℤ) → fits e x ≡ true → fits_long x ≡ true
fits-wide Enc.int16 (pos n) h = ground arith
fits-wide Enc.int16 (negsuc n) h = ground arith
fits-wide Enc.int32 (pos n) h = ground arith
fits-wide Enc.int32 (negsuc n) h = ground arith
fits-wide Enc.int64 (pos n) h = ground arith
fits-wide Enc.int64 (negsuc n) h = ground arith

pub wide-fits : (x : ℤ) → fits_long x ≡ true → fits Enc.int64 x ≡ true
wide-fits (pos n) h = ground arith
wide-fits (negsuc n) h = ground arith

pub is_some-none {ℓ} : {A : Type ℓ} (o : Option A) → is_some o ≡ false → o ≡ none
is_some-none none h = refl
is_some-none (some x) h = cc

module _ ⦃type : KeyType (List ℕ)⦄ where
  one_string :
      (s q : List ℕ) (n k : ℤ)
      → string2ll s ≡ some n
      → string2ll q ≡ some k
      → eqb_ℤ n k ≡ true
      → q ≡ s
  one_string s q n k hs hq e =
      sym (ll2string-string2ll 32 q k (omega arith) hq)
      ∙ ap (ll2string 32) (sym (eqb_ℤ-eq n k e))
      ∙ ll2string-string2ll 32 s n (omega arith) hs

  -- Two strings that are integers are the same if the integers are.
  pub same_int :
      (s q : List ℕ) (n : ℤ) → string2ll s ≡ some n → over (λ k. eqb_ℤ n k) q ≡ type.compare q s
  same_int s q n hs = elim (Bool-cases (type.compare q s)) [
    | inl same ↦
        let e : q ≡ s = (type.compare_iff q s).0 same in rw (over, same, e, hs, eqb_ℤ_refl n) refl
    | inr other ↦ elim (Option-cases (string2ll q)) [
      | inl nothing ↦ rw (over, nothing, other) refl
      | inr (k, hq) ↦ elim (Bool-cases (eqb_ℤ n k)) [
        | inl equal ↦
            let same : type.compare q s ≡ true =
              (type.compare_iff q s).1 (one_string s q n k hs hq equal) in
            let clash : true ≡ false = sym same ∙ other in cc
        | inr apart ↦ rw (over, hq, apart, other) refl
      ]
    ]
  ]

  pub over-or :
      (s q : List ℕ) (n : ℤ) (g : ℤ → Bool)
      → string2ll s ≡ some n
      → over (λ k. eqb_ℤ n k || g k) q ≡ (type.compare q s || over g q)
  over-or s q n g hs = elim (Option-cases (string2ll q)) [
    | inl nothing ↦
        let c : false ≡ type.compare q s = rw (over, nothing) at (same_int s q n hs) in
        rw (over, nothing, ← c) refl
    | inr (k, hq) ↦
        let c : eqb_ℤ n k ≡ type.compare q s = rw (over, hq) at (same_int s q n hs) in
        rw (over, hq, ← c) refl
  ]

  pub over-and :
      (s q : List ℕ) (n : ℤ) (g : ℤ → Bool)
      → string2ll s ≡ some n
      → over (λ k. not (eqb_ℤ n k) && g k) q ≡ (not (type.compare q s) && over g q)
  over-and s q n g hs = elim (Option-cases (string2ll q)) [
    | inl nothing ↦
        let c : false ≡ type.compare q s = rw (over, nothing) at (same_int s q n hs) in
        rw (over, nothing, ← c) refl
    | inr (k, hq) ↦
        let c : eqb_ℤ n k ≡ type.compare q s = rw (over, hq) at (same_int s q n hs) in
        rw (over, hq, ← c) refl
  ]

  -- the members of a dictionary behind an addition or a deletion
  pub is_some-or :
      {A : Type 0} (q s : List ℕ) (x : A) (o : Option A)
      → is_some (if type.compare q s then some x else o) ≡ (type.compare q s || is_some o)
  is_some-or q s x o = elim (Bool-cases (type.compare q s)) [
    | inl h ↦ rw h refl
    | inr h ↦ rw h refl
  ]

  pub is_some-and :
      {A : Type 0} (q s : List ℕ) (o : Option A)
      → is_some (if type.compare q s then none else o) ≡ (not (type.compare q s) && is_some o)
  is_some-and q s o = elim (Bool-cases (type.compare q s)) [ inl h ↦ rw h refl | inr h ↦ rw h refl ]
