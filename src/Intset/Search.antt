-- ===== src/Intset/Search.antt =====
-- redis/src/intset.c: the binary search.
use coffee_table.Prelude.{
  ℕ, zero, suc, ◌+◌, ◌-◌, ◌/◌, ◌≤◌, ◌<◌, ◌≡◌, refl, Bool, true, false, Option, some, arith, ltb,
  leb, ◌==◌, Bool-cases, inl, inr, ◌⊎◌,
}
use coffee_table.Prelude.Int.{ℤ, negsuc, ltb_ℤ}
use coffee_table.Intset.{
  Intset, Enc, search_loop, search_result, search_value, eqb_ℤ, intset_find, width, value_encoding,
  fits,
}
use coffee_table.Intset.Valid.{
  IsIntset, Values, ◌<ℤ◌, get_value-runs, member, is_member, not_member, eqb_ℤ-ne, eqb_ℤ_refl,
}

-- Where a search for `x` ends among the first `n` values: at `x`, or between the smaller and the larger.
abbrev pub Located : Values → ℕ → ℤ → Bool → ℕ → Type 0
Located v n x true p = (p < n) × (v p ≡ x)
Located v n x false p =
    (p ≤ n) × ((i : ℕ) → i < p → v i <ℤ x) × ((i : ℕ) → p ≤ i → i < n → x <ℤ v i)

record Searched (v : Values) (n : ℕ) (x : ℤ) (r : Option (ℕ × ℕ × ℤ)) : Type 0 where
  b : Bool
  p : ℕ
  out : ℕ × ℕ × ℤ
  run : r ≡ some out
  result : search_result x out ≡ some (b, p)
  located : Located v n x b p

trichotomy :
    (a b : ℤ)
    → (ltb_ℤ a b ≡ true)
      ⊎ ((ltb_ℤ a b ≡ false) × (ltb_ℤ b a ≡ true))
      ⊎ ((ltb_ℤ a b ≡ false) × (ltb_ℤ b a ≡ false) × (a ≡ b))
trichotomy a b = ground arith

found_result :
    (x : ℤ) (v : ℤ) (min mid : ℕ) → v ≡ x → search_result x (min, mid, v) ≡ some (true, mid)
found_result x v min mid h = rw (h, eqb_ℤ_refl x) refl

module _ (is : Intset) (v : Values) (x : ℤ) (ok : IsIntset is v) where
  below : (i m : ℕ) → i ≤ m → m < is.length → v m <ℤ x → v i <ℤ x
  below i m h k lt = elim (Bool-cases (i == m)) [
    | inl e ↦ let same : i ≡ m = ground arith in rw same lt
    | inr e ↦ omega (arith, ok.sorted i m (ground arith) k)
  ]

  above_all : (m i : ℕ) → m ≤ i → i < is.length → x <ℤ v m → x <ℤ v i
  above_all m i h k lt = elim (Bool-cases (i == m)) [
    | inl e ↦ let same : i ≡ m = ground arith in rw same lt
    | inr e ↦ omega (arith, ok.sorted m i (ground arith) k)
  ]

  missed :
      (cur : ℤ) (min above : ℕ)
      → (eqb_ℤ x cur ≡ false) ⊎ (min < above)
      → ltb min above ≡ false
      → eqb_ℤ x cur ≡ false
  missed cur min above (inl h) done = h
  missed cur min above (inr h) done = absurd (ground arith)

  loop_searches :
      (fuel min above mid : ℕ) (cur : ℤ)
      → above < min + fuel
      → min ≤ above
      → above ≤ is.length
      → (eqb_ℤ x cur ≡ false) ⊎ (min < above)
      → ((i : ℕ) → i < min → v i <ℤ x)
      → ((i : ℕ) → above ≤ i → i < is.length → x <ℤ v i)
      → Searched v is.length x (search_loop fuel is x min above mid cur)
  unfolding search_loop
  loop_searches zero min above mid cur enough order inside miss low high = absurd (omega arith)
  loop_searches (suc fuel) min above mid cur enough order inside miss low high =
      elim (Bool-cases (ltb min above)) [
        | inr done ↦ rw done (record {
          b = false;
          p = min;
          out = (min, mid, cur);
          run = refl;
          result = rw (missed cur min above miss done) refl;
          located = (omega arith, low, λ i h k. high i (ground arith) k);
        })
        | inl more ↦
            let m = (min + (above - 1)) / 2 in
            let lower : min ≤ m = ground arith in
            let upper : m < above = ground arith in
            let read = get_value-runs is v m ok (omega arith) in
            elim (trichotomy (v m) x) [
              | inl right ↦
                  rw (more, read, right)
                    (loop_searches fuel (m + 1) above m (v m) (omega arith) (omega arith) inside
                      (inl (eqb_ℤ-ne (v m) x (ground arith)).1)
                      (λ i h. below i m (omega arith) (omega arith) (ground arith)) high)
              | inr (inl (stay, left)) ↦
                  rw (more, read, stay, left)
                    (loop_searches fuel min m m (v m) (omega arith) lower (omega arith)
                      (inl (eqb_ℤ-ne x (v m) (ground arith)).0) low
                      (λ i h k. above_all m i h k (ground arith)))
              | inr (inr (stay, stop, same)) ↦
                  rw (more, read, stay, stop)
                    (record {
                      b = true;
                      p = m;
                      out = (min, m, v m);
                      run = refl;
                      result = found_result x (v m) min m same;
                      located = (omega arith, same);
                    })
            ]
      ]

  -- On a valid set `intsetSearch` ends, reads only cells of the array, and finds the position of the
  -- value or the one where it belongs, between the smaller and the larger values.
  pub search_value_lem :
      (b : Bool) × (p : ℕ) × (search_value is x ≡ some (b, p)) × Located v is.length x b p
  unfolding search_value
  search_value_lem = elim (Bool-cases (is.length == 0)) [
    | inl empty ↦ (
      false,
      0,
      rw empty refl,
      (omega arith, λ i h. absurd (omega arith), λ i h k. absurd (ground arith)),
    )
    | inr some_value ↦
        let positive : 0 < is.length = ground arith in
        let read_last = get_value-runs is v (is.length - 1) ok (omega arith) in
        let read_first = get_value-runs is v 0 ok positive in
        elim (Bool-cases (ltb_ℤ (v (is.length - 1)) x)) [
          | inl beyond ↦ (
            false,
            is.length,
            rw (some_value, read_last, beyond) refl,
            (
              omega arith,
              λ i h. below i (is.length - 1) (omega arith) (omega arith) (ground arith),
              λ i h k. absurd (omega arith),
            ),
          )
          | inr within ↦ elim (Bool-cases (ltb_ℤ x (v 0))) [
            | inl before ↦ (
              false,
              0,
              rw (some_value, read_last, within, read_first, before) refl,
              (
                omega arith,
                λ i h. absurd (omega arith),
                λ i h k. above_all 0 i (omega arith) k (ground arith),
              ),
            )
            | inr after ↦
                let r =
                  loop_searches (is.length + 1) 0 is.length 0 (negsuc 0) (omega arith) (omega arith)
                    (omega arith) (inr positive) (λ i h. absurd (omega arith))
                    (λ i h k. absurd (omega arith)) in
                (
                  r.b,
                  r.p,
                  rw (some_value, read_last, within, read_first, after, r.run) r.result,
                  r.located,
                )
          ]
        ]
  ]

pub Located-member :
    (v : Values) (n : ℕ) (x : ℤ) (b : Bool) (p : ℕ) → Located v n x b p → member v n x ≡ b
Located-member v n x true p h = is_member v n x p h.0 (rw h.1 (eqb_ℤ_refl x))
Located-member v n x false p h = not_member v n x (λ i k. elim (Bool-cases (ltb i p)) [
  | inl low ↦ (eqb_ℤ-ne (v i) x (h.1 i (ground arith))).0
  | inr high ↦ (eqb_ℤ-ne x (v i) (h.2 i (ground arith) k)).1
])

-- a value that needs more bytes is none of the set's
too_wide :
    (e : Enc) (x y : ℤ)
    → leb (width (value_encoding x)) (width e) ≡ false
    → fits e y ≡ true
    → eqb_ℤ y x ≡ false
too_wide Enc.int16 x y h k = ground arith
too_wide Enc.int32 x y h k = ground arith
too_wide Enc.int64 x y h k = ground arith

pub wide_not_member :
    (is : Intset) (v : Values) (x : ℤ)
    → IsIntset is v
    → leb (width (value_encoding x)) (width is.encoding) ≡ false
    → member v is.length x ≡ false
wide_not_member is v x ok wide =
    not_member v is.length x (λ i h. too_wide is.encoding x (v i) wide (ok.in_range i h))

-- `intsetFind` on a valid set ends without a fault, and answers whether the value is one of the set's.
pub intset_find_lem :
    (is : Intset) (v : Values) (x : ℤ)
    → IsIntset is v
    → intset_find is x ≡ some (member v is.length x)
unfolding intset_find
intset_find_lem is v x ok = elim (Bool-cases (leb (width (value_encoding x)) (width is.encoding))) [
  | inl narrow ↦
      let (b, p, run, where_found) = search_value_lem is v x ok in
      rw (narrow, run, Located-member v is.length x b p where_found) refl
  | inr wide ↦ rw (wide, wide_not_member is v x ok wide) refl
]
