-- ===== src/Intset/Remove.antt =====
-- redis/src/intset.c: `intsetRemove`.
use coffee_table.Prelude.{
  ℕ, suc, ◌+◌, ◌-◌, ◌*◌, ◌≤◌, ◌<◌, ◌≡◌, refl, sym, ap, ◌∙◌, Bool, true, false, ◌&&◌, not, Option,
  some, arith, if◌then◌else◌, ltb, leb, Bool-cases, inl, inr,
}
use coffee_table.Prelude.Int.{ℤ}
use coffee_table.Intset.{
  Intset, Memory, width, fits, cell, value_encoding, eqb_ℤ, memmove, move_tail, delete_value,
  intset_remove, search_value, intset_find,
}
use coffee_table.Intset.Cells.{cell-memmove, cell-memmove_apart}
use coffee_table.Intset.Valid.{
  IsIntset, Values, delete_at, delete_at-IsSorted, delete_at_rule, member, member-delete_at,
  not_member, eqb_ℤ-eq, eqb_ℤ-ne,
}
use coffee_table.Intset.Search.{
  Located, search_value_lem, intset_find_lem, Located-member, wide_not_member,
}
use coffee_table.Intset.Upgrade.{no_wrap}
use coffee_table.Intset.Add.{move_tail_lem}

module _ (is : Intset) (v : Values) (ok : IsIntset is v) (p : ℕ) (inside : p < is.length) where
  record Closed (r : Option Intset) : Type 0 where
    contents : Memory
    run : r ≡ some (record is { contents = contents })
    low : (i : ℕ) → i < p → cell is.encoding contents i ≡ v i
    high : (i : ℕ) → p ≤ i → i < is.length - 1 → cell is.encoding contents i ≡ v (i + 1)

  closed : Closed (if ltb p (is.length - 1) then move_tail is (p + 1) p else some is)
  closed = elim (Bool-cases (ltb p (is.length - 1))) [
    | inl tail ↦
        let n = is.length in
        record {
          contents =
              memmove is.contents (p * width is.encoding) ((p + 1) * width is.encoding)
                ((n - (p + 1)) * width is.encoding);
          run = rw tail (
              move_tail_lem is n (p + 1) p ok.small ok.sized (omega arith) (omega arith)
                (omega arith));
          low = λ i h.
              cell-memmove_apart is.encoding is.contents i p (p + 1) (n - (p + 1)) (inl h)
              ∙ ok.cells i (omega arith);
          high = λ i h k.
              let next : i - p + (p + 1) ≡ i + 1 = omega arith in
              cell-memmove is.encoding is.contents i p (p + 1) (n - (p + 1)) h (omega arith)
              ∙ ap (cell is.encoding is.contents) next
              ∙ ok.cells (i + 1) (omega arith);
        }
    | inr end ↦ record {
      contents = is.contents;
      run = rw end refl;
      low = λ i h. ok.cells i (omega arith);
      high = λ i h k. absurd (ground arith);
    }
  ]

  delete_value_lem :
      (is' : Intset) × (delete_value is p ≡ some (true, is'))
      × (is'.length ≡ is.length - 1)
      × IsIntset is' (delete_at p v)
  unfolding delete_value
  delete_value_lem =
      let c = closed in
      let n = is.length in
      let sized = no_wrap is.encoding (n - 1) (omega (arith, ok.small)) in
      (
        record is { size = (n - 1) * width is.encoding; contents = c.contents; length = n - 1 },
        rw (c.run, sized) refl,
        refl,
        record {
          cells = λ i h.
              delete_at_rule (λ y. cell is.encoding c.contents i ≡ y) p v i (λ l. c.low i l)
                (λ g. c.high i g h);
          in_range = λ i h.
              delete_at_rule (λ y. fits is.encoding y ≡ true) p v i
                (λ l. ok.in_range i (omega arith)) (λ g. ok.in_range (i + 1) (omega arith));
          sorted = delete_at-IsSorted v p (n - 1) (λ i j h k. ok.sorted i j h (omega arith));
          sized = refl;
          small = omega (arith, ok.small);
        },
      )

  -- the others are not the value taken out
  others : member (delete_at p v) (is.length - 1) (v p) ≡ false
  others = not_member (delete_at p v) (is.length - 1) (v p) (λ i h.
      delete_at_rule (λ y. eqb_ℤ y (v p) ≡ false) p v i
        (λ l. (eqb_ℤ-ne (v i) (v p) (ok.sorted i p l inside)).0)
        (λ g. (eqb_ℤ-ne (v p) (v (i + 1)) (ok.sorted p (i + 1) (omega arith) (omega arith))).1))

  members_left :
      (y : ℤ)
      → member (delete_at p v) (is.length - 1) y ≡ (not (eqb_ℤ (v p) y) && member v is.length y)
  members_left y =
      let one : is.length ≡ suc (is.length - 1) = omega arith in
      let all = ap (λ n. member v n y) one ∙ member-delete_at v p (is.length - 1) (omega arith) y in
      elim (Bool-cases (eqb_ℤ (v p) y)) [
        | inl same ↦
            let e = eqb_ℤ-eq (v p) y same in
            ap (member (delete_at p v) (is.length - 1)) (sym e) ∙ others ∙ sym (rw same refl)
        | inr other ↦ sym (rw (all, other) refl)
      ]

-- What a removal promises: whether the value was there, a valid set, and its members.
pub record Removed (is : Intset) (v : Values) (x : ℤ) (r : Option (Bool × Intset)) : Type 0 where
  pub is' : Intset
  pub values : Values
  pub run : r ≡ some (member v is.length x, is')
  pub valid : IsIntset is' values
  pub counted : is'.length + (if member v is.length x then 1 else 0) ≡ is.length
  pub members : (y : ℤ) → member values is'.length y ≡ (not (eqb_ℤ x y) && member v is.length y)

absent_value :
    (is : Intset) (v : Values) (x : ℤ) {r : Option (Bool × Intset)}
    → member v is.length x ≡ false
    → r ≡ some (false, is)
    → IsIntset is v
    → Removed is v x r
absent_value is v x absent run ok = record {
  is' = is;
  values = v;
  run = rw absent run;
  valid = ok;
  counted = rw absent (omega arith);
  members = λ y. elim (Bool-cases (eqb_ℤ x y)) [
    | inl same ↦
        let e = eqb_ℤ-eq x y same in ap (member v is.length) (sym e) ∙ absent ∙ sym (rw same refl)
    | inr other ↦ sym (rw other refl)
  ];
}

present_value :
    (is : Intset) (v : Values) (x : ℤ) (p : ℕ) {r : Option (Bool × Intset)}
    → IsIntset is v
    → (p < is.length) × (v p ≡ x)
    → r ≡ delete_value is p
    → Removed is v x r
present_value is v x p ok there run =
    let present = Located-member v is.length x true p there in
    let d = delete_value_lem is v ok p there.0 in
    record {
      is' = d.0;
      values = delete_at p v;
      run = rw present (run ∙ d.1);
      valid = d.3;
      counted = rw (present, d.2) (omega (arith, there.0));
      members = λ y.
          ap (λ n. member (delete_at p v) n y) d.2
          ∙ members_left is v ok p there.0 y
          ∙ ap (λ z. not (eqb_ℤ z y) && member v is.length y) there.1;
    }

pub intset-Removed :
    (is : Intset) (v : Values) (x : ℤ) → IsIntset is v → Removed is v x (intset_remove is x)
unfolding intset_remove
intset-Removed is v x ok = elim (Bool-cases (leb (width (value_encoding x)) (width is.encoding))) [
  | inr wide ↦ absent_value is v x (wide_not_member is v x ok wide) (rw wide refl) ok
  | inl narrow ↦ located (search_value_lem is v x ok) narrow
]
  where
    located :
        (b : Bool) × (p : ℕ) × (search_value is x ≡ some (b, p)) × Located v is.length x b p
        → leb (width (value_encoding x)) (width is.encoding) ≡ true
        → Removed is v x (intset_remove is x)
    located (true, p, run, there) narrow = present_value is v x p ok there (rw (narrow, run) refl)
    located (false, p, run, there) narrow =
        absent_value is v x (Located-member v is.length x false p there) (rw (narrow, run) refl) ok

-- `intsetRemove` on a valid set ends without a fault and answers whether the integer was there. The set
-- is valid again, with one value less exactly for an integer that was there, and its members are those
-- that it had but the integer.
pub intset_remove_lem :
    (is : Intset) (v : Values) (x : ℤ)
    → IsIntset is v
    → (is' : Intset) × (v' : Values) × (intset_remove is x ≡ some (member v is.length x, is'))
      × IsIntset is' v'
      × (is'.length + (if member v is.length x then 1 else 0) ≡ is.length)
      × ((y : ℤ) → intset_find is' y ≡ some (not (eqb_ℤ x y) && member v is.length y))
unfolding intset_remove
intset_remove_lem is v x ok =
    let a = intset-Removed is v x ok in
    (
      a.is',
      a.values,
      a.run,
      a.valid,
      a.counted,
      λ y. intset_find_lem a.is' a.values y a.valid ∙ ap some (a.members y),
    )
