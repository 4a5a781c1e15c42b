-- ===== src/Intset/Add.antt =====
-- redis/src/intset.c: `intsetAdd`.
use coffee_table.Prelude.{
  ℕ, suc, ◌+◌, ◌-◌, ◌*◌, ◌%◌, ◌^◌, ◌≤◌, ◌<◌, ◌≡◌, refl, sym, ap, ◌∙◌, Bool, true, false, ◌||◌, not,
  Option, some, arith, if◌then◌else◌, ltb, leb, Bool-cases, inl, inr,
}
use coffee_table.Prelude.Int.{ℤ}
use coffee_table.Intset.{
  Intset, Enc, int16, int32, int64, Memory, width, fits, cell, put_cell, set_value, value_encoding,
  eqb_ℤ, memmove, move_tail, insert_value, intset_add, intset_resize, search_value, intset_find,
}
use coffee_table.Intset.Cells.{cell-put_cell, cell-put_cell_ne, cell-memmove, cell-memmove_apart}
use coffee_table.Intset.Valid.{
  IsIntset, Values, insert_at, insert_at-IsSorted, insert_at_rule, cell_fits, member,
  member-insert_at, eqb_ℤ-eq,
}
use coffee_table.Intset.Search.{
  Located, search_value_lem, intset_find_lem, Located-member, wide_not_member,
}
use coffee_table.Intset.Upgrade.{upgrade_and_add_lem, no_wrap}

tail_fits :
    (e : Enc) (n from to count : ℕ)
    → from + count ≤ n
    → to + count ≤ n
    → (leb (from * width e + count * width e) (n * width e) ≡ true)
      × (leb (to * width e + count * width e) (n * width e) ≡ true)
tail_fits int16 n from to count h k = (ground arith, ground arith)
tail_fits int32 n from to count h k = (ground arith, ground arith)
tail_fits int64 n from to count h k = (ground arith, ground arith)

pub move_tail_lem :
    (is : Intset) (n from to : ℕ)
    → is.length * 8 < 2 ^ 32
    → is.size ≡ n * width is.encoding
    → from ≤ is.length
    → is.length ≤ n
    → to + (is.length - from) ≤ n
    → move_tail is from to
      ≡ some (record is {
        contents =
            memmove is.contents
              (to * width is.encoding)
              (from * width is.encoding)
              ((is.length - from) * width is.encoding);
      })
unfolding move_tail
move_tail_lem is n from to small sized h k l =
    let count = is.length - from in
    let fit = tail_fits is.encoding n from to count (omega arith) l in
    rw (no_wrap is.encoding count (omega arith), sized, fit.0, fit.1) refl

pub narrow-fits :
    (e : Enc) (x : ℤ)
    → fits int64 x ≡ true
    → ltb (width e) (width (value_encoding x)) ≡ false
    → fits e x ≡ true
narrow-fits int16 x h k = ground arith
narrow-fits int32 x h k = ground arith
narrow-fits int64 x h k = h

module _ (is : Intset) (v : Values) (x : ℤ) (ok : IsIntset is v) (range : fits is.encoding x ≡ true)
    (room : (is.length + 1) * 8 < 2 ^ 32) (p : ℕ) (there : Located v is.length x false p) where
  resized : Intset
  resized = intset_resize is (is.length + 1)

  record Opened (r : Option Intset) : Type 0 where
    contents : Memory
    run : r ≡ some (record is { size = (is.length + 1) * width is.encoding; contents = contents })
    low : (i : ℕ) → i < p → cell is.encoding contents i ≡ v i
    high : (i : ℕ) → p < i → i < is.length + 1 → cell is.encoding contents i ≡ v (i - 1)

  opened : Opened (if ltb p resized.length then move_tail resized p (p + 1) else some resized)
  unfolding resized
  opened = elim (Bool-cases (ltb p is.length)) [
    | inl inside ↦
        let n = is.length in
        let sized = no_wrap is.encoding (n + 1) room in
        let span : p + 1 + (n - p) ≡ n + 1 = ground arith in
        record {
          contents =
              memmove is.contents ((p + 1) * width is.encoding) (p * width is.encoding)
                ((n - p) * width is.encoding);
          run =
              rw
                (
                  inside,
                  move_tail_lem resized (n + 1) p (p + 1) ok.small sized (omega arith) (omega arith)
                      (omega arith),
                  sized,
                )
                refl;
          low = λ i h.
              cell-memmove_apart is.encoding is.contents i (p + 1) p (n - p) (inl (omega arith))
              ∙ ok.cells i (omega arith);
          high = λ i h k.
              let back : i - (p + 1) + p ≡ i - 1 = omega arith in
              cell-memmove is.encoding is.contents i (p + 1) p (n - p) (omega arith) (omega arith)
              ∙ ap (cell is.encoding is.contents) back
              ∙ ok.cells (i - 1) (omega arith);
        }
    | inr end ↦ record {
      contents = is.contents;
      run = rw (end, no_wrap is.encoding (is.length + 1) room) refl;
      low = λ i h. ok.cells i (omega arith);
      high = λ i h k. absurd (ground arith);
    }
  ]

  -- the new value has gone in, and the set is valid
  insert_value_lem :
      (is' : Intset) × (insert_value is x p ≡ some (true, is'))
      × (is'.length ≡ is.length + 1)
      × IsIntset is' (insert_at p x v)
  unfolding insert_value set_value resized
  insert_value_lem =
      let o = opened in
      let n = is.length in
      let len : (n + 1) % 2 ^ 32 ≡ n + 1 = omega arith in
      let m = put_cell is.encoding o.contents p x in
      (
        record is { size = (n + 1) * width is.encoding; contents = m; length = n + 1 },
        rw (o.run, cell_fits is.encoding p (n + 1) (omega arith), len) refl,
        refl,
        record {
          cells = λ i h.
              insert_at_rule (λ y. cell is.encoding m i ≡ y) p x v i
                (λ l. cell-put_cell_ne is.encoding o.contents p i x (λ e. omega arith) ∙ o.low i l)
                (λ e. rw e (cell-put_cell is.encoding o.contents p x range))
                (λ g.
                  cell-put_cell_ne is.encoding o.contents p i x (λ e. omega arith) ∙ o.high i g h);
          in_range = λ i h.
              insert_at_rule (λ y. fits is.encoding y ≡ true) p x v i
                (λ l. ok.in_range i (omega arith)) (λ e. range)
                (λ g. ok.in_range (i - 1) (omega arith));
          sorted = insert_at-IsSorted v p n x (omega arith) ok.sorted there.1 there.2;
          sized = refl;
          small = room;
        },
      )

-- What an insertion promises: whether the value is new, a valid set, and its members.
pub record Added (is : Intset) (v : Values) (x : ℤ) (r : Option (Bool × Intset)) : Type 0 where
  pub is' : Intset
  pub values : Values
  pub run : r ≡ some (not (member v is.length x), is')
  pub valid : IsIntset is' values
  pub counted : is'.length ≡ is.length + (if member v is.length x then 0 else 1)
  pub members : (y : ℤ) → member values is'.length y ≡ (eqb_ℤ x y || member v is.length y)

new_value :
    (is is' : Intset) (v : Values) (x : ℤ) (p : ℕ) {r : Option (Bool × Intset)}
    → member v is.length x ≡ false
    → r ≡ some (true, is')
    → p ≤ is.length
    → is'.length ≡ is.length + 1
    → IsIntset is' (insert_at p x v)
    → Added is v x r
new_value is is' v x p absent run within longer valid = record {
  is' = is';
  values = insert_at p x v;
  run = rw absent run;
  valid = valid;
  counted = rw absent longer;
  members = λ y.
      let one : is.length + 1 ≡ suc is.length = omega arith in
      ap (λ n. member (insert_at p x v) n y) (longer ∙ one)
      ∙ member-insert_at v p x is.length within y;
}

old_value :
    (is : Intset) (v : Values) (x : ℤ) {r : Option (Bool × Intset)}
    → member v is.length x ≡ true
    → r ≡ some (false, is)
    → IsIntset is v
    → Added is v x r
old_value is v x present run ok = record {
  is' = is;
  values = v;
  run = rw present run;
  valid = ok;
  counted = rw present (omega arith);
  members = λ y. elim (Bool-cases (eqb_ℤ x y)) [
    | inl same ↦
        let e = eqb_ℤ-eq x y same in ap (member v is.length) (sym e) ∙ present ∙ sym (rw same refl)
    | inr other ↦ rw other refl
  ];
}

pub intset-Added :
    (is : Intset) (v : Values) (x : ℤ)
    → IsIntset is v
    → fits int64 x ≡ true
    → (is.length + 1) * 8 < 2 ^ 32
    → Added is v x (intset_add is x)
unfolding intset_add
intset-Added is v x ok range room =
    elim (Bool-cases (ltb (width is.encoding) (width (value_encoding x)))) [
      | inl wide ↦
          let u = upgrade_and_add_lem is v x ok range room wide in
          new_value is u.is' v x u.p (wide_not_member is v x ok (ground arith))
            (rw (wide, u.run) refl) u.within u.longer u.valid
      | inr narrow ↦ located (search_value_lem is v x ok) narrow
    ]
  where
    located :
        (b : Bool) × (p : ℕ) × (search_value is x ≡ some (b, p)) × Located v is.length x b p
        → ltb (width is.encoding) (width (value_encoding x)) ≡ false
        → Added is v x (intset_add is x)
    located (true, p, run, there) narrow =
        old_value is v x (Located-member v is.length x true p there) (rw (narrow, run) refl) ok
    located (false, p, run, there) narrow =
        let i = insert_value_lem is v x ok (narrow-fits is.encoding x range narrow) room p there in
        new_value is i.0 v x p (Located-member v is.length x false p there) (rw (narrow, run) i.1)
          there.0 i.2 i.3

-- `intsetAdd` of a 64-bit integer to a valid set, not too large for its 32-bit sizes, ends without a
-- fault and answers whether the integer was new. The set is valid again, with one value more exactly
-- for a new integer, and its members are the integer and those that it had.
pub intset_add_lem :
    (is : Intset) (v : Values) (x : ℤ)
    → IsIntset is v
    → fits int64 x ≡ true
    → (is.length + 1) * 8 < 2 ^ 32
    → (is' : Intset) × (v' : Values) × (intset_add is x ≡ some (not (member v is.length x), is'))
      × IsIntset is' v'
      × (is'.length ≡ is.length + (if member v is.length x then 0 else 1))
      × ((y : ℤ) → intset_find is' y ≡ some (eqb_ℤ x y || member v is.length y))
intset_add_lem is v x ok range room =
    let a = intset-Added is v x ok range room in
    (
      a.is',
      a.values,
      a.run,
      a.valid,
      a.counted,
      λ y. intset_find_lem a.is' a.values y a.valid ∙ ap some (a.members y),
    )
