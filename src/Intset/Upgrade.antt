-- ===== src/Intset/Upgrade.antt =====
-- redis/src/intset.c: the upgrade to a wider encoding, in place and from the back.
use coffee_table.Prelude.{
  ℕ, zero, suc, ◌+◌, ◌-◌, ◌*◌, ◌%◌, ◌^◌, ◌≤◌, ◌<◌, ◌≡◌, refl, sym, ap, ◌∙◌, true, false, Option,
  some, arith, ltb, leb, ◌==◌, Bool-cases, inl, inr,
}
use coffee_table.Prelude.Int.{ℤ, pos, negsuc}
use coffee_table.Intset.{
  Intset, Enc, int16, int32, int64, Memory, width, fits, cell, put_cell, get_encoded, set_value,
  value_encoding, upgrade_loop, upgrade_and_add, intset_resize, is_negative,
}
use coffee_table.Intset.Cells.{cell-put_cell, cell-put_cell_apart, cell-put_cell_ne, narrower_below}
use coffee_table.Intset.Valid.{
  IsIntset, Values, ◌<ℤ◌, insert_at, insert_at-IsSorted, insert_at_rule, cell_fits,
}

pub fits_wider : (e e' : Enc) (x : ℤ) → width e ≤ width e' → fits e x ≡ true → fits e' x ≡ true
fits_wider int16 int16 x h k = k
fits_wider int16 int32 x h k = ground arith
fits_wider int16 int64 x h k = ground arith
fits_wider int32 int16 x h k = absurd (omega arith)
fits_wider int32 int32 x h k = k
fits_wider int32 int64 x h k = ground arith
fits_wider int64 int16 x h k = absurd (omega arith)
fits_wider int64 int32 x h k = absurd (omega arith)
fits_wider int64 int64 x h k = k

old_inside :
    (e e' : Enc) (k n : ℕ)
    → width e ≤ width e'
    → k < n
    → leb ((k + 1) * width e) (n * width e') ≡ true
old_inside int16 int16 k n h l = ground arith
old_inside int16 int32 k n h l = ground arith
old_inside int16 int64 k n h l = ground arith
old_inside int32 int16 k n h l = absurd (omega arith)
old_inside int32 int32 k n h l = ground arith
old_inside int32 int64 k n h l = ground arith
old_inside int64 int16 k n h l = absurd (omega arith)
old_inside int64 int32 k n h l = absurd (omega arith)
old_inside int64 int64 k n h l = ground arith

-- What the loop does with the first `n` values: they move up by `p`, and the cells behind stay.
record Upgraded (v : Values) (e' : Enc) (n p : ℕ) (is : Intset) (r : Option Intset) : Type 0 where
  contents : Memory
  run : r ≡ some (record is { contents = contents })
  moved : (i : ℕ) → i < n → cell e' contents (i + p) ≡ v i
  behind : (j : ℕ) → n + p ≤ j → cell e' contents j ≡ cell e' is.contents j

upgrade_loop_lem :
    (v : Values) (e e' : Enc) (n p total : ℕ) (is : Intset)
    → is.encoding ≡ e'
    → width e ≤ width e'
    → is.size ≡ total * width e'
    → n + p ≤ total
    → ((i : ℕ) → i < n → cell e is.contents i ≡ v i)
    → ((i : ℕ) → i < n → fits e' (v i) ≡ true)
    → Upgraded v e' n p is (upgrade_loop n p e is)
unfolding upgrade_loop
upgrade_loop_lem v e e' zero p total is same wider sized room cells range = record {
  contents = is.contents;
  run = refl;
  moved = λ i h. absurd (omega arith);
  behind = λ j h. refl;
}
upgrade_loop_lem v e e' (suc k) p total is same wider sized room cells range =
    let m' = put_cell e' is.contents (k + p) (v k) in
    let is' : Intset = record is { contents = m' } in
    let read : get_encoded is k e ≡ some (v k) =
      unfold get_encoded in
      rw (sized, old_inside e e' k total wider (omega arith), cells k (omega arith)) refl in
    let written : set_value is (k + p) (v k) ≡ some is' =
      unfold set_value in rw (same, sized, cell_fits e' (k + p) total (omega arith)) refl in
    let rest =
      upgrade_loop_lem v e e' k p total is' same wider sized (omega arith)
        (λ i h.
          cell-put_cell_apart e' e is.contents (k + p) i (v k)
            (inl (narrower_below e' e i k p wider h))
          ∙ cells i (omega arith))
        (λ i h. range i (omega arith)) in
    record {
      contents = rest.contents;
      run = rw (read, written) rest.run;
      moved = λ i h. elim (Bool-cases (i == k)) [
        | inl here ↦
            let e0 : i ≡ k = ground arith in
            rw e0 (
              rest.behind (k + p) (omega arith)
              ∙ cell-put_cell e' is.contents (k + p) (v k) (range k (omega arith)))
        | inr below ↦ rest.moved i (ground arith)
      ];
      behind = λ j h.
          rest.behind j (omega arith)
          ∙ cell-put_cell_ne e' is.contents (k + p) j (v k) (λ e0. omega arith);
    }

pub value_encoding-fits : (x : ℤ) → fits int64 x ≡ true → fits (value_encoding x) x ≡ true
value_encoding-fits (pos n) h = ground arith
value_encoding-fits (negsuc n) h = ground arith

-- a value that needs a wider encoding lies beyond all values of the set
beyond :
    (e : Enc) (x y : ℤ)
    → ltb (width e) (width (value_encoding x)) ≡ true
    → is_negative x ≡ false
    → fits e y ≡ true
    → y <ℤ x
beyond int16 x y h k f = ground arith
beyond int32 x y h k f = ground arith
beyond int64 x y h k f = ground arith

before :
    (e : Enc) (x y : ℤ)
    → ltb (width e) (width (value_encoding x)) ≡ true
    → is_negative x ≡ true
    → fits e y ≡ true
    → x <ℤ y
before int16 x y h k f = ground arith
before int32 x y h k f = ground arith
before int64 x y h k f = ground arith

pub no_wrap : (e : Enc) (n : ℕ) → n * 8 < 2 ^ 32 → n * width e % 2 ^ 32 ≡ n * width e
no_wrap int16 n h = omega arith
no_wrap int32 n h = omega arith
no_wrap int64 n h = omega arith

pub record Inserted (is : Intset) (v : Values) (x : ℤ) (r : Option Intset) : Type 0 where
  pub is' : Intset
  pub p : ℕ
  pub run : r ≡ some is'
  pub within : p ≤ is.length
  pub longer : is'.length ≡ is.length + 1
  pub valid : IsIntset is' (insert_at p x v)

module _ (is : Intset) (v : Values) (x : ℤ) (ok : IsIntset is v) (range : fits int64 x ≡ true)
    (room : (is.length + 1) * 8 < 2 ^ 32)
    (wide : ltb (width is.encoding) (width (value_encoding x)) ≡ true) where
  wider : Enc
  wider = value_encoding x

  resized : Intset
  resized = intset_resize (record is { encoding = value_encoding x }) (is.length + 1)

  looped :
      (p : ℕ)
      → p ≤ 1
      → Upgraded v wider is.length p resized (upgrade_loop is.length p is.encoding resized)
  unfolding resized wider
  looped p h =
      upgrade_loop_lem v is.encoding wider is.length p (is.length + 1) resized refl (ground arith)
        (no_wrap wider (is.length + 1) room) (omega arith) ok.cells
        (λ i h. fits_wider is.encoding wider (v i) (ground arith) (ok.in_range i h))

  inserted_range :
      (p i : ℕ)
      → p ≤ is.length
      → i < is.length + 1
      → fits (value_encoding x) (insert_at p x v i) ≡ true
  inserted_range p i h k =
      let e' = value_encoding x in
      let old = λ (j : ℕ) (l : j < is.length).
        fits_wider is.encoding e' (v j) (ground arith) (ok.in_range j l) in
      insert_at_rule (λ y. fits e' y ≡ true) p x v i (λ l. old i (omega arith))
        (λ e. value_encoding-fits x range) (λ g. old (i - 1) (omega arith))

  prepended : is_negative x ≡ true → Inserted is v x (upgrade_and_add is x)
  unfolding upgrade_and_add set_value resized wider
  prepended negative =
      let r = looped 1 (omega arith) in
      let e' = value_encoding x in
      let sized = no_wrap e' (is.length + 1) room in
      let len : (is.length + 1) % 2 ^ 32 ≡ is.length + 1 = omega arith in
      record {
        is' = record resized { contents = put_cell e' r.contents 0 x; length = is.length + 1 };
        p = 0;
        run = rw (negative, r.run, sized, cell_fits e' 0 (is.length + 1) (omega arith), len) refl;
        within = omega arith;
        longer = refl;
        valid = record {
          cells = λ i h.
              insert_at_rule (λ y. cell e' (put_cell e' r.contents 0 x) i ≡ y) 0 x v i
                (λ l. absurd (omega arith))
                (λ e. rw e (cell-put_cell e' r.contents 0 x (value_encoding-fits x range)))
                (λ g.
                  let back : i - 1 + 1 ≡ i = omega arith in
                  cell-put_cell_ne e' r.contents 0 i x (λ e. omega arith)
                  ∙ ap (λ j. cell e' r.contents j) (sym back)
                  ∙ r.moved (i - 1) (omega arith));
          in_range = λ i h. inserted_range 0 i (omega arith) h;
          sorted =
              insert_at-IsSorted v 0 is.length x (omega arith) ok.sorted
                (λ i h. absurd (omega arith))
                (λ i h k. before is.encoding x (v i) wide negative (ok.in_range i k));
          sized = sized;
          small = room;
        };
      }

  appended : is_negative x ≡ false → Inserted is v x (upgrade_and_add is x)
  unfolding upgrade_and_add set_value resized wider
  appended positive =
      let r = looped 0 (omega arith) in
      let e' = value_encoding x in
      let n = is.length in
      let sized = no_wrap e' (n + 1) room in
      let len : (n + 1) % 2 ^ 32 ≡ n + 1 = omega arith in
      record {
        is' = record resized { contents = put_cell e' r.contents n x; length = n + 1 };
        p = n;
        run = rw (positive, r.run, sized, cell_fits e' n (n + 1) (omega arith), len) refl;
        within = omega arith;
        longer = refl;
        valid = record {
          cells = λ i h.
              insert_at_rule (λ y. cell e' (put_cell e' r.contents n x) i ≡ y) n x v i
                (λ l.
                  let same : i + 0 ≡ i = omega arith in
                  cell-put_cell_ne e' r.contents n i x (λ e. omega arith)
                  ∙ ap (λ j. cell e' r.contents j) (sym same)
                  ∙ r.moved i l)
                (λ e. rw e (cell-put_cell e' r.contents n x (value_encoding-fits x range)))
                (λ g. absurd (omega arith));
          in_range = λ i h. inserted_range n i (omega arith) h;
          sorted =
              insert_at-IsSorted v n n x (omega arith) ok.sorted
                (λ i h. beyond is.encoding x (v i) wide positive (ok.in_range i h))
                (λ i h k. absurd (omega arith));
          sized = sized;
          small = room;
        };
      }

  -- `intsetUpgradeAndAdd` of a value that needs a wider encoding runs without a fault and puts the value
  -- in front of the others or behind them, which it keeps.
  pub upgrade_and_add_lem : Inserted is v x (upgrade_and_add is x)
  upgrade_and_add_lem = elim (Bool-cases (is_negative x)) [
    | inl negative ↦ prepended negative
    | inr positive ↦ appended positive
  ]
