-- ===== src/Intset/Cells.antt =====
-- redis/src/intset.c: the cells of the array in memory.
use native.Mathlib.Nat.{pow-suc}
use coffee_table.Prelude.{
  ℕ, zero, suc, ◌+◌, ◌-◌, ◌*◌, ◌/◌, ◌%◌, ◌^◌, ◌≤◌, ◌<◌, ◌≡◌, ◌≢◌, refl, ap, ◌∙◌, ◌⊎◌, inl, true,
  false, ◌&&◌, arith, ltb, leb, ◌==◌,
}
use coffee_table.Prelude.Int.{ℤ}
use coffee_table.Intset.{
  Enc, int16, int32, int64, width, Memory, fits, load, store, poke, encode, decode, cell, put_cell,
  memmove,
}

-- the bytes from `off` on, `w` of them, and an address outside of them
abbrev pub Outside : ℕ → ℕ → ℕ → Type 0
Outside off w i = (i < off) ⊎ (off + w ≤ i)

store-Outside : (w off v : ℕ) (m : Memory) (i : ℕ) → Outside off w i → store w off v m i ≡ m i
unfolding store
store-Outside zero off v m i h = refl
store-Outside (suc w) off v m i h =
    let next : Outside (off + 1) w i = ground arith in
    let away : (i == off) ≡ false = ground arith in
    store-Outside w (off + 1) (v / 256) (poke m off (v % 256)) i next ∙ rw away refl

load_same :
    (w off : ℕ) (m m' : Memory)
    → ((i : ℕ) → off ≤ i → i < off + w → m i ≡ m' i)
    → load w off m ≡ load w off m'
unfolding load
load_same zero off m m' h = refl
load_same (suc w) off m m' h =
    let first = h off (omega arith) (omega arith) in
    let rest = load_same w (off + 1) m m' (λ i a b. h i (omega arith) (omega arith)) in
    rw (first, rest) refl

load-store : (w off v : ℕ) (m : Memory) → v < 256 ^ w → load w off (store w off v m) ≡ v
unfolding load store
load-store zero off v m h = omega arith
load-store (suc w) off v m h =
    let first =
      store-Outside w (off + 1) (v / 256) (poke m off (v % 256)) off (inl (omega arith)) in
    let here : (off == off) ≡ true = ground arith in
    let rest =
      load-store w (off + 1) (v / 256) (poke m off (v % 256)) (omega (arith, pow-suc 256 w)) in
    rw (first, here, rest) (omega arith)

-- reading beside what was written
load-store_apart :
    (w w' off off' v : ℕ) (m : Memory)
    → (off' + w' ≤ off) ⊎ (off + w ≤ off')
    → load w' off' (store w off v m) ≡ load w' off' m
load-store_apart w w' off off' v m h =
    load_same w' off' (store w off v m) m (λ i a b. store-Outside w off v m i (ground arith))

encode_small : (e : Enc) (v : ℤ) → encode e v < 256 ^ width e
encode_small int16 v = ground arith
encode_small int32 v = ground arith
encode_small int64 v = ground arith

decode-encode : (e : Enc) (v : ℤ) → fits e v ≡ true → decode e (encode e v) ≡ v
decode-encode int16 v h = ground arith
decode-encode int32 v h = ground arith
decode-encode int64 v h = ground arith

pub cell-put_cell :
    (e : Enc) (m : Memory) (i : ℕ) (v : ℤ) → fits e v ≡ true → cell e (put_cell e m i v) i ≡ v
cell-put_cell e m i v h =
    rw (load-store (width e) (i * width e) (encode e v) m (encode_small e v)) (decode-encode e v h)

-- a cell, of any width, beside the one written
pub cell-put_cell_apart :
    (e e' : Enc) (m : Memory) (i j : ℕ) (v : ℤ)
    → (j * width e' + width e' ≤ i * width e) ⊎ (i * width e + width e ≤ j * width e')
    → cell e' (put_cell e m i v) j ≡ cell e' m j
cell-put_cell_apart e e' m i j v h =
    ap (decode e')
      (load-store_apart (width e) (width e') (i * width e) (j * width e') (encode e v) m h)

cells_apart :
    (e : Enc) (i j : ℕ)
    → i ≢ j
    → (j * width e + width e ≤ i * width e) ⊎ (i * width e + width e ≤ j * width e)
cells_apart int16 i j h = omega arith
cells_apart int32 i j h = omega arith
cells_apart int64 i j h = omega arith

pub cell-put_cell_ne :
    (e : Enc) (m : Memory) (i j : ℕ) (v : ℤ) → i ≢ j → cell e (put_cell e m i v) j ≡ cell e m j
cell-put_cell_ne e m i j v h = cell-put_cell_apart e e m i j v (cells_apart e i j h)

load-memmove :
    (w off dst src bytes : ℕ) (m : Memory)
    → dst ≤ off
    → off + w ≤ dst + bytes
    → load w off (memmove m dst src bytes) ≡ load w (off - dst + src) m
unfolding load
load-memmove zero off dst src bytes m h k = refl
load-memmove (suc w) off dst src bytes m h k =
    let inside : (leb dst off && ltb off (dst + bytes)) ≡ true = ground arith in
    let rest = load-memmove w (off + 1) dst src bytes m (omega arith) (omega arith) in
    let next : off + 1 - dst + src ≡ off - dst + src + 1 = omega arith in
    rw (inside, rest, next) refl

load-memmove_apart :
    (w off dst src bytes : ℕ) (m : Memory)
    → (off + w ≤ dst) ⊎ (dst + bytes ≤ off)
    → load w off (memmove m dst src bytes) ≡ load w off m
load-memmove_apart w off dst src bytes m h = load_same w off (memmove m dst src bytes) m (λ i a b.
    let outside : (leb dst i && ltb i (dst + bytes)) ≡ false = ground arith in rw outside refl)

moved_offset :
    (e : Enc) (j to from count : ℕ)
    → to ≤ j
    → j < to + count
    → (to * width e ≤ j * width e)
      × (j * width e + width e ≤ to * width e + count * width e)
      × (j * width e - to * width e + from * width e ≡ (j - to + from) * width e)
moved_offset int16 j to from count h k = omega arith
moved_offset int32 j to from count h k = omega arith
moved_offset int64 j to from count h k = omega arith

-- The cells from `from` on, `count` of them, moved to `to`.
pub cell-memmove :
    (e : Enc) (m : Memory) (j to from count : ℕ)
    → to ≤ j
    → j < to + count
    → cell e (memmove m (to * width e) (from * width e) (count * width e)) j
      ≡ cell e m (j - to + from)
cell-memmove e m j to from count h k =
    let (low, high, off) = moved_offset e j to from count h k in
    ap (decode e) (
      load-memmove (width e) (j * width e) (to * width e) (from * width e) (count * width e) m low
        high
      ∙ ap (λ o. load (width e) o m) off)

rest_offset :
    (e : Enc) (j to count : ℕ)
    → (j < to) ⊎ (to + count ≤ j)
    → (j * width e + width e ≤ to * width e) ⊎ (to * width e + count * width e ≤ j * width e)
rest_offset int16 j to count h = omega arith
rest_offset int32 j to count h = omega arith
rest_offset int64 j to count h = omega arith

-- The other cells stay.
pub cell-memmove_apart :
    (e : Enc) (m : Memory) (j to from count : ℕ)
    → (j < to) ⊎ (to + count ≤ j)
    → cell e (memmove m (to * width e) (from * width e) (count * width e)) j ≡ cell e m j
cell-memmove_apart e m j to from count h = ap (decode e) (
    load-memmove_apart (width e) (j * width e) (to * width e) (from * width e) (count * width e) m
      (rest_offset e j to count h))

-- The cells of a narrower encoding below `j` lie below the cells of a wider one from `j` on.
pub narrower_below :
    (e e' : Enc) (i j p : ℕ)
    → width e' ≤ width e
    → i < j
    → i * width e' + width e' ≤ (j + p) * width e
narrower_below int16 int16 i j p h k = omega arith
narrower_below int16 int32 i j p h k = omega arith
narrower_below int16 int64 i j p h k = omega arith
narrower_below int32 int16 i j p h k = omega arith
narrower_below int32 int32 i j p h k = omega arith
narrower_below int32 int64 i j p h k = omega arith
narrower_below int64 e' i j p h k = ground arith
