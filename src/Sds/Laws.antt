-- ===== src/Sds/Laws.antt =====
-- redis/src/sds.c: what a string holds after sdscatlen, sdscpylen and sdsgrowzero.
use coffee_table.Prelude.{
  ℕ, ◌+◌, ◌-◌, ◌*◌, ◌≤◌, ◌<◌, ◌^◌, true, ◌≡◌, refl, ap, sym, ◌∙◌, some, List, [], ◌∷◌, ◌++◌, length,
  take, get_elem?, replicate, leb, ltb, Bool-cases, inl, inr, arith,
}
use coffee_table.Sds.{
  Sds, write, write_nul, realloc, with_counts, make_room_for, max_prealloc, cat_len, cpy_len,
  grow_zero,
}
use coffee_table.Sds.Buffer.{write_nul_lem, length-realloc, take-realloc, zeros_lem}

-- The header counts the allocated bytes, and a nul stands behind the string.
pub record IsSds (s : Sds) : Type 0 where
  pub allocated : length s.buf ≡ s.len + s.free + 1
  pub nul : get_elem? s.buf s.len ≡ some 0

-- The counts of the header and their sum fit an `int`.
abbrev pub IsShort : Sds → Type 0
IsShort s = s.len + s.free < 2 ^ 31

abbrev pub contents : Sds → List ℕ
contents s = take s.len s.buf

-- `n` more bytes fit, and the string is the same
record IsRoomy (s : Sds) (n : ℕ) (r : Sds) : Type 0 where
  same_len : r.len ≡ s.len
  enough : n ≤ r.free
  counted : length r.buf ≡ s.len + r.free + 1
  same : take s.len r.buf ≡ take s.len s.buf
  short : IsShort s → s.len + n + max_prealloc < 2 ^ 31 → s.len + r.free < 2 ^ 31

below : (n : ℕ) → n < 2 ^ 31 → ltb n (2 ^ 31) ≡ true
below n h = ground arith

realloc-IsRoomy :
    (fresh : ℕ → ℕ) (s : Sds) (n size : ℕ)
    → IsSds s
    → s.len + n ≤ size
    → (s.len + n + max_prealloc < 2 ^ 31 → size < 2 ^ 31)
    → IsRoomy s n (record s { free = size - s.len; buf = realloc fresh (size + 1) s.buf })
realloc-IsRoomy fresh s n size ok h bound = record {
  same_len = refl;
  enough = omega arith;
  counted = omega (arith, length-realloc fresh (size + 1) s.buf);
  same = take-realloc fresh s.len (size + 1) s.buf (omega arith) (omega (arith, ok.allocated));
  short = λ a b. omega (arith, bound b);
}

make_room_lem : (fresh : ℕ → ℕ) (s : Sds) (n : ℕ) → IsSds s → IsRoomy s n (make_room_for fresh s n)
unfolding make_room_for
make_room_lem fresh s n ok = elim (Bool-cases (leb n s.free)) [
  | inl fits ↦ rw fits (record {
    same_len = refl;
    enough = ground arith;
    counted = ok.allocated;
    same = refl;
    short = λ a b. a;
  })
  | inr tight ↦ elim (Bool-cases (ltb (s.len + n) max_prealloc)) [
    | inl small ↦
        rw (tight, small)
          (realloc-IsRoomy fresh s n ((s.len + n) * 2) ok (omega arith) (λ b. ground arith))
    | inr large ↦
        rw (tight, large)
          (realloc-IsRoomy fresh s n (s.len + n + max_prealloc) ok (omega arith) (λ b. b))
  ]
]

-- On a well-formed string whose counts and their sum fit an int, and whose new length is at most
-- 2 ^ 31 - 1 - SDS_MAX_PREALLOC, sdscatlen stays inside the allocated bytes, whatever the reallocation
-- put there: the string then holds its old bytes and the new ones, and is well formed with such counts.
pub cat_len_lem :
    (fresh : ℕ → ℕ) (s : Sds) (t : List ℕ)
    → IsSds s
    → IsShort s
    → s.len + length t + max_prealloc < 2 ^ 31
    → (s' : Sds) × (cat_len fresh s t ≡ some s')
      × IsSds s'
      × (contents s' ≡ contents s ++ t)
      × IsShort s'
unfolding cat_len
cat_len_lem fresh s t ok short room =
    let roomy = make_room_lem fresh s (length t) ok in
    let r = make_room_for fresh s (length t) in
    let (b, run, w) = write_nul_lem r.buf s.len t (omega (arith, roomy.counted, roomy.enough)) in
    (
      record { len = s.len + length t; free = r.free - length t; buf = b },
      rw
          (
            with_counts,
            below r.free (omega (arith, roomy.short short room)),
            below (s.len + length t) (omega arith),
            run,
          )
          refl,
      record { allocated = omega (arith, w.same_length, roomy.counted, roomy.enough); nul = w.nul },
      w.new_bytes ∙ ap (λ i. i ++ t) roomy.same,
      omega (arith, roomy.enough, roomy.short short room),
    )

copied_lem :
    (r : Sds) (len : ℕ) (t : List ℕ)
    → r.len ≡ len
    → length r.buf ≡ len + r.free + 1
    → length t ≤ len + r.free
    → len + r.free < 2 ^ 31
    → (s' : Sds) × (with_counts
          (r.free + r.len)
          (length t)
          (r.free + r.len - length t)
          (write_nul t 0 (write r.buf 0 t))
        ≡ some s')
      × IsSds s'
      × (contents s' ≡ t)
      × IsShort s'
copied_lem r len t same counted fits short =
    let (b, run, w) = write_nul_lem r.buf 0 t (omega arith) in
    let start : 0 + length t ≡ length t = omega arith in
    (
      record { len = length t; free = r.free + r.len - length t; buf = b },
      rw (with_counts, below (r.free + r.len) (omega arith), below (length t) (omega arith), run)
          refl,
      record {
        allocated = omega (arith, w.same_length);
        nul = ap (get_elem? b) (sym start) ∙ w.nul;
      },
      ap (λ i. take i b) (sym start) ∙ w.new_bytes,
      omega arith,
    )

-- On a well-formed string whose counts and their sum fit an int, sdscpylen of bytes that are at most
-- 2 ^ 31 - 1 - SDS_MAX_PREALLOC with those there stays inside the allocated bytes: the string then holds
-- the bytes copied, and is well formed with such counts.
pub cpy_len_lem :
    (fresh : ℕ → ℕ) (s : Sds) (t : List ℕ)
    → IsSds s
    → IsShort s
    → s.len + length t + max_prealloc < 2 ^ 31
    → (s' : Sds) × (cpy_len fresh s t ≡ some s') × IsSds s' × (contents s' ≡ t) × IsShort s'
unfolding cpy_len
cpy_len_lem fresh s t ok short room = elim (Bool-cases (ltb (s.free + s.len) (length t))) [
  | inl tight ↦
      let roomy = make_room_lem fresh s (length t - s.len) ok in
      let fits : length t ≤ s.len + (make_room_for fresh s (length t - s.len)).free =
        omega (arith, roomy.enough) in
      rw tight (
        copied_lem (make_room_for fresh s (length t - s.len)) s.len t roomy.same_len roomy.counted
          fits (roomy.short short (omega arith)))
  | inr wide ↦ rw wide (copied_lem s s.len t refl ok.allocated (ground arith) short)
]

append-nil : (b : List ℕ) → b ++ [] ≡ b
append-nil [] = refl
append-nil (x ∷ b) = ap (λ i. x ∷ i) (append-nil b)

-- On a well-formed string whose counts and their sum fit an int, sdsgrowzero to a length of at most
-- 2 ^ 31 - 1 - SDS_MAX_PREALLOC stays inside the allocated bytes: the string then holds its old bytes
-- and as many zeros as it was too short, none if it was not, and is well formed with such counts.
pub grow_zero_lem :
    (fresh : ℕ → ℕ) (s : Sds) (n : ℕ)
    → IsSds s
    → IsShort s
    → n + max_prealloc < 2 ^ 31
    → (s' : Sds) × (grow_zero fresh s n ≡ some s')
      × IsSds s'
      × (contents s' ≡ contents s ++ replicate (n - s.len) 0)
      × IsShort s'
unfolding grow_zero
grow_zero_lem fresh s n ok small room = elim (Bool-cases (leb n s.len)) [
  | inl long ↦
      let none_missing : n - s.len ≡ 0 = ground arith in
      (s, rw long refl, ok, rw none_missing (sym (append-nil (contents s))), small)
  | inr short ↦
      let roomy = make_room_lem fresh s (n - s.len) ok in
      let r = make_room_for fresh s (n - s.len) in
      let fits : s.len + r.free < 2 ^ 31 = roomy.short small (ground arith) in
      let end : s.len + (n - s.len) ≡ n = ground arith in
      let (b, run, same_length, zeros, nul) =
        zeros_lem r.buf s.len (n - s.len) (omega (arith, roomy.counted, roomy.enough)) in
      (
        record { len = n; free = s.len + r.free - n; buf = b },
        rw (short, with_counts, below (s.len + r.free) fits, below n (omega arith), run) refl,
        record {
          allocated = omega (arith, same_length, roomy.counted, roomy.enough);
          nul = ap (get_elem? b) (sym end) ∙ nul;
        },
        ap (λ i. take i b) (sym end) ∙ zeros ∙ ap (λ i. i ++ replicate (n - s.len) 0) roomy.same,
        omega (arith, roomy.enough),
      )
]
