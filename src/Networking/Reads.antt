-- ===== src/Networking/Reads.antt =====
-- redis/src/networking.c: the bytes of a read behind what was in the buffer.
use coffee_table.Prelude.{
  ℕ, suc, ◌+◌, ◌-◌, ◌≤◌, ◌<◌, ◌∙◌, inl, inr, true, false, Option, none, some, List, [], ◌∷◌, ◌++◌,
  length, length-append, append_assoc, leb, Bool-cases, arith,
}
use coffee_table.Aof.{cat_count, crlf}
use coffee_table.Protocol.{Reader, unknown, multibulk_request, iobuf_len, mbulk_big_arg}
use coffee_table.Networking.{big_argument, read_limit, read_length}
use coffee_table.Networking.Counts.{length-cat_count, number-IsPlain}
use coffee_table.Networking.Stream.{
  reading, kind, Fits, piece, Stage, idle, starts, inside, IsShort, IsBounded, Bounded,
}
use coffee_table.Networking.Requests.{next_stage}

-- A read asks for 16 KB at most.
limit_le : (len : ℕ) (big : Option ℕ) → read_limit len big ≤ iobuf_len
limit_le len none = omega arith
limit_le len (some n) = ground arith

pub read_length_le : (r : Reader) → read_length r ≤ iobuf_len
unfolding read_length
read_length_le r = limit_le (length r.querybuf) (big_argument r.reqtype r.multibulklen r.bulklen)

-- Within a big argument it asks for no more than the argument.
limit_big :
    (len n : ℕ)
    → len < n + 2
    → (read_limit len (some n) ≤ n + 2 - len) × (0 < read_limit len (some n))
limit_big len n h = (ground arith, ground arith)

-- It asks for something.
pub length_line_le : (c n : ℕ) → length (cat_count c n) ≤ 23
length_line_le c n = omega (arith, length-cat_count c n, (number-IsPlain n).1)

abbrev pub with_bytes : List ℕ → Reader → Reader
with_bytes bytes r = record r { querybuf = r.querybuf ++ bytes }

Bounded-of :
    (bulk : Option ℕ) (q bytes arg : List ℕ) (args : List (List ℕ)) (done : List (List ℕ))
    (ran : List (List (List ℕ)))
    → Fits bulk (arg ∷ args)
    → length q < length (piece bulk arg)
    → length bytes ≤ read_length (reading multibulk_request q (suc (length args)) bulk done ran)
    → Bounded bulk (q ++ bytes)
unfolding read_length
Bounded-of none q bytes arg args done ran fits short h =
    omega (arith, length-append q bytes, length_line_le b'$' (length arg))
Bounded-of (some n) q bytes arg args done ran fits short h =
    let size = length-append arg crlf in
    let sum = length-append q bytes in
    elim (Bool-cases (leb mbulk_big_arg n)) [
      | inl big ↦
          let asked : length bytes ≤ read_limit (length q) (some n) = rw big at h in
          let most = limit_big (length q) n (omega arith) in inr (ground arith, omega arith)
      | inr fair ↦ inl (
          ground (
            arith,
            limit_le (length q) (big_argument multibulk_request (suc (length args)) (some n)),
          ))
    ]

pub after_read :
    (bytes future' : List ℕ) (ran todo : List (List (List ℕ))) (r : Reader)
    → length bytes ≤ read_length r
    → Stage IsShort (bytes ++ future') ran todo r
    → Stage IsBounded future' ran todo (with_bytes bytes r)
after_read bytes future ran todo _ h (idle _ e) =
    next_stage future bytes ran todo e
      (omega (arith, read_length_le (reading unknown [] 0 none [] ran)))
after_read bytes future ran _ _ h (starts typed q args more e short) =
    starts typed (q ++ bytes) args more (append_assoc q bytes future ∙ e) (
      omega (
        arith,
        length-append q bytes,
        length_line_le b'*' (length args),
        read_length_le (reading (kind typed) q 0 none [] ran),
      ))
after_read bytes future ran _ _ h (inside q bulk done arg args more fits e short) =
    inside (q ++ bytes) bulk done arg args more fits (append_assoc q bytes future ∙ e)
      (Bounded-of bulk q bytes arg args done ran fits short h)

-- A reader that waits asks for something.
pub asks_something :
    (future : List ℕ) (ran todo : List (List (List ℕ))) (r : Reader)
    → Stage IsShort future ran todo r
    → 0 < read_length r
unfolding read_length
asks_something future ran todo _ (idle _ e) = omega arith
asks_something future ran _ _ (starts false q args more e short) = omega arith
asks_something future ran _ _ (starts true q args more e short) = omega arith
asks_something future ran _ _ (inside q none done arg args more fits e short) = omega arith
asks_something future ran _ _ (inside q (some n) done arg args more fits e short) =
    let size = length-append arg crlf in
    elim (Bool-cases (leb mbulk_big_arg n)) [
      | inl big ↦ rw big ((limit_big (length q) n (omega arith)).1)
      | inr fair ↦ rw fair (omega arith)
    ]
