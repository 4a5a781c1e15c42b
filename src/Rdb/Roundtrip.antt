-- ===== src/Rdb/Roundtrip.antt =====
-- redis/src/rdb.c: what is saved is loaded again.
use coffee_table.Prelude.{
  ℕ, ◌+◌, ◌*◌, ◌/◌, ◌%◌, ◌^◌, ◌<◌, ◌≡◌, refl, ap, Bool, true, false, some, List, ◌∷◌, ◌++◌, ltb,
  arith, inl, inr, Bool-cases,
}
use coffee_table.Prelude.Int.{ℤ}
use coffee_table.Rdb.{
  save_len, load_len, lenerr, encode_integer, load_integer_object, integer_object, in_range, signed,
  bits,
}

-- A length below 2 ^ 32 - 1, the answer for an error, that `rdbSaveLen` wrote is read back by `rdbLoadLen`, as a length and not an
-- encoding, whatever bytes follow; and the reading stops where the writing stopped.
pub load_len-save_len :
    (len : ℕ) (rest : List ℕ) → len < lenerr → load_len (save_len len ++ rest) ≡ (false, len, rest)
unfolding load_len save_len
load_len-save_len len rest h = elim (Bool-cases (ltb len (2 ^ 6))) [
  | inl six ↦ rw six (ground arith)
  | inr above ↦ elim (Bool-cases (ltb len (2 ^ 14))) [
    | inl fourteen ↦ rw (above, fourteen) (ground arith)
    | inr large ↦ rw (above, large) (ap (λ n. (false, n, rest)) (ground arith))
  ]
]

signed8 : (v : ℤ) → in_range 7 v ≡ true → signed 8 (bits v % 256) ≡ v
signed8 v h = ground arith

signed16 :
    (v : ℤ) → in_range 15 v ≡ true → signed 16 (bits v % 256 + bits v / 2 ^ 8 % 256 * 2 ^ 8) ≡ v
signed16 v h = ground arith

signed32 :
    (v : ℤ)
    → in_range 31 v ≡ true
    → signed 32 (
        bits v % 256
        + bits v / 2 ^ 8 % 256 * 2 ^ 8
        + bits v / 2 ^ 16 % 256 * 2 ^ 16
        + bits v / 2 ^ 24 % 256 * 2 ^ 24)
      ≡ v
signed32 v h = ground arith

-- An integer of 32 bits that `rdbEncodeInteger` wrote is announced by `rdbLoadLen` as an encoding, and
-- `rdbLoadIntegerObject` with that encoding gives a string object of that integer, whatever bytes
-- follow; and the reading stops where the writing stopped.
pub load_integer_object-encode_integer :
    (encode : Bool) (v : ℤ) (rest : List ℕ)
    → in_range 31 v ≡ true
    → (enctype : ℕ) × (bytes : List ℕ) × (load_len (encode_integer v ++ rest)
        ≡ (true, enctype, bytes))
      × (load_integer_object enctype encode bytes ≡ some (integer_object encode (some (v, rest))))
unfolding load_len encode_integer load_integer_object
load_integer_object-encode_integer encode v rest h = elim (Bool-cases (in_range 7 v)) [
  | inl small ↦ (0, bits v % 256 ∷ rest, rw small refl, rw (signed8 v small) refl)
  | inr above ↦ elim (Bool-cases (in_range 15 v)) [
    | inl small ↦ (
      1,
      bits v % 256 ∷ bits v / 2 ^ 8 % 256 ∷ rest,
      rw (above, small) refl,
      rw (signed16 v small) refl,
    )
    | inr large ↦ (
      2,
      bits v % 256 ∷ bits v / 2 ^ 8 % 256 ∷ bits v / 2 ^ 16 % 256 ∷ bits v / 2 ^ 24 % 256 ∷ rest,
      rw (above, large, h) refl,
      rw (signed32 v h) refl,
    )
  ]
]
