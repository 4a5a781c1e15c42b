-- ===== src/Object/Encoding.antt =====
-- redis/src/object.c: the integer encoding of a string does not change its contents.
use coffee_table.Prelude.{
  ◌≡◌, refl, Bool, true, false, some, List, ℕ, inl, inr, Bool-cases, Option-cases, none≢some, arith,
  length, ap, ◌∙◌,
}
use coffee_table.Prelude.Int.{ℤ}
use coffee_table.Util.{string2ll, string2l, fits_long}
use coffee_table.Util.Canonical.{ll2string-string2ll}
use coffee_table.Object.{Str, raw, int, try_object_encoding, decoded, string_object_len}

string2l-string2ll : (s : List ℕ) (v : ℤ) → string2l s ≡ some v → string2ll s ≡ some v
unfolding string2l
string2l-string2ll s v e = elim (Option-cases (string2ll s)) [
  | inl failed ↦ absurd (let e' = rw failed at e in none≢some e')
  | inr (w, read) ↦ elim (Bool-cases (fits_long w)) [
    | inl fits ↦ let same = rw (read, fits) at e in read ∙ same
    | inr big ↦ absurd (let e' = rw (read, big) at e in none≢some e')
  ]
]

-- `tryObjectEncoding` keeps the contents of a string and the length that `stringObjectLen` answers,
-- whether it encodes the string as an integer or leaves it.
pub try_object_encoding-keeps :
    (shared : Bool) (s : Str)
    → (decoded (try_object_encoding shared s) ≡ decoded s)
      × (string_object_len (try_object_encoding shared s) ≡ string_object_len s)
unfolding try_object_encoding decoded string_object_len
try_object_encoding-keeps shared (int v) = (refl, refl)
try_object_encoding-keeps true (raw s) = (refl, refl)
try_object_encoding-keeps false (raw s) = elim (Option-cases (string2l s)) [
  | inl failed ↦ rw failed (refl, refl)
  | inr (v, read) ↦
      let same = ll2string-string2ll 32 s v (omega arith) (string2l-string2ll s v read) in
      rw read (same, ap length same)
]
