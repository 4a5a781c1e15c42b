-- ===== src/Rdb/Tests.antt =====
-- The theorems on redis/src/rdb.c at concrete lengths and integers.
use coffee_table.Prelude.{ℕ, ◌≡◌, refl, ◌++◌, true, false, some, List, ◌∷◌, [], arith}
use coffee_table.Prelude.Int.{negsuc}
use coffee_table.Rdb.{save_len, load_len, encode_integer, load_integer_object, integer_object}
use coffee_table.Rdb.Roundtrip.{load_len-save_len, load_integer_object-encode_integer}

load_len-save_len_example : load_len (save_len 70000 ++ (5 ∷ [])) ≡ (false, 70000, 5 ∷ [])
load_len-save_len_example = load_len-save_len 70000 (5 ∷ []) (omega arith)

load_integer_object-encode_integer_example :
    (enctype : ℕ) × (bytes : List ℕ) × (load_len (encode_integer (negsuc 299) ++ (5 ∷ []))
      ≡ (true, enctype, bytes))
    × (load_integer_object enctype true bytes
        ≡ some (integer_object true (some (negsuc 299, 5 ∷ []))))
load_integer_object-encode_integer_example =
    load_integer_object-encode_integer true (negsuc 299) (5 ∷ []) refl
