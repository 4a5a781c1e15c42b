-- ===== src/Object/Tests.antt =====
-- The theorem on the encoding of redis/src/object.c at a concrete string.
use coffee_table.Prelude.{◌≡◌, ◌∷◌, [], false}
use coffee_table.Object.{raw, decoded, try_object_encoding, string_object_len}
use coffee_table.Object.Encoding.{try_object_encoding-keeps}

try_object_encoding-keeps_example :
    (decoded (try_object_encoding false (raw (45 ∷ 49 ∷ []))) ≡ decoded (raw (45 ∷ 49 ∷ [])))
    × (string_object_len (try_object_encoding false (raw (45 ∷ 49 ∷ [])))
        ≡ string_object_len (raw (45 ∷ 49 ∷ [])))
try_object_encoding-keeps_example = try_object_encoding-keeps false (raw (45 ∷ 49 ∷ []))
