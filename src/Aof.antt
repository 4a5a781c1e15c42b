-- ===== src/Aof.antt =====
-- redis/src/aof.c: a command in the form of the append only file, which is that of the protocol.
use coffee_table.Prelude.{ℕ, List, [], ◌∷◌, ◌++◌, length}
use coffee_table.Prelude.Int.{pos}
use coffee_table.Util.{ll2string}

abbrev pub crlf : List ℕ
crlf = 13 ∷ 10 ∷ []

-- a character, a number and the end of the line; the buffer has 31 bytes for the number
unfoldable pub cat_count : ℕ → ℕ → List ℕ
unfolding ll2string
cat_count c n = c ∷ (ll2string 31 (pos n) ++ crlf)

-- the loop of `catAppendOnlyGenericCommand`
unfoldable pub cat_args : List (List ℕ) → List ℕ
unfolding cat_count
cat_args [] = []
cat_args (arg ∷ args) = cat_count b'$' (length arg) ++ (arg ++ (crlf ++ cat_args args))

-- `catAppendOnlyGenericCommand`
unfoldable pub cat_append_only_generic_command : List ℕ → List (List ℕ) → List ℕ
unfolding cat_count cat_args
cat_append_only_generic_command dst args = dst ++ (cat_count b'*' (length args) ++ cat_args args)
