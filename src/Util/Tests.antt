-- ===== src/Util/Tests.antt =====
-- The theorems on the decimal numbers of redis/src/util.c at concrete numbers and strings.
use coffee_table.Prelude.{◌≡◌, refl, arith, some, none, ◌∷◌, []}
use coffee_table.Prelude.Int.{negsuc}
use coffee_table.Util.{ll2string, string2ll}
use coffee_table.Util.Decimal.{string2ll-ll2string}
use coffee_table.Util.Canonical.{ll2string-string2ll}

string2ll-ll2string_example : string2ll (ll2string 32 (negsuc 122)) ≡ some (negsuc 122)
string2ll-ll2string_example = string2ll-ll2string 32 (negsuc 122) (omega arith) refl

minus_ten : string2ll (45 ∷ 49 ∷ 48 ∷ []) ≡ some (negsuc 9)
unfolding string2ll
minus_ten = refl

leading_zero : string2ll (48 ∷ 49 ∷ []) ≡ none
unfolding string2ll
leading_zero = refl

ll2string-string2ll_example : ll2string 32 (negsuc 9) ≡ 45 ∷ 49 ∷ 48 ∷ []
ll2string-string2ll_example =
    ll2string-string2ll 32 (45 ∷ 49 ∷ 48 ∷ []) (negsuc 9) (omega arith) minus_ten
