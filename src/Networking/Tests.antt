-- ===== src/Networking/Tests.antt =====
-- The theorems on redis/src/networking.c at concrete requests.
use coffee_table.Prelude.{Bool, not, length, ◌==◌}
use coffee_table.Networking.{read_query_from_client}
use coffee_table.Networking.Sane.{Sane, between, read_query_from_client-Sane}
use coffee_table.Prelude.{ℕ, ◌≡◌, refl, ◌++◌, true, false, none, some, List, ◌∷◌, [], arith}
use coffee_table.Aof.{crlf, cat_append_only_generic_command, cat_args, cat_count}
use coffee_table.Util.{ll2string}
use coffee_table.Protocol.{Reader, unknown, inline_request, process_inline_buffer}
use coffee_table.Networking.{Effect, read_events}
use coffee_table.Networking.Stream.{reading, stream, AreRequests}
use coffee_table.Networking.Client.{served_all, served_first, connected}
use coffee_table.Networking.Inline.{process_inline_buffer_lem, words_line}

abbrev runs : List (List ℕ) → Effect
runs args = record { blocks = false; closes = false; is_ok = true }

-- "get a" and "set b " with an empty value
abbrev two_requests : List (List (List ℕ))
two_requests =
    ((b'g' ∷ b'e' ∷ b't' ∷ []) ∷ (b'a' ∷ []) ∷ [])
    ∷ ((b's' ∷ b'e' ∷ b't' ∷ []) ∷ (b'b' ∷ []) ∷ [] ∷ [])
    ∷ []

two_AreRequests : AreRequests two_requests
two_AreRequests = (
  (omega arith, omega arith, (omega arith, (omega arith, tt))),
  ((omega arith, omega arith, (omega arith, (omega arith, (omega arith, tt)))), tt),
)

abbrev five_reads : List ℕ
five_reads = 3 ∷ 1 ∷ 0 ∷ 7 ∷ 2 ∷ []

abbrev ten : List ℕ
ten = five_reads ++ five_reads

abbrev many_reads : List ℕ
many_reads = ten ++ (ten ++ (ten ++ (ten ++ (ten ++ (ten ++ (ten ++ ten))))))

served_all_example :
    read_events runs many_reads (stream two_requests) connected
    ≡ some (reading unknown [] 0 none [] two_requests, [])
unfolding stream cat_append_only_generic_command cat_args cat_count ll2string
served_all_example =
    served_all runs two_requests many_reads two_AreRequests
      (refl, refl, refl, (refl, refl, refl, tt)) (omega arith)

served_first_example :
    (r : Reader) × (socket : List ℕ) × (todo : List (List (List ℕ))) × (read_events runs five_reads
        (stream two_requests)
        connected
      ≡ some (r, socket))
    × (r.executed ++ todo ≡ two_requests)
    × (r.errors ≡ [])
    × (r.close_after_reply ≡ false)
served_first_example =
    served_first runs two_requests five_reads two_AreRequests
      (refl, refl, refl, (refl, refl, refl, tt))

-- two spaces between the words
abbrev two_words : List (ℕ × List ℕ)
two_words = (0, b'g' ∷ b'e' ∷ b't' ∷ []) ∷ (2, b'a' ∷ []) ∷ []

process_inline_buffer_lem_example :
    process_inline_buffer
      (reading inline_request (words_line two_words ++ (crlf ++ (b'g' ∷ []))) 0 none [] [])
    ≡ (
      true,
      reading inline_request (b'g' ∷ []) 0 none ((b'g' ∷ b'e' ∷ b't' ∷ []) ∷ (b'a' ∷ []) ∷ []) [],
    )
process_inline_buffer_lem_example = process_inline_buffer_lem two_words (b'g' ∷ []) [] (
  omega arith,
  omega arith,
  (refl, refl, refl, (refl, refl, refl, (refl, refl, refl, tt))),
  (omega arith, omega arith, (refl, refl, refl, tt), tt),
)

-- A command of one word quits.
abbrev quits_alone : List (List ℕ) → Effect
quits_alone args = record {
  blocks = false;
  closes = length args == 1;
  is_ok = not (length args == 1);
}

abbrev bad_bytes : List ℕ
bad_bytes = b'*' ∷ b'2' ∷ 13 ∷ 10 ∷ b'$' ∷ b'x' ∷ 13 ∷ 10 ∷ []

closes_too :
    (args : List (List ℕ)) → (quits_alone args).is_ok ≡ false → (quits_alone args).closes ≡ true
closes_too args h = of_not (length args == 1) h
  where
    of_not : (b : Bool) → not b ≡ false → b ≡ true
    of_not true h = refl
    of_not false h = cc

read_query_from_client-Sane_example :
    (r' : Reader) × (read_query_from_client quits_alone connected bad_bytes ≡ some r') × Sane r'
read_query_from_client-Sane_example =
    read_query_from_client-Sane quits_alone closes_too connected bad_bytes (between refl refl refl)
