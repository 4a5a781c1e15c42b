-- ===== src/Networking/Inline.antt =====
-- redis/src/networking.c: a request in one line.
use coffee_table.Prelude.{
  ℕ, zero, suc, ◌+◌, ◌<◌, ◌≤◌, ◌≡◌, refl, ap, ◌∙◌, true, false, none, some, List, [], ◌∷◌, ◌++◌,
  length, length-append, append_assoc, append-nil, drop, ◌==◌, arith,
}
use coffee_table.Aof.{crlf}
use coffee_table.Protocol.{inline_request, find_crlf, split_spaces, process_inline_buffer}
use coffee_table.Networking.Lines.{take-append_self, drop-append_self}
use coffee_table.Networking.Stream.{reading}

-- characters of a word
abbrev pub IsWord : List ℕ → Type 0
IsWord [] = Unit {0}
IsWord (c ∷ s) = (c == 32 ≡ false) × (c == 13 ≡ false) × (c == 0 ≡ false) × IsWord s

-- Each word has the number of spaces before it, which is `least` for the first word or more, and one
-- or more for the others.
abbrev pub AreWords : ℕ → List (ℕ × List ℕ) → Type 0
AreWords least [] = Unit {0}
AreWords least ((n, w) ∷ more) = (least ≤ n) × (0 < length w) × IsWord w × AreWords 1 more

abbrev pub spaces : ℕ → List ℕ
spaces zero = []
spaces (suc n) = 32 ∷ spaces n

-- the words, each behind its spaces
abbrev pub words_line : List (ℕ × List ℕ) → List ℕ
words_line [] = []
words_line ((n, w) ∷ more) = spaces n ++ (w ++ words_line more)

abbrev pub words_of : List (ℕ × List ℕ) → List (List ℕ)
words_of [] = []
words_of ((n, w) ∷ more) = w ∷ words_of more

abbrev pub IsLine : List ℕ → Type 0
IsLine [] = Unit {0}
IsLine (c ∷ s) = (c == 13 ≡ false) × (c == 0 ≡ false) × IsLine s

find_crlf_lem : (s rest : List ℕ) → IsLine s → find_crlf (s ++ (crlf ++ rest)) ≡ some (length s)
unfolding find_crlf
find_crlf_lem [] rest h = refl
find_crlf_lem (c ∷ s) rest (h1, h2, h) = rw (h1, h2, find_crlf_lem s rest h) refl

IsLine-spaces : (n : ℕ) (s : List ℕ) → IsLine s → IsLine (spaces n ++ s)
IsLine-spaces zero s h = h
IsLine-spaces (suc n) s h = (refl, refl, IsLine-spaces n s h)

IsLine-word : (w s : List ℕ) → IsWord w → IsLine s → IsLine (w ++ s)
IsLine-word [] s h hs = hs
IsLine-word (c ∷ w) s (h1, h2, h3, h) hs = (h2, h3, IsLine-word w s h hs)

IsLine-words :
    (least : ℕ) (words : List (ℕ × List ℕ)) → AreWords least words → IsLine (words_line words)
IsLine-words least [] h = tt
IsLine-words least ((n, w) ∷ more) (h0, h1, h2, h) =
    IsLine-spaces n (w ++ words_line more)
      (IsLine-word w (words_line more) h2 (IsLine-words 1 more h))

split-spaces : (n : ℕ) (s : List ℕ) → split_spaces (spaces n ++ s) [] ≡ split_spaces s []
unfolding split_spaces
split-spaces zero s = refl
split-spaces (suc n) s = split-spaces n s

split-word :
    (w token s : List ℕ)
    → IsWord w
    → 0 < length (token ++ w)
    → split_spaces (w ++ (32 ∷ s)) token ≡ (token ++ w) ∷ split_spaces s []
unfolding split_spaces
split-word [] token s h more =
    let full : length token == 0 ≡ false = ground (arith, length-append token []) in
    rw (full, append-nil token) refl
split-word (c ∷ w) token s (h1, h2, h3, h) more =
    rw (h1, ← append_assoc token (c ∷ []) w)
      (split-word w (token ++ (c ∷ [])) s h
        (omega (arith, length-append (token ++ (c ∷ [])) w, length-append token (c ∷ []))))

split-last :
    (w token : List ℕ)
    → IsWord w
    → 0 < length (token ++ w)
    → split_spaces w token ≡ (token ++ w) ∷ []
unfolding split_spaces
split-last [] token h more =
    let full : length token == 0 ≡ false = ground (arith, length-append token []) in
    rw (full, append-nil token) refl
split-last (c ∷ w) token (h1, h2, h3, h) more =
    rw (h1, ← append_assoc token (c ∷ []) w)
      (split-last w (token ++ (c ∷ [])) h
        (omega (arith, length-append (token ++ (c ∷ [])) w, length-append token (c ∷ []))))

split-words :
    (least : ℕ) (words : List (ℕ × List ℕ))
    → AreWords least words
    → split_spaces (words_line words) [] ≡ words_of words
unfolding split_spaces
split-words least [] h = refl
split-words least ((n, w) ∷ []) (h0, h1, h2, h) =
    split-spaces n (w ++ []) ∙ ap (λ i. split_spaces i []) (append-nil w) ∙ split-last w [] h2 h1
split-words least ((n, w) ∷ (zero, v) ∷ more) (h0, h1, h2, next) = absurd (omega (arith, next.0))
split-words least ((n, w) ∷ (suc m, v) ∷ more) (h0, h1, h2, h) =
    let next = spaces m ++ (v ++ words_line more) in
    split-spaces n (w ++ (32 ∷ next))
    ∙ split-word w [] next h2 h1
    ∙ ap (λ i. w ∷ i) (split-words 1 ((suc m, v) ∷ more) h)

-- A line of words, with any number of spaces before the first and one or more, as many as each gap
-- has, before each of the others, is read as these words, when no word is empty or holds a space, a
-- carriage return or a nul; and what is behind the line stays in the buffer.
pub process_inline_buffer_lem :
    (words : List (ℕ × List ℕ)) (rest : List ℕ) (ran : List (List (List ℕ)))
    → AreWords 0 words
    → process_inline_buffer
        (reading inline_request (words_line words ++ (crlf ++ rest)) 0 none [] ran)
      ≡ (true, reading inline_request rest 0 none (words_of words) ran)
unfolding process_inline_buffer
process_inline_buffer_lem words rest ran h =
    let line = words_line words in
    let found = find_crlf_lem line rest (IsLine-words 0 words h) in
    let sum = length-append line crlf in
    let behind : drop (length line + 2) (line ++ (crlf ++ rest)) ≡ rest =
      rw (← sum, ← append_assoc line crlf rest) (drop-append_self (line ++ crlf) rest) in
    rw (found, take-append_self line (crlf ++ rest), behind, split-words 0 words h) refl
