-- ===== src/Networking/Sane.antt =====
-- redis/src/networking.c: whatever bytes a client sends, they are dealt with.
use coffee_table.Prelude.{
  ℕ, zero, suc, ◌+◌, ◌-◌, ◌<◌, ◌≡◌, refl, ap, sym, ◌∙◌, inl, inr, Bool, true, false, ◌||◌, Option,
  none, some, List, [], ◌∷◌, ◌++◌, length, length-drop, drop, take, get_or, if◌then◌else◌, ltb,
  ◌==◌, Bool-cases, arith,
}
use coffee_table.Prelude.Int.{ℤ, pos, negsuc}
use coffee_table.Util.{string2ll}
use coffee_table.Protocol.{
  Reader, unknown, inline_request, multibulk_request, count_number, count_until, inline_until,
  find_cr, find_crlf, process_multibulk_buffer, process_inline_buffer, max_args, inline_max_size,
}
use coffee_table.Networking.{
  Effect, request_type, process_request, process_command, process_input_buffer,
  read_query_from_client,
}
use coffee_table.Networking.Any.{Ends, whole, partly, closed, read_args-Ends}

-- what holds between two reads
pub data Sane (r : Reader) : Type 0 where
  will_close : r.close_after_reply ≡ true → Sane r
  between : r.reqtype ≡ unknown → r.multibulklen ≡ 0 → r.argv ≡ [] → Sane r
  in_line : r.reqtype ≡ inline_request → Sane r
  counting :
      r.reqtype ≡ multibulk_request
      → r.multibulklen ≡ 0
      → r.argv ≡ []
      → get_or r.querybuf 0 0 ≡ b'*'
      → Sane r
  in_args : r.reqtype ≡ multibulk_request → 0 < r.multibulklen → Sane r

-- a request taken out of a buffer of `k` bytes, or a wait
data Taken (k : ℕ) : Option (Bool × Reader) → Type 0 where
  taken : (r : Reader) → length r.querybuf < k → Taken k (some (true, r))
  not_yet : (r : Reader) → Sane r → Taken k (some (false, r))

Taken-of : (k j : ℕ) {x : Bool × Reader} → j < k → Ends j x → Taken k (some x)
Taken-of k j h (whole r small) = taken r (omega arith)
Taken-of k j h (partly r t c) = not_yet r (in_args t c)
Taken-of k j h (closed r c) = not_yet r (will_close c)

if_Taken :
    (k : ℕ) (b : Bool) {x y : Bool × Reader}
    → (b ≡ true → Taken k (some x))
    → (b ≡ false → Taken k (some y))
    → Taken k (some (if b then x else y))
if_Taken k true h h' = h refl
if_Taken k false h h' = h' refl

if_option :
    (k : ℕ) (b : Bool) {x y : Option (Bool × Reader)}
    → (b ≡ true → Taken k x)
    → (b ≡ false → Taken k y)
    → Taken k (if b then x else y)
if_option k true h h' = h refl
if_option k false h h' = h' refl

count-Taken :
    (next : ℕ) (o : Option ℤ) (r : Reader)
    → r.reqtype ≡ multibulk_request
    → 0 < length r.querybuf
    → 0 < next
    → Taken (length r.querybuf) (some (count_number next o r))
count-Taken next none r t h h' = not_yet _ (will_close refl)
count-Taken next (some (negsuc n)) r t h h' = taken _ (omega (arith, length-drop next r.querybuf))
count-Taken next (some (pos n)) r t h h' =
    if_Taken (length r.querybuf) (ltb max_args n) (λ big. not_yet _ (will_close refl))
      (λ fair.
        if_Taken (length r.querybuf) (n == 0)
          (λ none_left. taken _ (omega (arith, length-drop next r.querybuf)))
          (λ more. Taken-of (length r.querybuf) (length r.querybuf - 1) (omega arith) (
            read_args-Ends n (length r.querybuf - 1) next (record r { multibulklen = n }) t refl
              (ground arith))))

Sane-if : (b : Bool) (x y : Reader) → Sane x → Sane y → Sane (if b then x else y)
Sane-if true x y h h' = h
Sane-if false x y h h' = h'

line-Taken :
    (o : Option ℕ) (r : Reader)
    → r.reqtype ≡ multibulk_request
    → r.multibulklen ≡ 0
    → r.argv ≡ []
    → get_or r.querybuf 0 0 ≡ b'*'
    → 0 < length r.querybuf
    → Taken (length r.querybuf) (count_until o r)
line-Taken none r t c a star h =
    not_yet _ (
      Sane-if (ltb inline_max_size (length r.querybuf)) _ _ (will_close refl) (counting t c a star))
line-Taken (some i) r t c a star h =
    if_option (length r.querybuf) (ltb (length r.querybuf) (i + 2))
      (λ short. not_yet r (counting t c a star))
      (λ long.
        rw star
          (count-Taken (i + 2) (string2ll (take (i - 1) (drop 1 r.querybuf))) r t h (omega arith)))

multibulk-Taken :
    (r : Reader)
    → r.reqtype ≡ multibulk_request
    → r.multibulklen ≡ 0
    → r.argv ≡ []
    → get_or r.querybuf 0 0 ≡ b'*'
    → 0 < length r.querybuf
    → Taken (length r.querybuf) (process_multibulk_buffer r)
unfolding process_multibulk_buffer
multibulk-Taken r t c a star h =
    let none_left : r.multibulklen == 0 ≡ true = ground arith in
    let no_args : length r.argv == 0 ≡ true = ap (λ i. length i == 0) a in
    rw (process_multibulk_buffer, none_left, no_args)
      (line-Taken (find_cr r.querybuf) r t c a star h)

args-Taken :
    (r : Reader)
    → r.reqtype ≡ multibulk_request
    → 0 < r.multibulklen
    → 0 < length r.querybuf
    → Taken (length r.querybuf) (process_multibulk_buffer r)
unfolding process_multibulk_buffer
args-Taken r t c h =
    let some_left : r.multibulklen == 0 ≡ false = ground arith in
    rw (process_multibulk_buffer, some_left)
      (Taken-of (length r.querybuf) (length r.querybuf - 1) (omega arith)
        (read_args-Ends r.multibulklen (length r.querybuf - 1) 0 r t refl (omega arith)))

newline-Taken :
    (o : Option ℕ) (r : Reader)
    → r.reqtype ≡ inline_request
    → 0 < length r.querybuf
    → Taken (length r.querybuf) (some (inline_until o r))
newline-Taken none r t h =
    not_yet _ (Sane-if (ltb inline_max_size (length r.querybuf)) _ _ (will_close refl) (in_line t))
newline-Taken (some i) r t h = taken _ (omega (arith, length-drop (i + 2) r.querybuf))

inline-Taken :
    (r : Reader)
    → r.reqtype ≡ inline_request
    → 0 < length r.querybuf
    → Taken (length r.querybuf) (some (process_inline_buffer r))
unfolding process_inline_buffer
inline-Taken r t h = newline-Taken (find_crlf r.querybuf) r t h

-- the request that a round takes out of the buffer
request-Taken :
    (r : Reader)
    → Sane r
    → r.close_after_reply ≡ false
    → 0 < length r.querybuf
    → Taken
        (length r.querybuf)
        (process_request (request_type r) (record r { reqtype = request_type r }))
request-Taken r (will_close c) alive h = let no : true ≡ false = sym c ∙ alive in cc
request-Taken r (between t c a) alive h = elim (Bool-cases (get_or r.querybuf 0 0 == b'*')) [
  | inl star ↦
      let typed : request_type r ≡ multibulk_request = rw (request_type, t, star) refl in
      rw typed
        (multibulk-Taken (record r { reqtype = multibulk_request }) refl c a (ground arith) h)
  | inr other ↦
      let typed : request_type r ≡ inline_request = rw (request_type, t, other) refl in
      rw typed (inline-Taken (record r { reqtype = inline_request }) refl h)
]
request-Taken r (in_line t) alive h =
    let typed : request_type r ≡ inline_request = rw (request_type, t) refl in
    rw typed (inline-Taken (record r { reqtype = inline_request }) refl h)
request-Taken r (counting t c a star) alive h =
    let typed : request_type r ≡ multibulk_request = rw (request_type, t) refl in
    rw typed (multibulk-Taken (record r { reqtype = multibulk_request }) refl c a star h)
request-Taken r (in_args t c) alive h =
    let typed : request_type r ≡ multibulk_request = rw (request_type, t) refl in
    rw typed (args-Taken (record r { reqtype = multibulk_request }) refl c h)

module _ (run : List (List ℕ) → Effect)
    (quits : (args : List (List ℕ)) → (run args).is_ok ≡ false → (run args).closes ≡ true) where
  command-Sane : (r : Reader) → Sane (process_command run r)
  command-Sane r = elim (Bool-cases (length r.argv == 0)) [
    | inl bare ↦ rw (process_command, bare) (between refl refl refl)
    | inr args ↦ elim (Bool-cases (run r.argv).is_ok) [
      | inl ok ↦ rw (process_command, args, ok) (between refl refl refl)
      | inr quit ↦
          let shut : (r.close_after_reply || (run r.argv).closes) ≡ true =
            rw (quits r.argv quit) (or_true r.close_after_reply) in
          rw (process_command, args, quit) (will_close shut)
    ]
  ]
    where
      or_true : (b : Bool) → b || true ≡ true
      or_true true = refl
      or_true false = refl

  command_size : (r : Reader) → length (process_command run r).querybuf ≡ length r.querybuf
  command_size r = elim (Bool-cases (length r.argv == 0)) [
    | inl bare ↦ rw (process_command, bare) refl
    | inr args ↦ elim (Bool-cases (run r.argv).is_ok) [
      | inl ok ↦ rw (process_command, args, ok) refl
      | inr quit ↦ rw (process_command, args, quit) refl
    ]
  ]

  data Dealt : Option Reader → Type 0 where
    dealt : (r : Reader) → Sane r → Dealt (some r)

  if_Dealt :
      (b : Bool) {x y : Option Reader}
      → (b ≡ true → Dealt x)
      → (b ≡ false → Dealt y)
      → Dealt (if b then x else y)
  if_Dealt true h h' = h refl
  if_Dealt false h h' = h' refl

  after-Taken :
      (fuel k : ℕ) {x : Option (Bool × Reader)}
      → ((r : Reader)
          → length r.querybuf < k
          → Dealt (process_input_buffer run fuel (process_command run r)))
      → Taken k x
      → Dealt (elim x [
        | none ↦ none
        | some (ok, r) ↦ elim ok [
          | false ↦ some r
          | true ↦ process_input_buffer run fuel (process_command run r)
        ]
      ])
  after-Taken fuel k later (taken r h) = later r h
  after-Taken fuel k later (not_yet r h) = dealt r h

  loop-Sane :
      (fuel : ℕ) (r : Reader)
      → Sane r
      → length r.querybuf < fuel
      → Dealt (process_input_buffer run fuel r)
  unfolding process_input_buffer
  loop-Sane zero r sane h = absurd (omega arith)
  loop-Sane (suc fuel) r sane h =
      if_Dealt (length r.querybuf == 0) (λ empty. dealt r sane)
        (λ bytes.
          if_Dealt r.blocked (λ stopped. dealt r sane)
            (λ free.
              if_Dealt r.close_after_reply (λ shut. dealt r sane)
                (λ alive.
                  after-Taken fuel (length r.querybuf)
                    (λ r' less.
                      loop-Sane fuel (process_command run r') (command-Sane r')
                        (omega (arith, command_size r')))
                    (request-Taken r sane alive (ground arith)))))

  -- Whatever bytes are read, the buffer is dealt with in as many rounds as it has bytes and one more, no assertion
  -- fails, and the client is again in such a state, if a command that is not run to its end, as QUIT, closes the client.
  pub read_query_from_client-Sane :
      (r : Reader) (bytes : List ℕ)
      → Sane r
      → (r' : Reader) × (read_query_from_client run r bytes ≡ some r') × Sane r'
  unfolding read_query_from_client
  read_query_from_client-Sane r bytes sane = finish (
      loop-Sane (length (r.querybuf ++ bytes) + 1) (record r { querybuf = r.querybuf ++ bytes })
        (longer sane) (omega arith))
    where
      finish : {x : Option Reader} → Dealt x → (r' : Reader) × (x ≡ some r') × Sane r'
      finish (dealt r' h) = (r', refl, h)

      longer : Sane r → Sane (record r { querybuf = r.querybuf ++ bytes })
      longer (will_close c) = will_close c
      longer (between t c a) = between t c a
      longer (in_line t) = in_line t
      longer (counting t c a star) = counting t c a (first r.querybuf star)
        where
          first : (q : List ℕ) → get_or q 0 0 ≡ b'*' → get_or (q ++ bytes) 0 0 ≡ b'*'
          first [] e = absurd (omega arith)
          first (x ∷ q) e = e
      longer (in_args t c) = in_args t c
