-- ===== src/Sds/Buffer.antt =====
-- redis/src/sds.c: bytes written into a buffer, and a buffer reallocated.
use coffee_table.Prelude.{
  ℕ, zero, suc, ◌+◌, ◌-◌, ◌≤◌, ◌<◌, ◌≡◌, refl, ap, ◌∙◌, true, some, List, [], ◌∷◌, ◌++◌, length,
  take, drop, get_elem?, replicate, length-append, length-take, length-drop, leb, arith,
}
use coffee_table.Sds.{write, write_nul, fill, realloc}

pub take-append : (n : ℕ) (b c : List ℕ) → n ≤ length b → take n (b ++ c) ≡ take n b
take-append zero b c h = refl
take-append (suc n) [] c h = absurd (omega arith)
take-append (suc n) (x ∷ b) c h = ap (λ i. x ∷ i) (take-append n b c (omega arith))

take-all : (t c : List ℕ) → take (length t) (t ++ c) ≡ t
take-all [] c = refl
take-all (x ∷ t) c = ap (λ i. x ∷ i) (take-all t c)

take-take : (n : ℕ) (b c : List ℕ) → n ≤ length b → take n (take n b ++ c) ≡ take n b
take-take zero b c h = refl
take-take (suc n) [] c h = absurd (omega arith)
take-take (suc n) (x ∷ b) c h = ap (λ i. x ∷ i) (take-take n b c (omega arith))

-- the start and what is written behind it
take-write :
    (n : ℕ) (b t c : List ℕ)
    → n ≤ length b
    → take (n + length t) (take n b ++ (t ++ c)) ≡ take n b ++ t
take-write zero b t c h =
    let same : 0 + length t ≡ length t = omega arith in
    ap (λ i. take i (t ++ c)) same ∙ take-all t c
take-write (suc n) [] t c h = absurd (omega arith)
take-write (suc n) (x ∷ b) t c h =
    let same : suc n + length t ≡ suc (n + length t) = omega arith in
    ap (λ i. take i (x ∷ (take n b ++ (t ++ c)))) same
    ∙ ap (λ i. x ∷ i) (take-write n b t c (omega arith))

get-written :
    (n : ℕ) (b c : List ℕ) (x : ℕ) → n ≤ length b → get_elem? (take n b ++ (x ∷ c)) n ≡ some x
get-written zero b c x h = refl
get-written (suc n) [] c x h = absurd (omega arith)
get-written (suc n) (y ∷ b) c x h = get-written n b c x (omega arith)

length-written :
    (n : ℕ) (b t : List ℕ)
    → n + length t ≤ length b
    → length (take n b ++ (t ++ drop (n + length t) b)) ≡ length b
length-written n b t h = omega (
  arith,
  length-append (take n b) (t ++ drop (n + length t) b),
  length-append t (drop (n + length t) b),
  length-take n b,
  length-drop (n + length t) b,
)

leb-true : (m n : ℕ) → m ≤ n → leb m n ≡ true
leb-true m n h = ground arith

-- Bytes and a nul fit behind a start: both writes succeed.
pub record Written (b : List ℕ) (off : ℕ) (t : List ℕ) (b' : List ℕ) : Type 0 where
  pub same_length : length b' ≡ length b
  pub new_bytes : take (off + length t) b' ≡ take off b ++ t
  pub nul : get_elem? b' (off + length t) ≡ some 0

pub write_nul_lem :
    (b : List ℕ) (off : ℕ) (t : List ℕ)
    → off + length t < length b
    → (b' : List ℕ) × (write_nul t off (write b off t) ≡ some b') × Written b off t b'
unfolding write
write_nul_lem b off t h =
    let b1 = take off b ++ (t ++ drop (off + length t) b) in
    let long = length-written off b t (omega arith) in
    let fits = leb-true (off + length t) (length b) (omega arith) in
    let fits1 = leb-true (off + length t + 1) (length b1) (omega arith) in
    let end = off + length t in
    (
      take end b1 ++ ((0 ∷ []) ++ drop (end + 1) b1),
      rw (fits, fits1) refl,
      record {
        same_length = length-written end b1 (0 ∷ []) (omega arith) ∙ long;
        new_bytes =
            take-take end b1 _ (omega arith)
            ∙ take-write off b t (drop (off + length t) b) (omega arith);
        nul = get-written end b1 _ 0 (omega arith);
      },
    )

length-fill : (fresh : ℕ → ℕ) (i n : ℕ) → length (fill fresh i n) ≡ n
length-fill fresh i zero = refl
length-fill fresh i (suc n) = ap suc (length-fill fresh (suc i) n)

pub length-realloc : (fresh : ℕ → ℕ) (n : ℕ) (b : List ℕ) → length (realloc fresh n b) ≡ n
length-realloc fresh n b = omega (
  arith,
  length-append (take n b) (fill fresh (length b) (n - length b)),
  length-take n b,
  length-fill fresh (length b) (n - length b),
)

take-shorter : (m n : ℕ) (b : List ℕ) → m ≤ n → take m (take n b) ≡ take m b
take-shorter zero n b h = refl
take-shorter (suc m) zero b h = absurd (omega arith)
take-shorter (suc m) (suc n) [] h = refl
take-shorter (suc m) (suc n) (x ∷ b) h = ap (λ i. x ∷ i) (take-shorter m n b (omega arith))

pub take-realloc :
    (fresh : ℕ → ℕ) (m n : ℕ) (b : List ℕ)
    → m ≤ n
    → m ≤ length b
    → take m (realloc fresh n b) ≡ take m b
take-realloc fresh m n b h k =
    take-append m (take n b) _ (omega (arith, length-take n b)) ∙ take-shorter m n b h

zeros_end : (k : ℕ) (c : List ℕ) → get_elem? (replicate (suc k) 0 ++ c) k ≡ some 0
zeros_end zero c = refl
zeros_end (suc k) c = zeros_end k c

get-zeros :
    (off k : ℕ) (b c : List ℕ)
    → off ≤ length b
    → get_elem? (take off b ++ (replicate (suc k) 0 ++ c)) (off + k) ≡ some 0
get-zeros zero k b c h =
    let same : 0 + k ≡ k = omega arith in
    ap (get_elem? (replicate (suc k) 0 ++ c)) same ∙ zeros_end k c
get-zeros (suc off) k [] c h = absurd (omega arith)
get-zeros (suc off) k (x ∷ b) c h =
    let same : suc off + k ≡ suc (off + k) = omega arith in
    ap (get_elem? (x ∷ (take off b ++ (replicate (suc k) 0 ++ c)))) same
    ∙ get-zeros off k b c (omega arith)

zeros_start : (k : ℕ) (c : List ℕ) → take k (replicate (suc k) 0 ++ c) ≡ replicate k 0
zeros_start zero c = refl
zeros_start (suc k) c = ap (λ i. 0 ∷ i) (zeros_start k c)

take-zeros :
    (off k : ℕ) (b c : List ℕ)
    → off ≤ length b
    → take (off + k) (take off b ++ (replicate (suc k) 0 ++ c)) ≡ take off b ++ replicate k 0
take-zeros zero k b c h =
    let same : 0 + k ≡ k = omega arith in
    ap (λ i. take i (replicate (suc k) 0 ++ c)) same ∙ zeros_start k c
take-zeros (suc off) k [] c h = absurd (omega arith)
take-zeros (suc off) k (x ∷ b) c h =
    let same : suc off + k ≡ suc (off + k) = omega arith in
    ap (λ i. take i (x ∷ (take off b ++ (replicate (suc k) 0 ++ c)))) same
    ∙ ap (λ i. x ∷ i) (take-zeros off k b c (omega arith))

length-zeros : (k : ℕ) → length (replicate {A = ℕ} k 0) ≡ k
length-zeros zero = refl
length-zeros (suc k) = ap suc (length-zeros k)

-- zeros and a nul in one write
pub zeros_lem :
    (b : List ℕ) (off k : ℕ)
    → off + k < length b
    → (b' : List ℕ) × (write b off (replicate (k + 1) 0) ≡ some b')
      × (length b' ≡ length b)
      × (take (off + k) b' ≡ take off b ++ replicate k 0)
      × (get_elem? b' (off + k) ≡ some 0)
unfolding write
zeros_lem b off k h =
    let next : k + 1 ≡ suc k = omega arith in
    let long = length-zeros (suc k) in
    let fits = leb-true (off + length (replicate {A = ℕ} (suc k) 0)) (length b) (omega arith) in
    let rest = drop (off + length (replicate {A = ℕ} (suc k) 0)) b in
    (
      take off b ++ (replicate (suc k) 0 ++ rest),
      rw (next, fits) refl,
      length-written off b (replicate (suc k) 0) (omega arith),
      take-zeros off k b rest (omega arith),
      get-zeros off k b rest (omega arith),
    )

-- A nul alone: the bytes in front of it stay.
pub cut_lem :
    (b : List ℕ) (n : ℕ)
    → n < length b
    → (b' : List ℕ) × (write b n (0 ∷ []) ≡ some b')
      × (length b' ≡ length b)
      × (take n b' ≡ take n b)
      × (get_elem? b' n ≡ some 0)
unfolding write
cut_lem b n h =
    let fits = leb-true (n + 1) (length b) (omega arith) in
    (
      take n b ++ ((0 ∷ []) ++ drop (n + 1) b),
      rw fits refl,
      length-written n b (0 ∷ []) (omega arith),
      take-take n b _ (omega arith),
      get-written n b _ 0 (omega arith),
    )
