-- ===== src/Util/Glob.antt =====
-- redis/src/util.c: the match of a pattern in the style of a shell, on bytes with a nul behind them. A read
-- behind the nul is `none`, and so is a loop that goes on until it makes one.
pub mod Accepts
pub mod Class
pub mod Match
mod Tests
use coffee_table.Prelude.{
  ℕ, zero, suc, ◌+◌, ◌%◌, Bool, true, false, ◌&&◌, ◌||◌, not, Option, none, some, List, [], ◌∷◌,
  length, if◌then◌else◌, leb, ◌==◌,
}

-- `tolower` on a byte, in the "C" locale
abbrev pub tolower : ℕ → ℕ
tolower c = if leb b'A' c && leb c b'Z' then c + 32 else c

abbrev pub fold : Bool → ℕ → ℕ
fold nocase c = if nocase then tolower c else c

abbrev pub same_char : Bool → ℕ → ℕ → Bool
same_char nocase a b = fold nocase a == fold nocase b

-- The bytes in the order of `char`, which is signed: those from 128 on come first.
abbrev pub char_le : ℕ → ℕ → Bool
char_le a b = leb ((a + 128) % 256) ((b + 128) % 256)

-- a range of bytes, whose ends may be the other way round
abbrev pub in_range : Bool → ℕ → ℕ → ℕ → Bool
in_range nocase a b c =
    let start = if char_le a b then a else b in
    let end = if char_le a b then b else a in
    char_le (fold nocase start) (fold nocase c) && char_le (fold nocase c) (fold nocase end)

-- where the string is: on some bytes, or behind the nul
pub data Text : Type 0 where
  at : List ℕ → Text
  past : Text

abbrev pub read : Text → Option ℕ
read past = none
read (at []) = some 0
read (at (x ∷ s)) = some x

abbrev pub advance : Text → Text
advance past = past
advance (at []) = past
advance (at (x ∷ s)) = at s

abbrev pub is_end : Text → Bool
is_end past = false
is_end (at []) = true
is_end (at (x ∷ s)) = false

-- the bytes between brackets: whether one of them is the byte `x` of the string, and what is behind them
unfoldable pub class_loop : Bool → ℕ → Bool → List ℕ → Option (Bool × List ℕ)
class_loop nocase x found [] = some (found, [])
class_loop nocase x found (a ∷ []) = elim (a == b'\\') [
  | true ↦ none
  | false ↦ elim (a == b']') [
    | true ↦ some (found, [])
    | false ↦ some (found || same_char nocase a x, [])
  ]
]
class_loop nocase x found (a ∷ b ∷ []) = elim (a == b'\\') [
  | true ↦ some (found || (b == x), [])
  | false ↦ elim (a == b']') [
    | true ↦ some (found, b ∷ [])
    | false ↦ class_loop nocase x (found || same_char nocase a x) (b ∷ [])
  ]
]
class_loop nocase x found (a ∷ b ∷ c ∷ p) = elim (a == b'\\') [
  | true ↦ class_loop nocase x (found || (b == x)) (c ∷ p)
  | false ↦ elim (a == b']') [
    | true ↦ some (found, b ∷ c ∷ p)
    | false ↦ elim (b == b'-') [
      | true ↦ class_loop nocase x (found || in_range nocase a c x) p
      | false ↦ class_loop nocase x (found || same_char nocase a x) (b ∷ c ∷ p)
    ]
  ]
]

-- the sign for a class of all the other bytes
abbrev pub is_negated : List ℕ → Bool
is_negated [] = false
is_negated (c ∷ p) = c == b'^'

abbrev pub behind_sign : List ℕ → List ℕ
behind_sign [] = []
behind_sign (c ∷ p) = if c == b'^' then p else c ∷ p

abbrev pub class_of : Bool → ℕ → List ℕ → Option (Bool × List ℕ)
class_of nocase x p = elim (class_loop nocase x false (behind_sign p)) [
  | none ↦ none
  | some (found, rest) ↦ some (if is_negated p then not found else found, rest)
]

unfoldable pub skip_stars : List ℕ → List ℕ
skip_stars [] = []
skip_stars (c ∷ p) = elim (c == b'*') [ true ↦ skip_stars p | false ↦ c ∷ p ]

abbrev pub is_empty : List ℕ → Bool
is_empty [] = true
is_empty (x ∷ s) = false

-- what a star stands for is tried byte by byte
unfoldable pub try_suffixes : (List ℕ → Option Bool) → List ℕ → Option Bool
try_suffixes matches [] = some false
try_suffixes matches (x ∷ s) = elim (matches (x ∷ s)) [
  | none ↦ none
  | some b ↦ elim b [ true ↦ some true | false ↦ try_suffixes matches s ]
]

-- behind the nul the loop runs on, unless its first call returns 1
abbrev pub try_text : (Text → Option Bool) → Text → Option Bool
try_text matches (at s) = try_suffixes (λ t. matches (at t)) s
try_text matches past = elim (matches past) [
  | none ↦ none
  | some b ↦ elim b [ true ↦ some true | false ↦ none ]
]

-- a round of the loop, whose next rounds and calls are `rec`
module _ (nocase : Bool) (rec : List ℕ → Text → Option Bool) where
  -- the end of a round
  abbrev pub after : List ℕ → Text → Option Bool
  after p t = elim (is_end t) [ true ↦ some (is_empty (skip_stars p)) | false ↦ rec p t ]

  abbrev pub star_round : List ℕ → Text → Option Bool
  star_round p t = elim (is_empty (skip_stars p)) [
    | true ↦ some true
    | false ↦ try_text (rec (skip_stars p)) t
  ]

  abbrev pub any_round : List ℕ → Text → Option Bool
  any_round p t = elim (is_end t) [ true ↦ some false | false ↦ after p (advance t) ]

  abbrev pub char_round : ℕ → List ℕ → Text → Option Bool
  char_round c p t = elim (read t) [
    | none ↦ none
    | some x ↦ elim (same_char nocase c x) [ true ↦ after p (advance t) | false ↦ some false ]
  ]

  abbrev pub quoted_round : List ℕ → Text → Option Bool
  quoted_round [] t = char_round b'\\' [] t
  quoted_round (c ∷ p) t = char_round c p t

  -- the string is read only where the class has a byte to compare
  abbrev pub has_item : List ℕ → Bool
  has_item [] = false
  has_item (c ∷ p) = not (c == b']')

  abbrev pub class_text : List ℕ → Text → Option (Bool × List ℕ)
  class_text p t = elim (read t) [
    | some x ↦ class_of nocase x p
    | none ↦ elim (has_item (behind_sign p)) [ true ↦ none | false ↦ class_of nocase 0 p ]
  ]

  abbrev pub class_round : List ℕ → Text → Option Bool
  class_round p t = elim (class_text p t) [
    | none ↦ none
    | some (found, rest) ↦ elim found [ true ↦ after rest (advance t) | false ↦ some false ]
  ]

  abbrev pub round : ℕ → List ℕ → Text → Option Bool
  round c p t = elim (c == b'*') [
    | true ↦ star_round p t
    | false ↦ elim (c == b'?') [
      | true ↦ any_round p t
      | false ↦ elim (c == b'[') [
        | true ↦ class_round p t
        | false ↦ elim (c == b'\\') [ true ↦ quoted_round p t | false ↦ char_round c p t ]
      ]
    ]
  ]

unfoldable pub match_loop : Bool → ℕ → List ℕ → Text → Option Bool
unfolding class_loop skip_stars try_suffixes
match_loop nocase zero p t = none
match_loop nocase (suc fuel) [] t = some (is_end t)
match_loop nocase (suc fuel) (c ∷ p) t = round nocase (match_loop nocase fuel) c p t

-- `stringmatchlen`; a round takes a byte of the pattern at least
unfoldable pub stringmatchlen : List ℕ → List ℕ → Bool → Option Bool
unfolding match_loop
stringmatchlen pattern string nocase = match_loop nocase (length pattern + 1) pattern (at string)
