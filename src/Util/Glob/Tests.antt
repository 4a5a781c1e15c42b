-- ===== src/Util/Glob/Tests.antt =====
-- The theorem on the patterns of redis/src/util.c at a concrete pattern, and runs.
use coffee_table.Prelude.{◌≡◌, refl, true, false, none, some, List, ◌∷◌, []}
use coffee_table.Util.Glob.{stringmatchlen, match_loop, class_loop, skip_stars, try_suffixes}
use coffee_table.Util.Glob.Accepts.{
  Part, star, any, char, quoted, class, plain, escaped, range, write, accepts,
}
use coffee_table.Util.Glob.Match.{stringmatchlen-write}

-- "h[^a-c\]]*\??"
abbrev pattern : List Part
pattern =
    char b'h'
    ∷ class true (range b'a' b'c' ∷ escaped b']' ∷ plain b'x' ∷ [])
    ∷ star
    ∷ quoted b'?'
    ∷ any
    ∷ []

stringmatchlen-write_example :
    stringmatchlen (write pattern) (b'H' ∷ b'e' ∷ b'l' ∷ b'?' ∷ b'o' ∷ []) true
    ≡ some (accepts true pattern (b'H' ∷ b'e' ∷ b'l' ∷ b'?' ∷ b'o' ∷ []))
stringmatchlen-write_example =
    stringmatchlen-write true pattern b'H' (b'e' ∷ b'l' ∷ b'?' ∷ b'o' ∷ [])
      ((refl, refl, refl, refl), (((refl, refl, refl, refl), ((refl, refl, refl, refl), tt)), tt))

pattern_matches :
    stringmatchlen (write pattern) (b'H' ∷ b'e' ∷ b'l' ∷ b'?' ∷ b'o' ∷ []) true ≡ some true
unfolding stringmatchlen match_loop class_loop skip_stars try_suffixes
pattern_matches = refl

-- "[\" is read behind its end, and so is the empty string by "[^a]a".
open_escape : stringmatchlen (b'[' ∷ b'\\' ∷ []) (b'a' ∷ []) false ≡ none
unfolding stringmatchlen match_loop class_loop
open_escape = refl

empty_string : stringmatchlen (b'[' ∷ b'^' ∷ b'a' ∷ b']' ∷ b'a' ∷ []) [] false ≡ none
unfolding stringmatchlen match_loop class_loop
empty_string = refl
