-- ===== src/Toml/Texts.antt =====
-- Texts as lists of UTF-16 units, and the pieces of the patterns of
-- packages/agent-installers/src/tomlConfig.ts: where a line begins and ends, blanks and literals.
use pickforge.Base.{
  ℕ, suc, ◌+◌, Bool, true, ◌&&◌, ◌||◌, Option, none, some, List, [], ◌∷◌, drop, ◌==◌, if◌then◌else◌,
  bind_option,
}
use Prim.Native.Char.{code}
use Prim.Native.String.{String}

-- A constant text, which has only characters of one unit.
abbrev pub units : String → List ℕ
units String.[] = []
units (String.◌∷◌ c s) = code c ∷ units s

abbrev pub line_feed : ℕ
line_feed = 10

abbrev pub carriage_return : ℕ
carriage_return = 13

-- What ends a line for `^`, `$` and `.` of a pattern.
abbrev pub is_terminator : ℕ → Bool
is_terminator c = (c == 10) || ((c == 13) || ((c == 8232) || (c == 8233)))

-- `$` with the flag `m`, on what follows.
unfoldable pub at_line_end : List ℕ → Bool
at_line_end [] = true
at_line_end (c ∷ cs) = is_terminator c

abbrev pub is_blank : ℕ → Bool
is_blank c = (c == 32) || (c == 9)

-- The length of `[ \t]*`, which nothing after it can give back.
unfoldable pub blanks : List ℕ → ℕ
blanks [] = 0
blanks (c ∷ cs) = let rest = blanks cs in if is_blank c then suc rest else 0

abbrev pub skip_blanks : List ℕ → List ℕ
skip_blanks text = drop (blanks text) text

-- What follows a literal, if the text starts with it.
unfoldable pub strip : List ℕ → List ℕ → Option (List ℕ)
strip [] text = some text
strip (c ∷ cs) [] = none
strip (c ∷ cs) (d ∷ text) = let rest = strip cs text in if c == d then rest else none

-- The length of `\r?$`, if it matches: the `\r` is taken if the end of a line follows it.
unfoldable pub return_and_end : List ℕ → Option ℕ
return_and_end [] = some 0
return_and_end (c ∷ cs) =
    if (c == carriage_return) && at_line_end cs
    then some 1
    else if is_terminator c
    then some 0
    else none

-- The length of `[ \t]*\r?$`, if it matches.
unfoldable pub blanks_and_end : List ℕ → Option ℕ
blanks_and_end text = bind_option (return_and_end (skip_blanks text)) (λ n. some (blanks text + n))
