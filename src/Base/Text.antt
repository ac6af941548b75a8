-- ===== src/Base/Text.antt =====
-- Python's operations on text that the program uses: f-strings, `str` of a number, prefixes and
-- substrings, `strip`, `splitlines` and `split`. A text is a list of code points.
pub mod Laws
pub mod Paths
pub mod Words
use Prim.Native.Nat.{ℕ, zero, suc, ◌+◌, ◌/◌, ◌%◌}
use Prim.Native.Char.{Char, code}
use Prim.Native.String
use Prim.Native.String.{String}
use mathlib.Core.Bool.{Bool, true, false, not, ◌&&◌, ◌||◌}
use mathlib.Core.Option.{Option, none, some}
use package.text.Mathlib.Text.{◌==◌}
use mathlib.Core.List.{List, [], ◌∷◌, reverse}
use nemoclaw_lab_cl.Base.Tests.{ltb, leb, ◌=ℕ◌, if◌then◌else◌}

-- the pieces of an f-string, joined
unfoldable pub text : List String → String
text [] = ""
text (s ∷ ss) = String.◌++◌ s (text ss)

digit : ℕ → String
digit d =
    if d =ℕ 0
    then "0"
    else if d =ℕ 1
    then "1"
    else if d =ℕ 2
    then "2"
    else if d =ℕ 3
    then "3"
    else if d =ℕ 4
    then "4"
    else if d =ℕ 5
    then "5"
    else if d =ℕ 6
    then "6"
    else if d =ℕ 7
    then "7"
    else if d =ℕ 8
    then "8"
    else "9"

-- the digits of `n` in front of `rest`; the fuel is more than the number of digits
decimal_from : ℕ → ℕ → String → String
decimal_from zero n rest = rest
decimal_from (suc fuel) n rest =
    let done = String.◌++◌ (digit (n % 10)) rest in
    let more = decimal_from fuel (n / 10) done in if ltb n 10 then done else more

-- `str(n)`
unfoldable pub decimal : ℕ → String
unfolding digit decimal_from
decimal n = decimal_from (suc n) n ""

same_char : Char → Char → Bool
same_char c d = code c =ℕ code d

-- `s.startswith(p)`
unfoldable pub startswith : String → String → Bool
unfolding same_char
startswith s String.[] = true
startswith String.[] (String.◌∷◌ d p) = false
startswith (String.◌∷◌ c s) (String.◌∷◌ d p) = same_char c d && startswith s p

-- `p in s`
unfoldable pub includes : String → String → Bool
unfolding startswith
includes p String.[] = startswith "" p
includes p (String.◌∷◌ c s) = startswith (String.◌∷◌ c s) p || includes p s

-- `str.isspace` of one character, the default set of `strip`
unfoldable pub is_space : Char → Bool
is_space c =
    let n = code c in
    (leb 9 n && leb n 13)
    || (leb 28 n && leb n 32)
    || n =ℕ 133
    || n =ℕ 160
    || n =ℕ 5760
    || (leb 8192 n && leb n 8202)
    || n =ℕ 8232
    || n =ℕ 8233
    || n =ℕ 8239
    || n =ℕ 8287
    || n =ℕ 12288

-- the line breaks of `splitlines`
unfoldable pub is_break : Char → Bool
is_break c =
    let n = code c in
    (leb 10 n && leb n 13) || (leb 28 n && leb n 30) || n =ℕ 133 || n =ℕ 8232 || n =ℕ 8233

-- `chars` as a set, for `strip(chars)`
unfoldable pub one_of : String → Char → Bool
unfolding same_char
one_of String.[] c = false
one_of (String.◌∷◌ d ds) c = same_char c d || one_of ds c

unfoldable pub lstrip_by : (Char → Bool) → String → String
lstrip_by drops String.[] = ""
lstrip_by drops (String.◌∷◌ c s) =
    let rest = lstrip_by drops s in if drops c then rest else String.◌∷◌ c s

rstrip_step : Char → String → Bool → String
rstrip_step c String.[] true = ""
rstrip_step c s drop = String.◌∷◌ c s

-- from the right: a dropped character goes only when nothing is left behind it
unfoldable pub rstrip_by : (Char → Bool) → String → String
unfolding rstrip_step
rstrip_by drops String.[] = ""
rstrip_by drops (String.◌∷◌ c s) = rstrip_step c (rstrip_by drops s) (drops c)

unfoldable pub lstrip : String → String
unfolding lstrip_by is_space
lstrip s = lstrip_by is_space s

unfoldable pub strip : String → String
unfolding lstrip_by rstrip_by is_space
strip s = rstrip_by is_space (lstrip_by is_space s)

abbrev push : Char → String → String
push c s = String.◌++◌ s (String.◌∷◌ c "")

last_line : String → List String
last_line String.[] = []
last_line line = line ∷ []

-- `line` is what has been read of the current line; `skip` says that the last character was "\r",
-- so that a "\n" here ends no further line.
lines_from : String → Bool → String → List String
lines_from line skip String.[] = last_line line
lines_from line skip (String.◌∷◌ c s) =
    let closed = line ∷ lines_from "" (code c =ℕ 13) s in
    let swallowed = lines_from line false s in
    let longer = lines_from (push c line) false s in
    if skip && code c =ℕ 10 then swallowed else if is_break c then closed else longer

unfoldable pub splitlines : String → List String
unfolding last_line lines_from is_break
splitlines s = lines_from "" false s

-- `sep.join(parts)`
unfoldable pub join : String → List String → String
join sep [] = ""
join sep (s ∷ []) = s
join sep (s ∷ t ∷ ss) = String.◌++◌ s (String.◌++◌ sep (join sep (t ∷ ss)))

-- `len(s)`
unfoldable pub chars : String → ℕ
chars String.[] = 0
chars (String.◌∷◌ c s) = suc (chars s)

-- `s[:n]`
unfoldable pub slice_to : ℕ → String → String
slice_to zero s = ""
slice_to (suc n) String.[] = ""
slice_to (suc n) (String.◌∷◌ c s) = String.◌∷◌ c (slice_to n s)

-- `s.split(sep)[0]`, for a separator that is not empty
unfoldable pub before : String → String → String
unfolding startswith
before sep String.[] = ""
before sep (String.◌∷◌ c s) =
    let rest = String.◌∷◌ c (before sep s) in if startswith (String.◌∷◌ c s) sep then "" else rest

cons_some : Char → Option String → Option String
cons_some c none = none
cons_some c (some s) = some (String.◌∷◌ c s)

-- what stands before the suffix `p`; `none` if `s.endswith(p)` is false
unfoldable pub without_suffix : String → String → Option String
unfolding cons_some
without_suffix p String.[] = if p == "" then some "" else none
without_suffix p (String.◌∷◌ c s) =
    let rest = cons_some c (without_suffix p s) in if String.◌∷◌ c s == p then some "" else rest

-- `s.removesuffix(p)`
unfoldable pub removesuffix : String → String → String
unfolding without_suffix
removesuffix p s = elim (without_suffix p s) [ none ↦ s | some t ↦ t ]

last_part : ℕ → String → String → String
last_part sep cur String.[] = cur
last_part sep cur (String.◌∷◌ c s) = last_part sep (if code c =ℕ sep then "" else push c cur) s

-- `s.rsplit("/", 1)[-1]`
unfoldable pub after_last_slash : String → String
unfolding last_part
after_last_slash s = last_part b'/' "" s
