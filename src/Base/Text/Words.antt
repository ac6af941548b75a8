-- ===== src/Base/Text/Words.antt =====
-- `split` at white space, and the parts of a path.
use Prim.Native.Nat.{ℕ, zero, suc, ◌+◌, ◌-◌}
use Prim.Native.Char.{Char, code}
use Prim.Native.String
use Prim.Native.String.{String}
use mathlib.Core.Bool.{Bool, true, false, ◌&&◌, ◌||◌}
use mathlib.Core.List.{List, ◌∷◌}
use mathlib.Core.Option.{Option, none, some}
use nemoclaw_lab_cl.Base.Tests.{leb, ◌=ℕ◌, if◌then◌else◌}
use nemoclaw_lab_cl.Base.Text.{is_space, push, last_line, startswith, chars}

words_after : String → List String → List String
words_after String.[] rest = rest
words_after word rest = word ∷ rest

words_from : String → String → List String
words_from word String.[] = last_line word
words_from word (String.◌∷◌ c s) =
    let closed = words_after word (words_from "" s) in
    let longer = words_from (push c word) s in if is_space c then closed else longer

-- `s.split()`
unfoldable pub split : String → List String
unfolding words_from words_after last_line
split s = words_from "" s

-- what stands before the last slash
cut : String → Option String
cut String.[] = none
cut (String.◌∷◌ c s) = elim (cut s) [
  | some rest ↦ some (String.◌∷◌ c rest)
  | none ↦ if code c =ℕ b'/' then some "" else none
]

-- `s.rsplit("/", 1)[0]`
unfoldable pub before_last_slash : String → String
unfolding cut
before_last_slash s = elim (cut s) [ none ↦ s | some rest ↦ rest ]

-- ASCII letters in upper case match the lower-case letters of `t`; no other character has one of
-- those that the program compares with as its lower case
unfoldable pub lower_is : String → String → Bool
lower_is String.[] String.[] = true
lower_is String.[] (String.◌∷◌ d t) = false
lower_is (String.◌∷◌ c s) String.[] = false
lower_is (String.◌∷◌ c s) (String.◌∷◌ d t) =
    (code c =ℕ code d || (leb 65 (code c) && leb (code c) 90 && (code c + 32) =ℕ code d))
    && lower_is s t

-- `s.partition(" ")[2]`
unfoldable pub after_space : String → String
after_space String.[] = ""
after_space (String.◌∷◌ c s) = if code c =ℕ 32 then s else after_space s

-- `re.fullmatch("^[...]+$", s)`, for a class of characters
all_in : (Char → Bool) → String → Bool
all_in class String.[] = true
all_in class (String.◌∷◌ c s) = class c && all_in class s

unfoldable pub matches_class : (Char → Bool) → String → Bool
unfolding all_in
matches_class class String.[] = false
matches_class class (String.◌∷◌ c s) = all_in class (String.◌∷◌ c s)

unfoldable pub is_digit : Char → Bool
is_digit c = leb 48 (code c) && leb (code c) 57

unfoldable pub is_lower : Char → Bool
is_lower c = leb 97 (code c) && leb (code c) 122

unfoldable pub is_upper : Char → Bool
is_upper c = leb 65 (code c) && leb (code c) 90

-- `[a-z0-9-]`
unfoldable pub pack_id_char : Char → Bool
unfolding is_lower is_digit
pack_id_char c = is_lower c || is_digit c || code c =ℕ b'-'

-- `[A-Za-z0-9._-]`
unfoldable pub id_char : Char → Bool
unfolding is_upper is_lower is_digit
id_char c =
    is_upper c || is_lower c || is_digit c || code c =ℕ b'.' || code c =ℕ b'_' || code c =ℕ b'-'

-- `skip` characters of an occurrence of `old` are still to be passed over
replacing : String → String → ℕ → String → String
unfolding startswith chars
replacing old new skip String.[] = ""
replacing old new (suc skip) (String.◌∷◌ c s) = replacing old new skip s
replacing old new zero (String.◌∷◌ c s) =
    let hit = String.◌++◌ new (replacing old new (chars old - 1) s) in
    let miss = String.◌∷◌ c (replacing old new zero s) in
    if startswith (String.◌∷◌ c s) old then hit else miss

-- `s.replace(old, new)`, for a text `old` that is not empty
unfoldable pub replace : String → String → String → String
unfolding replacing
replace old new s = replacing old new 0 s
