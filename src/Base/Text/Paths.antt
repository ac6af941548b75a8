-- ===== src/Base/Text/Paths.antt =====
-- The last segment of a path.
use Prim.Native.Char.{Char, code}
use Prim.Native.String
use Prim.Native.String.{String}
use package.text.Mathlib.TextLemmas.{append_assoc, append-nil, nil-append, cons-append}
use mathlib.Core.Path.{◌≡◌, refl, sym, ap, ◌∙◌}
use mathlib.Core.Bool.{Bool, true, false, not, ◌&&◌}
use native.Mathlib.Omega.{arith}
use nemoclaw_lab_cl.Base.Tests.{◌=ℕ◌, if◌then◌else◌}
use nemoclaw_lab_cl.Base.Text.{
  rstrip_by, rstrip_step, one_of, same_char, after_last_slash, last_part, push,
}

-- a non-empty text without a slash
unfoldable pub slash_free : String → Bool
slash_free String.[] = true
slash_free (String.◌∷◌ c s) = not (code c =ℕ b'/') && slash_free s

unfoldable pub is_segment : String → Bool
unfolding slash_free
is_segment String.[] = false
is_segment (String.◌∷◌ c s) = slash_free (String.◌∷◌ c s)

rstrip_step-kept : (c : Char) (s : String) → rstrip_step c s false ≡ String.◌∷◌ c s
unfolding rstrip_step
rstrip_step-kept c String.[] = refl
rstrip_step-kept c (String.◌∷◌ d s) = refl

one_of-slash : (c : Char) → (code c =ℕ b'/') ≡ false → one_of "/" c ≡ false
unfolding one_of same_char
one_of-slash c h = ground (arith, h)

rstrip_by-slash_free : (s : String) → slash_free s ≡ true → rstrip_by (one_of "/") s ≡ s
unfolding rstrip_by slash_free
rstrip_by-slash_free String.[] h = refl
rstrip_by-slash_free (String.◌∷◌ c s) h =
    let kept : one_of "/" c ≡ false = one_of-slash c (ground (arith, h)) in
    let rest : rstrip_by (one_of "/") s ≡ s = rstrip_by-slash_free s (ground (arith, h)) in
    rw (kept, rest) (rstrip_step-kept c s)

push-append :
    (c : Char) (cur s : String) → String.◌++◌ (push c cur) s ≡ String.◌++◌ cur (String.◌∷◌ c s)
push-append c cur s =
    append_assoc cur (String.◌∷◌ c "") s
    ∙ ap (String.◌++◌ cur) (cons-append c "" s ∙ ap (String.◌∷◌ c) (nil-append s))

last_part-slash_free :
    (cur s : String) → slash_free s ≡ true → last_part b'/' cur s ≡ String.◌++◌ cur s
unfolding last_part slash_free
last_part-slash_free cur String.[] h = sym (append-nil cur)
last_part-slash_free cur (String.◌∷◌ c s) h =
    let other : (code c =ℕ b'/') ≡ false = ground (arith, h) in
    rw other (last_part-slash_free (push c cur) s (ground (arith, h)) ∙ push-append c cur s)

rstrip_step-append :
    (drop : Bool) (x : Char) (p : String) (c : Char) (s : String)
    → rstrip_step x (String.◌++◌ p (String.◌∷◌ c s)) drop
      ≡ String.◌∷◌ x (String.◌++◌ p (String.◌∷◌ c s))
unfolding rstrip_step
rstrip_step-append drop x String.[] c s = rw (nil-append (String.◌∷◌ c s)) refl
rstrip_step-append drop x (String.◌∷◌ y p) c s = rw (cons-append y p (String.◌∷◌ c s)) refl

rstrip_by-cons :
    (drops : Char → Bool) (x : Char) (p : String) (c : Char) (s : String)
    → rstrip_by drops (String.◌++◌ p (String.◌∷◌ c s)) ≡ String.◌++◌ p (String.◌∷◌ c s)
    → rstrip_by drops (String.◌∷◌ x (String.◌++◌ p (String.◌∷◌ c s)))
      ≡ String.◌∷◌ x (String.◌++◌ p (String.◌∷◌ c s))
unfolding rstrip_by
rstrip_by-cons drops x p c s h = rw h (rstrip_step-append (drops x) x p c s)

rstrip_by-append :
    (drops : Char → Bool) (p : String) (c : Char) (s : String)
    → rstrip_by drops (String.◌∷◌ c s) ≡ String.◌∷◌ c s
    → rstrip_by drops (String.◌++◌ p (String.◌∷◌ c s)) ≡ String.◌++◌ p (String.◌∷◌ c s)
rstrip_by-append drops String.[] c s h = rw (nil-append (String.◌∷◌ c s)) h
rstrip_by-append drops (String.◌∷◌ x p) c s h =
    rw (cons-append x p (String.◌∷◌ c s))
      (rstrip_by-cons drops x p c s (rstrip_by-append drops p c s h))

last_part-append :
    (cur p s : String)
    → slash_free s ≡ true
    → last_part b'/' cur (String.◌++◌ p (String.◌++◌ "/" s)) ≡ s
unfolding last_part
last_part-append cur String.[] s h =
    rw (nil-append (String.◌++◌ "/" s), cons-append "/" "" s, nil-append s)
      (last_part-slash_free "" s h ∙ nil-append s)
last_part-append cur (String.◌∷◌ c p) s h =
    rw (cons-append c p (String.◌++◌ "/" s))
      (last_part-append (if code c =ℕ b'/' then "" else push c cur) p s h)

-- The text behind the last slash of a path is its last segment.
pub after_last_slash-path :
    (p s : String)
    → is_segment s ≡ true
    → after_last_slash (rstrip_by (one_of "/") (String.◌++◌ (String.◌++◌ p "/") s)) ≡ s
unfolding is_segment after_last_slash
after_last_slash-path p String.[] h = cc
after_last_slash-path p (String.◌∷◌ c s) h =
    rw
      (
        rstrip_by-append (one_of "/") (String.◌++◌ p "/") c s
            (rstrip_by-slash_free (String.◌∷◌ c s) h),
        append_assoc p "/" (String.◌∷◌ c s),
      )
      (last_part-append "" p (String.◌∷◌ c s) h)
