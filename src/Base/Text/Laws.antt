-- ===== src/Base/Text/Laws.antt =====
-- Lengths of texts.
use Prim.Native.Char.{Char}
use Prim.Native.String
use Prim.Native.String.{String}
use package.text.Mathlib.TextLemmas.{nil-append, cons-append}
use Prim.Native.Nat.{ℕ, zero, suc, ◌+◌, ◌≤◌}
use mathlib.Core.Path.{◌≡◌, ap, ◌∙◌}
use mathlib.Core.Bool.{Bool, true, false}
use native.Mathlib.Omega.{arith}
use nemoclaw_lab_cl.Base.Text.{text, chars, slice_to, rstrip_by, rstrip_step}

pub chars-append : (s t : String) → chars (String.◌++◌ s t) ≡ chars s + chars t
unfolding chars
chars-append String.[] t = ap chars (nil-append t) ∙ omega arith
chars-append (String.◌∷◌ c s) t = ap chars (cons-append c s t) ∙ omega (arith, chars-append s t)

chars-rstrip_step :
    (c : Char) (s : String) (drop : Bool) → chars (rstrip_step c s drop) ≤ suc (chars s)
unfolding chars rstrip_step
chars-rstrip_step c String.[] true = omega arith
chars-rstrip_step c String.[] false = omega arith
chars-rstrip_step c (String.◌∷◌ d s) drop = omega arith

pub chars-rstrip_by : (drops : Char → Bool) (s : String) → chars (rstrip_by drops s) ≤ chars s
unfolding chars rstrip_by
chars-rstrip_by drops String.[] = omega arith
chars-rstrip_by drops (String.◌∷◌ c s) =
    omega (arith, chars-rstrip_step c (rstrip_by drops s) (drops c), chars-rstrip_by drops s)

pub chars-slice_to : (n : ℕ) (s : String) → chars (slice_to n s) ≤ n
unfolding chars slice_to
chars-slice_to zero s = omega arith
chars-slice_to (suc n) String.[] = omega arith
chars-slice_to (suc n) (String.◌∷◌ c s) = omega (arith, chars-slice_to n s)
