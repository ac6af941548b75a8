-- ===== src/Base/Dict/Remove.antt =====
-- A dict without one of its keys, for comparing two dicts that list the same entries in other
-- orders.
use Prim.Native.Nat.{ℕ, ◌+◌}
use Prim.Native.String.{String}
use mathlib.Core.Path.{◌≡◌, refl}
use mathlib.Core.Logic.{inl, inr}
use mathlib.Core.Bool.{false}
use mathlib.Core.Option.{none, some}
use mathlib.Core.List.{[], ◌∷◌}
use native.Mathlib.Omega.{arith}
use text.Mathlib.Text.{◌==◌}
use text.Mathlib.TextEquality.{eq_iff}
use nemoclaw_lab_cl.Base.Tests.{if◌then◌else◌, Bool-cases}
use nemoclaw_lab_cl.Base.Dict.{Dict, get, contains, contains-get, total, Distinct}

module _ {ℓ} {V : Type ℓ} where
  unfoldable pub remove : String → Dict V → Dict V
  remove k [] = []
  remove k ((j, v) ∷ d) = if j == k then d else (j, v) ∷ remove k d

  get-absent : (k : String) (d : Dict V) → contains k d ≡ false → get k d ≡ none
  get-absent k d h = ground (arith, contains-get k d, h)

  pub get-remove :
      (k j : String) (d : Dict V)
      → Distinct d
      → get j (remove k d) ≡ (if k == j then none else get j d)
  unfolding remove get
  get-remove k j [] h = ground arith
  get-remove k j ((i, v) ∷ d) (fresh, h) =
      ground
        (arith, eq_iff i k, eq_iff k j, eq_iff i j, get-remove k j d h, get-absent i d fresh, fresh)

  contains-remove :
      (k j : String) (d : Dict V) → contains j d ≡ false → contains j (remove k d) ≡ false
  unfolding remove contains
  contains-remove k j [] h = refl
  contains-remove k j ((i, v) ∷ d) h = ground (arith, h, contains-remove k j d)

  pub Distinct-remove : (k : String) (d : Dict V) → Distinct d → Distinct (remove k d)
  unfolding remove
  Distinct-remove k [] h = tt
  Distinct-remove k ((i, v) ∷ d) (fresh, h) = elim (Bool-cases (i == k)) [
    | inl e ↦ rw e h
    | inr e ↦ rw e (contains-remove k i d fresh, Distinct-remove k d h)
  ]

  pub total-remove :
      (w : V → ℕ) (k : String) (v : V) (d : Dict V)
      → get k d ≡ some v
      → total w d ≡ w v + total w (remove k d)
  unfolding remove total get
  total-remove w k v [] h = ground (arith, h)
  total-remove w k v ((i, u) ∷ d) h = ground (arith, h, total-remove w k v d)
