-- ===== src/Base/Dict.antt =====
-- Python's `dict` with text keys, as an association list in insertion order: writing a key that is
-- there keeps its place, a new key goes to the end.
pub mod Remove
use mathlib.Core.Path.{◌≡◌, refl, sym, subst, subst₂}
use mathlib.Core.Logic.{inl, inr}
use mathlib.Core.Bool.{Bool, true, false}
use mathlib.Core.Option.{Option, none, some}
use mathlib.Core.List.{List, [], ◌∷◌}
use Prim.Native.Nat.{ℕ, ◌+◌}
use Prim.Native.String.{String}
use native.Mathlib.Omega.{arith}
use text.Mathlib.Text.{◌==◌}
use text.Mathlib.TextEquality.{eq_iff}
use text.Mathlib.TextPositions.{eq_refl}
use nemoclaw_lab_cl.Base.Tests.{if◌then◌else◌, is_some, Bool-cases}

abbrev pub Dict {ℓ} : Type ℓ → Type ℓ
Dict V = List (String × V)

module _ {ℓ} {V : Type ℓ} where
  unfoldable pub get : String → Dict V → Option V
  get k [] = none
  get k ((j, v) ∷ d) = if j == k then some v else get k d

  unfoldable pub put : String → V → Dict V → Dict V
  put k v [] = (k, v) ∷ []
  put k v ((j, w) ∷ d) = if j == k then (j, v) ∷ d else (j, w) ∷ put k v d

  unfoldable pub contains : String → Dict V → Bool
  contains k [] = false
  contains k ((j, v) ∷ d) = if j == k then true else contains k d

  unfoldable pub values : Dict V → List V
  values [] = []
  values ((j, v) ∷ d) = v ∷ values d

  unfoldable pub keys : Dict V → List String
  keys [] = []
  keys ((j, v) ∷ d) = j ∷ keys d

  pub get-put :
      (k j : String) (v : V) (d : Dict V) → get j (put k v d) ≡ (if k == j then some v else get j d)
  unfolding get put
  get-put k j v [] = refl
  get-put k j v ((i, w) ∷ d) = ground (arith, eq_iff k j, eq_iff i k, eq_iff i j, get-put k j v d)

  pub get-put_self : (k : String) (v : V) (d : Dict V) → get k (put k v d) ≡ some v
  get-put_self k v d = simp (get-put, eq_refl)

  pub contains-get : (k : String) (d : Dict V) → contains k d ≡ is_some (get k d)
  unfolding get contains
  contains-get k [] = refl
  contains-get k ((j, v) ∷ d) = ground (arith, contains-get k d)

  -- the sum of a weight over the entries
  unfoldable pub total : (V → ℕ) → Dict V → ℕ
  total w [] = 0
  total w ((j, v) ∷ d) = w v + total w d

  abbrev pub weight_at : (V → ℕ) → Option V → ℕ
  weight_at w none = 0
  weight_at w (some v) = w v

  -- A write replaces the weight of the entry that was there.
  pub total-put :
      (w : V → ℕ) (k : String) (v : V) (d : Dict V)
      → total w (put k v d) + weight_at w (get k d) ≡ total w d + w v
  unfolding total put get
  total-put w k v [] = omega arith
  total-put w k v ((j, u) ∷ d) = ground (arith, total-put w k v d)

  pub contains-put :
      (k j : String) (v : V) (d : Dict V)
      → contains j (put k v d) ≡ (if k == j then true else contains j d)
  unfolding contains put
  contains-put k j v [] = refl
  contains-put k j v ((i, w) ∷ d) =
      ground (arith, eq_iff k j, eq_iff i k, eq_iff i j, contains-put k j v d)

module _ {ℓ κ} {V : Type ℓ} (P : String → V → Type κ) where
  -- a predicate of every entry
  abbrev pub Each : Dict V → Type κ
  Each [] = Unit
  Each ((k, v) ∷ d) = P k v × Each d

  pub Each-put : (k : String) (v : V) (d : Dict V) → P k v → Each d → Each (put k v d)
  unfolding put
  Each-put k v [] p h = (p, tt)
  Each-put k v ((j, w) ∷ d) p (q, h) = elim (Bool-cases (j == k)) [
    | inl e ↦ rw e (subst (λ i. P i v) (sym ((eq_iff j k).0 e)) p, h)
    | inr e ↦ rw e (q, Each-put k v d p h)
  ]

  pub Each-get : (k : String) {v : V} (d : Dict V) → Each d → get k d ≡ some v → P k v
  unfolding get
  Each-get k [] h e = cc
  Each-get k {v} ((j, w) ∷ d) (q, h) e = elim (Bool-cases (j == k)) [
    | inl same ↦
        let value : w ≡ v = ground arith in
        let key : j ≡ k = (eq_iff j k).0 same in subst₂ P key value q
    | inr other ↦ Each-get k d h (ground arith)
  ]

module _ {ℓ} {V : Type ℓ} where
  -- no key stands twice
  abbrev pub Distinct : Dict V → Type 0
  Distinct [] = Unit
  Distinct ((k, v) ∷ d) = (contains k d ≡ false) × Distinct d

  pub Distinct-put : (k : String) (v : V) (d : Dict V) → Distinct d → Distinct (put k v d)
  unfolding put contains
  Distinct-put k v [] h = (refl, tt)
  Distinct-put k v ((j, w) ∷ d) (fresh, h) = elim (Bool-cases (j == k)) [
    | inl e ↦ rw e (fresh, h)
    | inr e ↦ rw e (
      ground (arith, contains-put k j v d, eq_iff j k, eq_iff k j, e, fresh),
      Distinct-put k v d h,
    )
  ]
