-- ===== src/Orchestrator/Rotation.antt =====
-- services/orchestrator/rotation.py: the rotation policy. `choice` is `random.choice`.
pub mod Fresh
use nemoclaw_lab_cl.Base.{
  String, Bool, true, false, Option, none, some, List, [], ◌∷◌, ◌==◌, not, if◌then◌else◌, Result,
  ok, err, elem, keep,
}

pub record RotationPolicy : Type 0 where
  pub ids : List String
  pub last : Option String

-- `__init__` raises a `ValueError` on an empty list
unfoldable pub created : List String → Option RotationPolicy
created [] = none
created (i ∷ ids) = some (record { ids = i ∷ ids; last = none })

unfoldable pub is_last : Option String → String → Bool
is_last none sid = false
is_last (some l) sid = sid == l

unfoldable pub candidates : RotationPolicy → List String
unfolding is_last keep
candidates p = keep (λ sid. not (is_last p.last sid)) p.ids

-- "Only one scenario — can't avoid a repeat"
eligible : RotationPolicy → List String → List String
eligible p [] = p.ids
eligible p (sid ∷ sids) = sid ∷ sids

abbrev pub remembered : String → RotationPolicy → RotationPolicy
remembered sid p = record { ids = p.ids; last = some sid }

unfoldable pub next : (List String → String) → RotationPolicy → String × RotationPolicy
unfolding eligible
next choice p = let chosen = choice (eligible p (candidates p)) in (chosen, remembered chosen p)

-- `none` is the `KeyError`
unfoldable pub force : String → RotationPolicy → Option RotationPolicy
force scenario_id p = if elem scenario_id p.ids then some (remembered scenario_id p) else none

unfoldable pub reset : RotationPolicy → RotationPolicy
reset p = record { ids = p.ids; last = none }
