-- ===== src/Simulator/Engine/Laws.antt =====
-- services/simulator/engine.py: what `inject` and `clear` do to every asset.
use nemoclaw_lab_cl.Base.{
  String, true, false, Option, none, some, ◌==◌, if◌then◌else◌, ◌≡◌, refl, arith, ok, err,
  Option-cases, inl, inr, Bool-cases, ◌⊎◌, List, [], ◌∷◌,
}
use nemoclaw_lab_cl.Base.Dict.{Dict, get, put, contains, get-put}
use nemoclaw_lab_cl.Models.{Timestamp, Scenario, PackAsset}
use nemoclaw_lab_cl.Packs.{LoadedPack}
use nemoclaw_lab_cl.Simulator.Engine.{
  SimulatorEngine, InjectedFault, Unknown, asset, scenario, fault_of, with_fault, inject_found,
  inject, clear, get_fault, flat, no_faults, created,
}

pub get_fault-with_fault :
    (a j : String) (fault : Option InjectedFault) (e : SimulatorEngine)
    → get_fault j (with_fault a fault e) ≡ (if a == j then fault else get_fault j e)
unfolding get_fault
get_fault-with_fault a j fault e = ground (arith, get-put a j fault e.faults)

module _ (a sc : String) (now : Timestamp) (e : SimulatorEngine) where
  pub inject_known :
      (s : Scenario)
      → contains a e.faults ≡ true
      → get sc e.scenarios ≡ some s
      → inject a sc now e ≡ (ok (fault_of a sc now s), with_fault a (some (fault_of a sc now s)) e)
  unfolding inject inject_found
  inject_known s known found = rw (known, found, inject_found) refl

  -- `inject` sets the fault of a known asset, or raises and changes nothing.
  pub inject-cases :
      ((s : Scenario) × (contains a e.faults ≡ true)
        × (get sc e.scenarios ≡ some s)
        × (inject a sc now e
            ≡ (ok (fault_of a sc now s), with_fault a (some (fault_of a sc now s)) e)))
      ⊎ ((u : Unknown) × (inject a sc now e ≡ (err u, e)))
  unfolding inject inject_found
  inject-cases = elim (Bool-cases (contains a e.faults)) [
    | inr unknown ↦ inr (asset a, rw unknown refl)
    | inl known ↦ elim (Option-cases (get sc e.scenarios)) [
      | inl missing ↦ inr (scenario sc, rw (known, missing, inject_found) refl)
      | inr (s, found) ↦ inl (s, known, found, inject_known s known found)
    ]
  ]

module _ (a : String) (e : SimulatorEngine) where
  pub clear-cases :
      ((contains a e.faults ≡ true) × (clear a e ≡ (ok tt, with_fault a none e)))
      ⊎ ((contains a e.faults ≡ false) × (clear a e ≡ (err (asset a), e)))
  unfolding clear
  clear-cases = elim (Bool-cases (contains a e.faults)) [
    | inl known ↦ inl (known, rw known refl)
    | inr unknown ↦ inr (unknown, rw unknown refl)
  ]

no_faults-none :
    (j : String) (d : Dict (Option InjectedFault)) (assets : List PackAsset)
    → flat (get j d) ≡ none
    → flat (get j (no_faults d assets)) ≡ none
unfolding no_faults
no_faults-none j d [] h = h
no_faults-none j d (a ∷ rest) h =
    no_faults-none j (put a.id none d) rest (ground (arith, get-put a.id j none d))

-- a new simulator is healthy
pub get_fault-created : (j : String) (loaded : LoadedPack) → get_fault j (created loaded) ≡ none
unfolding get_fault created get
get_fault-created j loaded = no_faults-none j [] loaded.pack.assets refl
