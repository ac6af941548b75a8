-- ===== src/Orchestrator/Router/Clearing.antt =====
-- services/orchestrator/router.py: what the loop that clears the active scenarios leaves.
use mathlib.Core.Option
use nemoclaw_lab_cl.Base.{
  String, Bool, true, false, Option, none, some, [], ◌∷◌, ◌==◌, ◌||◌, ◌&&◌, if◌then◌else◌, ok, ◌≡◌,
  refl, arith, eq_iff, Option-cases, Bool-cases, is_some, ◌∙◌, inl, inr,
}
use nemoclaw_lab_cl.Base.Dict.{Dict, get, put, contains, get-put, contains-put, Each}
use nemoclaw_lab_cl.Base.Http.{Delivery}
use nemoclaw_lab_cl.Simulator.Engine
use nemoclaw_lab_cl.Simulator.Engine.{SimulatorEngine, InjectedFault, flat, with_fault, fault_of}
use nemoclaw_lab_cl.Simulator.Engine.Laws.{get_fault-with_fault, clear-cases}
use nemoclaw_lab_cl.Orchestrator.Router.{
  Lab, Wire, called, written, clear_asset, and_then, clear_each, idle,
}
use nemoclaw_lab_cl.Orchestrator.Router.Sync.{IsInStep, with_active, scenario_of}

Each-map :
    {V : Type 0} (P Q : String → V → Type 0)
    → ((k : String) (v : V) → P k v → Q k v)
    → (d : Dict V) → Each P d
    → Each Q d
Each-map P Q f [] h = h
Each-map P Q f ((k, v) ∷ d) (p, h) = (f k v p, Each-map P Q f d h)

-- the simulator knows every asset that the orchestrator lists
abbrev pub IsKnown : SimulatorEngine → Dict (Option String) → Type 0
IsKnown e = Each (λ k c. contains k e.faults ≡ true)

-- one of the items has a scenario on `j`
unfoldable pub clears : String → Dict (Option String) → Bool
clears j [] = false
clears j ((k, c) ∷ d) = (k == j && is_some c) || clears j d

clear_known :
    (a : String) (e : SimulatorEngine)
    → contains a e.faults ≡ true
    → Engine.clear a e ≡ (ok tt, with_fault a none e)
unfolding Engine.clear
clear_known a e known = rw known refl

clears-active :
    (j : String) (d : Dict (Option String)) → is_some (flat (get j d)) ≡ true → clears j d ≡ true
unfolding clears get
clears-active j [] h = ground arith
clears-active j ((k, c) ∷ d) h = ground (arith, clears-active j d)

pub record Cleared (items : Dict (Option String)) (lab lab' : Lab) : Type 0 where
  pub same_assets : (j : String) → contains j lab'.engine.faults ≡ contains j lab.engine.faults
  pub same_scenarios : lab'.engine.scenarios ≡ lab.engine.scenarios
  pub idle_after :
      (j : String)
      → flat (get j lab'.active_scenarios)
        ≡ (if clears j items then none else flat (get j lab.active_scenarios))

-- every call of the client is answered
abbrev pub IsAnswered : Wire → Type 0
IsAnswered wire =
    ((asset_id : String) → wire.clearing asset_id ≡ Delivery.answered)
    × (wire.injecting ≡ Delivery.answered)

pub clear_each_lem :
    (wire : Wire) (items : Dict (Option String)) (lab : Lab)
    → IsAnswered wire
    → IsKnown lab.engine items
    → ((clear_each wire items lab).0 ≡ ok tt) × Cleared items lab (clear_each wire items lab).1
unfolding clear_each and_then clear_asset clears called written
clear_each_lem wire [] lab wired h =
    (refl, record { same_assets = λ j. refl; same_scenarios = refl; idle_after = λ j. refl })
clear_each_lem wire ((a, none) ∷ items) lab wired (known, h) =
    let (done, c) = clear_each_lem wire items lab wired h in
    (
      done,
      record {
        same_assets = c.same_assets;
        same_scenarios = c.same_scenarios;
        idle_after = λ j. ground (arith, c.idle_after j);
      },
    )
clear_each_lem wire ((a, some sc) ∷ items) lab (clear_answered, inject_answered) (known, h) =
    let lab1 = with_active (put a none lab.active_scenarios) (with_fault a none lab.engine) lab in
    let same : (j : String) → contains j lab1.engine.faults ≡ contains j lab.engine.faults =
      λ j. ground (arith, contains-put a j none lab.engine.faults, eq_iff a j, known) in
    let (done, c) =
      clear_each_lem wire items lab1 (clear_answered, inject_answered)
        (Each-map (λ k c. contains k lab.engine.faults ≡ true)
          (λ k c. contains k lab1.engine.faults ≡ true) (λ k c p. same k ∙ p) items h) in
    rw (clear_answered a, clear_known a lab.engine known, called, written, and_then)
      (
        done,
        record {
          same_assets = λ j. c.same_assets j ∙ same j;
          same_scenarios = c.same_scenarios;
          idle_after = λ j.
              ground (arith, c.idle_after j, get-put a j none lab.active_scenarios, eq_iff a j);
        },
      )

-- the simulator carries a fault only where the orchestrator lists a scenario
unfoldable pub IsCovered : Lab → Type 0
IsCovered lab =
    (j : String) → flat (get j lab.active_scenarios) ≡ none → Engine.get_fault j lab.engine ≡ none

unmapped : (o : Option InjectedFault) → Option.map scenario_of o ≡ none → o ≡ none
unmapped none e = refl
unmapped (some fault) e = absurd (ground (arith, e))

pub IsInStep-IsCovered : (lab : Lab) → IsInStep lab → IsCovered lab
unfolding IsInStep IsCovered
IsInStep-IsCovered lab step j idle = unmapped (Engine.get_fault j lab.engine) (step j ∙ idle)

-- a remediation clears the simulator and not the list
pub IsCovered-remediated :
    (a : String) (lab : Lab)
    → IsCovered lab
    → IsCovered (record lab { engine = (Engine.clear a lab.engine).1 })
unfolding IsCovered
IsCovered-remediated a lab h = elim (clear-cases a lab.engine) [
  | inl (known, e) ↦
      rw e (λ j idle. ground (arith, get_fault-with_fault a j none lab.engine, h j, idle))
  | inr (unknown, e) ↦ rw e h
]

IsCovered-cleared :
    (a : String) (lab : Lab)
    → IsCovered lab
    → IsCovered (with_active (put a none lab.active_scenarios) (with_fault a none lab.engine) lab)
unfolding IsCovered
IsCovered-cleared a lab h j idle = ground (
  arith,
  get_fault-with_fault a j none lab.engine,
  get-put a j none lab.active_scenarios,
  h j,
  idle,
)

IsCovered-clear_each :
    (wire : Wire) (items : Dict (Option String)) (lab : Lab)
    → IsAnswered wire
    → IsCovered lab
    → IsCovered (clear_each wire items lab).1
unfolding clear_each clear_asset and_then called written
IsCovered-clear_each wire [] lab wired h = h
IsCovered-clear_each wire ((a, none) ∷ items) lab wired h =
    IsCovered-clear_each wire items lab wired h
IsCovered-clear_each wire ((a, some sc) ∷ items) lab (answered, other) h =
    elim (clear-cases a lab.engine) [
      | inl (known, e) ↦
          rw (answered a, e, called, written, and_then)
            (IsCovered-clear_each wire items
              (with_active (put a none lab.active_scenarios) (with_fault a none lab.engine) lab)
              (answered, other) (IsCovered-cleared a lab h))
      | inr (unknown, e) ↦ rw (answered a, e, called, written, and_then) h
    ]

-- after the loop no asset is listed, so none carries a fault
pub all_cleared :
    (wire : Wire) (lab : Lab)
    → IsAnswered wire
    → IsCovered lab
    → IsKnown lab.engine lab.active_scenarios
    → (j : String)
    → (flat (get j (clear_each wire lab.active_scenarios lab).1.active_scenarios) ≡ none)
      × (Engine.get_fault j (clear_each wire lab.active_scenarios lab).1.engine ≡ none)
unfolding IsCovered
all_cleared wire lab wired covered known j =
    let (done, c) = clear_each_lem wire lab.active_scenarios lab wired known in
    let idle : flat (get j (clear_each wire lab.active_scenarios lab).1.active_scenarios) ≡ none =
      ground (
        arith,
        c.idle_after j,
        clears-active j lab.active_scenarios,
        Option-cases (flat (get j lab.active_scenarios)),
        Bool-cases (clears j lab.active_scenarios),
      ) in
    (idle, IsCovered-clear_each wire lab.active_scenarios lab wired covered j idle)
