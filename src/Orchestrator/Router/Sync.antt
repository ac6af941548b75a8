-- ===== src/Orchestrator/Router/Sync.antt =====
-- services/orchestrator/router.py: the active scenarios and the simulator's faults agree.
use mathlib.Core.Option
use nemoclaw_lab_cl.Base.{
  String, Option, none, some, List, [], ◌∷◌, Result, ok, err, ◌≡◌, ◌≢◌, refl, arith, inl, inr, All,
}
use nemoclaw_lab_cl.Base.Dict.{Dict, get, put, get-put}
use nemoclaw_lab_cl.Base.Http.{HttpError, Delivery}
use nemoclaw_lab_cl.Models.{Timestamp, Scenario, PackAsset}
use nemoclaw_lab_cl.Packs.{LoadedPack}
use nemoclaw_lab_cl.Simulator.Engine
use nemoclaw_lab_cl.Simulator.Engine.{SimulatorEngine, InjectedFault, flat, with_fault, fault_of}
use nemoclaw_lab_cl.Simulator.Engine.Laws.{
  get_fault-with_fault, inject-cases, clear-cases, get_fault-created,
}
use nemoclaw_lab_cl.Orchestrator.Rotation
use nemoclaw_lab_cl.Orchestrator.Rotation.{RotationPolicy}
use nemoclaw_lab_cl.Orchestrator.Router.{
  Lab, Raised, Wire, called, written, responded, clear_asset, and_then, clear_each, start_scenario,
  inject, run_next, forced, run_specific, idle, reset, with_rotation, all_idle, lab_with, started,
  ids_of,
}

abbrev pub scenario_of : InjectedFault → String
scenario_of fault = fault.scenario_id

abbrev pub with_active : Dict (Option String) → SimulatorEngine → Lab → Lab
with_active active e lab = record { rotation = lab.rotation; active_scenarios = active; engine = e }

-- every asset carries, in the simulator, a fault of the scenario that is active on it
unfoldable pub IsInStep : Lab → Type 0
IsInStep lab =
    (j : String)
    → Option.map scenario_of (Engine.get_fault j lab.engine) ≡ flat (get j lab.active_scenarios)

IsInStep-with_active :
    (a : String) (fault : Option InjectedFault) (lab : Lab)
    → IsInStep lab
    → IsInStep (
        with_active
          (put a (Option.map scenario_of fault) lab.active_scenarios)
          (with_fault a fault lab.engine)
          lab)
unfolding IsInStep
IsInStep-with_active a fault lab h j = ground (
  arith,
  get_fault-with_fault a j fault lab.engine,
  get-put a j (Option.map scenario_of fault) lab.active_scenarios,
  h j,
)

-- no call of the client is handled with its answer lost
abbrev pub IsPrompt : Wire → Type 0
IsPrompt wire =
    ((asset_id : String) → wire.clearing asset_id ≢ Delivery.unanswered)
    × (wire.injecting ≢ Delivery.unanswered)

IsInStep-cleared :
    (d : Delivery) (a : String) (lab : Lab)
    → d ≢ Delivery.unanswered
    → IsInStep lab
    → IsInStep (written a none (called d (Engine.clear a lab.engine) lab)).1
unfolding called written
IsInStep-cleared Delivery.answered a lab prompt h = elim (clear-cases a lab.engine) [
  | inl (known, e) ↦ rw (e, called, written) (IsInStep-with_active a none lab h)
  | inr (unknown, e) ↦ rw (e, called, written) h
]
IsInStep-cleared Delivery.rejected a lab prompt h = h
IsInStep-cleared Delivery.lost a lab prompt h = h
IsInStep-cleared Delivery.unanswered a lab prompt h = absurd (prompt refl)

IsInStep-clear_asset :
    (wire : Wire) (a : String) (current : Option String) (lab : Lab)
    → IsPrompt wire
    → IsInStep lab
    → IsInStep (clear_asset wire a current lab).1
unfolding clear_asset
IsInStep-clear_asset wire a none lab prompt h = h
IsInStep-clear_asset wire a (some sc) lab (prompt, other) h =
    IsInStep-cleared (wire.clearing a) a lab (prompt a) h

IsInStep-and_then {ℓ} :
    {A : Type ℓ} (r : Result Raised Unit × Lab) (k : Lab → Result Raised A × Lab)
    → ((lab : Lab) → IsInStep lab → IsInStep (k lab).1)
    → IsInStep r.1
    → IsInStep (and_then r k).1
unfolding and_then
IsInStep-and_then (ok u, lab) k keeps h = keeps lab h
IsInStep-and_then (err r, lab) k keeps h = h

IsInStep-clear_each :
    (wire : Wire) (items : Dict (Option String)) (lab : Lab)
    → IsPrompt wire
    → IsInStep lab
    → IsInStep (clear_each wire items lab).1
unfolding clear_each
IsInStep-clear_each wire [] lab prompt h = h
IsInStep-clear_each wire ((a, current) ∷ items) lab prompt h =
    IsInStep-and_then (clear_asset wire a current lab) (clear_each wire items)
      (λ l hl. IsInStep-clear_each wire items l prompt hl)
      (IsInStep-clear_asset wire a current lab prompt h)

IsInStep-injected :
    (d : Delivery) (sc : String) (s : Scenario) (now : Timestamp) (lab : Lab)
    → d ≢ Delivery.unanswered
    → IsInStep lab
    → IsInStep
        (responded s (
          written s.target_asset
            (some sc)
            (called d (Engine.inject s.target_asset sc now lab.engine) lab))).1
unfolding called written responded fault_of
IsInStep-injected Delivery.answered sc s now lab prompt h =
    elim (inject-cases s.target_asset sc now lab.engine) [
      | inl (found, known, there, e) ↦
          rw (e, called, written, responded)
            (IsInStep-with_active s.target_asset (some (fault_of s.target_asset sc now found)) lab
              h)
      | inr (u, e) ↦ rw (e, called, written, responded) h
    ]
IsInStep-injected Delivery.rejected sc s now lab prompt h = h
IsInStep-injected Delivery.lost sc s now lab prompt h = h
IsInStep-injected Delivery.unanswered sc s now lab prompt h = absurd (prompt refl)

IsInStep-start_scenario :
    (wire : Wire) (sc : String) (o : Option Scenario) (now : Timestamp) (lab : Lab)
    → IsPrompt wire
    → IsInStep lab
    → IsInStep (start_scenario wire sc o now lab).1
unfolding start_scenario
IsInStep-start_scenario wire sc none now lab prompt h = h
IsInStep-start_scenario wire sc (some s) now lab (other, prompt) h =
    IsInStep-injected wire.injecting sc s now lab prompt h

IsInStep-inject :
    (wire : Wire) (sc : String) (loaded : LoadedPack) (now : Timestamp) (lab : Lab)
    → IsPrompt wire
    → IsInStep lab
    → IsInStep (inject wire sc loaded now lab).1
unfolding inject
IsInStep-inject wire sc loaded now lab prompt h =
    IsInStep-and_then (clear_each wire lab.active_scenarios lab)
      (start_scenario wire sc (get sc loaded.scenarios_by_id) now)
      (λ l hl. IsInStep-start_scenario wire sc (get sc loaded.scenarios_by_id) now l prompt hl)
      (IsInStep-clear_each wire lab.active_scenarios lab prompt h)

IsInStep-forced :
    (wire : Wire) (unknown : HttpError) (sc : String) (loaded : LoadedPack) (now : Timestamp)
    (o : Option RotationPolicy) (lab : Lab)
    → IsPrompt wire
    → IsInStep lab
    → IsInStep (forced wire unknown sc loaded now o lab).1
unfolding forced IsInStep
IsInStep-forced wire unknown sc loaded now none lab prompt h = h
IsInStep-forced wire unknown sc loaded now (some p) lab prompt h =
    IsInStep-inject wire sc loaded now (with_rotation p lab) prompt h

-- a request that a presenter makes, with what the client's calls meet
pub data Route : Type 0 where
  next_scenario : Wire → Timestamp → Route
  scenario : Wire → String → Timestamp → Route
  stop : Wire → Route

abbrev pub wire_of : Route → Wire
wire_of (next_scenario wire now) = wire
wire_of (scenario wire sc now) = wire
wire_of (stop wire) = wire

module _ (choice : List String → String) (unknown_scenario : String → List String → String)
    (loaded : LoadedPack) where
  unfoldable pub serve : Route → Lab → Lab
  serve (next_scenario wire now) lab = (run_next wire choice loaded now lab).1
  serve (scenario wire sc now) lab = (run_specific wire unknown_scenario sc loaded now lab).1
  serve (stop wire) lab = (reset wire lab).1

  unfoldable pub serve_all : List Route → Lab → Lab
  serve_all [] lab = lab
  serve_all (r ∷ rs) lab = serve_all rs (serve r lab)

  IsInStep-serve :
      (r : Route) (lab : Lab) → IsPrompt (wire_of r) → IsInStep lab → IsInStep (serve r lab)
  unfolding serve run_next run_specific reset idle IsInStep
  IsInStep-serve (next_scenario wire now) lab prompt h =
      let (sc, p) = Rotation.next choice lab.rotation in
      IsInStep-inject wire sc loaded now (with_rotation p lab) prompt h
  IsInStep-serve (scenario wire sc now) lab prompt h =
      IsInStep-forced wire
        (record { status_code = 404; detail = unknown_scenario sc lab.rotation.ids }) sc loaded now
        (Rotation.force sc lab.rotation) lab prompt h
  IsInStep-serve (stop wire) lab prompt h =
      IsInStep-and_then (clear_each wire lab.active_scenarios lab) idle (λ l hl. hl)
        (IsInStep-clear_each wire lab.active_scenarios lab prompt h)

  pub IsInStep-serve_all :
      (rs : List Route) (lab : Lab)
      → All (λ r. IsPrompt (wire_of r)) rs
      → IsInStep lab
      → IsInStep (serve_all rs lab)
  unfolding serve_all
  IsInStep-serve_all [] lab prompt h = h
  IsInStep-serve_all (r ∷ rs) lab (prompt, others) h =
      IsInStep-serve_all rs (serve r lab) others (IsInStep-serve r lab prompt h)

all_idle-none :
    (j : String) (d : Dict (Option String)) (assets : List PackAsset)
    → flat (get j d) ≡ none
    → flat (get j (all_idle d assets)) ≡ none
unfolding all_idle
all_idle-none j d [] h = h
all_idle-none j d (a ∷ rest) h =
    all_idle-none j (put a.id none d) rest (ground (arith, get-put a.id j none d))

IsInStep-lab_with :
    (loaded : LoadedPack) (o : Option RotationPolicy) (lab : Lab)
    → lab_with loaded o ≡ some lab
    → IsInStep lab
unfolding lab_with IsInStep get
IsInStep-lab_with loaded none lab e j = ground arith
IsInStep-lab_with loaded (some p) lab e j =
    let idle : flat (get j (all_idle [] loaded.pack.assets)) ≡ none =
      all_idle-none j [] loaded.pack.assets refl in
    ground (arith, e, idle, get_fault-created j loaded)

-- Whatever routes are called on a started orchestrator, and whether they succeed or raise, every
-- asset carries in the simulator a fault of exactly the scenario that the orchestrator lists as
-- active on it, and none where it lists none; no call that the simulator handled lost its answer.
pub routes-IsInStep :
    (choice : List String → String) (unknown_scenario : String → List String → String)
    (loaded : LoadedPack) (rs : List Route) (lab : Lab)
    → started loaded ≡ some lab
    → All (λ r. IsPrompt (wire_of r)) rs
    → IsInStep (serve_all choice unknown_scenario loaded rs lab)
unfolding started
routes-IsInStep choice unknown_scenario loaded rs lab e prompt =
    IsInStep-serve_all choice unknown_scenario loaded rs lab prompt
      (IsInStep-lab_with loaded (Rotation.created (ids_of loaded.scenarios)) lab e)
