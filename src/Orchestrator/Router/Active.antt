-- ===== src/Orchestrator/Router/Active.antt =====
-- services/orchestrator/router.py: one scenario is active at a time.
use mathlib.Core.Option
use nemoclaw_lab_cl.Base.{
  String, true, false, none, some, [], ◌∷◌, ◌==◌, if◌then◌else◌, Result, ok, err, ◌≡◌, refl, arith,
  ◌∙◌, ap,
}
use nemoclaw_lab_cl.Base.Dict.{get, put, contains}
use nemoclaw_lab_cl.Models.{Timestamp, Scenario}
use nemoclaw_lab_cl.Packs.{LoadedPack}
use nemoclaw_lab_cl.Simulator.Engine
use nemoclaw_lab_cl.Simulator.Engine.{SimulatorEngine, InjectedFault, flat, with_fault, fault_of}
use nemoclaw_lab_cl.Simulator.Engine.Laws.{inject_known, get_fault-with_fault}
use nemoclaw_lab_cl.Orchestrator.Rotation
use nemoclaw_lab_cl.Orchestrator.Router.{
  Lab, Raised, Wire, called, written, responded, and_then, clear_each, start_scenario, inject,
  response_of, reset, idle,
}
use nemoclaw_lab_cl.Orchestrator.Router.Clearing.{
  IsAnswered, IsKnown, IsCovered, clear_each_lem, all_cleared,
}
use nemoclaw_lab_cl.Orchestrator.Router.Sync.{with_active, scenario_of}

start_known :
    (wire : Wire) (sc : String) (s s' : Scenario) (now : Timestamp) (lab : Lab)
    → IsAnswered wire
    → contains s.target_asset lab.engine.faults ≡ true
    → get sc lab.engine.scenarios ≡ some s'
    → start_scenario wire sc (some s) now lab ≡ (
      ok (response_of s),
      with_active
          (put s.target_asset (some sc) lab.active_scenarios)
          (with_fault s.target_asset (some (fault_of s.target_asset sc now s')) lab.engine)
          lab,
    )
unfolding start_scenario called written responded
start_known wire sc s s' now lab (clear_answered, inject_answered) known there =
    rw
      (
        inject_answered,
        inject_known s.target_asset sc now lab.engine s' known there,
        called,
        written,
        responded,
      )
      refl

and_then_ok {ℓ} :
    {A : Type ℓ} (r : Result Raised Unit × Lab) (k : Lab → Result Raised A × Lab)
    → r.0 ≡ ok tt
    → and_then r k ≡ k r.1
unfolding and_then
and_then_ok (ok u, lab) k h = refl
and_then_ok (err e, lab) k h = cc

inject_eq :
    (wire : Wire) (sc : String) (loaded : LoadedPack) (s s' : Scenario) (now : Timestamp)
    (lab : Lab)
    → IsAnswered wire
    → IsKnown lab.engine lab.active_scenarios
    → get sc loaded.scenarios_by_id ≡ some s
    → get sc lab.engine.scenarios ≡ some s'
    → contains s.target_asset lab.engine.faults ≡ true
    → inject wire sc loaded now lab ≡ (
      ok (response_of s),
      with_active
          (put s.target_asset
            (some sc)
            (clear_each wire lab.active_scenarios lab).1.active_scenarios)
          (with_fault s.target_asset
            (some (fault_of s.target_asset sc now s'))
            (clear_each wire lab.active_scenarios lab).1.engine)
          (clear_each wire lab.active_scenarios lab).1,
    )
unfolding inject
inject_eq wire sc loaded s s' now lab wired known there there' target =
    let lab1 = (clear_each wire lab.active_scenarios lab).1 in
    let (done, c) = clear_each_lem wire lab.active_scenarios lab wired known in
    rw there (
      and_then_ok (clear_each wire lab.active_scenarios lab) (start_scenario wire sc (some s) now)
        done
      ∙ start_known wire sc s s' now lab1 wired (c.same_assets s.target_asset ∙ target)
          (rw c.same_scenarios there'))

-- Started on a pack's scenario, whose target asset and id the simulator knows, `_inject` succeeds,
-- and then that asset carries that scenario's fault in the simulator and no other asset carries any,
-- whatever was active before; the simulator carried faults only where the orchestrator lists a
-- scenario, knew the listed assets, and answered every call.
pub inject_activates :
    (wire : Wire) (sc : String) (loaded : LoadedPack) (s s' : Scenario) (now : Timestamp)
    (lab : Lab)
    → IsAnswered wire
    → IsCovered lab
    → IsKnown lab.engine lab.active_scenarios
    → get sc loaded.scenarios_by_id ≡ some s
    → get sc lab.engine.scenarios ≡ some s'
    → contains s.target_asset lab.engine.faults ≡ true
    → ((inject wire sc loaded now lab).0 ≡ ok (response_of s))
      × ((j : String)
          → Option.map scenario_of (Engine.get_fault j (inject wire sc loaded now lab).1.engine)
            ≡ (if s.target_asset == j then some sc else none))
unfolding fault_of
inject_activates wire sc loaded s s' now lab wired covered known there there' target =
    let e1 = (clear_each wire lab.active_scenarios lab).1.engine in
    let whole = inject_eq wire sc loaded s s' now lab wired known there there' target in
    (
      ap (λ r. r.0) whole,
      λ j.
          ap (λ r. Option.map scenario_of (Engine.get_fault j r.1.engine)) whole
          ∙ ground (
            arith,
            get_fault-with_fault s.target_asset j (some (fault_of s.target_asset sc now s')) e1,
            (all_cleared wire lab wired covered known j).1,
          ),
    )

-- Where the simulator carries faults only where the orchestrator lists a scenario, knows the listed
-- assets and answers every call, `reset` answers that the lab is idle, forgets the last scenario, and
-- leaves no asset with a fault in the simulator or an active scenario.
pub reset_idles :
    (wire : Wire) (lab : Lab)
    → IsAnswered wire
    → IsCovered lab
    → IsKnown lab.engine lab.active_scenarios
    → ((reset wire lab).0 ≡ ok (("status", "idle") ∷ []))
      × ((reset wire lab).1.rotation.last ≡ none)
      × ((j : String)
          → (Engine.is_faulted j (reset wire lab).1.engine ≡ false)
            × (flat (get j (reset wire lab).1.active_scenarios) ≡ none))
unfolding reset idle Rotation.reset Engine.is_faulted
reset_idles wire lab wired covered known =
    let (done, c) = clear_each_lem wire lab.active_scenarios lab wired known in
    rw (and_then_ok (clear_each wire lab.active_scenarios lab) idle done) (
      refl,
      refl,
      λ j.
          let (quiet, healthy) = all_cleared wire lab wired covered known j in
          (rw healthy refl, quiet),
    )
