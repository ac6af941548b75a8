-- ===== src/Tests/Orchestrator.antt =====
-- services/orchestrator: a scenario that is run and reset.
use mathlib.Core.Option
use nemoclaw_lab_cl.Base.{
  String, Bool, true, false, Option, none, some, List, [], ◌∷◌, ◌≡◌, ◌≢◌, refl, Result, ok, err,
  arith, ◌==◌, if◌then◌else◌, elem, eq_iff, ◌||◌, All,
}
use nemoclaw_lab_cl.Base.Dict.{get, contains}
use nemoclaw_lab_cl.Simulator.Engine
use nemoclaw_lab_cl.Simulator.Engine.{flat}
use nemoclaw_lab_cl.Orchestrator.Rotation.{RotationPolicy, next}
use nemoclaw_lab_cl.Orchestrator.Rotation.Fresh.{next_fresh}
use nemoclaw_lab_cl.Orchestrator.Highlight.{shown_lines, extract_highlight, window}
use nemoclaw_lab_cl.Orchestrator.Highlight.Evidence.{any_match, highlight_shows_match}
use nemoclaw_lab_cl.Base.Text.{join}
use nemoclaw_lab_cl.Base.Http.{Delivery}
use nemoclaw_lab_cl.Gateway.Presenter.{System, presenter_reset}
use nemoclaw_lab_cl.Gateway.Presenter.Cleared.{Clears, presenter_reset-Clears}
use nemoclaw_lab_cl.Orchestrator.Router.{Lab, Wire, response_of, started, inject, reset}
use nemoclaw_lab_cl.Orchestrator.Router.Sync.{
  IsInStep, IsPrompt, wire_of, scenario_of, next_scenario, scenario, stop, serve_all,
  routes-IsInStep, Route,
}
use nemoclaw_lab_cl.Orchestrator.Router.Clearing.{
  IsKnown, IsAnswered, IsCovered, IsInStep-IsCovered, IsCovered-remediated,
}
use nemoclaw_lab_cl.Orchestrator.Router.Active.{inject_activates, reset_idles}
use nemoclaw_lab_cl.Tests.Data.{loaded, scenario_on, mcp, gateway}

-- a `random.choice` that takes the first element
abbrev first : List String → String
first [] = ""
first (x ∷ xs) = x

first_picks : (x : String) (xs : List String) → elem (first (x ∷ xs)) (x ∷ xs) ≡ true
unfolding elem
first_picks x xs = ground (arith, eq_iff x x)

abbrev after_gpu : RotationPolicy
after_gpu = record { ids = "gpu" ∷ "power" ∷ []; last = some "gpu" }

has_power : elem "power" after_gpu.ids ≡ true
unfolding elem
has_power = refl

power_is_other : some "power" ≢ after_gpu.last
power_is_other e = cc

next_fresh_example :
    (elem (next first after_gpu).0 after_gpu.ids ≡ true)
    × (some (next first after_gpu).0 ≢ after_gpu.last)
    × ((next first after_gpu).1.last ≡ some (next first after_gpu).0)
next_fresh_example = next_fresh first after_gpu first_picks "power" has_power power_is_other

abbrev lab : Lab
lab = record {
  rotation = record { ids = "gpu" ∷ "power" ∷ []; last = none };
  active_scenarios = ("node-1", none) ∷ ("node-2", none) ∷ [];
  engine = Engine.created loaded;
}

lab_started : started loaded ≡ some lab
unfolding started nemoclaw_lab_cl.Orchestrator.Rotation.created nemoclaw_lab_cl.Base.Dict.put
lab_started = refl

abbrev wired : Wire
wired = record { clearing = λ asset_id. Delivery.answered; injecting = Delivery.answered }

wired_answered : IsAnswered wired
wired_answered = (λ asset_id. refl, refl)

-- the second inject never arrives
abbrev broken : Wire
broken = record { clearing = λ asset_id. Delivery.answered; injecting = Delivery.lost }

abbrev evening : List Route
evening =
    next_scenario wired 1 ∷ scenario broken "power" 2 ∷ scenario wired "unknown" 3 ∷ stop wired ∷ []

answered_apart : Delivery.answered ≢ Delivery.unanswered
answered_apart e = cc

lost_apart : Delivery.lost ≢ Delivery.unanswered
lost_apart e = cc

wired_prompt : IsPrompt wired
wired_prompt = (λ asset_id. answered_apart, answered_apart)

evening_prompt : All (λ r. IsPrompt (wire_of r)) evening
evening_prompt =
    (wired_prompt, ((λ asset_id. answered_apart, lost_apart), (wired_prompt, (wired_prompt, tt))))

abbrev unknown_scenario : String → List String → String
unknown_scenario id ids = id

routes-IsInStep_example : IsInStep (serve_all first unknown_scenario loaded evening lab)
routes-IsInStep_example =
    routes-IsInStep first unknown_scenario loaded evening lab lab_started evening_prompt

-- the lab with the first scenario active
abbrev busy : Lab
busy = serve_all first unknown_scenario loaded (scenario wired "gpu" 1 ∷ []) lab

busy-IsInStep : IsInStep busy
busy-IsInStep =
    routes-IsInStep first unknown_scenario loaded (scenario wired "gpu" 1 ∷ []) lab lab_started
      (wired_prompt, tt)

busy-IsCovered : IsCovered busy
busy-IsCovered = IsInStep-IsCovered busy busy-IsInStep

busy_IsKnown : IsKnown busy.engine busy.active_scenarios
unfolding serve_all nemoclaw_lab_cl.Orchestrator.Router.Sync.serve
    nemoclaw_lab_cl.Orchestrator.Router.run_specific nemoclaw_lab_cl.Orchestrator.Rotation.force
    elem inject nemoclaw_lab_cl.Orchestrator.Router.clear_each
    nemoclaw_lab_cl.Orchestrator.Router.clear_asset nemoclaw_lab_cl.Orchestrator.Router.called
    nemoclaw_lab_cl.Orchestrator.Router.written Engine.inject get contains Engine.created
    nemoclaw_lab_cl.Base.Dict.put
busy_IsKnown = (refl, (refl, tt))

power_loaded : get "power" loaded.scenarios_by_id ≡ some (scenario_on "power" "node-2")
unfolding get
power_loaded = refl

power_known : get "power" busy.engine.scenarios ≡ some (scenario_on "power" "node-2")
unfolding serve_all nemoclaw_lab_cl.Orchestrator.Router.Sync.serve
    nemoclaw_lab_cl.Orchestrator.Router.run_specific nemoclaw_lab_cl.Orchestrator.Rotation.force
    elem inject nemoclaw_lab_cl.Orchestrator.Router.clear_each
    nemoclaw_lab_cl.Orchestrator.Router.clear_asset nemoclaw_lab_cl.Orchestrator.Router.called
    nemoclaw_lab_cl.Orchestrator.Router.written Engine.inject get contains Engine.created
    nemoclaw_lab_cl.Base.Dict.put
power_known = refl

node_2_known : contains "node-2" busy.engine.faults ≡ true
unfolding serve_all nemoclaw_lab_cl.Orchestrator.Router.Sync.serve
    nemoclaw_lab_cl.Orchestrator.Router.run_specific nemoclaw_lab_cl.Orchestrator.Rotation.force
    elem inject nemoclaw_lab_cl.Orchestrator.Router.clear_each
    nemoclaw_lab_cl.Orchestrator.Router.clear_asset nemoclaw_lab_cl.Orchestrator.Router.called
    nemoclaw_lab_cl.Orchestrator.Router.written Engine.inject get contains Engine.created
    nemoclaw_lab_cl.Base.Dict.put
node_2_known = refl

inject_activates_example :
    ((inject wired "power" loaded 2 busy).0 ≡ ok (response_of (scenario_on "power" "node-2")))
    × ((j : String)
        → Option.map scenario_of (Engine.get_fault j (inject wired "power" loaded 2 busy).1.engine)
          ≡ (if "node-2" == j then some "power" else none))
inject_activates_example =
    inject_activates wired "power" loaded (scenario_on "power" "node-2")
      (scenario_on "power" "node-2") 2 busy wired_answered busy-IsCovered busy_IsKnown power_loaded
      power_known node_2_known

reset_idles_example :
    ((reset wired busy).0 ≡ ok (("status", "idle") ∷ []))
    × ((reset wired busy).1.rotation.last ≡ none)
    × ((j : String)
        → (Engine.is_faulted j (reset wired busy).1.engine ≡ false)
          × (flat (get j (reset wired busy).1.active_scenarios) ≡ none))
reset_idles_example = reset_idles wired busy wired_answered busy-IsCovered busy_IsKnown

-- the lab after MCP Tools has cleared the fault behind the orchestrator's back
abbrev remediated : Lab
remediated = record busy { engine = (Engine.clear "node-1" busy.engine).1 }

remediated_IsKnown : IsKnown remediated.engine remediated.active_scenarios
unfolding serve_all nemoclaw_lab_cl.Orchestrator.Router.Sync.serve
    nemoclaw_lab_cl.Orchestrator.Router.run_specific nemoclaw_lab_cl.Orchestrator.Rotation.force
    elem inject nemoclaw_lab_cl.Orchestrator.Router.clear_each
    nemoclaw_lab_cl.Orchestrator.Router.clear_asset nemoclaw_lab_cl.Orchestrator.Router.called
    nemoclaw_lab_cl.Orchestrator.Router.written Engine.inject Engine.clear get contains
    Engine.created nemoclaw_lab_cl.Base.Dict.put
remediated_IsKnown = (refl, (refl, tt))

abbrev whole : System
whole = record { lab = remediated; mcp = mcp; store = gateway }

presenter_reset-Clears_example :
    Clears (presenter_reset wired Delivery.answered Delivery.answered whole)
unfolding nemoclaw_lab_cl.Base.Http.handled
presenter_reset-Clears_example =
    presenter_reset-Clears wired Delivery.answered whole wired_answered
      (IsCovered-remediated "node-1" busy busy-IsCovered) remediated_IsKnown refl

abbrev log : String
log = "# bundle\nINFO boot\nINFO idle\nINFO poll\nNVRM: Xid 79\nINFO stop\n"

log_matches : any_match ("Xid 79" ∷ []) (shown_lines log) ≡ true
unfolding any_match shown_lines nemoclaw_lab_cl.Base.keep nemoclaw_lab_cl.Base.Text.splitlines
    nemoclaw_lab_cl.Base.Text.strip nemoclaw_lab_cl.Base.Text.startswith
    nemoclaw_lab_cl.Base.Text.lstrip nemoclaw_lab_cl.Orchestrator.Highlight.matches
    nemoclaw_lab_cl.Base.Text.includes
log_matches = refl

highlight_shows_match_example :
    (extract_highlight log ("Xid 79" ∷ [])
      ≡ some (join "\n" (window ("Xid 79" ∷ []) (shown_lines log))))
    × (any_match ("Xid 79" ∷ []) (window ("Xid 79" ∷ []) (shown_lines log)) ≡ true)
highlight_shows_match_example = highlight_shows_match log ("Xid 79" ∷ []) log_matches
