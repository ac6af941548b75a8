-- ===== src/Tests/Gateway.antt =====
-- services/gateway: a reported fault, its approval and its resolution.
use mathlib.Core.Option
use nemoclaw_lab_cl.Base.{
  ℕ, ◌+◌, ◌*◌, ◌<◌, ◌≤◌, String, Bool, true, false, Option, none, some, List, [], ◌∷◌, ◌≡◌, ◌≢◌,
  refl, Result, ok, err, arith, ◌==◌, if◌then◌else◌, length, eq_iff, ap, sym, ◌∙◌, subst, inl, inr,
  Bool-cases,
}
use nemoclaw_lab_cl.Base.Dict.{get, contains}
use nemoclaw_lab_cl.Base.Text.{chars}
use nemoclaw_lab_cl.Models.{
  Timestamp, FaultEvent, Notification, FaultEventStatus, detected, resolved, ApprovalDecision,
  approved,
}
use nemoclaw_lab_cl.McpTools.Server.{started}
use nemoclaw_lab_cl.Gateway.Store
use nemoclaw_lab_cl.Gateway.Store.{GatewayStore, with_status, healed, reset}
use nemoclaw_lab_cl.Gateway.Store.Invariant.{IsConsistent, is_linked}
use nemoclaw_lab_cl.Gateway.Executor.{Node, Reply, returned, run}
use nemoclaw_lab_cl.Gateway.Executor.Outcome.{final_status, returned_asset, run_fault, run_asset}
use nemoclaw_lab_cl.Gateway.Executor.Feed.{Extends, run_feed}
use nemoclaw_lab_cl.Gateway.Runbook.{kb_step_detail}
use nemoclaw_lab_cl.Gateway.Runbook.Bounds.{kb_step_detail_bounds}
use nemoclaw_lab_cl.Gateway.Faults.{CreateFaultRequest, Draws, create_fault}
use nemoclaw_lab_cl.Gateway.Faults.Keeps.{
  Route, create, decision, execution, status, read, reset as reset_all, serve_all,
  serve_all-IsConsistent,
}
use nemoclaw_lab_cl.Gateway.Faults.Lifecycle.{linked, create_fault_effect}
use nemoclaw_lab_cl.Base.Http.{Delivery}
use nemoclaw_lab_cl.Gateway.Decision.{Environment, StepJson, step_ids_of, post_decision}
use nemoclaw_lab_cl.Gateway.Decision.Approved.{
  plan, reply_to, final_store, approved_executes, approved_resolves, unread_scenario-resolves,
}
use nemoclaw_lab_cl.Gateway.Decision.Safety.{IsBacked, denied_effect, started-IsBacked}
use nemoclaw_lab_cl.Tests.Data.{loaded, fault, node_1, gateway}

abbrev draw : ℕ → String × Timestamp
draw n = ("a", n)

-- the JSON of a list of one step, as that step
abbrev dumps : List String → String
dumps [] = ""
dumps (s ∷ rest) = s

abbrev loads : String → Option (List String)
loads s = if s == "" then some [] else some (s ∷ [])

abbrev cleared : String → Bool
cleared asset_id = asset_id == "node-1"

abbrev sent : List StepJson
sent = record { id = "reseat"; label = some "Reseat the card" } ∷ []

abbrev env : Environment
env = record {
  scenario = some sent;
  registering = Delivery.answered;
  minting = Delivery.answered;
  fresh_token = "t1";
  now = 7;
  exc = "";
}

fault_found : Store.get_fault "f1" gateway ≡ some fault
unfolding Store.get_fault get
fault_found = refl

asset_found : Store.get_asset "node-1" gateway ≡ some node_1
unfolding Store.get_asset get
asset_found = refl

get_single {ℓ} :
    {V : Type ℓ} (k j : String) (v w : V) → get j ((k, v) ∷ []) ≡ some w → (k ≡ j) × (v ≡ w)
unfolding get
get_single k j v w h = elim (Bool-cases (k == j)) [
  | inl same ↦ ((eq_iff k j).0 same, ground (arith, h, same))
  | inr other ↦ absurd (ground (arith, h, other))
]

node_1_linked : is_linked gateway.fault_events node_1 ≡ true
unfolding contains
node_1_linked = refl

no_notification :
    (k : String) (n : Notification)
    → get k gateway.notifications ≡ some n
    → contains n.fault_event_id gateway.fault_events ≡ true
unfolding get
no_notification k n h = cc

consistent : IsConsistent gateway
consistent = record {
  fault_key =
      λ k e h. let (key, value) = get_single "f1" k fault e h in ap (λ x. x.id) (sym value) ∙ key;
  asset_key = (refl, tt);
  asset_link = λ k a h.
      subst (λ x. is_linked gateway.fault_events x ≡ true) (get_single "node-1" k node_1 a h).1
        node_1_linked;
  notified = no_notification;
}

not_empty : (s : String) → (s == "") ≡ false → s ≢ ""
not_empty s h e = ground (arith, h, eq_iff s "", e)

sent_round_trip : loads (dumps ("reseat" ∷ [])) ≡ some ("reseat" ∷ [])
sent_round_trip = refl

denied_effect_example :
    ((post_decision "f1" ApprovalDecision.denied env gateway started).mcp ≡ started)
    × ((post_decision "f1" ApprovalDecision.denied env gateway started).started ≡ none)
    × (Store.get_fault "f1" (post_decision "f1" ApprovalDecision.denied env gateway started).store
        ≡ (if "f1" == "f1"
            then Option.map (with_status FaultEventStatus.denied) (Store.get_fault "f1" gateway)
            else Store.get_fault "f1" gateway))
denied_effect_example = denied_effect "f1" "f1" env gateway started

has_started : (post_decision "f1" approved env gateway started).started ≡ some (plan env "f1" fault)
unfolding post_decision Store.get_fault get
has_started = refl

started-IsBacked_example :
    (approved ≡ approved)
    × (evt : FaultEvent) × (Store.get_fault "f1" gateway ≡ some evt)
    × (plan env "f1" fault ≡ plan env "f1" evt)
    × IsBacked env "f1" (post_decision "f1" approved env gateway started).mcp
started-IsBacked_example =
    started-IsBacked "f1" approved env gateway started (plan env "f1" fault) has_started

approved_executes_example :
    ((post_decision "f1" approved env gateway started).started ≡ some (plan env "f1" fault))
    × ((plan env "f1" fault).step_ids ≡ "reseat" ∷ [])
    × (reply_to dumps loads env "f1" gateway started cleared ≡ returned (some "resolved") none)
approved_executes_example =
    approved_executes dumps loads env sent "f1" fault gateway started cleared sent_round_trip
      fault_found refl refl refl (not_empty "t1" refl) refl

approved_resolves_example :
    (Store.get_fault "f1" (final_store dumps loads draw 0 env "f1" fault gateway started cleared)
      ≡ some (with_status resolved fault))
    × (Store.get_asset "node-1"
          (final_store dumps loads draw 0 env "f1" fault gateway started cleared)
        ≡ some (healed node_1))
approved_resolves_example =
    approved_resolves dumps loads draw 0 env sent "f1" fault node_1 gateway started cleared
      sent_round_trip consistent fault_found asset_found (not_empty "node-1" refl) refl refl refl
      (not_empty "t1" refl) refl

abbrev unread : Environment
unread = record env { scenario = none }

unread_scenario-resolves_example :
    ((post_decision "f1" approved unread gateway started).started ≡ some (plan unread "f1" fault))
    × ((plan unread "f1" fault).step_ids ≡ [])
    × (reply_to dumps loads unread "f1" gateway started cleared ≡ returned (some "resolved") none)
    × (Store.get_fault "f1"
          (final_store dumps loads draw 0 unread "f1" fault gateway started cleared)
        ≡ some (with_status resolved fault))
unread_scenario-resolves_example =
    unread_scenario-resolves dumps loads draw 0 unread "f1" fault node_1 gateway started cleared
      refl consistent fault_found asset_found (not_empty "node-1" refl) refl refl refl
      (not_empty "t1" refl) refl

abbrev confirm : String → String → List String → Reply
confirm f token steps = returned (some "resolved") none

abbrev node : Node
node = record { store = gateway; drawn = 0 }

run_fault_example : Store.get_fault "f1" (run draw (plan env "f1" fault) confirm node).1.store ≡ (
    if "f1" == "f1"
    then Option.map
        (with_status (final_status (confirm "f1" "t1" [])))
        (Store.get_fault "f1" gateway)
    else Store.get_fault "f1" gateway)
run_fault_example = run_fault draw (plan env "f1" fault) confirm node "f1"

run_asset_example :
    (Store.get_asset "node-1" (run draw (plan env "f1" fault) confirm node).1.store
      ≡ returned_asset draw (plan env "f1" fault) gateway "node-1")
    × IsConsistent (run draw (plan env "f1" fault) confirm node).1.store
run_asset_example = run_asset draw (plan env "f1" fault) confirm node "node-1" consistent

run_feed_example : Extends "f1" 6 gateway (run draw (plan env "f1" fault) confirm node).1.store
unfolding step_ids_of
run_feed_example = run_feed draw (plan env "f1" fault) confirm node

abbrev request : CreateFaultRequest
request = record {
  scenario_id = "gpu";
  asset_id = "node-1";
  kb_article_id = none;
  log_extract = none;
  remediation_step_labels = [];
}

abbrev draws : Draws
draws = record { fault_id = "f2"; detected_at = 9; notification_id = "n1"; notified_at = 9 }

abbrev reported : FaultEvent × GatewayStore
reported = create_fault loaded request draws gateway

create_fault_effect_example :
    (reported.0.status ≡ detected)
    × (reported.0.scenario_id ≡ "gpu")
    × (reported.0.asset_id ≡ "node-1")
    × (Store.get_fault "f2" reported.1
        ≡ (if "f2" == "f2" then some reported.0 else Store.get_fault "f2" gateway))
    × (Store.get_asset "f2" reported.1 ≡ (
        if "node-1" == "f2"
        then Option.map (linked "f2") (Store.get_asset "f2" gateway)
        else Store.get_asset "f2" gateway))
create_fault_effect_example = create_fault_effect loaded request draws gateway "f2" consistent

abbrev article : String
article = "### 1. Reseat the card (`reseat`)\n\n- Power down the node. Then pull the card.\n"

detail_found : kb_step_detail article "reseat" ≡ some "Power down the node"
unfolding kb_step_detail nemoclaw_lab_cl.Base.Text.splitlines nemoclaw_lab_cl.Base.Text.startswith
    nemoclaw_lab_cl.Base.Text.lstrip nemoclaw_lab_cl.Base.Text.includes
    nemoclaw_lab_cl.Base.Text.text nemoclaw_lab_cl.Base.Text.strip nemoclaw_lab_cl.Base.Text.one_of
    nemoclaw_lab_cl.Base.Text.without_suffix nemoclaw_lab_cl.Base.Text.before chars
detail_found = refl

kb_step_detail_bounds_example :
    (0 < chars "Power down the node") × (chars "Power down the node" ≤ 160)
kb_step_detail_bounds_example =
    kb_step_detail_bounds article "reseat" "Power down the node" detail_found

abbrev day : List Route
day =
    create request draws
    ∷ status "f2" resolved
    ∷ decision "f1" approved env started
    ∷ execution draw 0 (plan env "f1" fault) confirm
    ∷ read "n1"
    ∷ reset_all
    ∷ []

serve_all-IsConsistent_example : IsConsistent (serve_all loaded day gateway)
serve_all-IsConsistent_example = serve_all-IsConsistent loaded day gateway consistent
