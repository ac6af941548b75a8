-- ===== src/Tests/McpTools.antt =====
-- services/mcp_tools: an approved call, its replay and its refusals.
use nemoclaw_lab_cl.Base.{
  ℕ, ◌≤◌, String, Bool, true, false, Option, none, some, List, [], ◌∷◌, ◌≡◌, ◌↔◌, refl, Result, ok,
  err, is_ok, arith, ◌==◌, if◌then◌else◌, map,
}
use nemoclaw_lab_cl.Base.Dict.{get}
use nemoclaw_lab_cl.Base.Http.{Delivery}
use nemoclaw_lab_cl.McpTools.Notify.{notify_post_activity}
use nemoclaw_lab_cl.McpTools.Notify.Effect.{Extends, notify_effect}
use nemoclaw_lab_cl.McpTools.TokenStore
use nemoclaw_lab_cl.McpTools.TokenStore.Laws.{used}
use nemoclaw_lab_cl.McpTools.Remediation.{
  RemediationError, token_consumed, step_not_allowed, Resolved, Call, Pending, validate,
  remediation_execute,
}
use nemoclaw_lab_cl.McpTools.Remediation.Security.{Authorised, resolves_iff, refused_unchanged}
use nemoclaw_lab_cl.McpTools.Remediation.Replay.{resolved_effect, replay_refused}
use nemoclaw_lab_cl.McpTools.Server.{started}
use nemoclaw_lab_cl.McpTools.Server.Approvals.{
  Request, register, mint, execute, executions, approvals, executions-le-approvals,
}
use nemoclaw_lab_cl.McpTools.Server.Interleaving.{arrive, answer, run, overlap_resolves_both}
use nemoclaw_lab_cl.McpTools.Adapters.{list_assets}
use nemoclaw_lab_cl.McpTools.Adapters.Reports.{shown, adapter_reports_engine}
use nemoclaw_lab_cl.Simulator.Engine
use nemoclaw_lab_cl.Simulator.Engine.{SimulatorEngine}
use nemoclaw_lab_cl.Simulator.Generic
use mathlib.Core.Option
use nemoclaw_lab_cl.McpTools.Propose.{Target, diagnosis_of, status_of, elsewhere, Calls}
use nemoclaw_lab_cl.Gateway.Store
use nemoclaw_lab_cl.Tests.Data.{gateway, mcp, call_with, token, loaded}

abbrev cleared : String → Bool
cleared asset_id = asset_id == "node-1"

abbrev executed : Call → Result RemediationError Resolved × TokenStore.ApprovalTokenStore
executed c = remediation_execute c cleared mcp.token_store mcp.fault_registry

abbrev answered : Resolved
answered = record { fault_event_id = "f1"; executed = "reseat" ∷ [] }

executed_reseat : (executed (call_with "reseat")).0 ≡ ok answered
unfolding remediation_execute validate TokenStore.get_token get nemoclaw_lab_cl.Models.is_approved
    nemoclaw_lab_cl.McpTools.FaultRegistry.get_record nemoclaw_lab_cl.Base.keep
    nemoclaw_lab_cl.Base.elem
executed_reseat = refl

resolves_iff_example : (is_ok (executed (call_with "reseat")).0 ≡ true) ↔ (
    (asset_id : String) × Authorised
      (call_with "reseat")
      mcp.token_store
      mcp.fault_registry
      asset_id
    × (cleared asset_id ≡ true))
resolves_iff_example = resolves_iff (call_with "reseat") cleared mcp.token_store mcp.fault_registry

refused_reboot : (executed (call_with "format")).0 ≡ err (step_not_allowed ("format" ∷ []))
unfolding remediation_execute validate TokenStore.get_token get nemoclaw_lab_cl.Models.is_approved
    nemoclaw_lab_cl.McpTools.FaultRegistry.get_record nemoclaw_lab_cl.Base.keep
    nemoclaw_lab_cl.Base.elem
refused_reboot = refl

refused_unchanged_example : (executed (call_with "format")).1 ≡ mcp.token_store
refused_unchanged_example =
    refused_unchanged (call_with "format") cleared mcp.token_store mcp.fault_registry
      (step_not_allowed ("format" ∷ [])) refused_reboot

resolved_effect_example :
    (answered ≡ answered)
    × (asset_id : String) × (a : Authorised
        (call_with "reseat")
        mcp.token_store
        mcp.fault_registry
        asset_id)
    × ((j : String)
        → TokenStore.get_token j (executed (call_with "reseat")).1 ≡ (
            if a.token_str == j
            then some (used a.token)
            else TokenStore.get_token j mcp.token_store))
resolved_effect_example =
    resolved_effect (call_with "reseat") cleared mcp.token_store mcp.fault_registry answered
      executed_reseat

replay_refused_example :
    (remediation_execute
      (call_with "reboot")
      cleared
      (executed (call_with "reseat")).1
      mcp.fault_registry).0
    ≡ err token_consumed
replay_refused_example =
    replay_refused (call_with "reseat") (call_with "reboot") cleared cleared mcp.token_store
      mcp.fault_registry mcp.fault_registry answered executed_reseat refl refl

-- a "parser" that reads a text as the one step that it names
abbrev one_step : String → Option (List String)
one_step s = some (s ∷ [])

abbrev approval_and_two_calls : List Request
approval_and_two_calls =
    register (record {
      fault_event_id = "f1";
      asset_id = "node-1";
      scenario_id = "gpu";
      allowed_step_ids = "reseat" ∷ [];
    })
    ∷ mint "t1" 7
        (record { fault_event_id = "f1"; decision = token.decision; decided_by = "human" })
    ∷ execute cleared "f1" "t1" "reseat"
    ∷ execute cleared "f1" "t1" "reseat"
    ∷ []

executions-le-approvals_example :
    executions one_step "f1" approval_and_two_calls started ≤ approvals "f1" approval_and_two_calls
executions-le-approvals_example = executions-le-approvals one_step "f1" approval_and_two_calls

abbrev pending : Pending
pending = record { call = call_with "reseat"; token_str = "t1"; asset_id = "node-1" }

validated : validate (call_with "reseat") mcp.token_store mcp.fault_registry ≡ ok pending
unfolding validate TokenStore.get_token get nemoclaw_lab_cl.Models.is_approved
    nemoclaw_lab_cl.McpTools.FaultRegistry.get_record nemoclaw_lab_cl.Base.keep
    nemoclaw_lab_cl.Base.elem
validated = refl

-- both with the one token
overlap_resolves_both_example :
    (run
      (arrive (call_with "reseat") ∷ arrive (call_with "reseat") ∷ answer true ∷ answer true ∷ [])
      (record { mcp = mcp; waiting = []; resolved = [] })).resolved
    ≡ answered ∷ answered ∷ []
overlap_resolves_both_example =
    overlap_resolves_both mcp (call_with "reseat") (call_with "reseat") pending pending validated
      validated

abbrev engine : SimulatorEngine
engine = Engine.created loaded

adapter_reports_engine_example :
    list_assets (Generic.list_assets engine) ≡ ok (map (shown engine) engine.faults)
adapter_reports_engine_example = adapter_reports_engine engine

-- the paths of one id
abbrev routed : String → Target
routed path =
    if path == "/api/faults/f1/diagnosis"
    then diagnosis_of "f1"
    else if path == "/api/faults/f1/status"
    then status_of "f1"
    else elsewhere 404

-- the last answer is lost
abbrev calls : Calls
calls = record {
  diagnosing = Delivery.answered;
  recording = Delivery.answered;
  narrating = Delivery.unanswered;
  rejection = 503;
}

notify_effect_example :
    let after =
      (notify_post_activity Delivery.answered 201 "f1" "shout" "Looking at node-1" "a1" 9
        gateway).1 in
    (after.fault_events ≡ gateway.fault_events)
    × (after.assets ≡ gateway.assets)
    × (after.notifications ≡ gateway.notifications)
    × (after.pending_tokens ≡ gateway.pending_tokens)
    × Extends "f1" gateway.activity_events after.activity_events
notify_effect_example =
    notify_effect "f1" "shout" "Looking at node-1" "a1" 9 gateway Delivery.answered 201
