-- ===== src/Gateway/Decision/Approved.antt =====
-- services/gateway/router.py with services/mcp_tools: an approval that reaches MCP Tools leads to an
-- execution that MCP Tools accepts, also where the scenario's steps could not be read.
use nemoclaw_lab_cl.Base.{ℕ, String, Bool, true, Option, none, some, List, [], ◌≡◌, ◌≢◌, refl, map}
use nemoclaw_lab_cl.Models.{Timestamp, FaultEvent, approved, resolved}
use nemoclaw_lab_cl.McpTools.Server.{McpState}
use nemoclaw_lab_cl.McpTools.Server.Tool.{tool-resolves}
use nemoclaw_lab_cl.Gateway.Sse
use nemoclaw_lab_cl.Gateway.Store
use nemoclaw_lab_cl.Gateway.Store.{GatewayStore, AssetRecord, healed, with_status}
use nemoclaw_lab_cl.Gateway.Store.Invariant.{
  IsConsistent, IsConsistent-publish, IsConsistent-set_pending_token,
}
use nemoclaw_lab_cl.Gateway.Executor.{run}
use nemoclaw_lab_cl.Gateway.Executor.Outcome.{run_confirmed}
use nemoclaw_lab_cl.Gateway.Executor.{Started, Reply, returned}
use nemoclaw_lab_cl.Base.Http.{Delivery}
use nemoclaw_lab_cl.Gateway.Decision.Ready.{
  ready, call_of, ready-Authorised, post_decision-answered, go_ahead-store,
}
use nemoclaw_lab_cl.Gateway.Decision.{
  Environment, StepJson, step_ids_of, step_labels_of, go_ahead, post_decision, mcp_execute,
}

abbrev pub plan : Environment → String → FaultEvent → Started
plan env f evt = record {
  fault_id = f;
  asset_id = evt.asset_id;
  scenario_id = evt.scenario_id;
  step_ids = step_ids_of env.scenario;
  step_labels = step_labels_of env.scenario;
  token = env.fresh_token;
}

module _ (json_dumps : List String → String) (json_loads : String → Option (List String)) where
  -- the reply of MCP Tools to the execution that an approval starts
  abbrev pub reply_to : Environment → String → GatewayStore → McpState → (String → Bool) → Reply
  reply_to env f s mcp clear =
      mcp_execute json_dumps json_loads true clear (post_decision f approved env s mcp).mcp f
        env.fresh_token (step_ids_of env.scenario)

  answered_executes :
      (env : Environment) (f : String) (evt : FaultEvent) (s : GatewayStore) (mcp : McpState)
      (clear : String → Bool)
      → json_loads (json_dumps (step_ids_of env.scenario)) ≡ some (step_ids_of env.scenario)
      → Store.get_fault f s ≡ some evt
      → env.registering ≡ Delivery.answered
      → env.minting ≡ Delivery.answered
      → env.fresh_token ≢ ""
      → clear evt.asset_id ≡ true
      → ((post_decision f approved env s mcp).started ≡ some (plan env f evt))
        × (reply_to env f s mcp clear ≡ returned (some "resolved") none)
  unfolding go_ahead mcp_execute
  answered_executes env f evt s mcp clear round_trip found reg mint fresh cleared =
      let (r, e) =
        tool-resolves json_loads clear (call_of env f) env.fresh_token
          (json_dumps (step_ids_of env.scenario)) evt.asset_id (ready env f evt mcp) refl round_trip
          (ready-Authorised env f evt mcp fresh) cleared in
      (
        rw (post_decision-answered env f evt s mcp found reg mint) refl,
        rw (post_decision-answered env f evt s mcp found reg mint, e) refl,
      )

  -- the Gateway's store when the run that an approval starts has ended
  abbrev pub final_store :
      (ℕ → String × Timestamp)
      → ℕ
      → Environment
      → String
      → FaultEvent
      → GatewayStore
      → McpState
      → (String → Bool)
      → GatewayStore
  final_store draw drawn env f evt s mcp clear =
      (run draw (plan env f evt)
        (mcp_execute json_dumps json_loads true clear (post_decision f approved env s mcp).mcp)
        (record { store = (post_decision f approved env s mcp).store; drawn = drawn })).1.store

  answered_resolves :
      (draw : ℕ → String × Timestamp) (drawn : ℕ) (env : Environment) (f : String)
      (evt : FaultEvent) (asset : AssetRecord) (s : GatewayStore) (mcp : McpState)
      (clear : String → Bool)
      → json_loads (json_dumps (step_ids_of env.scenario)) ≡ some (step_ids_of env.scenario)
      → IsConsistent s
      → Store.get_fault f s ≡ some evt
      → Store.get_asset evt.asset_id s ≡ some asset
      → evt.asset_id ≢ ""
      → env.registering ≡ Delivery.answered
      → env.minting ≡ Delivery.answered
      → env.fresh_token ≢ ""
      → clear evt.asset_id ≡ true
      → (Store.get_fault f (final_store draw drawn env f evt s mcp clear)
          ≡ some (with_status resolved evt))
        × (Store.get_asset evt.asset_id (final_store draw drawn env f evt s mcp clear)
            ≡ some (healed asset))
  answered_resolves draw drawn env f evt asset s mcp clear round_trip h found there named reg mint
        fresh cleared =
      let d = post_decision f approved env s mcp in
      let written = go_ahead-store env f evt s mcp found reg mint in
      let confirmed =
        (answered_executes env f evt s mcp clear round_trip found reg mint fresh cleared).1 in
      run_confirmed draw (plan env f evt) (mcp_execute json_dumps json_loads true clear d.mcp)
        (record { store = d.store; drawn = drawn }) evt asset
        (rw written (
          IsConsistent-publish (Sse.decision f approved)
            (IsConsistent-set_pending_token f env.fresh_token h)))
        (rw written (unfold Store.get_fault Store.publish Store.set_pending_token in found))
        (rw written (unfold Store.get_asset Store.publish Store.set_pending_token in there)) named
        (rw confirmed refl)

  -- When a fault event that is there is approved, the Orchestrator sends its scenario's steps, both
  -- calls to MCP Tools are answered and the minted token is not empty, the execution is started with
  -- exactly these steps, and MCP Tools resolves that very call if the Simulator clears the asset. The
  -- JSON of the steps is read back as it was written.
  pub approved_executes :
      (env : Environment) (steps : List StepJson) (f : String) (evt : FaultEvent) (s : GatewayStore)
      (mcp : McpState) (clear : String → Bool)
      → json_loads (json_dumps (map (λ step. step.id) steps)) ≡ some (map (λ step. step.id) steps)
      → Store.get_fault f s ≡ some evt
      → env.scenario ≡ some steps
      → env.registering ≡ Delivery.answered
      → env.minting ≡ Delivery.answered
      → env.fresh_token ≢ ""
      → clear evt.asset_id ≡ true
      → ((post_decision f approved env s mcp).started ≡ some (plan env f evt))
        × ((plan env f evt).step_ids ≡ map (λ step. step.id) steps)
        × (reply_to env f s mcp clear ≡ returned (some "resolved") none)
  unfolding step_ids_of
  approved_executes env steps f evt s mcp clear round_trip found sent reg mint fresh cleared =
      let asked : step_ids_of env.scenario ≡ map (λ step. step.id) steps = rw sent refl in
      let (started, executed) =
        answered_executes env f evt s mcp clear (rw asked round_trip) found reg mint fresh
          cleared in
      (started, asked, executed)

  -- The whole way of an approval, under the same conditions, from a consistent store in which the
  -- fault event's asset is there: the run that it starts ends with the fault event resolved and the
  -- asset healthy with no fault link.
  pub approved_resolves :
      (draw : ℕ → String × Timestamp) (drawn : ℕ) (env : Environment) (steps : List StepJson)
      (f : String) (evt : FaultEvent) (asset : AssetRecord) (s : GatewayStore) (mcp : McpState)
      (clear : String → Bool)
      → json_loads (json_dumps (map (λ step. step.id) steps)) ≡ some (map (λ step. step.id) steps)
      → IsConsistent s
      → Store.get_fault f s ≡ some evt
      → Store.get_asset evt.asset_id s ≡ some asset
      → evt.asset_id ≢ ""
      → env.scenario ≡ some steps
      → env.registering ≡ Delivery.answered
      → env.minting ≡ Delivery.answered
      → env.fresh_token ≢ ""
      → clear evt.asset_id ≡ true
      → (Store.get_fault f (final_store draw drawn env f evt s mcp clear)
          ≡ some (with_status resolved evt))
        × (Store.get_asset evt.asset_id (final_store draw drawn env f evt s mcp clear)
            ≡ some (healed asset))
  unfolding step_ids_of
  approved_resolves draw drawn env steps f evt asset s mcp clear round_trip h found there named sent
        reg mint fresh cleared =
      let asked : step_ids_of env.scenario ≡ map (λ step. step.id) steps = rw sent refl in
      answered_resolves draw drawn env f evt asset s mcp clear (rw asked round_trip) h found there
        named reg mint fresh cleared

  -- When the Orchestrator cannot be read, and the rest is as above, an approval starts an execution
  -- of no steps at all, which is not refused: MCP Tools resolves it and the fault event ends as
  -- resolved.
  pub unread_scenario-resolves :
      (draw : ℕ → String × Timestamp) (drawn : ℕ) (env : Environment) (f : String)
      (evt : FaultEvent) (asset : AssetRecord) (s : GatewayStore) (mcp : McpState)
      (clear : String → Bool)
      → json_loads (json_dumps []) ≡ some []
      → IsConsistent s
      → Store.get_fault f s ≡ some evt
      → Store.get_asset evt.asset_id s ≡ some asset
      → evt.asset_id ≢ ""
      → env.scenario ≡ none
      → env.registering ≡ Delivery.answered
      → env.minting ≡ Delivery.answered
      → env.fresh_token ≢ ""
      → clear evt.asset_id ≡ true
      → ((post_decision f approved env s mcp).started ≡ some (plan env f evt))
        × ((plan env f evt).step_ids ≡ [])
        × (reply_to env f s mcp clear ≡ returned (some "resolved") none)
        × (Store.get_fault f (final_store draw drawn env f evt s mcp clear)
            ≡ some (with_status resolved evt))
  unfolding step_ids_of
  unread_scenario-resolves draw drawn env f evt asset s mcp clear round_trip h found there named
        unread reg mint fresh cleared =
      let asked : step_ids_of env.scenario ≡ [] = rw unread refl in
      let (started, executed) =
        answered_executes env f evt s mcp clear (rw asked round_trip) found reg mint fresh
          cleared in
      let (fault, healthy) =
        answered_resolves draw drawn env f evt asset s mcp clear (rw asked round_trip) h found there
          named reg mint fresh cleared in
      (started, asked, executed, fault)
