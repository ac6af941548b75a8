-- ===== src/Gateway/Decision/Ready.antt =====
-- services/gateway/router.py with services/mcp_tools: what an approval that is answered leaves in MCP
-- Tools and in the store.
use nemoclaw_lab_cl.Base.{
  String, true, some, List, [], ◌∷◌, ◌≡◌, ◌≢◌, refl, arith, eq_refl, All, elem,
}
use nemoclaw_lab_cl.Base.Dict.{get-put_self}
use nemoclaw_lab_cl.Models.{FaultEvent, approved}
use nemoclaw_lab_cl.McpTools.TokenStore
use nemoclaw_lab_cl.McpTools.TokenStore.Laws.{fresh_token}
use nemoclaw_lab_cl.McpTools.FaultRegistry
use nemoclaw_lab_cl.McpTools.Remediation.{Call}
use nemoclaw_lab_cl.McpTools.Remediation.Security.{Authorised}
use nemoclaw_lab_cl.McpTools.Server.{McpState, register_fault_event, mint_token}
use nemoclaw_lab_cl.Gateway.Sse
use nemoclaw_lab_cl.Gateway.Store
use nemoclaw_lab_cl.Gateway.Store.{GatewayStore, AssetRecord, healed, with_status}
use nemoclaw_lab_cl.Base.Http.{Delivery}
use nemoclaw_lab_cl.Gateway.Decision.{
  Environment, step_ids_of, go_ahead, after_mint, after_register, decide, decide_found,
  post_decision,
}

elem_weaken :
    (x : String) (xs ys : List String)
    → All (λ s. elem s xs ≡ true) ys
    → All (λ s. elem s (x ∷ xs) ≡ true) ys
unfolding elem
elem_weaken x xs [] h = tt
elem_weaken x xs (y ∷ ys) (e, h) = (ground (arith, e), elem_weaken x xs ys h)

elem_self : (xs : List String) → All (λ s. elem s xs ≡ true) xs
unfolding elem
elem_self [] = tt
elem_self (x ∷ xs) = (rw eq_refl refl, elem_weaken x xs xs (elem_self xs))

-- the state of MCP Tools after both calls were answered
abbrev pub ready : Environment → String → FaultEvent → McpState → McpState
ready env f evt mcp =
    (mint_token env.fresh_token env.now
      (record { fault_event_id = f; decision = approved; decided_by = "human" })
      (register_fault_event
        (record {
          fault_event_id = f;
          asset_id = evt.asset_id;
          scenario_id = evt.scenario_id;
          allowed_step_ids = step_ids_of env.scenario;
        })
        mcp)).1

abbrev pub call_of : Environment → String → Call
call_of env f = record {
  fault_event_id = f;
  approval_token = some env.fresh_token;
  step_ids = step_ids_of env.scenario;
}

pub ready-Authorised :
    (env : Environment) (f : String) (evt : FaultEvent) (mcp : McpState)
    → env.fresh_token ≢ ""
    → Authorised
        (call_of env f)
        (ready env f evt mcp).token_store
        (ready env f evt mcp).fault_registry
        evt.asset_id
unfolding mint_token register_fault_event TokenStore.mint TokenStore.get_token
    FaultRegistry.register FaultRegistry.get_record
ready-Authorised env f evt mcp fresh = record {
  token_str = env.fresh_token;
  presented = refl;
  non_empty = fresh;
  token = fresh_token env.fresh_token f approved "human" env.now;
  stored = get-put_self env.fresh_token _ mcp.token_store.tokens;
  bound = refl;
  approves = refl;
  unused = refl;
  rec = record {
    fault_event_id = f;
    asset_id = evt.asset_id;
    scenario_id = evt.scenario_id;
    allowed_step_ids = step_ids_of env.scenario;
  };
  registered = get-put_self f _ mcp.fault_registry.records;
  target = refl;
  allowed = elem_self (step_ids_of env.scenario);
}

pub post_decision-answered :
    (env : Environment) (f : String) (evt : FaultEvent) (s : GatewayStore) (mcp : McpState)
    → Store.get_fault f s ≡ some evt
    → env.registering ≡ Delivery.answered
    → env.minting ≡ Delivery.answered
    → post_decision f approved env s mcp ≡ go_ahead env f evt s (ready env f evt mcp)
unfolding post_decision
post_decision-answered env f evt s mcp found reg mint =
    rw (found, decide_found, decide, reg, after_register, mint, after_mint) refl

pub go_ahead-store :
    (env : Environment) (f : String) (evt : FaultEvent) (s : GatewayStore) (mcp : McpState)
    → Store.get_fault f s ≡ some evt
    → env.registering ≡ Delivery.answered
    → env.minting ≡ Delivery.answered
    → (post_decision f approved env s mcp).store
      ≡ Store.publish (Sse.decision f approved) (Store.set_pending_token f env.fresh_token s)
unfolding go_ahead
go_ahead-store env f evt s mcp found reg mint =
    rw (post_decision-answered env f evt s mcp found reg mint) refl
