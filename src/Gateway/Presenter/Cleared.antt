-- ===== src/Gateway/Presenter/Cleared.antt =====
-- services/gateway/router.py: what a presenter reset leaves in the three services.
use nemoclaw_lab_cl.Base.{
  String, true, false, none, List, [], ◌∷◌, Result, ok, ◌≡◌, refl, sym, ap, ◌∙◌, subst,
}
use nemoclaw_lab_cl.Base.Dict.{get}
use nemoclaw_lab_cl.McpTools.Server.{reset_state}
use nemoclaw_lab_cl.McpTools.TokenStore
use nemoclaw_lab_cl.McpTools.FaultRegistry
use nemoclaw_lab_cl.Orchestrator.Router
use nemoclaw_lab_cl.Orchestrator.Router.{Lab, Raised, Wire}
use nemoclaw_lab_cl.Orchestrator.Router.Clearing.{IsKnown, IsAnswered, IsCovered}
use nemoclaw_lab_cl.Orchestrator.Router.Active.{reset_idles}
use nemoclaw_lab_cl.Simulator.Engine
use nemoclaw_lab_cl.Gateway.Sse
use nemoclaw_lab_cl.Gateway.Store
use nemoclaw_lab_cl.Gateway.Store.{GatewayStore, AssetRecord}
use nemoclaw_lab_cl.Gateway.Store.Reset.{IsHealed, reset_clean}
use nemoclaw_lab_cl.Base.Http.{Delivery, handled}
use nemoclaw_lab_cl.Gateway.Presenter.{
  System, Uncaught, delivered, push_assets, reset_store, reset_rest, presenter_reset,
}

-- a store without its subscribers
abbrev silent : GatewayStore → GatewayStore
silent s = record s { sse = Sse.empty }

silent-push_assets :
    (assets : List AssetRecord) (s : GatewayStore) → silent (push_assets assets s) ≡ silent s
unfolding push_assets Store.publish
silent-push_assets [] s = refl
silent-push_assets (a ∷ assets) s =
    silent-push_assets assets (Store.publish (Sse.asset a.id a.state none) s)

-- nothing of a fault is left in a store
abbrev pub IsCleared : GatewayStore → Type 0
IsCleared s =
    (s.fault_events ≡ [])
    × (s.notifications ≡ [])
    × (s.activity_events ≡ [])
    × (s.pending_tokens ≡ [])
    × ((k : String) → IsHealed (get k s.assets))

IsCleared-reset_store : (s : GatewayStore) → IsCleared (reset_store s)
unfolding reset_store
IsCleared-reset_store s =
    let quiet = silent-push_assets (Store.list_assets (Store.reset s)) (Store.reset s) in
    let (faults, notified, fed, pending, kept, healed) = reset_clean s "" in
    (
      ap (λ t. t.fault_events) quiet ∙ faults,
      ap (λ t. t.notifications) quiet ∙ notified,
      ap (λ t. t.activity_events) quiet ∙ fed,
      ap (λ t. t.pending_tokens) quiet ∙ pending,
      λ k.
          let (faults', notified', fed', pending', kept', healed') = reset_clean s k in
          subst (λ d. IsHealed (get k d)) (sym (ap (λ t. t.assets) quiet)) healed',
    )

-- an answer and what it leaves of the three services
abbrev pub Clears : Result Uncaught String × System → Type 0
Clears (answer, sys) =
    (answer ≡ ok "idle")
    × ((j : String) → Engine.is_faulted j sys.lab.engine ≡ false)
    × ((t : String) → TokenStore.get_token t sys.mcp.token_store ≡ none)
    × ((f : String) → FaultRegistry.get_record f sys.mcp.fault_registry ≡ none)
    × IsCleared sys.store

module _ (wire : Wire) (tools : Delivery) (sys : System) where
  presenter_reset_idle :
      (Router.reset wire sys.lab).0 ≡ ok (("status", "idle") ∷ [])
      → handled tools ≡ true
      → presenter_reset wire Delivery.answered tools sys ≡ (
        ok "idle",
        record {
          lab = (Router.reset wire sys.lab).1;
          mcp = reset_state sys.mcp;
          store = reset_store sys.store;
        },
      )
  unfolding presenter_reset delivered reset_rest
  presenter_reset_idle idle reached = rw (idle, reset_rest, reached) refl

  -- Where the simulator carries faults only where the Orchestrator lists a scenario and knows the listed
  -- assets, the simulator and the Orchestrator answer and MCP Tools handles its call, a presenter reset
  -- answers "idle", and then no asset carries a fault in the simulator, no token can be used,
  -- no fault event is registered, and the gateway holds no fault, notification, activity or pending
  -- token and only healthy assets.
  pub presenter_reset-Clears :
      IsAnswered wire
      → IsCovered sys.lab
      → IsKnown sys.lab.engine sys.lab.active_scenarios
      → handled tools ≡ true
      → Clears (presenter_reset wire Delivery.answered tools sys)
  unfolding reset_state TokenStore.clear TokenStore.get_token FaultRegistry.clear
      FaultRegistry.get_record get
  presenter_reset-Clears wired covered known reached =
      let (idle, rotated, quiet) = reset_idles wire sys.lab wired covered known in
      subst Clears (sym (presenter_reset_idle idle reached))
        (refl, λ j. (quiet j).0, λ t. refl, λ f. refl, IsCleared-reset_store sys.store)
