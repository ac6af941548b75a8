-- ===== src/Gateway/Executor/Frame.antt =====
-- services/gateway/executor.py: narration changes the activity feed and the queues alone, and a
-- status change touches one fault event and at most one asset.
use nemoclaw_lab_cl.Base.{
  ℕ, String, Option, none, some, List, [], ◌∷◌, ◌==◌, not, ◌&&◌, if◌then◌else◌, ◌≡◌, refl, ◌∙◌,
  arith, eq_iff, is_some, Option-cases, inl, inr, if_keeps,
}
use nemoclaw_lab_cl.Base.Dict.{get, get-put, contains-get, Each-get}
use mathlib.Core.Option
use nemoclaw_lab_cl.Models.{Timestamp, FaultEventStatus, healthy, is_resolved, FaultEvent}
use nemoclaw_lab_cl.Gateway.Sse
use nemoclaw_lab_cl.Gateway.Store
use nemoclaw_lab_cl.Gateway.Store.{GatewayStore, AssetRecord, healed, with_status}
use nemoclaw_lab_cl.Gateway.Store.Laws.{
  rest-update_fault_status, get_fault-update_fault_status, result-update_fault_status,
}
use nemoclaw_lab_cl.Gateway.Store.Invariant.{
  IsConsistent, IsConsistent-publish, IsConsistent-create_activity, IsConsistent-set_asset,
  IsConsistent-update_fault_status,
}
use nemoclaw_lab_cl.Gateway.Executor.{
  Node, heal_found, heal, status_written, set_status, narrate, narrate_all,
}

module _ (draw : ℕ → String × Timestamp) (f : String) where
  pub fault_events-narrate :
      (step message : String) (n : Node)
      → (narrate draw f step message n).store.fault_events ≡ n.store.fault_events
  unfolding narrate Store.create_activity Store.publish
  fault_events-narrate step message n = refl

  pub assets-narrate :
      (step message : String) (n : Node)
      → (narrate draw f step message n).store.assets ≡ n.store.assets
  unfolding narrate Store.create_activity Store.publish
  assets-narrate step message n = refl

  pub IsConsistent-narrate :
      (step message : String) (n : Node)
      → IsConsistent n.store
      → IsConsistent (narrate draw f step message n).store
  unfolding narrate
  IsConsistent-narrate step message n h =
      IsConsistent-publish (Sse.activity _)
        (IsConsistent-create_activity (draw n.drawn).0 (draw n.drawn).1 f step message h)

  pub fault_events-narrate_all :
      (lines : List String) (n : Node)
      → (narrate_all draw f lines n).store.fault_events ≡ n.store.fault_events
  unfolding narrate_all
  fault_events-narrate_all [] n = refl
  fault_events-narrate_all (line ∷ lines) n =
      fault_events-narrate_all lines (narrate draw f "remediate" line n)
      ∙ fault_events-narrate "remediate" line n

  pub assets-narrate_all :
      (lines : List String) (n : Node) → (narrate_all draw f lines n).store.assets ≡ n.store.assets
  unfolding narrate_all
  assets-narrate_all [] n = refl
  assets-narrate_all (line ∷ lines) n =
      assets-narrate_all lines (narrate draw f "remediate" line n)
      ∙ assets-narrate "remediate" line n

  pub IsConsistent-narrate_all :
      (lines : List String) (n : Node)
      → IsConsistent n.store
      → IsConsistent (narrate_all draw f lines n).store
  unfolding narrate_all
  IsConsistent-narrate_all [] n h = h
  IsConsistent-narrate_all (line ∷ lines) n h =
      IsConsistent-narrate_all lines (narrate draw f "remediate" line n)
        (IsConsistent-narrate "remediate" line n h)

fault_events-heal :
    (status : FaultEventStatus) (asset_id : String) (s : GatewayStore)
    → (heal status asset_id s).fault_events ≡ s.fault_events
unfolding heal heal_found Store.publish Store.set_asset
fault_events-heal status asset_id s = ground arith

status_written-fault :
    (status : FaultEventStatus) (asset_id j : String) (o : Option FaultEvent) (s : GatewayStore)
    → Store.get_fault j (status_written status asset_id (o, s)) ≡ Store.get_fault j s
unfolding status_written Store.get_fault Store.publish
status_written-fault status asset_id j none s = refl
status_written-fault status asset_id j (some e) s = rw (fault_events-heal status asset_id s)

-- the record after a heal: `healed` at the named asset, when the status is `resolved`
abbrev pub heal_at : FaultEventStatus → String → String → Option AssetRecord → Option AssetRecord
heal_at status asset_id j o =
    if is_resolved status && (not (asset_id == "") && asset_id == j) then Option.map healed o else o

get-heal :
    (status : FaultEventStatus) (asset_id : String) (s : GatewayStore) (j : String)
    → IsConsistent s
    → get j (heal status asset_id s).assets ≡ heal_at status asset_id j (get j s.assets)
unfolding heal heal_found Store.publish Store.set_asset Store.has_asset Store.get_asset
get-heal status asset_id s j h = elim (Option-cases (get asset_id s.assets)) [
  | inl e ↦ ground (arith, contains-get asset_id s.assets, e, eq_iff asset_id j)
  | inr (a, e) ↦ ground (
    arith,
    contains-get asset_id s.assets,
    e,
    eq_iff asset_id j,
    get-put a.id j (healed a) s.assets,
    Each-get (λ k x. x.id ≡ k) asset_id s.assets h.asset_key e,
  )
]

-- `set_status` writes the status of the fault event that it names, if there is one.
pub get_fault-set_status :
    (f asset_id : String) (status : FaultEventStatus) (s : GatewayStore) (j : String)
    → Store.get_fault j (set_status f asset_id status s) ≡ (
        if f == j
        then Option.map (with_status status) (Store.get_fault j s)
        else Store.get_fault j s)
unfolding set_status
get_fault-set_status f asset_id status s j =
    rw (← get_fault-update_fault_status f status s j) (status_written-fault status asset_id j _ _)

status_written-asset :
    (status : FaultEventStatus) (asset_id j : String) (o : Option FaultEvent) (s : GatewayStore)
    → IsConsistent s
    → get j (status_written status asset_id (o, s)).assets
      ≡ (if is_some o then heal_at status asset_id j (get j s.assets) else get j s.assets)
unfolding status_written Store.publish
status_written-asset status asset_id j none s h = refl
status_written-asset status asset_id j (some e) s h = get-heal status asset_id s j h

-- `set_status` heals the named asset when a fault event that is there becomes resolved.
pub get_asset-set_status :
    (f asset_id : String) (status : FaultEventStatus) (s : GatewayStore) (j : String)
    → IsConsistent s
    → Store.get_asset j (set_status f asset_id status s) ≡ (
        if is_some (Store.get_fault f s)
        then heal_at status asset_id j (Store.get_asset j s)
        else Store.get_asset j s)
unfolding set_status Store.get_asset
get_asset-set_status f asset_id status s j h =
    let written =
      status_written-asset status asset_id j (Store.update_fault_status f status s).0
        (Store.update_fault_status f status s).1 (IsConsistent-update_fault_status f status h) in
    ground (
      arith,
      written,
      (rest-update_fault_status f status s).assets,
      result-update_fault_status f status s,
    )

IsConsistent-heal_found :
    (asset_id : String) (o : Option AssetRecord) {s : GatewayStore}
    → IsConsistent s
    → IsConsistent (heal_found asset_id o s)
unfolding heal_found
IsConsistent-heal_found asset_id none h = h
IsConsistent-heal_found asset_id (some a) h =
    IsConsistent-publish (Sse.asset asset_id healthy none)
      (IsConsistent-set_asset (healed a) refl h)

IsConsistent-heal :
    (status : FaultEventStatus) (asset_id : String) {s : GatewayStore}
    → IsConsistent s
    → IsConsistent (heal status asset_id s)
unfolding heal
IsConsistent-heal status asset_id {s} h =
    if_keeps IsConsistent _ (IsConsistent-heal_found asset_id (Store.get_asset asset_id s) h) h

IsConsistent-status_written :
    (status : FaultEventStatus) (asset_id : String) (o : Option FaultEvent) {s : GatewayStore}
    → IsConsistent s
    → IsConsistent (status_written status asset_id (o, s))
unfolding status_written
IsConsistent-status_written status asset_id none h = h
IsConsistent-status_written status asset_id (some e) h =
    IsConsistent-publish (Sse.fault e) (IsConsistent-heal status asset_id h)

pub IsConsistent-set_status :
    (f asset_id : String) (status : FaultEventStatus) {s : GatewayStore}
    → IsConsistent s
    → IsConsistent (set_status f asset_id status s)
unfolding set_status
IsConsistent-set_status f asset_id status {s} h =
    IsConsistent-status_written status asset_id (Store.update_fault_status f status s).0
      (IsConsistent-update_fault_status f status h)
