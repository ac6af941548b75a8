-- ===== src/Gateway/Faults/Lifecycle.antt =====
-- services/gateway/router.py: what the handlers of the fault lifecycle leave behind.
use mathlib.Core.Option
use nemoclaw_lab_cl.Base.{
  String, some, ◌==◌, if◌then◌else◌, ◌≡◌, refl, arith, eq_iff, Option-cases, inl, inr,
}
use nemoclaw_lab_cl.Base.Dict.{get, get-put, contains-get, Each-get}
use nemoclaw_lab_cl.Models.{detected, faulted}
use nemoclaw_lab_cl.Packs.{LoadedPack}
use nemoclaw_lab_cl.Gateway.Store
use nemoclaw_lab_cl.Gateway.Store.{GatewayStore, AssetRecord, with_status}
use nemoclaw_lab_cl.Gateway.Store.Invariant.{IsConsistent, IsConsistent-create_fault_event}
use nemoclaw_lab_cl.Gateway.Faults.{
  CreateFaultRequest, Draws, create_fault, link_asset, link_known, new_fault, labels_or_default,
}

abbrev pub linked : String → AssetRecord → AssetRecord
linked f a = record { id = a.id; type = a.type; state = faulted; active_fault_event_id = some f }

link_known-faults :
    (f asset_id : String) (s : GatewayStore)
    → (link_known f asset_id s).fault_events ≡ s.fault_events
unfolding link_known link_asset Store.set_asset
link_known-faults f asset_id s = ground arith

link_known-asset :
    (f asset_id j : String) (s : GatewayStore)
    → IsConsistent s
    → get j (link_known f asset_id s).assets
      ≡ (if asset_id == j then Option.map (linked f) (get j s.assets) else get j s.assets)
unfolding link_known link_asset Store.set_asset Store.get_asset Store.has_asset
link_known-asset f asset_id j s h = elim (Option-cases (get asset_id s.assets)) [
  | inl e ↦ ground (arith, contains-get asset_id s.assets, e, eq_iff asset_id j)
  | inr (a, e) ↦ ground (
    arith,
    contains-get asset_id s.assets,
    e,
    eq_iff asset_id j,
    get-put a.id j (linked f a) s.assets,
    Each-get (λ k x. x.id ≡ k) asset_id s.assets h.asset_key e,
  )
]

abbrev new_fault_of : LoadedPack → CreateFaultRequest → Store.NewFault
new_fault_of loaded body =
    new_fault loaded body (labels_or_default loaded body.scenario_id body.remediation_step_labels)

-- A reported fault is stored under its new id as `detected`, with the given scenario and asset, and
-- no other fault event changes; if the asset is known it becomes faulted and linked to the new
-- event, and no other asset changes.
pub create_fault_effect :
    (loaded : LoadedPack) (body : CreateFaultRequest) (d : Draws) (s : GatewayStore) (j : String)
    → IsConsistent s
    → ((create_fault loaded body d s).0.status ≡ detected)
      × ((create_fault loaded body d s).0.scenario_id ≡ body.scenario_id)
      × ((create_fault loaded body d s).0.asset_id ≡ body.asset_id)
      × (Store.get_fault j (create_fault loaded body d s).1 ≡ (
          if d.fault_id == j then some (create_fault loaded body d s).0 else Store.get_fault j s))
      × (Store.get_asset j (create_fault loaded body d s).1 ≡ (
          if body.asset_id == j
          then Option.map (linked d.fault_id) (Store.get_asset j s)
          else Store.get_asset j s))
unfolding create_fault Store.create_fault_event Store.create_notification Store.publish
    Store.get_fault Store.get_asset
create_fault_effect loaded body d s j h =
    let (evt, s1) =
      Store.create_fault_event d.fault_id d.detected_at (new_fault_of loaded body) s in
    let ready =
      IsConsistent-create_fault_event d.fault_id d.detected_at (new_fault_of loaded body) h in
    (
      refl,
      refl,
      refl,
      rw link_known-faults (get-put d.fault_id j evt s.fault_events),
      link_known-asset d.fault_id body.asset_id j s1 ready,
    )
