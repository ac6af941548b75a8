-- ===== src/Gateway/Executor/Outcome.antt =====
-- services/gateway/executor.py: what an uninterrupted `_run` leaves behind.
use mathlib.Core.Option
use nemoclaw_lab_cl.Base.{
  ℕ, String, Bool, true, false, Option, none, some, List, ◌==◌, not, ◌&&◌, if◌then◌else◌, is_some,
  ◌≡◌, refl, ◌∙◌, ◌≢◌, eq_refl, arith, eq_iff, Bool-cases, inl, inr,
}
use nemoclaw_lab_cl.Models.{
  Timestamp, FaultEventStatus, is_resolved, resolved, remediating, FaultEvent,
}
use nemoclaw_lab_cl.Gateway.Store
use nemoclaw_lab_cl.Gateway.Store.{GatewayStore, AssetRecord, healed, with_status}
use nemoclaw_lab_cl.Gateway.Store.Invariant.{IsConsistent}
use nemoclaw_lab_cl.Gateway.Executor.{
  Node, Started, Reply, returned, raised, set_status, opening, narrate, narrate_all, before_execute,
  succeeded, after_execute, run, is_resolved_text,
}
use nemoclaw_lab_cl.Gateway.Executor.Frame.{
  fault_events-narrate, assets-narrate, IsConsistent-narrate, fault_events-narrate_all,
  assets-narrate_all, IsConsistent-narrate_all, get_fault-set_status, get_asset-set_status,
  IsConsistent-set_status,
}

abbrev pub confirms : Reply → Bool
confirms (returned (some status) error) = status == "resolved"
confirms _ = false

abbrev pub final_status : Reply → FaultEventStatus
final_status reply = if confirms reply then resolved else remediating

settle :
    (confirmed here : Bool) (o : Option FaultEvent)
    → (if confirmed && here
        then Option.map
            (with_status resolved)
            (if here then Option.map (with_status remediating) o else o)
        else (if here then Option.map (with_status remediating) o else o))
      ≡ (if here
          then Option.map (with_status (if confirmed then resolved else remediating)) o
          else o)
settle confirmed here o = ground arith

if_same : (b : Bool) (o : Option AssetRecord) → (if b then o else o) ≡ o
if_same true o = refl
if_same false o = refl

module _ (draw : ℕ → String × Timestamp) (r : Started) where
  fault-narrate_all :
      (lines : List String) (n : Node) (j : String)
      → Store.get_fault j (narrate_all draw r.fault_id lines n).store ≡ Store.get_fault j n.store
  unfolding Store.get_fault
  fault-narrate_all lines n j = rw (fault_events-narrate_all draw r.fault_id lines n)

  fault-narrate :
      (step message : String) (n : Node) (j : String)
      → Store.get_fault j (narrate draw r.fault_id step message n).store ≡ Store.get_fault j n.store
  unfolding Store.get_fault
  fault-narrate step message n j = rw (fault_events-narrate draw r.fault_id step message n)

  fault-before :
      (n : Node) (j : String)
      → Store.get_fault j (before_execute draw r n).store ≡ (
          if r.fault_id == j
          then Option.map (with_status remediating) (Store.get_fault j n.store)
          else Store.get_fault j n.store)
  unfolding before_execute
  fault-before n j =
      fault-narrate_all (opening r)
        (record n { store = set_status r.fault_id r.asset_id remediating n.store }) j
      ∙ get_fault-set_status r.fault_id r.asset_id remediating n.store j

  fault-succeeded :
      (n : Node) (j : String)
      → Store.get_fault j (succeeded draw r n).store ≡ (
          if r.fault_id == j
          then Option.map (with_status resolved) (Store.get_fault j n.store)
          else Store.get_fault j n.store)
  unfolding succeeded
  fault-succeeded n j = rw (fault-narrate, get_fault-set_status, fault-narrate) refl

  fault-after :
      (reply : Reply) (n : Node) (j : String)
      → Store.get_fault j (after_execute draw r reply n).1.store ≡ (
          if confirms reply && r.fault_id == j
          then Option.map (with_status resolved) (Store.get_fault j n.store)
          else Store.get_fault j n.store)
  unfolding after_execute
  fault-after (returned none error) n j = fault-narrate _ _ n j
  fault-after (returned (some status) error) n j = elim (Bool-cases (status == "resolved")) [
    | inl e ↦ rw e (fault-succeeded n j)
    | inr e ↦ rw e (fault-narrate _ _ n j)
  ]
  fault-after raised n j = fault-narrate _ _ n j

  -- A run writes one fault event, the approved one if it is there: its status ends as `resolved`
  -- exactly when `execute_fn` confirms it, and else as `remediating`; every other field stays.
  pub run_fault :
      (execute_fn : String → String → List String → Reply) (n : Node) (j : String)
      → Store.get_fault j (run draw r execute_fn n).1.store ≡ (
          if r.fault_id == j
          then Option.map
              (with_status (final_status (execute_fn r.fault_id r.token r.step_ids)))
              (Store.get_fault j n.store)
          else Store.get_fault j n.store)
  unfolding run
  run_fault execute_fn n j =
      rw (fault-after, fault-before)
        (settle (confirms (execute_fn r.fault_id r.token r.step_ids)) (r.fault_id == j)
          (Store.get_fault j n.store))

  asset-narrate_all :
      (lines : List String) (n : Node) (j : String)
      → Store.get_asset j (narrate_all draw r.fault_id lines n).store ≡ Store.get_asset j n.store
  unfolding Store.get_asset
  asset-narrate_all lines n j = rw (assets-narrate_all draw r.fault_id lines n)

  asset-narrate :
      (step message : String) (n : Node) (j : String)
      → Store.get_asset j (narrate draw r.fault_id step message n).store ≡ Store.get_asset j n.store
  unfolding Store.get_asset
  asset-narrate step message n j = rw (assets-narrate draw r.fault_id step message n)

  pub IsConsistent-before :
      (n : Node) → IsConsistent n.store → IsConsistent (before_execute draw r n).store
  unfolding before_execute
  IsConsistent-before n h =
      IsConsistent-narrate_all draw r.fault_id (opening r)
        (record n { store = set_status r.fault_id r.asset_id remediating n.store })
        (IsConsistent-set_status r.fault_id r.asset_id remediating h)

  IsConsistent-succeeded :
      (n : Node) → IsConsistent n.store → IsConsistent (succeeded draw r n).store
  unfolding succeeded
  IsConsistent-succeeded n h = IsConsistent-narrate draw r.fault_id _ _ _ (
      IsConsistent-set_status r.fault_id r.asset_id resolved
        (IsConsistent-narrate draw r.fault_id _ _ n h))

  pub IsConsistent-after :
      (reply : Reply) (n : Node)
      → IsConsistent n.store
      → IsConsistent (after_execute draw r reply n).1.store
  unfolding after_execute
  IsConsistent-after (returned status error) n h = elim (Bool-cases (is_resolved_text status)) [
    | inl e ↦ rw e (IsConsistent-succeeded n h)
    | inr e ↦ rw e (IsConsistent-narrate draw r.fault_id _ _ _ h)
  ]
  IsConsistent-after raised n h = IsConsistent-narrate draw r.fault_id _ _ _ h

  asset-before :
      (n : Node) (j : String)
      → IsConsistent n.store
      → Store.get_asset j (before_execute draw r n).store ≡ Store.get_asset j n.store
  unfolding before_execute is_resolved
  asset-before n j h =
      asset-narrate_all (opening r)
        (record n { store = set_status r.fault_id r.asset_id remediating n.store }) j
      ∙ get_asset-set_status r.fault_id r.asset_id remediating n.store j h
      ∙ if_same (is_some (Store.get_fault r.fault_id n.store)) (Store.get_asset j n.store)

  -- the asset with the given id after a confirmed run of a fault event that is there
  abbrev pub returned_asset : GatewayStore → String → Option AssetRecord
  returned_asset s j =
      if is_some (Store.get_fault r.fault_id s) && (not (r.asset_id == "") && r.asset_id == j)
      then Option.map healed (Store.get_asset j s)
      else Store.get_asset j s

  asset-succeeded :
      (n : Node) (j : String)
      → IsConsistent n.store
      → Store.get_asset j (succeeded draw r n).store ≡ returned_asset n.store j
  unfolding succeeded is_resolved
  asset-succeeded n j h = rw asset-narrate (
      get_asset-set_status r.fault_id r.asset_id resolved _ j
        (IsConsistent-narrate draw r.fault_id _ _ n h)
      ∙ rw (asset-narrate, fault-narrate) (ground arith))

  asset-after :
      (reply : Reply) (n : Node) (j : String)
      → IsConsistent n.store
      → Store.get_asset j (after_execute draw r reply n).1.store
        ≡ (if confirms reply then returned_asset n.store j else Store.get_asset j n.store)
  unfolding after_execute
  asset-after (returned none error) n j h = asset-narrate _ _ n j
  asset-after (returned (some status) error) n j h = elim (Bool-cases (status == "resolved")) [
    | inl e ↦ rw e (asset-succeeded n j h)
    | inr e ↦ rw e (asset-narrate _ _ n j)
  ]
  asset-after raised n j h = asset-narrate _ _ n j

  known-before :
      (n : Node)
      → is_some (Store.get_fault r.fault_id (before_execute draw r n).store)
        ≡ is_some (Store.get_fault r.fault_id n.store)
  known-before n = rw fault-before (ground (arith, eq_iff r.fault_id r.fault_id))

  -- From a consistent store, a run leaves every asset as it was, but for the one that it is given:
  -- that one is healthy with no fault link at the end exactly when `execute_fn` confirms and the
  -- fault event is there. The store stays consistent.
  pub run_asset :
      (execute_fn : String → String → List String → Reply) (n : Node) (j : String)
      → IsConsistent n.store
      → (Store.get_asset j (run draw r execute_fn n).1.store ≡ (
          if confirms (execute_fn r.fault_id r.token r.step_ids)
          then returned_asset n.store j
          else Store.get_asset j n.store))
        × IsConsistent (run draw r execute_fn n).1.store
  unfolding run
  run_asset execute_fn n j h =
      let ready = IsConsistent-before n h in
      let reply = execute_fn r.fault_id r.token r.step_ids in
      (
        asset-after reply (before_execute draw r n) j ready
            ∙ rw (known-before, asset-before n j h) refl,
        IsConsistent-after reply (before_execute draw r n) ready,
      )

  pub run_confirmed :
      (execute_fn : String → String → List String → Reply) (n : Node) (evt : FaultEvent)
      (asset : AssetRecord)
      → IsConsistent n.store
      → Store.get_fault r.fault_id n.store ≡ some evt
      → Store.get_asset r.asset_id n.store ≡ some asset
      → r.asset_id ≢ ""
      → confirms (execute_fn r.fault_id r.token r.step_ids) ≡ true
      → (Store.get_fault r.fault_id (run draw r execute_fn n).1.store
          ≡ some (with_status resolved evt))
        × (Store.get_asset r.asset_id (run draw r execute_fn n).1.store ≡ some (healed asset))
  run_confirmed execute_fn n evt asset h found there named confirmed = (
    run_fault execute_fn n r.fault_id ∙ rw (confirmed, found, eq_refl) refl,
    (run_asset execute_fn n r.asset_id h).0
        ∙ rw (confirmed, found, there, eq_refl) (ground (arith, eq_iff r.asset_id "")),
  )
