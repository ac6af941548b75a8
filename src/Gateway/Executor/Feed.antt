-- ===== src/Gateway/Executor/Feed.antt =====
-- services/gateway/executor.py: the activity feed is only ever extended, and by how much.
use mathlib.Core.List.{append_assoc, append-nil}
use nemoclaw_lab_cl.Base.{
  ℕ, ◌+◌, ◌*◌, String, Option, none, some, List, [], ◌∷◌, ◌++◌, ◌==◌, if◌then◌else◌, ◌≡◌, refl, ◌∙◌,
  sym, ap, arith, length, length-append, All, All-append, Bool-cases, inl, inr,
}
use nemoclaw_lab_cl.Base.Dict.{Dict}
use nemoclaw_lab_cl.Models.{
  Timestamp, FaultEvent, FaultEventStatus, ActivityEvent, resolved, remediating,
}
use nemoclaw_lab_cl.Gateway.Store
use nemoclaw_lab_cl.Gateway.Store.{GatewayStore}
use nemoclaw_lab_cl.Gateway.Executor.{
  Node, Started, Reply, returned, raised, set_status, opening, step_lines, narrate, narrate_all,
  before_execute, succeeded, after_execute, run, heal, heal_found, status_written,
}
use nemoclaw_lab_cl.Gateway.Executor.Outcome.{confirms}
use nemoclaw_lab_cl.Gateway.Store.Laws.{rest-update_fault_status}

-- `s'` has the feed of `s` and `k` more entries, all about the fault event `f`
pub record Extends (f : String) (k : ℕ) (s s' : GatewayStore) : Type 0 where
  pub added : List ActivityEvent
  pub feed : s'.activity_events ≡ s.activity_events ++ added
  pub count : length added ≡ k
  pub about : All (λ e. e.fault_event_id ≡ f) added

module _ {f : String} where
  Extends-trans :
      {k m c : ℕ} {s t u : GatewayStore}
      → k + m ≡ c
      → Extends f k s t
      → Extends f m t u
      → Extends f c s u
  Extends-trans {s} e a b = record {
    added = a.added ++ b.added;
    feed = b.feed ∙ ap (λ l. l ++ b.added) a.feed ∙ append_assoc s.activity_events a.added b.added;
    count = omega (arith, length-append a.added b.added, a.count, b.count, e);
    about = All-append (λ e. e.fault_event_id ≡ f) a.added b.added a.about b.about;
  }

  Extends-same : {s t : GatewayStore} → t.activity_events ≡ s.activity_events → Extends f 0 s t
  Extends-same {s} e = record {
    added = [];
    feed = e ∙ sym (append-nil s.activity_events);
    count = refl;
    about = tt;
  }

feed-status_written :
    (status : FaultEventStatus) (asset_id : String) (o : Option FaultEvent) (s : GatewayStore)
    → (status_written status asset_id (o, s)).activity_events ≡ s.activity_events
unfolding status_written heal heal_found Store.publish Store.set_asset
feed-status_written status asset_id none s = refl
feed-status_written status asset_id (some e) s = ground arith

Extends-set_status :
    (f asset_id : String) (status : FaultEventStatus) (s : GatewayStore)
    → Extends f 0 s (set_status f asset_id status s)
unfolding set_status
Extends-set_status f asset_id status s = Extends-same (
    feed-status_written status asset_id (Store.update_fault_status f status s).0 _
    ∙ (rest-update_fault_status f status s).activity_events)

module _ (draw : ℕ → String × Timestamp) where
  Extends-narrate :
      (f step message : String) (n : Node)
      → Extends f 1 n.store (narrate draw f step message n).store
  unfolding narrate Store.create_activity Store.publish
  Extends-narrate f step message n = record {
    added = (Store.create_activity (draw n.drawn).0 (draw n.drawn).1 f step message n.store).0 ∷ [];
    feed = refl;
    count = refl;
    about = (refl, tt);
  }

  Extends-narrate_all :
      (f : String) (lines : List String) (n : Node)
      → Extends f (length lines) n.store (narrate_all draw f lines n).store
  unfolding narrate_all
  Extends-narrate_all f [] n = Extends-same refl
  Extends-narrate_all f (line ∷ lines) n =
      Extends-trans (omega arith) (Extends-narrate f "remediate" line n)
        (Extends-narrate_all f lines (narrate draw f "remediate" line n))

length-step_lines :
    (labels : Dict String) (steps : List String)
    → length (step_lines labels steps) ≡ 2 * length steps
unfolding step_lines
length-step_lines labels [] = refl
length-step_lines labels (s ∷ steps) = omega (arith, length-step_lines labels steps)

length-opening : (r : Started) → length (opening r) ≡ 2 + 2 * length r.step_ids
unfolding opening
length-opening r = omega (arith, length-step_lines r.step_labels r.step_ids)

module _ (draw : ℕ → String × Timestamp) (r : Started) where
  Extends-before :
      (n : Node)
      → Extends r.fault_id (2 + 2 * length r.step_ids) n.store (before_execute draw r n).store
  unfolding before_execute
  Extends-before n =
      Extends-trans (omega (arith, length-opening r))
        (Extends-set_status r.fault_id r.asset_id remediating n.store)
        (Extends-narrate_all draw r.fault_id (opening r)
          (record n { store = set_status r.fault_id r.asset_id remediating n.store }))

  Extends-succeeded : (n : Node) → Extends r.fault_id 2 n.store (succeeded draw r n).store
  unfolding succeeded
  Extends-succeeded n =
      Extends-trans {m = 1} refl (Extends-narrate draw r.fault_id "remediate" _ n) (
        Extends-trans {m = 1} refl (Extends-set_status r.fault_id r.asset_id resolved _)
          (Extends-narrate draw r.fault_id "resolved" _ _))

  Extends-after :
      (reply : Reply) (n : Node)
      → Extends r.fault_id
          (if confirms reply then 2 else 1)
          n.store
          (after_execute draw r reply n).1.store
  unfolding after_execute
  Extends-after (returned none error) n = Extends-narrate draw r.fault_id "remediate" _ n
  Extends-after (returned (some status) error) n = elim (Bool-cases (status == "resolved")) [
    | inl e ↦ rw e (Extends-succeeded n)
    | inr e ↦ rw e (Extends-narrate draw r.fault_id "remediate" _ n)
  ]
  Extends-after raised n = Extends-narrate draw r.fault_id "remediate" _ n

  -- A run keeps the feed that was there and adds to its end, all about the approved fault event:
  -- two lines, two more for each step, and two at the end if `execute_fn` confirms, else one.
  pub run_feed :
      (execute_fn : String → String → List String → Reply) (n : Node)
      → Extends r.fault_id
          (2
            + 2 * length r.step_ids
            + (if confirms (execute_fn r.fault_id r.token r.step_ids) then 2 else 1))
          n.store
          (run draw r execute_fn n).1.store
  unfolding run
  run_feed execute_fn n =
      Extends-trans refl (Extends-before n)
        (Extends-after (execute_fn r.fault_id r.token r.step_ids) (before_execute draw r n))
