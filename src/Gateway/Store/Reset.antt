-- ===== src/Gateway/Store/Reset.antt =====
-- services/gateway/store.py: `reset` clears the demo and returns every asset to healthy.
use nemoclaw_lab_cl.Base.{
  String, true, Option, none, some, [], ◌∷◌, Option-cases, inl, inr, ◌≡◌, refl, arith, eq_iff,
  false,
}
use nemoclaw_lab_cl.Base.Dict.{
  Dict, get, put, contains, get-put, contains-get, contains-put, Each, Each-put,
}
use nemoclaw_lab_cl.Models.{healthy, FaultEvent}
use nemoclaw_lab_cl.Gateway.Store.{AssetRecord, GatewayStore, healed, heal_each, publish, reset}
use nemoclaw_lab_cl.Gateway.Store.Invariant.{IsConsistent, is_linked}

abbrev pub IsHealed : Option AssetRecord → Type 0
IsHealed none = Unit {0}
IsHealed (some a) = (a.state ≡ healthy) × (a.active_fault_event_id ≡ none)

-- an entry that is healed, or whose key the loop has yet to visit, is healed at the end
heal_each-IsHealed :
    (j : String) (items d : Dict AssetRecord)
    → ((contains j items ≡ false) → IsHealed (get j d))
    → IsHealed (get j (heal_each items d))
unfolding heal_each contains
heal_each-IsHealed j [] d h = h refl
heal_each-IsHealed j ((k, a) ∷ items) d h =
    heal_each-IsHealed j items (put k (healed a) d)
      λ rest. ground (arith, get-put k j (healed a) d, eq_iff k j, h)

-- the loop adds no key and loses none
contains-heal_each :
    (j : String) (items d : Dict AssetRecord)
    → ((contains j items ≡ true) → contains j d ≡ true)
    → contains j (heal_each items d) ≡ contains j d
unfolding heal_each contains
contains-heal_each j [] d h = refl
contains-heal_each j ((k, a) ∷ items) d h = ground (
  arith,
  contains-heal_each j items (put k (healed a) d)
      (λ m. ground (arith, contains-put k j (healed a) d, h)),
  contains-put k j (healed a) d,
  eq_iff k j,
  h,
)

key-heal_each :
    (items d : Dict AssetRecord)
    → Each (λ k a. a.id ≡ k) items
    → Each (λ k a. a.id ≡ k) d
    → Each (λ k a. a.id ≡ k) (heal_each items d)
unfolding heal_each
key-heal_each [] d hi hd = hd
key-heal_each ((k, a) ∷ items) d (e, hi) hd =
    key-heal_each items (put k (healed a) d) hi (Each-put (λ k a. a.id ≡ k) k (healed a) d e hd)

absent-IsHealed : (k : String) (d : Dict AssetRecord) → contains k d ≡ false → IsHealed (get k d)
absent-IsHealed k d h = elim (Option-cases (get k d)) [
  | inl e ↦ rw e tt
  | inr (a, e) ↦ absurd (ground (arith, contains-get k d))
]

-- After a reset there is no fault event, notification, activity or pending token; the assets are
-- those that were there, and each is healthy with no fault link.
pub reset_clean :
    (s : GatewayStore) (k : String)
    → ((reset s).fault_events ≡ [])
      × ((reset s).notifications ≡ [])
      × ((reset s).activity_events ≡ [])
      × ((reset s).pending_tokens ≡ [])
      × (contains k (reset s).assets ≡ contains k s.assets)
      × IsHealed (get k (reset s).assets)
unfolding reset publish
reset_clean s k = (
  refl,
  refl,
  refl,
  refl,
  contains-heal_each k s.assets s.assets (λ m. m),
  heal_each-IsHealed k s.assets s.assets (absent-IsHealed k s.assets),
)

IsHealed-linked :
    (faults : Dict FaultEvent) (a : AssetRecord) (o : Option AssetRecord)
    → o ≡ some a
    → IsHealed o
    → is_linked faults a ≡ true
IsHealed-linked faults a none e h = cc
IsHealed-linked faults a (some b) e h = ground arith

pub IsConsistent-reset : {s : GatewayStore} → IsConsistent s → IsConsistent (reset s)
unfolding reset publish get
IsConsistent-reset {s} h = record {
  fault_key = λ k e p. cc;
  asset_key = key-heal_each s.assets s.assets h.asset_key h.asset_key;
  asset_link = λ k a p.
      IsHealed-linked [] a (get k (heal_each s.assets s.assets)) p
        (heal_each-IsHealed k s.assets s.assets (absent-IsHealed k s.assets));
  notified = λ k n p. cc;
}
