-- ===== src/McpTools/Remediation/Security.antt =====
-- services/mcp_tools/tools/remediation.py: the checks SEC-01 to SEC-05 of `remediation_execute`.
use nemoclaw_lab_cl.Base.{
  String, Bool, true, false, Option, none, some, List, [], ◌∷◌, not, elem, keep, All, ◌≡◌, ◌≢◌, ◌↔◌,
  refl, arith, eq_iff, ok, err, is_ok, Result-cases, bind-eq-ok, guard-eq-ok, or_raise-eq-ok, inl,
  inr,
}
use nemoclaw_lab_cl.Models.{ApprovalToken, ApprovalDecision, approved, is_approved}
use nemoclaw_lab_cl.McpTools.TokenStore
use nemoclaw_lab_cl.McpTools.TokenStore.{ApprovalTokenStore}
use nemoclaw_lab_cl.McpTools.FaultRegistry
use nemoclaw_lab_cl.McpTools.FaultRegistry.{FaultEventRegistry, FaultEventRecord}
use nemoclaw_lab_cl.McpTools.Remediation.{
  RemediationError, Call, Pending, required, check_steps, validate, finish, finish_valid,
  remediation_execute,
}

-- What the documentation asks of a call that may go ahead.
pub record Authorised (c : Call) (ts : ApprovalTokenStore) (reg : FaultEventRegistry)
    (asset_id : String) : Type 0 where
  pub token_str : String
  pub presented : c.approval_token ≡ some token_str
  pub non_empty : token_str ≢ ""
  pub token : ApprovalToken
  pub stored : TokenStore.get_token token_str ts ≡ some token
  pub bound : token.fault_event_id ≡ c.fault_event_id
  pub approves : token.decision ≡ approved
  pub unused : token.consumed ≡ false
  pub rec : FaultEventRecord
  pub registered : FaultRegistry.get_record c.fault_event_id reg ≡ some rec
  pub target : rec.asset_id ≡ asset_id
  pub allowed : All (λ s. elem s rec.allowed_step_ids ≡ true) c.step_ids

keep-not-eq-nil :
    (p : String → Bool) (xs : List String)
    → keep (λ s. not (p s)) xs ≡ []
    → All (λ s. p s ≡ true) xs
unfolding keep
keep-not-eq-nil p [] h = tt
keep-not-eq-nil p (x ∷ xs) h = ground (arith, keep-not-eq-nil p xs)

keep-not-of-All :
    (p : String → Bool) (xs : List String)
    → All (λ s. p s ≡ true) xs
    → keep (λ s. not (p s)) xs ≡ []
unfolding keep
keep-not-of-All p [] h = refl
keep-not-of-All p (x ∷ xs) (e, h) = ground (arith, keep-not-of-All p xs h)

eq-approved : (d : ApprovalDecision) → is_approved d ≡ true → d ≡ approved
unfolding is_approved
eq-approved approved h = refl
eq-approved ApprovalDecision.denied h = cc

required-eq-ok : (o : Option String) {s : String} → required o ≡ ok s → (o ≡ some s) × (s ≢ "")
unfolding required
required-eq-ok none h = cc
required-eq-ok (some t) h = ground (arith, eq_iff t "")

check_steps-eq-ok : (steps : List String) {u : Unit} → check_steps steps ≡ ok u → steps ≡ []
unfolding check_steps
check_steps-eq-ok [] h = refl
check_steps-eq-ok (s ∷ rest) h = cc

not-eq-true : (b : Bool) → not b ≡ true → b ≡ false
not-eq-true true h = cc
not-eq-true false h = refl

-- `validate` accepts only what is authorised, and then aims at the asset of the registered record.
pub validate_sound :
    (c : Call) (ts : ApprovalTokenStore) (reg : FaultEventRegistry) (p : Pending)
    → validate c ts reg ≡ ok p
    → Authorised c ts reg p.asset_id × (p.call ≡ c) × (c.approval_token ≡ some p.token_str)
unfolding validate
validate_sound c ts reg p h =
    let (token_str, h1, k1) = bind-eq-ok _ _ h in
    let (token, h2, k2) = bind-eq-ok _ _ k1 in
    let (_, h3, k3) = bind-eq-ok _ _ k2 in
    let (_, h4, k4) = bind-eq-ok _ _ k3 in
    let (_, h5, k5) = bind-eq-ok _ _ k4 in
    let (rec, h6, k6) = bind-eq-ok _ _ k5 in
    let (_, h7, k7) = bind-eq-ok _ _ k6 in
    let (presented, non_empty) = required-eq-ok _ h1 in
    (
      record {
        token_str = token_str;
        presented = presented;
        non_empty = non_empty;
        token = token;
        stored = or_raise-eq-ok _ _ h2;
        bound = (eq_iff _ _).0 (guard-eq-ok _ _ h3);
        approves = eq-approved _ (guard-eq-ok _ _ h4);
        unused = not-eq-true _ (guard-eq-ok _ _ h5);
        rec = rec;
        registered = or_raise-eq-ok _ _ h6;
        target = cc k7;
        allowed = keep-not-eq-nil _ _ (check_steps-eq-ok _ h7);
      },
      cc k7,
      cc (k7, presented),
    )

validate_complete :
    (c : Call) (ts : ApprovalTokenStore) (reg : FaultEventRegistry) (asset_id : String)
    (a : Authorised c ts reg asset_id)
    → validate c ts reg ≡ ok (record { call = c; token_str = a.token_str; asset_id = asset_id })
unfolding validate required is_approved check_steps
validate_complete c ts reg asset_id a = ground (
  arith,
  eq_iff a.token_str "",
  eq_iff a.token.fault_event_id c.fault_event_id,
  keep-not-of-All (λ s. elem s a.rec.allowed_step_ids) c.step_ids a.allowed,
)

-- A call resolves exactly when it is authorised (a non-empty token that is stored, bound to the
-- call's fault event, approved and not yet consumed; a registered fault event; every step in its
-- allowlist) and the Simulator confirms the clear of the registered asset.
pub resolves_iff :
    (c : Call) (clear_fn : String → Bool) (ts : ApprovalTokenStore) (reg : FaultEventRegistry)
    → (is_ok (remediation_execute c clear_fn ts reg).0 ≡ true)
      ↔ ((asset_id : String) × Authorised c ts reg asset_id × (clear_fn asset_id ≡ true))
unfolding finish finish_valid remediation_execute
resolves_iff c clear_fn ts reg = (
  λ h. elim (Result-cases (validate c ts reg)) [
    | inl (p, e) ↦ (p.asset_id, (validate_sound c ts reg p e).0, ground (arith, e))
    | inr (x, e) ↦ absurd (ground (arith, e))
  ],
  λ (asset_id, a, cleared).
      rw (validate_complete c ts reg asset_id a, finish_valid) (ground (arith, cleared)),
)

-- A call that is refused, or whose clear fails, leaves every token as it was.
pub refused_unchanged :
    (c : Call) (clear_fn : String → Bool) (ts : ApprovalTokenStore) (reg : FaultEventRegistry)
    (e : RemediationError)
    → (remediation_execute c clear_fn ts reg).0 ≡ err e
    → (remediation_execute c clear_fn ts reg).1 ≡ ts
unfolding finish finish_valid remediation_execute
refused_unchanged c clear_fn ts reg e h = elim (Result-cases (validate c ts reg)) [
  | inl (p, v) ↦ ground (arith, v)
  | inr (x, v) ↦ ground (arith, v)
]
