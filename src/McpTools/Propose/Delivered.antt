-- ===== src/McpTools/Propose/Delivered.antt =====
-- services/mcp_tools/tools/remediation.py: what one call of a proposal does to the Gateway's store,
-- however it goes.
use mathlib.Core.Option
use nemoclaw_lab_cl.Base.{
  ℕ, String, Bool, true, false, Option, none, some, ◌==◌, if◌then◌else◌, Result, ok, err, is_some,
  ◌≡◌, refl, ap,
}
use nemoclaw_lab_cl.Base.Http.{HttpError, Delivery, handled}
use nemoclaw_lab_cl.Models.{FaultEvent}
use nemoclaw_lab_cl.Gateway.Store
use nemoclaw_lab_cl.Gateway.Store.{GatewayStore}
use nemoclaw_lab_cl.McpTools.Propose.{code_of, delivered}

-- a call whose answer arrives
abbrev pub returns : Delivery → Bool
returns Delivery.answered = true
returns Delivery.rejected = true
returns _ = false

pub code_of-store : {A : Type 0} (r : Result HttpError A × GatewayStore) → (code_of r).1 ≡ r.1
code_of-store (ok a, s) = refl
code_of-store (err e, s) = refl

pub unchanged :
    (same : Bool) (o : Option FaultEvent) → o ≡ (if same then Option.map (λ evt. evt) o else o)
unchanged true none = refl
unchanged true (some evt) = refl
unchanged false o = refl

pub delivered-some :
    (d : Delivery) (rejection : ℕ) (call : GatewayStore → ℕ × GatewayStore) (s : GatewayStore)
    → is_some (delivered d rejection call s).0 ≡ returns d
unfolding delivered
delivered-some Delivery.answered rejection call s = refl
delivered-some Delivery.rejected rejection call s = refl
delivered-some Delivery.lost rejection call s = refl
delivered-some Delivery.unanswered rejection call s = refl

-- a call that would change the fault event `f` by `g`, however it goes
pub get_fault-delivered :
    (f j : String) (g : FaultEvent → FaultEvent) (d : Delivery) (rejection : ℕ)
    (call : GatewayStore → ℕ × GatewayStore) (s : GatewayStore)
    → Store.get_fault j (call s).1
      ≡ (if f == j then Option.map g (Store.get_fault j s) else Store.get_fault j s)
    → Store.get_fault j (delivered d rejection call s).1 ≡ (
        if f == j
        then Option.map (λ evt. if handled d then g evt else evt) (Store.get_fault j s)
        else Store.get_fault j s)
unfolding delivered handled
get_fault-delivered f j g Delivery.answered rejection call s e = e
get_fault-delivered f j g Delivery.unanswered rejection call s e = e
get_fault-delivered f j g Delivery.rejected rejection call s e =
    unchanged (f == j) (Store.get_fault j s)
get_fault-delivered f j g Delivery.lost rejection call s e =
    unchanged (f == j) (Store.get_fault j s)

pub get_asset-delivered :
    (j : String) (d : Delivery) (rejection : ℕ) (call : GatewayStore → ℕ × GatewayStore)
    (s : GatewayStore)
    → Store.get_asset j (call s).1 ≡ Store.get_asset j s
    → Store.get_asset j (delivered d rejection call s).1 ≡ Store.get_asset j s
unfolding delivered
get_asset-delivered j Delivery.answered rejection call s e = e
get_asset-delivered j Delivery.unanswered rejection call s e = e
get_asset-delivered j Delivery.rejected rejection call s e = refl
get_asset-delivered j Delivery.lost rejection call s e = refl

pub map_if :
    (b : Bool) (g h : FaultEvent → FaultEvent)
    → ((evt : FaultEvent) → g evt ≡ h evt)
    → (o : Option FaultEvent)
    → (if b then Option.map g o else o) ≡ (if b then Option.map h o else o)
map_if false g h e o = refl
map_if true g h e none = refl
map_if true g h e (some evt) = ap some (e evt)

pub settle :
    (reached same : Bool) (mark analyse : FaultEvent → FaultEvent) (o : Option FaultEvent)
    → (if reached
        then (if same
            then Option.map mark (if same then Option.map analyse o else o)
            else (if same then Option.map analyse o else o))
        else (if same then Option.map analyse o else o))
      ≡ (if same
          then Option.map (λ evt. if reached then mark (analyse evt) else analyse evt) o
          else o)
settle true true mark analyse none = refl
settle true true mark analyse (some evt) = refl
settle true false mark analyse o = refl
settle false true mark analyse o = refl
settle false false mark analyse o = refl
