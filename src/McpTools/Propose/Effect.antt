-- ===== src/McpTools/Propose/Effect.antt =====
-- services/mcp_tools/tools/remediation.py: what a proposal can and cannot change.
use mathlib.Core.Option
use nemoclaw_lab_cl.Base.{ℕ, String, Bool, Option, List, ◌==◌, ◌||◌, if◌then◌else◌, is_some, ◌≡◌}
use nemoclaw_lab_cl.Base.Http.{handled}
use nemoclaw_lab_cl.Models.{Timestamp, FaultEvent, awaiting_approval}
use nemoclaw_lab_cl.Gateway.Store
use nemoclaw_lab_cl.Gateway.Store.{GatewayStore, with_status, assign_all}
use nemoclaw_lab_cl.Gateway.Faults.{dump_given}
use nemoclaw_lab_cl.McpTools.Propose.Delivered.{returns}
use nemoclaw_lab_cl.McpTools.Propose.{Target, Calls, analysis_only, awaiting}

-- the fault event with the summary's first 1000 characters as its analysis, if the summary is not
-- empty and its call is handled
abbrev pub analysed : Calls → String → FaultEvent → FaultEvent
analysed calls summary evt =
    if summary == ""
    then evt
    else if handled calls.diagnosing
    then assign_all (dump_given (analysis_only summary)) evt
    else evt

-- the second call is made
abbrev pub goes_on : Calls → String → Bool
goes_on calls summary = summary == "" || returns calls.diagnosing

abbrev pub marked : Calls → FaultEvent → FaultEvent
marked calls evt = if handled calls.recording then with_status awaiting_approval evt else evt

abbrev pub proposed : Calls → String → FaultEvent → FaultEvent
proposed calls summary evt =
    if goes_on calls summary
    then marked calls (analysed calls summary evt)
    else analysed calls summary evt

module _ (routed : String → Target) (calls : Calls) (f : String) (steps : List String)
    (summary id : String) (now : Timestamp) where
  abbrev Same : GatewayStore → GatewayStore → Type 0
  Same s t = (t.fault_events ≡ s.fault_events) × (t.assets ≡ s.assets)

  abbrev chosen : Option ℕ × GatewayStore → GatewayStore
  chosen x = if is_some x.0 then (awaiting routed calls f steps summary id now x.1).1 else x.1
