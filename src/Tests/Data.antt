-- ===== src/Tests/Data.antt =====
-- A pack of two assets and two scenarios, and an approved fault event on the first asset.
use nemoclaw_lab_cl.Base.{String, false, none, some, [], ◌∷◌}
use nemoclaw_lab_cl.Models.{
  KbArticle, generic, grid, Scenario, active, ApprovalToken, approved, FaultEvent, FaultEventStatus,
  faulted,
}
use nemoclaw_lab_cl.Packs.{LoadedPack}
use nemoclaw_lab_cl.McpTools.Remediation.{Call}
use nemoclaw_lab_cl.McpTools.Server.{McpState}
use nemoclaw_lab_cl.Gateway.Sse
use nemoclaw_lab_cl.Gateway.Store.{GatewayStore, AssetRecord}

abbrev pub scenario_on : String → String → Scenario
scenario_on id target = record {
  id = id;
  pack_id = "lab";
  target_asset = target;
  fault_type = "hardware";
  emit = record { event = record { severity = "Critical"; message_id = "M1" }; log_entries = [] };
  log_bundle_ref = "logs";
  error_signatures = "Xid 79" ∷ [];
  kb_article_ref = "kb/reseat.md";
  remediation_steps = record { id = "reseat"; label = "Reseat the card" } ∷ [];
  impact = none;
  log_extract = none;
  status = active;
}

abbrev pub article : KbArticle
article = record {
  id = "reseat";
  pack_id = "lab";
  title = "Reseat";
  body_md = "# Reseat";
  remediation_step_ids = "reseat" ∷ [];
}

abbrev pub loaded : LoadedPack
loaded = record {
  pack = record {
    id = "lab";
    name = "Lab";
    asset_noun = record { singular = "node"; plural = "nodes" };
    fleet_label = "Fleet";
    monitoring_adapter = generic;
    theme = "dark";
    sentinel_name = "Sentinel";
    asset_image_url = none;
    asset_spec_label = none;
    fleet_layout = grid;
    assets =
        record { id = "node-1"; display_name = none; image_url = none }
        ∷ record { id = "node-2"; display_name = none; image_url = none }
        ∷ [];
  };
  scenarios = scenario_on "gpu" "node-1" ∷ scenario_on "power" "node-2" ∷ [];
  kb_articles = ("reseat", article) ∷ [];
  log_bundles = ("logs", "Xid 79") ∷ [];
  simulator_profile = record { pack_id = "lab"; assets = [] };
  signature_index = ("Xid 79", "reseat") ∷ [];
  scenarios_by_id =
      ("gpu", scenario_on "gpu" "node-1") ∷ ("power", scenario_on "power" "node-2") ∷ [];
}

abbrev pub token : ApprovalToken
token = record {
  token = "t1";
  fault_event_id = "f1";
  decision = approved;
  decided_by = "human";
  decided_at = 7;
  consumed = false;
}

abbrev pub mcp : McpState
mcp = record {
  token_store = record { tokens = ("t1", token) ∷ [] };
  fault_registry = record {
    records =
        (
          "f1",
          record {
            fault_event_id = "f1";
            asset_id = "node-1";
            scenario_id = "gpu";
            allowed_step_ids = "reseat" ∷ "reboot" ∷ [];
          },
        )
        ∷ [];
  };
}

abbrev pub call_with : String → Call
call_with step = record { fault_event_id = "f1"; approval_token = some "t1"; step_ids = step ∷ [] }

abbrev pub fault : FaultEvent
fault = record {
  id = "f1";
  scenario_id = "gpu";
  asset_id = "node-1";
  detected_at = 5;
  status = FaultEventStatus.detected;
  kb_article_id = none;
  log_extract = none;
  remediation_step_labels = [];
  error_signature = none;
  analysis = none;
  kb_title = none;
  kb_score = none;
  impact = none;
}

abbrev pub node_1 : AssetRecord
node_1 = record {
  id = "node-1";
  type = "server";
  state = faulted;
  active_fault_event_id = some "f1";
}

abbrev pub gateway : GatewayStore
gateway = record {
  fault_events = ("f1", fault) ∷ [];
  notifications = [];
  activity_events = [];
  assets = ("node-1", node_1) ∷ [];
  pending_tokens = [];
  sse = Sse.empty;
}
