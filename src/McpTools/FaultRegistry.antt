-- ===== src/McpTools/FaultRegistry.antt =====
-- services/mcp_tools/fault_registry.py: which remediation steps a fault event allows.
use nemoclaw_lab_cl.Base.{String, Option, List, []}
use nemoclaw_lab_cl.Base.Dict.{Dict, get, put}

pub record FaultEventRecord : Type 0 where
  pub fault_event_id : String
  pub asset_id : String
  pub scenario_id : String
  pub allowed_step_ids : List String

pub record FaultEventRegistry : Type 0 where
  pub records : Dict FaultEventRecord

unfoldable pub register :
    String → String → String → List String → FaultEventRegistry → FaultEventRegistry
register fault_event_id asset_id scenario_id allowed_step_ids reg = record {
  records =
      put fault_event_id
        (record {
          fault_event_id = fault_event_id;
          asset_id = asset_id;
          scenario_id = scenario_id;
          allowed_step_ids = allowed_step_ids;
        })
        reg.records;
}

unfoldable pub get_record : String → FaultEventRegistry → Option FaultEventRecord
get_record fault_event_id reg = get fault_event_id reg.records

unfoldable pub clear : FaultEventRegistry → FaultEventRegistry
clear reg = record { records = [] }
