-- ===== src/Simulator/Engine.antt =====
-- services/simulator/engine.py: which assets exist, and the fault that is active on each.
pub mod Laws
use nemoclaw_lab_cl.Base.{
  String, Bool, true, false, Option, none, some, List, [], ◌∷◌, map, Result, ok, err, is_some,
  if◌then◌else◌,
}
use nemoclaw_lab_cl.Base.Dict.{Dict, get, put, contains, keys}
use nemoclaw_lab_cl.Models.{Timestamp, Scenario, EmitLogEntry, PackAsset, SimulatorAsset}
use nemoclaw_lab_cl.Packs.{LoadedPack}

pub record InjectedFault : Type 0 where
  pub scenario_id : String
  pub asset_id : String
  pub fault_type : String
  pub injected_at : Timestamp
  pub event_severity : String
  pub event_message_id : String
  pub log_entries : List (String × String)

pub record SimulatorEngine : Type 0 where
  pub scenarios : Dict Scenario
  pub faults : Dict (Option InjectedFault)
  pub asset_types : Dict String

-- the `KeyError`s
pub data Unknown : Type 0 where
  asset scenario : String → Unknown

-- the dict comprehensions of `__init__`: a repeated id keeps its place and takes the later value
scenarios_by_id : Dict Scenario → List Scenario → Dict Scenario
scenarios_by_id d [] = d
scenarios_by_id d (s ∷ ss) = scenarios_by_id (put s.id s d) ss

no_faults : Dict (Option InjectedFault) → List PackAsset → Dict (Option InjectedFault)
no_faults d [] = d
no_faults d (a ∷ rest) = no_faults (put a.id none d) rest

types_by_id : Dict String → List SimulatorAsset → Dict String
types_by_id d [] = d
types_by_id d (a ∷ rest) = types_by_id (put a.id a.type d) rest

unfoldable pub created : LoadedPack → SimulatorEngine
unfolding scenarios_by_id no_faults types_by_id
created loaded = record {
  scenarios = scenarios_by_id [] loaded.scenarios;
  faults = no_faults [] loaded.pack.assets;
  asset_types = types_by_id [] loaded.simulator_profile.assets;
}

unfoldable pub asset_ids : SimulatorEngine → List String
asset_ids e = keys e.faults

abbrev pub or_default : String → Option String → String
or_default d none = d
or_default d (some x) = x

unfoldable pub asset_type : String → SimulatorEngine → String
asset_type asset_id e = or_default "unknown" (get asset_id e.asset_types)

-- an absent key and a `None` read the same through `dict.get`
abbrev pub flat {ℓ} : {A : Type ℓ} → Option (Option A) → Option A
flat none = none
flat (some o) = o

unfoldable pub get_fault : String → SimulatorEngine → Option InjectedFault
get_fault asset_id e = flat (get asset_id e.faults)

unfoldable pub is_faulted : String → SimulatorEngine → Bool
is_faulted asset_id e = is_some (get_fault asset_id e)

abbrev pub state_of : Option InjectedFault → String
state_of none = "healthy"
state_of (some fault) = "faulted"

unfoldable pub states : Dict (Option InjectedFault) → Dict String
states [] = []
states ((aid, fault) ∷ d) = (aid, state_of fault) ∷ states d

unfoldable pub all_states : SimulatorEngine → Dict String
unfolding states
all_states e = states e.faults

unfoldable pub known_scenario_ids : SimulatorEngine → List String
known_scenario_ids e = keys e.scenarios

abbrev pair_of : EmitLogEntry → String × String
pair_of entry = (entry.severity, entry.message)

unfoldable pub fault_of : String → String → Timestamp → Scenario → InjectedFault
fault_of asset_id scenario_id now s = record {
  scenario_id = scenario_id;
  asset_id = asset_id;
  fault_type = s.fault_type;
  injected_at = now;
  event_severity = s.emit.event.severity;
  event_message_id = s.emit.event.message_id;
  log_entries = map pair_of s.emit.log_entries;
}

abbrev pub with_fault : String → Option InjectedFault → SimulatorEngine → SimulatorEngine
with_fault asset_id fault e = record {
  scenarios = e.scenarios;
  faults = put asset_id fault e.faults;
  asset_types = e.asset_types;
}

inject_found :
    String
    → String
    → Timestamp
    → Option Scenario
    → SimulatorEngine
    → Result Unknown InjectedFault × SimulatorEngine
inject_found asset_id scenario_id now none e = (err (scenario scenario_id), e)
inject_found asset_id scenario_id now (some s) e =
    let fault = fault_of asset_id scenario_id now s in
    (ok fault, with_fault asset_id (some fault) e)

unfoldable pub inject :
    String → String → Timestamp → SimulatorEngine → Result Unknown InjectedFault × SimulatorEngine
unfolding inject_found
inject asset_id scenario_id now e =
    if contains asset_id e.faults
    then inject_found asset_id scenario_id now (get scenario_id e.scenarios) e
    else (err (asset asset_id), e)

unfoldable pub clear : String → SimulatorEngine → Result Unknown (Unit {0}) × SimulatorEngine
clear asset_id e =
    if contains asset_id e.faults
    then (ok tt, with_fault asset_id none e)
    else (err (asset asset_id), e)
