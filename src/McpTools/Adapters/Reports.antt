-- ===== src/McpTools/Adapters/Reports.antt =====
-- services/mcp_tools/adapters/generic.py over services/simulator/surfaces/generic.py: the agent sees
-- the simulator's state.
use nemoclaw_lab_cl.Base.{String, Option, [], ◌∷◌, ok, map, ◌≡◌, refl}
use nemoclaw_lab_cl.Base.Dict.{Dict, get}
use nemoclaw_lab_cl.Simulator.Engine
use nemoclaw_lab_cl.Simulator.Engine.{SimulatorEngine, InjectedFault, states, state_of}
use nemoclaw_lab_cl.Simulator.Generic
use nemoclaw_lab_cl.McpTools.Adapters.{MonitorAsset, list_assets, asset_of, get_or}

-- how the engine itself describes one of its entries
abbrev pub shown : SimulatorEngine → String × Option InjectedFault → MonitorAsset
shown e (aid, fault) = record { id = aid; type = Engine.asset_type aid e; state = state_of fault }

list_assets-states :
    (e : SimulatorEngine) (d : Dict (Option InjectedFault))
    → list_assets (map (Generic.asset_json e) (states d)) ≡ ok (map (shown e) d)
unfolding list_assets asset_of get_or states Generic.asset_json get
list_assets-states e [] = refl
list_assets-states e ((aid, fault) ∷ d) = rw (list_assets-states e d) refl

-- Reading the simulator's asset list through the adapter never fails and lists every asset of the
-- engine, in the engine's order, with its type and its state.
pub adapter_reports_engine :
    (e : SimulatorEngine) → list_assets (Generic.list_assets e) ≡ ok (map (shown e) e.faults)
unfolding Generic.list_assets Engine.all_states
adapter_reports_engine e = list_assets-states e e.faults
