-- ===== src/Simulator/Control.antt =====
-- services/simulator/control.py: the control API. `repr` is Python's quoting of a text and
-- `isoformat` the rendering of a `datetime`; `str` of a `KeyError` is the `repr` of its message.
use nemoclaw_lab_cl.Base.{String, [], ◌∷◌, Result, ok, err}
use nemoclaw_lab_cl.Base.Dict.{Dict}
use nemoclaw_lab_cl.Base.Http.{HttpError}
use nemoclaw_lab_cl.Base.Text.{text}
use nemoclaw_lab_cl.Models.{Timestamp}
use nemoclaw_lab_cl.Simulator.Engine
use nemoclaw_lab_cl.Simulator.Engine.{InjectedFault, SimulatorEngine, Unknown, asset, scenario}

pub record InjectRequest : Type 0 where
  pub asset_id : String
  pub scenario_id : String

pub record InjectResponse : Type 0 where
  pub asset_id : String
  pub scenario_id : String
  pub fault_type : String
  pub injected_at : String

pub record ClearRequest : Type 0 where
  pub asset_id : String

pub record StateResponse : Type 0 where
  pub states : Dict String

module _ (repr : String → String) where
  message : Unknown → String
  message (asset a) = text ("Unknown asset: " ∷ repr a ∷ [])
  message (scenario s) = text ("Unknown scenario: " ∷ repr s ∷ [])

  not_known : Unknown → HttpError
  not_known u = record { status_code = 404; detail = repr (message u) }

  inject_answer :
      (Timestamp → String)
      → Result Unknown InjectedFault × SimulatorEngine
      → Result HttpError InjectResponse × SimulatorEngine
  inject_answer isoformat (err u, e) = (err (not_known u), e)
  inject_answer isoformat (ok fault, e) = (
    ok (record {
      asset_id = fault.asset_id;
      scenario_id = fault.scenario_id;
      fault_type = fault.fault_type;
      injected_at = isoformat fault.injected_at;
    }),
    e,
  )

  unfoldable pub inject_fault :
      (Timestamp → String)
      → Timestamp
      → InjectRequest
      → SimulatorEngine
      → Result HttpError InjectResponse × SimulatorEngine
  unfolding inject_answer not_known message
  inject_fault isoformat now body e =
      inject_answer isoformat (Engine.inject body.asset_id body.scenario_id now e)

  clear_answer :
      ClearRequest
      → Result Unknown (Unit {0}) × SimulatorEngine
      → Result HttpError (Dict String) × SimulatorEngine
  clear_answer body (err u, e) = (err (not_known u), e)
  clear_answer body (ok done, e) = (ok (("asset_id", body.asset_id) ∷ ("state", "healthy") ∷ []), e)

  unfoldable pub clear_fault :
      ClearRequest → SimulatorEngine → Result HttpError (Dict String) × SimulatorEngine
  unfolding clear_answer not_known message
  clear_fault body e = clear_answer body (Engine.clear body.asset_id e)

unfoldable pub get_state : SimulatorEngine → StateResponse
get_state e = record { states = Engine.all_states e }
