-- ===== src/Simulator/Redfish/Power.antt =====
-- services/simulator/surfaces/redfish.py, the Chassis part: power supplies and what the chassis says
-- of them.
use nemoclaw_lab_cl.Base.{
  ℕ, suc, String, Bool, true, false, Option, none, some, List, [], ◌∷◌, map, ◌==◌, ◌&&◌, ◌||◌,
  if◌then◌else◌, ok, ◌>>◌, ◌=ℕ◌, ◌≡◌, refl,
}
use nemoclaw_lab_cl.Base.Json.{Json, str, dict, list, fields, at, lookup}
use nemoclaw_lab_cl.Base.Text.{text, decimal}
use nemoclaw_lab_cl.Simulator.Engine.{InjectedFault, SimulatorEngine, asset_ids, get_fault}
use nemoclaw_lab_cl.Simulator.Redfish.{Reply, link, collection, require_asset}

unfoldable pub chassis_url : String → String
chassis_url asset_id = text ("/redfish/v1/Chassis/" ∷ asset_id ∷ [])

unfoldable pub chassis_link : String → Json
unfolding chassis_url
chassis_link aid = dict (("@odata.id", str (chassis_url aid)) ∷ [])

unfoldable pub chassis_collection : SimulatorEngine → Json
unfolding collection chassis_link
chassis_collection e =
    collection "#ChassisCollection.ChassisCollection" "/redfish/v1/Chassis" "Chassis Collection"
      (map chassis_link (asset_ids e))

-- `fault and fault.fault_type == "psu_failure"`
unfoldable pub has_psu_failure : Option InjectedFault → Bool
has_psu_failure none = false
has_psu_failure (some fault) = fault.fault_type == "psu_failure"

unfoldable pub status_json : String → String → Json
status_json state health = dict (("State", str state) ∷ ("Health", str health) ∷ [])

unfoldable pub chassis_json : String → Option InjectedFault → Json
unfolding chassis_url link has_psu_failure status_json
chassis_json asset_id fault = dict (
    ("@odata.type", str "#Chassis.v1_16_0.Chassis")
    ∷ ("@odata.id", str (chassis_url asset_id))
    ∷ ("Id", str asset_id)
    ∷ ("Name", str asset_id)
    ∷ ("ChassisType", str "RackMount")
    ∷ ("Status", status_json "Enabled" (if has_psu_failure fault then "Critical" else "OK"))
    ∷ ("Power", link (chassis_url asset_id ∷ "/Power" ∷ []))
    ∷ [])

unfoldable pub get_chassis : (String → String) → String → SimulatorEngine → Reply
unfolding require_asset chassis_json
get_chassis repr asset_id e =
    require_asset repr asset_id e >> ok (chassis_json asset_id (get_fault asset_id e))

unfoldable pub psu_json : String → Option InjectedFault → ℕ → String → Json
unfolding chassis_url has_psu_failure status_json
psu_json asset_id fault idx name =
    let failed = has_psu_failure fault && idx =ℕ 1 in
    dict (
      ("@odata.id", str (text (chassis_url asset_id ∷ "/Power#/PowerSupplies/" ∷ decimal idx ∷ [])))
      ∷ ("MemberId", str (decimal idx))
      ∷ ("Name", str name)
      ∷ ("PowerSupplyType", str "AC")
      ∷ (
        "Status",
        status_json (if failed then "Absent" else "Enabled") (if failed then "Critical" else "OK"),
      )
      ∷ [])

-- the loop of `_build_psu_members`, from this index on
unfoldable pub psus_from : String → Option InjectedFault → ℕ → List String → List Json
unfolding psu_json
psus_from asset_id fault idx [] = []
psus_from asset_id fault idx (name ∷ names) =
    psu_json asset_id fault idx name ∷ psus_from asset_id fault (suc idx) names

unfoldable pub build_psu_members : String → Option InjectedFault → List Json
unfolding psus_from
build_psu_members asset_id fault =
    psus_from asset_id fault 0 ("PSU 1" ∷ "PSU 2" ∷ "PSU 3" ∷ "PSU 4" ∷ [])

unfoldable pub power_json : String → Option InjectedFault → Json
unfolding chassis_url build_psu_members
power_json asset_id fault = dict (
    ("@odata.type", str "#Power.v1_7_0.Power")
    ∷ ("@odata.id", str (text (chassis_url asset_id ∷ "/Power" ∷ [])))
    ∷ ("Id", str "Power")
    ∷ ("Name", str "Power")
    ∷ ("PowerSupplies", list (build_psu_members asset_id fault))
    ∷ [])

unfoldable pub get_power : (String → String) → String → SimulatorEngine → Reply
unfolding require_asset power_json
get_power repr asset_id e =
    require_asset repr asset_id e >> ok (power_json asset_id (get_fault asset_id e))

-- `["Status"]["Health"]` of a document
abbrev pub health_in : Json → Option Json
health_in d = elim (at "Status" d) [ none ↦ none | some s ↦ at "Health" s ]

abbrev pub is_critical : Option Json → Bool
is_critical (some (str h)) = h == "Critical"
is_critical _ = false

unfoldable pub any_critical : List Json → Bool
any_critical [] = false
any_critical (d ∷ ds) = is_critical (health_in d) || any_critical ds

critical_psu :
    (asset_id : String) (fault : Option InjectedFault) (failed : Bool)
    → has_psu_failure fault ≡ failed
    → is_critical (health_in (chassis_json asset_id fault))
      ≡ any_critical (build_psu_members asset_id fault)
unfolding any_critical chassis_json build_psu_members psus_from psu_json status_json at lookup dict
    fields
critical_psu asset_id fault true e = rw e refl
critical_psu asset_id fault false e = rw e refl

-- The chassis of an asset is reported as critical exactly when one of its power supplies is.
pub chassis_health-power :
    (asset_id : String) (fault : Option InjectedFault)
    → is_critical (health_in (chassis_json asset_id fault))
      ≡ any_critical (build_psu_members asset_id fault)
chassis_health-power asset_id fault = critical_psu asset_id fault (has_psu_failure fault) refl
