-- ===== src/Gateway/Runbook.antt =====
-- services/gateway/router.py: the impact assessment and the step labels of a new fault event, taken
-- from the loaded pack and its KB articles.
pub mod Bounds
use nemoclaw_lab_cl.Base.{
  ℕ, ◌-◌, String, Bool, true, false, Option, none, some, List, [], ◌∷◌, ◌==◌, ◌&&◌, ◌||◌,
  if◌then◌else◌, map, ltb,
}
use nemoclaw_lab_cl.Base.Dict.{get}
use nemoclaw_lab_cl.Base.Text.{
  text, decimal, startswith, includes, one_of, lstrip_by, rstrip_by, lstrip, strip, splitlines,
  chars, slice_to, before, without_suffix, removesuffix, after_last_slash,
}
use nemoclaw_lab_cl.Models.{Scenario, ScenarioImpact, RemediationStep, KbArticle}
use nemoclaw_lab_cl.Packs.{LoadedPack}

generic_impact : String → ℕ → ScenarioImpact
generic_impact asset_id step_count = record {
  summary =
      text
        ("Execute " ∷ decimal step_count ∷ " approved remediation steps on " ∷ asset_id ∷ "." ∷ []);
  workload_impact =
      text ("Workloads on " ∷ asset_id ∷ " may be interrupted while remediation runs." ∷ []);
  service_risk = "Single-asset action — no cluster-wide changes are made.";
  estimated_duration = "~5–10 minutes";
}

impact_of : Option Scenario → Option ScenarioImpact
impact_of none = none
impact_of (some scenario) = scenario.impact

unfoldable pub impact_for_scenario : LoadedPack → String → String → ℕ → ScenarioImpact
unfolding generic_impact impact_of
impact_for_scenario loaded scenario_id asset_id step_count =
    elim (impact_of (get scenario_id loaded.scenarios_by_id)) [
      | none ↦ generic_impact asset_id step_count
      | some impact ↦ impact
    ]

abbrev max_step_detail_chars : ℕ
max_step_detail_chars = 160

is_heading : String → String → Bool
is_heading step_id ln =
    startswith (lstrip ln) "###" && includes (text ("(`" ∷ step_id ∷ "`)" ∷ [])) ln

-- the lines behind the first heading of the step; `none` when there is no such heading
after_heading : String → List String → Option (List String)
after_heading step_id [] = none
after_heading step_id (ln ∷ lines) =
    let later = after_heading step_id lines in if is_heading step_id ln then some lines else later

ends_search : String → Bool
ends_search s = startswith s "#" || startswith s "```" || startswith s "|" || startswith s ">"

-- "Confirm with the owner, then" loses its last word
without_then : String → String
without_then sentence = elim (without_suffix " then" sentence) [
  | none ↦ sentence
  | some rest ↦ rstrip_by (one_of ",;: ") rest
]

first_sentence : String → String
first_sentence s = without_then (strip (rstrip_by (one_of ".:") (before ". " s)))

shorten : String → String
shorten sentence =
    if ltb max_step_detail_chars (chars sentence)
    then text (rstrip_by (one_of ",;: ") (slice_to (max_step_detail_chars - 1) sentence) ∷ "…" ∷ [])
    else sentence

detail_of : String → Option String
detail_of sentence = if sentence == "" then none else some (shorten sentence)

-- the loop over the lines behind the heading: `continue`, `break` and `return`
detail_in : List String → Option String
detail_in [] = none
detail_in (ln ∷ lines) =
    let later = detail_in lines in
    let s = strip ln in
    let item = strip (lstrip_by (one_of "-*0123456789. ") s) in
    if s == ""
    then later
    else if ends_search s
    then none
    else if item == ""
    then later
    else detail_of (first_sentence item)

detail_behind : Option (List String) → Option String
detail_behind none = none
detail_behind (some lines) = detail_in lines

unfoldable pub kb_step_detail : String → String → Option String
unfolding detail_behind after_heading is_heading detail_in ends_search detail_of first_sentence
    without_then shorten
kb_step_detail body_md step_id = detail_behind (after_heading step_id (splitlines body_md))

ends_in_ellipsis : String → Bool
ends_in_ellipsis detail = elim (without_suffix "…" detail) [ none ↦ false | some rest ↦ true ]

label_with : RemediationStep → Option String → String
label_with step none = step.label
label_with step (some detail) =
    text (step.label ∷ " — " ∷ detail ∷ (if ends_in_ellipsis detail then "" else ".") ∷ [])

labels_from : Option KbArticle → List RemediationStep → List String
labels_from none steps = map (λ s. s.label) steps
labels_from (some article) steps =
    map (λ s. label_with s (kb_step_detail article.body_md s.id)) steps

kb_id_of : Scenario → String
kb_id_of scenario = removesuffix ".md" (after_last_slash scenario.kb_article_ref)

labels_of : LoadedPack → Option Scenario → List String
labels_of loaded none = []
labels_of loaded (some scenario) =
    labels_from (get (kb_id_of scenario) loaded.kb_articles) scenario.remediation_steps

unfoldable pub step_labels_for_scenario : LoadedPack → String → List String
unfolding labels_of labels_from label_with ends_in_ellipsis kb_id_of kb_step_detail
step_labels_for_scenario loaded scenario_id =
    labels_of loaded (get scenario_id loaded.scenarios_by_id)
