-- ===== src/Packs/Loader.antt =====
-- libs/common/pack_loader.py: `load_pack` on a folder whose YAML and Markdown files are read and
-- validated. `resolved_stem` is the stem of a reference below the folder, `stem` that of the
-- reference as it is written, `exists` and `read_text` ask the file system about a reference.
pub mod Checks
use nemoclaw_lab_cl.Base.{
  String, Bool, true, false, Option, none, some, List, [], ◌∷◌, ◌==◌, if◌then◌else◌, Result, ok,
  err, ◌>>=◌, ◌>>◌, guard, or_raise, elem,
}
use nemoclaw_lab_cl.Base.Dict.{Dict, get, put, contains}
use nemoclaw_lab_cl.Models.{Pack, PackAsset, Scenario, SimulatorProfile, KbArticle, EmitLogEntry}
use nemoclaw_lab_cl.Packs.{LoadedPack}

-- an absent file or directory is `none`; the scenario files stand sorted by their names
pub record PackFolder : Type 0 where
  pub pack : Option Pack
  pub simulator_profile : Option SimulatorProfile
  pub scenario_files : Option (List (String × Scenario))
  pub kb_articles : Option (Dict KbArticle)

-- the causes of a `PackLoadError`, each with the file or scenario that its message names
pub data PackLoadError : Type 0 where
  missing_pack missing_profile profile_mismatch missing_scenarios no_scenarios missing_kb :
      PackLoadError
  scenario_mismatch unknown_target kb_not_found kb_not_loaded log_not_found : String → PackLoadError

unfoldable pub asset_ids : List PackAsset → List String
asset_ids [] = []
asset_ids (a ∷ rest) = a.id ∷ asset_ids rest

unfoldable pub load_simulator_profile :
    String → Option SimulatorProfile → Result PackLoadError SimulatorProfile
load_simulator_profile pack_id o = do
  profile ← or_raise missing_profile o
  guard (profile.pack_id == pack_id) profile_mismatch
  ok profile

unfoldable pub check_scenarios :
    Pack → List (String × Scenario) → Result PackLoadError (List Scenario)
check_scenarios pack [] = ok []
check_scenarios pack ((file, s) ∷ files) =
    let later = check_scenarios pack files in
    guard (s.pack_id == pack.id) (scenario_mismatch file)
    >> (guard (elem s.target_asset (asset_ids pack.assets)) (unknown_target file)
        >> (later >>= λ rest. ok (s ∷ rest)))

non_empty : List Scenario → Result PackLoadError (List Scenario)
non_empty [] = err no_scenarios
non_empty (s ∷ ss) = ok (s ∷ ss)

unfoldable pub load_scenarios :
    Pack → Option (List (String × Scenario)) → Result PackLoadError (List Scenario)
unfolding non_empty
load_scenarios pack o = do
  files ← or_raise missing_scenarios o
  scenarios ← check_scenarios pack files
  non_empty scenarios

extract_of : Option String → List EmitLogEntry → Option String
extract_of (some text) entries = some text
extract_of none [] = none
extract_of none (e ∷ entries) = some e.message

abbrev with_extract : Scenario → Scenario
with_extract s = record s { log_extract = extract_of s.log_extract s.emit.log_entries }

unfoldable pub backfill_log_extracts : List Scenario → List Scenario
unfolding extract_of
backfill_log_extracts [] = []
backfill_log_extracts (s ∷ ss) = with_extract s ∷ backfill_log_extracts ss

unfoldable pub index_all : String → List String → Dict String → Dict String
index_all kb_id [] index = index
index_all kb_id (sig ∷ sigs) index = index_all kb_id sigs (put sig kb_id index)

unfoldable pub by_id : List Scenario → Dict Scenario → Dict Scenario
by_id [] d = d
by_id (s ∷ ss) d = by_id ss (put s.id s d)

module _ (stem resolved_stem : String → String) (exists : String → Bool)
    (read_text : String → Option String) where
  unfoldable pub check_kb_refs : List Scenario → Dict KbArticle → Result PackLoadError (Unit {0})
  check_kb_refs [] articles = ok tt
  check_kb_refs (s ∷ ss) articles =
      guard (exists s.kb_article_ref) (kb_not_found s.id)
      >> (guard (contains (resolved_stem s.kb_article_ref) articles) (kb_not_loaded s.id)
          >> check_kb_refs ss articles)

  unfoldable pub load_log_bundles : List Scenario → Dict String → Result PackLoadError (Dict String)
  load_log_bundles [] bundles = ok bundles
  load_log_bundles (s ∷ ss) bundles =
      or_raise (log_not_found s.id) (read_text s.log_bundle_ref) >>= λ content.
      load_log_bundles ss (put s.log_bundle_ref content bundles)

  unfoldable pub build_signature_index : List Scenario → Dict String → Dict String
  build_signature_index [] index = index
  build_signature_index (s ∷ ss) index =
      build_signature_index ss (index_all (stem s.kb_article_ref) s.error_signatures index)

  unfoldable pub load_pack : PackFolder → Result PackLoadError LoadedPack
  load_pack folder = do
    pack ← or_raise missing_pack folder.pack
    profile ← load_simulator_profile pack.id folder.simulator_profile
    scenarios ← load_scenarios pack folder.scenario_files
    articles ← or_raise missing_kb folder.kb_articles
    check_kb_refs scenarios articles
    bundles ← load_log_bundles scenarios []
    let loaded = backfill_log_extracts scenarios
    ok (record {
      pack = pack;
      scenarios = loaded;
      kb_articles = articles;
      log_bundles = bundles;
      simulator_profile = profile;
      signature_index = build_signature_index loaded [];
      scenarios_by_id = by_id loaded [];
    })
