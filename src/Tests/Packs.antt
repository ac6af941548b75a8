-- ===== src/Tests/Packs.antt =====
-- libs/common/pack_loader.py: a folder that loads.
use nemoclaw_lab_cl.Base.{
  String, Bool, true, Option, some, List, [], ◌∷◌, ok, ◌≡◌, ◌≢◌, refl, none, is_some, elem, arith,
  eq_iff,
}
use nemoclaw_lab_cl.McpTools.KbIndex.{KbIndex, search}
use nemoclaw_lab_cl.McpTools.KbIndex.Found.{HasArticle, Plain, is_signature, search_finds}
use nemoclaw_lab_cl.Packs.Loader.{PackFolder, load_pack}
use nemoclaw_lab_cl.Packs.Loader.Checks.{IsChecked, load_pack-IsChecked}
use nemoclaw_lab_cl.Tests.Data.{loaded, article, scenario_on}

abbrev folder : PackFolder
folder = record {
  pack = some loaded.pack;
  simulator_profile = some loaded.simulator_profile;
  scenario_files = some (
      ("gpu.yaml", scenario_on "gpu" "node-1") ∷ ("power.yaml", scenario_on "power" "node-2") ∷ []);
  kb_articles = some (("reseat", article) ∷ []);
}

-- the file system of the example has one article and one log
abbrev stem : String → String
stem ref = "reseat"

abbrev exists : String → Bool
exists ref = true

abbrev read_text : String → Option String
read_text ref = some "Xid 79"

folder_loads : load_pack stem stem exists read_text folder ≡ ok loaded
unfolding load_pack nemoclaw_lab_cl.Packs.Loader.load_simulator_profile
    nemoclaw_lab_cl.Packs.Loader.load_scenarios nemoclaw_lab_cl.Packs.Loader.check_scenarios
    nemoclaw_lab_cl.Base.elem nemoclaw_lab_cl.Packs.Loader.asset_ids
    nemoclaw_lab_cl.Packs.Loader.check_kb_refs nemoclaw_lab_cl.Base.Dict.contains
    nemoclaw_lab_cl.Packs.Loader.load_log_bundles nemoclaw_lab_cl.Packs.Loader.backfill_log_extracts
    nemoclaw_lab_cl.Base.Dict.put nemoclaw_lab_cl.Packs.Loader.build_signature_index
    nemoclaw_lab_cl.Packs.Loader.by_id nemoclaw_lab_cl.Packs.Loader.index_all
folder_loads = refl

load_pack-IsChecked_example : IsChecked stem stem exists read_text loaded
load_pack-IsChecked_example =
    load_pack-IsChecked stem stem exists read_text folder loaded folder_loads

not_empty : ◌≢◌ {A = String} "reseat" ""
not_empty e = ground (arith, eq_iff "reseat" "", e)

plain : Plain stem stem exists read_text loaded.scenarios
plain = ((not_empty, refl), ((not_empty, refl), tt))

abbrev index : KbIndex
index = record { pack = loaded; threshold = 5; semantic_search = some (λ query. ok none) }

listed : is_signature "Xid 79" loaded.scenarios ≡ true
unfolding is_signature elem
listed = refl

search_finds_example : HasArticle 10 (search 10 "Xid 79" none index)
search_finds_example =
    search_finds stem stem exists read_text folder index 10 none "Xid 79" folder_loads plain listed
      (none, refl)
