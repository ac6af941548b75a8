-- ===== src/Packs.antt =====
-- libs/common/pack_loader.py: the loaded pack, which every service holds.
pub mod Loader
use nemoclaw_lab_cl.Base.{String, List}
use nemoclaw_lab_cl.Base.Dict.{Dict}
use nemoclaw_lab_cl.Models.{Pack, Scenario, KbArticle, SimulatorProfile}

pub record LoadedPack : Type 0 where
  pub pack : Pack
  pub scenarios : List Scenario
  pub kb_articles : Dict KbArticle
  pub log_bundles : Dict String
  pub simulator_profile : SimulatorProfile
  pub signature_index : Dict String
  pub scenarios_by_id : Dict Scenario
