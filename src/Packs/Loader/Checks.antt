-- ===== src/Packs/Loader/Checks.antt =====
-- libs/common/pack_loader.py: what a pack that loads satisfies.
use nemoclaw_lab_cl.Base.{
  String, Bool, true, Option, List, [], ◌∷◌, ◌==◌, Result, ok, guard, or_raise, elem, eq_iff,
  eq_refl, bind-eq-ok, guard-eq-ok, All, ◌≡◌, ◌≢◌, refl, sym, ap, subst, ◌∙◌, arith,
}
use nemoclaw_lab_cl.Base.Dict.{Dict, put, contains, contains-put}
use nemoclaw_lab_cl.Models.{Pack, Scenario, KbArticle}
use nemoclaw_lab_cl.Packs.{LoadedPack}
use nemoclaw_lab_cl.Packs.Loader.{
  PackFolder, asset_ids, load_simulator_profile, check_scenarios, non_empty, load_scenarios,
  backfill_log_extracts, by_id, kb_not_found, kb_not_loaded, log_not_found, check_kb_refs,
  load_log_bundles, load_pack, build_signature_index, missing_pack, missing_kb, missing_scenarios,
  missing_profile, profile_mismatch, scenario_mismatch, unknown_target,
}

ok_injective : {E A : Type 0} {a b : A} → Path (Result E A) (ok a) (ok b) → a ≡ b
ok_injective h = cc

abbrev pub Targets : Pack → List Scenario → Type 0
Targets pack = All (λ s. elem s.target_asset (asset_ids pack.assets) ≡ true)

check_scenarios-Targets :
    (pack : Pack) (files : List (String × Scenario)) {ss : List Scenario}
    → check_scenarios pack files ≡ ok ss
    → Targets pack ss
unfolding check_scenarios
check_scenarios-Targets pack [] h = subst (Targets pack) (ok_injective h) tt
check_scenarios-Targets pack ((file, s) ∷ files) h =
    let (_, _, h1) = bind-eq-ok (guard (s.pack_id == pack.id) (scenario_mismatch file)) _ h in
    let (_, known, h2) =
      bind-eq-ok (guard (elem s.target_asset (asset_ids pack.assets)) (unknown_target file)) _ h1 in
    let (rest, checked, h3) = bind-eq-ok (check_scenarios pack files) _ h2 in
    subst (Targets pack) (ok_injective h3) (
      guard-eq-ok (elem s.target_asset (asset_ids pack.assets)) (unknown_target file) known,
      check_scenarios-Targets pack files checked,
    )

non_empty-eq-ok :
    (ss : List Scenario) {ss' : List Scenario} → non_empty ss ≡ ok ss' → (ss ≡ ss') × (ss ≢ [])
unfolding non_empty
non_empty-eq-ok [] h = cc
non_empty-eq-ok (s ∷ ss) h = (ok_injective h, λ e. cc)

-- deriving the log extracts leaves the references and the targets
Targets-backfill :
    (pack : Pack) (ss : List Scenario) → Targets pack ss → Targets pack (backfill_log_extracts ss)
unfolding backfill_log_extracts
Targets-backfill pack [] h = tt
Targets-backfill pack (s ∷ ss) (t, h) = (t, Targets-backfill pack ss h)

contains-by_id :
    (id : String) (ss : List Scenario) (d : Dict Scenario)
    → contains id d ≡ true
    → contains id (by_id ss d) ≡ true
unfolding by_id
contains-by_id id [] d h = h
contains-by_id id (s ∷ ss) d h =
    contains-by_id id ss (put s.id s d) (rw contains-put (rw h (ground arith)))

module _ (stem resolved_stem : String → String) (exists : String → Bool)
    (read_text : String → Option String) where
  abbrev pub Articles : Dict KbArticle → List Scenario → Type 0
  Articles articles = All (λ s. contains (resolved_stem s.kb_article_ref) articles ≡ true)

  abbrev pub Logs : Dict String → List Scenario → Type 0
  Logs bundles = All (λ s. contains s.log_bundle_ref bundles ≡ true)

  check_kb_refs-Articles :
      (ss : List Scenario) (articles : Dict KbArticle) {u : Unit}
      → check_kb_refs stem resolved_stem exists read_text ss articles ≡ ok u
      → Articles articles ss
  unfolding check_kb_refs
  check_kb_refs-Articles [] articles h = tt
  check_kb_refs-Articles (s ∷ ss) articles h =
      let (_, _, h1) = bind-eq-ok (guard (exists s.kb_article_ref) (kb_not_found s.id)) _ h in
      let (_, known, h2) =
        bind-eq-ok (guard (contains (resolved_stem s.kb_article_ref) articles) (kb_not_loaded s.id))
          _ h1 in
      (
        guard-eq-ok (contains (resolved_stem s.kb_article_ref) articles) (kb_not_loaded s.id) known,
        check_kb_refs-Articles ss articles h2,
      )

  load_log_bundles-contains :
      (k : String) (ss : List Scenario) (bundles : Dict String) {loaded : Dict String}
      → load_log_bundles stem resolved_stem exists read_text ss bundles ≡ ok loaded
      → contains k bundles ≡ true
      → contains k loaded ≡ true
  unfolding load_log_bundles
  load_log_bundles-contains k [] bundles h there =
      subst (λ d. contains k d ≡ true) (ok_injective h) there
  load_log_bundles-contains k (s ∷ ss) bundles h there =
      let (content, _, h1) =
        bind-eq-ok (or_raise (log_not_found s.id) (read_text s.log_bundle_ref)) _ h in
      load_log_bundles-contains k ss (put s.log_bundle_ref content bundles) h1
        (rw contains-put (rw there (ground arith)))

  load_log_bundles-Logs :
      (ss : List Scenario) (bundles : Dict String) {loaded : Dict String}
      → load_log_bundles stem resolved_stem exists read_text ss bundles ≡ ok loaded
      → Logs loaded ss
  unfolding load_log_bundles
  load_log_bundles-Logs [] bundles h = tt
  load_log_bundles-Logs (s ∷ ss) bundles h =
      let (content, _, h1) =
        bind-eq-ok (or_raise (log_not_found s.id) (read_text s.log_bundle_ref)) _ h in
      (
        load_log_bundles-contains s.log_bundle_ref ss (put s.log_bundle_ref content bundles) h1
            (rw (contains-put, eq_refl) refl),
        load_log_bundles-Logs ss (put s.log_bundle_ref content bundles) h1,
      )

  Articles-backfill :
      (articles : Dict KbArticle) (ss : List Scenario)
      → Articles articles ss
      → Articles articles (backfill_log_extracts ss)
  unfolding backfill_log_extracts
  Articles-backfill articles [] h = tt
  Articles-backfill articles (s ∷ ss) (t, h) = (t, Articles-backfill articles ss h)

  Logs-backfill :
      (bundles : Dict String) (ss : List Scenario)
      → Logs bundles ss
      → Logs bundles (backfill_log_extracts ss)
  unfolding backfill_log_extracts
  Logs-backfill bundles [] h = tt
  Logs-backfill bundles (s ∷ ss) (t, h) = (t, Logs-backfill bundles ss h)

  -- what the services rely on when they look something up in a loaded pack
  pub record IsChecked (loaded : LoadedPack) : Type 0 where
    pub some_scenario : loaded.scenarios ≢ []
    pub targets : Targets loaded.pack loaded.scenarios
    pub articles : Articles loaded.kb_articles loaded.scenarios
    pub logs : Logs loaded.log_bundles loaded.scenarios
    pub indexed :
        loaded.signature_index
        ≡ build_signature_index stem resolved_stem exists read_text loaded.scenarios []
    pub profile : loaded.simulator_profile.pack_id ≡ loaded.pack.id

  backfill-eq-nil : (ss : List Scenario) → ss ≢ [] → backfill_log_extracts ss ≢ []
  unfolding backfill_log_extracts
  backfill-eq-nil [] h e = h refl
  backfill-eq-nil (s ∷ ss) h e = cc

  -- A pack that loads has a scenario; every scenario's target is one of its assets, the article that
  -- it refers to is loaded, and so is its log bundle; the simulator profile is of the same
  -- pack, and the signature index is built from the scenarios.
  pub load_pack-IsChecked :
      (folder : PackFolder) (loaded : LoadedPack)
      → load_pack stem resolved_stem exists read_text folder ≡ ok loaded
      → IsChecked loaded
  unfolding load_pack load_simulator_profile load_scenarios
  load_pack-IsChecked folder loaded h =
      let (pack, _, h1) = bind-eq-ok (or_raise missing_pack folder.pack) _ h in
      let (profile, profiled, h2) =
        bind-eq-ok (load_simulator_profile pack.id folder.simulator_profile) _ h1 in
      let (ss, listed, h3) = bind-eq-ok (load_scenarios pack folder.scenario_files) _ h2 in
      let (articles, _, h4) = bind-eq-ok (or_raise missing_kb folder.kb_articles) _ h3 in
      let (_, linked, h5) =
        bind-eq-ok (check_kb_refs stem resolved_stem exists read_text ss articles) _ h4 in
      let (bundles, read, h6) =
        bind-eq-ok (load_log_bundles stem resolved_stem exists read_text ss []) _ h5 in
      let (files, _, l1) = bind-eq-ok (or_raise missing_scenarios folder.scenario_files) _ listed in
      let (checked, ran, l2) = bind-eq-ok (check_scenarios pack files) _ l1 in
      let (same, filled) = non_empty-eq-ok checked l2 in
      let (p, _, p1) = bind-eq-ok (or_raise missing_profile folder.simulator_profile) _ profiled in
      let (_, own, p2) = bind-eq-ok (guard (p.pack_id == pack.id) profile_mismatch) _ p1 in
      let own_id : p.pack_id ≡ pack.id =
        (eq_iff p.pack_id pack.id).0 (guard-eq-ok (p.pack_id == pack.id) profile_mismatch own) in
      subst IsChecked (ok_injective h6) (record {
        some_scenario = backfill-eq-nil ss (subst (λ l. l ≢ []) same filled);
        targets =
            Targets-backfill pack ss
              (subst (Targets pack) same (check_scenarios-Targets pack files ran));
        articles = Articles-backfill articles ss (check_kb_refs-Articles ss articles linked);
        logs = Logs-backfill bundles ss (load_log_bundles-Logs ss [] read);
        indexed = refl;
        profile = ap (λ x. x.pack_id) (sym (ok_injective p2)) ∙ own_id;
      })
