-- ===== src/McpTools/KbIndex/Found.antt =====
-- services/mcp_tools/kb_index.py over libs/common/pack_loader.py: "guarantees the demo always
-- resolves".
use nemoclaw_lab_cl.Base.{
  String, Bool, true, false, Option, some, List, [], ◌∷◌, ◌||◌, elem, is_some, ◌≡◌, ◌≢◌, refl, sym,
  ap, ◌∙◌, arith, eq_iff, All, is_some-some, subst, ok, Result, none, leb, Bool-cases, inl, inr,
}
use nemoclaw_lab_cl.Base.Dict.{
  Dict, get, put, contains, contains-get, Each, Each-put, Each-get, contains-put,
}
use nemoclaw_lab_cl.Models.{Score, KbArticle, Scenario}
use nemoclaw_lab_cl.Packs.{LoadedPack}
use nemoclaw_lab_cl.Packs.Loader.{PackFolder, load_pack, index_all, build_signature_index}
use nemoclaw_lab_cl.Packs.Loader.Checks.{Articles, load_pack-IsChecked}
use nemoclaw_lab_cl.McpTools.KbIndex.{
  KbIndex, KbSearchResult, SemanticError, answered, search, search_with, confident,
  search_deterministic, article_result,
}

module _ (one : Score) where
  -- a search finds an article
  abbrev pub HasArticle : Result SemanticError (Option KbSearchResult) → Type 0
  HasArticle r = (result : KbSearchResult) × (r ≡ ok (some result))

  confident-HasArticle :
      (threshold : Score) (found otherwise : Option KbSearchResult)
      → is_some otherwise ≡ true
      → HasArticle (ok (confident one threshold found otherwise))
  unfolding confident
  confident-HasArticle threshold none otherwise h =
      let (result, e) = is_some-some otherwise h in (result, ap ok e)
  confident-HasArticle threshold (some found) otherwise h =
      elim (Bool-cases (leb threshold found.score)) [
        | inl sure ↦ (found, rw sure refl)
        | inr unsure ↦ let (result, e) = is_some-some otherwise h in (result, rw unsure (ap ok e))
      ]

  answered-HasArticle :
      (threshold : Score) (r : Result SemanticError (Option KbSearchResult))
      (otherwise : Option KbSearchResult)
      → (found : Option KbSearchResult) × (r ≡ ok found)
      → is_some otherwise ≡ true
      → HasArticle (answered one threshold r otherwise)
  unfolding answered
  answered-HasArticle threshold r otherwise (found, e) h =
      rw e (confident-HasArticle threshold found otherwise h)

  -- the embedding library raises no exception on this query
  abbrev pub Answers :
      String → Option (String → Result SemanticError (Option KbSearchResult)) → Type 0
  Answers signature none = Unit
  Answers signature (some semantic_search) =
      (found : Option KbSearchResult) × (semantic_search signature ≡ ok found)

  with-HasArticle :
      (o : Option (String → Result SemanticError (Option KbSearchResult))) (threshold : Score)
      (signature : String) (otherwise : Option KbSearchResult)
      → Answers signature o
      → is_some otherwise ≡ true
      → HasArticle (search_with one o threshold signature otherwise)
  unfolding search_with
  with-HasArticle none threshold signature otherwise answers h =
      let (result, e) = is_some-some otherwise h in (result, ap ok e)
  with-HasArticle (some semantic_search) threshold signature otherwise answers h =
      answered-HasArticle threshold (semantic_search signature) otherwise answers h

  -- a semantic search can only put a confident result in place of the deterministic one
  search-HasArticle :
      (signature : String) (fallback : Option String) (index : KbIndex)
      → Answers signature index.semantic_search
      → is_some (search_deterministic one signature fallback index.pack) ≡ true
      → HasArticle (search one signature fallback index)
  unfolding search
  search-HasArticle signature fallback index answers h =
      with-HasArticle index.semantic_search index.threshold signature _ answers h

  search_listed :
      (signature kb_id : String) (fallback : Option String) (loaded : LoadedPack)
      → get signature loaded.signature_index ≡ some kb_id
      → kb_id ≢ ""
      → contains kb_id loaded.kb_articles ≡ true
      → is_some (search_deterministic one signature fallback loaded) ≡ true
  unfolding search_deterministic article_result
  search_listed signature kb_id fallback loaded listed named there =
      let (article, e) =
        is_some-some (get kb_id loaded.kb_articles)
          (sym (contains-get kb_id loaded.kb_articles) ∙ there) in
      rw (listed, e) (ground (arith, named, eq_iff kb_id ""))

-- an id of a loaded article
abbrev Loaded : Dict KbArticle → String → Type 0
Loaded articles kb_id = (kb_id ≢ "") × (contains kb_id articles ≡ true)

module _ (articles : Dict KbArticle) where
  index_all-Each :
      (kb_id : String) (sigs : List String) (index : Dict String)
      → Loaded articles kb_id
      → Each (λ k v. Loaded articles v) index
      → Each (λ k v. Loaded articles v) (index_all kb_id sigs index)
  unfolding index_all
  index_all-Each kb_id [] index p h = h
  index_all-Each kb_id (sig ∷ sigs) index p h =
      index_all-Each kb_id sigs (put sig kb_id index) p
        (Each-put (λ k v. Loaded articles v) sig kb_id index p h)

index_all-contains :
    (k kb_id : String) (sigs : List String) (index : Dict String)
    → contains k (index_all kb_id sigs index) ≡ (elem k sigs || contains k index)
unfolding index_all elem
index_all-contains k kb_id [] index = refl
index_all-contains k kb_id (sig ∷ sigs) index =
    index_all-contains k kb_id sigs (put sig kb_id index)
    ∙ rw contains-put (ground (arith, eq_iff k sig, eq_iff sig k))

-- one of the scenarios lists the signature
unfoldable pub is_signature : String → List Scenario → Bool
is_signature k [] = false
is_signature k (s ∷ ss) = elem k s.error_signatures || is_signature k ss

module _ (stem resolved_stem : String → String) (exists : String → Bool)
    (read_text : String → Option String) where
  -- the stem of a reference is not empty and survives the resolution of its path
  abbrev pub Plain : List Scenario → Type 0
  Plain =
      All (λ s.
        (stem s.kb_article_ref ≢ "") × (resolved_stem s.kb_article_ref ≡ stem s.kb_article_ref))

  build-contains :
      (k : String) (ss : List Scenario) (index : Dict String)
      → contains k (build_signature_index stem resolved_stem exists read_text ss index)
        ≡ (is_signature k ss || contains k index)
  unfolding build_signature_index is_signature
  build-contains k [] index = refl
  build-contains k (s ∷ ss) index =
      build-contains k ss (index_all (stem s.kb_article_ref) s.error_signatures index)
      ∙ rw index_all-contains (ground arith)

  build-Each :
      (articles : Dict KbArticle) (ss : List Scenario) (index : Dict String)
      → Articles stem resolved_stem exists read_text articles ss
      → Plain ss
      → Each (λ k v. Loaded articles v) index
      → Each
          (λ k v. Loaded articles v)
          (build_signature_index stem resolved_stem exists read_text ss index)
  unfolding build_signature_index
  build-Each articles [] index h p e = e
  build-Each articles (s ∷ ss) index (known, h) ((named, same), p) e =
      build-Each articles ss (index_all (stem s.kb_article_ref) s.error_signatures index) h p (
        index_all-Each articles (stem s.kb_article_ref) s.error_signatures index
          (named, subst (λ id. contains id articles ≡ true) same known) e)

  -- In a pack that loads, and whose article references have a stem that is not empty and that the
  -- resolution of their path keeps, the search finds an article for every signature that one of its
  -- scenarios lists, whatever the embedding library answers, the threshold and the fallback are; the
  -- library raises no exception on the signature.
  pub search_finds :
      (folder : PackFolder) (index : KbIndex) (one : Score) (fallback : Option String)
      (signature : String)
      → load_pack stem resolved_stem exists read_text folder ≡ ok index.pack
      → Plain index.pack.scenarios
      → is_signature signature index.pack.scenarios ≡ true
      → Answers one signature index.semantic_search
      → HasArticle one (search one signature fallback index)
  search_finds folder index one fallback signature loads plain listed answers =
      let checked =
        load_pack-IsChecked stem resolved_stem exists read_text folder index.pack loads in
      let built =
        build_signature_index stem resolved_stem exists read_text index.pack.scenarios [] in
      let there : contains signature built ≡ true =
        build-contains signature index.pack.scenarios [] ∙ rw listed refl in
      let (kb_id, found) =
        is_some-some (get signature built) (sym (contains-get signature built) ∙ there) in
      let (named, known) =
        Each-get (λ k v. Loaded index.pack.kb_articles v) signature built
          (build-Each index.pack.kb_articles index.pack.scenarios [] checked.articles plain tt)
          found in
      search-HasArticle one signature fallback index answers (
        search_listed one signature kb_id fallback index.pack
          (ap (get signature) checked.indexed ∙ found) named known)
