-- ===== src/McpTools/KbIndex.antt =====
-- services/mcp_tools/kb_index.py: the search of the knowledge base. A score is the rank of its
-- float, and `semantic_search` is `_semantic_search` over the embedding library, absent when the
-- library is; an exception of the library is not caught.
pub mod Found
use nemoclaw_lab_cl.Base.{
  String, Bool, true, false, Option, none, some, List, ◌==◌, if◌then◌else◌, leb, Result, ok, err,
}
use nemoclaw_lab_cl.Base.Dict.{get}
use nemoclaw_lab_cl.Models.{Score, KbArticle}
use nemoclaw_lab_cl.Packs.{LoadedPack}

pub data Via : Type 0 where
  semantic deterministic : Via

pub record KbSearchResult : Type 0 where
  pub kb_id : String
  pub title : String
  pub body_md : String
  pub remediation_step_ids : List String
  pub score : Score
  pub via : Via

-- an exception of the embedding library, with its text
pub data SemanticError : Type 0 where
  semantic_error : String → SemanticError

pub record KbIndex : Type 0 where
  pub pack : LoadedPack
  pub threshold : Score
  pub semantic_search : Option (String → Result SemanticError (Option KbSearchResult))

-- "1.0" is the rank of the score of a deterministic result
module _ (one : Score) where
  deterministic_result : String → Option KbArticle → Option KbSearchResult
  deterministic_result kb_id none = none
  deterministic_result kb_id (some article) = some (record {
    kb_id = kb_id;
    title = article.title;
    body_md = article.body_md;
    remediation_step_ids = article.remediation_step_ids;
    score = one;
    via = deterministic;
  })

  -- `if kb_id and kb_id in …`
  article_result : Option String → LoadedPack → Option KbSearchResult
  article_result none loaded = none
  article_result (some kb_id) loaded =
      if kb_id == "" then none else deterministic_result kb_id (get kb_id loaded.kb_articles)

  abbrev or_fallback : Option String → Option String → Option String
  or_fallback none fallback_kb_id = fallback_kb_id
  or_fallback (some kb_id) fallback_kb_id = some kb_id

  -- steps 2 and 3
  unfoldable pub search_deterministic : String → Option String → LoadedPack → Option KbSearchResult
  unfolding article_result deterministic_result
  search_deterministic signature fallback_kb_id loaded =
      article_result (or_fallback (get signature loaded.signature_index) fallback_kb_id) loaded

  confident : Score → Option KbSearchResult → Option KbSearchResult → Option KbSearchResult
  confident threshold none otherwise = otherwise
  confident threshold (some result) otherwise =
      if leb threshold result.score then some result else otherwise

  abbrev pub Found : Type 0
  Found = Result SemanticError (Option KbSearchResult)

  answered : Score → Found → Option KbSearchResult → Found
  answered threshold (err e) otherwise = err e
  answered threshold (ok result) otherwise = ok (confident threshold result otherwise)

  search_with : Option (String → Found) → Score → String → Option KbSearchResult → Found
  search_with none threshold signature otherwise = ok otherwise
  search_with (some semantic_search) threshold signature otherwise =
      answered threshold (semantic_search signature) otherwise

  unfoldable pub search : String → Option String → KbIndex → Found
  unfolding search_with answered confident
  search signature fallback_kb_id index =
      search_with index.semantic_search index.threshold signature
        (search_deterministic signature fallback_kb_id index.pack)
