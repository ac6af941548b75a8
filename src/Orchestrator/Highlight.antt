-- ===== src/Orchestrator/Highlight.antt =====
-- services/orchestrator/router.py, `_extract_highlight` and `_stamp_today`. `is_decimal` says which
-- characters a regular expression's `\d` matches, and `today` is the date of the day.
pub mod Evidence
use nemoclaw_lab_cl.Base.{
  ℕ, suc, ◌+◌, ◌-◌, ◌*◌, min, String, Bool, true, false, Option, none, some, List, [], ◌∷◌, ◌==◌,
  not, ◌&&◌, ◌||◌, if◌then◌else◌, keep, take, drop, length, ltb,
}
use nemoclaw_lab_cl.Base.Text.{splitlines, strip, lstrip, startswith, includes, join}

abbrev pub highlight_context_lines : ℕ
highlight_context_lines = 2

abbrev pub highlight_cluster_gap : ℕ
highlight_cluster_gap = 6

is_shown : String → Bool
is_shown ln = not (strip ln == "") && not (startswith (lstrip ln) "#")

unfoldable pub shown_lines : String → List String
unfolding is_shown
shown_lines log_text = keep is_shown (splitlines log_text)

-- `any(sig in ln for sig in error_signatures)`
unfoldable pub matches : List String → String → Bool
matches [] ln = false
matches (sig ∷ sigs) ln = includes sig ln || matches sigs ln

-- the indices, from `i` on, of the lines that match
unfoldable pub match_indices : List String → ℕ → List String → List ℕ
match_indices sigs i [] = []
match_indices sigs i (ln ∷ lns) =
    let rest = match_indices sigs (suc i) lns in if matches sigs ln then i ∷ rest else rest

-- the loop over `match_indices[1:]`, from `last`
unfoldable pub cluster_end : ℕ → List ℕ → ℕ
cluster_end last [] = last
cluster_end last (idx ∷ idxs) =
    let rest = cluster_end idx idxs in if ltb highlight_cluster_gap (idx - last) then last else rest

abbrev pub slice {ℓ} : {A : Type ℓ} → ℕ → ℕ → List A → List A
slice start end xs = take (end - start) (drop start xs)

-- the window of lines, before they are joined
window_at : List String → List ℕ → List String
window_at lines [] = take (highlight_context_lines * 2 + 1) lines
window_at lines (first ∷ idxs) =
    slice (first - highlight_context_lines)
      (min (length lines) (cluster_end first idxs + highlight_context_lines + 1)) lines

unfoldable pub window : List String → List String → List String
unfolding window_at
window sigs lines = window_at lines (match_indices sigs 0 lines)

highlight_of : List String → List String → Option String
highlight_of [] sigs = none
highlight_of (ln ∷ lns) sigs = some (join "\n" (window sigs (ln ∷ lns)))

unfoldable pub extract_highlight : String → List String → Option String
unfolding highlight_of
extract_highlight log_text sigs = highlight_of (shown_lines log_text) sigs
