-- ===== src/Orchestrator/Highlight/Evidence.antt =====
-- services/orchestrator/router.py: the excerpt that the dashboard quotes contains a signature.
use nemoclaw_lab_cl.Base.{
  ℕ, zero, suc, ◌+◌, ◌-◌, ◌≤◌, ◌<◌, min, String, Bool, true, false, some, List, [], ◌∷◌, ◌||◌, take,
  drop, length, ◌≡◌, refl, arith, Bool-cases, inl, inr, subst,
}
use nemoclaw_lab_cl.Base.Text.{join}
use nemoclaw_lab_cl.Orchestrator.Highlight.{
  shown_lines, extract_highlight, highlight_of, matches, match_indices, cluster_end, window_at,
  window, highlight_context_lines,
}

-- one of the lines contains one of the signatures
unfoldable pub any_match : List String → List String → Bool
any_match sigs [] = false
any_match sigs (ln ∷ lns) = matches sigs ln || any_match sigs lns

-- the line at an index matches
hit : List String → ℕ → List String → Bool
hit sigs k [] = false
hit sigs zero (ln ∷ lns) = matches sigs ln
hit sigs (suc k) (ln ∷ lns) = hit sigs k lns

hit-take :
    (sigs : List String) (k m : ℕ) (lns : List String)
    → hit sigs k lns ≡ true
    → k < m
    → any_match sigs (take m lns) ≡ true
unfolding hit any_match
hit-take sigs k m [] h le = ground arith
hit-take sigs k zero (ln ∷ lns) h le = ground (arith, le)
hit-take sigs zero (suc m) (ln ∷ lns) h le = ground (arith, h)
hit-take sigs (suc k) (suc m) (ln ∷ lns) h le =
    ground (arith, hit-take sigs k m lns h (omega (arith, le)))

hit-drop :
    (sigs : List String) (n start k : ℕ) (lns : List String)
    → n ≡ start + k
    → hit sigs n lns ≡ true
    → hit sigs k (drop start lns) ≡ true
unfolding hit
hit-drop sigs n zero k lns e h =
    let same : n ≡ k = omega (arith, e) in subst (λ x. hit sigs x lns ≡ true) same h
hit-drop sigs n (suc start) k [] e h = ground (arith, h)
hit-drop sigs zero (suc start) k (ln ∷ lns) e h = absurd (omega (arith, e))
hit-drop sigs (suc n) (suc start) k (ln ∷ lns) e h =
    hit-drop sigs n start k lns (omega (arith, e)) h

abbrev Rising : ℕ → List ℕ → Type 0
Rising last [] = Unit
Rising last (idx ∷ idxs) = (last ≤ idx) × Rising idx idxs

match_indices-Rising :
    (sigs : List String) (last i : ℕ) (lns : List String)
    → last ≤ i
    → Rising last (match_indices sigs i lns)
unfolding match_indices
match_indices-Rising sigs last i [] le = tt
match_indices-Rising sigs last i (ln ∷ lns) le = elim (Bool-cases (matches sigs ln)) [
  | inl e ↦ rw (e, Rising) (le, match_indices-Rising sigs i (suc i) lns (omega arith))
  | inr e ↦ rw (e, Rising) (match_indices-Rising sigs last (suc i) lns (omega (arith, le)))
]

cluster_end-le : (last : ℕ) (idxs : List ℕ) → Rising last idxs → last ≤ cluster_end last idxs
unfolding cluster_end
cluster_end-le last [] h = omega arith
cluster_end-le last (idx ∷ idxs) (le, h) = ground (arith, le, cluster_end-le idx idxs h)

-- the first index is that of a line that matches
first-hit :
    (sigs : List String) (i first : ℕ) (idxs : List ℕ) (lns : List String)
    → match_indices sigs i lns ≡ first ∷ idxs
    → (k : ℕ) × (first ≡ i + k) × (k < length lns) × (hit sigs k lns ≡ true)
unfolding match_indices hit
first-hit sigs i first idxs [] e = cc
first-hit sigs i first idxs (ln ∷ lns) e = elim (Bool-cases (matches sigs ln)) [
  | inl m ↦ (0, ground (arith, m, e), ground arith, m)
  | inr m ↦
      let (k, at, le, h) = first-hit sigs (suc i) first idxs lns (rw m at e) in
      (suc k, omega (arith, at), omega (arith, le), h)
]

no_index :
    (sigs : List String) (i : ℕ) (lns : List String)
    → match_indices sigs i lns ≡ []
    → any_match sigs lns ≡ false
unfolding match_indices any_match
no_index sigs i [] e = refl
no_index sigs i (ln ∷ lns) e = ground (arith, e, no_index sigs (suc i) lns)

window_at-match :
    (sigs lns : List String) (idxs : List ℕ)
    → match_indices sigs 0 lns ≡ idxs
    → any_match sigs lns ≡ true
    → any_match sigs (window_at lns idxs) ≡ true
unfolding window_at
window_at-match sigs lns [] e h = absurd (ground (arith, h, no_index sigs 0 lns e))
window_at-match sigs lns (first ∷ idxs) e h =
    let (k, at, inside, hits) = first-hit sigs 0 first idxs lns e in
    let rising : Rising 0 (first ∷ idxs) =
      subst (Rising 0) e (match_indices-Rising sigs 0 0 lns (omega arith)) in
    let covered = cluster_end-le first idxs rising.1 in
    let start = first - highlight_context_lines in
    let end = min (length lns) (cluster_end first idxs + highlight_context_lines + 1) in
    hit-take sigs (first - start) (end - start) (drop start lns)
      (hit-drop sigs k start (first - start) lns (omega (arith, at)) hits)
      (omega (arith, at, inside, covered))

highlight_of-some :
    (lns sigs : List String)
    → any_match sigs lns ≡ true
    → highlight_of lns sigs ≡ some (join "\n" (window sigs lns))
unfolding highlight_of any_match
highlight_of-some [] sigs h = ground (arith, h)
highlight_of-some (ln ∷ lns) sigs h = refl

-- If one of the lines that the log shows (neither blank nor a comment) contains a signature of the
-- scenario, there is a highlight, and one of its own lines contains a signature.
pub highlight_shows_match :
    (log_text : String) (sigs : List String)
    → any_match sigs (shown_lines log_text) ≡ true
    → (extract_highlight log_text sigs ≡ some (join "\n" (window sigs (shown_lines log_text))))
      × (any_match sigs (window sigs (shown_lines log_text)) ≡ true)
unfolding extract_highlight window
highlight_shows_match log_text sigs h = (
  highlight_of-some (shown_lines log_text) sigs h,
  window_at-match sigs (shown_lines log_text) (match_indices sigs 0 (shown_lines log_text)) refl h,
)
