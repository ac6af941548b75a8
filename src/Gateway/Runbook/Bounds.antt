-- ===== src/Gateway/Runbook/Bounds.antt =====
-- services/gateway/router.py: a step detail fits the dashboard.
use nemoclaw_lab_cl.Base.{
  ◌-◌, ◌≤◌, ◌<◌, ◌≡◌, ◌≢◌, refl, arith, eq_iff, Option, none, some, List, [], ◌∷◌, ◌==◌, ltb,
  Bool-cases, inl, inr, String, subst,
}
use nemoclaw_lab_cl.Base.Text.{
  text, chars, slice_to, rstrip_by, one_of, splitlines, strip, lstrip_by,
}
use nemoclaw_lab_cl.Base.Text.Laws.{chars-append, chars-rstrip_by, chars-slice_to}
use nemoclaw_lab_cl.Gateway.Runbook.{
  shorten, detail_of, detail_in, detail_behind, after_heading, first_sentence, ends_search,
  kb_step_detail, max_step_detail_chars,
}

Fits : String → Type 0
Fits s = (0 < chars s) × (chars s ≤ 160)

cut-Fits :
    (s : String)
    → Fits (text (rstrip_by (one_of ",;: ") (slice_to (max_step_detail_chars - 1) s) ∷ "…" ∷ []))
unfolding Fits text chars
cut-Fits s =
    let body = rstrip_by (one_of ",;: ") (slice_to (max_step_detail_chars - 1) s) in
    let size = chars-append body (text ("…" ∷ [])) in
    let small = chars-rstrip_by (one_of ",;: ") (slice_to (max_step_detail_chars - 1) s) in
    let cut = chars-slice_to (max_step_detail_chars - 1) s in omega (arith, size, small, cut)

chars-pos : (s : String) → s ≢ "" → 0 < chars s
unfolding chars
chars-pos String.[] h = absurd (h refl)
chars-pos (String.◌∷◌ c s) h = omega arith

shorten-Fits : (s : String) → s ≢ "" → Fits (shorten s)
unfolding shorten Fits
shorten-Fits s h = elim (Bool-cases (ltb max_step_detail_chars (chars s))) [
  | inl e ↦ rw e (unfold Fits in cut-Fits s)
  | inr e ↦ rw e (chars-pos s h, ground arith)
]

detail_of-Fits : (s : String) {d : String} → detail_of s ≡ some d → Fits d
unfolding detail_of
detail_of-Fits s {d} e = elim (Bool-cases (s == "")) [
  | inl empty ↦ absurd (ground arith)
  | inr full ↦
      let same : shorten s ≡ d = ground arith in
      subst Fits same (shorten-Fits s (λ p. absurd (ground (arith, eq_iff s ""))))
]

detail_in-Fits : (lines : List String) {d : String} → detail_in lines ≡ some d → Fits d
unfolding detail_in
detail_in-Fits [] e = cc
detail_in-Fits (ln ∷ lines) {d} e =
    let item = strip (lstrip_by (one_of "-*0123456789. ") (strip ln)) in
    elim (Bool-cases (strip ln == "")) [
      | inl blank ↦ detail_in-Fits lines (ground arith)
      | inr full ↦ elim (Bool-cases (ends_search (strip ln))) [
        | inl stop ↦ absurd (ground arith)
        | inr on ↦ elim (Bool-cases (item == "")) [
          | inl bare ↦ detail_in-Fits lines (ground arith)
          | inr prose ↦ detail_of-Fits (first_sentence item) (ground arith)
        ]
      ]
    ]

detail_behind-Fits : (o : Option (List String)) {d : String} → detail_behind o ≡ some d → Fits d
unfolding detail_behind
detail_behind-Fits none e = cc
detail_behind-Fits (some lines) e = detail_in-Fits lines e

-- A detail that is found is not empty and has at most 160 characters, whatever the article.
pub kb_step_detail_bounds :
    (body_md step_id d : String)
    → kb_step_detail body_md step_id ≡ some d
    → (0 < chars d) × (chars d ≤ 160)
unfolding kb_step_detail Fits
kb_step_detail_bounds body_md step_id d e =
    detail_behind-Fits (after_heading step_id (splitlines body_md)) e
