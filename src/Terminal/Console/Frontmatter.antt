-- ===== src/Terminal/Console/Frontmatter.antt =====
-- services/terminal/console.py, `validate_skill_content`: an independent description of the
-- frontmatter that it accepts, and the stub that a reset writes.
use nemoclaw_lab_cl.Base.{
  String, true, false, Option, none, some, List, [], ◌∷◌, ◌==◌, ◌≡◌, ◌≢◌, ◌↔◌, refl, arith, eq_iff,
  Bool-cases, inl, inr, All, Option-cases, subst,
}
use nemoclaw_lab_cl.Base.Text.{text, strip, lstrip, startswith, splitlines, after_last_slash}
use nemoclaw_lab_cl.Terminal.Console.{
  MenuTarget, skill, menu_targets, find_target, until_close, any_name, check_names, validate_lines,
  validate_skill_content, blank_content, skill_name,
}

-- The lines up to the first closing fence.
pub data IsClosed : List String → List String → Type 0 where
  closes : {line : String} {rest : List String} → strip line ≡ "---" → IsClosed [] (line ∷ rest)
  goes_on :
      {line : String} {body lines : List String}
      → strip line ≢ "---"
      → IsClosed body lines
      → IsClosed (line ∷ body) (line ∷ lines)

-- One of the lines is a `name:` key.
pub data HasName : List String → Type 0 where
  is_name :
      {line : String} {lines : List String}
      → startswith (lstrip line) "name:" ≡ true
      → HasName (line ∷ lines)
  later : {line : String} {lines : List String} → HasName lines → HasName (line ∷ lines)

-- A fence, lines with a name among them, and a fence.
pub data IsInstallable : List String → Type 0 where
  frontmatter :
      {first : String} {body lines : List String}
      → strip first ≡ "---"
      → IsClosed body lines
      → HasName body
      → IsInstallable (first ∷ lines)

fence_apart : (line : String) → strip line ≢ "---" → (strip line == "---") ≡ false
fence_apart line apart = ground (arith, eq_iff (strip line) "---", apart)

until_close-IsClosed :
    (lines : List String) {body : List String} → until_close lines ≡ some body → IsClosed body lines
unfolding until_close
until_close-IsClosed [] e = cc
until_close-IsClosed (line ∷ lines) {body} e = elim (Bool-cases (strip line == "---")) [
  | inl fence ↦
      let empty : [] ≡ body = ground (arith, e, fence) in
      subst (λ b. IsClosed b (line ∷ lines)) empty (closes ((eq_iff (strip line) "---").0 fence))
  | inr inner ↦ elim (Option-cases (until_close lines)) [
    | inl open_ ↦ absurd (ground (arith, e, inner, open_))
    | inr (rest, found) ↦
        let longer : (line ∷ rest) ≡ body = ground (arith, e, inner, found) in
        let apart : strip line ≢ "---" =
          λ same. absurd (ground (arith, eq_iff (strip line) "---", inner, same)) in
        subst (λ b. IsClosed b (line ∷ lines)) longer
          (goes_on apart (until_close-IsClosed lines found))
  ]
]

IsClosed-until_close :
    {body lines : List String} → IsClosed body lines → until_close lines ≡ some body
unfolding until_close
IsClosed-until_close (closes e) = rw e refl
IsClosed-until_close (goes_on {line = line} apart rest) =
    rw (fence_apart line apart, IsClosed-until_close rest) refl

any_name-HasName : (lines : List String) → any_name lines ≡ true → HasName lines
unfolding any_name
any_name-HasName [] e = cc
any_name-HasName (line ∷ lines) e = elim (Bool-cases (startswith (lstrip line) "name:")) [
  | inl here ↦ is_name here
  | inr other ↦ later (any_name-HasName lines (ground (arith, e, other)))
]

HasName-any_name : {lines : List String} → HasName lines → any_name lines ≡ true
unfolding any_name
HasName-any_name (is_name here) = rw here refl
HasName-any_name (later {line = line} there) = ground (arith, HasName-any_name there)

All-find_target :
    (P : MenuTarget → Type 0) (selection : String) (targets : List MenuTarget) {t : MenuTarget}
    → All P targets
    → find_target selection targets ≡ some t
    → P t
unfolding find_target
All-find_target P selection [] known e = cc
All-find_target P selection (u ∷ targets) {t} (here, there) e =
    elim (Bool-cases (u.key == strip selection)) [
      | inl same ↦ let found : u ≡ t = ground (arith, e, same) in subst P found here
      | inr other ↦ All-find_target P selection targets there (ground (arith, e, other))
    ]

check_names-HasName :
    (o : Option (List String))
    → check_names o ≡ none
    → (body : List String) × (o ≡ some body) × HasName body
unfolding check_names
check_names-HasName none e = cc
check_names-HasName (some body) e = elim (Bool-cases (any_name body)) [
  | inl named ↦ (body, refl, any_name-HasName body named)
  | inr unnamed ↦ absurd (ground (arith, e, unnamed))
]

accepted : (lines : List String) → validate_lines lines ≡ none → IsInstallable lines
unfolding validate_lines
accepted [] e = cc
accepted (first ∷ lines) e = elim (Bool-cases (strip first == "---")) [
  | inl fence ↦
      let (body, closed, named) =
        check_names-HasName (until_close lines) (ground (arith, e, fence)) in
      frontmatter ((eq_iff (strip first) "---").0 fence) (until_close-IsClosed lines closed) named
  | inr other ↦ absurd (ground (arith, e, other))
]

accepts : {lines : List String} → IsInstallable lines → validate_lines lines ≡ none
unfolding validate_lines check_names
accepts (frontmatter {first = first} fence closed named) =
    rw (fence, IsClosed-until_close closed, HasName-any_name named) refl

-- The check of a skill file accepts a text exactly when its lines are an opening fence, lines with a
-- `name:` key among them, and a closing fence.
pub validate_skill_content-IsInstallable :
    (body : String) → (validate_skill_content body ≡ none) ↔ IsInstallable (splitlines body)
unfolding validate_skill_content
validate_skill_content-IsInstallable body = (accepted (splitlines body), accepts)

abbrev BlankInstalls : MenuTarget → Type 0
BlankInstalls t = t.kind ≡ skill → validate_skill_content (blank_content t) ≡ none

blanks_install : All BlankInstalls menu_targets
unfolding menu_targets validate_skill_content blank_content skill_name validate_lines text
    splitlines after_last_slash strip startswith lstrip
blanks_install = (λ k. cc, (λ k. cc, (λ k. refl, (λ k. refl, (λ k. refl, (λ k. refl, tt))))))

-- The stub that a reset writes for a skill of the menu passes the check that a skill has to pass
-- before it is pushed.
pub blank_content-installs :
    (selection : String) {t : MenuTarget}
    → find_target selection menu_targets ≡ some t
    → t.kind ≡ skill
    → validate_skill_content (blank_content t) ≡ none
blank_content-installs selection found =
    All-find_target BlankInstalls selection menu_targets blanks_install found
