-- ===== src/Terminal/Console/Actions.antt =====
-- services/terminal/console.py: `run_target`, `run_reset`, `reset_main_session` and
-- `check_configured`.
use nemoclaw_lab_cl.Base.{
  String, Bool, true, false, not, Option, none, some, List, [], ◌∷◌, ◌==◌, ◌&&◌, if◌then◌else◌,
}
use nemoclaw_lab_cl.Base.Dict.{Dict, put, keys}
use nemoclaw_lab_cl.Base.Text.{text, join, strip, slice_to}
use nemoclaw_lab_cl.Terminal.Process.{
  Host, Io, Completed, NotInstalled, not_installed, return, ◌▸◌, recover, run, print, say,
  read_text, write_text, make_parent, in_world,
}
use nemoclaw_lab_cl.Terminal.Console.{
  MenuTarget, workspace_file, skill, ConsoleConfig, content_path, edit_path, scratch_path,
  download_argv, push_argv, editor_argv, validate_skill_content, blank_content, editors,
}

abbrev or_empty : Option String → String
or_empty none = ""
or_empty (some body) = body

abbrev console_line : List String → String
console_line parts = text ("[console] " ∷ parts)

unfoldable pub no_editor : (String → String) → ConsoleConfig → String
no_editor repr config = console_line (
    "editor not found: "
    ∷ repr config.editor_bin
    ∷ " is not installed on this host.\n"
    ∷ "[console] Tried:"
    ∷ join ", " (keys editors)
    ∷ " — none present.\n"
    ∷ "[console] Install one ('sudo apt-get install -y vim'), or set TERMINAL_EDITOR_BIN\n"
    ∷ "[console] plus TERMINAL_EDITOR_ARGS to something that can run restricted\n"
    ∷ "[console] (nano needs '-R', NOT vim's '-Z', which nano reads as --zap),\n"
    ∷ "[console] then restart the terminal daemon."
    ∷ [])

module _ (h : Host) (repr : String → String) (config : ConsoleConfig) where
  abbrev pub push_of : MenuTarget → List String
  push_of t = push_argv config.nemoclaw_bin config.sandbox_name t config.workspace_dir

  abbrev pub download_to : MenuTarget → String → List String
  download_to t dest = download_argv config.nemoclaw_bin config.sandbox_name t dest

  abbrev pub file_of : MenuTarget → String
  file_of t = edit_path t config.workspace_dir

  -- the end of `run_target`
  unfoldable pub report_push : MenuTarget → Completed → Io h Bool
  unfolding print
  report_push t pushed = print (strip pushed.stdout) ▸ λ _.
      if pushed.success
      then say true (console_line ("pushed to sandbox. (target=" ∷ t.key ∷ ")" ∷ []))
      else say false (console_line ("push FAILED: " ∷ strip pushed.stderr ∷ []))

  unfoldable pub push_edited : MenuTarget → Io h Bool
  unfolding report_push run
  push_edited t = run (push_of t) ▸ report_push t

  -- the check of a skill before its push
  unfoldable pub push_checked : MenuTarget → Option String → Io h Bool
  unfolding push_edited print
  push_checked t none = push_edited t
  push_checked t (some error) = print (console_line ("NOT pushed — " ∷ error ∷ "." ∷ [])) ▸ λ _.
      say false
        (console_line ("The paste likely got mangled. Pick the same menu item and try again." ∷ []))

  unfoldable pub problem_in : MenuTarget → Option String → Option String
  problem_in t body = elim t.kind [
    | workspace_file ↦ none
    | skill ↦ validate_skill_content (or_empty body)
  ]

  unfoldable pub edited : MenuTarget → Io h Bool
  unfolding push_checked problem_in
  edited t = read_text (file_of t) ▸ λ body. push_checked t (problem_in t body)

  -- `if dl.returncode != 0: print(...)`
  unfoldable pub note_skipped : Completed → Io h (Unit {0})
  unfolding print
  note_skipped dl =
      if dl.success
      then return tt
      else print (console_line ("download skipped (not yet in sandbox?): " ∷ strip dl.stderr ∷ []))

  unfoldable pub edit : MenuTarget → Io h Bool
  unfolding edited no_editor print run
  edit t c =
      recover (λ _. edited t) (λ _. say false (no_editor repr config))
        (run (editor_argv config.editor_bin config.editor_args (file_of t)) c)

  unfoldable pub run_target : MenuTarget → Io h Bool
  unfolding edit note_skipped run
  run_target t = make_parent (file_of t) ▸ λ _.
      run (download_to t (scratch_path config.workspace_dir t)) ▸ λ dl.
      note_skipped dl ▸ λ _. edit t

  abbrev pub session_argv : List String
  session_argv =
      config.nemoclaw_bin ∷ config.sandbox_name ∷ "sessions" ∷ "reset" ∷ "main" ∷ "--reason" ∷ "new"
      ∷ []

  abbrev pub skipped : String → Io h Bool
  skipped detail = say false (console_line ("session reset skipped: " ∷ detail ∷ []))

  abbrev pub not_run : NotInstalled → Io h Bool
  not_run (not_installed exc) = skipped exc

  -- `result.stderr or result.stdout or ""`
  abbrev detail_of : Completed → String
  detail_of r = if r.stderr == "" then r.stdout else r.stderr

  unfoldable pub session_answered : Completed → Io h Bool
  unfolding print
  session_answered r =
      if r.success
      then say true
          (console_line ("session reset — next message starts a fresh conversation." ∷ []))
      else skipped (slice_to 200 (strip (detail_of r)))

  unfoldable pub reset_main_session : Io h Bool
  unfolding session_answered print run
  reset_main_session c = recover session_answered not_run (run session_argv c)

  -- one turn of the loop of `run_reset`
  unfoldable pub report_reset : MenuTarget → Completed → Io h Bool
  unfolding print
  report_reset t pushed =
      let name = content_path t.kind t.scratch_rel in
      if pushed.success
      then say true (console_line ("blanked and pushed " ∷ name ∷ []))
      else say false
          (console_line ("reset push FAILED for " ∷ name ∷ ": " ∷ strip pushed.stderr ∷ []))

  unfoldable pub reset_target : MenuTarget → Io h Bool
  unfolding report_reset run
  reset_target t = make_parent (file_of t) ▸ λ _.
      write_text (file_of t) (blank_content t) ▸ λ _. run (push_of t) ▸ report_reset t

  -- `all_ok` after the loop
  unfoldable pub reset_targets : List MenuTarget → Io h Bool
  unfolding reset_target
  reset_targets [] = return true
  reset_targets (t ∷ targets) =
      reset_target t ▸ λ pushed. reset_targets targets ▸ λ others. return (pushed && others)

  abbrev pub report_complete : Bool → Io h Bool
  report_complete true =
      say true (console_line ("reset complete — all config files blanked in the sandbox." ∷ []))
  report_complete false = return false

  unfoldable pub run_reset : List MenuTarget → Io h Bool
  unfolding reset_targets reset_main_session print
  run_reset targets =
      reset_targets targets ▸ λ all_ok. reset_main_session ▸ λ _. report_complete all_ok

  -- `bool(content) and content != blank_content(target)`
  unfoldable pub differs : MenuTarget → Option String → Bool
  differs t none = false
  differs t (some content) = not (content == "") && not (content == blank_content t)

  abbrev pub downloaded : MenuTarget → String → Completed → Io h (Option String)
  downloaded t dest dl = if dl.success then read_text (content_path t.kind dest) else return none

  -- the body of a `with` block on a temporary directory, whose end is reached by an error too
  abbrev pub within : {A : Type 0} → String → Io h A → Io h A
  within tmp_dir m c =
      let (result, c') = m c in (result, record c' { world = h.remove_temporary tmp_dir c'.world })

  unfoldable pub content_in : MenuTarget → String → Io h (Option String)
  unfolding run
  content_in t dest = run (download_to t dest) ▸ downloaded t dest

  unfoldable pub check_target : MenuTarget → Io h Bool
  unfolding differs content_in
  check_target t = in_world h.make_temporary ▸ λ tmp_dir.
      within tmp_dir (content_in t (text (tmp_dir ∷ "/download" ∷ []))) ▸ λ content.
      return (differs t content)

  -- the loop, with the dict that it fills
  unfoldable pub check_targets : List MenuTarget → Dict Bool → Io h (Dict Bool)
  unfolding check_target
  check_targets [] result = return result
  check_targets (t ∷ targets) result =
      check_target t ▸ λ configured. check_targets targets (put t.key configured result)

  unfoldable pub check_configured : List MenuTarget → Io h (Dict Bool)
  unfolding check_targets
  check_configured targets = check_targets targets []
