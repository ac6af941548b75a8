-- ===== src/Terminal/Console/Commands.antt =====
-- services/terminal/console.py: the command lines that the console runs.
pub mod Loop
pub mod Checks
use mathlib.Core.List.{Memᴰ}
use nemoclaw_lab_cl.Base.{
  String, Bool, true, false, Option, none, some, List, [], ◌∷◌, if◌then◌else◌, Result, ok, err, All,
  All-append, ◌≡◌, refl, inl, inr, arith, ◌==◌, elem, Bool-cases,
}
use nemoclaw_lab_cl.Base.Text.{strip}
use nemoclaw_lab_cl.Base.Text.Words.{lower_is}
use nemoclaw_lab_cl.Terminal.Process.Runs.{
  RunsOnly, ran-recover, RunsOnly-return, RunsOnly-bind, RunsOnly-if, RunsOnly-run, RunsOnly-print,
  RunsOnly-say, RunsOnly-read_text, RunsOnly-make_parent, RunsOnly-write_text,
}
use nemoclaw_lab_cl.Terminal.Process.{
  Host, Console, Io, Completed, NotInstalled, not_installed, return, ◌▸◌, after, recover, run,
  print, say, read_text, write_text, make_parent, in_world,
}
use nemoclaw_lab_cl.Terminal.Console.{
  MenuTarget, ConsoleConfig, menu_targets, find_target, scratch_path, editor_argv,
}
use nemoclaw_lab_cl.Terminal.Console.Actions.{
  push_of, download_to, file_of, session_argv, report_complete, push_edited, report_push,
  push_checked, edited, note_skipped, edit, run_target, session_answered, reset_main_session,
  report_reset, reset_target, reset_targets, run_reset,
}
use nemoclaw_lab_cl.Terminal.Console.Loop.{
  Prompt, at_menu, confirming, waiting, returned, Session, show_at, select, confirmed, confirm,
  answer, ended, main_loop, main, chosen,
}

each_known :
    (targets : List MenuTarget)
    → ((t : MenuTarget) → Memᴰ t targets → Memᴰ t menu_targets)
    → All (λ t. Memᴰ t menu_targets) targets
each_known [] within = tt
each_known (t ∷ targets) within =
    (within t (Memᴰ.head refl), each_known targets (λ u known. within u (Memᴰ.tail known)))

pub menu_known : All (λ t. Memᴰ t menu_targets) menu_targets
menu_known = each_known menu_targets (λ t known. known)

module _ (h : Host) (repr : String → String) (config : ConsoleConfig) where
  -- The command lines that the configuration and the menu fix. No text that the operator types
  -- occurs in them.
  pub data IsCommand : List String → Type 0 where
    is_download :
        {t : MenuTarget}
        → Memᴰ t menu_targets
        → IsCommand (download_to h repr config t (scratch_path config.workspace_dir t))
    is_edit :
        {t : MenuTarget}
        → Memᴰ t menu_targets
        → IsCommand (editor_argv config.editor_bin config.editor_args (file_of h repr config t))
    is_push : {t : MenuTarget} → Memᴰ t menu_targets → IsCommand (push_of h repr config t)
    is_session_reset : IsCommand (session_argv h repr config)

  abbrev pub Ran : Console h → Type 0
  Ran c = All IsCommand c.ran

  abbrev pub Keeps : {A : Type 0} → Io h A → Type 0
  Keeps m = RunsOnly h IsCommand m

  Keeps-push_edited : (t : MenuTarget) → Memᴰ t menu_targets → Keeps (push_edited h repr config t)
  unfolding push_edited report_push
  Keeps-push_edited t known = RunsOnly-bind _ _ (RunsOnly-run _ (is_push known)) λ pushed.
      RunsOnly-bind _ _ (RunsOnly-print _)
        λ _. RunsOnly-if _ _ _ (RunsOnly-say true _) (RunsOnly-say false _)

  Keeps-push_checked :
      (t : MenuTarget) (problem : Option String)
      → Memᴰ t menu_targets
      → Keeps (push_checked h repr config t problem)
  unfolding push_checked
  Keeps-push_checked t none known = Keeps-push_edited t known
  Keeps-push_checked t (some error) known =
      RunsOnly-bind _ _ (RunsOnly-print _) λ _. RunsOnly-say false _

  Keeps-edited : (t : MenuTarget) → Memᴰ t menu_targets → Keeps (edited h repr config t)
  unfolding edited
  Keeps-edited t known =
      RunsOnly-bind _ _ (RunsOnly-read_text _) λ body. Keeps-push_checked t _ known

  Keeps-edit : (t : MenuTarget) → Memᴰ t menu_targets → Keeps (edit h repr config t)
  unfolding edit
  Keeps-edit t known = record {
    runs_only = λ c hc.
        ran-recover _ _
          (run (editor_argv config.editor_bin config.editor_args (file_of h repr config t)) c)
          (λ _. Keeps-edited t known) (λ _. RunsOnly-say false _)
          ((RunsOnly-run _ (is_edit known)).runs_only c hc);
  }

  Keeps-run_target : (t : MenuTarget) → Memᴰ t menu_targets → Keeps (run_target h repr config t)
  unfolding run_target note_skipped
  Keeps-run_target t known = RunsOnly-bind _ _ (RunsOnly-make_parent _) λ _.
      RunsOnly-bind _ _ (RunsOnly-run _ (is_download known)) λ dl.
        RunsOnly-bind _ _ (RunsOnly-if _ _ _ (RunsOnly-return tt) (RunsOnly-print _))
          λ _. Keeps-edit t known

  Keeps-session_answered : (r : Completed) → Keeps (session_answered h repr config r)
  unfolding session_answered
  Keeps-session_answered r = RunsOnly-if _ _ _ (RunsOnly-say true _) (RunsOnly-say false _)

  Keeps-reset_main_session : Keeps (reset_main_session h repr config)
  unfolding reset_main_session
  Keeps-reset_main_session = record {
    runs_only = λ c hc.
        ran-recover _ _ (run (session_argv h repr config) c) Keeps-session_answered
          (elim [ not_installed exc ↦ RunsOnly-say false _ ])
          ((RunsOnly-run _ is_session_reset).runs_only c hc);
  }

  Keeps-report_reset :
      (t : MenuTarget) (pushed : Completed) → Keeps (report_reset h repr config t pushed)
  unfolding report_reset
  Keeps-report_reset t pushed = RunsOnly-if _ _ _ (RunsOnly-say true _) (RunsOnly-say false _)

  Keeps-reset_target : (t : MenuTarget) → Memᴰ t menu_targets → Keeps (reset_target h repr config t)
  unfolding reset_target
  Keeps-reset_target t known = RunsOnly-bind _ _ (RunsOnly-make_parent _) λ _.
      RunsOnly-bind _ _ (RunsOnly-write_text _ _)
        λ _. RunsOnly-bind _ _ (RunsOnly-run _ (is_push known)) (Keeps-report_reset t)

  Keeps-reset_targets :
      (targets : List MenuTarget)
      → All (λ t. Memᴰ t menu_targets) targets
      → Keeps (reset_targets h repr config targets)
  unfolding reset_targets
  Keeps-reset_targets [] known = RunsOnly-return true
  Keeps-reset_targets (t ∷ targets) (here, there) =
      RunsOnly-bind _ _ (Keeps-reset_target t here)
        λ pushed. RunsOnly-bind _ _ (Keeps-reset_targets targets there) λ others. RunsOnly-return _

  Keeps-report_complete : (all_ok : Bool) → Keeps (report_complete h repr config all_ok)
  Keeps-report_complete true = RunsOnly-say true _
  Keeps-report_complete false = RunsOnly-return false

  pub Keeps-run_reset :
      (targets : List MenuTarget)
      → All (λ t. Memᴰ t menu_targets) targets
      → Keeps (run_reset h repr config targets)
  unfolding run_reset
  Keeps-run_reset targets known =
      RunsOnly-bind _ _ (Keeps-reset_targets targets known)
        λ all_ok. RunsOnly-bind _ _ Keeps-reset_main_session λ _. Keeps-report_complete all_ok
