-- ===== src/Terminal/Console/Commands/Loop.antt =====
-- services/terminal/console.py: the command lines that the main loop runs.
use mathlib.Core.List.{Memᴰ}
use nemoclaw_lab_cl.Base.{
  String, Option, none, some, List, [], ◌∷◌, ◌≡◌, refl, inl, inr, arith, ◌==◌, elem, Bool-cases,
}
use nemoclaw_lab_cl.Base.Text.{strip}
use nemoclaw_lab_cl.Base.Text.Words.{lower_is}
use nemoclaw_lab_cl.Terminal.Process.{Host, Console}
use nemoclaw_lab_cl.Terminal.Console.{MenuTarget, ConsoleConfig, menu_targets, find_target}
use nemoclaw_lab_cl.Terminal.Console.Loop.{
  Prompt, at_menu, confirming, waiting, returned, Session, show_at, select, confirmed, confirm,
  answer, ended, main_loop, main, chosen,
}
use nemoclaw_lab_cl.Terminal.Console.Commands.{
  Keeps, Ran, Keeps-run_target, Keeps-run_reset, menu_known,
}
use nemoclaw_lab_cl.Terminal.Process.Runs.{
  RunsOnly-bind, RunsOnly-say, RunsOnly-print, RunsOnly-return, RunsOnly-if,
}

module _ (h : Host) (repr : String → String) (config : ConsoleConfig) where
  find_target-Memᴰ :
      (selection : String) (targets : List MenuTarget) {t : MenuTarget}
      → find_target selection targets ≡ some t
      → Memᴰ t targets
  unfolding find_target
  find_target-Memᴰ selection [] e = cc
  find_target-Memᴰ selection (u ∷ targets) e = elim (Bool-cases (u.key == strip selection)) [
    | inl same ↦ Memᴰ.head (ground (arith, e, same))
    | inr other ↦ Memᴰ.tail (find_target-Memᴰ selection targets (ground (arith, e, other)))
  ]

  Keeps-chosen :
      (completed : List String) (selection : String) (found : Option MenuTarget)
      → ((t : MenuTarget) → found ≡ some t → Memᴰ t menu_targets)
      → Keeps h repr config (chosen h repr config completed selection found)
  Keeps-chosen completed selection none known = RunsOnly-say _ _
  Keeps-chosen completed selection (some t) known =
      RunsOnly-bind _ _ (Keeps-run_target h repr config t (known t refl))
        λ pushed. RunsOnly-return _

  Keeps-show_at :
      (completed : List String) (prompt : Prompt)
      → Keeps h repr config (show_at h repr config completed prompt)
  unfolding show_at
  Keeps-show_at completed at_menu = RunsOnly-bind _ _ (RunsOnly-print _) λ _. RunsOnly-print _
  Keeps-show_at completed confirming = RunsOnly-print _
  Keeps-show_at completed waiting = RunsOnly-print _
  Keeps-show_at completed returned = RunsOnly-return tt

  Keeps-select :
      (completed : List String) (line : String)
      → Keeps h repr config (select h repr config completed line)
  unfolding select
  Keeps-select completed line =
      RunsOnly-if (elem (strip line) ("q" ∷ "Q" ∷ [])) _ _
        (RunsOnly-return (record { prompt = returned; completed = completed }))
        (RunsOnly-if (lower_is (strip line) "r") _ _
          (RunsOnly-return (record { prompt = confirming; completed = completed }))
          (Keeps-chosen completed line _ (λ t found. find_target-Memᴰ line menu_targets found)))

  Keeps-confirm :
      (completed : List String) (line : String)
      → Keeps h repr config (confirm h repr config completed line)
  unfolding confirm confirmed
  Keeps-confirm completed line =
      RunsOnly-if (lower_is (strip line) "yes") _ _
        (RunsOnly-bind _ _ (Keeps-run_reset h repr config menu_targets menu_known)
          λ all_ok. RunsOnly-return _)
        (RunsOnly-say _ _)

  Keeps-answer :
      (completed : List String) (prompt : Prompt) (line : String)
      → Keeps h repr config (answer h repr config completed prompt line)
  unfolding answer
  Keeps-answer completed at_menu line = Keeps-select completed line
  Keeps-answer completed confirming line = Keeps-confirm completed line
  Keeps-answer completed waiting line = RunsOnly-return _
  Keeps-answer completed returned line = RunsOnly-return _

  Keeps-ended :
      (completed : List String) (prompt : Prompt)
      → Keeps h repr config (ended h repr config completed prompt)
  unfolding ended
  Keeps-ended completed at_menu = RunsOnly-say _ _
  Keeps-ended completed confirming = RunsOnly-say _ _
  Keeps-ended completed waiting = RunsOnly-say _ _
  Keeps-ended completed returned = RunsOnly-return _

  Keeps-main_loop :
      (lines : List String) (s : Session) → Keeps h repr config (main_loop h repr config lines s)
  unfolding main_loop
  Keeps-main_loop [] s = RunsOnly-bind _ _ (Keeps-show_at _ _) λ _. Keeps-ended _ _
  Keeps-main_loop (line ∷ lines) s =
      RunsOnly-bind _ _ (Keeps-show_at _ _)
        λ _. RunsOnly-bind _ _ (Keeps-answer _ _ line) (Keeps-main_loop lines)

  -- Whatever the operator types, the console runs only command lines that the configuration and the
  -- menu fix, so no typed text reaches a command line.
  pub main-IsCommand :
      (lines : List String) (c : Console h)
      → c.ran ≡ []
      → Ran h repr config (main h repr config lines c).1
  unfolding main
  main-IsCommand lines c fresh = (Keeps-main_loop lines _).runs_only c (rw fresh tt)
