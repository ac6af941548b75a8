-- ===== src/Terminal/Console/Commands/Checks.antt =====
-- services/terminal/console.py: the command lines that `check_configured` runs.
use mathlib.Core.List.{Memᴰ}
use nemoclaw_lab_cl.Base.{String, Bool, List, [], ◌∷◌, All}
use nemoclaw_lab_cl.Base.Dict.{Dict}
use nemoclaw_lab_cl.Base.Text.{text}
use nemoclaw_lab_cl.Terminal.Process.{Host, Io}
use nemoclaw_lab_cl.Terminal.Process.Runs.{
  RunsOnly, RunsOnly-return, RunsOnly-bind, RunsOnly-if, RunsOnly-run, RunsOnly-read_text,
  RunsOnly-in_world,
}
use nemoclaw_lab_cl.Terminal.Console.{MenuTarget, ConsoleConfig, menu_targets}
use nemoclaw_lab_cl.Terminal.Console.Actions.{
  download_to, within, content_in, check_target, check_targets, check_configured,
}
use nemoclaw_lab_cl.Terminal.Console.Commands.{menu_known}

module _ (h : Host) (repr : String → String) (config : ConsoleConfig) where
  -- a download of a target into a temporary directory
  pub data IsCheck : List String → Type 0 where
    is_check :
        {t : MenuTarget} (tmp_dir : String)
        → Memᴰ t menu_targets
        → IsCheck (download_to h repr config t (text (tmp_dir ∷ "/download" ∷ [])))

  RunsOnly-within :
      {A : Type 0} (tmp_dir : String) (m : Io h A)
      → RunsOnly h IsCheck m
      → RunsOnly h IsCheck (within h repr config tmp_dir m)
  RunsOnly-within tmp_dir m hm = record { runs_only = λ c hc. hm.runs_only c hc }

  RunsOnly-check_target :
      (t : MenuTarget) → Memᴰ t menu_targets → RunsOnly h IsCheck (check_target h repr config t)
  unfolding check_target content_in
  RunsOnly-check_target t known = RunsOnly-bind _ _ (RunsOnly-in_world _) λ tmp_dir.
      RunsOnly-bind _ _
        (RunsOnly-within tmp_dir _ (
          RunsOnly-bind _ _ (RunsOnly-run _ (is_check tmp_dir known))
            λ dl. RunsOnly-if _ _ _ (RunsOnly-read_text _) (RunsOnly-return _)))
        λ content. RunsOnly-return _

  RunsOnly-check_targets :
      (targets : List MenuTarget) (result : Dict Bool)
      → All (λ t. Memᴰ t menu_targets) targets
      → RunsOnly h IsCheck (check_targets h repr config targets result)
  unfolding check_targets
  RunsOnly-check_targets [] result known = RunsOnly-return result
  RunsOnly-check_targets (t ∷ targets) result (here, there) =
      RunsOnly-bind _ _ (RunsOnly-check_target t here)
        λ configured. RunsOnly-check_targets targets _ there

  pub RunsOnly-check_configured : RunsOnly h IsCheck (check_configured h repr config menu_targets)
  unfolding check_configured
  RunsOnly-check_configured = RunsOnly-check_targets menu_targets [] menu_known
