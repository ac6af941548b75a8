-- ===== src/Terminal/Console/Loop.antt =====
-- services/terminal/console.py, `main`: a machine that stands at one of its three `input()` calls and
-- takes one line from the operator at a time. The end of the lines is `EOFError`; a
-- `KeyboardInterrupt` at a prompt ends the loop the same way.
use nemoclaw_lab_cl.Base.{String, Option, none, some, List, [], ◌∷◌, if◌then◌else◌, elem}
use nemoclaw_lab_cl.Base.Text.{text, strip}
use nemoclaw_lab_cl.Base.Text.Words.{lower_is}
use nemoclaw_lab_cl.Terminal.Process.{Host, Io, return, ◌▸◌, print, say}
use nemoclaw_lab_cl.Terminal.Console.{
  MenuTarget, ConsoleConfig, menu_targets, format_menu, find_target, clear_screen,
}
use nemoclaw_lab_cl.Terminal.Console.Actions.{run_target, run_reset}

pub data Prompt : Type 0 where
  at_menu confirming waiting returned : Prompt

pub record Session : Type 0 where
  pub prompt : Prompt
  pub completed : List String

module _ (h : Host) (repr : String → String) (config : ConsoleConfig) where
  -- what is printed up to an `input()`, its own prompt included
  unfoldable pub show_at : List String → Prompt → Io h (Unit {0})
  unfolding print format_menu
  show_at completed at_menu =
      print clear_screen ▸ λ _. print (format_menu config.sandbox_name menu_targets completed)
  show_at completed confirming =
      print
        "[console] This blanks SOUL.md, AGENTS.md and all four SKILL.md files in the sandbox. Type 'yes' to continue: "
  show_at completed waiting = print "\n[console] Press Enter to return to the menu..."
  show_at completed returned = return tt

  abbrev pub chosen : List String → String → Option MenuTarget → Io h Session
  chosen completed selection none =
      say (record { prompt = at_menu; completed = completed })
        (text ("[console] no such option: " ∷ repr selection ∷ []))
  chosen completed selection (some t) = run_target h repr config t ▸ λ pushed.
      return
        (record { prompt = waiting; completed = if pushed then t.key ∷ completed else completed })

  unfoldable pub select : List String → String → Io h Session
  unfolding find_target run_target print
  select completed selection =
      if elem (strip selection) ("q" ∷ "Q" ∷ [])
      then return (record { prompt = returned; completed = completed })
      else if lower_is (strip selection) "r"
      then return (record { prompt = confirming; completed = completed })
      else chosen completed selection (find_target selection menu_targets)

  unfoldable pub confirmed : List String → Io h Session
  unfolding run_reset
  confirmed completed = run_reset h repr config menu_targets ▸ λ all_ok.
      return (record { prompt = waiting; completed = if all_ok then [] else completed })

  unfoldable pub confirm : List String → String → Io h Session
  unfolding confirmed print lower_is
  confirm completed answer =
      if lower_is (strip answer) "yes"
      then confirmed completed
      else say (record { prompt = waiting; completed = completed }) "[console] reset cancelled."

  unfoldable pub answer : List String → Prompt → String → Io h Session
  unfolding select confirm
  answer completed at_menu line = select completed line
  answer completed confirming line = confirm completed line
  answer completed waiting line = return (record { prompt = at_menu; completed = completed })
  answer completed returned line = return (record { prompt = returned; completed = completed })

  -- `EOFError` at a prompt
  unfoldable pub ended : List String → Prompt → Io h Session
  unfolding print
  ended completed returned = return (record { prompt = returned; completed = completed })
  ended completed _ = say (record { prompt = returned; completed = completed }) ""

  unfoldable pub main_loop : List String → Session → Io h Session
  unfolding show_at answer ended
  main_loop [] s = show_at s.completed s.prompt ▸ λ _. ended s.completed s.prompt
  main_loop (line ∷ lines) s =
      show_at s.completed s.prompt ▸ λ _. answer s.completed s.prompt line ▸ main_loop lines

  unfoldable pub main : List String → Io h Session
  unfolding main_loop
  main lines = main_loop lines (record { prompt = at_menu; completed = [] })
