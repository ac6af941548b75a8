-- ===== src/Terminal/Console/Success.antt =====
-- services/terminal/console.py, `run_target`: what a reported success stands for.
use mathlib.Core.List.{append_assoc}
use nemoclaw_lab_cl.Base.{
  String, Bool, true, false, Option, none, some, List, [], ◌∷◌, ◌++◌, if◌then◌else◌, Result, ok,
  err, ◌≡◌, refl, ◌∙◌,
}
use nemoclaw_lab_cl.Terminal.Process.{
  Host, Console, Completed, NotInstalled, return, ◌▸◌, after, recover, run, print, say, read_text,
  make_parent, in_world,
}
use nemoclaw_lab_cl.Terminal.Console.{MenuTarget, ConsoleConfig, scratch_path, editor_argv}
use nemoclaw_lab_cl.Terminal.Console.Actions.{
  push_of, download_to, file_of, push_edited, report_push, push_checked, problem_in, edited,
  note_skipped, edit, run_target, no_editor,
}

module _ (h : Host) (repr : String → String) (config : ConsoleConfig) where
  abbrev Answers : {A : Type 0} → A → Result NotInstalled A × Console h → Type 0
  Answers a x = x.0 ≡ ok a

  -- a line printed at the end leaves the commands and the world as they are, and tells which it was
  said-success :
      (b : Bool) (good bad : String) (c : Console h)
      → Answers true ((if b then say {h = h} true good else say false bad) c)
      → (b ≡ true)
        × (((if b then say {h = h} true good else say false bad) c).1.ran ≡ c.ran)
        × (((if b then say {h = h} true good else say false bad) c).1.world ≡ c.world)
  unfolding say ◌▸◌ return print
  said-success true good bad c e = (refl, refl, refl)
  said-success false good bad c e = cc

  -- the push ended with success, and nothing came after it
  abbrev PushedBy :
      Result NotInstalled Completed × Console h → Result NotInstalled Bool × Console h → Type 0
  PushedBy x y =
      (done : Completed) × (x.0 ≡ ok done)
      × (done.success ≡ true)
      × (y.1.ran ≡ x.1.ran)
      × (y.1.world ≡ x.1.world)

  report_push-success :
      (t : MenuTarget) (x : Result NotInstalled Completed × Console h)
      → Answers true (after x (report_push h repr config t))
      → PushedBy x (after x (report_push h repr config t))
  unfolding report_push ◌▸◌ print
  report_push-success t (ok pushed, c) e =
      let (success, ran, world) = said-success pushed.success _ _ _ e in
      (pushed, refl, success, ran, world)
  report_push-success t (err missing, c) e = cc

  -- a run that ended well, from a world and behind the commands of `before`: the file passed the
  -- check of its kind in that world, and the push of it was the only command and ended with success
  abbrev pub Pushed :
      MenuTarget → h.World → List (List String) → Result NotInstalled Bool × Console h → Type 0
  Pushed t w before x =
      (problem_in h repr config t (h.read_text (file_of h repr config t) w) ≡ none)
      × (x.1.ran ≡ before ++ push_of h repr config t ∷ [])
      × ((done : Completed) × ((h.run (push_of h repr config t) w).0 ≡ ok done)
          × (done.success ≡ true))
      × (x.1.world ≡ (h.run (push_of h repr config t) w).1)

  push_checked-success :
      (t : MenuTarget) (problem : Option String) (c : Console h)
      → Answers true (push_checked h repr config t problem c)
      → (problem ≡ none)
        × PushedBy (run (push_of h repr config t) c) (push_checked h repr config t problem c)
  unfolding push_checked push_edited ◌▸◌ print say return
  push_checked-success t none c e =
      (refl, report_push-success t (run (push_of h repr config t) c) e)
  push_checked-success t (some problem) c e = cc

  edited-success :
      (t : MenuTarget) (c : Console h)
      → Answers true (edited h repr config t c)
      → Pushed t c.world c.ran (edited h repr config t c)
  unfolding edited ◌▸◌ read_text run
  edited-success t c e =
      let (valid, (done, answered, success, ran, world)) = push_checked-success t _ c e in
      (valid, ran, (done, answered, success), world)

  edit-success :
      (t : MenuTarget) (x : Result NotInstalled Completed × Console h)
      → Answers true
          (recover (λ _. edited h repr config t) (λ _. say false (no_editor repr config)) x)
      → Pushed t x.1.world x.1.ran
          (recover (λ _. edited h repr config t) (λ _. say false (no_editor repr config)) x)
  unfolding say ◌▸◌ return print
  edit-success t (ok finished, c) e = edited-success t c e
  edit-success t (err missing, c) e = cc

  abbrev pub editor_of : MenuTarget → List String
  editor_of t = editor_argv config.editor_bin config.editor_args (file_of h repr config t)

  -- the editor came first
  abbrev EditedPushed :
      MenuTarget → h.World → List (List String) → Result NotInstalled Bool × Console h → Type 0
  EditedPushed t w before x = Pushed t (h.run (editor_of t) w).1 (before ++ editor_of t ∷ []) x

  edit-Pushed :
      (t : MenuTarget) (c : Console h)
      → Answers true (edit h repr config t c)
      → EditedPushed t c.world c.ran (edit h repr config t c)
  unfolding edit run
  edit-Pushed t c e = edit-success t (run (editor_of t) c) e

  skipped-Pushed :
      (t : MenuTarget) (found : Bool) (line : String) (c : Console h)
      → Answers true
          (after ((if found then return tt else print line) c) (λ _. edit h repr config t))
      → EditedPushed t c.world c.ran
          (after ((if found then return tt else print line) c) (λ _. edit h repr config t))
  unfolding return print
  skipped-Pushed t true line c e = edit-Pushed t c e
  skipped-Pushed t false line c e = edit-Pushed t _ e

  noted-Pushed :
      (t : MenuTarget) (x : Result NotInstalled Completed × Console h)
      → Answers true (after x (λ dl. note_skipped h repr config dl ▸ λ _. edit h repr config t))
      → EditedPushed t x.1.world x.1.ran
          (after x (λ dl. note_skipped h repr config dl ▸ λ _. edit h repr config t))
  unfolding note_skipped ◌▸◌
  noted-Pushed t (ok dl, c) e = skipped-Pushed t dl.success _ c e
  noted-Pushed t (err missing, c) e = cc

  abbrev pub download_of : MenuTarget → List String
  download_of t = download_to h repr config t (scratch_path config.workspace_dir t)

  -- the world in which the editor of a run returned
  abbrev pub edited_world : MenuTarget → h.World → h.World
  edited_world t w =
      (h.run (editor_of t) (h.run (download_of t) (h.make_parent (file_of h repr config t) w)).1).1

  -- When `run_target` reports success, it ran the download, the editor and the push, in this order
  -- and nothing else; as the editor left it, the file passed the check of its kind; and the push of
  -- this very state ended with success and was the last to change anything.
  pub run_target-success :
      (t : MenuTarget) (c : Console h)
      → (run_target h repr config t c).0 ≡ ok true
      → Pushed t
          (edited_world t c.world)
          (c.ran ++ download_of t ∷ editor_of t ∷ [])
          (run_target h repr config t c)
  unfolding run_target ◌▸◌ make_parent in_world run
  run_target-success t c e =
      let (valid, ran, pushed, world) = noted-Pushed t (run (download_of t) _) e in
      (valid, ran ∙ simp append_assoc, pushed, world)
