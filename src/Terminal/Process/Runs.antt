-- ===== src/Terminal/Process/Runs.antt =====
-- Code over a host that runs only command lines of one kind.
use nemoclaw_lab_cl.Base.{
  String, Bool, true, false, List, [], ◌∷◌, if◌then◌else◌, Result, ok, err, All, All-append,
}
use nemoclaw_lab_cl.Terminal.Process.{
  Host, Console, Io, NotInstalled, return, ◌▸◌, after, recover, run, print, say, read_text,
  write_text, make_parent, in_world,
}

module _ (h : Host) (P : List String → Type 0) where
  -- code that runs no other command
  pub record RunsOnly {A : Type 0} (m : Io h A) : Type 0 where
    pub runs_only : (c : Console h) → All P c.ran → All P (m c).1.ran

module _ {h : Host} {P : List String → Type 0} where
  pub RunsOnly-return : {A : Type 0} (a : A) → RunsOnly h P (return a)
  unfolding return
  RunsOnly-return a = record { runs_only = λ c hc. hc }

  pub ran-after :
      {A B : Type 0} (x : Result NotInstalled A × Console h) (k : A → Io h B)
      → ((a : A) → RunsOnly h P (k a))
      → All P x.1.ran
      → All P (after x k).1.ran
  ran-after (ok a, c) k hk hc = (hk a).runs_only c hc
  ran-after (err e, c) k hk hc = hc

  pub RunsOnly-bind :
      {A B : Type 0} (m : Io h A) (k : A → Io h B)
      → RunsOnly h P m
      → ((a : A) → RunsOnly h P (k a))
      → RunsOnly h P (m ▸ k)
  unfolding ◌▸◌
  RunsOnly-bind m k hm hk = record { runs_only = λ c hc. ran-after (m c) k hk (hm.runs_only c hc) }

  pub ran-recover :
      {A B : Type 0} (k : A → Io h B) (handler : NotInstalled → Io h B)
      (x : Result NotInstalled A × Console h)
      → ((a : A) → RunsOnly h P (k a))
      → ((e : NotInstalled) → RunsOnly h P (handler e))
      → All P x.1.ran
      → All P (recover k handler x).1.ran
  ran-recover k handler (ok a, c) hk he hc = (hk a).runs_only c hc
  ran-recover k handler (err e, c) hk he hc = (he e).runs_only c hc

  pub RunsOnly-if :
      {A : Type 0} (b : Bool) (m n : Io h A)
      → RunsOnly h P m
      → RunsOnly h P n
      → RunsOnly h P (if b then m else n)
  RunsOnly-if true m n hm hn = hm
  RunsOnly-if false m n hm hn = hn

  pub RunsOnly-run : (argv : List String) → P argv → RunsOnly h P (run argv)
  unfolding run
  RunsOnly-run argv known = record {
    runs_only = λ c hc. All-append P c.ran (argv ∷ []) hc (known, tt);
  }

  pub RunsOnly-print : (line : String) → RunsOnly h P (print line)
  unfolding print
  RunsOnly-print line = record { runs_only = λ c hc. hc }

  pub RunsOnly-say : {A : Type 0} (a : A) (line : String) → RunsOnly h P (say a line)
  unfolding say
  RunsOnly-say a line = RunsOnly-bind _ _ (RunsOnly-print line) λ _. RunsOnly-return a

  pub RunsOnly-read_text : (path : String) → RunsOnly h P (read_text path)
  unfolding read_text
  RunsOnly-read_text path = record { runs_only = λ c hc. hc }

  pub RunsOnly-make_parent : (path : String) → RunsOnly h P (make_parent path)
  unfolding make_parent in_world
  RunsOnly-make_parent path = record { runs_only = λ c hc. hc }

  pub RunsOnly-write_text : (path body : String) → RunsOnly h P (write_text path body)
  unfolding write_text in_world
  RunsOnly-write_text path body = record { runs_only = λ c hc. hc }

  pub RunsOnly-in_world : {A : Type 0} (f : h.World → A × h.World) → RunsOnly h P (in_world f)
  unfolding in_world
  RunsOnly-in_world f = record { runs_only = λ c hc. hc }
