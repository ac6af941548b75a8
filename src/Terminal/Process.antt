-- ===== src/Terminal/Process.antt =====
-- What the console uses of its host: `subprocess.run`, files, temporary directories and standard
-- output. The world behind the calls is a parameter.
pub mod Runs
use nemoclaw_lab_cl.Base.{String, Bool, Option, List, [], ◌∷◌, ◌++◌, Result, ok, err}

pub record Completed : Type 0 where
  -- `returncode == 0`
  pub success : Bool
  pub stdout : String
  pub stderr : String

-- `FileNotFoundError`, when the program of a command line is not installed, with its text
pub data NotInstalled : Type 0 where
  not_installed : String → NotInstalled

pub record Host : Type 1 where
  pub World : Type 0
  pub run : List String → World → Result NotInstalled Completed × World
  -- the text of a file, `none` when there is no such file
  pub read_text : String → World → Option String
  pub write_text : String → String → World → World
  -- `Path(path).parent.mkdir(parents=True, exist_ok=True)`
  pub make_parent : String → World → World
  -- `TemporaryDirectory()` and the end of its `with` block
  pub make_temporary : World → String × World
  pub remove_temporary : String → World → World

module _ (h : Host) where
  -- the world, with the command lines that were run and the lines that were printed so far
  pub record Console : Type 0 where
    pub world : h.World
    pub ran : List (List String)
    pub out : List String

  -- code that runs commands and may raise
  abbrev pub Io : Type 0 → Type 0
  Io A = Console → Result NotInstalled A × Console

module _ {h : Host} where
  unfoldable pub return : {A : Type 0} → A → Io h A
  return a c = (ok a, c)

  abbrev pub after :
      {A B : Type 0}
      → Result NotInstalled A × Console h
      → (A → Io h B)
      → Result NotInstalled B × Console h
  after (ok a, c) k = k a c
  after (err e, c) k = (err e, c)

  infixl 5 ◌▸◌
  unfoldable pub ◌▸◌ : {A B : Type 0} → Io h A → (A → Io h B) → Io h B
  (m ▸ k) c = after (m c) k

  -- `except FileNotFoundError` and `except Exception`
  abbrev pub recover :
      {A B : Type 0}
      → (A → Io h B)
      → (NotInstalled → Io h B)
      → Result NotInstalled A × Console h
      → Result NotInstalled B × Console h
  recover k handler (ok a, c) = k a c
  recover k handler (err e, c) = handler e c

  unfoldable pub in_world : {A : Type 0} → (h.World → A × h.World) → Io h A
  in_world f c = let (a, w) = f c.world in (ok a, record c { world = w })

  unfoldable pub run : List String → Io h Completed
  run argv c =
      let (result, w) = h.run argv c.world in
      (result, record { world = w; ran = c.ran ++ argv ∷ []; out = c.out })

  unfoldable pub print : String → Io h (Unit {0})
  print line c = (ok tt, record c { out = c.out ++ line ∷ [] })

  -- print a line, then return
  unfoldable pub say : {A : Type 0} → A → String → Io h A
  say a line = print line ▸ λ _. return a

  unfoldable pub read_text : String → Io h (Option String)
  read_text path c = (ok (h.read_text path c.world), c)

  unfoldable pub write_text : String → String → Io h (Unit {0})
  write_text path body = in_world (λ w. (tt, h.write_text path body w))

  unfoldable pub make_parent : String → Io h (Unit {0})
  make_parent path = in_world (λ w. (tt, h.make_parent path w))
