-- ===== src/Tests/Disk.antt =====
-- A host whose `nemoclaw` keeps the files of a sandbox.
use nemoclaw_lab_cl.Base.{
  String, Bool, true, false, Option, none, some, List, [], ◌∷◌, ◌==◌, if◌then◌else◌, Result, ok,
}
use nemoclaw_lab_cl.Base.Dict.{Dict, get, put}
use nemoclaw_lab_cl.Base.Text.{text, startswith, after_last_slash}
use nemoclaw_lab_cl.Terminal.Process.{Host, Completed, NotInstalled}
use nemoclaw_lab_cl.Terminal.Console.{ConsoleConfig}

-- files on the host, and files in the sandbox
pub record Disk : Type 0 where
  pub files : Dict String
  pub boxes : Dict String

abbrev pub done_with : Bool → Completed
done_with success = record { success = success; stdout = ""; stderr = "" }

-- a file of the host is copied to a path of the sandbox, if it is there
abbrev pub copied : String → Option String → Disk → Result NotInstalled Completed × Disk
copied path none d = (ok (done_with false), d)
copied path (some body) d = (ok (done_with true), record d { boxes = put path body d.boxes })

abbrev pub upload : String → String → Disk → Result NotInstalled Completed × Disk
upload path file d = copied path (get file d.files) d

abbrev pub landed : String → Option String → Disk → Result NotInstalled Completed × Disk
landed file none d = (ok (done_with false), d)
landed file (some body) d = (ok (done_with true), record d { files = put file body d.files })

-- a skill is a directory with one file
abbrev pub file_at : String → String → String
file_at path dest =
    if startswith path "/sandbox/.openclaw/skills/" then text (dest ∷ "/SKILL.md" ∷ []) else dest

abbrev pub run_with : String → List String → Disk → Result NotInstalled Completed × Disk
run_with verb (a ∷ b ∷ []) d =
    if verb == "download"
    then landed (file_at a b) (get a d.boxes) d
    else if verb == "upload"
    then upload (text (b ∷ after_last_slash a ∷ [])) a d
    else if verb == "skill"
    then upload (text ("/sandbox/.openclaw/skills/" ∷ after_last_slash b ∷ []))
        (text (b ∷ "/SKILL.md" ∷ [])) d
    else (ok (done_with true), d)
run_with verb args d = (ok (done_with true), d)

abbrev pub nemoclaw : List String → Disk → Result NotInstalled Completed × Disk
nemoclaw (bin ∷ name ∷ verb ∷ args) d = run_with verb args d
nemoclaw argv d = (ok (done_with true), d)

abbrev pub lab_host : Host
lab_host = record {
  World = Disk;
  run = nemoclaw;
  read_text = λ path d. get path d.files;
  write_text = λ path body d. record d { files = put path body d.files };
  make_parent = λ path d. d;
  make_temporary = λ d. ("/tmp/t", d);
  remove_temporary = λ path d. d;
}

abbrev pub tenant : ConsoleConfig
tenant = record {
  sandbox_name = "tenant-1";
  workspace_dir = "/w";
  nemoclaw_bin = "nemoclaw";
  editor_bin = "vim";
  editor_args = "-Z" ∷ [];
}

abbrev pub quoted : String → String
quoted s = text ("'" ∷ s ∷ "'" ∷ [])
