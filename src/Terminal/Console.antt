-- ===== src/Terminal/Console.antt =====
-- services/terminal/console.py: the menu, its targets, the command lines, and the checks. A `Path` is
-- its text.
pub mod Actions
pub mod Loop
pub mod Commands
pub mod Success
pub mod Frontmatter
pub mod Editor
use nemoclaw_lab_cl.Base.{
  String, Bool, true, false, Option, none, some, List, [], ◌∷◌, ◌++◌, map, ◌==◌, ◌&&◌, ◌||◌,
  if◌then◌else◌, elem, Result, ok, err,
}
use nemoclaw_lab_cl.Base.Dict.{Dict, get}
use nemoclaw_lab_cl.Base.Text.{
  text, join, strip, lstrip, splitlines, startswith, rstrip_by, one_of, after_last_slash,
}
use nemoclaw_lab_cl.Base.Text.Words.{split, before_last_slash}

-- "workspace_file" | "skill"
pub data Kind : Type 0 where
  workspace_file skill : Kind

pub record MenuTarget : Type 0 where
  pub key : String
  pub label : String
  pub sandbox_path : String
  pub kind : Kind
  pub scratch_rel : String

abbrev workspace_target : String → String → MenuTarget
workspace_target key name = record {
  key = key;
  label = text ("Edit " ∷ name ∷ " and push into the OpenShell sandbox automatically" ∷ []);
  sandbox_path = text ("/sandbox/.openclaw/workspace/" ∷ name ∷ []);
  kind = workspace_file;
  scratch_rel = name;
}

abbrev skill_target : String → String → MenuTarget
skill_target key name = record {
  key = key;
  label = text ("Edit " ∷ name ∷ "/SKILL.md and install in the NemoClaw agent" ∷ []);
  sandbox_path = text ("/sandbox/.openclaw/skills/" ∷ name ∷ []);
  kind = skill;
  scratch_rel = text ("skills/" ∷ name ∷ []);
}

unfoldable pub menu_targets : List MenuTarget
menu_targets =
    workspace_target "1" "SOUL.md"
    ∷ workspace_target "2" "AGENTS.md"
    ∷ skill_target "3" "infra-sentinel-monitor"
    ∷ skill_target "4" "infra-sentinel-diagnose"
    ∷ skill_target "5" "infra-sentinel-notify"
    ∷ skill_target "6" "infra-sentinel-remediate"
    ∷ []

abbrev pub reset_label : String
reset_label = "Reset all config (SOUL.md, AGENTS.md, all SKILL.md files, and the conversation)"

abbrev pub clear_screen : String
clear_screen = "\u{1b}[2J\u{1b}[H"

unfoldable pub menu_line : List String → MenuTarget → String
menu_line completed t =
    if elem t.key completed
    then text ("  " ∷ t.key ∷ ") \u{1b}[32m✓ " ∷ t.label ∷ "\u{1b}[0m" ∷ [])
    else text ("  " ∷ t.key ∷ ") " ∷ t.label ∷ [])

unfoldable pub format_menu : String → List MenuTarget → List String → String
unfolding menu_line
format_menu sandbox_name targets completed = join "\n" (
    text ("NemoClaw operator console — tenant: " ∷ sandbox_name ∷ [])
      ∷ map (menu_line completed) targets
    ++ text ("  r) " ∷ reset_label ∷ []) ∷ "  q) Quit" ∷ "> " ∷ [])

unfoldable pub find_target : String → List MenuTarget → Option MenuTarget
find_target selection [] = none
find_target selection (t ∷ targets) =
    if t.key == strip selection then some t else find_target selection targets

-- `workspace_dir / t.scratch_rel`, for a directory that is not the root
unfoldable pub scratch_path : String → MenuTarget → String
scratch_path workspace_dir t = text (workspace_dir ∷ "/" ∷ t.scratch_rel ∷ [])

abbrev pub content_path : Kind → String → String
content_path workspace_file path = path
content_path skill path = text (path ∷ "/SKILL.md" ∷ [])

unfoldable pub edit_path : MenuTarget → String → String
unfolding scratch_path
edit_path t workspace_dir = content_path t.kind (scratch_path workspace_dir t)

unfoldable pub download_argv : String → String → MenuTarget → String → List String
download_argv nemoclaw_bin sandbox_name t dest =
    nemoclaw_bin ∷ sandbox_name ∷ "download" ∷ t.sandbox_path ∷ dest ∷ []

unfoldable pub upload_dir : MenuTarget → String
upload_dir t = text (before_last_slash t.sandbox_path ∷ "/" ∷ [])

unfoldable pub push_argv : String → String → MenuTarget → String → List String
unfolding scratch_path upload_dir
push_argv nemoclaw_bin sandbox_name t workspace_dir = elim t.kind [
  | skill ↦ nemoclaw_bin ∷ sandbox_name ∷ "skill" ∷ "install" ∷ scratch_path workspace_dir t ∷ []
  | workspace_file ↦
      nemoclaw_bin ∷ sandbox_name ∷ "upload" ∷ scratch_path workspace_dir t ∷ upload_dir t ∷ []
]

unfoldable pub editor_argv : String → List String → String → List String
editor_argv editor_bin editor_args path = editor_bin ∷ editor_args ++ path ∷ []

unfoldable pub editors : Dict (List String)
editors = ("vim", "-Z" ∷ []) ∷ ("rvim", []) ∷ ("vi", "-Z" ∷ []) ∷ ("nano", "-R" ∷ []) ∷ []

-- the loop over `EDITORS`, with `shutil.which(name) is not None`
unfoldable pub first_installed : (String → Bool) → Dict (List String) → Option String × List String
first_installed which [] = (none, [])
first_installed which ((name, args) ∷ rest) =
    if which name then (some name, args) else first_installed which rest

-- `Path(path).name`, for a path without `.` segments
unfoldable pub path_name : String → String
path_name path = after_last_slash (rstrip_by (one_of "/") path)

abbrev pub or_no_args : Option (List String) → List String
or_no_args none = []
or_no_args (some args) = args

abbrev explicit_editor : String → Option String → Option String × List String
explicit_editor editor_bin (some args) = (some editor_bin, split args)
explicit_editor editor_bin none = (some editor_bin, or_no_args (get (path_name editor_bin) editors))

unfoldable pub resolve_editor :
    (String → Bool) → String → Option String → Option String × List String
unfolding first_installed
resolve_editor which editor_bin editor_args =
    if editor_bin == ""
    then first_installed which editors
    else explicit_editor editor_bin editor_args

pub record ConsoleConfig : Type 0 where
  pub sandbox_name : String
  pub workspace_dir : String
  pub nemoclaw_bin : String
  pub editor_bin : String
  pub editor_args : List String

-- the lines before the closing "---", if there is one
unfoldable pub until_close : List String → Option (List String)
until_close [] = none
until_close (line ∷ lines) =
    let rest = until_close lines in
    if strip line == "---" then some [] else elim rest [ none ↦ none | some ls ↦ some (line ∷ ls) ]

unfoldable pub any_name : List String → Bool
any_name [] = false
any_name (line ∷ lines) = startswith (lstrip line) "name:" || any_name lines

check_names : Option (List String) → Option String
check_names none = some "frontmatter '---' is never closed"
check_names (some lines) = if any_name lines then none else some "frontmatter has no 'name:' key"

unfoldable pub validate_lines : List String → Option String
unfolding until_close any_name check_names
validate_lines [] = some "file must start with a '---' frontmatter line"
validate_lines (line ∷ lines) =
    if strip line == "---"
    then check_names (until_close lines)
    else some "file must start with a '---' frontmatter line"

unfoldable pub validate_skill_content : String → Option String
unfolding validate_lines
validate_skill_content body = validate_lines (splitlines body)

unfoldable pub skill_name : MenuTarget → String
skill_name t = after_last_slash t.scratch_rel

unfoldable pub blank_content : MenuTarget → String
unfolding skill_name
blank_content t = elim t.kind [
  | skill ↦ text ("---\nname: \"" ∷ skill_name t ∷ "\"\n---\n" ∷ [])
  | workspace_file ↦ ""
]

-- `load_config`; `home` is the text of `Path.home()`
pub data NotConfigured : Type 0 where
  sandbox_name_not_set : NotConfigured

abbrev pub or_text : String → Option String → String
or_text default none = default
or_text default (some s) = s

abbrev or_args : List String → List String
or_args [] = "-Z" ∷ []
or_args args = args

-- `editor_bin or "vim"`, where the empty text does not arise
abbrev or_vim : Option String → String
or_vim none = "vim"
or_vim (some editor_bin) = editor_bin

unfoldable pub config_of : (String → Bool) → String → Dict String → String → ConsoleConfig
unfolding resolve_editor
config_of which home env sandbox_name =
    let (editor_bin, editor_args) =
      resolve_editor which (or_text "" (get "TERMINAL_EDITOR_BIN" env))
        (get "TERMINAL_EDITOR_ARGS" env) in
    record {
      sandbox_name = sandbox_name;
      workspace_dir =
          or_text (text (home ∷ "/nemoclaw-tenants/" ∷ sandbox_name ∷ "/work" ∷ []))
            (get "TERMINAL_WORKSPACE_DIR" env);
      nemoclaw_bin = or_text "nemoclaw" (get "TERMINAL_NEMOCLAW_BIN" env);
      editor_bin = or_vim editor_bin;
      editor_args = or_args editor_args;
    }

unfoldable pub load_config :
    (String → Bool) → String → Dict String → Result NotConfigured ConsoleConfig
unfolding config_of
load_config which home env =
    let sandbox_name = or_text "" (get "SANDBOX_NAME" env) in
    if sandbox_name == ""
    then err sandbox_name_not_set
    else ok (config_of which home env sandbox_name)
