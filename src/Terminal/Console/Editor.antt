-- ===== src/Terminal/Console/Editor.antt =====
-- services/terminal/console.py, `resolve_editor` and `load_config`: which editor runs, and with which
-- flag.
use nemoclaw_lab_cl.Base.{
  String, Bool, false, none, some, List, [], ◌∷◌, ◌==◌, ok, ◌≡◌, ◌≢◌, refl, arith, eq_iff,
  Bool-cases, inl, inr,
}
use nemoclaw_lab_cl.Base.Dict.{Dict, get}
use nemoclaw_lab_cl.Terminal.Console.{
  ConsoleConfig, editors, resolve_editor, path_name, or_text, config_of, load_config,
}

-- The editors with the arguments that `load_config` runs them with. `EDITORS` gives rvim, which is
-- restricted without a flag, no argument, and `load_config` then puts vim's there.
abbrev pub restricted : List (String × List String)
restricted = ("vim", "-Z" ∷ []) ∷ ("rvim", "-Z" ∷ []) ∷ ("vi", "-Z" ∷ []) ∷ ("nano", "-R" ∷ []) ∷ []

load_config-config_of :
    (which : String → Bool) (home : String) (env : Dict String) {config : ConsoleConfig}
    → load_config which home env ≡ ok config
    → config ≡ config_of which home env (or_text "" (get "SANDBOX_NAME" env))
unfolding load_config
load_config-config_of which home env e =
    elim (Bool-cases (or_text "" (get "SANDBOX_NAME" env) == "")) [
      | inl unset ↦ absurd (ground (arith, e, unset))
      | inr named ↦ ground (arith, e, named)
    ]

-- An editor that the environment names, that is not in the list and that comes without arguments
-- runs with the flag of vim.
pub load_config-unlisted :
    (which : String → Bool) (home : String) (env : Dict String) {config : ConsoleConfig}
    {bin : String}
    → get "TERMINAL_EDITOR_BIN" env ≡ some bin
    → bin ≢ ""
    → get (path_name bin) editors ≡ none
    → get "TERMINAL_EDITOR_ARGS" env ≡ none
    → load_config which home env ≡ ok config
    → (config.editor_bin ≡ bin) × (config.editor_args ≡ "-Z" ∷ [])
unfolding config_of resolve_editor
load_config-unlisted which home env {bin = bin} set named unlisted bare e =
    let given : (bin == "") ≡ false = ground (arith, eq_iff bin "", named) in
    rw (load_config-config_of which home env e, set, bare, given, unlisted) (refl, refl)
