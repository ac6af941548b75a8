-- ===== src/Tests/Terminal.antt =====
-- Runs of services/terminal on a host whose `nemoclaw` keeps the files of a sandbox.
use nemoclaw_lab_cl.Base.{
  String, Bool, true, none, some, List, [], ◌∷◌, ◌==◌, ok, map, ◌≡◌, ◌≢◌, ◌↔◌, refl, arith, eq_iff,
}
use nemoclaw_lab_cl.Base.Dict.{Dict, get, put}
use nemoclaw_lab_cl.Base.Json.{str, dict, at_or}
use nemoclaw_lab_cl.Base.Text.{
  text, startswith, after_last_slash, splitlines, before, rstrip_by, one_of,
}
use nemoclaw_lab_cl.Base.Text.Words.{after_space, lower_is, matches_class, pack_id_char}
use nemoclaw_lab_cl.Terminal.Process.{Console, ◌▸◌, make_parent, in_world, read_text, say, return}
use nemoclaw_lab_cl.Terminal.Console.{
  editors, path_name, push_argv, editor_argv, download_argv, ConsoleConfig, MenuTarget, load_config,
  validate_skill_content, workspace_file,
}
use nemoclaw_lab_cl.Terminal.Console.Actions.{run_target}
use nemoclaw_lab_cl.Terminal.Console.Commands.{Ran}
use nemoclaw_lab_cl.Terminal.Console.Commands.Loop.{main-IsCommand}
use nemoclaw_lab_cl.Terminal.Console.Loop.{main}
use nemoclaw_lab_cl.Terminal.Console.Success.{
  Pushed, edited_world, download_of, editor_of, run_target-success,
}
use nemoclaw_lab_cl.Terminal.Console.Frontmatter.{
  IsInstallable, validate_skill_content-IsInstallable,
}
use nemoclaw_lab_cl.Terminal.Console.Editor.{load_config-unlisted}
use nemoclaw_lab_cl.Gateway.Terminal.{wake_agent, wake_body, bearer, daemon_url}
use nemoclaw_lab_cl.Gateway.Terminal.Wakes.{daemon_call, serve_post, wake_agent-started}
use nemoclaw_lab_cl.Terminal.Daemon
use nemoclaw_lab_cl.Terminal.Daemon.{HostEnv}
use nemoclaw_lab_cl.Terminal.Daemon.Serve.{Request, post_reset, post_switch_pack, serve}
use nemoclaw_lab_cl.Tests.Disk.{lab_host, tenant, quoted}

-- a sandbox in which the persona was pasted in
abbrev started : Console lab_host
started = record {
  world = record {
    files = [];
    boxes = ("/sandbox/.openclaw/workspace/SOUL.md", "Be careful.") ∷ [];
  };
  ran = [];
  out = [];
}

abbrev soul : MenuTarget
soul = record {
  key = "1";
  label = "Edit SOUL.md and push into the OpenShell sandbox automatically";
  sandbox_path = "/sandbox/.openclaw/workspace/SOUL.md";
  kind = workspace_file;
  scratch_rel = "SOUL.md";
}

edit_succeeds : (run_target lab_host quoted tenant soul started).0 ≡ ok true
unfolding run_target ◌▸◌ make_parent in_world download_argv get return editor_argv read_text
    push_argv put startswith text say
edit_succeeds = refl

run_target-success_example :
    Pushed lab_host quoted tenant soul
      (edited_world lab_host quoted tenant soul started.world)
      (download_of lab_host quoted tenant soul ∷ editor_of lab_host quoted tenant soul ∷ [])
      (run_target lab_host quoted tenant soul started)
run_target-success_example = run_target-success lab_host quoted tenant soul started edit_succeeds

main-IsCommand_example :
    Ran lab_host quoted tenant
      (main lab_host quoted tenant ("1" ∷ "" ∷ "$(sh)" ∷ "r" ∷ "yes" ∷ "" ∷ "q" ∷ []) started).1
main-IsCommand_example =
    main-IsCommand lab_host quoted tenant ("1" ∷ "" ∷ "$(sh)" ∷ "r" ∷ "yes" ∷ "" ∷ "q" ∷ []) started
      refl

validate_skill_content-IsInstallable_example :
    (validate_skill_content "---\nname: monitor\n---\nWatch." ≡ none)
    ↔ IsInstallable (splitlines "---\nname: monitor\n---\nWatch.")
validate_skill_content-IsInstallable_example =
    validate_skill_content-IsInstallable "---\nname: monitor\n---\nWatch."

abbrev only_nano : String → Bool
only_nano name = name == "nano"

abbrev plain_env : Dict String
plain_env = ("SANDBOX_NAME", "tenant-1") ∷ []

abbrev emacs_env : Dict String
emacs_env = ("SANDBOX_NAME", "tenant-1") ∷ ("TERMINAL_EDITOR_BIN", "emacs") ∷ []

abbrev loaded_config : String → List String → ConsoleConfig
loaded_config bin args = record {
  sandbox_name = "tenant-1";
  workspace_dir = text ("/home/lab" ∷ "/nemoclaw-tenants/" ∷ "tenant-1" ∷ "/work" ∷ []);
  nemoclaw_bin = "nemoclaw";
  editor_bin = bin;
  editor_args = args;
}

emacs_loads : load_config only_nano "/home/lab" emacs_env ≡ ok (loaded_config "emacs" ("-Z" ∷ []))
unfolding load_config get editors path_name after_last_slash rstrip_by one_of
emacs_loads = refl

emacs_named : ◌≢◌ {A = String} "emacs" ""
emacs_named e = absurd (ground (arith, (eq_iff "emacs" "").1 e))

load_config-unlisted_example :
    ((loaded_config "emacs" ("-Z" ∷ [])).editor_bin ≡ "emacs")
    × ((loaded_config "emacs" ("-Z" ∷ [])).editor_args ≡ "-Z" ∷ [])
unfolding get editors path_name after_last_slash rstrip_by one_of
load_config-unlisted_example =
    load_config-unlisted only_nano "/home/lab" emacs_env refl emacs_named refl refl emacs_loads

abbrev lab_env : HostEnv
lab_env = record {
  env = ("TERMINAL_MODE", "restricted") ∷ ("SANDBOX_NAME", "tenant-1") ∷ [];
  executable = "/usr/bin/python3";
  repo_root = "/srv/lab";
  has_pack = λ pack. pack == "datacenter";
}

abbrev switch_request : Request lab_host
switch_request = post_switch_pack (some "Bearer secret") (dict (("pack_id", str "datacenter") ∷ []))

abbrev reset_request : Request lab_host
reset_request = post_reset (some "Bearer secret") started.world

-- a switch is served, and a reset runs a push for each of the six targets and the session's reset
switch_spawns :
    serve lab_host quoted only_nano "/home/lab" lab_env "secret" switch_request
    ≡ ("/srv/lab/deploy/scripts/switch-pack.sh" ∷ "datacenter" ∷ []) ∷ []
unfolding serve get lower_is before after_space at_or dict matches_class pack_id_char text
switch_spawns = refl

abbrev gateway_env : Dict String
gateway_env = ("TERMINAL_WS_URL", "ws://172.17.0.1:7681/ws") ∷ ("TERMINAL_TOKEN", "secret") ∷ []

-- the call goes to the daemon's HTTP side
wake_url : daemon_url gateway_env "wake-agent" ≡ "http://172.17.0.1:7681/wake-agent"
unfolding daemon_url text nemoclaw_lab_cl.Base.Text.removesuffix get
wake_url = refl

wake_agent-started_example :
    (wake_agent
        (daemon_call "http://172.17.0.1:7681" lab_env "secret" 42)
        gateway_env
        "gpu"
        "node-1"
      ≡ true)
    × ((serve_post "http://172.17.0.1:7681" lab_env "secret" 42
          (daemon_url gateway_env "wake-agent")
          (some (bearer gateway_env))
          (wake_body "gpu" "node-1")).1
        ≡ Daemon.wake_argv lab_env "secret" "tenant-1" "gpu" "node-1" ∷ [])
unfolding nemoclaw_lab_cl.Gateway.Terminal.is_enabled daemon_url text
    nemoclaw_lab_cl.Base.Text.removesuffix get Daemon.is_restricted Daemon.is_id matches_class
    nemoclaw_lab_cl.Base.Text.Words.id_char
wake_agent-started_example =
    wake_agent-started "http://172.17.0.1:7681" lab_env 42 gateway_env "gpu" "node-1" refl refl refl
      refl refl refl
