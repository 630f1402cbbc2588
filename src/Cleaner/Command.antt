-- ===== src/Cleaner/Command.antt =====
-- remnanode-xhttp-clean.py: the commands that the program runs, with their arguments.
use remnanode_xhttp_cleaner.Base.{Bool, true, false, List, [], ◌∷◌, ◌++◌}
use remnanode_xhttp_cleaner.Base.Int.{ℤ}
use remnanode_xhttp_cleaner.Base.Text.{Text, codes}
use remnanode_xhttp_cleaner.Json.{int}
use remnanode_xhttp_cleaner.Listener.{text_of}

-- A container is named by a `Text`. `enter_worker` has the two PIDs, the two JSON texts, and whether
-- `--apply` is given.
pub data Command : Type 0 where
  inspect_running inspect_pid inspect_image : Text → Command
  process_table : Text → Command
  dump_config dump_config_short : Text → Command
  optimizer_status : Text → Command
  enter_worker : ℤ → ℤ → Text → Text → Bool → Command
  timer_enabled disable_timer enable_timer reload_units : Command
  restore_core : Command

abbrev timer_name : Text
timer_name = codes "remnanode-xhttp-clean.timer"

abbrev pub core_manager_root : Text
core_manager_root = codes "/usr/local/lib/remnanode-xhttp-clean"

abbrev pub core_manager_path : Text
core_manager_path = core_manager_root ++ codes "/xray-core-manager"

abbrev docker : List Text → List Text
docker arguments = codes "docker" ∷ arguments

abbrev systemctl : List Text → List Text
systemctl arguments = codes "systemctl" ∷ arguments

abbrev apply_flag : Bool → List Text
apply_flag true = codes "--apply" ∷ []
apply_flag false = []

abbrev pub str_of_int : ℤ → Text
str_of_int n = text_of (int n)

-- The argument list of each command, where `python` is `sys.executable`, and `script` is
-- `Path(__file__).resolve()`.
unfoldable pub argv : Text → Text → Command → List Text
unfolding text_of
argv python script (inspect_running c) =
    docker (codes "inspect" ∷ codes "-f" ∷ codes "{{.State.Running}}" ∷ c ∷ [])
argv python script (inspect_pid c) =
    docker (codes "inspect" ∷ codes "-f" ∷ codes "{{.State.Pid}}" ∷ c ∷ [])
argv python script (inspect_image c) =
    docker (codes "inspect" ∷ codes "-f" ∷ codes "{{.Config.Image}}" ∷ c ∷ [])
argv python script (process_table c) =
    docker (codes "top" ∷ c ∷ codes "-eo" ∷ codes "pid,comm,args" ∷ [])
argv python script (dump_config c) =
    docker (codes "exec" ∷ c ∷ codes "cli" ∷ codes "--dump-config-raw" ∷ [])
argv python script (dump_config_short c) = docker (codes "exec" ∷ c ∷ codes "cli" ∷ codes "-D" ∷ [])
argv python script (optimizer_status c) =
    docker (codes "exec" ∷ c ∷ codes "cat" ∷ codes "/tmp/xray-memory-optimizer.json" ∷ [])
argv python script (enter_worker init_pid xray_pid config_json xhttp_json apply) =
    codes "nsenter"
    ∷ codes "--target"
    ∷ str_of_int init_pid
    ∷ codes "--net"
    ∷ codes "--"
    ∷ python
    ∷ script
    ∷ codes "_worker"
    ∷ codes "--pid"
    ∷ str_of_int xray_pid
    ∷ codes "--config-json"
    ∷ config_json
    ∷ codes "--xhttp-json"
    ∷ xhttp_json
    ∷ apply_flag apply
argv python script timer_enabled = systemctl (codes "is-enabled" ∷ timer_name ∷ [])
argv python script disable_timer = systemctl (codes "disable" ∷ codes "--now" ∷ timer_name ∷ [])
argv python script enable_timer = systemctl (codes "enable" ∷ codes "--now" ∷ timer_name ∷ [])
argv python script reload_units = systemctl (codes "daemon-reload" ∷ [])
argv python script restore_core = core_manager_path ∷ codes "restore-if-patched" ∷ []
