-- ===== src/Manager/Command.antt =====
-- `xray-core-manager.py`: the commands that the manager runs, with their arguments.
use remnanode_xhttp_cleaner.Base.{List, [], ◌∷◌, ◌++◌}
use remnanode_xhttp_cleaner.Base.Text.{Text, codes}

-- A container is named by its first argument. A path inside of it is a `Text` too.
pub data Command : Type 0 where
  inspect_running inspect_health inspect_id inspect inspect_state : Text → Command
  read_link : Text → Text → Command
  core_version : Text → Text → Command
  machine_arch : Text → Command
  dump_config dump_config_short : Text → Command
  copy_in : Text → Text → Text → Command
  copy_out : Text → Text → Text → Command
  make_executable : Text → Text → Command
  test_core : Text → Text → Text → Command
  remove : Text → List Text → Command
  move : Text → Text → Text → Command
  restart : Text → Command
  process_scan : Text → Text → Command
  process_table : Text → Command
  recent_logs : Text → Command
  clone : Text → Text → Command
  apply_patch : Text → Text → Command
  build_step : List Text → Text → List Text → Command

abbrev health_format : Text
health_format = codes "{{if .State.Health}}{{.State.Health.Status}}{{else}}none{{end}}"

abbrev state_format : Text
state_format =
    codes
      "running={{.State.Running}} status={{.State.Status}} exit={{.State.ExitCode}} error={{.State.Error}}"

-- The shell script of `running_core_evidence`, by its lines.
abbrev join_lines : List Text → Text
join_lines [] = []
join_lines (line ∷ rest) = line ++ (10 ∷ join_lines rest)

abbrev scan_script : Text
scan_script =
    10
    ∷ join_lines (
        codes "target=\"$1\""
        ∷ codes "for proc in /proc/[0-9]*; do"
        ∷ codes "    executable=\"$(readlink \"$proc/exe\" 2>/dev/null || true)\""
        ∷ codes "    if [ \"$executable\" = \"$target\" ]; then"
        ∷ codes "        printf '%s\\t%s\\n' \"${proc##*/}\" \"$executable\""
        ∷ codes "    fi"
        ∷ codes "done"
        ∷ [])

abbrev pub xray_repository : Text
xray_repository = codes "https://github.com/XTLS/Xray-core.git"

abbrev docker_exec : Text → List Text → List Text
docker_exec container arguments = codes "docker" ∷ codes "exec" ∷ container ∷ arguments

abbrev docker_inspect : Text → Text → List Text
docker_inspect format container =
    codes "docker" ∷ codes "inspect" ∷ codes "-f" ∷ format ∷ container ∷ []

abbrev inside : Text → Text → Text
inside container path = container ++ codes ":" ++ path

-- The argument list of each command. The Python interpreter that runs the patcher is
-- `sys.executable`.
unfoldable pub argv : Text → Command → List Text
argv python (inspect_running c) = docker_inspect (codes "{{.State.Running}}") c
argv python (inspect_health c) = docker_inspect health_format c
argv python (inspect_id c) = docker_inspect (codes "{{.Id}}") c
argv python (inspect c) = codes "docker" ∷ codes "inspect" ∷ c ∷ []
argv python (inspect_state c) = docker_inspect state_format c
argv python (read_link c candidate) = docker_exec c (codes "readlink" ∷ codes "-f" ∷ candidate ∷ [])
argv python (core_version c binary) = docker_exec c (binary ∷ codes "version" ∷ [])
argv python (machine_arch c) = docker_exec c (codes "uname" ∷ codes "-m" ∷ [])
argv python (dump_config c) = docker_exec c (codes "cli" ∷ codes "--dump-config-raw" ∷ [])
argv python (dump_config_short c) = docker_exec c (codes "cli" ∷ codes "-D" ∷ [])
argv python (copy_in c file path) = codes "docker" ∷ codes "cp" ∷ file ∷ inside c path ∷ []
argv python (copy_out c path file) = codes "docker" ∷ codes "cp" ∷ inside c path ∷ file ∷ []
argv python (make_executable c path) = docker_exec c (codes "chmod" ∷ codes "0755" ∷ path ∷ [])
argv python (test_core c binary config) =
    docker_exec c (binary ∷ codes "run" ∷ codes "-test" ∷ codes "-config" ∷ config ∷ [])
argv python (remove c paths) = docker_exec c (codes "rm" ∷ codes "-f" ∷ paths)
argv python (move c source target) = docker_exec c (codes "mv" ∷ source ∷ target ∷ [])
argv python (restart c) = codes "docker" ∷ codes "restart" ∷ c ∷ []
argv python (process_scan c binary) =
    docker_exec c
      (codes "sh" ∷ codes "-c" ∷ scan_script ∷ codes "xhttp-cleaner-proc-scan" ∷ binary ∷ [])
argv python (process_table c) =
    codes "docker" ∷ codes "top" ∷ c ∷ codes "-eo" ∷ codes "pid,comm,args" ∷ []
argv python (recent_logs c) = codes "docker" ∷ codes "logs" ∷ codes "--tail" ∷ codes "200" ∷ c ∷ []
argv python (clone tag source) =
    codes "git"
    ∷ codes "clone"
    ∷ codes "--quiet"
    ∷ codes "--depth"
    ∷ codes "1"
    ∷ codes "--branch"
    ∷ tag
    ∷ xray_repository
    ∷ source
    ∷ []
argv python (apply_patch assets source) =
    python ∷ (assets ++ codes "/patch_xray.py") ∷ source ∷ codes "--assets" ∷ assets ∷ []
argv python (build_step mounts image arguments) =
    codes "docker" ∷ codes "run" ∷ codes "--rm" ∷ (mounts ++ image ∷ arguments)
