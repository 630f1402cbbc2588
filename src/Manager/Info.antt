-- ===== src/Manager/Info.antt =====
-- `xray-core-manager.py`: what is asked of a running container: `require_environment`, `core_path`
-- and `current_info`, and the paths that follow from it.
use remnanode_xhttp_cleaner.Base.{Bool, not, List, [], ◌∷◌, ◌++◌, if◌then◌else◌, core_manager_error}
use remnanode_xhttp_cleaner.Base.Text.{Text, codes, text_eq}
use remnanode_xhttp_cleaner.Base.Exec.{Exec, pure, raise, raise_if, gets, lift, ◌>>=◌, ◌>>◌}
use remnanode_xhttp_cleaner.Manager.Command.{
  inspect_running, inspect_id, read_link, core_version, machine_arch,
}
use remnanode_xhttp_cleaner.Manager.Machine.{
  Host, Machine, Completed, call, docker, docker_unchecked, succeeded,
}
use remnanode_xhttp_cleaner.Manager.Version.{
  parse_version, normalize_arch, patch_id, cleaner_patch, occurs, is_core_path,
}

-- The dictionary that `current_info` returns. `patched` is the text "true" or "false" there.
pub record Info : Type 0 where
  pub binary : Text
  pub statement : Text
  pub version : Text
  pub goarch : Text
  pub arch : Text
  pub patched : Bool
  pub cleaner_patch : Text
  pub container_id : Text

abbrev pub state_root : Text
state_root = codes "/var/lib/remnanode-xhttp-clean"

abbrev pub cache_root : Text
cache_root = codes "/var/cache/remnanode-xhttp-clean"

-- `f"{info['version']}-{info['arch']}"`
abbrev version_arch : Info → Text
version_arch info = info.version ++ (codes "-" ++ info.arch)

unfoldable pub version_dir : Info → Text
version_dir info = state_root ++ (codes "/versions/" ++ version_arch info)

unfoldable pub artifact_path : Info → Text
artifact_path info =
    cache_root
    ++ (codes "/artifacts/" ++ (patch_id ++ (codes "/" ++ (version_arch info ++ codes "/xray"))))

-- `failure` of `ensure`
unfoldable pub failure_path : Info → Text
failure_path info =
    state_root
    ++ (codes "/failures/" ++ (patch_id ++ (codes "-" ++ (version_arch info ++ codes ".json"))))

unfoldable pub deployment_path : Text
deployment_path = state_root ++ codes "/deployment.json"

unfoldable pub core_candidates : List Text
core_candidates = codes "/usr/local/bin/xray" ∷ codes "/usr/local/bin/rw-core" ∷ []

module _ {W : Type 0} (h : Host W) where
  unfoldable pub require_environment : Text → Exec (Machine W) (Unit {0})
  unfolding docker text_eq
  require_environment container = do
    raise_if (not h.is_root) (core_manager_error "run this command as root")
    found ← gets (λ m. h.which (codes "docker") m.world)
    raise_if (not found) (core_manager_error "required executable is missing")
    running ← docker h (inspect_running container)
    raise_if (not (text_eq running (codes "true"))) (core_manager_error "container is not running")

  -- The probe of a candidate that the expression accepts, and the rest of the loop after it.
  abbrev accepted : Completed → Text → Exec (Machine W) Text → Exec (Machine W) Text
  accepted probe resolved later = if succeeded probe then pure resolved else later

  -- One round of the loop.
  unfoldable pub try_candidate : Text → Text → Exec (Machine W) Text → Exec (Machine W) Text
  unfolding docker_unchecked is_core_path
  try_candidate container candidate later = do
    resolved ← docker_unchecked h (read_link container candidate)
    if is_core_path resolved
        then (do probe ← call h (core_version container resolved); accepted probe resolved later)
        else later

  unfoldable pub core_path_loop : Text → List Text → Exec (Machine W) Text
  unfolding try_candidate
  core_path_loop container [] =
      raise (core_manager_error "cannot locate an executable xray/rw-core inside the container")
  core_path_loop container (candidate ∷ rest) =
      try_candidate container candidate (core_path_loop container rest)

  unfoldable pub core_path : Text → Exec (Machine W) Text
  unfolding core_path_loop core_candidates
  core_path container = core_path_loop container core_candidates

  unfoldable pub version_statement : Text → Text → Exec (Machine W) Text
  unfolding docker
  version_statement container binary = docker h (core_version container binary)

  unfoldable pub current_info : Text → Exec (Machine W) Info
  unfolding core_path version_statement docker normalize_arch parse_version occurs cleaner_patch
  current_info container = do
    binary ← core_path container
    statement ← version_statement container binary
    machine ← docker h (machine_arch container)
    (goarch, arch) ← lift (normalize_arch machine)
    version ← lift (parse_version statement)
    container_id ← docker h (inspect_id container)
    pure (record {
      binary = binary;
      statement = statement;
      version = version;
      goarch = goarch;
      arch = arch;
      patched = occurs patch_id statement;
      cleaner_patch = cleaner_patch statement;
      container_id = container_id;
    })
