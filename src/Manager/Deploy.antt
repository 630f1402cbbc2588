-- ===== src/Manager/Deploy.antt =====
-- `xray-core-manager.py`: `deploy`.
pub mod Guard
pub mod Replace
pub mod Validated
pub mod Safety
pub mod Recorded
pub mod Failure
use remnanode_xhttp_cleaner.Base.{
  ℕ, Bool, true, false, not, ◌&&◌, ◌||◌, some, List, [], ◌∷◌, ◌++◌, if◌then◌else◌, take, Outcome,
  ok, err, Exception, core_manager_error,
}
use remnanode_xhttp_cleaner.Base.Int.{ℤ, pos}
use remnanode_xhttp_cleaner.Base.Text.{Text, codes, text_eq}
use remnanode_xhttp_cleaner.Base.Exec.{Exec, pure, raise, raise_if, gets, lift, catch, ◌>>=◌, ◌>>◌}
use remnanode_xhttp_cleaner.Json.{Json, int, str, dict, Fields, field, end}
use remnanode_xhttp_cleaner.Manager.Command.{inspect, inspect_id, move, restart}
use remnanode_xhttp_cleaner.Manager.Machine.{
  Host, Machine, Completed, bytes, chmod, run, docker, attempt, write_file, unlink_file, has_file,
  file_digest,
}
use remnanode_xhttp_cleaner.Manager.Files.{atomic_json, copy_from_container}
use remnanode_xhttp_cleaner.Manager.Version.{patch_id, occurs}
use remnanode_xhttp_cleaner.Manager.Settings.{preserved_container_settings}
use remnanode_xhttp_cleaner.Manager.Info.{
  Info, current_info, version_statement, version_dir, deployment_path,
}
use remnanode_xhttp_cleaner.Manager.Process.{is_empty}
use remnanode_xhttp_cleaner.Manager.Health.{wait_healthy}
use remnanode_xhttp_cleaner.Manager.RuntimeConfig.{validate_inside_container}
use remnanode_xhttp_cleaner.Manager.Rollback.{require_id, rollback_binary}

-- `any(live[field] != info[field] for field in identity_fields)`
unfoldable pub differs : Info → Info → Bool
unfolding text_eq
differs live info =
    not (text_eq live.container_id info.container_id)
    || (not (text_eq live.version info.version)
        || (not (text_eq live.arch info.arch) || not (text_eq live.binary info.binary)))

unfoldable pub backup_path : Info → Text
unfolding version_dir
backup_path info =
    version_dir info ++ (codes "/backups/" ++ (info.container_id ++ codes "/stock-xray"))

unfoldable pub inspect_path : Info → Text
unfolding version_dir
inspect_path info =
    version_dir info
    ++ (codes "/container-inspect-" ++ (take 12 info.container_id ++ codes ".json"))

-- `completed.stdout or "[]"`
abbrev or_empty_list : Text → Text
or_empty_list [] = codes "[]"
or_empty_list (c ∷ rest) = c ∷ rest

-- The content of `deployment.json`
unfoldable pub deployment : Text → Info → Text → Text → Text → Text → ℕ → Json
unfolding backup_path
deployment container info current_id artifact artifact_sha256 backup_sha256 now = dict (
    field (codes "patch_id") (str patch_id) (
      field (codes "container") (str container) (
        field (codes "container_id") (str current_id) (
          field (codes "binary") (str info.binary) (
            field (codes "xray_version") (str info.version) (
              field (codes "architecture") (str info.arch) (
                field (codes "artifact") (str artifact) (
                  field (codes "artifact_sha256") (str artifact_sha256) (
                    field (codes "backup") (str (backup_path info)) (
                      field (codes "backup_sha256") (str backup_sha256)
                        (field (codes "deployed_at") (int (pos now)) end)))))))))))

module _ {W : Type 0} (h : Host W) where
  -- `preserved_container_settings` of a fresh `docker inspect`, with the text that was read
  unfoldable pub read_settings : Text → Exec (Machine W) (Text × Json)
  unfolding run preserved_container_settings
  read_settings container = do
    completed ← run h (inspect container)
    let raw = or_empty_list completed.stdout
    settings ← lift (preserved_container_settings (h.loads raw))
    pure (raw, settings)

  unfoldable pub keep_inspection : Text → Text → Exec (Machine W) (Unit {0})
  unfolding write_file attempt
  keep_inspection path raw = do
    there ← has_file h path
    if there then pure tt else (write_file h path (bytes raw) >> attempt h chmod path)

  -- The test on the stock binary after its backup was taken
  unfoldable pub require_stock : Text → Info → Exec (Machine W) (Unit {0})
  unfolding version_statement unlink_file occurs backup_path
  require_stock container info = do
    statement ← version_statement h container info.binary
    if occurs patch_id statement
        then (unlink_file h (backup_path info)
            >> raise (
                core_manager_error
                  "refusing to record an already patched binary as the stock rollback copy"))
        else pure tt

  -- `deploy` up to `validate_inside_container`, with the settings of the container
  unfoldable pub keep_stock : Text → Info → Exec (Machine W) Json
  unfolding current_info differs read_settings keep_inspection copy_from_container require_stock
      inspect_path
  keep_stock container info = do
    live ← current_info h container
    raise_if (differs live info || not (is_empty live.cleaner_patch))
        (core_manager_error "container or Xray version changed while the fork was being built")
    (raw, settings) ← read_settings container
    keep_inspection (inspect_path info) raw
    copy_from_container h container info.binary (backup_path info)
    require_stock container info
    pure settings

  -- `deploy` up to its `try`: the settings of the container, and the binary inside of it.
  unfoldable pub prepare_deploy : Text → Info → Text → Exec (Machine W) (Json × Text)
  unfolding keep_stock validate_inside_container
  prepare_deploy container info artifact = do
    settings ← keep_stock container info
    remote_binary ← validate_inside_container h container artifact
    pure (settings, remote_binary)

  -- The `try` of `deploy` up to `replaced = True`
  unfoldable pub replace_core : Text → Info → Text → Exec (Machine W) (Unit {0})
  unfolding require_id run
  replace_core container info remote_binary = do
    require_id h container info.container_id
        (core_manager_error "container was recreated immediately before core replacement")
    run h (move container remote_binary info.binary)
    pure tt

  unfoldable pub record_deployment : Text → Info → Text → Text → Exec (Machine W) (Unit {0})
  unfolding file_digest deployment atomic_json backup_path
  record_deployment container info artifact current_id = do
    artifact_sha256 ← file_digest h artifact
    backup_sha256 ← file_digest h (backup_path info)
    now ← gets (λ m. h.time m.world)
    atomic_json h deployment_path
        (deployment container info current_id artifact artifact_sha256 backup_sha256 now)

  -- The rest of the `try`
  unfoldable pub activate : Text → Info → Text → Json → Exec (Machine W) (Unit {0})
  unfolding run docker text_eq read_settings wait_healthy record_deployment
  activate container info artifact settings_before = do
    run h (restart container)
    current_id ← docker h (inspect_id container)
    raise_if (not (text_eq current_id info.container_id))
        (core_manager_error "container identity changed unexpectedly during restart")
    (_, settings_after) ← read_settings container
    raise_if (not (h.json_eq settings_after settings_before))
        (core_manager_error "Docker container settings changed unexpectedly during restart")
    wait_healthy h container (some patch_id) info.binary
    record_deployment container info artifact current_id

  -- Its `except`, once the binary was replaced
  unfoldable pub roll_back_and_raise : Text → Info → Exception → Exec (Machine W) (Unit {0})
  unfolding rollback_binary backup_path
  roll_back_and_raise container info e = do
    catch (rollback_binary h container info.binary (backup_path info) info.container_id)
        (λ _. raise (core_manager_error "deployment failed; rollback also failed"))
    raise e

  -- An exception before `replaced = True` leaves the `try` as it is.
  unfoldable pub deploy : Text → Info → Text → Exec (Machine W) (Unit {0})
  unfolding prepare_deploy replace_core activate roll_back_and_raise
  deploy container info artifact = do
    (settings_before, remote_binary) ← prepare_deploy container info artifact
    replace_core container info remote_binary
    catch (activate container info artifact settings_before) (roll_back_and_raise container info)
