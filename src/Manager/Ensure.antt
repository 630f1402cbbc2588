-- ===== src/Manager/Ensure.antt =====
-- `xray-core-manager.py`: `ensure`, `operation_lock` and `main`.
pub mod Quiet
pub mod Remembered
use remnanode_xhttp_cleaner.Base.{
  ℕ, Bool, true, false, not, ◌&&◌, List, [], ◌∷◌, ◌++◌, if◌then◌else◌, Outcome, ok, err, Exception,
  core_manager_error, os_error, timeout_expired,
}
use remnanode_xhttp_cleaner.Base.Int.{ℤ, pos}
use remnanode_xhttp_cleaner.Base.Text.{Text, codes}
use remnanode_xhttp_cleaner.Base.Exec.{
  Exec, pure, raise, raise_if, gets, lift, catch, finally, ◌>>=◌, ◌>>◌,
}
use remnanode_xhttp_cleaner.Config.{ConfigFile}
use remnanode_xhttp_cleaner.Json.{Json, bool, int, str, dict, field, end}
use remnanode_xhttp_cleaner.Manager.Machine.{Host, Machine, has_file, unlink_file}
use remnanode_xhttp_cleaner.Manager.Files.{atomic_json}
use remnanode_xhttp_cleaner.Manager.Version.{patch_id}
use remnanode_xhttp_cleaner.Manager.Settings.{load_container}
use remnanode_xhttp_cleaner.Manager.Info.{
  Info, require_environment, current_info, artifact_path, failure_path,
}
use remnanode_xhttp_cleaner.Manager.Process.{is_empty, running_core_evidence}
use remnanode_xhttp_cleaner.Manager.Health.{stock_core_is_running}
use remnanode_xhttp_cleaner.Manager.Rollback.{rollback, restore_if_patched}
use remnanode_xhttp_cleaner.Manager.Deploy.{deploy}
use remnanode_xhttp_cleaner.Manager.Build.{clone_and_build}

-- What `ensure` returns.
pub data Ensured : Type 0 where
  already_patched deployed : Ensured

-- The record of a failed attempt, with the text of the error.
unfoldable pub failure_record : Info → Text → Bool → ℕ → Json
failure_record info message stock_preserved now = dict (
    field (codes "patch_id") (str patch_id) (
      field (codes "xray_version") (str info.version) (
        field (codes "architecture") (str info.arch) (
          field (codes "failed_at") (int (pos now)) (
            field (codes "error") (str message)
              (field (codes "stock_core_preserved") (bool stock_preserved) end))))))

module _ {W : Type 0} (h : Host W) where
  -- A binary with the marker of another version of the patch is replaced by the stock one first.
  unfoldable pub restore_legacy : Text → Info → Exec (Machine W) Info
  unfolding rollback current_info
  restore_legacy container info = if is_empty info.cleaner_patch then pure info else (do
    rollback h container
    restored ← current_info h container
    raise_if (not (is_empty restored.cleaner_patch))
        (core_manager_error "legacy Cleaner patch is still active after rollback")
    pure restored)

  unfoldable pub build_if_missing : Info → Exec (Machine W) (Unit {0})
  unfolding clone_and_build artifact_path
  build_if_missing info = do
    there ← has_file h (artifact_path info)
    git ← gets (λ m. h.which (codes "git") m.world)
    if there
        then pure tt
        else (raise_if (not git) (core_manager_error "required executable is missing: git")
            >> clone_and_build h info (artifact_path info))

  -- The `try` of `ensure`
  unfoldable pub build_and_deploy : Text → Info → Exec (Machine W) (Unit {0})
  unfolding build_if_missing deploy unlink_file artifact_path failure_path
  build_and_deploy container info = do
    build_if_missing info
    deploy h container info (artifact_path info)
    unlink_file h (failure_path info)

  -- Its `except BaseException`
  unfoldable pub record_failure : Text → Info → Exception → Exec (Machine W) (Unit {0})
  unfolding stock_core_is_running atomic_json failure_path failure_record
  record_failure container info e = do
    stock_preserved ← stock_core_is_running h container
    now ← gets (λ m. h.time m.world)
    message ← gets (λ m. h.str_of e m.world)
    atomic_json h (failure_path info) (failure_record info message stock_preserved now)
    raise e

  -- From the test on the record of a failure on
  unfoldable pub attempt_deploy : Text → Bool → Info → Exec (Machine W) Ensured
  unfolding build_and_deploy record_failure failure_path
  attempt_deploy container retry_failed info = do
    failed ← has_file h (failure_path info)
    raise_if (failed && not retry_failed)
        (core_manager_error "this exact Xray version previously failed the compatibility gate")
    catch (build_and_deploy container info) (record_failure container info)
    pure deployed

  unfoldable pub ensure : Text → Bool → Exec (Machine W) Ensured
  unfolding require_environment current_info restore_legacy attempt_deploy
  ensure container retry_failed = do
    require_environment h container
    info ← current_info h container
    if info.patched
        then pure already_patched
        else (restore_legacy container info >>= attempt_deploy container retry_failed)
