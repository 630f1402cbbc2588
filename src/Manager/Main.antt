-- ===== src/Manager/Main.antt =====
-- `xray-core-manager.py`: `print_status`, `operation_lock` and `main`.
use remnanode_xhttp_cleaner.Base.{
  ℕ, Bool, true, false, ◌++◌, if◌then◌else◌, ok, Exception, core_manager_error, os_error,
  timeout_expired,
}
use remnanode_xhttp_cleaner.Base.Text.{Text, codes}
use remnanode_xhttp_cleaner.Base.Exec.{Exec, pure, raise, lift, catch, finally, ◌>>=◌, ◌>>◌}
use remnanode_xhttp_cleaner.Config.{ConfigFile}
use remnanode_xhttp_cleaner.Manager.Machine.{Host, Machine, create, chmod, lock, attempt}
use remnanode_xhttp_cleaner.Manager.Settings.{load_container}
use remnanode_xhttp_cleaner.Manager.Info.{require_environment, current_info, state_root}
use remnanode_xhttp_cleaner.Manager.Process.{running_core_evidence}
use remnanode_xhttp_cleaner.Manager.Health.{stock_core_is_running}
use remnanode_xhttp_cleaner.Manager.Rollback.{rollback, restore_if_patched}
use remnanode_xhttp_cleaner.Manager.Ensure.{ensure}

-- The subcommand with its flags: `--retry-failed` and `--nonfatal` of `ensure`.
pub data Action : Type 0 where
  status rollback_core restore_core : Action
  ensure_core : Bool → Bool → Action

abbrev lock_path : Text
lock_path = state_root ++ codes "/core-manager.lock"

module _ {W : Type 0} (h : Host W) where
  -- The calls of `print_status`; what it prints is left out.
  unfoldable pub print_status : Text → Exec (Machine W) (Unit {0})
  unfolding require_environment current_info running_core_evidence
  print_status container = do
    require_environment h container
    info ← current_info h container
    running_core_evidence h container info.binary
    pure tt

  -- `except CoreManagerError` in `main`: with `--nonfatal` and a stock core that runs, the exit code
  -- is 0.
  unfoldable pub tolerate : Text → Bool → Exception → Exec (Machine W) (Unit {0})
  unfolding stock_core_is_running
  tolerate container nonfatal (core_manager_error message) =
      if nonfatal
      then (do
        stock ← stock_core_is_running h container
        if stock then pure tt else raise (core_manager_error message))
      else raise (core_manager_error message)
  tolerate container nonfatal e = raise e

  abbrev set_locked : Bool → Exec (Machine W) (Unit {0})
  set_locked held m = (ok tt, record m { locked = held })

  -- `with operation_lock():` around a block. The lock waits for other processes.
  unfoldable pub operation_lock : Exec (Machine W) (Unit {0}) → Exec (Machine W) (Unit {0})
  unfolding attempt
  operation_lock body = do
    attempt h create lock_path
    attempt h chmod lock_path
    attempt h lock lock_path
    set_locked true
    finally body (set_locked false)

  unfoldable pub dispatch : Text → Action → Exec (Machine W) (Unit {0})
  unfolding print_status operation_lock ensure tolerate rollback restore_if_patched
  dispatch container status = print_status container
  dispatch container (ensure_core retry_failed nonfatal) =
      operation_lock
        (catch (ensure h container retry_failed >> pure tt) (tolerate container nonfatal))
  dispatch container rollback_core = operation_lock (rollback h container)
  dispatch container restore_core = operation_lock (restore_if_patched h container)

  -- The outermost `except`, which returns 1.
  abbrev exit_code : Exception → Exec (Machine W) ℕ
  exit_code (core_manager_error message) = pure 1
  exit_code (os_error errno) = pure 1
  exit_code timeout_expired = pure 1
  exit_code e = raise e

  -- `main` after the arguments are parsed
  unfoldable pub main : ConfigFile → Action → Exec (Machine W) ℕ
  unfolding load_container dispatch
  main config action =
      catch (do container ← lift (load_container config); dispatch container action; pure 0)
        exit_code
