-- ===== src/Cleaner/Uninstall.antt =====
-- remnanode-xhttp-clean.py: `command_uninstall`.
pub mod Restored
pub mod Timer
use remnanode_xhttp_cleaner.Base.{
  Bool, true, false, not, ◌&&◌, Option, none, some, List, [], ◌∷◌, ◌++◌, if◌then◌else◌, Outcome, ok,
  err, Exception, os_error,
}
use remnanode_xhttp_cleaner.Base.Int.{ℤ}
use remnanode_xhttp_cleaner.Base.Text.{Text, codes, starts_with}
use remnanode_xhttp_cleaner.Base.Exec.{Exec, pure, raise, gets, lift, catch, ◌>>=◌, ◌>>◌}
use remnanode_xhttp_cleaner.System.{
  remove_tree, System, Files, unlink, has_file, unlink_file, is_some, succeeded,
}
use remnanode_xhttp_cleaner.Cleaner.Command.{
  timer_enabled, disable_timer, enable_timer, reload_units, restore_core, core_manager_root,
  core_manager_path,
}
use remnanode_xhttp_cleaner.Cleaner.Machine.{
  Host, Machine, Setting, run, run_unchecked, require_root, is_enoent,
}
use remnanode_xhttp_cleaner.Cleaner.Install.{install_path, service_path, timer_path}

abbrev control_path : Text
control_path = codes "/usr/local/bin/xhttp-cleaner"

abbrev core_state_root : Text
core_state_root = codes "/var/lib/remnanode-xhttp-clean"

abbrev core_cache_root : Text
core_cache_root = codes "/var/cache/remnanode-xhttp-clean"

-- `except FileNotFoundError: pass`
abbrev pub missing_ok : Exception → Outcome (Unit {0})
missing_ok (os_error errno) = if is_enoent errno then ok tt else err (os_error errno)
missing_ok e = err e

module _ {W : Type 0} (h : Host W) (s : Setting W) where
  abbrev pub has_systemctl : Exec (Machine W) Bool
  has_systemctl = gets (λ m. h.which (codes "systemctl") m.world)

  -- The first block; the result is `timer_was_enabled`.
  unfoldable pub stop_timer : Exec (Machine W) Bool
  unfolding run_unchecked
  stop_timer = do
    there ← has_systemctl
    if there
        then (do
          asked ← run_unchecked h timer_enabled
          run_unchecked h disable_timer
          pure (succeeded asked))
        else pure false

  unfoldable pub restore_when : Bool → Exec (Machine W) (Unit {0})
  unfolding run
  restore_when true = run h restore_core >> pure tt
  restore_when false = pure tt

  -- The `try`
  unfoldable pub restore : Exec (Machine W) (Unit {0})
  unfolding restore_when
  restore = has_file h core_manager_path >>= restore_when

  unfoldable pub start_when : Bool → Exec (Machine W) (Unit {0})
  unfolding run_unchecked
  start_when true = run_unchecked h enable_timer >> pure tt
  start_when false = pure tt

  -- Its `except BaseException`
  unfoldable pub start_timer : Bool → Exception → Exec (Machine W) (Unit {0})
  unfolding start_when
  start_timer was_enabled e = do there ← has_systemctl; start_when (was_enabled && there); raise e

  -- The loop over the paths
  unfoldable pub unlink_all : List Text → Exec (Machine W) (Unit {0})
  unfolding unlink_file
  unlink_all [] = pure tt
  unlink_all (path ∷ paths) = do
    catch (unlink_file h path) (λ e. lift (missing_ok e))
    unlink_all paths

  -- What follows the `try`
  unfoldable pub remove_all : Exec (Machine W) (Unit {0})
  unfolding unlink_all run_unchecked remove_tree
  remove_all = do
    unlink_all (service_path ∷ timer_path ∷ s.config_path ∷ install_path ∷ control_path ∷ [])
    there ← has_systemctl
    if there then (do run_unchecked h reload_units; pure tt) else pure tt
    remove_tree h core_manager_root
    remove_tree h core_state_root
    remove_tree h core_cache_root

  unfoldable pub command_uninstall : Exec (Machine W) (Unit {0})
  unfolding stop_timer restore start_timer remove_all
  command_uninstall = do
    require_root h
    was_enabled ← stop_timer
    catch restore (start_timer was_enabled)
    remove_all
