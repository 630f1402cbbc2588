-- ===== src/Cleaner/Main.antt =====
-- remnanode-xhttp-clean.py: `command_status`, `command_scan`, `command_clean` and `main`, without the
-- branch `_worker`. What is printed is left out.
pub mod ReadOnly
use remnanode_xhttp_cleaner.Base.{
  ℕ, Bool, true, false, not, Exception, Outcome, ok, err, cleaner_error, os_error,
  json_decode_error,
}
use remnanode_xhttp_cleaner.Base.Exec.{Exec, pure, raise, lift, catch, ◌>>=◌, ◌>>◌}
use remnanode_xhttp_cleaner.Config.{Config, ConfigFile, load}
use remnanode_xhttp_cleaner.Cleaner.Machine.{Host, Machine, Setting, require_root}
use remnanode_xhttp_cleaner.Cleaner.Discover.{
  docker_info, discover_transport_counts, read_memory_optimizer_status,
}
use remnanode_xhttp_cleaner.Cleaner.Process.{run_worker}
use remnanode_xhttp_cleaner.Cleaner.Install.{command_install}
use remnanode_xhttp_cleaner.Cleaner.Uninstall.{command_uninstall}

-- The subcommand, with the flag `--dry-run` of `clean`.
pub data Action : Type 0 where
  status scan install uninstall : Action
  clean : Bool → Action

-- The outermost `except`, which returns 1
abbrev pub exit_code : Exception → Outcome ℕ
exit_code (cleaner_error message) = ok 1
exit_code (os_error errno) = ok 1
exit_code json_decode_error = ok 1
exit_code e = err e

module _ {W : Type 0} (h : Host W) (s : Setting W) where
  -- The calls before the first line is printed
  unfoldable pub command_status : Config → Exec (Machine W) (Unit {0})
  unfolding docker_info run_worker discover_transport_counts read_memory_optimizer_status
  command_status config = do
    docker_info h config.container
    run_worker h s config false
    discover_transport_counts h config.container
    read_memory_optimizer_status h config.container
    pure tt

  unfoldable pub command_scan : Config → Exec (Machine W) (Unit {0})
  unfolding run_worker
  command_scan config = do run_worker h s config false; pure tt

  unfoldable pub command_clean : Config → Bool → Exec (Machine W) (Unit {0})
  unfolding run_worker
  command_clean config dry_run = do run_worker h s config (not dry_run); pure tt

  unfoldable pub dispatch : Config → Action → Exec (Machine W) (Unit {0})
  unfolding command_status command_scan command_clean command_install
  dispatch config status = require_root h >> command_status config
  dispatch config scan = command_scan config
  dispatch config (clean dry_run) = command_clean config dry_run
  dispatch config install = command_install h s config
  dispatch config uninstall = pure tt

  -- `main` with its arguments; `uninstall` does not read the configuration.
  unfoldable pub selected : ConfigFile → Action → Exec (Machine W) (Unit {0})
  unfolding command_uninstall load dispatch
  selected file uninstall = command_uninstall h s
  selected file action = do config ← lift (load file); dispatch config action

  unfoldable pub main : ConfigFile → Action → Exec (Machine W) ℕ
  unfolding selected
  main file action = catch (selected file action >> pure 0) (λ e. lift (exit_code e))
