-- ===== src/Cleaner/Main/ReadOnly.antt =====
-- The subcommands that are said to change nothing.
use remnanode_xhttp_cleaner.Base.{◌≡◌, refl, Bool, true, false, not, All}
use remnanode_xhttp_cleaner.Base.Text.{Text}
use remnanode_xhttp_cleaner.Base.Exec.Keeps.{
  Keeps, Keeps-bind, Keeps-pure, Keeps-catch, Keeps-lift, keeps_rules,
}
use remnanode_xhttp_cleaner.Config.{Config, ConfigFile}
use remnanode_xhttp_cleaner.System.{Files, call}
use remnanode_xhttp_cleaner.System.Keeps.{Keeps-call}
use remnanode_xhttp_cleaner.Cleaner.Command.{Command, enter_worker}
use remnanode_xhttp_cleaner.Cleaner.Machine.{Host, Machine, Setting}
use remnanode_xhttp_cleaner.Cleaner.Machine.Keeps.{
  Filed, Keeps-call_files, Keeps-run, Keeps-require_root, Keeps-require_program,
}
use remnanode_xhttp_cleaner.Cleaner.Discover.Asking.{
  asking, Keeps-docker_info, Keeps-discover_xhttp_listeners, Keeps-discover_transport_counts,
  Keeps-read_memory_optimizer_status,
}
use remnanode_xhttp_cleaner.Cleaner.Process.{run_worker}
use remnanode_xhttp_cleaner.Cleaner.Main.{
  Action, status, scan, clean, install, uninstall, command_status, command_scan, command_clean,
  dispatch, selected, exit_code, main,
}

-- A command that asks, or a worker without `--apply`.
abbrev pub harmless : Command → Bool
harmless (enter_worker init_pid xray_pid config_json xhttp_json apply) = not apply
harmless c = asking c

-- `status`, `scan`, and `clean --dry-run`
abbrev pub is_look : Action → Bool
is_look status = true
is_look scan = true
is_look (clean dry_run) = dry_run
is_look install = false
is_look uninstall = false

asking-harmless : (c : Command) → asking c ≡ true → harmless c ≡ true
asking-harmless (enter_worker init_pid xray_pid config_json xhttp_json apply) e = cc
asking-harmless c e = e

module _ {W : Type 0} (h : Host W) (s : Setting W) {P : Machine W → Type 0}
    (kept : (c : Command) → harmless c ≡ true → Keeps P (call h c)) where
  kept_asking : (c : Command) → asking c ≡ true → Keeps P (call h c)
  kept_asking c e = kept c (asking-harmless c e)

  Keeps-run_worker : (config : Config) → Keeps P (run_worker h s config false)
  unfolding run_worker
  Keeps-run_worker config =
      search
        (
          Keeps-require_root,
          Keeps-require_program,
          Keeps-docker_info h kept_asking,
          Keeps-discover_xhttp_listeners h kept_asking,
          Keeps-run,
          kept,
          keeps_rules,
        )
        depth 20

  Keeps-command_status : (config : Config) → Keeps P (command_status h s config)
  unfolding command_status
  Keeps-command_status config =
      search
        (
          Keeps-docker_info h kept_asking,
          Keeps-run_worker,
          Keeps-discover_transport_counts h kept_asking,
          Keeps-read_memory_optimizer_status h kept_asking,
          keeps_rules,
        )
        depth 20

  Keeps-dispatch :
      (config : Config) (action : Action)
      → is_look action ≡ true
      → Keeps P (dispatch h s config action)
  unfolding dispatch command_scan command_clean
  Keeps-dispatch config status e =
      search (Keeps-require_root, Keeps-command_status, keeps_rules) depth 20
  Keeps-dispatch config scan e = search (Keeps-run_worker, keeps_rules) depth 20
  Keeps-dispatch config (clean true) e = search (Keeps-run_worker, keeps_rules) depth 20
  Keeps-dispatch config (clean false) e = absurd cc
  Keeps-dispatch config install e = absurd cc
  Keeps-dispatch config uninstall e = absurd cc

  Keeps-selected :
      (file : ConfigFile) (action : Action)
      → is_look action ≡ true
      → Keeps P (selected h s file action)
  unfolding selected
  Keeps-selected file status e = search (Keeps-dispatch, keeps_rules) depth 20
  Keeps-selected file scan e = search (Keeps-dispatch, keeps_rules) depth 20
  Keeps-selected file (clean dry_run) e = search (Keeps-dispatch, keeps_rules) depth 20
  Keeps-selected file install e = absurd cc
  Keeps-selected file uninstall e = absurd cc

  Keeps-main :
      (file : ConfigFile) (action : Action) → is_look action ≡ true → Keeps P (main h s file action)
  unfolding main
  Keeps-main file action e =
      Keeps-catch _ _ (Keeps-bind _ _ (Keeps-selected file action e) (λ _. Keeps-pure 0))
        (λ e'. Keeps-lift (exit_code e'))

module _ {W : Type 0} (h : Host W) (s : Setting W) where
  -- A run of `status`, `scan` or `clean --dry-run`, however it ends, leaves every file as it was, and
  -- each command that it adds to the trace only asks, or is a worker without `--apply`.
  pub main-IsReadOnly :
      (file : ConfigFile) (action : Action) (m : Machine W)
      → is_look action ≡ true
      → All (λ e. harmless e.0 ≡ true) m.trace
      → ((q : Text) → (main h s file action m).1.files q ≡ m.files q)
        × All (λ e. harmless e.0 ≡ true) (main h s file action m).1.trace
  main-IsReadOnly file action m look before = (
    (Keeps-main h s {P = Filed h Same} (λ c e. Keeps-call_files h Same c) file action look).at m
        (λ q. refl),
    (Keeps-main h s (λ c e. Keeps-call h (All (λ e'. harmless e'.0 ≡ true)) c (λ r t p. (e, p)))
          file action look).at
        m before,
  )
    where
      Same : Files → Type 0
      Same files = (q : Text) → files q ≡ m.files q
