-- ===== src/Cleaner/Discover/Asking.antt =====
-- The functions of `Cleaner.Discover` run no other commands than those that ask.
use remnanode_xhttp_cleaner.Base.{◌≡◌, Bool, true, false, Option, none, some}
use remnanode_xhttp_cleaner.Base.Text.{Text}
use remnanode_xhttp_cleaner.Base.Exec.{Exec}
use remnanode_xhttp_cleaner.Base.Exec.Keeps.{Keeps, keeps_rules}
use remnanode_xhttp_cleaner.Json.{Json}
use remnanode_xhttp_cleaner.Config.{Config}
use remnanode_xhttp_cleaner.Transport.{Counts}
use remnanode_xhttp_cleaner.System.{call}
use remnanode_xhttp_cleaner.Cleaner.Command.{
  Command, enter_worker, timer_enabled, disable_timer, enable_timer, reload_units, restore_core,
}
use remnanode_xhttp_cleaner.Cleaner.Machine.{Host, Machine, run, run_unchecked}
use remnanode_xhttp_cleaner.Cleaner.Machine.Keeps.{
  Keeps-run, Keeps-run_unchecked, Keeps-require_program,
}
use remnanode_xhttp_cleaner.Cleaner.Discover.{
  Discovery, docker_info, try_listeners, parsed_listeners, discover_xhttp_listeners, try_counts,
  parsed_counts, discover_transport_counts, read_memory_optimizer_status,
}

abbrev pub asking : Command → Bool
asking (enter_worker init_pid xray_pid config_json xhttp_json apply) = false
asking timer_enabled = false
asking disable_timer = false
asking enable_timer = false
asking reload_units = false
asking restore_core = false
asking _ = true

module _ {W : Type 0} (h : Host W) {P : Machine W → Type 0}
    (kept : (c : Command) → asking c ≡ true → Keeps P (call h c)) where
  Keeps-ask : (c : Command) → asking c ≡ true → Keeps P (run h c)
  Keeps-ask c e = Keeps-run h c (kept c e)

  pub Keeps-try : (c : Command) → asking c ≡ true → Keeps P (run_unchecked h c)
  Keeps-try c e = Keeps-run_unchecked h c (kept c e)

  pub Keeps-docker_info : (container : Text) → Keeps P (docker_info h container)
  unfolding docker_info
  Keeps-docker_info container = search (Keeps-ask, Keeps-require_program, keeps_rules) depth 30

  Keeps-parsed_listeners :
      (value : Option Json) (later : Exec (Machine W) (_ × Discovery))
      → Keeps P later
      → Keeps P (parsed_listeners h value later)
  Keeps-parsed_listeners none later k = k
  Keeps-parsed_listeners (some raw) later k = search (keeps_rules)

  Keeps-try_listeners :
      (c : Command) (later : Exec (Machine W) (_ × Discovery))
      → asking c ≡ true
      → Keeps P later
      → Keeps P (try_listeners h c later)
  unfolding try_listeners
  Keeps-try_listeners c later e k =
      search (Keeps-try c e, Keeps-parsed_listeners, k, keeps_rules) depth 20

  pub Keeps-discover_xhttp_listeners :
      (config : Config) → Keeps P (discover_xhttp_listeners h config)
  unfolding discover_xhttp_listeners
  Keeps-discover_xhttp_listeners config = search (Keeps-try_listeners, keeps_rules) depth 20

  Keeps-parsed_counts :
      (value : Option Json) (later : Exec (Machine W) (Counts × Discovery))
      → Keeps P later
      → Keeps P (parsed_counts h value later)
  Keeps-parsed_counts none later k = k
  Keeps-parsed_counts (some raw) later k = search (keeps_rules)

  Keeps-try_counts :
      (c : Command) (later : Exec (Machine W) (Counts × Discovery))
      → asking c ≡ true
      → Keeps P later
      → Keeps P (try_counts h c later)
  unfolding try_counts
  Keeps-try_counts c later e k =
      search (Keeps-try c e, Keeps-parsed_counts, k, keeps_rules) depth 20

  pub Keeps-discover_transport_counts :
      (container : Text) → Keeps P (discover_transport_counts h container)
  unfolding discover_transport_counts
  Keeps-discover_transport_counts container = search (Keeps-try_counts, keeps_rules) depth 20

  pub Keeps-read_memory_optimizer_status :
      (container : Text) → Keeps P (read_memory_optimizer_status h container)
  unfolding read_memory_optimizer_status
  Keeps-read_memory_optimizer_status container = search (Keeps-try, keeps_rules) depth 20
