-- ===== src/Tests/Cleaner.antt =====
-- Runs of the commands of `remnanode-xhttp-clean.py` on a host with one container.
use native.Mathlib.Omega.{arith}
use remnanode_xhttp_cleaner.Base.{
  ℕ, ◌≡◌, refl, Bool, true, false, none, some, List, [], ◌∷◌, All, Outcome, ok, err, if◌then◌else◌,
  cleaner_error,
}
use remnanode_xhttp_cleaner.Base.Int.{pos}
use remnanode_xhttp_cleaner.Base.Text.{Text, codes, text_eq, is_space}
use remnanode_xhttp_cleaner.Base.Exec.Triple.{Ends}
use remnanode_xhttp_cleaner.Config.{default, absent}
use remnanode_xhttp_cleaner.Config.Validation.{IsValid}
use remnanode_xhttp_cleaner.Listener.{int_of}
use remnanode_xhttp_cleaner.System.{Completed, bytes, call}
use remnanode_xhttp_cleaner.Cleaner.Command.{
  Command, inspect_running, inspect_pid, process_table, restore_core, dump_config,
}
use remnanode_xhttp_cleaner.Cleaner.Machine.{Host, Machine, Setting}
use remnanode_xhttp_cleaner.Cleaner.Proc.{process_cpu_ticks, owned_socket_inodes, process_rss_mb}
use remnanode_xhttp_cleaner.Cleaner.Proc.Comm.{Field, process_cpu_ticks_comm}
use remnanode_xhttp_cleaner.Cleaner.Discover.{docker_info}
use remnanode_xhttp_cleaner.Cleaner.Process.{run_worker}
use remnanode_xhttp_cleaner.Cleaner.Process.Arguments.{Faithful, run_worker-IsFaithful}
use remnanode_xhttp_cleaner.Cleaner.Install.{
  command_install, service_path, timer_path, service_text, timer_text,
}
use remnanode_xhttp_cleaner.Cleaner.Install.Files.{AreApart, command_install-IsInstalled}
use remnanode_xhttp_cleaner.Cleaner.Uninstall.{command_uninstall}
use remnanode_xhttp_cleaner.Cleaner.Uninstall.Restored.{Either, command_uninstall-IsRestored}
use remnanode_xhttp_cleaner.Cleaner.Uninstall.Timer.{awake, command_uninstall-IsAwake}
use remnanode_xhttp_cleaner.Cleaner.Main.{main, clean}
use remnanode_xhttp_cleaner.Cleaner.Main.ReadOnly.{harmless, main-IsReadOnly}
use remnanode_xhttp_cleaner.Tests.Codec.{test_dumps, test_loads, test_loads-dumps}

abbrev says : ℕ → Text → Outcome Completed
says code text = ok (record { returncode = pos code; stdout = text; stderr = [] })

-- The flag tells whether the core manager can put the original core back.
abbrev reply : Bool → Command → Outcome Completed
reply works (inspect_running c) = says 0 (codes "true\n")
reply works (inspect_pid c) = says 0 (codes "10")
reply works (process_table c) = says 0 (codes "PID COMM ARGS\n 10 sh -c\n 11 rw-core run")
reply works (dump_config c) = says 0 (codes "{}")
reply works restore_core = if works then says 0 [] else says 1 []
reply works command = says 0 []

abbrev host : Bool → Host (Unit {0})
host works = record {
  run = λ command w. (reply works command, w);
  fetched = λ command w. none;
  monotonic = λ w. 0;
  sleep = λ n w. w;
  time = λ w. 0;
  is_root = true;
  environment = λ name. [];
  which = λ name w. true;
  loads = test_loads;
  json_eq = λ a b. true;
  sha256 = λ content. [];
  str_of = λ e w. [];
  size = λ content. 0;
  fault = λ step path w. none;
  left = λ path w. none;
  temporary = λ path w. 0 ∷ path;
  pid = 7;
  local_assets = none;
  python = codes "/usr/bin/python3";
}

abbrev setting : Setting (Unit {0})
setting = record {
  dumps = test_dumps;
  dumps_indented = test_dumps;
  config_path = codes "/etc/remnanode-xhttp-clean.json";
  script = codes "/root/clean.py";
  resolve = λ path w. path;
}

abbrev start : Machine (Unit {0})
start = record {
  world = tt;
  files = λ path. some (bytes (codes "content"));
  locked = false;
  trace = [];
}

finds_core :
    (docker_info (host true) (codes "remnanode") start).0
    ≡ ok (record { init_pid = pos 10; xray_pid = pos 11; image = [] })
unfolding docker_info call
finds_core = refl

reads_links :
    owned_socket_inodes
      (ok (ok (codes "socket:[41]") ∷ ok (codes "/dev/null") ∷ ok (codes "socket:[x]") ∷ []))
    ≡ ok (pos 41 ∷ [])
unfolding owned_socket_inodes
reads_links = refl

reads_size : process_rss_mb (ok (codes "Name: a b\nVmRSS:\t 5000 kB\n")) ≡ ok (pos 4)
unfolding process_rss_mb
reads_size = refl

abbrev one : Field
one = (b'1', [])

abbrev leading : List Field
leading = (b'S', []) ∷ one ∷ one ∷ one ∷ one ∷ one ∷ one ∷ one ∷ one ∷ one ∷ one ∷ []

process_cpu_ticks_comm_example :
    process_cpu_ticks (codes "11 (rw) core (x) S 1 1 1 1 1 1 1 1 1 1 40 2 1") ≡ ok (pos 42)
unfolding is_space int_of
process_cpu_ticks_comm_example =
    process_cpu_ticks_comm (codes "11 ") (codes "rw) core (x") leading (one ∷ []) (b'4', b'0' ∷ [])
      (b'2', []) 40 2 refl
      (
        ((refl, refl), tt),
        (
          ((refl, refl), tt),
          (
            ((refl, refl), tt),
            (
              ((refl, refl), tt),
              (
                ((refl, refl), tt),
                (
                  ((refl, refl), tt),
                  (
                    ((refl, refl), tt),
                    (
                      ((refl, refl), tt),
                      (
                        ((refl, refl), tt),
                        (
                          ((refl, refl), tt),
                          (
                            ((refl, refl), tt),
                            (
                              ((refl, refl), ((refl, refl), tt)),
                              (((refl, refl), tt), (((refl, refl), tt), tt)),
                            ),
                          ),
                        ),
                      ),
                    ),
                  ),
                ),
              ),
            ),
          ),
        ),
      )
      refl refl

default-IsValid : IsValid default
default-IsValid = record { named = λ e. cc; floor = omega arith }

run_worker-IsFaithful_example :
    All
      (Faithful (host true) setting default true)
      (run_worker (host true) setting default true start).1.trace
run_worker-IsFaithful_example =
    run_worker-IsFaithful (host true) setting default default-IsValid test_loads-dumps true start tt

main-IsReadOnly_example :
    ((q : Text) → (main (host true) setting absent (clean true) start).1.files q ≡ start.files q)
    × All (λ e. harmless e.0 ≡ true) (main (host true) setting absent (clean true) start).1.trace
main-IsReadOnly_example = main-IsReadOnly (host true) setting absent (clean true) start refl tt

apart : AreApart (host true) setting
unfolding text_eq
apart = record {
  spared_config = λ path w. refl;
  spared_service = λ path w. refl;
  spared_timer = λ path w. refl;
  not_script = refl;
  not_service = refl;
  not_timer = refl;
}

command_install-IsInstalled_example :
    Ends
      (λ (_ : Unit {0}) (after : Machine (Unit {0})).
        (after.files setting.config_path ≡ some (bytes (codes "content")))
        × (after.files service_path ≡ some (bytes service_text))
        × (after.files timer_path ≡ some (bytes timer_text)))
      (λ after. after.files setting.config_path ≡ some (bytes (codes "content")))
      (command_install (host true) setting default start).0
      (command_install (host true) setting default start).1
command_install-IsInstalled_example =
    command_install-IsInstalled (host true) setting apart default (bytes (codes "content")) start
      refl

command_uninstall-IsRestored_example :
    Either (host true) setting start (command_uninstall (host true) setting start).1
command_uninstall-IsRestored_example = command_uninstall-IsRestored (host true) setting start refl

restore_fails :
    (command_uninstall (host false) setting start).0 ≡ err (cleaner_error "Ошибка команды")
unfolding command_uninstall call
restore_fails = refl

command_uninstall-IsAwake_example :
    awake (command_uninstall (host false) setting start).1.trace ≡ true
command_uninstall-IsAwake_example =
    command_uninstall-IsAwake (host false) setting (λ w. refl) start
      (cleaner_error "Ошибка команды") refl refl restore_fails
