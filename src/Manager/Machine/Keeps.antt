-- ===== src/Manager/Machine/Keeps.antt =====
-- Invariants of the machine: the commands by class, and how a command is run.
pub use remnanode_xhttp_cleaner.System.Keeps.{
  Traced, Keeps-attempt, Keeps-call, Keeps-set_file, Keeps-write_file, Keeps-receive,
  Keeps-read_file, Keeps-unlink_file, Keeps-replace_file,
}
use remnanode_xhttp_cleaner.Base.{◌≡◌, refl, Bool, true, false, List, Outcome}
use remnanode_xhttp_cleaner.Base.Text.{Text}
use remnanode_xhttp_cleaner.Base.Exec.Keeps.{Keeps, keeps_rules}
use remnanode_xhttp_cleaner.Manager.Command.{
  Command, inspect_running, inspect_health, inspect_id, inspect, inspect_state, read_link,
  core_version, machine_arch, dump_config, dump_config_short, copy_in, copy_out, make_executable,
  test_core, remove, move, restart, process_scan, process_table, recent_logs, clone, apply_patch,
  build_step,
}
use remnanode_xhttp_cleaner.Manager.Machine.{
  Host, Machine, Completed, call, run, docker, docker_unchecked, file_digest,
}

-- Commands that only ask.
abbrev pub reading : Command → Bool
reading (copy_in c file path) = false
reading (copy_out c path file) = false
reading (make_executable c path) = false
reading (test_core c binary config) = false
reading (remove c paths) = false
reading (move c source target) = false
reading (restart c) = false
reading (clone tag source) = false
reading (apply_patch assets source) = false
reading (build_step mounts image arguments) = false
reading _ = true

-- The command that puts a file of the container in the place of another.
abbrev pub is_move : Command → Bool
is_move (move c source target) = true
is_move _ = false

pub is_move-reading : (c : Command) → reading c ≡ true → is_move c ≡ false
is_move-reading (inspect_running c) e = refl
is_move-reading (inspect_health c) e = refl
is_move-reading (inspect_id c) e = refl
is_move-reading (inspect c) e = refl
is_move-reading (inspect_state c) e = refl
is_move-reading (read_link c a) e = refl
is_move-reading (core_version c a) e = refl
is_move-reading (machine_arch c) e = refl
is_move-reading (dump_config c) e = refl
is_move-reading (dump_config_short c) e = refl
is_move-reading (process_scan c a) e = refl
is_move-reading (process_table c) e = refl
is_move-reading (recent_logs c) e = refl
is_move-reading (copy_in c a b) e = refl
is_move-reading (copy_out c a b) e = refl
is_move-reading (make_executable c a) e = refl
is_move-reading (test_core c a b) e = refl
is_move-reading (remove c a) e = refl
is_move-reading (restart c) e = refl
is_move-reading (clone a b) e = refl
is_move-reading (apply_patch a b) e = refl
is_move-reading (build_step a b c) e = refl
is_move-reading (move c a b) e = cc

module _ {W : Type 0} (h : Host W) where
  module _ {P : Machine W → Type 0} where
    pub Keeps-run : (c : Command) → Keeps P (call h c) → Keeps P (run h c)
    unfolding run
    Keeps-run c k = search (k, keeps_rules)

    pub Keeps-docker : (c : Command) → Keeps P (call h c) → Keeps P (docker h c)
    unfolding docker
    Keeps-docker c k = search (Keeps-run c k, keeps_rules)

    pub Keeps-docker_unchecked : (c : Command) → Keeps P (call h c) → Keeps P (docker_unchecked h c)
    unfolding docker_unchecked
    Keeps-docker_unchecked c k = search (k, keeps_rules)

  module _ (T : List (Command × Outcome Completed) → Type 0) where
    pub Keeps-file_digest :
        (path : Text) → Keeps {World = Machine W} (Traced h T) (file_digest h path)
    unfolding file_digest
    Keeps-file_digest path = search (Keeps-read_file, keeps_rules)

pub ruleset file_rules = (
  Keeps-set_file, Keeps-attempt, Keeps-write_file, Keeps-receive, Keeps-read_file,
  Keeps-file_digest, Keeps-unlink_file, Keeps-replace_file,
)
