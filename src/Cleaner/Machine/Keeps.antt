-- ===== src/Cleaner/Machine/Keeps.antt =====
-- Invariants of the cleaner's machine: how a command is run.
use remnanode_xhttp_cleaner.Base.Text.{Text}
use remnanode_xhttp_cleaner.Base.Exec.Keeps.{Keeps, keeps_rules}
use remnanode_xhttp_cleaner.System.{Files, call}
use remnanode_xhttp_cleaner.Cleaner.Command.{Command}
use remnanode_xhttp_cleaner.Cleaner.Machine.{
  Host, Machine, run_unchecked, run, require_program, require_root,
}

module _ {W : Type 0} (h : Host W) where
  -- An invariant of the files.
  abbrev pub Filed : (Files → Type 0) → Machine W → Type 0
  Filed F m = F m.files

  pub Keeps-call_files : (F : Files → Type 0) (c : Command) → Keeps (Filed F) (call h c)
  unfolding call
  Keeps-call_files F c = record { at = λ m p. p }

  module _ {P : Machine W → Type 0} where
    pub Keeps-run_unchecked : (c : Command) → Keeps P (call h c) → Keeps P (run_unchecked h c)
    unfolding run_unchecked
    Keeps-run_unchecked c k = search (k, keeps_rules)

    pub Keeps-run : (c : Command) → Keeps P (call h c) → Keeps P (run h c)
    unfolding run
    Keeps-run c k = search (Keeps-run_unchecked c k, keeps_rules)

    pub Keeps-require_program : (name : Text) → Keeps P (require_program h name)
    Keeps-require_program name = search (keeps_rules)

    pub Keeps-require_root : Keeps P (require_root h)
    Keeps-require_root = search (keeps_rules)
