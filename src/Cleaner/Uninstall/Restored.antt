-- ===== src/Cleaner/Uninstall/Restored.antt =====
-- What `command_uninstall` deletes, and when.
use remnanode_xhttp_cleaner.Base.{
  ◌≡◌, refl, Bool, true, false, ◌||◌, ◌&&◌, ◌⊎◌, inl, inr, List, [], ◌∷◌, Outcome, ok, err,
  Exception,
}
use remnanode_xhttp_cleaner.Base.Text.{Text}
use remnanode_xhttp_cleaner.Base.Exec.{Exec}
use remnanode_xhttp_cleaner.Base.Exec.Keeps.{
  Keeps, Keeps-bind, Keeps-catch, Keeps-lift, Keeps-gets, keeps_rules,
}
use remnanode_xhttp_cleaner.Base.Exec.Triple.{
  Ends, Triple, Triple-bind, Triple-Keeps, Triple-gets, Triple-given, Triple-pure, Triple-catch,
  Triple-raise,
}
use remnanode_xhttp_cleaner.System.{Completed, call, is_some, succeeded}
use remnanode_xhttp_cleaner.System.Keeps.{Keeps-call, Keeps-unlink_file, Keeps-remove_tree}
use remnanode_xhttp_cleaner.Cleaner.Command.{Command, restore_core, core_manager_path, reload_units}
use remnanode_xhttp_cleaner.Cleaner.Machine.{Host, Machine, Setting, run_unchecked}
use remnanode_xhttp_cleaner.Cleaner.Machine.Keeps.{
  Keeps-call_files, Keeps-run_unchecked, Keeps-require_root,
}
use remnanode_xhttp_cleaner.Cleaner.Machine.Triples.{Triple-run}
use remnanode_xhttp_cleaner.Cleaner.Uninstall.{
  stop_timer, restore, restore_when, start_when, start_timer, missing_ok, unlink_all, remove_all,
  command_uninstall,
}

-- The command of the core manager has put the original core back.
abbrev pub puts_back : Command × Outcome Completed → Bool
puts_back (restore_core, ok done) = succeeded done
puts_back e = false

abbrev pub restored : List (Command × Outcome Completed) → Bool
restored [] = false
restored (e ∷ older) = puts_back e || restored older

-- The steps behind the `try` run no command but `daemon-reload`.
module _ {W : Type 0} (h : Host W) (s : Setting W) (T : List (Command × Outcome Completed) → Type 0)
    (extend : (r : Outcome Completed) (t : List (Command × Outcome Completed))
      → T t
      → T ((reload_units, r) ∷ t)) where
  abbrev P : Machine W → Type 0
  P m = T m.trace

  Keeps-unlink_all : (paths : List Text) → Keeps P (unlink_all h s paths)
  unfolding unlink_all
  Keeps-unlink_all [] = search (keeps_rules)
  Keeps-unlink_all (path ∷ paths) =
      Keeps-bind _ _ (Keeps-catch _ _ (Keeps-unlink_file h T path) (λ e. Keeps-lift (missing_ok e)))
        (λ _. Keeps-unlink_all paths)

  Keeps-reload : Keeps P (run_unchecked h reload_units)
  Keeps-reload = Keeps-run_unchecked h reload_units (Keeps-call h T reload_units extend)

  pub Keeps-remove_all : Keeps P (remove_all h s)
  unfolding remove_all
  Keeps-remove_all =
      search (Keeps-reload, Keeps-unlink_all, Keeps-remove_tree h T, keeps_rules) depth 20

module _ {W : Type 0} (h : Host W) (s : Setting W) where
  pub Keeps-stop_timer :
      {P : Machine W → Type 0} → ((c : Command) → Keeps P (call h c)) → Keeps P (stop_timer h s)
  unfolding stop_timer
  Keeps-stop_timer k = search (Keeps-run_unchecked, k, keeps_rules) depth 20

  module _ (start : Machine W) where
    abbrev Same : Machine W → Type 0
    Same m = (q : Text) → m.files q ≡ start.files q

    abbrev Restored : Machine W → Type 0
    Restored m = restored m.trace ≡ true

    -- The original core is back, or no file has changed.
    abbrev pub Either : Machine W → Type 0
    Either m = Restored m ⊎ Same m

    Ends-Either :
        (r : Outcome (Unit {0})) (m : Machine W)
        → Ends (λ (_ : Unit {0}). Restored) Either r m
        → Either m
    Ends-Either (ok u) m q = inl q
    Ends-Either (err e) m q = q

    same :
        {A : Type 0} {step : Exec (Machine W) A}
        → Keeps Same step
        → Triple Same (λ _. Same) Either step
    same k = Triple-Keeps _ (λ m p. inr p) k

    Keeps-Same : (c : Command) → Keeps Same (call h c)
    Keeps-Same c = Keeps-call_files h (λ files. (q : Text) → files q ≡ start.files q) c

    restore_when-Restored :
        (b : Bool) → b ≡ true → Triple Same (λ _. Restored) Same (restore_when h s b)
    unfolding restore_when
    restore_when-Restored false e = absurd cc
    restore_when-Restored true e =
        Triple-bind _ _
          (Triple-run h Same (λ _. Restored) Same restore_core (λ m w done p e. rw e)
            (λ m w done p e. p) (λ m w e p. p))
          (λ _. Triple-pure tt (λ m p. p))

    restore-Restored :
        is_some (start.files core_manager_path) ≡ true
        → Triple Same (λ _. Restored) Same (restore h s)
    unfolding restore
    restore-Restored managed =
        Triple-bind _ (restore_when h s)
          (Triple-gets {Q = λ there m. (there ≡ true) × Same m}
            (λ m. is_some (m.files core_manager_path))
            (λ m p. (rw (p core_manager_path, managed) refl, p)))
          (λ there. Triple-given _ (restore_when-Restored there))

    Keeps-start_when : (b : Bool) → Keeps Same (start_when h s b)
    unfolding start_when
    Keeps-start_when true = search (Keeps-run_unchecked, Keeps-Same, keeps_rules)
    Keeps-start_when false = search (keeps_rules)

    start_timer-Same :
        (b : Bool) (e : Exception) → Triple Same (λ _. Restored) Either (start_timer h s b e)
    unfolding start_timer
    start_timer-Same b e = Triple-bind _ _ (same (Keeps-gets _)) (λ there.
        Triple-bind _ _ (same (Keeps-start_when (b && there))) (λ _. Triple-raise e (λ m p. inr p)))

    remove_all-Restored : Triple Restored (λ _. Restored) Either (remove_all h s)
    remove_all-Restored =
        Triple-Keeps _ (λ m p. inl p) (Keeps-remove_all h s (λ t. restored t ≡ true) (λ r t p. p))

  -- Where the core manager is installed, `command_uninstall` changes a file only after the manager has
  -- put the original core back with success: however a run ends, either its trace has such an answer
  -- of the manager, or every file is as it was.
  pub command_uninstall-IsRestored :
      (m : Machine W)
      → is_some (m.files core_manager_path) ≡ true
      → Either m (command_uninstall h s m).1
  unfolding command_uninstall
  command_uninstall-IsRestored m managed =
      Ends-Either m (command_uninstall h s m).0 (command_uninstall h s m).1 (body.at m (λ q. refl))
    where
      body : Triple (Same m) (λ _. Restored m) (Either m) (command_uninstall h s)
      body = Triple-bind _ _ (same m (Keeps-require_root h)) (λ _.
          Triple-bind _ _ (same m (Keeps-stop_timer (Keeps-Same m))) (λ b.
            Triple-bind _ _ (Triple-catch _ _ (restore-Restored m managed) (start_timer-Same m b))
              (λ _. remove_all-Restored m)))
