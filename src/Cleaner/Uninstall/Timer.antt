-- ===== src/Cleaner/Uninstall/Timer.antt =====
-- The timer, when `command_uninstall` fails.
use remnanode_xhttp_cleaner.Base.{
  ◌≡◌, refl, Bool, true, false, arith, Bool-cases, not, ◌&&◌, ◌||◌, List, [], ◌∷◌, Outcome, ok, err,
  Exception,
}
use remnanode_xhttp_cleaner.Base.Text.{codes}
use remnanode_xhttp_cleaner.Base.Exec.Triple.{
  Triple, Triple-bind, Triple-Keeps, Triple-gets, Triple-given, Triple-if, Triple-pure,
  Triple-catch, Triple-raise, Triple-err, Triple-before,
}
use remnanode_xhttp_cleaner.System.{Completed, is_some, succeeded}
use remnanode_xhttp_cleaner.Cleaner.Command.{
  Command, restore_core, core_manager_path, timer_enabled, disable_timer, enable_timer,
}
use remnanode_xhttp_cleaner.Cleaner.Machine.{Host, Machine, Setting}
use remnanode_xhttp_cleaner.Cleaner.Machine.Keeps.{Keeps-require_root}
use remnanode_xhttp_cleaner.Cleaner.Machine.Triples.{Triple-run, Triple-run_unchecked}
use remnanode_xhttp_cleaner.Cleaner.Uninstall.{
  stop_timer, restore, restore_when, start_when, start_timer, command_uninstall,
}
use remnanode_xhttp_cleaner.Cleaner.Uninstall.Restored.{Keeps-remove_all}

abbrev pub Events : Type 0
Events = List (Command × Outcome Completed)

-- The newest answer of `systemctl is-enabled` was yes.
abbrev pub was_enabled : Events → Bool
was_enabled [] = false
was_enabled ((timer_enabled, ok done) ∷ older) = succeeded done
was_enabled ((timer_enabled, err e) ∷ older) = false
was_enabled (e ∷ older) = was_enabled older

-- A timer that was enabled has not been disabled since, or was then enabled again, or the core manager
-- has then put the original core back.
abbrev pub awake : Events → Bool
awake [] = true
awake ((enable_timer, r) ∷ older) = true
awake ((restore_core, ok done) ∷ older) = succeeded done || awake older
awake ((disable_timer, ok done) ∷ older) = not (was_enabled older)
awake (e ∷ older) = awake older

module _ {W : Type 0} (h : Host W) (s : Setting W) where
  abbrev Managed : Machine W → Type 0
  Managed m = is_some (m.files core_manager_path) ≡ true

  abbrev Awake : Machine W → Type 0
  Awake m = awake m.trace ≡ true

  -- Between the stop of the timer and the end of the `try`
  abbrev Stopped : Bool → Machine W → Type 0
  Stopped b m = Managed m × (b ≡ false → Awake m)

  stop_timer-Stopped : Triple (λ m. Managed m × Awake m) Stopped Awake (stop_timer h s)
  unfolding stop_timer
  stop_timer-Stopped =
      Triple-bind _ _
        (Triple-gets {Q = λ _ m. Managed m × Awake m} (λ m. h.which (codes "systemctl") m.world)
          (λ m p. p))
        (λ there.
          Triple-if there _ _
            (λ _.
              Triple-bind _ _
                (Triple-run_unchecked h (λ m. Managed m × Awake m)
                  (λ asked m. Managed m × (Awake m × (was_enabled m.trace ≡ succeeded asked))) Awake
                  timer_enabled (λ m w done p. (p.0, (p.1, refl))) (λ m w e p. p.1))
                (λ asked.
                  Triple-bind _ _
                    (Triple-run_unchecked h
                      (λ m. Managed m × (Awake m × (was_enabled m.trace ≡ succeeded asked)))
                      (λ _. Stopped (succeeded asked)) Awake disable_timer
                      (λ m w done p. (p.0, λ failed. rw (p.1.1, failed))) (λ m w e p. p.1.0))
                    (λ _. Triple-pure (succeeded asked) (λ m p. p))))
            (λ _. Triple-pure false (λ m p. (p.0, λ _. p.1))))

  restore_when-Awake :
      (b there : Bool)
      → there ≡ true
      → Triple (Stopped b) (λ _. Awake) (Stopped b) (restore_when h s there)
  unfolding restore_when
  restore_when-Awake b false e = absurd cc
  restore_when-Awake b true e =
      Triple-bind _ _
        (Triple-run h (Stopped b) (λ _. Awake) (Stopped b) restore_core (λ m w done p held. rw held)
          (λ m w done p failed. (p.0, λ f. rw (failed, p.1 f))) (λ m w e p. p))
        (λ _. Triple-pure tt (λ m p. p))

  restore-Awake : (b : Bool) → Triple (Stopped b) (λ _. Awake) (Stopped b) (restore h s)
  unfolding restore
  restore-Awake b =
      Triple-bind _ (restore_when h s)
        (Triple-gets {Q = λ there m. (there ≡ true) × Stopped b m}
          (λ m. is_some (m.files core_manager_path)) (λ m p. (p.0, p)))
        (λ there. Triple-given _ (restore_when-Awake b there))

  start_when-Awake :
      (b : Bool) → Triple (λ m. b ≡ false → Awake m) (λ _. Awake) Awake (start_when h s b)
  unfolding start_when
  start_when-Awake true =
      Triple-bind _ _
        (Triple-run_unchecked h (λ m. true ≡ false → Awake m) (λ _. Awake) Awake enable_timer
          (λ m w done p. refl) (λ m w e p. refl))
        (λ _. Triple-pure tt (λ m p. p))
  start_when-Awake false = Triple-pure tt (λ m p. p refl)

  module _ (systemd : (w : W) → h.which (codes "systemctl") w ≡ true) where
    start_timer-Awake :
        (b : Bool) (e : Exception) → Triple (Stopped b) (λ _. Awake) Awake (start_timer h s b e)
    unfolding start_timer
    start_timer-Awake b e =
        Triple-bind _ _
          (Triple-gets {Q = λ there m. (there ≡ true) × Stopped b m}
            (λ m. h.which (codes "systemctl") m.world) (λ m p. (systemd m.world, p)))
          (λ there.
            Triple-bind _ _
              (Triple-given _ (λ held.
                Triple-before _ (λ m p f. p.1 (needed there held f))
                  (start_when-Awake (b && there))))
              (λ _. Triple-raise e (λ m p. p)))
      where
        needed : (there : Bool) → there ≡ true → (b && there) ≡ false → b ≡ false
        needed there held f = ground (arith, Bool-cases b)

    -- Where systemd and the core manager are installed, a run of `command_uninstall` that raises has
    -- not left a timer stopped that it found enabled, unless the original core is back: after the last
    -- `systemctl disable` that ran, and followed a yes of `systemctl is-enabled`, it has run
    -- `systemctl enable`, or the manager has put the original core back.
    pub command_uninstall-IsAwake :
        (m : Machine W) (e : Exception)
        → is_some (m.files core_manager_path) ≡ true
        → awake m.trace ≡ true
        → (command_uninstall h s m).0 ≡ err e
        → awake (command_uninstall h s m).1.trace ≡ true
    unfolding command_uninstall
    command_uninstall-IsAwake m e managed awake_before raised =
        Triple-err body (managed, awake_before) raised
      where
        body :
            Triple
              (λ m'. Managed m' × Awake m')
              (λ (_ : Unit {0}). Awake)
              Awake
              (command_uninstall h s)
        body = Triple-bind _ _ (Triple-Keeps _ (λ m' p. p.1) (Keeps-require_root h)) (λ _.
            Triple-bind _ _ stop_timer-Stopped (λ b.
              Triple-bind _ _ (Triple-catch _ _ (restore-Awake b) (start_timer-Awake b)) (λ _.
                Triple-Keeps _ (λ m' p. p)
                  (Keeps-remove_all h s (λ t. awake t ≡ true) (λ r t p. p)))))
