-- ===== src/Manager/Health/Waiting.antt =====
-- The loop of `wait_healthy` in `xray-core-manager.py`, with the clock.
use native.Mathlib.Omega.{arith}
use remnanode_xhttp_cleaner.Base.{
  not-is-false, ℕ, zero, suc, ◌+◌, ◌*◌, ◌≤◌, ◌<◌, ◌≡◌, ◌≢◌, refl, Bool, true, false, not, ltb,
  ltb→lt, Option, ok,
}
use remnanode_xhttp_cleaner.Base.Text.{Text}
use remnanode_xhttp_cleaner.Base.Exec.{Exec, pure, ◌>>◌}
use remnanode_xhttp_cleaner.Base.Exec.Keeps.{Keeps}
use remnanode_xhttp_cleaner.Base.Exec.Triple.{
  Triple, Triple-bind, Triple-Keeps, Triple-pure, Triple-gets, Triple-if, Triple-ok, Triple-given,
}
use remnanode_xhttp_cleaner.Manager.Command.{Command}
use remnanode_xhttp_cleaner.Manager.Machine.{Host, Machine, call}
use remnanode_xhttp_cleaner.Manager.Health.{
  WaitEnd, healthy, gave_up, out_of_fuel, is_healthy, is_hopeless, pause, wait_round, wait_loop,
}
use remnanode_xhttp_cleaner.Manager.Reading.{Keeps-probe}

true-not-false : false ≡ true → ⊥
true-not-false e = cc

abbrev ends : WaitEnd → Bool
ends healthy = true
ends gave_up = true
ends out_of_fuel = false

module _ {W : Type 0} (h : Host W)
    (later : (c : Command) (w : W) → h.monotonic w ≤ h.monotonic (h.run c w).1)
    (slept : (w : W) → h.monotonic w + 2000 ≤ h.monotonic (h.sleep 2 w)) where
  -- The clock has reached a time.
  abbrev Past : ℕ → Machine W → Type 0
  Past time m = time ≤ h.monotonic m.world

  Keeps-Past : (time : ℕ) (c : Command) → Keeps (Past time) (call h c)
  unfolding call
  Keeps-Past time c = record { at = λ m p. omega (arith, p, later c m.world) }

  abbrev Anything : Machine W → Type 0
  Anything m = Unit {0}

  abbrev Ended : WaitEnd → Machine W → Type 0
  Ended result m = ends result ≡ true

  pause-Past : (time : ℕ) → Triple (Past time) (λ _. Past (time + 2000)) Anything (pause h)
  pause-Past time = record { at = λ m p. omega (arith, p, slept m.world) }

  -- A round at time `time`: what stands behind it starts two seconds later.
  wait_round-ends :
      (time : ℕ) (container : Text) (marker : Option Text) (binary : Text) (deadline : ℕ)
      (again : Exec (Machine W) WaitEnd)
      → ((now : ℕ)
          → time ≤ now
          → ltb now deadline ≡ true
          → Triple (Past (now + 2000)) Ended Anything again)
      → Triple (Past time) Ended Anything (wait_round h container marker binary deadline again)
  unfolding wait_round
  wait_round-ends time container marker binary deadline again next =
      Triple-bind _ _
        (Triple-gets {Q = λ (now : ℕ) (m : Machine W). (time ≤ now) × Past now m}
          (λ m. h.monotonic m.world) (λ m p. (p, omega arith)))
        (λ now. Triple-given _ (λ since.
          Triple-if (not (ltb now deadline)) (pure gave_up) _
            (λ _. Triple-pure gave_up (λ m p. refl))
            (λ before.
              Triple-bind _ _
                (Triple-Keeps _ (λ m p. tt)
                  (Keeps-probe h (λ c r. Keeps-Past now c) container marker binary))
                (λ p.
                  Triple-if (is_healthy p) (pure healthy) _ (λ _. Triple-pure healthy (λ m q. refl))
                    (λ _.
                      Triple-if (is_hopeless p) (pure gave_up) (pause h >> again)
                        (λ _. Triple-pure gave_up (λ m q. refl))
                        (λ _.
                          Triple-bind (pause h) (λ _. again) (pause-Past now)
                            (λ _. next now since (not-is-false (ltb now deadline) before))))))))

  wait_loop-ends :
      (n time : ℕ) (container : Text) (marker : Option Text) (binary : Text) (deadline : ℕ)
      → deadline ≤ time + 2000 * n
      → Triple (Past time) Ended Anything (wait_loop h (suc n) container marker binary deadline)
  unfolding wait_loop
  wait_loop-ends zero time container marker binary deadline enough =
      wait_round-ends time container marker binary deadline (pure out_of_fuel)
        (λ now since before. elim (too_late now since (ltb→lt now deadline before)) [ ])
    where
      too_late : (now : ℕ) → time ≤ now → now < deadline → ⊥
      too_late now since before = omega (arith, enough, since, before)
  wait_loop-ends (suc n) time container marker binary deadline enough =
      wait_round-ends time container marker binary deadline _ (λ now since before.
        wait_loop-ends n (now + 2000) container marker binary deadline
          (omega (arith, enough, since)))

  -- If the clock goes on by two seconds in `time.sleep(2)`, and does not go back in a command, then the
  -- loop of `wait_healthy`, with its 46 rounds and its deadline 90 seconds ahead, does not run out of
  -- rounds: it ends by a healthy probe, a hopeless one, the deadline, or an exception.
  pub wait_loop-terminates :
      (container : Text) (marker : Option Text) (binary : Text) (m : Machine W)
      → (wait_loop h 46 container marker binary (h.monotonic m.world + 90000) m).0 ≢ ok out_of_fuel
  wait_loop-terminates container marker binary m e = true-not-false (
      Triple-ok
        (wait_loop-ends 45 (h.monotonic m.world) container marker binary
          (h.monotonic m.world + 90000) (omega arith))
        (omega arith) e)
