-- ===== src/Manager/Health/Seen.antt =====
-- `wait_healthy` of `xray-core-manager.py`, and its last probe.
use remnanode_xhttp_cleaner.Base.{
  ℕ, zero, suc, ◌+◌, ◌≡◌, ◌≢◌, refl, sym, ap, ◌∙◌, subst, ◌⊎◌, Bool, true, false, not, ltb, Option,
  none, some, [], Outcome, ok, ok-injective, Exception, cleaner_error, patch_error,
  core_manager_error, os_error, socket_timeout, overflow_error, value_error, attribute_error,
  key_error, timeout_expired, type_error, json_decode_error, index_error, arith,
}
use remnanode_xhttp_cleaner.Base.Text.{Text, codes}
use remnanode_xhttp_cleaner.Base.Exec.{Exec, pure, gets, >>=-eq-ok, catch_cases, ◌>>◌, ◌>>=◌}
use remnanode_xhttp_cleaner.Base.Exec.Triple.{
  Triple, Triple-bind, Triple-pure, Triple-raise, Triple-if, Triple-always, Triple-self, Triple-ok,
}
use remnanode_xhttp_cleaner.Manager.Command.{inspect_running, inspect_health, core_version}
use remnanode_xhttp_cleaner.Manager.Machine.{Host, Machine, docker, docker_unchecked}
use remnanode_xhttp_cleaner.Manager.Version.{occurs}
use remnanode_xhttp_cleaner.Manager.Info.{version_statement}
use remnanode_xhttp_cleaner.Manager.Process.{running_core_evidence}
use remnanode_xhttp_cleaner.Manager.Health.{
  Probe, WaitEnd, healthy, gave_up, out_of_fuel, is_healthy, is_hopeless, probe, pause, wait_round,
  wait_loop, write_diagnostics, after_wait, check_marker, on_manager_error, wait_healthy,
}

abbrev is_good : WaitEnd → Bool
is_good healthy = true
is_good gave_up = false
is_good out_of_fuel = false

-- The whole of a run that returns.
returned_as : {S A : Type 0} (run : Outcome A × S) {a : A} → run.0 ≡ ok a → run ≡ (ok a, run.1)
returned_as run e = ap (λ answer. (answer, run.1)) e

module _ {W : Type 0} (h : Host W) (container : Text) (marker : Option Text) (binary : Text) where
  abbrev Anything : Machine W → Type 0
  Anything m = Unit {0}

  -- The binary prints the marker, if one is expected, and nothing else is done.
  pub IsMarked : Option Text → Machine W → Machine W → Type 0
  IsMarked none before after = after ≡ before
  IsMarked (some text) before after =
      (statement : Text) × (docker h (core_version container binary) before ≡ (ok statement, after))
      × (occurs text statement ≡ true)

  -- What was asked last before this state: docker says that the container runs, and that its health is
  -- "healthy" or that it has none; evidence of a process of the core was found; and the binary prints
  -- the marker.
  pub record Seen (m : Machine W) : Type 0 where
    pub at_first : Machine W
    pub at_running : Machine W
    pub at_health : Machine W
    pub at_evidence : Machine W
    pub health : Text
    pub evidence : Text
    pub says_running :
        docker_unchecked h (inspect_running container) at_first ≡ (ok (codes "true"), at_running)
    pub says_health :
        docker_unchecked h (inspect_health container) at_running ≡ (ok health, at_health)
    pub is_fit : (health ≡ codes "none") ⊎ (health ≡ codes "healthy")
    pub finds_evidence :
        running_core_evidence h container binary at_health ≡ (ok evidence, at_evidence)
    pub has_evidence : evidence ≢ []
    pub says_marker : IsMarked marker at_evidence m

  handler_false :
      (e : Exception) (m : Machine W) → (on_manager_error (pure false) e m).0 ≡ ok true → ⊥
  handler_false (cleaner_error t) m h = cc
  handler_false (patch_error t) m h = cc
  handler_false (core_manager_error t) m h = cc
  handler_false (os_error n) m h = cc
  handler_false socket_timeout m h = cc
  handler_false overflow_error m h = cc
  handler_false (value_error t) m h = cc
  handler_false attribute_error m h = cc
  handler_false key_error m h = cc
  handler_false timeout_expired m h = cc
  handler_false type_error m h = cc
  handler_false json_decode_error m h = cc
  handler_false index_error m h = cc

  check_marker-IsMarked :
      (expected : Option Text) (m : Machine W)
      → (check_marker h container expected binary m).0 ≡ ok true
      → IsMarked expected m (check_marker h container expected binary m).1
  unfolding check_marker IsMarked version_statement
  check_marker-IsMarked none m = λ e. refl
  check_marker-IsMarked (some text) m =
      catch_cases (λ run. run.0 ≡ ok true → IsMarked (some text) m run.1)
        (docker h (core_version container binary) >>= λ statement. pure (occurs text statement))
        (on_manager_error (pure false)) m
        (λ found e is_true.
          let (statement, asked, last, whole) =
            >>=-eq-ok (docker h (core_version container binary))
              (λ statement. pure (occurs text statement)) m e in
          (
            statement,
            returned_as (docker h (core_version container binary) m) asked
                ∙ ap (λ run. (ok statement, run.1)) (sym whole),
            ok-injective _ _ (last ∙ is_true),
          ))
        (λ x e is_true. absurd (handler_false x _ is_true))

  healthy_parts :
      (p : Probe)
      → is_healthy p ≡ true
      → (p.running ≡ codes "true")
        × (p.evidence ≢ [])
        × (p.marker_ok ≡ true)
        × ((p.health ≡ codes "none") ⊎ (p.health ≡ codes "healthy"))
  unfolding is_healthy
  healthy_parts p h = ground arith

  -- What `probe` does behind each of its steps.
  abbrev after_marker : Text → Text → Text → Bool → Exec (Machine W) Probe
  after_marker running health evidence marker_ok =
      pure
        (record { running = running; health = health; evidence = evidence; marker_ok = marker_ok })

  abbrev after_evidence : Text → Text → Text → Exec (Machine W) Probe
  after_evidence running health evidence =
      check_marker h container marker binary >>= after_marker running health evidence

  abbrev after_health : Text → Text → Exec (Machine W) Probe
  after_health running health =
      running_core_evidence h container binary >>= after_evidence running health

  abbrev after_running : Text → Exec (Machine W) Probe
  after_running running = docker_unchecked h (inspect_health container) >>= after_health running

  probe-Seen :
      (m : Machine W) (p : Probe)
      → (probe h container marker binary m).0 ≡ ok p
      → is_healthy p ≡ true
      → Seen (probe h container marker binary m).1
  unfolding probe
  probe-Seen m p e good =
      let (running, e1, b1, w1) =
        >>=-eq-ok (docker_unchecked h (inspect_running container)) (after_running) m e in
      let (health, e2, b2, w2) =
        >>=-eq-ok (docker_unchecked h (inspect_health container)) (after_health running) _ b1 in
      let (evidence, e3, b3, w3) =
        >>=-eq-ok (running_core_evidence h container binary) (after_evidence running health) _ b2 in
      let (marked, e4, b4, w4) =
        >>=-eq-ok (check_marker h container marker binary) (after_marker running health evidence) _
          b3 in
      let parts =
        healthy_parts _ (subst (λ q. is_healthy q ≡ true) (sym (ok-injective _ _ b4)) good) in
      subst (λ run. Seen run.1) (sym (w1 ∙ (w2 ∙ (w3 ∙ w4))))
        (record {
          at_first = m;
          at_running = (docker_unchecked h (inspect_running container) m).1;
          at_health = _;
          at_evidence = _;
          health = health;
          evidence = evidence;
          says_running =
              returned_as (docker_unchecked h (inspect_running container) m) e1
              ∙ ap (λ answer. (ok answer, (docker_unchecked h (inspect_running container) m).1))
                  parts.0;
          says_health = returned_as (docker_unchecked h (inspect_health container) _) e2;
          is_fit = parts.3;
          finds_evidence = returned_as (running_core_evidence h container binary _) e3;
          has_evidence = parts.1;
          says_marker = check_marker-IsMarked marker _ (e4 ∙ ap ok parts.2);
        })

  abbrev SeenIfGood : WaitEnd → Machine W → Type 0
  SeenIfGood result m = is_good result ≡ true → Seen m

  gave_up-Seen : {P : Machine W → Type 0} → Triple P SeenIfGood Anything (pure gave_up)
  gave_up-Seen = Triple-pure gave_up (λ m q e. cc)

  wait_round-Seen :
      (deadline : ℕ) (again : Exec (Machine W) WaitEnd)
      → Triple Anything SeenIfGood Anything again
      → Triple Anything SeenIfGood Anything (wait_round h container marker binary deadline again)
  unfolding wait_round
  wait_round-Seen deadline again next =
      Triple-bind {A = ℕ} {Q = λ _. Anything} (gets (λ m. h.monotonic m.world)) _
        (Triple-always _ (λ a s. tt) (λ s. tt))
        (λ now.
          Triple-if (not (ltb now deadline)) (pure gave_up) _ (λ _. gave_up-Seen)
            (λ _. Triple-bind _ _ (Triple-self (probe h container marker binary)) (λ p.
              Triple-if (is_healthy p) (pure healthy) _
                (λ good.
                  Triple-pure healthy (λ m q _. subst Seen (sym q.2) (probe-Seen q.0 p q.1 good)))
                (λ _.
                  Triple-if (is_hopeless p) (pure gave_up) (pause h >> again) (λ _. gave_up-Seen)
                    (λ _.
                      Triple-bind (pause h) (λ _. again) (Triple-always _ (λ a s. tt) (λ s. tt))
                        (λ _. next))))))

  wait_loop-Seen :
      (fuel deadline : ℕ)
      → Triple Anything SeenIfGood Anything (wait_loop h fuel container marker binary deadline)
  unfolding wait_loop
  wait_loop-Seen zero deadline = Triple-pure out_of_fuel (λ m q e. cc)
  wait_loop-Seen (suc fuel) deadline = wait_round-Seen deadline _ (wait_loop-Seen fuel deadline)

  after_wait-Seen :
      (result : WaitEnd)
      → Triple (SeenIfGood result) (λ _. Seen) Anything (after_wait h container binary result)
  unfolding after_wait
  after_wait-Seen healthy = Triple-pure tt (λ m q. q refl)
  after_wait-Seen gave_up =
      Triple-bind {Q = λ _. Anything}
        (write_diagnostics h container binary (codes "health-failure")) _
        (Triple-always _ (λ a s. tt) (λ s. tt)) (λ _. Triple-raise _ (λ m q. tt))
  after_wait-Seen out_of_fuel = Triple-raise _ (λ m q. tt)

  wait_healthy-Triple :
      Triple Anything (λ _. Seen) Anything (wait_healthy h container marker binary)
  unfolding wait_healthy
  wait_healthy-Triple =
      Triple-bind {A = ℕ} {Q = λ _. Anything} (gets (λ m. h.monotonic m.world)) _
        (Triple-always _ (λ a s. tt) (λ s. tt))
        (λ start. Triple-bind _ _ (wait_loop-Seen 46 (start + 90000)) after_wait-Seen)

  -- If `wait_healthy` returns, then the last things done were these, one behind the other: docker was
  -- asked and said that the container runs; it was asked and named the health "none" or "healthy";
  -- `running_core_evidence` found evidence that is not empty; and, if a marker is expected, the binary
  -- in the container was asked for its version and the statement has the marker.
  pub wait_healthy-IsSeen :
      (m : Machine W)
      → (wait_healthy h container marker binary m).0 ≡ ok tt
      → Seen (wait_healthy h container marker binary m).1
  wait_healthy-IsSeen m e = Triple-ok wait_healthy-Triple tt e
