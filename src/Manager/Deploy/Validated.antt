-- ===== src/Manager/Deploy/Validated.antt =====
-- `validate_inside_container` of `xray-core-manager.py`, and the events that it leaves in the trace.
use native.Mathlib.Omega.{arith}
use remnanode_xhttp_cleaner.Base.{
  not-is-false, ◌≡◌, refl, true, false, not, none, List, [], ◌∷◌, ◌++◌, Outcome, ok, Exception,
  core_manager_error,
}
use remnanode_xhttp_cleaner.Base.Text.{Text, codes, text_eq_refl}
use remnanode_xhttp_cleaner.Base.Exec.{Exec}
use remnanode_xhttp_cleaner.Base.Exec.Keeps.{Keeps, Keeps-gets, Keeps-bind, Keeps-pure}
use remnanode_xhttp_cleaner.Base.Exec.Triple.{
  Triple, Triple-bind, Triple-Keeps, Triple-raise_if, Triple-pure, Triple-catch, Triple-finally,
}
use remnanode_xhttp_cleaner.Manager.Command.{
  Command, copy_in, make_executable, core_version, test_core, remove,
}
use remnanode_xhttp_cleaner.Manager.Machine.{Host, Machine, Completed, run, docker}
use remnanode_xhttp_cleaner.Manager.Machine.Keeps.{is_move, Keeps-call, Keeps-set_file}
use remnanode_xhttp_cleaner.Manager.Machine.Triples.{Triple-run, Triple-docker}
use remnanode_xhttp_cleaner.Manager.Version.{patch_id, occurs}
use remnanode_xhttp_cleaner.Manager.Info.{Info}
use remnanode_xhttp_cleaner.Manager.RuntimeConfig.{
  remote_binary, remote_config, try_inside, clean_up, validate_in, validate_inside_container,
}
use remnanode_xhttp_cleaner.Manager.Rollback.{rollback_remote}
use remnanode_xhttp_cleaner.Manager.Tracing.{Keeps-step, Keeps-dump_runtime_config}
use remnanode_xhttp_cleaner.Manager.Deploy.Guard.{
  Event, Plan, guarded, any_event, shows_marker, is_ready,
}
use remnanode_xhttp_cleaner.Manager.Deploy.Replace.{guarded_still, Guarded}

-- The new binary has shown its marker, and, below, its test has passed too.
abbrev Marked : Plan → List Event → Type 0
Marked plan t =
    (guarded plan t ≡ true) × (any_event (shows_marker plan.container plan.remote) t ≡ true)

abbrev pub IsReady : Plan → List Event → Type 0
IsReady plan t = (guarded plan t ≡ true) × (is_ready plan t ≡ true)

IsReady-still :
    (plan : Plan) (c : Command) (r : Outcome Completed) (t : List Event)
    → is_move c ≡ false
    → IsReady plan t
    → IsReady plan ((c, r) ∷ t)
IsReady-still plan c r t e p = (guarded_still plan c r t e p.0, ground (arith, p.1))

module _ {W : Type 0} (h : Host W) where
  abbrev pub plan_of : Text → Info → Plan
  plan_of container info = record {
    container = container;
    id = info.container_id;
    binary = info.binary;
    remote = remote_binary h;
    stock = rollback_remote h;
  }

module _ {W : Type 0} (h : Host W) (container : Text) (info : Info) where
  abbrev pub plan : Plan
  plan = plan_of h container info

  pub guarded_step :
      (c : Command) (r : Outcome Completed) (t : List Event)
      → is_move c ≡ false
      → guarded plan t ≡ true
      → guarded plan ((c, r) ∷ t) ≡ true
  guarded_step c r t e g = guarded_still plan c r t e g

  pub IsReady-step :
      (c : Command) (r : Outcome Completed) (t : List Event)
      → is_move c ≡ false
      → IsReady plan t
      → IsReady plan ((c, r) ∷ t)
  IsReady-step c r t e p = IsReady-still plan c r t e p

  version-Marked :
      Triple
        (Guarded h plan)
        (λ statement m.
          (guarded plan m.trace ≡ true) × (occurs patch_id statement ≡ true → Marked plan m.trace))
        (Guarded h plan)
        (docker h (core_version container (remote_binary h)))
  version-Marked =
      Triple-docker h (λ t. guarded plan t ≡ true) (λ t. guarded plan t ≡ true)
        (λ statement t.
          (guarded plan t ≡ true) × (occurs patch_id statement ≡ true → Marked plan t))
        (core_version container (remote_binary h))
        (λ done t g e. (
          guarded_step _ (ok done) t refl g,
          λ o. (
            guarded_step _ (ok done) t refl g,
            ground (arith, text_eq_refl container, text_eq_refl (remote_binary h), e, o),
          ),
        ))
        (λ a t g _. guarded_step _ a t refl g)

  test-IsReady :
      (config : Text)
      → Triple
          (λ m. Marked plan m.trace)
          (λ _ m. IsReady plan m.trace)
          (Guarded h plan)
          (run h (test_core container (remote_binary h) config))
  test-IsReady config =
      Triple-run h (Marked plan) (λ t. guarded plan t ≡ true) (λ _ t. IsReady plan t)
        (test_core container (remote_binary h) config)
        (λ done t p e. (
          guarded_step _ (ok done) t refl p.0,
          ground (arith, text_eq_refl container, text_eq_refl (remote_binary h), e, p.1),
        ))
        (λ a t p _. guarded_step _ a t refl p.0)

  -- A command that is no `mv` leaves what is known as it is.
  pub Triple-still :
      {A : Type 0} (m : Exec (Machine W) A)
      → Keeps (Guarded h plan) m
      → Triple (Guarded h plan) (λ _. Guarded h plan) (Guarded h plan) m
  Triple-still m k = Triple-Keeps m (λ s g. g) k

  Keeps-prefix : (c : Command) → is_move c ≡ false → Keeps (Guarded h plan) (run h c)
  Keeps-prefix c e = Keeps-step h (λ t. guarded plan t ≡ true) guarded_step c e

  -- The new binary, and what is known of it.
  abbrev pub Ready : Text → Machine W → Type 0
  Ready remote m = IsReady plan m.trace × (remote ≡ remote_binary h)

  try_inside-Ready :
      (artifact config : Text)
      → Triple (Guarded h plan) Ready (Guarded h plan) (try_inside h container artifact config)
  unfolding try_inside
  try_inside-Ready artifact config =
      Triple-bind _ _
        (Triple-still _ (Keeps-prefix (copy_in container artifact (remote_binary h)) refl))
        (λ _.
          Triple-bind _ _
            (Triple-still _ (Keeps-prefix (copy_in container config (remote_config h)) refl))
            (λ _.
              Triple-bind _ _
                (Triple-still _ (Keeps-prefix (make_executable container (remote_binary h)) refl))
                (λ _. Triple-bind _ _ version-Marked (λ statement.
                  Triple-bind _ _
                    (Triple-raise_if (not (occurs patch_id statement))
                      (core_manager_error
                        "built binary does not contain the XHTTP Cleaner build marker")
                      (λ m p. p.0) (λ m f p. p.1 (not-is-false _ f)))
                    (λ _.
                      Triple-bind _ _ (test-IsReady (remote_config h))
                        (λ _. Triple-pure (remote_binary h) (λ m p. (p, refl))))))))

  clean_up-Guarded :
      (e : Exception) → Triple (Guarded h plan) Ready (Guarded h plan) (clean_up h container e)
  unfolding clean_up
  clean_up-Guarded e =
      Triple-bind _ _
        (Triple-still _ (
          Keeps-call h (λ t. guarded plan t ≡ true)
            (remove container (remote_binary h ∷ remote_config h ∷ []))
            (λ r t. guarded_step _ r t refl)))
        (λ _. record { at = λ m g. g })

  validate_in-Ready :
      (artifact config : Text)
      → Triple (Guarded h plan) Ready (Guarded h plan) (validate_in h container artifact config)
  unfolding validate_in
  validate_in-Ready artifact config =
      Triple-bind _ _
        (Triple-still _
          (Keeps-dump_runtime_config h (λ t. guarded plan t ≡ true) guarded_step container config))
        (λ _.
          Triple-finally _ _ (λ a m p. p.0.0)
            (Triple-catch _ _ (try_inside-Ready artifact config) clean_up-Guarded)
            (λ a.
              Keeps-bind _ _
                (Keeps-call h (λ t. IsReady plan t × (a ≡ remote_binary h))
                  (remove container (remote_config h ∷ []))
                  (λ r t p. (IsReady-step _ r t refl p.0, p.1)))
                (λ _. Keeps-pure tt))
            (Keeps-bind _ _
              (Keeps-call h (λ t. guarded plan t ≡ true) (remove container (remote_config h ∷ []))
                (λ r t. guarded_step _ r t refl))
              (λ _. Keeps-pure tt)))

  pub validate-IsReady :
      (artifact : Text)
      → Triple
          (Guarded h plan)
          Ready
          (Guarded h plan)
          (validate_inside_container h container artifact)
  unfolding validate_inside_container
  validate-IsReady artifact =
      Triple-bind {A = Text} _ _
        (Triple-still _ (Keeps-gets (λ m. h.temporary (codes "xhttp-cleaner-config-") m.world)))
        (λ directory.
          let config = directory ++ codes "/active.json" in
          Triple-finally _ _ (λ a m p. p.0.0) (validate_in-Ready artifact config)
            (λ a. Keeps-set_file h (λ t. IsReady plan t × (a ≡ remote_binary h)) config none)
            (Keeps-set_file h (λ t. guarded plan t ≡ true) config none))
