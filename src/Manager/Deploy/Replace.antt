-- ===== src/Manager/Deploy/Replace.antt =====
-- `rollback_binary` of `xray-core-manager.py`, and the `mv` that it shares with `replace_core`.
use mathlib.Core.Path.{subst}
use native.Mathlib.Omega.{arith}
use remnanode_xhttp_cleaner.Base.{
  not-is-false, ◌≡◌, refl, true, false, not, Option, some, List, ◌∷◌, Outcome, ok, Exception,
  core_manager_error,
}
use remnanode_xhttp_cleaner.Base.Text.{Text, text_eq, text_eq_refl, strip}
use remnanode_xhttp_cleaner.Base.Exec.Keeps.{Keeps, Keeps-gets, Keeps-raise_if, keeps_rules}
use remnanode_xhttp_cleaner.Base.Exec.Triple.{
  Triple, Triple-bind, Triple-before, Triple-Keeps, Triple-raise_if, Triple-pure, Keeps-Triple,
}
use remnanode_xhttp_cleaner.Manager.Command.{Command, inspect_id, move, copy_in, make_executable}
use remnanode_xhttp_cleaner.Manager.Machine.{Host, Machine, Completed, call, run, docker, succeeded}
use remnanode_xhttp_cleaner.Manager.Machine.Keeps.{
  is_move, reading, is_move-reading, Keeps-call, Keeps-run,
}
use remnanode_xhttp_cleaner.Manager.Machine.Triples.{Triple-run, Triple-docker}
use remnanode_xhttp_cleaner.Manager.Tracing.{Keeps-step, Keeps-wait_healthy}
use remnanode_xhttp_cleaner.Manager.Deploy.Guard.{
  Event, Plan, guarded, latest_id, is_asked, is_some_text, may_move,
}
use remnanode_xhttp_cleaner.Manager.Reading.{Keeps-require_id}
use remnanode_xhttp_cleaner.Manager.Rollback.{
  require_id, rollback_binary, rollback_remote, put_back, restart_stock,
}

pub guarded_still :
    (plan : Plan) (c : Command) (r : Outcome Completed) (older : List Event)
    → is_move c ≡ false
    → guarded plan older ≡ true
    → guarded plan ((c, r) ∷ older) ≡ true
unfolding guarded
guarded_still plan c r older e g = ground arith

-- The last answer of `docker inspect` is the id of the plan.
abbrev pub Identified : Plan → List Event → Type 0
Identified plan t =
    (guarded plan t ≡ true) × (is_some_text (latest_id plan.container t) plan.id ≡ true)

-- The same, with that answer as the newest event.
abbrev pub IdentifiedNow : Plan → List Event → Type 0
IdentifiedNow plan t = Identified plan t × (is_asked t ≡ true)

latest_id-inspect :
    (container : Text) (done : Completed) (t : List Event)
    → succeeded done ≡ true
    → latest_id container ((inspect_id container, ok done) ∷ t) ≡ some (strip done.stdout)
latest_id-inspect container done t e = rw (text_eq_refl container, e)

is_some_text_of :
    {o : Option Text} {current : Text} (expected : Text)
    → o ≡ some current
    → not (text_eq current expected) ≡ false
    → is_some_text o expected ≡ true
is_some_text_of {o} {current} expected e f = rw (e, not-is-false (text_eq current expected) f)

module _ {W : Type 0} (h : Host W) (plan : Plan) where
  abbrev pub Guarded : Machine W → Type 0
  Guarded m = guarded plan m.trace ≡ true

  -- What `docker inspect` has answered stands in the trace.
  docker-inspect_id :
      Triple Guarded
        (λ current m.
          Guarded m × (latest_id plan.container m.trace ≡ some current) × (is_asked m.trace ≡ true))
        Guarded
        (docker h (inspect_id plan.container))
  docker-inspect_id =
      Triple-docker h (λ t. guarded plan t ≡ true) (λ t. guarded plan t ≡ true)
        (λ current t.
          (guarded plan t ≡ true)
          × (latest_id plan.container t ≡ some current)
          × (is_asked t ≡ true))
        (inspect_id plan.container)
        (λ done t g e. (
          guarded_still plan (inspect_id plan.container) (ok done) t refl g,
          latest_id-inspect plan.container done t e,
          refl,
        ))
        (λ a t g _. guarded_still plan (inspect_id plan.container) a t refl g)

  pub require_id-IsIdentified :
      (e : Exception)
      → Triple Guarded
          (λ _ m. IdentifiedNow plan m.trace)
          Guarded
          (require_id h plan.container plan.id e)
  unfolding require_id
  require_id-IsIdentified e =
      Triple-bind (docker h (inspect_id plan.container)) _ docker-inspect_id (λ current.
        Triple-raise_if (not (text_eq current plan.id)) e (λ m p. p.0)
          (λ m f p. ((p.0, is_some_text_of plan.id p.1 f), p.2)))

  -- The command that replaces the binary, when it may.
  pub Triple-move :
      (source target : Text) (T : List Event → Type 0)
      → ((t : List Event) → T t → guarded plan t ≡ true)
      → ((t : List Event) → T t → may_move plan (move plan.container source target) t ≡ true)
      → Triple (λ m. T m.trace) (λ _. Guarded) Guarded (run h (move plan.container source target))
  unfolding guarded
  Triple-move source target T g may =
      Triple-run h T (λ t. guarded plan t ≡ true) (λ _ t. guarded plan t ≡ true)
        (move plan.container source target) (λ done t p _. ground (arith, g t p, may t p))
        (λ a t p _. ground (arith, g t p, may t p))

  guarded_step :
      (c : Command) (r : Outcome Completed) (t : List Event)
      → is_move c ≡ false
      → guarded plan t ≡ true
      → guarded plan ((c, r) ∷ t) ≡ true
  guarded_step c r t e g = guarded_still plan c r t e g

  -- A command that is no answer of `docker inspect`.
  Keeps-Identified :
      (c : Command)
      → is_move c ≡ false
      → ((r : Outcome Completed) (t : List Event)
          → latest_id plan.container ((c, r) ∷ t) ≡ latest_id plan.container t)
      → Keeps (λ m. Identified plan m.trace) (run h c)
  Keeps-Identified c e same = Keeps-run h c (
      Keeps-call h (Identified plan) c
        (λ r t p. (guarded_still plan c r t e p.0, rw (same r t, p.1))))

  may_move-stock :
      (t : List Event)
      → Identified plan t
      → may_move plan (move plan.container plan.stock plan.binary) t ≡ true
  may_move-stock t p =
      ground
        (arith, p.1, text_eq_refl plan.container, text_eq_refl plan.binary, text_eq_refl plan.stock)

  Keeps-reading : (c : Command) → reading c ≡ true → Keeps Guarded (call h c)
  Keeps-reading c r =
      Keeps-call h (λ t. guarded plan t ≡ true) c (λ a t. guarded_step c a t (is_move-reading c r))

  Keeps-restart_stock : Keeps Guarded (restart_stock h plan.container plan.binary plan.id)
  unfolding restart_stock
  Keeps-restart_stock =
      search
        (
          Keeps-step h (λ t. guarded plan t ≡ true) guarded_step,
          Keeps-require_id h Keeps-reading,
          Keeps-wait_healthy h (λ t. guarded plan t ≡ true) guarded_step,
          keeps_rules,
        )
        depth 20

  Triple-put_back :
      (backup : Text)
      → plan.stock ≡ rollback_remote h
      → Triple
          (λ m. Identified plan m.trace)
          (λ _. Guarded)
          Guarded
          (put_back h plan.container plan.binary backup)
  unfolding put_back
  Triple-put_back backup stock =
      Triple-bind _ _
        (Triple-Keeps _ (λ m p. p.0)
          (Keeps-Identified (copy_in plan.container backup (rollback_remote h)) refl (λ r t. refl)))
        (λ _.
          Triple-bind _ _
            (Triple-Keeps _ (λ m p. p.0)
              (Keeps-Identified (make_executable plan.container (rollback_remote h)) refl
                (λ r t. refl)))
            (λ _.
              Triple-bind _ _
                (Triple-move (rollback_remote h) plan.binary (Identified plan) (λ t p. p.0)
                  (subst
                    (λ (source : Text).
                      (t : List Event)
                      → Identified plan t
                      → may_move plan (move plan.container source plan.binary) t ≡ true)
                    stock may_move-stock))
                (λ _. Triple-pure tt (λ m g. g))))

  pub rollback_binary-IsGuarded :
      (backup : Text)
      → plan.stock ≡ rollback_remote h
      → Keeps Guarded (rollback_binary h plan.container plan.binary backup plan.id)
  unfolding rollback_binary
  rollback_binary-IsGuarded backup stock =
      Keeps-Triple _ (λ _ m g. g)
        (Triple-bind _ _ (Triple-Keeps _ (λ m g. g) (Keeps-gets _)) (λ there.
          Triple-bind _ _
            (Triple-Keeps _ (λ m g. g)
              (Keeps-raise_if (not there) (core_manager_error "stock rollback binary is missing")))
            (λ _.
              Triple-bind _ _
                (require_id-IsIdentified (
                  core_manager_error
                    "container was recreated; refusing to inject an old rollback binary"))
                (λ _.
                  Triple-bind _ _ (Triple-before _ (λ m p. p.0) (Triple-put_back backup stock))
                    (λ _. Triple-Keeps _ (λ m g. g) Keeps-restart_stock)))))
