-- ===== src/Manager/Deploy/Failure.antt =====
-- How `deploy` of `xray-core-manager.py` fails.
use mathlib.Core.Path.{subst, sym}
use remnanode_xhttp_cleaner.Base.{
  ◌≡◌, refl, Bool, false, ◌&&◌, ◌||◌, ◌⊎◌, inl, inr, List, [], ◌∷◌, Outcome, ok, err, Exception,
  core_manager_error,
}
use remnanode_xhttp_cleaner.Base.Text.{Text}
use remnanode_xhttp_cleaner.Base.Exec.{raise, catch, continue, bind_cases, catch_cases}
use remnanode_xhttp_cleaner.Base.Exec.Keeps.{Keeps, keeps_rules}
use remnanode_xhttp_cleaner.Base.Exec.Triple.{
  Triple, Triple-bind, Triple-Keeps, Triple-pure, Triple-err,
}
use remnanode_xhttp_cleaner.Json.{Json}
use remnanode_xhttp_cleaner.Manager.Command.{Command, move}
use remnanode_xhttp_cleaner.Manager.Machine.{Host, Machine, Completed}
use remnanode_xhttp_cleaner.Manager.Machine.Keeps.{is_move, is_move-reading, Keeps-call}
use remnanode_xhttp_cleaner.Manager.Machine.Triples.{answered, Triple-run}
use remnanode_xhttp_cleaner.Manager.Info.{Info}
use remnanode_xhttp_cleaner.Manager.Rollback.{rollback_binary, require_id}
use remnanode_xhttp_cleaner.Manager.Reading.{Keeps-require_id}
use remnanode_xhttp_cleaner.Manager.Tracing.{Keeps-keep_stock, Keeps-validate_inside_container}
use remnanode_xhttp_cleaner.Manager.Deploy.{
  backup_path, prepare_deploy, replace_core, activate, roll_back_and_raise, deploy,
}
use remnanode_xhttp_cleaner.Manager.Deploy.Guard.{Event}

-- A `mv` of the trace has succeeded.
abbrev pub replaced : List Event → Bool
replaced [] = false
replaced (e ∷ older) = (is_move e.0 && answered e.1) || replaced older

module _ {W : Type 0} (h : Host W) (container : Text) (info : Info) where
  abbrev Original : Machine W → Type 0
  Original m = replaced m.trace ≡ false

  extend :
      (c : Command) (r : Outcome Completed) (t : List Event)
      → is_move c ≡ false
      → replaced t ≡ false
      → replaced ((c, r) ∷ t) ≡ false
  extend c r t e p = rw (e, p)

  Keeps-prepare_deploy :
      (artifact : Text) → Keeps Original (prepare_deploy h container info artifact)
  unfolding prepare_deploy
  Keeps-prepare_deploy artifact =
      search
        (
          Keeps-keep_stock h (λ t. replaced t ≡ false) extend,
          Keeps-validate_inside_container h (λ t. replaced t ≡ false) extend,
          keeps_rules,
        )
        depth 20

  -- `replace_core` raises before the binary is replaced.
  replace_core-Original :
      (remote : Text)
      → Triple Original (λ _ m. Unit {0}) Original (replace_core h container info remote)
  unfolding replace_core
  replace_core-Original remote =
      Triple-bind
        (require_id h container info.container_id
          (core_manager_error "container was recreated immediately before core replacement"))
        _
        (Triple-Keeps _ (λ m p. p)
          (Keeps-require_id h
            (λ c r.
              Keeps-call h (λ t. replaced t ≡ false) c (λ a t. extend c a t (is_move-reading c r)))
            container info.container_id _))
        (λ _.
          Triple-bind {Q = λ _ _. Unit {0}} _ _
            (Triple-run h (λ t. replaced t ≡ false) (λ t. replaced t ≡ false) (λ _ _. Unit {0})
              (move container remote info.binary) (λ done t p e. tt) (λ a t p e. rw (e, p)))
            (λ _. Triple-pure tt (λ m p. tt)))

  -- How `deploy` ends.
  unfoldable pub Fate : Outcome (Unit {0}) × Machine W → Type 0
  Fate (ok u, after) = Unit {0}
  Fate (err e, after) =
      (replaced after.trace ≡ false)
      ⊎ ((e ≡ core_manager_error "deployment failed; rollback also failed")
          ⊎ ((before : Machine W) × ((rollback_binary h container info.binary (backup_path info)
                  info.container_id before).0
                ≡ ok tt)
              × (after
                  ≡ (rollback_binary h container info.binary (backup_path info) info.container_id
                      before).1)))

  abbrev failed : Exception
  failed = core_manager_error "deployment failed; rollback also failed"

  abbrev restored : Machine W → Outcome (Unit {0}) × Machine W
  restored = rollback_binary h container info.binary (backup_path info) info.container_id

  -- The roll-back in its `try`.
  abbrev guarded_restore : Machine W → Outcome (Unit {0}) × Machine W
  guarded_restore = catch restored (λ _. raise failed)

  guarded_restore_cases :
      (m : Machine W)
      → (((restored m).0 ≡ ok tt) × (guarded_restore m ≡ (ok tt, (restored m).1)))
        ⊎ ((guarded_restore m).0 ≡ err failed)
  guarded_restore_cases m =
      catch_cases
        (λ (r : Outcome (Unit {0}) × Machine W).
          (((restored m).0 ≡ ok tt) × (r ≡ (ok tt, (restored m).1))) ⊎ (r.0 ≡ err failed))
        restored (λ _. raise failed) m (λ u e. inl (e, refl)) (λ x e. inr refl)

  roll_back-Fate : (e : Exception) (m : Machine W) → Fate (roll_back_and_raise h container info e m)
  unfolding roll_back_and_raise Fate
  roll_back-Fate e m = elim (guarded_restore_cases m) [
    | inl p ↦
        subst (λ (r : Outcome (Unit {0}) × Machine W). Fate (continue r.0 (λ _. raise e) r.1))
          (sym p.1) (inr (inr (m, p.0, refl)))
    | inr f ↦
        subst (λ (r : Outcome (Unit {0})). Fate (continue r (λ _. raise e) (guarded_restore m).1))
          (sym f) (inr (inl refl))
  ]

  activate-Fate :
      (artifact : Text) (settings : Json) (m : Machine W)
      → Fate (
          catch
            (activate h container info artifact settings)
            (roll_back_and_raise h container info)
            m)
  unfolding Fate
  activate-Fate artifact settings m =
      catch_cases Fate (activate h container info artifact settings)
        (roll_back_and_raise h container info) m (λ u _. tt)
        (λ e _. roll_back-Fate e (activate h container info artifact settings m).1)

  -- A run of `deploy` that raises has not replaced the binary, or it ends with a run of
  -- `rollback_binary` that has returned, or its error says that the roll-back has failed too.
  pub deploy-Fate :
      (artifact : Text) (m : Machine W)
      → replaced m.trace ≡ false
      → Fate (deploy h container info artifact m)
  unfolding deploy Fate
  deploy-Fate artifact m original =
      bind_cases Fate (prepare_deploy h container info artifact) _ m
        (λ prepared _.
          let start = (prepare_deploy h container info artifact m).1 in
          bind_cases Fate (replace_core h container info prepared.1) _ start
            (λ _ _.
              activate-Fate artifact prepared.0 (replace_core h container info prepared.1 start).1)
            (λ e raised. inl (
              Triple-err (replace_core-Original prepared.1)
                ((Keeps-prepare_deploy artifact).at m original) raised)))
        (λ e _. inl ((Keeps-prepare_deploy artifact).at m original))
