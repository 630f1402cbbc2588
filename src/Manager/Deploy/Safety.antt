-- ===== src/Manager/Deploy/Safety.antt =====
-- `deploy` of `xray-core-manager.py`, up to each replacement of the binary.
use native.Mathlib.Omega.{arith}
use mathlib.Core.Path.{subst, sym}
use remnanode_xhttp_cleaner.Base.{◌≡◌, refl, true, List, Exception, core_manager_error}
use remnanode_xhttp_cleaner.Base.Text.{Text, text_eq_refl}
use remnanode_xhttp_cleaner.Base.Exec.Keeps.{Keeps, Keeps-catch, Keeps-bind, Keeps-raise}
use remnanode_xhttp_cleaner.Base.Exec.Triple.{
  Triple, Triple-bind, Triple-Keeps, Triple-pure, Triple-also, Triple-before, Keeps-Triple,
}
use remnanode_xhttp_cleaner.Manager.Command.{move}
use remnanode_xhttp_cleaner.Manager.Machine.{Host, Machine}
use remnanode_xhttp_cleaner.Manager.Machine.Keeps.{is_move-reading, Keeps-call}
use remnanode_xhttp_cleaner.Manager.Info.{Info}
use remnanode_xhttp_cleaner.Manager.RuntimeConfig.{remote_binary}
use remnanode_xhttp_cleaner.Manager.Rollback.{require_id}
use remnanode_xhttp_cleaner.Manager.Reading.{Keeps-require_id}
use remnanode_xhttp_cleaner.Manager.Tracing.{Keeps-keep_stock, Keeps-activate}
use remnanode_xhttp_cleaner.Manager.Deploy.{
  backup_path, prepare_deploy, replace_core, roll_back_and_raise, deploy,
}
use remnanode_xhttp_cleaner.Manager.Deploy.Guard.{Event, Plan, guarded, may_move}
use remnanode_xhttp_cleaner.Manager.Deploy.Replace.{
  IdentifiedNow, Guarded, require_id-IsIdentified, Triple-move, rollback_binary-IsGuarded,
}
use remnanode_xhttp_cleaner.Manager.Deploy.Validated.{
  plan_of, IsReady, Triple-still, guarded_step, IsReady-step, validate-IsReady,
}

module _ {W : Type 0} (h : Host W) (container : Text) (info : Info) where
  abbrev target : Plan
  target = plan_of h container info

  -- What is known after `validate_inside_container`.
  abbrev Known : Text → List Event → Type 0
  Known remote t = IsReady target t × (remote ≡ remote_binary h)

  may_move-new :
      (remote : Text) (t : List Event)
      → IdentifiedNow target t × Known remote t
      → may_move target (move container remote info.binary) t ≡ true
  may_move-new remote t p =
      subst (λ (source : Text). may_move target (move container source info.binary) t ≡ true)
        (sym p.1.1)
        (ground (
          arith,
          p.0.1,
          p.1.0.1,
          text_eq_refl container,
          text_eq_refl info.binary,
          text_eq_refl (remote_binary h),
        ))

  require_id-Known :
      (remote : Text) (e : Exception)
      → Triple
          (λ m. Known remote m.trace)
          (λ _ m. IdentifiedNow target m.trace × Known remote m.trace)
          (Guarded h target)
          (require_id h container info.container_id e)
  require_id-Known remote e =
      Triple-before _ (λ m p. (p.0.0, p))
        (Triple-also _
          (Keeps-require_id h
            (λ c r.
              Keeps-call h (Known remote) c
                (λ a t p. (IsReady-step h container info c a t (is_move-reading c r) p.0, p.1)))
            container info.container_id e)
          (require_id-IsIdentified h target e))

  replace_core-IsGuarded :
      (remote : Text)
      → Triple
          (λ m. Known remote m.trace)
          (λ _. Guarded h target)
          (Guarded h target)
          (replace_core h container info remote)
  unfolding replace_core
  replace_core-IsGuarded remote =
      Triple-bind _ _
        (require_id-Known remote
          (core_manager_error "container was recreated immediately before core replacement"))
        (λ _.
          Triple-bind _ _
            (Triple-move h target remote info.binary (λ t. IdentifiedNow target t × Known remote t)
              (λ t p. p.0.0.0) (may_move-new remote))
            (λ _. Triple-pure tt (λ m g. g)))

  prepare_deploy-IsReady :
      (artifact : Text)
      → Triple
          (Guarded h target)
          (λ prepared m. Known prepared.1 m.trace)
          (Guarded h target)
          (prepare_deploy h container info artifact)
  unfolding prepare_deploy
  prepare_deploy-IsReady artifact =
      Triple-bind _ _
        (Triple-still h container info _ (
          Keeps-keep_stock h (λ t. guarded target t ≡ true) (guarded_step h container info)
            container info))
        (λ settings.
          Triple-bind _ _ (validate-IsReady h container info artifact)
            (λ remote. Triple-pure (settings, remote) (λ m p. p)))

  roll_back-IsGuarded :
      (e : Exception) → Keeps (Guarded h target) (roll_back_and_raise h container info e)
  unfolding roll_back_and_raise
  roll_back-IsGuarded e =
      Keeps-bind _ _
        (Keeps-catch _ _ (rollback_binary-IsGuarded h target (backup_path info) refl)
          (λ _. Keeps-raise (core_manager_error "deployment failed; rollback also failed")))
        (λ _. Keeps-raise e)

  -- In a run of `deploy`, however it ends, each `mv` replaces the binary of `info` in this container
  -- while the newest successful `docker inspect` has answered the id of `info`. Its source is the stock
  -- binary, or it is the new one, and then that answer is the event right before it, `version` has
  -- shown the marker, and the `-test` run has succeeded. The trace before the run must be such a trace.
  pub deploy-IsGuarded :
      (artifact : Text) (m : Machine W)
      → guarded target m.trace ≡ true
      → guarded target (deploy h container info artifact m).1.trace ≡ true
  unfolding deploy
  deploy-IsGuarded artifact m g =
      (Keeps-Triple {P = Guarded h target} (deploy h container info artifact) (λ _ m' g'. g')
          (Triple-bind _ _ (prepare_deploy-IsReady artifact) (λ prepared.
            Triple-bind _ _ (replace_core-IsGuarded prepared.1) (λ _.
              Triple-Keeps _ (λ m' g'. g')
                (Keeps-catch _ _
                  (Keeps-activate h (λ t. guarded target t ≡ true) (guarded_step h container info)
                    container info artifact prepared.0)
                  roll_back-IsGuarded))))).at
        m g
