-- ===== src/Manager/Ensure/Quiet.antt =====
-- `ensure` and `print_status` of `xray-core-manager.py` on a core that they leave alone.
use remnanode_xhttp_cleaner.Base.{
  ◌≡◌, refl, Bool, true, false, not, ◌&&◌, ◌||◌, core_manager_error, List, [], ◌∷◌, ◌++◌, Outcome,
  ok,
}
use remnanode_xhttp_cleaner.Base.Text.{Text}
use remnanode_xhttp_cleaner.Base.Exec.{Exec, pure, raise_if, catch, ◌>>=◌}
use remnanode_xhttp_cleaner.Base.Exec.Keeps.{Keeps, keeps_rules}
use remnanode_xhttp_cleaner.Base.Exec.Triple.{
  Triple, Triple-bind, Triple-Keeps, Triple-pure, Triple-if, Triple-always, Triple-ok,
}
use remnanode_xhttp_cleaner.Manager.Command.{Command}
use remnanode_xhttp_cleaner.Manager.Machine.{Host, Machine, Completed, call, has_file}
use remnanode_xhttp_cleaner.Manager.Machine.Keeps.{reading}
use remnanode_xhttp_cleaner.Manager.Info.{Info, failure_path}
use remnanode_xhttp_cleaner.Manager.Reading.{
  Keeps-require_environment, Keeps-current_info, Keeps-running_core_evidence,
}
use remnanode_xhttp_cleaner.Manager.Ensure.{
  Ensured, already_patched, deployed, restore_legacy, attempt_deploy, ensure, build_and_deploy,
  record_failure,
}
use remnanode_xhttp_cleaner.Manager.Main.{print_status}

-- A command of the trace does more than ask.
abbrev pub writes : List (Command × Outcome Completed) → Bool
writes [] = false
writes (e ∷ older) = not (reading e.0) || writes older

module _ {W : Type 0} (h : Host W) (start : Machine W) where
  -- Nothing was done since `start` but asking.
  abbrev pub Quiet : Machine W → Type 0
  Quiet m =
      (m.files ≡ start.files)
      × (m.locked ≡ start.locked)
      × ((new : List (Command × Outcome Completed)) × (m.trace ≡ new ++ start.trace)
          × (writes new ≡ false))

  Keeps-Quiet : (c : Command) → reading c ≡ true → Keeps Quiet (call h c)
  unfolding call
  Keeps-Quiet c r = record {
    at = λ m q. (q.0, q.1, ((c, (h.run c m.world).0) ∷ q.2.0, rw q.2.1, rw (r, q.2.2)));
  }

  Keeps-print_status : (container : Text) → Keeps Quiet (print_status h container)
  unfolding print_status
  Keeps-print_status container =
      search
        (
          Keeps-require_environment h Keeps-Quiet,
          Keeps-current_info h Keeps-Quiet,
          Keeps-running_core_evidence h Keeps-Quiet,
          keeps_rules,
        )
        depth 20

  abbrev is_deployed : Ensured → Bool
  is_deployed already_patched = false
  is_deployed deployed = true

  abbrev QuietUnlessDeployed : Ensured → Machine W → Type 0
  QuietUnlessDeployed result m = is_deployed result ≡ false → Quiet m

  Triple-Quiet :
      {A : Type 0} (m : Exec (Machine W) A)
      → Keeps Quiet m
      → Triple Quiet (λ _. Quiet) (λ _. Unit {0}) m
  Triple-Quiet m k = Triple-Keeps m (λ s q. tt) k

  attempt_deploy-deployed :
      (container : Text) (retry : Bool) (info : Info)
      → Triple
          (λ _. Unit {0})
          QuietUnlessDeployed
          (λ _. Unit {0})
          (attempt_deploy h container retry info)
  unfolding attempt_deploy
  attempt_deploy-deployed container retry info =
      Triple-bind {A = Bool} {Q = λ _ _. Unit {0}} (has_file h (failure_path info)) _
        (Triple-always _ (λ a s. tt) (λ s. tt))
        (λ failed.
          Triple-bind {Q = λ _ _. Unit {0}}
            (raise_if (failed && not retry) (
              core_manager_error
                "this exact Xray version previously failed the compatibility gate"))
            _ (Triple-always _ (λ a s. tt) (λ s. tt))
            (λ _.
              Triple-bind {Q = λ _ _. Unit {0}}
                (catch (build_and_deploy h container info) (record_failure h container info)) _
                (Triple-always _ (λ a s. tt) (λ s. tt)) (λ _. Triple-pure deployed (λ m q e. cc))))

  ensure-Quiet :
      (container : Text) (retry : Bool)
      → Triple Quiet QuietUnlessDeployed (λ _. Unit {0}) (ensure h container retry)
  unfolding ensure
  ensure-Quiet container retry =
      Triple-bind _ _ (Triple-Quiet _ (Keeps-require_environment h Keeps-Quiet container)) (λ _.
        Triple-bind _ _ (Triple-Quiet _ (Keeps-current_info h Keeps-Quiet container)) (λ info.
          Triple-if info.patched (pure already_patched)
            (restore_legacy h container info >>= attempt_deploy h container retry)
            (λ _. Triple-pure already_patched (λ m q _. q))
            (λ _.
              Triple-bind (restore_legacy h container info) _
                (Triple-always _ (λ a s. tt) (λ s. tt)) (attempt_deploy-deployed container retry))))

module _ {W : Type 0} (h : Host W) where
  -- `status` changes no file, leaves the lock, and runs no command that does more than ask, also when
  -- it raises.
  pub print_status-IsQuiet :
      (container : Text) (m : Machine W) → Quiet h m (print_status h container m).1
  print_status-IsQuiet container m =
      (Keeps-print_status h m container).at m (refl, refl, ([], refl, refl))

  -- `ensure` does nothing but ask if it finds the core patched already.
  pub ensure-IsQuiet :
      (container : Text) (retry : Bool) (m : Machine W)
      → (ensure h container retry m).0 ≡ ok already_patched
      → Quiet h m (ensure h container retry m).1
  ensure-IsQuiet container retry m e =
      Triple-ok (ensure-Quiet h m container retry) (refl, refl, ([], refl, refl)) e refl
