-- ===== src/Manager/Machine/Triples.antt =====
-- What stands in the trace after a command has run.
use remnanode_xhttp_cleaner.Base.{
  ◌≡◌, refl, Bool, true, false, List, ◌∷◌, Outcome, ok, err, if◌then◌else◌, Exception,
  core_manager_error,
}
use remnanode_xhttp_cleaner.Base.Text.{Text, strip}
use remnanode_xhttp_cleaner.Base.Exec.{pure, raise, continue}
use remnanode_xhttp_cleaner.Base.Exec.Triple.{Ends, Triple, Triple-bind, Triple-pure}
use remnanode_xhttp_cleaner.Manager.Command.{Command}
use remnanode_xhttp_cleaner.Manager.Machine.{
  Host, Machine, Completed, call, run, checked, docker, succeeded,
}

-- The command has ended with exit code 0.
abbrev pub answered : Outcome Completed → Bool
answered (ok done) = succeeded done
answered (err e) = false

module _ {S : Type 0} {A : Type 0} (Q : A → S → Type 0) (R : S → Type 0) where
  pub Ends-if :
      (b : Bool) (a : A) (e : Exception) (s : S)
      → (b ≡ true → Q a s)
      → (b ≡ false → R s)
      → Ends Q R ((if b then pure a else raise e) s).0 ((if b then pure a else raise e) s).1
  Ends-if true a e s q r = q refl
  Ends-if false a e s q r = r refl

module _ {W : Type 0} (h : Host W) (T R : List (Command × Outcome Completed) → Type 0) where
  -- `q` for the answers that let `run` return, `r` for the others.
  pub Triple-run :
      (Q : Completed → List (Command × Outcome Completed) → Type 0) (c : Command)
      → ((done : Completed) (t : List (Command × Outcome Completed))
          → T t
          → succeeded done ≡ true
          → Q done ((c, ok done) ∷ t))
      → ((a : Outcome Completed) (t : List (Command × Outcome Completed))
          → T t
          → answered a ≡ false
          → R ((c, a) ∷ t))
      → Triple (λ m. T m.trace) (λ done m. Q done m.trace) (λ m. R m.trace) (run h c)
  unfolding run call
  Triple-run Q c q r = record { at = λ m p. go (h.run c m.world).0 (h.run c m.world).1 m p }
    where
      go :
          (a : Outcome Completed) (w : W) (m : Machine W)
          → T m.trace
          → Ends
              (λ (done : Completed) (m' : Machine W). Q done m'.trace)
              (λ m'. R m'.trace)
              (continue a (checked h) (record m { world = w; trace = (c, a) ∷ m.trace })).0
              (continue a (checked h) (record m { world = w; trace = (c, a) ∷ m.trace })).1
      go (ok done) w m p =
          Ends-if _ _ (succeeded done) done (core_manager_error "command failed") _
            (q done m.trace p) (r (ok done) m.trace p)
      go (err e) w m p = r (err e) m.trace p refl

  -- The same for `docker`, by the text that it returns.
  pub Triple-docker :
      (Q : Text → List (Command × Outcome Completed) → Type 0) (c : Command)
      → ((done : Completed) (t : List (Command × Outcome Completed))
          → T t
          → succeeded done ≡ true
          → Q (strip done.stdout) ((c, ok done) ∷ t))
      → ((a : Outcome Completed) (t : List (Command × Outcome Completed))
          → T t
          → answered a ≡ false
          → R ((c, a) ∷ t))
      → Triple (λ m. T m.trace) (λ text m. Q text m.trace) (λ m. R m.trace) (docker h c)
  unfolding docker
  Triple-docker Q c q r =
      Triple-bind (run h c) _ (Triple-run (λ done t. Q (strip done.stdout) t) c q r)
        (λ done. Triple-pure (strip done.stdout) (λ m p. p))
