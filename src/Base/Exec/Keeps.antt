-- ===== src/Base/Exec/Keeps.antt =====
-- What a step leaves true, in each of its two ways to end. The rules are stated for the combinators of
-- `Base.Exec`; `keeps_rules` takes a block apart down to the calls in it.
use mathlib.Core.Path.{◌≡◌, refl}
use mathlib.Core.Bool.{Bool, true, false}
use remnanode_xhttp_cleaner.Base.Tests.{if◌then◌else◌}
use remnanode_xhttp_cleaner.Base.Errors.{Exception, Outcome, ok, err}
use remnanode_xhttp_cleaner.Base.Exec.{
  Exec, pure, raise, gets, lift, raise_if, catch, finally, handle, continue, ◌>>=◌,
}

-- A step that starts where `I` holds ends where `I` holds.
pub record Keeps {ℓ} {World Val : Type ℓ} (I : World → Type ℓ) (step : Exec World Val)
    : Type ℓ where
  pub at : (w : World) → I w → I (step w).1

module _ {ℓ} {World Val : Type ℓ} {I : World → Type ℓ} where
  -- A block, a `try` with its handler and with its clean-up.
  pub Keeps-bind :
      {Next : Type ℓ} (first : Exec World Val) (rest : Val → Exec World Next)
      → Keeps I first
      → ((v : Val) → Keeps I (rest v))
      → Keeps I (first >>= rest)
  Keeps-bind {Next} first rest kept kept_rest = record {
    at = λ w i. after (first w).0 (first w).1 (kept.at w i);
  }
    where
      after : (o : Outcome Val) (w : World) → I w → I (continue o rest w).1
      after (ok v) w i = (kept_rest v).at w i
      after (err e) w i = i

  pub Keeps-catch :
      (body : Exec World Val) (handler : Exception → Exec World Val)
      → Keeps I body
      → ((e : Exception) → Keeps I (handler e))
      → Keeps I (catch body handler)
  Keeps-catch body handler kept kept_handler = record {
    at = λ w i. after (body w).0 (body w).1 (kept.at w i);
  }
    where
      after : (o : Outcome Val) (w : World) → I w → I (handle o handler w).1
      after (ok v) w i = i
      after (err e) w i = (kept_handler e).at w i

  pub Keeps-finally :
      (body : Exec World Val) (cleanup : Exec World (Unit {ℓ}))
      → Keeps I body
      → Keeps I cleanup
      → Keeps I (finally body cleanup)
  Keeps-finally body cleanup kept kept_cleanup = record {
    at = λ w i. kept_cleanup.at (body w).1 (kept.at w i);
  }

  -- The choice of a step.
  pub Keeps-if :
      (test : Bool) (yes_step no_step : Exec World Val)
      → (test ≡ true → Keeps I yes_step)
      → (test ≡ false → Keeps I no_step)
      → Keeps I (if test then yes_step else no_step)
  Keeps-if false yes_step no_step on_yes on_no = on_no refl
  Keeps-if true yes_step no_step on_yes on_no = on_yes refl

  -- The steps that leave the world as it is.
  pub Keeps-gets : (look : World → Val) → Keeps I (gets look)
  Keeps-gets look = record { at = λ w i. i }

  pub Keeps-pure : (v : Val) → Keeps I (pure v)
  Keeps-pure v = record { at = λ w i. i }

  pub Keeps-lift : (o : Outcome Val) → Keeps I (lift o)
  Keeps-lift o = record { at = λ w i. i }

  pub Keeps-raise : (e : Exception) → Keeps I (raise {A = Val} e)
  Keeps-raise e = record { at = λ w i. i }

pub Keeps-raise_if {ℓ} :
    {World : Type ℓ} {I : World → Type ℓ} (test : Bool) (e : Exception) → Keeps I (raise_if test e)
Keeps-raise_if false e = record { at = λ w i. i }
Keeps-raise_if true e = record { at = λ w i. i }

pub ruleset keeps_rules = (
  Keeps-raise_if, Keeps-gets, Keeps-raise, Keeps-lift, Keeps-pure, Keeps-if, Keeps-finally,
  Keeps-catch, Keeps-bind,
)
