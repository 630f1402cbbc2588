-- ===== src/Base/Exec/Triple.antt =====
-- What holds after a step: `P` before it, `Q` of the value and the state if it returns, and `R` of the
-- state if it raises.
use mathlib.Core.Path.{◌≡◌, refl, subst}
use mathlib.Core.Bool.{Bool, true, false}
use remnanode_xhttp_cleaner.Base.Tests.{if◌then◌else◌}
use remnanode_xhttp_cleaner.Base.Errors.{Exception, Outcome, ok, err}
use remnanode_xhttp_cleaner.Base.Exec.{
  Exec, pure, raise, gets, lift, raise_if, catch, finally, handle, continue, resume_with, ◌>>=◌,
}
use remnanode_xhttp_cleaner.Base.Exec.Keeps.{Keeps}

abbrev pub Ends {ℓ} : {S A : Type ℓ} → (A → S → Type ℓ) → (S → Type ℓ) → Outcome A → S → Type ℓ
Ends Q R (ok a) s = Q a s
Ends Q R (err e) s = R s

pub record Triple {ℓ} {S A : Type ℓ} (P : S → Type ℓ) (Q : A → S → Type ℓ) (R : S → Type ℓ)
    (m : Exec S A) : Type ℓ where
  pub at : (s : S) → P s → Ends Q R (m s).0 (m s).1

module _ {ℓ} {S : Type ℓ} {P R : S → Type ℓ} where
  module _ {A : Type ℓ} where
    pub Triple-pure : {Q : A → S → Type ℓ} (a : A) → ((s : S) → P s → Q a s) → Triple P Q R (pure a)
    Triple-pure a q = record { at = q }

    pub Triple-Keeps : (m : Exec S A) → ((s : S) → P s → R s) → Keeps P m → Triple P (λ _. P) R m
    Triple-Keeps m weaker k = record { at = λ s p. go (m s).0 (m s).1 (k.at s p) }
      where
        go : (r : Outcome A) (s : S) → P s → Ends (λ _. P) R r s
        go (ok a) s p = p
        go (err e) s p = weaker s p

    pub Triple-lift :
        {Q : A → S → Type ℓ} (o : Outcome A)
        → ((s : S) → P s → R s)
        → ((a : A) → o ≡ ok a → (s : S) → P s → Q a s)
        → Triple P Q R (lift o)
    Triple-lift (ok a) weaker q = record { at = q a refl }
    Triple-lift (err e) weaker q = record { at = weaker }

    pub Triple-raise :
        {Q : A → S → Type ℓ} (e : Exception)
        → ((s : S) → P s → R s)
        → Triple P Q R (raise {A = A} e)
    Triple-raise e weaker = record { at = weaker }

    pub Triple-gets :
        {Q : A → S → Type ℓ} (f : S → A) → ((s : S) → P s → Q (f s) s) → Triple P Q R (gets f)
    Triple-gets f q = record { at = q }

    pub Triple-if :
        {Q : A → S → Type ℓ} (b : Bool) (m n : Exec S A)
        → (b ≡ true → Triple P Q R m)
        → (b ≡ false → Triple P Q R n)
        → Triple P Q R (if b then m else n)
    Triple-if true m n t u = t refl
    Triple-if false m n t u = u refl

    pub Triple-always :
        {Q : A → S → Type ℓ} (m : Exec S A)
        → ((a : A) (s : S) → Q a s)
        → ((s : S) → R s)
        → Triple P Q R m
    Triple-always {Q} m q r = record { at = λ s p. go (m s).0 (m s).1 }
      where
        go : (o : Outcome A) (s : S) → Ends Q R o s
        go (ok a) s = q a s
        go (err e) s = r s

    -- A condition that says nothing of the state.
    pub Triple-given :
        {X : Type ℓ} {Q : A → S → Type ℓ} (m : Exec S A)
        → (X → Triple P Q R m)
        → Triple (λ s. X × P s) Q R m
    Triple-given m t = record { at = λ s p. (t p.0).at s p.1 }

    pub Triple-before :
        {P' : S → Type ℓ} {Q : A → S → Type ℓ} (m : Exec S A)
        → ((s : S) → P s → P' s)
        → Triple P' Q R m
        → Triple P Q R m
    Triple-before m stronger t = record { at = λ s p. t.at s (stronger s p) }

    pub Triple-also :
        {K : S → Type ℓ} {Q : A → S → Type ℓ} (m : Exec S A)
        → Keeps K m
        → Triple P Q R m
        → Triple (λ s. P s × K s) (λ a s. Q a s × K s) R m
    Triple-also {K} {Q} m k t = record { at = λ s p. go (m s).0 (m s).1 (k.at s p.1) (t.at s p.0) }
      where
        go :
            (r : Outcome A) (s : S)
            → K s
            → Ends Q R r s
            → Ends (λ (a : A) (s' : S). Q a s' × K s') R r s
        go (ok a) s kept q = (q, kept)
        go (err e) s kept q = q

    pub Triple-catch :
        {Q : A → S → Type ℓ} {R' : S → Type ℓ} (m : Exec S A) (handler : Exception → Exec S A)
        → Triple P Q R m
        → ((e : Exception) → Triple R Q R' (handler e))
        → Triple P Q R' (catch m handler)
    Triple-catch {Q} {R'} m handler t th = record { at = λ s p. go (m s).0 (m s).1 (t.at s p) }
      where
        go :
            (r : Outcome A) (s : S)
            → Ends Q R r s
            → Ends Q R' (handle r handler s).0 (handle r handler s).1
        go (ok a) s q = q
        go (err e) s q = (th e).at s q

    pub Triple-finally :
        {Q : A → S → Type ℓ} (m : Exec S A) (cleanup : Exec S (Unit {ℓ}))
        → ((a : A) (s : S) → Q a s → R s)
        → Triple P Q R m
        → ((a : A) → Keeps (Q a) cleanup)
        → Keeps R cleanup
        → Triple P Q R (finally m cleanup)
    Triple-finally {Q} m cleanup weaker t kq kr = record {
      at = λ s p. go (m s).0 (m s).1 (t.at s p);
    }
      where
        both : (a : A) (c : Outcome (Unit {ℓ})) (s : S) → Q a s → Ends Q R (resume_with (ok a) c) s
        both a (ok u) s q = q
        both a (err e) s q = weaker a s q

        raised :
            (e : Exception) (c : Outcome (Unit {ℓ})) (s : S)
            → R s
            → Ends Q R (resume_with (err e) c) s
        raised e (ok u) s r = r
        raised e (err e') s r = r

        go :
            (r : Outcome A) (s : S)
            → Ends Q R r s
            → Ends Q R (resume_with r (cleanup s).0) (cleanup s).1
        go (ok a) s q = both a (cleanup s).0 (cleanup s).1 ((kq a).at s q)
        go (err e) s q = raised e (cleanup s).0 (cleanup s).1 (kr.at s q)

  pub Triple-raise_if :
      {Q : Unit {ℓ} → S → Type ℓ} (b : Bool) (e : Exception)
      → ((s : S) → P s → R s)
      → ((s : S) → b ≡ false → P s → Q tt s)
      → Triple P Q R (raise_if b e)
  Triple-raise_if true e weaker q = record { at = weaker }
  Triple-raise_if false e weaker q = record { at = λ s p. q s refl p }

  module _ {A B : Type ℓ} where
    pub Triple-bind :
        {Q : A → S → Type ℓ} {Q' : B → S → Type ℓ} (m : Exec S A) (f : A → Exec S B)
        → Triple P Q R m
        → ((a : A) → Triple (Q a) Q' R (f a))
        → Triple P Q' R (m >>= f)
    Triple-bind {Q} {Q'} m f t tf = record { at = λ s p. go (m s).0 (m s).1 (t.at s p) }
      where
        go :
            (r : Outcome A) (s : S) → Ends Q R r s → Ends Q' R (continue r f s).0 (continue r f s).1
        go (ok a) s q = (tf a).at s q
        go (err e) s q = q

pub Keeps-Triple {ℓ} :
    {S A : Type ℓ} {P : S → Type ℓ} {Q : A → S → Type ℓ} (m : Exec S A)
    → ((a : A) (s : S) → Q a s → P s)
    → Triple P Q P m
    → Keeps P m
Keeps-Triple {S} {A} {P} {Q} m weaker t = record { at = λ s p. go (m s).0 (m s).1 (t.at s p) }
  where
    go : (r : Outcome A) (s : S) → Ends Q P r s → P s
    go (ok a) s q = weaker a s q
    go (err e) s q = q

-- What a triple says of a run that returns.
pub Triple-ok {ℓ} :
    {S A : Type ℓ} {P R : S → Type ℓ} {Q : A → S → Type ℓ} {m : Exec S A} {s : S} {a : A}
    → Triple P Q R m
    → P s
    → (m s).0 ≡ ok a
    → Q a (m s).1
Triple-ok {R} {Q} {m} {s} t p e = subst (λ r. Ends Q R r (m s).1) e (t.at s p)

-- A run that returns is a run of this step.
pub Triple-self {ℓ} :
    {S A : Type ℓ} {P : S → Type ℓ} (m : Exec S A)
    → Triple P (λ a s. (before : S) × ((m before).0 ≡ ok a) × (s ≡ (m before).1)) (λ _. Unit {ℓ}) m
Triple-self {S} {A} m = record { at = λ s p. go s (m s).0 (m s).1 refl refl }
  where
    go :
        (s : S) (r : Outcome A) (after : S)
        → (m s).0 ≡ r
        → after ≡ (m s).1
        → Ends
            (λ a s'. (before : S) × ((m before).0 ≡ ok a) × (s' ≡ (m before).1))
            (λ _. Unit {ℓ})
            r
            after
    go s (ok a) after e f = (s, e, f)
    go s (err x) after e f = tt

-- A step whose return is a fact for the rest of the block.
pub Triple-learn {ℓ} :
    {S A B : Type ℓ} {X : A → Type ℓ} {Q : B → S → Type ℓ} (m : Exec S A) (f : A → Exec S B)
    → ((s : S) (a : A) → (m s).0 ≡ ok a → X a)
    → ((a : A) → X a → Triple (λ _. Unit {ℓ}) Q (λ _. Unit {ℓ}) (f a))
    → Triple (λ _. Unit {ℓ}) Q (λ _. Unit {ℓ}) (m >>= f)
Triple-learn {S} {A} {X} {Q} m f fact t = record { at = λ s p. go s (m s).0 (m s).1 refl }
  where
    go :
        (s : S) (r : Outcome A) (after : S)
        → (m s).0 ≡ r
        → Ends Q (λ _. Unit {ℓ}) (continue r f after).0 (continue r f after).1
    go s (ok a) after e = (t a (fact s a e)).at after tt
    go s (err x) after e = tt

-- What a triple says of a run that raises.
pub Triple-err {ℓ} :
    {S A : Type ℓ} {P R : S → Type ℓ} {Q : A → S → Type ℓ} {m : Exec S A} {s : S} {e : Exception}
    → Triple P Q R m
    → P s
    → (m s).0 ≡ err e
    → R (m s).1
Triple-err {R} {Q} {m} {s} t p e = subst (λ r. Ends Q R r (m s).1) e (t.at s p)
