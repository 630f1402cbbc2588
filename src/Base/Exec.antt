-- ===== src/Base/Exec.antt =====
-- Code with effects: a step takes the state of the world, and returns a value or raises, together
-- with the state that it leaves. What was done before an exception stays done.
pub mod Keeps
pub mod Triple
use mathlib.Core.Path.{◌≡◌, refl}
use mathlib.Core.Bool.{Bool, true, false}
use remnanode_xhttp_cleaner.Base.Errors.{Exception, Outcome, ok, err}

abbrev pub Exec {ℓ} : Type ℓ → Type ℓ → Type ℓ
Exec S A = S → Outcome A × S

abbrev pub pure {ℓ} : {S A : Type ℓ} → A → Exec S A
pure a s = (ok a, s)

abbrev pub raise {ℓ} : {S A : Type ℓ} → Exception → Exec S A
raise e s = (err e, s)

-- A step that cannot fail.
abbrev pub gets {ℓ} : {S A : Type ℓ} → (S → A) → Exec S A
gets f s = (ok (f s), s)

abbrev pub modify {ℓ} : {S : Type ℓ} → (S → S) → (S → Outcome (Unit {ℓ}) × S)
modify f s = (ok tt, f s)

abbrev pub continue {ℓ} : {S A B : Type ℓ} → Outcome A → (A → Exec S B) → Exec S B
continue (ok a) f s = f a s
continue (err e) f s = (err e, s)

infixl 10 ◌>>=◌ ◌>>◌
abbrev pub ◌>>=◌ {ℓ} : {S A B : Type ℓ} → Exec S A → (A → Exec S B) → Exec S B
◌>>=◌ m f s = continue (m s).0 f (m s).1

abbrev pub ◌>>◌ {ℓ} : {S A B : Type ℓ} → Exec S A → Exec S B → Exec S B
m >> n = m >>= λ _. n

-- An `Outcome` as a step, and `if b: raise e`.
abbrev pub lift {ℓ} : {S A : Type ℓ} → Outcome A → Exec S A
lift r s = (r, s)

abbrev pub raise_if {ℓ} : {S : Type ℓ} → Bool → Exception → (S → Outcome (Unit {ℓ}) × S)
raise_if true e s = (err e, s)
raise_if false e s = (ok tt, s)

-- `try: m` with `except BaseException as e: handler`
abbrev pub handle {ℓ} : {S A : Type ℓ} → Outcome A → (Exception → Exec S A) → Exec S A
handle (ok a) handler s = (ok a, s)
handle (err e) handler s = handler e s

abbrev pub catch {ℓ} : {S A : Type ℓ} → Exec S A → (Exception → Exec S A) → Exec S A
catch m handler s = handle (m s).0 handler (m s).1

-- What a `finally` block leaves of the result: its own exception comes first.
abbrev pub resume_with {ℓ} : {A : Type ℓ} → Outcome A → Outcome (Unit {ℓ}) → Outcome A
resume_with r (ok _) = r
resume_with r (err e) = err e

-- `try: m` with `finally: cleanup`
abbrev pub finally {ℓ} : {S A : Type ℓ} → Exec S A → (S → Outcome (Unit {ℓ}) × S) → Exec S A
finally m cleanup s = (resume_with (m s).0 (cleanup (m s).1).0, (cleanup (m s).1).1)

-- A block that returns has a first step that returns, and the rest returns from its state.
pub >>=-eq-ok {ℓ} :
    {S A B : Type ℓ} (m : Exec S A) (f : A → Exec S B) (s : S) {b : B}
    → ((m >>= f) s).0 ≡ ok b
    → (a : A) × ((m s).0 ≡ ok a) × ((f a (m s).1).0 ≡ ok b) × ((m >>= f) s ≡ f a (m s).1)
>>=-eq-ok {A} m f s {b} h = go (m s).0 refl h
  where
    go :
        (r : Outcome A)
        → (m s).0 ≡ r
        → (continue r f (m s).1).0 ≡ ok b
        → (a : A) × ((m s).0 ≡ ok a) × ((f a (m s).1).0 ≡ ok b) × ((m >>= f) s ≡ f a (m s).1)
    go (ok a) e k = (a, e, k, rw e)
    go (err x) e k = cc

-- What holds of the state after a block, by the two ways in which its first step ends.
pub after-bind {ℓ κ} :
    {S A B : Type ℓ} (Q : S → Type κ) (m : Exec S A) (f : A → Exec S B) (s : S)
    → ((a : A) → (m s).0 ≡ ok a → Q (f a (m s).1).1)
    → ((e : Exception) → (m s).0 ≡ err e → Q (m s).1)
    → Q ((m >>= f) s).1
after-bind {A} Q m f s returned raised = go (m s).0 refl
  where
    go : (r : Outcome A) → (m s).0 ≡ r → Q (continue r f (m s).1).1
    go (ok a) e = returned a e
    go (err x) e = raised x e

-- The same for the value and the state together.
pub bind_cases {ℓ κ} :
    {S A B : Type ℓ} (Q : Outcome B × S → Type κ) (m : Exec S A) (f : A → Exec S B) (s : S)
    → ((a : A) → (m s).0 ≡ ok a → Q (f a (m s).1))
    → ((e : Exception) → (m s).0 ≡ err e → Q (err e, (m s).1))
    → Q ((m >>= f) s)
bind_cases {A} Q m f s returned raised = go (m s).0 refl
  where
    go : (r : Outcome A) → (m s).0 ≡ r → Q (continue r f (m s).1)
    go (ok a) e = returned a e
    go (err x) e = raised x e

-- The same for `except`.
pub catch_cases {ℓ κ} :
    {S A : Type ℓ} (Q : Outcome A × S → Type κ) (m : Exec S A) (handler : Exception → Exec S A)
    (s : S)
    → ((a : A) → (m s).0 ≡ ok a → Q (ok a, (m s).1))
    → ((e : Exception) → (m s).0 ≡ err e → Q (handler e (m s).1))
    → Q (catch m handler s)
catch_cases {A} Q m handler s returned raised = go (m s).0 refl
  where
    go : (r : Outcome A) → (m s).0 ≡ r → Q (handle r handler (m s).1)
    go (ok a) e = returned a e
    go (err x) e = raised x e
