-- ===== src/Worker/Accounts.antt =====
-- The numbers that a run reports, and the trace of a run without `--apply`.
use mathlib.Core.List.{map}
use remnanode_xhttp_cleaner.Base.{
  ℕ, suc, ◌+◌, ◌≡◌, refl, ap, Bool, true, false, Option, none, some, List, [], ◌∷◌, arith, length,
  length-append, ok-injective, Exception, Outcome, ok, err,
}
use remnanode_xhttp_cleaner.Base.Exec.{after-bind, bind_cases, ◌>>=◌, pure}
use remnanode_xhttp_cleaner.Config.{Config}
use remnanode_xhttp_cleaner.Socket.{SocketRecord, af_inet, af_inet6}
use remnanode_xhttp_cleaner.Candidate.{diagnostic_states}
use remnanode_xhttp_cleaner.Listener.{XhttpListener}
use remnanode_xhttp_cleaner.Worker.{
  Kernel, Event, inodes_read, client_opened, dumped, slept, queried, destroyed, Run, Candidate,
  Progress, WorkerResult, worker, apply_all, dump_all, sleep, owned_socket_inodes, open_client,
  finish_round, recheck, recheck_all, query_exact, destroy, dump_states, dump, second_look, row_of,
  activity_recheck_seconds, with_closed,
}

length-map {ℓ κ} :
    {A : Type ℓ} {B : Type κ} (xs : List A) (f : A → B) → length (map f xs) ≡ length xs
length-map [] f = refl
length-map (x ∷ xs) f = ap suc (length-map xs f)

-- How many sockets the kernel confirmed to have destroyed.
abbrev pub confirmed : List Event → ℕ
confirmed [] = 0
confirmed (destroyed r (ok true) ∷ before) = suc (confirmed before)
confirmed (destroyed r (ok false) ∷ before) = confirmed before
confirmed (destroyed r (err e) ∷ before) = confirmed before
confirmed (inodes_read answer ∷ before) = confirmed before
confirmed (client_opened ∷ before) = confirmed before
confirmed (dumped states family found ∷ before) = confirmed before
confirmed (slept n ∷ before) = confirmed before
confirmed (queried r answer ∷ before) = confirmed before

abbrev total : Progress → ℕ
total p = length p.closed + p.skipped_changed

module _ {W : Type 0} (k : Kernel W) where
  -- A step that returns adds `n` rounds to the progress, and as many closed sockets as confirmations.
  abbrev Advances : ℕ → Progress → Run W → Outcome Progress × Run W → Type 0
  Advances n p s result =
      (p' : Progress)
      → result.0 ≡ ok p'
      → (total p' ≡ total p + n)
        × (length p'.closed + confirmed s.trace ≡ length p.closed + confirmed result.1.trace)

  finish_round-Advances :
      (c : Candidate) (o : Option SocketRecord) (p : Progress) (s : Run W)
      → Advances 1 p s (finish_round k c o p s)
  unfolding finish_round
  finish_round-Advances c none p s = λ p' e. ground arith
  finish_round-Advances c (some r) p s =
      bind_cases (Advances 1 p s) (destroy k r) _ s (λ gone e1 p' e. closed-Advances gone e1 p' e)
        (λ x e1 p' e. absurd (ground arith))
    where
      closed-Advances :
          (gone : Bool)
          → (k.destroy r s.world).0 ≡ ok gone
          → (p' : Progress) → ok (with_closed c r gone p) ≡ ok p'
          → (total p' ≡ total p + 1)
            × (length p'.closed + confirmed s.trace
                ≡ length p.closed + confirmed (destroyed r (k.destroy r s.world).0 ∷ s.trace))
      closed-Advances true e1 p' e =
          rw (e1, ← ok-injective _ _ e)
            (omega (arith, length-append p.closed (record { socket = r; kind = c.kind } ∷ [])))
      closed-Advances false e1 p' e = rw (e1, ← ok-injective _ _ e) (omega arith)

  module _ (owned ports : List ℕ) (config : Config) (ls : List XhttpListener) where
    recheck-Advances :
        (c : Candidate) (p : Progress) (s : Run W)
        → Advances 1 p s (recheck k owned ports config ls c p s)
    unfolding recheck
    recheck-Advances c p s =
        bind_cases (Advances 1 p s) (query_exact k c.socket) _ s
          (λ answer e1. finish_round-Advances c _ p _) (λ x e1 p' e. absurd (ground arith))

    recheck_all-Advances :
        (cs : List Candidate) (p : Progress) (s : Run W)
        → Advances (length cs) p s (recheck_all k owned ports config ls cs p s)
    unfolding recheck_all
    recheck_all-Advances [] p s = λ p' e. ground arith
    recheck_all-Advances (c ∷ cs) p s =
        bind_cases (Advances (length (c ∷ cs)) p s) (recheck k owned ports config ls c p) _ s
          (λ p1 e1 p' e.
            let (n1, c1) = recheck-Advances c p s p1 e1 in
            let (n2, c2) = recheck_all-Advances cs p1 _ p' e in omega arith)
          (λ x e1 p' e. absurd (ground arith))

-- The trace of a run that only looks: no wait, no query of one socket, nothing destroyed.
abbrev pub IsLooking : List Event → Type 0
IsLooking [] = Unit
IsLooking (inodes_read answer ∷ before) = IsLooking before
IsLooking (client_opened ∷ before) = IsLooking before
IsLooking (dumped states family found ∷ before) = IsLooking before
IsLooking (destroyed r answer ∷ before) = ⊥
IsLooking (slept n ∷ before) = ⊥
IsLooking (queried r answer ∷ before) = ⊥

confirmed_looking : (trace : List Event) → IsLooking trace → confirmed trace ≡ 0
confirmed_looking [] h = refl
confirmed_looking (inodes_read answer ∷ before) h = confirmed_looking before h
confirmed_looking (client_opened ∷ before) h = confirmed_looking before h
confirmed_looking (dumped states family found ∷ before) h = confirmed_looking before h
confirmed_looking (destroyed r answer ∷ before) h = absurd h
confirmed_looking (slept n ∷ before) h = absurd h
confirmed_looking (queried r answer ∷ before) h = absurd h

module _ {W : Type 0} (k : Kernel W) where
  dump_states-IsLooking :
      (states : List ℕ) (s : Run W) → IsLooking s.trace → IsLooking (dump_states k states s).1.trace
  unfolding dump_states
  dump_states-IsLooking [] s h = h
  dump_states-IsLooking (st ∷ states) s h =
      after-bind (λ t. IsLooking t.trace) (dump k (st ∷ states) af_inet) _ s
        (λ _ _.
          after-bind (λ t. IsLooking t.trace) (dump k (st ∷ states) af_inet6) _ _ (λ _ _. h)
            (λ _ _. h))
        (λ _ _. h)

  dump_all-IsLooking :
      (config : Config) (s : Run W) → IsLooking s.trace → IsLooking (dump_all k config s).1.trace
  unfolding dump_all
  dump_all-IsLooking config s = dump_states-IsLooking (diagnostic_states config) s

module _ {W : Type 0} (k : Kernel W) (pid : ℕ) (config : Config) (ls : List XhttpListener) where
  -- The last part of `worker`, after the dumps.
  abbrev IsAccounted : Bool → Outcome WorkerResult × Run W → Type 0
  IsAccounted true result =
      (res : WorkerResult)
      → result.0 ≡ ok res
      → (length res.closed + res.skipped_changed ≡ length res.candidates)
        × (length res.closed ≡ confirmed result.1.trace)
  IsAccounted false result =
      IsLooking result.1.trace
      × ((res : WorkerResult) → result.0 ≡ ok res → (res.closed ≡ []) × (res.skipped_changed ≡ 0))

  abbrev IsCounted : List Candidate → Outcome Progress × Run W → Type 0
  IsCounted cs result =
      (p : Progress)
      → result.0 ≡ ok p
      → (total p ≡ length cs) × (length p.closed ≡ confirmed result.1.trace)

  second_look-IsCounted :
      (ports : List ℕ) (cs : List Candidate) (s : Run W)
      → confirmed s.trace ≡ 0
      → IsCounted cs (second_look k pid ports config ls cs s)
  unfolding second_look
  second_look-IsCounted ports cs s h =
      bind_cases (IsCounted cs) (owned_socket_inodes k pid) _ s
        (λ owned _ p e.
          let (n, c) = recheck_all-Advances k owned ports config ls cs _ _ p e in omega arith)
        (λ x _ p e. absurd (ground arith))

  apply_all-IsCounted :
      (ports : List ℕ) (cs : List Candidate) (s : Run W)
      → IsLooking s.trace
      → IsCounted cs (apply_all k pid ports config ls cs true s)
  unfolding apply_all
  apply_all-IsCounted ports [] s h = second_look-IsCounted ports [] s (confirmed_looking s.trace h)
  apply_all-IsCounted ports (c ∷ cs) s h =
      bind_cases (IsCounted (c ∷ cs)) (sleep k activity_recheck_seconds) _ s
        (λ _ _. second_look-IsCounted ports (c ∷ cs) _ (confirmed_looking s.trace h))
        (λ x _ p e. absurd (ground arith))

  failed-IsAccounted :
      (apply : Bool) (x : Exception) (t : Run W) → IsLooking t.trace → IsAccounted apply (err x, t)
  failed-IsAccounted true x t h = λ res e. absurd (ground arith)
  failed-IsAccounted false x t h = (h, λ res e. absurd (ground arith))

  apply_all-IsAccounted :
      (ports : List ℕ) (cs : List Candidate) (apply : Bool) (f : Progress → WorkerResult)
      (s : Run W)
      → IsLooking s.trace
      → ((p : Progress)
          → ((f p).closed ≡ map row_of p.closed)
            × ((f p).skipped_changed ≡ p.skipped_changed)
            × ((f p).candidates ≡ map row_of cs))
      → IsAccounted apply ((apply_all k pid ports config ls cs apply >>= λ p. pure (f p)) s)
  unfolding apply_all
  apply_all-IsAccounted ports cs false f s h r = (
    h,
    λ res e.
        let g = r (record { closed = []; skipped_changed = 0 }) in
        rw (← ok-injective _ _ e) (g.0, g.1),
  )
  apply_all-IsAccounted ports cs true f s h r =
      bind_cases (IsAccounted true) (apply_all k pid ports config ls cs true) _ s
        (λ p e res e2.
          let (n, c) = apply_all-IsCounted ports cs s h p e in
          let (closed, skipped, listed) = r p in
          rw (← ok-injective _ _ e2, closed, skipped, listed)
            (omega (arith, length-map p.closed row_of, length-map cs row_of)))
        (λ x _ res e. absurd (ground arith))

  worker-IsAccounted :
      (apply : Bool) (w : W)
      → IsAccounted apply (worker k pid config apply ls (record { world = w; trace = [] }))
  unfolding worker
  worker-IsAccounted apply w =
      bind_cases (IsAccounted apply) (owned_socket_inodes k pid) _ _
        (λ owned _.
          bind_cases (IsAccounted apply) (open_client k) _ _
            (λ _ _.
              bind_cases (IsAccounted apply) (dump_all k config) _ _
                (λ records _.
                  apply_all-IsAccounted _ _ apply _ _ (dump_all-IsLooking k config _ tt)
                    (λ p. (refl, refl, refl)))
                (λ x _. failed-IsAccounted apply x _ (dump_all-IsLooking k config _ tt)))
            (λ x _. failed-IsAccounted apply x _ tt))
        (λ x _. failed-IsAccounted apply x _ tt)

  -- A run with `--apply` that returns has counted every candidate as closed or as skipped, and as
  -- many as closed as the kernel confirmed.
  pub worker_accounts :
      (w : W) (res : WorkerResult)
      → (worker k pid config true ls (record { world = w; trace = [] })).0 ≡ ok res
      → (length res.closed + res.skipped_changed ≡ length res.candidates)
        × (length res.closed
            ≡ confirmed (worker k pid config true ls (record { world = w; trace = [] })).1.trace)
  worker_accounts w = worker-IsAccounted true w

  -- A run without `--apply` only looks: it neither waits, nor asks for one socket, nor destroys any.
  pub worker_dry_run :
      (w : W) → IsLooking (worker k pid config false ls (record { world = w; trace = [] })).1.trace
  worker_dry_run w = (worker-IsAccounted false w).0
