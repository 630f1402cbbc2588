-- ===== src/Worker/Trace.antt =====
-- What a `SOCK_DESTROY` needs before it in the trace of a run, in the second look.
use mathlib.Core.List.{Memᴰ}
use remnanode_xhttp_cleaner.Base.{
  ℕ, ◌≡◌, refl, true, Option, none, some, List, [], ◌∷◌, ◌++◌, arith, ap, Outcome, ok, err,
}
use remnanode_xhttp_cleaner.Base.Exec.{after-bind}
use remnanode_xhttp_cleaner.Config.{Config}
use remnanode_xhttp_cleaner.Socket.{SocketRecord, same_identity}
use remnanode_xhttp_cleaner.Listener.{XhttpListener}
use remnanode_xhttp_cleaner.Candidate.{candidate_kind}
use remnanode_xhttp_cleaner.Worker.{
  Kernel, Event, inodes_read, client_opened, dumped, slept, queried, destroyed, Run, Candidate,
  Progress, still_candidate, finish_round, recheck, recheck_all, query_exact, destroy,
}

-- `P r before` holds of every destroyed socket `r` of a trace and of what stands before it.
abbrev pub Destroys : (SocketRecord → List Event → Type 0) → List Event → Type 0
Destroys P [] = Unit
Destroys P (destroyed r answer ∷ before) = P r before × Destroys P before
Destroys P (inodes_read answer ∷ before) = Destroys P before
Destroys P (client_opened ∷ before) = Destroys P before
Destroys P (dumped states family found ∷ before) = Destroys P before
Destroys P (slept n ∷ before) = Destroys P before
Destroys P (queried r answer ∷ before) = Destroys P before

-- The sockets that the kernel has reported, in the order of the dumps.
abbrev pub reported : List Event → List SocketRecord
reported [] = []
reported (dumped states family (ok records) ∷ before) = reported before ++ records
reported (dumped states family (err e) ∷ before) = reported before
reported (destroyed r answer ∷ before) = reported before
reported (inodes_read answer ∷ before) = reported before
reported (client_opened ∷ before) = reported before
reported (slept n ∷ before) = reported before
reported (queried r answer ∷ before) = reported before

pub Destroys-map :
    (P Q : SocketRecord → List Event → Type 0) (trace : List Event)
    → ((r : SocketRecord) (before : List Event) → P r before → Q r before)
    → Destroys P trace
    → Destroys Q trace
Destroys-map P Q [] f h = tt
Destroys-map P Q (destroyed r answer ∷ before) f h = (f r before h.0, Destroys-map P Q before f h.1)
Destroys-map P Q (inodes_read answer ∷ before) f h = Destroys-map P Q before f h
Destroys-map P Q (client_opened ∷ before) f h = Destroys-map P Q before f h
Destroys-map P Q (dumped states family found ∷ before) f h = Destroys-map P Q before f h
Destroys-map P Q (slept n ∷ before) f h = Destroys-map P Q before f h
Destroys-map P Q (queried r answer ∷ before) f h = Destroys-map P Q before f h

-- The parameters are the second set of owned inodes, the listening ports, the candidates of the
-- first look, and the trace at the moment when the loop begins.
module _ (owned ports : List ℕ) (config : Config) (ls : List XhttpListener)
    (chosen : List Candidate) (base : List Event) where
  -- `r` was just returned for a socket of the first look, with the same inode and cookie, and it is
  -- still a candidate of the same kind.
  pub record IsJustified (r : SocketRecord) (before : List Event) : Type 0 where
    pub original : Candidate
    pub was_chosen : Memᴰ original chosen
    pub since : List Event
    pub just_queried : before ≡ queried original.socket (ok (some r)) ∷ (since ++ base)
    pub same : same_identity r original.socket ≡ true
    pub again : candidate_kind r owned ports config ls ≡ some original.kind

  pub record IsSafe (trace : List Event) : Type 0 where
    pub since : List Event
    pub from_base : trace ≡ since ++ base
    pub guarded : Destroys IsJustified trace

  IsSafe-queried :
      (r : SocketRecord) (answer : Outcome (Option SocketRecord)) (trace : List Event)
      → IsSafe trace
      → IsSafe (queried r answer ∷ trace)
  IsSafe-queried r answer trace s = record {
    since = queried r answer ∷ s.since;
    from_base = ap (◌∷◌ (queried r answer)) s.from_base;
    guarded = s.guarded;
  }

  still_candidate_lem :
      (c : Candidate) (answer : Option SocketRecord) (r : SocketRecord)
      → still_candidate owned ports config ls c answer ≡ some r
      → (answer ≡ some r)
        × (same_identity r c.socket ≡ true)
        × (candidate_kind r owned ports config ls ≡ some c.kind)
  unfolding still_candidate
  still_candidate_lem c none r h = cc
  still_candidate_lem c (some current) r h = ground arith

  module _ {W : Type 0} (k : Kernel W) where
    finish_round-IsSafe :
        (c : Candidate) (answer : Option SocketRecord) (p : Progress) (s : Run W)
        (trace : List Event) (o : Option SocketRecord)
        → Memᴰ c chosen
        → s.trace ≡ queried c.socket (ok answer) ∷ trace
        → IsSafe trace
        → still_candidate owned ports config ls c answer ≡ o
        → IsSafe (finish_round k c o p s).1.trace
    unfolding finish_round
    finish_round-IsSafe c answer p s trace none m e safe h =
        rw e (IsSafe-queried c.socket (ok answer) trace safe)
    finish_round-IsSafe c answer p s trace (some r) m e safe h =
        after-bind (λ t. IsSafe t.trace) (destroy k r) _ s (λ gone _. destroyed_safe)
          (λ x _. destroyed_safe)
      where
        destroyed_safe : IsSafe (destroyed r (k.destroy r s.world).0 ∷ s.trace)
        destroyed_safe =
            let (asked, same, again) = still_candidate_lem c answer r h in
            record {
              since =
                  destroyed r (k.destroy r s.world).0 ∷ queried c.socket (ok answer) ∷ safe.since;
              from_base = rw (e, safe.from_base) refl;
              guarded = (
                record {
                  original = c;
                  was_chosen = m;
                  since = safe.since;
                  just_queried = rw (e, asked, safe.from_base) refl;
                  same = same;
                  again = again;
                },
                rw e safe.guarded,
              );
            }

    recheck-IsSafe :
        (c : Candidate) (p : Progress) (s : Run W)
        → Memᴰ c chosen
        → IsSafe s.trace
        → IsSafe (recheck k owned ports config ls c p s).1.trace
    unfolding recheck
    recheck-IsSafe c p s m safe =
        after-bind (λ t. IsSafe t.trace) (query_exact k c.socket) _ s
          (λ answer e. finish_round-IsSafe c answer p _ s.trace _ m (rw e refl) safe refl)
          (λ x e. IsSafe-queried c.socket _ s.trace safe)

    -- The loop over candidates of the first look destroys only what is justified.
    pub recheck_all-IsSafe :
        (cs : List Candidate) (p : Progress) (s : Run W)
        → ((c : Candidate) → Memᴰ c cs → Memᴰ c chosen)
        → IsSafe s.trace
        → IsSafe (recheck_all k owned ports config ls cs p s).1.trace
    unfolding recheck_all
    recheck_all-IsSafe [] p s inside safe = safe
    recheck_all-IsSafe (c ∷ cs) p s inside safe =
        after-bind (λ t. IsSafe t.trace) (recheck k owned ports config ls c p) _ s
          (λ p' _.
            recheck_all-IsSafe cs p' _ (λ d m. inside d (Memᴰ.tail m))
              (recheck-IsSafe c p s (inside c (Memᴰ.head refl)) safe))
          (λ x _. recheck-IsSafe c p s (inside c (Memᴰ.head refl)) safe)
