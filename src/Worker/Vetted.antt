-- ===== src/Worker/Vetted.antt =====
-- What is destroyed after the first look of a run of `worker`.
use mathlib.Core.List.{Memᴰ}
use remnanode_xhttp_cleaner.Base.{ℕ, ◌≡◌, refl, Bool, true, false, some, List, [], ◌∷◌, ◌++◌, ok}
use remnanode_xhttp_cleaner.Base.Exec.{after-bind}
use remnanode_xhttp_cleaner.Config.{Config}
use remnanode_xhttp_cleaner.Socket.{SocketRecord, same_identity, Kind}
use remnanode_xhttp_cleaner.Listener.{XhttpListener}
use remnanode_xhttp_cleaner.Candidate.{candidate_kind}
use remnanode_xhttp_cleaner.Candidate.Rules.{IsOwnedQuiet, IsReapable, candidate_kind_iff}
use remnanode_xhttp_cleaner.Worker.{
  Kernel, Event, dumped, client_opened, Progress, recheck_all, inodes_read, slept, queried,
  destroyed, Run, Candidate, apply_all, sleep, owned_socket_inodes, listening,
  activity_recheck_seconds,
}
use remnanode_xhttp_cleaner.Worker.Trace.{
  reported, Destroys, Destroys-map, IsJustified, IsSafe, recheck_all-IsSafe,
}

-- Why the socket `r` may be destroyed after the events `before` (the newest first).
pub record IsVetted (config : Config) (ls : List XhttpListener) (r : SocketRecord)
    (before : List Event) : Type 0 where
  -- the socket of the first look, and the kind under which it was chosen
  pub original : SocketRecord
  pub kind : Kind
  -- what the process owned at the two looks, and the ports on which it listened
  pub owned_before : List ℕ
  pub owned_now : List ℕ
  pub ports : List ℕ
  -- the events between the second reading of the inodes and the query, and those before the wait
  pub since : List Event
  pub looked : List Event
  pub in_order :
      before
      ≡ queried original (ok (some r))
        ∷ (since
            ++ inodes_read (ok owned_now)
              ∷ slept activity_recheck_seconds
              ∷ (looked ++ inodes_read (ok owned_before) ∷ []))
  -- the first dump reported the socket, and the ports are those on which the process listened
  pub was_reported : Memᴰ original (reported looked)
  pub are_listened : ports ≡ listening owned_before (reported looked)
  -- the same inode and the same kernel cookie
  pub same : same_identity r original ≡ true
  pub quiet_then : IsOwnedQuiet original owned_before ports config ls
  pub reapable_then : IsReapable original owned_before ports config ls kind
  pub quiet_now : IsOwnedQuiet r owned_now ports config ls
  pub reapable_now : IsReapable r owned_now ports config ls kind

-- Nothing is destroyed.
abbrev pub IsUntouched : List Event → Type 0
IsUntouched = Destroys (λ r before. ⊥)

pub IsUntouched-append :
    (xs ys : List Event) → IsUntouched xs → IsUntouched ys → IsUntouched (xs ++ ys)
IsUntouched-append [] ys h h' = h'
IsUntouched-append (destroyed r answer ∷ xs) ys h h' = absurd h.0
IsUntouched-append (inodes_read answer ∷ xs) ys h h' = IsUntouched-append xs ys h h'
IsUntouched-append (client_opened ∷ xs) ys h h' = IsUntouched-append xs ys h h'
IsUntouched-append (dumped states family found ∷ xs) ys h h' = IsUntouched-append xs ys h h'
IsUntouched-append (slept n ∷ xs) ys h h' = IsUntouched-append xs ys h h'
IsUntouched-append (queried r answer ∷ xs) ys h h' = IsUntouched-append xs ys h h'

module _ {W : Type 0} (k : Kernel W) (pid : ℕ) (config : Config) (ls : List XhttpListener) where
  abbrev pub IsVettedRun : List Event → Type 0
  IsVettedRun = Destroys (IsVetted config ls)

  pub untouched-IsVettedRun : (trace : List Event) → IsUntouched trace → IsVettedRun trace
  untouched-IsVettedRun trace = Destroys-map _ _ trace (λ r before never. absurd never)

  module _ (owned : List ℕ) (looked : List Event) where
    abbrev ports : List ℕ
    ports = listening owned (reported looked)

    -- The trace of the first look.
    abbrev first_look : List Event
    first_look = looked ++ inodes_read (ok owned) ∷ []

    abbrev AreChosen : List Candidate → Type 0
    AreChosen cs =
        (c : Candidate)
        → Memᴰ c cs
        → Memᴰ c.socket (reported looked)
          × (candidate_kind c.socket owned ports config ls ≡ some c.kind)

    justified-IsVetted :
        (owned_now : List ℕ) (cs : List Candidate) (r : SocketRecord) (before : List Event)
        → AreChosen cs
        → IsJustified owned_now ports config ls cs
            (inodes_read (ok owned_now) ∷ slept activity_recheck_seconds ∷ first_look)
            r
            before
        → IsVetted config ls r before
    justified-IsVetted owned_now cs r before chosen j =
        let then_ok =
          (candidate_kind_iff j.original.socket owned ports config ls j.original.kind).0
            (chosen j.original j.was_chosen).1 in
        let now_ok = (candidate_kind_iff r owned_now ports config ls j.original.kind).0 j.again in
        record {
          original = j.original.socket;
          kind = j.original.kind;
          owned_before = owned;
          owned_now = owned_now;
          ports = ports;
          since = j.since;
          looked = looked;
          in_order = j.just_queried;
          was_reported = (chosen j.original j.was_chosen).0;
          are_listened = refl;
          same = j.same;
          quiet_then = then_ok.0;
          reapable_then = then_ok.1;
          quiet_now = now_ok.0;
          reapable_now = now_ok.1;
        }

    second_look-IsVettedRun :
        (cs : List Candidate) (p : Progress) (owned_now : List ℕ) (s : Run W)
        → AreChosen cs
        → s.trace ≡ inodes_read (ok owned_now) ∷ slept activity_recheck_seconds ∷ first_look
        → IsUntouched first_look
        → IsVettedRun (recheck_all k owned_now ports config ls cs p s).1.trace
    second_look-IsVettedRun cs p owned_now s chosen e v =
        Destroys-map _ _ (recheck_all k owned_now ports config ls cs p s).1.trace
          (λ r before. justified-IsVetted owned_now cs r before chosen)
          (recheck_all-IsSafe owned_now ports config ls cs _ k cs p s (λ c m. m) begins).guarded
      where
        begins :
            IsSafe owned_now ports config ls cs
              (inodes_read (ok owned_now) ∷ slept activity_recheck_seconds ∷ first_look)
              s.trace
        begins = record {
          since = [];
          from_base = e;
          guarded = rw e (Destroys-map _ _ first_look (λ r before never. absurd never) v);
        }

    pub apply_all-IsVettedRun :
        (cs : List Candidate) (apply : Bool) (s : Run W)
        → AreChosen cs
        → s.trace ≡ first_look
        → IsUntouched first_look
        → IsVettedRun (apply_all k pid ports config ls cs apply s).1.trace
    unfolding apply_all
    apply_all-IsVettedRun cs false s chosen e v = rw e (untouched-IsVettedRun first_look v)
    apply_all-IsVettedRun [] true s chosen e v =
        after-bind (λ t. IsVettedRun t.trace) (owned_socket_inodes k pid) _ s
          (λ owned_now _. rw e (untouched-IsVettedRun first_look v))
          (λ x _. rw e (untouched-IsVettedRun first_look v))
    apply_all-IsVettedRun (c ∷ cs) true s chosen e v =
        after-bind (λ t. IsVettedRun t.trace) (sleep k activity_recheck_seconds) _ s
          (λ _ _.
            after-bind (λ t. IsVettedRun t.trace) (owned_socket_inodes k pid) _ _
              (λ owned_now e2.
                second_look-IsVettedRun (c ∷ cs) _ owned_now _ chosen (rw (e2, e) refl) v)
              (λ x _. rw e (untouched-IsVettedRun first_look v)))
          (λ x _. rw e (untouched-IsVettedRun first_look v))
