-- ===== src/Worker/Safety.antt =====
-- What is destroyed in a whole run of `worker`.
use remnanode_xhttp_cleaner.Base.{
  ℕ, ◌≡◌, refl, Bool, List, [], ◌∷◌, ◌++◌, append_assoc, arith, ap, sym, ◌∙◌, Outcome, ok, err,
}
use remnanode_xhttp_cleaner.Base.Exec.{after-bind, bind_cases}
use remnanode_xhttp_cleaner.Config.{Config}
use remnanode_xhttp_cleaner.Socket.{SocketRecord, af_inet, af_inet6}
use remnanode_xhttp_cleaner.Listener.{XhttpListener}
use remnanode_xhttp_cleaner.Candidate.{diagnostic_states}
use remnanode_xhttp_cleaner.Worker.{
  Kernel, Event, dumped, client_opened, inodes_read, slept, queried, destroyed, Run, worker,
  apply_all, dump_all, dump_states, owned_socket_inodes, open_client, dump, listening, choose_all,
  sort_by_idle,
}
use remnanode_xhttp_cleaner.Worker.Trace.{reported}
use remnanode_xhttp_cleaner.Worker.Chosen.{candidates-mem}
use remnanode_xhttp_cleaner.Worker.Vetted.{
  IsUntouched, IsUntouched-append, IsVettedRun, untouched-IsVettedRun, apply_all-IsVettedRun,
}

module _ {W : Type 0} (k : Kernel W) (pid : ℕ) (config : Config) (ls : List XhttpListener) where
  -- What a dump that begins in `s` leaves in the trace, and what it returns.
  record Dumped (s : Run W) (result : Outcome (List SocketRecord) × Run W) : Type 0 where
    events : List Event
    adds : result.1.trace ≡ events ++ s.trace
    untouched : IsUntouched events
    reports : (records : List SocketRecord) → result.0 ≡ ok records → reported events ≡ records

  dump_states-Dumped : (states : List ℕ) (s : Run W) → Dumped s (dump_states k states s)
  unfolding dump_states
  dump_states-Dumped [] s = record {
    events = [];
    adds = refl;
    untouched = tt;
    reports = λ records e. ground arith;
  }
  dump_states-Dumped (st ∷ states) s =
      bind_cases (Dumped s) (dump k (st ∷ states) af_inet) _ s
        (λ r4 e4.
          bind_cases (Dumped s) (dump k (st ∷ states) af_inet6) _ _
            (λ r6 e6. record {
              events =
                  dumped (st ∷ states) af_inet6 (ok r6) ∷ dumped (st ∷ states) af_inet (ok r4) ∷ [];
              adds = rw (e4, e6) refl;
              untouched = tt;
              reports = λ records e. ground arith;
            })
            (λ x e6. record {
              events =
                  dumped (st ∷ states) af_inet6 (err x) ∷ dumped (st ∷ states) af_inet (ok r4) ∷ [];
              adds = rw (e4, e6) refl;
              untouched = tt;
              reports = λ records e. absurd (ground arith);
            }))
        (λ x e4. record {
          events = dumped (st ∷ states) af_inet (err x) ∷ [];
          adds = rw e4 refl;
          untouched = tt;
          reports = λ records e. absurd (ground arith);
        })

  dump_all-Dumped : (s : Run W) → Dumped s (dump_all k config s)
  unfolding dump_all
  dump_all-Dumped s = dump_states-Dumped (diagnostic_states config) s

  reported-append : (xs ys : List Event) → reported ys ≡ [] → reported (xs ++ ys) ≡ reported xs
  reported-append [] ys e = e
  reported-append (destroyed r answer ∷ xs) ys e = reported-append xs ys e
  reported-append (inodes_read answer ∷ xs) ys e = reported-append xs ys e
  reported-append (client_opened ∷ xs) ys e = reported-append xs ys e
  reported-append (dumped states family (ok rs) ∷ xs) ys e =
      ap (λ l. l ++ rs) (reported-append xs ys e)
  reported-append (dumped states family (err x) ∷ xs) ys e = reported-append xs ys e
  reported-append (slept n ∷ xs) ys e = reported-append xs ys e
  reported-append (queried r answer ∷ xs) ys e = reported-append xs ys e

  -- The first look is over: the state `t` after the dumps, which found `records`.
  record Looked (owned : List ℕ) (records : List SocketRecord) (t : Run W) : Type 0 where
    looked : List Event
    shape : t.trace ≡ looked ++ inodes_read (ok owned) ∷ []
    quiet : IsUntouched (looked ++ inodes_read (ok owned) ∷ [])
    found : records ≡ reported looked

  Dumped-Looked :
      (owned : List ℕ) (records : List SocketRecord) (s : Run W)
      (result : Outcome (List SocketRecord) × Run W)
      → s.trace ≡ client_opened ∷ inodes_read (ok owned) ∷ []
      → result.0 ≡ ok records
      → Dumped s result
      → Looked owned records result.1
  Dumped-Looked owned records s result e r d = record {
    looked = d.events ++ client_opened ∷ [];
    shape = rw (d.adds, e, append_assoc) refl;
    quiet =
        IsUntouched-append (d.events ++ client_opened ∷ []) (inodes_read (ok owned) ∷ [])
          (IsUntouched-append d.events (client_opened ∷ []) d.untouched tt) tt;
    found = sym (reported-append d.events (client_opened ∷ []) refl ∙ d.reports records r);
  }

  after_dump-IsVettedRun :
      (owned : List ℕ) (records : List SocketRecord) (apply : Bool) (t : Run W)
      → Looked owned records t
      → let listen_ports = listening owned records in
        IsVettedRun k pid config ls
          (apply_all k pid listen_ports config ls
            (sort_by_idle (choose_all owned listen_ports config ls records))
            apply
            t).1.trace
  after_dump-IsVettedRun owned records apply t l = rw l.found (
      apply_all-IsVettedRun k pid config ls owned l.looked _ apply t
        (λ c.
          (candidates-mem owned (listening owned (reported l.looked)) config ls (reported l.looked)
            c).0)
        l.shape l.quiet)

  failed_dump-IsVettedRun :
      (owned : Outcome (List ℕ)) (s : Run W) (result : Outcome (List SocketRecord) × Run W)
      → s.trace ≡ client_opened ∷ inodes_read owned ∷ []
      → Dumped s result
      → IsVettedRun k pid config ls result.1.trace
  failed_dump-IsVettedRun owned s result e d =
      rw (d.adds, e)
        (untouched-IsVettedRun k pid config ls (d.events ++ client_opened ∷ inodes_read owned ∷ [])
          (IsUntouched-append d.events (client_opened ∷ inodes_read owned ∷ []) d.untouched tt))

  -- Whatever the kernel answers and however the run ends, every destroyed socket was vetted.
  pub worker-IsVettedRun :
      (apply : Bool) (w : W)
      → IsVettedRun k pid config ls
          (worker k pid config apply ls (record { world = w; trace = [] })).1.trace
  unfolding worker
  worker-IsVettedRun apply w =
      after-bind (λ t. IsVettedRun k pid config ls t.trace) (owned_socket_inodes k pid) _ _
        (λ owned e1.
          after-bind (λ t. IsVettedRun k pid config ls t.trace) (open_client k) _ _
            (λ _ _.
              after-bind (λ t. IsVettedRun k pid config ls t.trace) (dump_all k config) _ _
                (λ records found.
                  let looked =
                    after_dump-IsVettedRun owned records apply _
                      (Dumped-Looked owned records _ _ (rw e1 refl) found (dump_all-Dumped _)) in
                  after-bind (λ t. IsVettedRun k pid config ls t.trace)
                    (apply_all k pid (listening owned records) config ls
                      (sort_by_idle (choose_all owned (listening owned records) config ls records))
                      apply)
                    _ _ (λ _ _. looked) (λ _ _. looked))
                (λ x _. failed_dump-IsVettedRun _ _ _ refl (dump_all-Dumped _)))
            (λ _ _. tt))
        (λ _ _. tt)
