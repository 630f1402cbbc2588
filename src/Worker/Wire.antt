-- ===== src/Worker/Wire.antt =====
-- The worker with the client: `DiagClient` as the kernel of the worker, and the datagrams that a run of
-- both sends.
use remnanode_xhttp_cleaner.Base.{
  ℕ, ◌≡◌, refl, Bool, true, false, Option, some, none, List, [], ◌∷◌, length, Outcome, err,
  Exception, sym, subst,
}
use remnanode_xhttp_cleaner.Base.Exec.{Exec}
use remnanode_xhttp_cleaner.Base.Exec.Keeps.{Keeps, keeps_rules}
use remnanode_xhttp_cleaner.Config.{Config}
use remnanode_xhttp_cleaner.Socket.{SocketRecord}
use remnanode_xhttp_cleaner.Listener.{XhttpListener}
use remnanode_xhttp_cleaner.Netlink.Bytes.{Bytes}
use remnanode_xhttp_cleaner.Netlink.Client.{DiagClient, Arrival, dump, query_exact, destroy}
use remnanode_xhttp_cleaner.Netlink.Client.Listed.{
  ids_on_wire, Keeps-client_dump, Keeps-client_query, IsListed, destroy-IsListed,
}
use remnanode_xhttp_cleaner.Worker
use remnanode_xhttp_cleaner.Worker.Vetted.{IsVettedRun}
use remnanode_xhttp_cleaner.Worker.Safety.{worker-IsVettedRun}
use remnanode_xhttp_cleaner.Worker.{
  owned_socket_inodes, open_client, sleep, Kernel, Event, inodes_read, client_opened, dumped, slept,
  queried, destroyed, Run, Candidate, Progress, worker, dump_all, dump_states, apply_all,
  second_look, wait_if_any, recheck, recheck_all, finish_round,
}

-- The client of this process, and the world behind /proc and the clock.
pub record Wired (V : Type 0) : Type 0 where
  pub client : DiagClient
  pub beyond : V

module _ {V : Type 0} (pid : ℕ) (answers : List Bytes → Outcome (List Arrival))
    (inodes : ℕ → V → Outcome (List ℕ) × V) (pause : ℕ → V → Outcome (Unit {0}) × V)
    (opened : V → Outcome (Unit {0}) × V) (now : V → ℕ) where
  abbrev on_client : {A : Type 0} → Exec DiagClient A → Exec (Wired V) A
  on_client step w = let (answer, c) = step w.client in (answer, record w { client = c })

  abbrev beyond_client : {A : Type 0} → Exec V A → Exec (Wired V) A
  beyond_client step w = let (answer, v) = step w.beyond in (answer, record w { beyond = v })

  -- A new socket: the sequence number starts from the clock, and nothing waits to be read.
  abbrev fresh : Wired V → Wired V
  fresh w = record w { client = record w.client { sequence = now w.beyond; inbox = [] } }

  abbrev pub client_kernel : Kernel (Wired V)
  client_kernel = record {
    owned_socket_inodes = λ p. beyond_client (inodes p);
    open_client = λ w. beyond_client opened (fresh w);
    dump = λ states family. on_client (dump pid answers states family);
    query_exact = λ r. on_client (query_exact pid answers r);
    destroy = λ r. on_client (destroy pid answers r);
    sleep = λ n. beyond_client (pause n);
  }

-- The ids in the requests to destroy that are on the wire, for the calls of a trace, both with the
-- newest first. A call of `destroy` puts the id of its socket on the wire, which has 48 bytes; only a
-- call that ended in an exception may have put nothing there. No other call puts one there.
pub data IsSentFor : List Event → List Bytes → Type 0 where
  nothing : IsSentFor [] []
  put_on_wire :
      (r : SocketRecord) (answer : Outcome Bool) {older : List Event} {ids : List Bytes}
      → length r.sockid ≡ 48
      → IsSentFor older ids
      → IsSentFor (destroyed r answer ∷ older) (r.sockid ∷ ids)
  not_sent :
      (r : SocketRecord) (e : Exception) {older : List Event} {ids : List Bytes}
      → IsSentFor older ids
      → IsSentFor (destroyed r (err e) ∷ older) ids
  after_inodes :
      (answer : Outcome (List ℕ)) {older : List Event} {ids : List Bytes}
      → IsSentFor older ids
      → IsSentFor (inodes_read answer ∷ older) ids
  after_open :
      {older : List Event} {ids : List Bytes}
      → IsSentFor older ids
      → IsSentFor (client_opened ∷ older) ids
  after_dump :
      (states : List ℕ) (family : ℕ) (answer : Outcome (List SocketRecord)) {older : List Event}
      {ids : List Bytes}
      → IsSentFor older ids
      → IsSentFor (dumped states family answer ∷ older) ids
  after_sleep :
      (n : ℕ) {older : List Event} {ids : List Bytes}
      → IsSentFor older ids
      → IsSentFor (slept n ∷ older) ids
  after_query :
      (r : SocketRecord) (answer : Outcome (Option SocketRecord)) {older : List Event}
      {ids : List Bytes}
      → IsSentFor older ids
      → IsSentFor (queried r answer ∷ older) ids

listed-IsSentFor :
    (r : SocketRecord) (older : List Event) (ids after : List Bytes) (answer : Outcome Bool)
    → IsListed r ids answer after
    → IsSentFor older ids
    → IsSentFor (destroyed r answer ∷ older) after
listed-IsSentFor r older ids _ answer (IsListed.put_on_wire whole) h = put_on_wire r answer whole h
listed-IsSentFor r older ids _ _ (IsListed.not_sent e) h = not_sent r e h

module _ {V : Type 0} (pid : ℕ) (answers : List Bytes → Outcome (List Arrival))
    (inodes : ℕ → V → Outcome (List ℕ) × V) (pause : ℕ → V → Outcome (Unit {0}) × V)
    (opened : V → Outcome (Unit {0}) × V) (now : V → ℕ) where
  abbrev k : Kernel (Wired V)
  k = client_kernel pid answers inodes pause opened now

  -- The requests on the wire are those of the trace.
  abbrev Agree : Run (Wired V) → Type 0
  Agree s = IsSentFor s.trace (ids_on_wire s.world.client.sent)

  Keeps-inodes : (p : ℕ) → Keeps Agree (owned_socket_inodes k p)
  Keeps-inodes p = record { at = λ s h. after_inodes _ h }

  Keeps-open : Keeps Agree (open_client k)
  Keeps-open = record { at = λ s h. after_open h }

  Keeps-sleep : (n : ℕ) → Keeps Agree (sleep k n)
  Keeps-sleep n = record { at = λ s h. after_sleep n h }

  -- The list of requests to destroy after a step that only asks.
  same_list :
      (trace : List Event) {before after : List Bytes}
      → after ≡ before
      → IsSentFor trace before
      → IsSentFor trace after
  same_list trace e h = subst (IsSentFor trace) (sym e) h

  Keeps-dump : (states : List ℕ) (family : ℕ) → Keeps Agree (Worker.dump k states family)
  Keeps-dump states family = record {
    at = λ s h.
        let kept = Keeps-client_dump pid answers (ids_on_wire s.world.client.sent) states family in
        same_list _ (kept.at s.world.client refl) (after_dump states family _ h);
  }

  Keeps-query : (r : SocketRecord) → Keeps Agree (Worker.query_exact k r)
  Keeps-query r = record {
    at = λ s h.
        let kept = Keeps-client_query pid answers (ids_on_wire s.world.client.sent) r in
        same_list _ (kept.at s.world.client refl) (after_query r _ h);
  }

  Keeps-destroy : (r : SocketRecord) → Keeps Agree (Worker.destroy k r)
  Keeps-destroy r = record {
    at = λ s h. listed-IsSentFor r s.trace _ _ _ (destroy-IsListed pid answers r s.world.client) h;
  }

  Keeps-dump_states : (states : List ℕ) → Keeps Agree (dump_states k states)
  unfolding dump_states
  Keeps-dump_states [] = search (keeps_rules)
  Keeps-dump_states (state ∷ states) = search (Keeps-dump, keeps_rules) depth 20

  module _ (config : Config) (ls : List XhttpListener) (ports : List ℕ) where
    Keeps-finish_round :
        (c : Candidate) (found : Option SocketRecord) (p : Progress)
        → Keeps Agree (finish_round k c found p)
    unfolding finish_round
    Keeps-finish_round c none p = search (keeps_rules)
    Keeps-finish_round c (some current) p = search (Keeps-destroy, keeps_rules)

    Keeps-recheck_all :
        (owned : List ℕ) (chosen : List Candidate) (p : Progress)
        → Keeps Agree (recheck_all k owned ports config ls chosen p)
    unfolding recheck_all recheck
    Keeps-recheck_all owned [] p = search (keeps_rules)
    Keeps-recheck_all owned (c ∷ chosen) p =
        search (Keeps-query, Keeps-finish_round, Keeps-recheck_all owned chosen, keeps_rules) depth
          20

    Keeps-wait : (chosen : List Candidate) → Keeps Agree (wait_if_any k chosen)
    unfolding wait_if_any
    Keeps-wait [] = search (keeps_rules)
    Keeps-wait (c ∷ chosen) = Keeps-sleep 30

    Keeps-apply_all :
        (p : ℕ) (chosen : List Candidate) (apply : Bool)
        → Keeps Agree (apply_all k p ports config ls chosen apply)
    unfolding apply_all second_look
    Keeps-apply_all p chosen false = search (keeps_rules)
    Keeps-apply_all p chosen true =
        search (Keeps-wait, Keeps-inodes, Keeps-recheck_all, keeps_rules) depth 20

  Keeps-worker :
      (p : ℕ) (config : Config) (apply : Bool) (ls : List XhttpListener)
      → Keeps Agree (worker k p config apply ls)
  unfolding worker dump_all
  Keeps-worker p config apply ls =
      search (Keeps-inodes, Keeps-open, Keeps-dump_states, Keeps-apply_all, keeps_rules) depth 20

  -- In a run of the worker over the client, however the kernel answers, calls fail and the run ends,
  -- the socket ids in the SOCK_DESTROY requests among all datagrams that were sent are, in order, ids
  -- of 48 bytes with which the worker has called `destroy`, and only a call that raised an exception
  -- may be missing there; and the worker has called it only for sockets that were candidates in both
  -- looks. No such request was sent before the run.
  pub worker-IsOnWire :
      (p : ℕ) (config : Config) (apply : Bool) (ls : List XhttpListener) (w : Wired V)
      → ids_on_wire w.client.sent ≡ []
      → IsSentFor (worker k p config apply ls (record { world = w; trace = [] })).1.trace (
          ids_on_wire
            (worker k p config apply ls (record { world = w; trace = [] })).1.world.client.sent)
        × IsVettedRun k p config ls
            (worker k p config apply ls (record { world = w; trace = [] })).1.trace
  worker-IsOnWire p config apply ls w none_sent = (
    (Keeps-worker p config apply ls).at (record { world = w; trace = [] })
        (same_list [] none_sent nothing),
    worker-IsVettedRun k p config ls apply w,
  )
