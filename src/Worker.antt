-- ===== src/Worker.antt =====
-- remnanode-xhttp-clean.py: `dump_all` and `worker`, the process that looks for idle sockets and,
-- with `--apply`, closes them. The kernel (/proc and the netlink client) is the interface `Kernel`
-- over an unknown state of the world. The run also keeps the trace of what it asked for, the newest
-- event first; the trace is read by the statements only.
pub mod Trace
pub mod Chosen
pub mod Vetted
pub mod Safety
pub mod Accounts
pub mod Wire
use mathlib.Core.List.{reverse}
use remnanode_xhttp_cleaner.Base.{
  ℕ, ◌+◌, Bool, true, false, not, ◌&&◌, Option, none, some, List, [], ◌∷◌, ◌++◌, map, ltb, leb,
  ◌==◌, contains, length, if◌then◌else◌, Outcome, ok, err,
}
use remnanode_xhttp_cleaner.Base.Exec.{Exec, pure, ◌>>=◌, ◌>>◌}
use remnanode_xhttp_cleaner.Base.Text.{Text}
use remnanode_xhttp_cleaner.Config.{Config}
use remnanode_xhttp_cleaner.Socket.{
  SocketRecord, same_identity, idle_ms, or_zero, Kind, close_wait, xhttp_buffer, inbound, outbound,
  tcp_listen, af_inet, af_inet6, Row, record_to_dict,
}
use remnanode_xhttp_cleaner.Listener.{XhttpListener, listener_endpoint}
use remnanode_xhttp_cleaner.Candidate.{candidate_kind, diagnostic_states}

-- The calls that leave the process. `dump`, `query_exact` and `destroy` are the methods of
-- `DiagClient`, and `open_client` is its constructor.
pub record Kernel (W : Type 0) : Type 0 where
  pub owned_socket_inodes : ℕ → W → Outcome (List ℕ) × W
  pub open_client : W → Outcome (Unit {0}) × W
  pub dump : List ℕ → ℕ → W → Outcome (List SocketRecord) × W
  pub query_exact : SocketRecord → W → Outcome (Option SocketRecord) × W
  pub destroy : SocketRecord → W → Outcome Bool × W
  pub sleep : ℕ → W → Outcome (Unit {0}) × W

-- A call of the kernel with its answer.
pub data Event : Type 0 where
  inodes_read : Outcome (List ℕ) → Event
  client_opened : Event
  dumped : List ℕ → ℕ → Outcome (List SocketRecord) → Event
  slept : ℕ → Event
  queried : SocketRecord → Outcome (Option SocketRecord) → Event
  destroyed : SocketRecord → Outcome Bool → Event

pub record Run (W : Type 0) : Type 0 where
  pub world : W
  pub trace : List Event

-- A socket with the kind under which it was chosen.
pub record Candidate : Type 0 where
  pub socket : SocketRecord
  pub kind : Kind

abbrev pub activity_recheck_seconds : ℕ
activity_recheck_seconds = 30

-- `kind == other`
unfoldable pub kind_eq : Kind → Kind → Bool
kind_eq close_wait close_wait = true
kind_eq xhttp_buffer xhttp_buffer = true
kind_eq inbound inbound = true
kind_eq outbound outbound = true
kind_eq _ _ = false

-- `set.add`
unfoldable pub add : ℕ → List ℕ → List ℕ
add n numbers = if contains numbers n then numbers else n ∷ numbers

-- The set comprehension of `listen_ports`.
unfoldable pub listening : List ℕ → List SocketRecord → List ℕ
unfolding add
listening owned [] = []
listening owned (r ∷ rs) =
    let ports = listening owned rs in
    if (r.state == tcp_listen) && contains owned r.inode then add r.local_port ports else ports

abbrev choose : SocketRecord → Option Kind → List Candidate → List Candidate
choose r none rest = rest
choose r (some kind) rest = record { socket = r; kind = kind } ∷ rest

-- The list comprehension of `candidates`.
unfoldable pub choose_all :
    List ℕ → List ℕ → Config → List XhttpListener → List SocketRecord → List Candidate
choose_all owned ports config ls [] = []
choose_all owned ports config ls (r ∷ rs) =
    choose r (candidate_kind r owned ports config ls) (choose_all owned ports config ls rs)

-- The sort key, `idle_ms or 0`
abbrev pub idle_key : Candidate → ℕ
idle_key c = or_zero (idle_ms c.socket)

pub insert : Candidate → List Candidate → List Candidate
insert c [] = c ∷ []
insert c (d ∷ ds) = if leb (idle_key d) (idle_key c) then c ∷ d ∷ ds else d ∷ insert c ds

-- `candidates.sort(key=…, reverse=True)`: stable, the longest idle first
unfoldable pub sort_by_idle : List Candidate → List Candidate
unfolding insert
sort_by_idle [] = []
sort_by_idle (c ∷ cs) = insert c (sort_by_idle cs)

insert_port : ℕ → List ℕ → List ℕ
insert_port p [] = p ∷ []
insert_port p (q ∷ qs) = if leb p q then p ∷ q ∷ qs else q ∷ insert_port p qs

-- `sorted(listen_ports)`
unfoldable pub sorted_ports : List ℕ → List ℕ
unfolding insert_port
sorted_ports [] = []
sorted_ports (p ∷ ps) = insert_port p (sorted_ports ps)

pub record WorkerResult : Type 0 where
  pub pid : ℕ
  pub owned_sockets : ℕ
  pub listen_ports : List ℕ
  pub xhttp_listeners : List Text
  pub candidates : List Row
  pub closed : List Row
  pub skipped_changed : ℕ

-- The variables of the loop over the candidates.
pub record Progress : Type 0 where
  pub closed : List Candidate
  pub skipped_changed : ℕ

abbrev pub row_of : Candidate → Row
row_of c = record_to_dict c.socket c.kind

abbrev is_kind : Option Kind → Kind → Bool
is_kind none kind = false
is_kind (some other) kind = kind_eq other kind

-- What the second look decides: the socket to destroy, if the answer of the kernel is the same
-- socket and it is still a candidate of the same kind.
unfoldable pub still_candidate :
    List ℕ
    → List ℕ
    → Config
    → List XhttpListener
    → Candidate
    → Option SocketRecord
    → Option SocketRecord
unfolding same_identity kind_eq
still_candidate owned ports config ls c none = none
still_candidate owned ports config ls c (some current) =
    if not (same_identity current c.socket)
    then none
    else if is_kind (candidate_kind current owned ports config ls) c.kind
    then some current
    else none

abbrev pub with_closed : Candidate → SocketRecord → Bool → Progress → Progress
with_closed c current true p = record p {
  closed = p.closed ++ record { socket = current; kind = c.kind } ∷ [];
}
with_closed c current false p = record p { skipped_changed = p.skipped_changed + 1 }

module _ {W : Type 0} (k : Kernel W) where
  -- Makes a call of the kernel and writes it into the trace.
  abbrev pub logged : {A : Type 0} → (W → Outcome A × W) → (Outcome A → Event) → Exec (Run W) A
  logged call event s =
      let (answer, w) = call s.world in
      (answer, record { world = w; trace = event answer ∷ s.trace })

  abbrev pub owned_socket_inodes : ℕ → Exec (Run W) (List ℕ)
  owned_socket_inodes pid = logged (k.owned_socket_inodes pid) inodes_read

  abbrev pub open_client : Exec (Run W) (Unit {0})
  open_client = logged k.open_client (λ _. client_opened)

  abbrev pub dump : List ℕ → ℕ → Exec (Run W) (List SocketRecord)
  dump states family = logged (k.dump states family) (dumped states family)

  abbrev pub query_exact : SocketRecord → Exec (Run W) (Option SocketRecord)
  query_exact r = logged (k.query_exact r) (queried r)

  abbrev pub destroy : SocketRecord → Exec (Run W) Bool
  destroy r = logged (k.destroy r) (destroyed r)

  abbrev pub sleep : ℕ → Exec (Run W) (Unit {0})
  sleep n = logged (k.sleep n) (λ _. slept n)

  pub dump_states : List ℕ → Exec (Run W) (List SocketRecord)
  dump_states [] = pure []
  dump_states (s ∷ states) = do
    records ← dump (s ∷ states) af_inet
    records6 ← dump (s ∷ states) af_inet6
    pure (records ++ records6)

  unfoldable pub dump_all : Config → Exec (Run W) (List SocketRecord)
  unfolding dump_states
  dump_all config = dump_states (diagnostic_states config)

  -- The end of one round of the loop.
  unfoldable pub finish_round : Candidate → Option SocketRecord → Progress → Exec (Run W) Progress
  finish_round c none p = pure (record p { skipped_changed = p.skipped_changed + 1 })
  finish_round c (some current) p = do gone ← destroy current; pure (with_closed c current gone p)

  module _ (owned ports : List ℕ) (config : Config) (ls : List XhttpListener) where
    -- One round of the loop over the candidates.
    unfoldable pub recheck : Candidate → Progress → Exec (Run W) Progress
    unfolding still_candidate finish_round
    recheck c p = do
      current ← query_exact c.socket
      finish_round c (still_candidate owned ports config ls c current) p

    unfoldable pub recheck_all : List Candidate → Progress → Exec (Run W) Progress
    unfolding recheck
    recheck_all [] p = pure p
    recheck_all (c ∷ cs) p = do p' ← recheck c p; recheck_all cs p'

  -- `if candidates: time.sleep(ACTIVITY_RECHECK_SECONDS)`
  pub wait_if_any : List Candidate → Exec (Run W) (Unit {0})
  wait_if_any [] = pure tt
  wait_if_any (c ∷ cs) = sleep activity_recheck_seconds

  -- The second look: the ownership is read anew, then each candidate is asked for.
  pub second_look :
      ℕ → List ℕ → Config → List XhttpListener → List Candidate → Exec (Run W) Progress
  unfolding recheck_all
  second_look pid ports config ls candidates = do
    owned_now ← owned_socket_inodes pid
    recheck_all owned_now ports config ls candidates (record { closed = []; skipped_changed = 0 })

  -- `if apply: …`
  unfoldable pub apply_all :
      ℕ → List ℕ → Config → List XhttpListener → List Candidate → Bool → Exec (Run W) Progress
  unfolding second_look wait_if_any
  apply_all pid ports config ls candidates false =
      pure (record { closed = []; skipped_changed = 0 })
  apply_all pid ports config ls candidates true = do
    wait_if_any candidates
    second_look pid ports config ls candidates

  unfoldable pub worker : ℕ → Config → Bool → List XhttpListener → Exec (Run W) WorkerResult
  unfolding dump_all choose_all listening sort_by_idle apply_all sorted_ports
  worker pid config apply ls = do
    owned_before ← owned_socket_inodes pid
    open_client
    records ← dump_all config
    let listen_ports = listening owned_before records
    let candidates = sort_by_idle (choose_all owned_before listen_ports config ls records)
    progress ← apply_all pid listen_ports config ls candidates apply
    pure (record {
      pid = pid;
      owned_sockets = length owned_before;
      listen_ports = sorted_ports listen_ports;
      xhttp_listeners = map listener_endpoint ls;
      candidates = map row_of candidates;
      closed = map row_of progress.closed;
      skipped_changed = progress.skipped_changed;
    })
