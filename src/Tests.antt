-- ===== src/Tests.antt =====
-- Runs of the definitions at concrete inputs, and the theorems applied to them.
mod Messages
mod Patches
mod Whole
mod CoreManager
mod Node
mod Codec
mod Cleaner
mod Wire
use mathlib.Core.List.{Memᴰ, flatten}
use mathlib.Core.List.Memᴰ
use mathlib.Core.Logic.{◌↔◌}
use remnanode_xhttp_cleaner.Base.{
  ℕ, suc, ◌+◌, ◌^◌, ◌≡◌, refl, Bool, true, false, inl, inr, Option, none, some, List, [], ◌∷◌, ◌++◌,
  map, arith, All, length, if◌then◌else◌, ◌==◌, Outcome, ok, err,
}
use remnanode_xhttp_cleaner.Base.Int.{pos}
use remnanode_xhttp_cleaner.Base.Text.{Text, codes}
use remnanode_xhttp_cleaner.Json.{Json, dict, field, end, int, str, list, item, nil}
use remnanode_xhttp_cleaner.Listener.{
  XhttpListener, int_of, parse_xhttp_listeners, listeners_loop, read_inbound, has_key,
}
use remnanode_xhttp_cleaner.Listener.Keys.{IsGood}
use remnanode_xhttp_cleaner.Listener.Complete.{key, qualified_in, parse_xhttp_listeners-IsComplete}
use remnanode_xhttp_cleaner.Config.{Config, default, ConfigFile, holds, load, asdict}
use remnanode_xhttp_cleaner.Config.Validation.{IsValid, load-IsValid, load-asdict}
use remnanode_xhttp_cleaner.Socket.{
  SocketRecord, Kind, close_wait, record_to_dict, tcp_close_wait, af_inet,
}
use remnanode_xhttp_cleaner.Candidate.{candidate_kind, diagnostic_states}
use remnanode_xhttp_cleaner.Candidate.Rules.{IsOwnedQuiet, IsReapable, candidate_kind_iff}
use remnanode_xhttp_cleaner.Worker.{
  Kernel, Run, Candidate, WorkerResult, worker, sort_by_idle, choose_all,
}
use remnanode_xhttp_cleaner.Worker.Chosen.{
  IsChosen, IsFalling, candidates-mem, sort_by_idle-IsFalling,
}
use remnanode_xhttp_cleaner.Worker.Vetted.{IsVettedRun}
use remnanode_xhttp_cleaner.Worker.Safety.{worker-IsVettedRun}
use remnanode_xhttp_cleaner.Worker.Accounts.{confirmed, IsLooking, worker_accounts, worker_dry_run}

-- A connection that the peer has closed, idle for 400 seconds.
abbrev closing : SocketRecord
closing = record {
  family = af_inet;
  state = tcp_close_wait;
  local_address = codes "10.0.0.1";
  local_port = 443;
  remote_address = codes "10.0.0.2";
  remote_port = 50000;
  interface = 0;
  cookie = (5, 6);
  inode = 7;
  recv_queue = 0;
  send_queue = 0;
  last_sent_ms = some 400000;
  last_received_ms = some 500000;
  sockid = [];
}

-- A kernel that reports this connection and confirms that it is destroyed. It counts the calls of
-- `destroy`.
abbrev test_kernel : Kernel ℕ
test_kernel = record {
  owned_socket_inodes = λ pid w. (ok (7 ∷ []), w);
  open_client = λ w. (ok tt, w);
  dump = λ states family w. (ok (if family == af_inet then closing ∷ [] else []), w);
  query_exact = λ r w. (ok (some r), w);
  destroy = λ r w. (ok true, suc w);
  sleep = λ n w. (ok tt, w);
}

abbrev chosen : Candidate
chosen = record { socket = closing; kind = close_wait }

abbrev start : Run ℕ
start = record { world = 0; trace = [] }

abbrev test_result : WorkerResult
test_result = record {
  pid = 1;
  owned_sockets = 1;
  listen_ports = [];
  xhttp_listeners = [];
  candidates = record_to_dict closing close_wait ∷ [];
  closed = record_to_dict closing close_wait ∷ [];
  skipped_changed = 0;
}

worker_returns : (worker test_kernel 1 default true [] start).0 ≡ ok test_result
unfolding worker diagnostic_states candidate_kind
worker_returns = refl

worker-IsVettedRun_example :
    IsVettedRun test_kernel 1 default [] (worker test_kernel 1 default true [] start).1.trace
worker-IsVettedRun_example = worker-IsVettedRun test_kernel 1 default [] true 0

worker_accounts_example :
    (length test_result.closed + test_result.skipped_changed ≡ length test_result.candidates)
    × (length test_result.closed ≡ confirmed (worker test_kernel 1 default true [] start).1.trace)
worker_accounts_example = worker_accounts test_kernel 1 default [] 0 test_result worker_returns

worker_dry_run_example : IsLooking (worker test_kernel 1 default false [] start).1.trace
worker_dry_run_example = worker_dry_run test_kernel 1 default [] 0

candidate_kind_iff_example : (candidate_kind closing (7 ∷ []) [] default [] ≡ some close_wait) ↔ (
    IsOwnedQuiet closing (7 ∷ []) [] default []
    × IsReapable closing (7 ∷ []) [] default [] close_wait)
candidate_kind_iff_example = candidate_kind_iff closing (7 ∷ []) [] default [] close_wait

candidates-mem_example :
    Memᴰ chosen (sort_by_idle (choose_all (7 ∷ []) [] default [] (closing ∷ [])))
    ↔ (Memᴰ closing (closing ∷ []) × IsChosen (7 ∷ []) [] default [] chosen)
candidates-mem_example = candidates-mem (7 ∷ []) [] default [] (closing ∷ []) chosen

sort_by_idle-IsFalling_example : IsFalling (sort_by_idle (chosen ∷ chosen ∷ []))
sort_by_idle-IsFalling_example = sort_by_idle-IsFalling (chosen ∷ chosen ∷ [])

abbrev settings : ConfigFile
settings = holds (dict (field (codes "idle_seconds") (int (pos 600)) end))

abbrev loaded : Config
loaded = record default { idle_seconds = 600 }

load-IsValid_example : IsValid loaded
load-IsValid_example = load-IsValid settings loaded (unfold load in refl)

default-IsValid : IsValid default
default-IsValid = record { named = λ e. cc; floor = omega arith }

default_reloads : load (holds (asdict default)) ≡ ok default
default_reloads = load-asdict default default-IsValid

-- One inbound on a TCP port, given twice, and one on a unix socket.
abbrev xhttp_stream : Json
xhttp_stream = dict (field (codes "network") (str (codes "XHTTP")) end)

abbrev on_port : Json
on_port =
    dict
      (field (codes "port") (str (codes " 443 ")) (field (codes "streamSettings") xhttp_stream end))

abbrev on_path : Json
on_path = dict (
    field (codes "port") (int (pos 443)) (
      field (codes "listen") (str (codes "/run/x.sock"))
        (field (codes "streamSettings") xhttp_stream end)))

abbrev rendered : Json
rendered =
    dict (field (codes "inbounds") (list (item on_port (item on_path (item on_port nil)))) end)

abbrev listener : XhttpListener
listener = record { address = []; port = 443; tag = [] }

listeners_read : parse_xhttp_listeners rendered ≡ ok (listener ∷ [])
unfolding parse_xhttp_listeners listeners_loop read_inbound has_key
listeners_read = refl

-- The digits of 443 in Arabic script.
script_digits_read : int_of (str (0x664 ∷ 0x664 ∷ 0x663 ∷ [])) ≡ ok (pos 443)
unfolding int_of
script_digits_read = refl

parse_xhttp_listeners-IsComplete_example :
    IsGood (listener ∷ [])
    × ((address : Text) (port : ℕ)
        → has_key address port (map key (listener ∷ []))
          ≡ has_key address port (map key (qualified_in rendered)))
parse_xhttp_listeners-IsComplete_example =
    parse_xhttp_listeners-IsComplete rendered (listener ∷ []) listeners_read
