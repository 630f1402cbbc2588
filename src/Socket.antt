-- ===== src/Socket.antt =====
-- remnanode-xhttp-clean.py: the constants of the socket states, class `SocketRecord` with its
-- properties, and `record_to_dict`.
use remnanode_xhttp_cleaner.Base.{
  ℕ, suc, ◌/◌, Bool, ◌&&◌, Option, none, some, List, ◌++◌, min, ◌==◌, if◌then◌else◌,
}
use remnanode_xhttp_cleaner.Base.Text.{Text, codes}
use remnanode_xhttp_cleaner.Address.Print.{decimal, hex8}

abbrev pub tcp_established : ℕ
tcp_established = 1

abbrev pub tcp_close_wait : ℕ
tcp_close_wait = 8

abbrev pub tcp_listen : ℕ
tcp_listen = 10

-- `socket.AF_INET` and `socket.AF_INET6` on Linux
abbrev pub af_inet : ℕ
af_inet = 2

abbrev pub af_inet6 : ℕ
af_inet6 = 10

pub record SocketRecord : Type 0 where
  pub family : ℕ
  pub state : ℕ
  pub local_address : Text
  pub local_port : ℕ
  pub remote_address : Text
  pub remote_port : ℕ
  pub interface : ℕ
  pub cookie : ℕ × ℕ
  pub inode : ℕ
  pub recv_queue : ℕ
  pub send_queue : ℕ
  pub last_sent_ms : Option ℕ
  pub last_received_ms : Option ℕ
  pub sockid : List ℕ

abbrev inactive : Option ℕ → Option ℕ → Option ℕ
inactive (some (suc a)) (some (suc b)) = some (min (suc a) (suc b))
inactive _ _ = none

-- `not x` holds of `None` and of 0.
unfoldable pub idle_ms : SocketRecord → Option ℕ
idle_ms r = inactive r.last_sent_ms r.last_received_ms

-- `current.identity == original.identity`: the inode and both halves of the kernel cookie
unfoldable pub same_identity : SocketRecord → SocketRecord → Bool
same_identity r s = (r.inode == s.inode) && (r.cookie.0 == s.cookie.0) && (r.cookie.1 == s.cookie.1)

unfoldable pub endpoint : SocketRecord → Text → ℕ → Text
unfolding decimal
endpoint r address port =
    if r.family == af_inet6
    then codes "[" ++ address ++ codes "]:" ++ decimal port
    else address ++ codes ":" ++ decimal port

-- The four values that `candidate_kind` returns as text.
pub data Kind : Type 0 where
  close_wait xhttp_buffer inbound outbound : Kind

unfoldable pub kind_text : Kind → Text
kind_text close_wait = codes "CLOSE-WAIT"
kind_text xhttp_buffer = codes "XHTTP-BUFFER"
kind_text inbound = codes "INBOUND"
kind_text outbound = codes "OUTBOUND"

-- `STATE_NAMES.get(state, str(state))`
unfoldable pub state_name : ℕ → Text
unfolding decimal
state_name s =
    if s == tcp_established
    then codes "ESTABLISHED"
    else if s == tcp_close_wait
    then codes "CLOSE-WAIT"
    else if s == tcp_listen
    then codes "LISTEN"
    else decimal s

abbrev pub or_zero : Option ℕ → ℕ
or_zero none = 0
or_zero (some n) = n

-- The dictionary that the worker prints for a socket.
pub record Row : Type 0 where
  pub kind : Text
  pub state : Text
  pub local : Text
  pub remote : Text
  pub idle_seconds : ℕ
  pub inode : ℕ
  pub cookie : Text
  pub recv_queue : ℕ
  pub send_queue : ℕ

unfoldable pub record_to_dict : SocketRecord → Kind → Row
unfolding kind_text state_name endpoint idle_ms hex8
record_to_dict r kind = record {
  kind = kind_text kind;
  state = state_name r.state;
  local = endpoint r r.local_address r.local_port;
  remote = endpoint r r.remote_address r.remote_port;
  idle_seconds = or_zero (idle_ms r) / 1000;
  inode = r.inode;
  cookie = hex8 r.cookie.0 ++ codes ":" ++ hex8 r.cookie.1;
  recv_queue = r.recv_queue;
  send_queue = r.send_queue;
}
