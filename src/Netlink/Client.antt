-- ===== src/Netlink/Client.antt =====
-- Class `DiagClient`: requests, and the two loops that read the kernel's answers.
pub mod Scan
pub mod Receive
pub mod Request
pub mod Listed
use remnanode_xhttp_cleaner.Base.{
  ℕ, zero, suc, ◌+◌, ◌-◌, ◌*◌, ◌^◌, Bool, true, false, not, ◌&&◌, ◌||◌, Option, none, some, List,
  [], ◌∷◌, ◌++◌, ltb, ◌==◌, if◌then◌else◌, length, take, drop, Outcome, ok, err, Exception,
  cleaner_error, os_error, socket_timeout,
}
use remnanode_xhttp_cleaner.Base.Int.{ℤ, pos, negsuc}
use remnanode_xhttp_cleaner.Base.Exec.{Exec, pure, raise, ◌>>=◌}
use remnanode_xhttp_cleaner.Socket.{SocketRecord}
use remnanode_xhttp_cleaner.Candidate.{state_mask}
use remnanode_xhttp_cleaner.Netlink.Bytes.{Bytes, align4, u16, u32, pack16, pack32}
use remnanode_xhttp_cleaner.Netlink.Record.{parse_diag_record}

abbrev pub nlmsg_error : ℕ
nlmsg_error = 2

abbrev pub nlmsg_done : ℕ
nlmsg_done = 3

abbrev sock_diag_by_family : ℕ
sock_diag_by_family = 20

abbrev sock_destroy : ℕ
sock_destroy = 21

abbrev nlm_f_request : ℕ
nlm_f_request = 0x01

-- NLM_F_REQUEST | NLM_F_DUMP and NLM_F_REQUEST | NLM_F_ACK
abbrev dump_flags : ℕ
dump_flags = 0x301

abbrev ack_flags : ℕ
ack_flags = 0x05

abbrev zeros : ℕ → Bytes
zeros zero = []
zeros (suc n) = 0 ∷ zeros n

-- No socket and no cookie: forty zeros and INET_DIAG_NOCOOKIE twice.
abbrev pub any_sockid : Bytes
any_sockid = zeros 40 ++ pack32 0xffff_ffff ++ pack32 0xffff_ffff

abbrev or_any : Option Bytes → Bytes
or_any none = any_sockid
or_any (some sockid) = sockid

unfoldable pub request_payload : ℕ → ℕ → Option Bytes → Bool → Outcome Bytes
unfolding pack32
request_payload family states sockid request_info =
    let id = or_any sockid in
    if not (length id == 48)
    then err (cleaner_error "Некорректная длина inet_diag_sockid")
    else ok (family ∷ 6 ∷ (if request_info then 2 else 0) ∷ 0 ∷ [] ++ pack32 states ++ id)

-- One netlink message, as a loop reads it from the front of a datagram.
pub record Message : Type 0 where
  pub size : ℕ
  pub message_type : ℕ
  pub sequence : ℕ
  pub payload : Bytes

unfoldable pub read_message : Bytes → Message
unfolding u16 u32
read_message left = record {
  size = u32 left;
  message_type = u16 (drop 4 left);
  sequence = u32 (drop 8 left);
  payload = take (u32 left - 16) (drop 16 left);
}

-- What a loop does after a message: it reads on with its variables, it returns, or it raises.
pub data Verdict {ℓ} (S R : Type ℓ) : Type ℓ where
  goes_on : S → Verdict S R
  returns : R → Verdict S R
  raises : Exception → Verdict S R

abbrev pub resume {ℓ} : {S R : Type ℓ} → Verdict S R → (S → Verdict S R) → Verdict S R
resume (goes_on s) onward = onward s
resume (returns r) onward = returns r
resume (raises e) onward = raises e

-- The loop over the messages of one datagram, the same in both methods but for `step`. Each round
-- takes at least sixteen bytes, so as many rounds as bytes are enough.
module _ {S R : Type 0} (step : Message → S → Verdict S R) where
  unfoldable pub scan_datagram : ℕ → Bytes → S → Verdict S R
  scan_datagram zero left s = goes_on s
  scan_datagram (suc fuel) left s =
      let m = read_message left in
      let onward = λ (s' : S). scan_datagram fuel (drop (align4 m.size) left) s' in
      if ltb (length left) 16
      then goes_on s
      else if ltb m.size 16
      then raises (cleaner_error "Повреждённый netlink-ответ")
      else resume (step m s) onward

-- `struct.unpack_from("=i", …)`, negated: the errno of an NLMSG_ERROR
unfoldable pub errno_of : ℕ → ℤ
errno_of code =
    if ltb code (2 ^ 31)
    then (if code == 0 then pos 0 else negsuc (code - 1))
    else pos (2 ^ 32 - code)

abbrev pub enoent : ℕ
enoent = 2

abbrev pub esrch : ℕ
esrch = 3

abbrev is_gone : ℤ → Bool
is_gone (pos n) = (n == enoent) || (n == esrch)
is_gone (negsuc n) = false

abbrev is_zero : ℤ → Bool
is_zero (pos n) = n == 0
is_zero (negsuc n) = false

abbrev add_record : Option SocketRecord → List SocketRecord → List SocketRecord
add_record none records = records
add_record (some r) records = records ++ r ∷ []

-- `_receive_records` after the length of a message was tested.
unfoldable pub receive_step :
    ℕ → Bool → Message → List SocketRecord → Verdict (List SocketRecord) (List SocketRecord)
unfolding errno_of u32
receive_step sequence expect_done m records =
    let errno = errno_of (u32 m.payload) in
    let records' = add_record (parse_diag_record m.payload) records in
    if not (m.sequence == sequence)
    then goes_on records
    else if m.message_type == nlmsg_done
    then returns records
    else if m.message_type == nlmsg_error
    then (if ltb (length m.payload) 4
        then raises (cleaner_error "Короткий NLMSG_ERROR")
        else if is_zero errno || is_gone errno
        then returns records
        else raises (os_error errno))
    else if not expect_done
    then returns records'
    else goes_on records'

-- `destroy` after the length of a message was tested.
unfoldable pub destroy_step : ℕ → Message → Unit {0} → Verdict (Unit {0}) Bool
unfolding errno_of
destroy_step sequence m s =
    let errno = errno_of (u32 m.payload) in
    if not (m.sequence == sequence)
    then goes_on s
    else if not (m.message_type == nlmsg_error) || ltb (length m.payload) 4
    then goes_on s
    else if is_zero errno
    then returns true
    else if is_gone errno
    then returns false
    else raises (os_error errno)

-- What one `recv` gives before the socket is silent: a datagram, or an `OSError` with this errno, such
-- as ENOBUFS.
pub data Arrival : Type 0 where
  datagram : Bytes → Arrival
  recv_fault : ℤ → Arrival

-- The client: its sequence number, the requests it has sent, and what waits for its `recv`.
pub record DiagClient : Type 0 where
  pub sequence : ℕ
  pub sent : List Bytes
  pub inbox : List Arrival

-- `except socket.timeout` of `_receive_records`
abbrev timed_out : Bool → List SocketRecord → Outcome (List SocketRecord)
timed_out false [] = ok []
timed_out _ _ = err (cleaner_error "Тайм-аут ответа NETLINK_SOCK_DIAG")

-- The end of a round of an outer loop, which returns what is left in the inbox too.
abbrev pub after_packet {ℓ} :
    {S A : Type ℓ}
    → Verdict S A
    → List Arrival
    → (S → Outcome A × List Arrival)
    → Outcome A × List Arrival
after_packet (goes_on s) inbox onward = onward s
after_packet (returns a) inbox onward = (ok a, inbox)
after_packet (raises e) inbox onward = (err e, inbox)

-- The outer loop of `_receive_records`: a datagram for each `recv`, until it times out.
unfoldable pub receive_loop :
    ℕ → Bool → List Arrival → List SocketRecord → Outcome (List SocketRecord) × List Arrival
receive_loop sequence expect_done [] records = (timed_out expect_done records, [])
receive_loop sequence expect_done (recv_fault errno ∷ inbox) records = (err (os_error errno), inbox)
receive_loop sequence expect_done (datagram packet ∷ inbox) records =
    let read = take (2 ^ 20) packet in
    after_packet (scan_datagram (receive_step sequence expect_done) (length read) read records)
      inbox (λ records'. receive_loop sequence expect_done inbox records')

-- The loop of `destroy`, which lets the time-out pass.
unfoldable pub destroy_loop : ℕ → List Arrival → Outcome Bool × List Arrival
destroy_loop sequence [] = (err socket_timeout, [])
destroy_loop sequence (recv_fault errno ∷ inbox) = (err (os_error errno), inbox)
destroy_loop sequence (datagram packet ∷ inbox) =
    let read = take 65535 packet in
    after_packet (scan_datagram (destroy_step sequence) (length read) read tt) inbox
      (λ _. destroy_loop sequence inbox)

-- The kernel is known by its answers: what arrives, before the socket is silent for the three seconds
-- of the time-out, after a request that follows these earlier ones (the newest first); or the
-- exception with which `sock.send` fails, and then the request is not on the wire.
module _ (pid : ℕ) (answers : List Bytes → Outcome (List Arrival)) where
  abbrev delivered : ℕ → List Bytes → Outcome (List Arrival) → Exec DiagClient ℕ
  delivered sequence sent (ok arrived) c =
      (ok sequence, record { sequence = sequence; sent = sent; inbox = c.inbox ++ arrived })
  delivered sequence sent (err e) c = (err e, record c { sequence = sequence })

  -- `_send`
  unfoldable pub send : ℕ → ℕ → Bytes → Exec DiagClient ℕ
  unfolding pack16 pack32
  send message_type flags payload c =
      let sequence = c.sequence + 1 in
      let header =
        pack32 (16 + length payload)
        ++ pack16 message_type
        ++ pack16 flags
        ++ pack32 sequence
        ++ pack32 pid in
      let sent = (header ++ payload) ∷ c.sent in delivered sequence sent (answers sent) c

  -- `_send` of a payload that could be built, then a receive loop with the new sequence number.
  abbrev receiving :
      {A : Type 0} → (ℕ → List Arrival → Outcome A × List Arrival) → ℕ → Exec DiagClient A
  receiving receive sequence c =
      let (result, inbox) = receive sequence c.inbox in (result, record c { inbox = inbox })

  abbrev pub exchange :
      {A : Type 0}
      → ℕ
      → ℕ
      → Outcome Bytes
      → (ℕ → List Arrival → Outcome A × List Arrival)
      → Exec DiagClient A
  exchange message_type flags (err e) receive c = (err e, c)
  exchange message_type flags (ok payload) receive c =
      (send message_type flags payload >>= receiving receive) c

  unfoldable pub dump : List ℕ → ℕ → Exec DiagClient (List SocketRecord)
  unfolding send request_payload receive_loop scan_datagram read_message align4 receive_step
      parse_diag_record
  dump states family =
      exchange sock_diag_by_family dump_flags (request_payload family (state_mask states) none true)
        (λ sequence inbox. receive_loop sequence true inbox [])

  abbrev first : List SocketRecord → Option SocketRecord
  first [] = none
  first (r ∷ rs) = some r

  unfoldable pub query_exact : SocketRecord → Exec DiagClient (Option SocketRecord)
  unfolding send request_payload receive_loop scan_datagram read_message align4 receive_step
      parse_diag_record
  query_exact r = do
    records ←
        exchange sock_diag_by_family nlm_f_request
          (request_payload r.family (state_mask (r.state ∷ [])) (some r.sockid) true)
          (λ sequence inbox. receive_loop sequence false inbox [])
    pure (first records)

  unfoldable pub destroy : SocketRecord → Exec DiagClient Bool
  unfolding send request_payload destroy_loop scan_datagram read_message align4 destroy_step u32
  destroy r =
      exchange sock_destroy ack_flags (request_payload r.family 0 (some r.sockid) false)
        destroy_loop
