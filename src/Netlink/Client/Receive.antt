-- ===== src/Netlink/Client/Receive.antt =====
-- What the two receive loops return, in terms of the messages that the kernel sent.
use mathlib.Core.List.{Memᴰ, flatten}
use remnanode_xhttp_cleaner.Base.{
  ℕ, ◌^◌, ◌≤◌, ◌≡◌, ◌≢◌, refl, ap, ◌∙◌, Bool, true, ◌⊎◌, inl, inr, Option, none, some, List, [],
  ◌∷◌, ◌++◌, map, arith, All, length, take_all, append_assoc, append-nil, ◌==◌, if◌then◌else◌, ok,
  ok-injective, Exception,
}
use remnanode_xhttp_cleaner.Base.Int.{ℤ}
use remnanode_xhttp_cleaner.Socket.{SocketRecord}
use remnanode_xhttp_cleaner.Netlink.Bytes.{u32, u32-lt}
use remnanode_xhttp_cleaner.Netlink.Record.{parse_diag_record}
use remnanode_xhttp_cleaner.Netlink.Client.{
  Arrival, datagram, recv_fault, Verdict, goes_on, returns, raises, receive_step, destroy_step,
  receive_loop, destroy_loop, after_packet, nlmsg_error, nlmsg_done,
}
use remnanode_xhttp_cleaner.Netlink.Client.Scan.{
  WireMessage, FitsWire, encode_all, message, handle_all, scan_datagram-encode_all,
}

-- The messages of one datagram, which fits the buffer of `recv`.
pub record IsDatagram (limit : ℕ) (ms : List WireMessage) : Type 0 where
  pub each_fits : All FitsWire ms
  pub all_fit : length (encode_all ms) ≤ limit

-- Such a datagram as it arrives.
abbrev pub arrival : List WireMessage → Arrival
arrival ms = datagram (encode_all ms)

-- What arrives: a datagram of these messages, or a fault of `recv`.
pub data Incoming : Type 0 where
  messages : List WireMessage → Incoming
  fault : ℤ → Incoming

abbrev pub as_arrival : Incoming → Arrival
as_arrival (messages ms) = arrival ms
as_arrival (fault errno) = recv_fault errno

abbrev pub messages_in : Incoming → List WireMessage
messages_in (messages ms) = ms
messages_in (fault errno) = []

abbrev pub IsIncoming : ℕ → Incoming → Type 0
IsIncoming limit (messages ms) = IsDatagram limit ms
IsIncoming limit (fault errno) = Unit {0}

abbrev listed : Option SocketRecord → List SocketRecord
listed none = []
listed (some r) = r ∷ []

module _ (sequence : ℕ) where
  -- The sockets that the messages with the client's sequence number report.
  pub found : List WireMessage → List SocketRecord
  found [] = []
  found (m ∷ ms) =
      (if m.sequence == sequence then listed (parse_diag_record m.payload) else []) ++ found ms

  found-append : (xs ys : List WireMessage) → found (xs ++ ys) ≡ found xs ++ found ys
  unfolding found
  found-append [] ys = refl
  found-append (m ∷ xs) ys = rw (found-append xs ys, append_assoc) refl

  -- Another client's message, or one that neither ends the dump nor reports an error.
  abbrev pub IsPlain : WireMessage → Type 0
  IsPlain m =
      (m.sequence ≢ sequence) ⊎ ((m.message_type ≢ nlmsg_error) × (m.message_type ≢ nlmsg_done))

  receive_plain :
      (m : WireMessage) (records : List SocketRecord)
      → IsPlain m
      → receive_step sequence true (message m) records
        ≡ goes_on (
            records
            ++ (if m.sequence == sequence then listed (parse_diag_record m.payload) else []))
  unfolding receive_step
  receive_plain m records plain = ground (arith, append-nil records)

  handle_plain :
      (ms : List WireMessage) (records : List SocketRecord) (rest : List WireMessage)
      → All IsPlain ms
      → handle_all (receive_step sequence true) (ms ++ rest) records
        ≡ handle_all (receive_step sequence true) rest (records ++ found ms)
  unfolding handle_all found
  handle_plain [] records rest plain = rw append-nil refl
  handle_plain (m ∷ ms) records rest plain =
      rw (receive_plain m records plain.0, handle_plain ms _ rest plain.1, append_assoc) refl

  -- The message that ends a dump.
  abbrev pub IsDone : WireMessage → Type 0
  IsDone m = (m.sequence ≡ sequence) × (m.message_type ≡ nlmsg_done)

  receive_done :
      (m : WireMessage) (records : List SocketRecord)
      → IsDone m
      → receive_step sequence true (message m) records ≡ returns records
  unfolding receive_step
  receive_done m records h = ground arith

  receive_one :
      (ms : List WireMessage) (later : List Arrival) (records : List SocketRecord)
      → IsDatagram (2 ^ 20) ms
      → receive_loop sequence true (arrival ms ∷ later) records
        ≡ after_packet
            (handle_all (receive_step sequence true) ms records)
            later
            (receive_loop sequence true later)
  unfolding receive_loop
  receive_one ms later records d =
      rw
        (
          take_all (2 ^ 20) (encode_all ms) d.all_fit,
          scan_datagram-encode_all (receive_step sequence true) (length (encode_all ms)) ms records
              d.each_fits (omega arith),
        )
        refl

  handle_all_plain :
      (ms : List WireMessage) (records : List SocketRecord)
      → All IsPlain ms
      → handle_all (receive_step sequence true) ms records ≡ goes_on (records ++ found ms)
  unfolding handle_all
  handle_all_plain ms records plain = rw append-nil at (handle_plain ms records [] plain)

  -- The datagrams before the one that ends the dump.
  receive_before :
      (groups : List (List WireMessage)) (later : List Arrival) (records : List SocketRecord)
      → All (IsDatagram (2 ^ 20)) groups
      → All (All IsPlain) groups
      → receive_loop sequence true (map arrival groups ++ later) records
        ≡ receive_loop sequence true later (records ++ found (flatten groups))
  unfolding flatten found
  receive_before [] later records d plain = rw append-nil refl
  receive_before (ms ∷ groups) later records d plain =
      receive_one ms (map arrival groups ++ later) records d.0
      ∙ rw (handle_all_plain ms records plain.0) (
          receive_before groups later (records ++ found ms) d.1 plain.1
          ∙ rw (found-append, append_assoc) refl)

  -- A dump returns the sockets of the client's own messages, in their order, up to the message that
  -- ends it, whatever other messages come in between; the later datagrams stay in the inbox.
  pub receive_dump :
      (groups : List (List WireMessage)) (front rest : List WireMessage) (done : WireMessage)
      (later : List Arrival)
      → All (IsDatagram (2 ^ 20)) groups
      → All (All IsPlain) groups
      → IsDatagram (2 ^ 20) (front ++ done ∷ rest)
      → All IsPlain front
      → IsDone done
      → receive_loop sequence true (map arrival groups ++ arrival (front ++ done ∷ rest) ∷ later) []
        ≡ (ok (found (flatten groups ++ front)), later)
  unfolding handle_all found
  receive_dump groups front rest done later ds plains d plain ends =
      receive_before groups (arrival (front ++ done ∷ rest) ∷ later) [] ds plains
      ∙ receive_one (front ++ done ∷ rest) later (found (flatten groups)) d
      ∙ rw
          (
            handle_plain front (found (flatten groups)) (done ∷ rest) plain,
            receive_done done _ ends,
            found-append,
          )
          refl

-- The acknowledgement of a request to destroy: NLMSG_ERROR with code 0.
abbrev pub IsAck : ℕ → WireMessage → Type 0
IsAck sequence m =
    (m.sequence ≡ sequence)
    × (m.message_type ≡ nlmsg_error)
    × (4 ≤ length m.payload)
    × (u32 m.payload ≡ 0)

module _ (sequence : ℕ) where
  destroy_step-IsAck :
      (m : WireMessage)
      → FitsWire m
      → destroy_step sequence (message m) tt ≡ returns true
      → IsAck sequence m
  unfolding destroy_step
  destroy_step-IsAck m fits h = ground (arith, u32-lt m.payload fits.are_bytes)

  Verdict-cases :
      (v : Verdict (Unit {0}) Bool)
      → (v ≡ goes_on tt) ⊎ ((b : Bool) × (v ≡ returns b)) ⊎ ((e : Exception) × (v ≡ raises e))
  Verdict-cases (goes_on s) = inl refl
  Verdict-cases (returns b) = inr (inl (b, refl))
  Verdict-cases (raises e) = inr (inr (e, refl))

  handle_destroy :
      (ms : List WireMessage)
      → All FitsWire ms
      → handle_all (destroy_step sequence) ms tt ≡ returns true
      → (m : WireMessage) × Memᴰ m ms × IsAck sequence m
  unfolding handle_all
  handle_destroy [] fits h = cc
  handle_destroy (m ∷ ms) fits h = elim (Verdict-cases (destroy_step sequence (message m) tt)) [
    | inl on ↦
        let (a, there, ack) = handle_destroy ms fits.1 (rw on at h) in (a, Memᴰ.tail there, ack)
    | inr (inl (b, e)) ↦ (m, Memᴰ.head refl, destroy_step-IsAck m fits.0 (e ∙ (rw e at h)))
    | inr (inr (x, e)) ↦ absurd (ground arith)
  ]

mem-append-left {ℓ} : {A : Type ℓ} {x : A} (xs ys : List A) → Memᴰ x xs → Memᴰ x (xs ++ ys)
mem-append-left [] ys m = elim m [ ]
mem-append-left (y ∷ xs) ys (Memᴰ.head e) = Memᴰ.head e
mem-append-left (y ∷ xs) ys (Memᴰ.tail m) = Memᴰ.tail (mem-append-left xs ys m)

mem-append-right {ℓ} : {A : Type ℓ} {x : A} (xs ys : List A) → Memᴰ x ys → Memᴰ x (xs ++ ys)
mem-append-right [] ys m = m
mem-append-right (y ∷ xs) ys m = Memᴰ.tail (mem-append-right xs ys m)

module _ (sequence : ℕ) where
  destroy_one :
      (ms : List WireMessage) (later : List Arrival)
      → IsDatagram 65535 ms
      → destroy_loop sequence (arrival ms ∷ later)
        ≡ after_packet
            (handle_all (destroy_step sequence) ms tt)
            later
            (λ _. destroy_loop sequence later)
  unfolding destroy_loop
  destroy_one ms later d =
      rw
        (
          take_all 65535 (encode_all ms) d.all_fit,
          scan_datagram-encode_all (destroy_step sequence) (length (encode_all ms)) ms tt
              d.each_fits (omega arith),
        )
        refl

  -- The loop of `destroy` returns true only if among the messages that arrive, whatever faults of
  -- `recv` come in between, is an acknowledgement that carries the sequence number of this request.
  pub destroy_loop-IsAck :
      (items : List Incoming)
      → All (IsIncoming 65535) items
      → (destroy_loop sequence (map as_arrival items)).0 ≡ ok true
      → (m : WireMessage) × Memᴰ m (flatten (map messages_in items)) × IsAck sequence m
  unfolding flatten
  destroy_loop-IsAck [] d h = absurd (unfold destroy_loop in ground arith)
  destroy_loop-IsAck (fault errno ∷ items) d h = absurd (unfold destroy_loop in ground arith)
  destroy_loop-IsAck (messages ms ∷ items) d h =
      elim (Verdict-cases sequence (handle_all (destroy_step sequence) ms tt)) [
        | inl on ↦
            let (m, there, ack) =
              destroy_loop-IsAck items d.1
                (rw (destroy_one ms (map as_arrival items) d.0, on) at h) in
            (m, mem-append-right ms (flatten (map messages_in items)) there, ack)
        | inr (inl (b, e)) ↦
            let acked = rw (destroy_one ms (map as_arrival items) d.0, e) at h in
            let (m, there, ack) =
              handle_destroy sequence ms d.0.each_fits
                (e ∙ ap returns (ok-injective b true acked)) in
            (m, mem-append-left ms (flatten (map messages_in items)) there, ack)
        | inr (inr (x, e)) ↦
            absurd (ground (arith, rw (destroy_one ms (map as_arrival items) d.0, e) at h))
      ]
