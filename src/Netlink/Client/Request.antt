-- ===== src/Netlink/Client/Request.antt =====
-- The bytes of the request that `destroy` sends.
use remnanode_xhttp_cleaner.Base.{
  ℕ, ◌+◌, ◌^◌, ◌<◌, ◌≡◌, refl, false, List, ◌∷◌, ◌++◌, arith, length, drop, take_all, ok, err,
  Outcome, Exception, Outcome-cases, inl, inr, some,
}
use remnanode_xhttp_cleaner.Socket.{SocketRecord}
use remnanode_xhttp_cleaner.Netlink.Bytes.{Bytes, u16, u32, pack16, pack32}
use remnanode_xhttp_cleaner.Netlink.Client.{
  read_message, request_payload, DiagClient, Arrival, send, destroy,
}

-- A request for the socket of the 48 bytes `sockid`, with the sequence number `sequence`.
pub record IsDestroyRequest (sequence : ℕ) (sockid packet : Bytes) : Type 0 where
  pub destroys : (read_message packet).message_type ≡ 21
  pub numbered : (read_message packet).sequence ≡ sequence
  pub names_socket : drop 8 (read_message packet).payload ≡ sockid

abbrev pub packet_of : ℕ → ℕ → ℕ → Bytes → ℕ → Bytes
packet_of message_type flags sequence payload pid =
    pack32 (16 + length payload)
    ++ (pack16 message_type ++ (pack16 flags ++ (pack32 sequence ++ (pack32 pid ++ payload))))

module _ (pid : ℕ) (answers : List Bytes → Outcome (List Arrival)) (r : SocketRecord)
    (c : DiagClient) where
  abbrev pub payload : Bytes
  payload = r.family ∷ 6 ∷ 0 ∷ 0 ∷ 0 ∷ 0 ∷ 0 ∷ 0 ∷ r.sockid

  pub request_payload_lem :
      length r.sockid ≡ 48 → request_payload r.family 0 (some r.sockid) false ≡ ok payload
  unfolding request_payload
  request_payload_lem h = rw h refl

  abbrev pub packet : Bytes
  packet = packet_of 21 5 (c.sequence + 1) payload pid

  pub packet-payload : length r.sockid ≡ 48 → drop 8 (read_message packet).payload ≡ r.sockid
  unfolding read_message pack32 pack16 u32
  packet-payload h = rw h (take_all 48 r.sockid (omega arith))

  packet-IsDestroyRequest :
      length r.sockid ≡ 48
      → c.sequence + 1 < 2 ^ 32
      → IsDestroyRequest (c.sequence + 1) r.sockid packet
  unfolding read_message pack32 pack16 u32 u16
  packet-IsDestroyRequest h fits = record {
    destroys = omega arith;
    numbered = omega arith;
    names_socket = packet-payload h;
  }

  -- The kernel took this packet, and it is the one request that was sent; or `send` failed with an
  -- exception that ends the call, and nothing was sent.
  pub data IsHandedOver (sent : Bytes) : Type 0 where
    taken :
        (arrived : List Arrival)
        → answers (sent ∷ c.sent) ≡ ok arrived
        → (destroy pid answers r c).1.sent ≡ sent ∷ c.sent
        → IsHandedOver sent
    refused :
        (e : Exception)
        → answers (sent ∷ c.sent) ≡ err e
        → destroy pid answers r c ≡ (err e, record c { sequence = c.sequence + 1 })
        → IsHandedOver sent

  packet-IsHandedOver : length r.sockid ≡ 48 → IsHandedOver packet
  unfolding destroy send
  packet-IsHandedOver h = elim (Outcome-cases (answers (packet ∷ c.sent))) [
    | inl (arrived, e) ↦ taken arrived e (rw (request_payload_lem h, e) refl)
    | inr (x, e) ↦ refused x e (rw (request_payload_lem h, e) refl)
  ]

  -- `destroy` of a socket whose `sockid` has 48 bytes, with a sequence number below 2 ^ 32, hands one
  -- request to `send`, and it is a SOCK_DESTROY with the next sequence number that names these bytes.
  -- It is the one request that is sent, or `send` fails, and then nothing is sent and its exception
  -- ends the call.
  pub destroy-IsDestroyRequest :
      length r.sockid ≡ 48
      → c.sequence + 1 < 2 ^ 32
      → (sent : Bytes) × IsDestroyRequest (c.sequence + 1) r.sockid sent × IsHandedOver sent
  destroy-IsDestroyRequest h fits = (packet, packet-IsDestroyRequest h fits, packet-IsHandedOver h)
