-- ===== src/Netlink/Client/Listed.antt =====
-- The SOCK_DESTROY requests among the datagrams that `DiagClient` has sent.
use remnanode_xhttp_cleaner.Base.{
  ℕ, ◌+◌, ◌≡◌, refl, Bool, true, false, some, List, [], ◌∷◌, ◌==◌, length, drop, arith,
  if◌then◌else◌, Outcome, Outcome-cases, inl, inr, Exception, ok, err, cleaner_error, ◌∙◌,
}
use remnanode_xhttp_cleaner.Base.Exec.Keeps.{Keeps, keeps_rules}
use remnanode_xhttp_cleaner.Socket.{SocketRecord}
use remnanode_xhttp_cleaner.Netlink.Bytes.{Bytes, pack16, pack32, u16}
use remnanode_xhttp_cleaner.Netlink.Client.{
  DiagClient, Arrival, read_message, request_payload, send, exchange, dump, query_exact, destroy,
}
use remnanode_xhttp_cleaner.Netlink.Client.Request.{
  packet, packet_of, request_payload_lem, packet-payload,
}

-- The socket ids of the SOCK_DESTROY requests among these datagrams.
abbrev pub ids_on_wire : List Bytes → List Bytes
ids_on_wire [] = []
ids_on_wire (packet ∷ sent) =
    let rest = ids_on_wire sent in
    if (read_message packet).message_type == 21
    then drop 8 (read_message packet).payload ∷ rest
    else rest

-- What `destroy` adds to the list: the id of the socket, if it has its 48 bytes, or nothing, if it
-- ends in an exception.
pub data IsListed (r : SocketRecord) (before : List Bytes)
    : Outcome Bool → List Bytes → Type 0 where
  put_on_wire :
      {answer : Outcome Bool} → length r.sockid ≡ 48 → IsListed r before answer (r.sockid ∷ before)
  not_sent : (e : Exception) → IsListed r before (err e) before

module _ (pid : ℕ) (answers : List Bytes → Outcome (List Arrival)) where
  -- A request that only asks is not on the list.
  exchange-quiet :
      {A : Type 0} (flags : ℕ) (payload : Outcome Bytes)
      (receive : ℕ → List Arrival → Outcome A × List Arrival) (c : DiagClient)
      → ids_on_wire (exchange pid answers 20 flags payload receive c).1.sent ≡ ids_on_wire c.sent
  unfolding send read_message pack16 pack32 u16
  exchange-quiet flags (err e) receive c = refl
  exchange-quiet flags (ok payload) receive c =
      elim (Outcome-cases (answers (packet_of 20 flags (c.sequence + 1) payload pid ∷ c.sent))) [
        | inl (arrived, taken) ↦ rw taken refl
        | inr (x, refused) ↦ rw refused refl
      ]

  module _ (ids : List Bytes) where
    -- The ids on the list are these.
    abbrev Listed : DiagClient → Type 0
    Listed c = ids_on_wire c.sent ≡ ids

    Keeps-exchange :
        {A : Type 0} (flags : ℕ) (payload : Outcome Bytes)
        (receive : ℕ → List Arrival → Outcome A × List Arrival)
        → Keeps Listed (exchange pid answers 20 flags payload receive)
    Keeps-exchange flags payload receive = record {
      at = λ c p. exchange-quiet flags payload receive c ∙ p;
    }

    pub Keeps-client_dump :
        (states : List ℕ) (family : ℕ) → Keeps Listed (dump pid answers states family)
    unfolding dump
    Keeps-client_dump states family = search (Keeps-exchange)

    pub Keeps-client_query : (r : SocketRecord) → Keeps Listed (query_exact pid answers r)
    unfolding query_exact
    Keeps-client_query r = search (Keeps-exchange, keeps_rules)

  request_payload-cut :
      (r : SocketRecord)
      → (length r.sockid == 48) ≡ false
      → request_payload r.family 0 (some r.sockid) false
        ≡ err (cleaner_error "Некорректная длина inet_diag_sockid")
  unfolding request_payload
  request_payload-cut r e = rw e

  destroy-sized :
      (r : SocketRecord) (c : DiagClient) (whole : Bool)
      → (length r.sockid == 48) ≡ whole
      → IsListed r
          (ids_on_wire c.sent)
          (destroy pid answers r c).0
          (ids_on_wire (destroy pid answers r c).1.sent)
  unfolding destroy send
  destroy-sized r c true e =
      let h : length r.sockid ≡ 48 = ground arith in
      elim (Outcome-cases (answers (packet pid answers r c ∷ c.sent))) [
        | inl (arrived, taken) ↦
            rw (request_payload_lem pid answers r c h, taken, packet-payload pid answers r c h)
              (put_on_wire h)
        | inr (x, refused) ↦ rw (request_payload_lem pid answers r c h, refused) (not_sent x)
      ]
  destroy-sized r c false e = rw (request_payload-cut r e) (not_sent _)

  pub destroy-IsListed :
      (r : SocketRecord) (c : DiagClient)
      → IsListed r
          (ids_on_wire c.sent)
          (destroy pid answers r c).0
          (ids_on_wire (destroy pid answers r c).1.sent)
  destroy-IsListed r c = destroy-sized r c (length r.sockid == 48) refl
