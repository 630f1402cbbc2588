-- ===== src/Tests/Wire.antt =====
-- The worker over the client, with a kernel that knows one connection.
use remnanode_xhttp_cleaner.Base.{
  ℕ, ◌≡◌, refl, true, List, [], err, os_error, ◌∷◌, ok, take, drop, Outcome,
}
use remnanode_xhttp_cleaner.Base.Int.{pos}
use remnanode_xhttp_cleaner.Config.{default}
use remnanode_xhttp_cleaner.Netlink.Bytes.{Bytes, u8, pack16_big, pack32}
use remnanode_xhttp_cleaner.Netlink.Record.Attributes.{zeros, encode_attributes, encode_attribute}
use remnanode_xhttp_cleaner.Netlink.Record.Info.{info, encode_tcp_info}
use remnanode_xhttp_cleaner.Netlink.Record.Layout.{DiagMessage, encode_diag, encode_sockid}
use remnanode_xhttp_cleaner.Netlink.Client.{
  Arrival, nlmsg_error, nlmsg_done, dump, query_exact, destroy,
}
use remnanode_xhttp_cleaner.Netlink.Client.Scan.{WireMessage, encode, encode_all}
use remnanode_xhttp_cleaner.Candidate.{candidate_kind, diagnostic_states}
use remnanode_xhttp_cleaner.Netlink.Record.{record_of, attributes_loop, read_attribute}
use remnanode_xhttp_cleaner.Worker.{Kernel, Run, worker}
use remnanode_xhttp_cleaner.Worker.Vetted.{IsVettedRun}
use remnanode_xhttp_cleaner.Netlink.Client.Listed.{ids_on_wire}
use remnanode_xhttp_cleaner.Netlink.Client.Receive.{arrival}
use remnanode_xhttp_cleaner.Worker.Wire.{Wired, client_kernel, IsSentFor, worker-IsOnWire}

-- Closed by the peer, and idle for 400 seconds.
abbrev closed_by_peer : DiagMessage
closed_by_peer = record {
  family = 2;
  state = 8;
  timer = 0;
  retrans = 0;
  local_port = 443;
  remote_port = 50000;
  local_raw = 10 ∷ 0 ∷ 0 ∷ 1 ∷ zeros 12;
  remote_raw = 10 ∷ 0 ∷ 0 ∷ 2 ∷ zeros 12;
  interface = 0;
  cookie = (5, 6);
  expires = 0;
  recv_queue = 0;
  send_queue = 0;
  uid = 0;
  inode = 7;
  attributes =
      info (record {
        before = zeros 44;
        last_data_sent = 400000;
        last_ack_sent = 0;
        last_data_recv = 400000;
        more = [];
      })
      ∷ [];
}

abbrev reply : ℕ → ℕ → Bytes → WireMessage
reply message_type sequence payload = record {
  message_type = message_type;
  flags = 0;
  sequence = sequence;
  pid = 9;
  payload = payload;
}

abbrev reported : ℕ → WireMessage
reported sequence = reply 20 sequence (encode_diag closed_by_peer)

abbrev done : ℕ → WireMessage
done sequence = reply nlmsg_done sequence (zeros 4)

-- The two dumps, the query and the acknowledgement, by the number of requests.
abbrev answers : List Bytes → Outcome (List Arrival)
answers (r ∷ []) = ok (arrival (reported 1 ∷ done 1 ∷ []) ∷ [])
answers (r ∷ s ∷ []) = ok (arrival (done 2 ∷ []) ∷ [])
answers (r ∷ s ∷ t ∷ []) = ok (arrival (reported 3 ∷ []) ∷ [])
answers sent = ok (arrival (reply nlmsg_error 4 (zeros 4) ∷ []) ∷ [])

abbrev start : Run (Wired (Unit {0}))
start = record {
  world = record { client = record { sequence = 0; sent = []; inbox = [] }; beyond = tt };
  trace = [];
}

abbrev inodes : ℕ → Unit {0} → Outcome (List ℕ) × Unit {0}
inodes p v = (ok (7 ∷ []), v)

abbrev pause : ℕ → Unit {0} → Outcome (Unit {0}) × Unit {0}
pause n v = (ok tt, v)

abbrev opened : Unit {0} → Outcome (Unit {0}) × Unit {0}
opened v = (ok tt, v)

abbrev kernel : Kernel (Wired (Unit {0}))
kernel = client_kernel 9 answers inodes pause opened (λ v. 0)

abbrev after : Run (Wired (Unit {0}))
after = (worker kernel 1 default true [] start).1

-- One request, for the 48 bytes that the kernel has reported.
one_request :
    ids_on_wire after.world.client.sent ≡ take 48 (drop 4 (encode_diag closed_by_peer)) ∷ []
unfolding worker encode_diag encode_sockid encode_all encode diagnostic_states dump pack16_big
    encode_attributes encode_attribute encode_tcp_info pack32 u8 candidate_kind record_of
    attributes_loop read_attribute query_exact destroy
one_request = refl

-- The same kernel, whose socket takes no fourth request.
abbrev cut_off : List Bytes → Outcome (List Arrival)
cut_off (r ∷ s ∷ t ∷ u ∷ sent) = err (os_error (pos 105))
cut_off sent = answers sent

abbrev after_fault : Run (Wired (Unit {0}))
after_fault =
    (worker (client_kernel 9 cut_off inodes pause opened (λ v. 0)) 1 default true [] start).1

-- `destroy` was called, and nothing is on the wire.
no_request : ids_on_wire after_fault.world.client.sent ≡ []
unfolding worker encode_diag encode_sockid encode_all encode diagnostic_states dump pack16_big
    encode_attributes encode_attribute encode_tcp_info pack32 u8 candidate_kind record_of
    attributes_loop read_attribute query_exact destroy
no_request = refl

worker-IsOnWire_example :
    IsSentFor after.trace (ids_on_wire after.world.client.sent)
    × IsVettedRun kernel 1 default [] after.trace
worker-IsOnWire_example =
    worker-IsOnWire 9 answers inodes pause opened (λ v. 0) 1 default true [] start.world refl
