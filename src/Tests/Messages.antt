-- ===== src/Tests/Messages.antt =====
-- The netlink modules on an answer of the kernel with one socket.
use mathlib.Core.List.{Memᴰ, flatten}
use remnanode_xhttp_cleaner.Base.{
  none, ◌^◌, ◌≡◌, refl, true, inl, inr, some, [], ◌∷◌, ◌++◌, map, arith, ok,
}
use remnanode_xhttp_cleaner.Netlink.Bytes.{pack32, Bytes, align4, u32}
use remnanode_xhttp_cleaner.Netlink.Record.{parse_diag_record, no_times, attributes_loop}
use remnanode_xhttp_cleaner.Netlink.Record.Attributes.{
  Attribute, FitsAttribute, zeros, encode_attribute, encode_attributes, read_attributes,
  attributes_loop-encode,
}
use remnanode_xhttp_cleaner.Netlink.Record.Info
use remnanode_xhttp_cleaner.Netlink.Record.Info.{
  TcpInfo, FitsDiagAttribute, encode_tcp_info, times_told,
}
use remnanode_xhttp_cleaner.Netlink.Record.Layout.{
  DiagMessage, FitsDiag, encode_diag, record_for, parse_diag_record-encode_diag,
}
use remnanode_xhttp_cleaner.Netlink.Client.{
  scan_datagram, DiagClient, read_message, destroy_step, receive_loop, destroy_loop, nlmsg_error,
  nlmsg_done,
}
use remnanode_xhttp_cleaner.Netlink.Client.Scan.{
  WireMessage, FitsWire, encode, encode_all, handle_all, scan_datagram-encode_all,
}
use remnanode_xhttp_cleaner.Socket.{SocketRecord}
use remnanode_xhttp_cleaner.Netlink.Client.Request.{
  IsDestroyRequest, IsHandedOver, destroy-IsDestroyRequest,
}
use remnanode_xhttp_cleaner.Netlink.Client.Receive.{
  IsDatagram, IsAck, arrival, as_arrival, messages, messages_in, found, receive_dump,
  destroy_loop-IsAck,
}

abbrev info : Attribute
info = record { attribute_type = 2; value = zeros 44 ++ 1 ∷ 0 ∷ 0 ∷ 0 ∷ zeros 8 }

-- An attribute of another type.
abbrev mark : Attribute
mark = record { attribute_type = 5; value = zeros 4 }

abbrev tcp_info : TcpInfo
tcp_info = record {
  before = zeros 44;
  last_data_sent = 1;
  last_ack_sent = 0;
  last_data_recv = 400;
  more = zeros 4;
}

abbrev reported_socket : DiagMessage
reported_socket = record {
  family = 2;
  state = 1;
  timer = 0;
  retrans = 0;
  local_port = 443;
  remote_port = 50000;
  local_raw = 10 ∷ 0 ∷ 0 ∷ 1 ∷ zeros 12;
  remote_raw = 10 ∷ 0 ∷ 0 ∷ 2 ∷ zeros 12;
  interface = 0;
  cookie = (5, 6);
  expires = 0;
  recv_queue = 0;
  send_queue = 0;
  uid = 0;
  inode = 7;
  attributes = Info.info tcp_info ∷ Info.other mark ∷ [];
}

info_fits : FitsAttribute info
info_fits = record { type_fits = omega arith; length_fits = omega arith }

mark_fits : FitsAttribute mark
mark_fits = record { type_fits = omega arith; length_fits = omega arith }

tcp_info_fits : FitsDiagAttribute (Info.info tcp_info)
unfolding pack32
tcp_info_fits = (
  record { before_size = omega arith; sent_fits = omega arith; received_fits = omega arith },
  record { type_fits = omega arith; length_fits = unfold encode_tcp_info in omega arith },
)

reported_fits : FitsDiag reported_socket
reported_fits = record {
  is_internet = inl refl;
  local_port_fits = omega arith;
  remote_port_fits = omega arith;
  local_size = omega arith;
  remote_size = omega arith;
  interface_fits = omega arith;
  cookie_fits = (omega arith, omega arith);
  recv_queue_fits = omega arith;
  send_queue_fits = omega arith;
  inode_fits = omega arith;
  attributes_fit = (tcp_info_fits, ((inl (omega arith), mark_fits), tt));
}

-- The times are those of the two places.
told_times :
    ((record_for reported_socket).last_sent_ms ≡ some 1)
    × ((record_for reported_socket).last_received_ms ≡ some 400)
unfolding record_for times_told
told_times = (refl, refl)

parse_diag_record-encode_diag_example :
    parse_diag_record (encode_diag reported_socket) ≡ some (record_for reported_socket)
parse_diag_record-encode_diag_example = parse_diag_record-encode_diag reported_socket reported_fits

attributes_loop-encode_example :
    attributes_loop 60 (encode_attributes (info ∷ [])) no_times
    ≡ read_attributes (info ∷ []) no_times
attributes_loop-encode_example =
    attributes_loop-encode 60 (info ∷ []) no_times (info_fits, tt)
      (unfold encode_attributes encode_attribute align4 in omega arith)

abbrev answer : WireMessage
answer = record { message_type = 20; flags = 2; sequence = 1; pid = 9; payload = 2 ∷ 1 ∷ zeros 70 }

abbrev done : WireMessage
done = record { message_type = nlmsg_done; flags = 2; sequence = 1; pid = 9; payload = zeros 4 }

abbrev ack : WireMessage
ack = record { message_type = nlmsg_error; flags = 0; sequence = 1; pid = 9; payload = zeros 4 }

answer_fits : FitsWire answer
answer_fits = record {
  type_fits = omega arith;
  sequence_fits = omega arith;
  are_bytes = omega arith;
  length_fits = omega arith;
}

done_fits : FitsWire done
done_fits = record {
  type_fits = omega arith;
  sequence_fits = omega arith;
  are_bytes = omega arith;
  length_fits = omega arith;
}

ack_fits : FitsWire ack
ack_fits = record {
  type_fits = omega arith;
  sequence_fits = omega arith;
  are_bytes = omega arith;
  length_fits = omega arith;
}

dump-IsDatagram : IsDatagram (2 ^ 20) (answer ∷ done ∷ [])
dump-IsDatagram = record {
  each_fits = (answer_fits, (done_fits, tt));
  all_fit = unfold encode_all encode align4 in omega arith;
}

receive_dump_example :
    receive_loop 1 true (map arrival [] ++ arrival ((answer ∷ []) ++ done ∷ []) ∷ []) []
    ≡ (ok (found 1 (flatten [] ++ answer ∷ [])), [])
receive_dump_example =
    receive_dump 1 [] (answer ∷ []) [] done [] tt tt dump-IsDatagram
      (inr (omega arith, omega arith), tt) (refl, refl)

scan_datagram-encode_all_example :
    scan_datagram (destroy_step 1) 20 (encode_all (ack ∷ [])) tt
    ≡ handle_all (destroy_step 1) (ack ∷ []) tt
scan_datagram-encode_all_example =
    scan_datagram-encode_all (destroy_step 1) 20 (ack ∷ []) tt (ack_fits, tt)
      (unfold encode_all encode align4 in omega arith)

ack-IsDatagram : IsDatagram 65535 (ack ∷ [])
ack-IsDatagram = record {
  each_fits = (ack_fits, tt);
  all_fit = unfold encode_all encode align4 in omega arith;
}

destroy_returns : (destroy_loop 1 (map as_arrival (messages (ack ∷ []) ∷ []))).0 ≡ ok true
unfolding destroy_loop encode_all encode scan_datagram read_message align4 destroy_step u32
destroy_returns = refl

destroy_loop-IsAck_example :
    (m : WireMessage) × Memᴰ m (flatten (map messages_in (messages (ack ∷ []) ∷ []))) × IsAck 1 m
destroy_loop-IsAck_example =
    destroy_loop-IsAck 1 (messages (ack ∷ []) ∷ []) (ack-IsDatagram, tt) destroy_returns

abbrev old_client : DiagClient
old_client = record { sequence = 41; sent = []; inbox = [] }

abbrev victim : SocketRecord
victim = record {
  family = 2;
  state = 8;
  local_address = [];
  local_port = 443;
  remote_address = [];
  remote_port = 50000;
  interface = 0;
  cookie = (5, 6);
  inode = 7;
  recv_queue = 0;
  send_queue = 0;
  last_sent_ms = none;
  last_received_ms = none;
  sockid = zeros 40 ++ 5 ∷ 0 ∷ 0 ∷ 0 ∷ 6 ∷ 0 ∷ 0 ∷ 0 ∷ [];
}

destroy-IsDestroyRequest_example :
    (sent : Bytes) × IsDestroyRequest 42 victim.sockid sent
    × IsHandedOver 9 (λ requests. ok []) victim old_client sent
destroy-IsDestroyRequest_example =
    destroy-IsDestroyRequest 9 (λ requests. ok []) victim old_client (omega arith) (omega arith)
