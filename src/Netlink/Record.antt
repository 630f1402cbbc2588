-- ===== src/Netlink/Record.antt =====
-- `parse_diag_record`: one `inet_diag_msg` with its attributes.
pub mod Attributes
pub mod Info
pub mod Layout
use remnanode_xhttp_cleaner.Base.{
  ℕ, zero, suc, ◌+◌, ◌-◌, Bool, true, false, not, ◌&&◌, ◌||◌, Option, none, some, List, [], ◌∷◌,
  ltb, leb, ◌==◌, if◌then◌else◌, length, take, drop,
}
use remnanode_xhttp_cleaner.Address.Print.{inet_ntop}
use remnanode_xhttp_cleaner.Socket.{SocketRecord, af_inet, af_inet6}
use remnanode_xhttp_cleaner.Netlink.Bytes.{Bytes, align4, u8, u16, u32, u16_big}

abbrev pub inet_diag_info : ℕ
inet_diag_info = 2

-- `last_sent_ms` and `last_received_ms`, which the attribute loop sets.
pub record Times : Type 0 where
  pub last_sent_ms : Option ℕ
  pub last_received_ms : Option ℕ

abbrev pub no_times : Times
no_times = record { last_sent_ms = none; last_received_ms = none }

-- The value of an attribute updates the times if it is a long enough INET_DIAG_INFO.
unfoldable pub read_attribute : ℕ → Bytes → Times → Times
read_attribute attribute_type value times =
    if (attribute_type == inet_diag_info) && leb 56 (length value)
    then record {
      last_sent_ms = some (u32 (drop 44 value));
      last_received_ms = some (u32 (drop 52 value));
    }
    else times

-- The loop over the attributes, on what is left of the payload. Each round takes at least four
-- bytes, so as many rounds as bytes are enough.
unfoldable pub attributes_loop : ℕ → Bytes → Times → Times
attributes_loop zero left times = times
attributes_loop (suc fuel) left times =
    let attribute_length = u16 left in
    let value = take (attribute_length - 4) (drop 4 left) in
    let rest =
      attributes_loop fuel (drop (align4 attribute_length) left)
        (read_attribute (u16 (drop 2 left)) value times) in
    if ltb (length left) 4 || ltb attribute_length 4 || ltb (length left) attribute_length
    then times
    else rest

-- The fields of a payload of at least 72 bytes, with its `sockid` cut out.
unfoldable pub record_of : Bytes → Bytes → Times → SocketRecord
record_of payload sockid times =
    let family = u8 payload in
    let address_size = if family == af_inet then 4 else 16 in
    let ntop = λ (raw : Bytes). inet_ntop (family == af_inet) (take address_size raw) in
    record {
      family = family;
      state = u8 (drop 1 payload);
      local_address = ntop (drop 4 sockid);
      local_port = u16_big sockid;
      remote_address = ntop (drop 20 sockid);
      remote_port = u16_big (drop 2 sockid);
      interface = u32 (drop 36 sockid);
      cookie = (u32 (drop 40 sockid), u32 (drop 44 sockid));
      inode = u32 (drop 68 payload);
      recv_queue = u32 (drop 56 payload);
      send_queue = u32 (drop 60 payload);
      last_sent_ms = times.last_sent_ms;
      last_received_ms = times.last_received_ms;
      sockid = sockid;
    }

unfoldable pub parse_diag_record : Bytes → Option SocketRecord
parse_diag_record payload =
    if ltb (length payload) 72
    then none
    else if not ((u8 payload == af_inet) || (u8 payload == af_inet6))
    then none
    else some (
        record_of payload (take 48 (drop 4 payload))
          (attributes_loop (length payload) (drop 72 payload) no_times))
