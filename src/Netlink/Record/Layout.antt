-- ===== src/Netlink/Record/Layout.antt =====
-- `parse_diag_record` against the layout of `struct inet_diag_msg`.
use remnanode_xhttp_cleaner.Base.{
  ℕ, ◌+◌, ◌^◌, ◌≤◌, ◌<◌, ◌≡◌, refl, sym, ◌∙◌, false, not, ◌||◌, ◌⊎◌, some, List, [], ◌∷◌, ◌++◌, map,
  arith, All, length, length-append, take, drop, take-append_of, drop-append_of, ltb, if◌then◌else◌,
  drop-past, take-within, ◌==◌,
}
use remnanode_xhttp_cleaner.Address.Print.{inet_ntop}
use remnanode_xhttp_cleaner.Socket.{SocketRecord, af_inet, af_inet6}
use remnanode_xhttp_cleaner.Netlink.Bytes.{
  Bytes, u8, u16_big, u32, pack16_big, pack32, u16_big-pack16_big, u32-pack32,
}
use remnanode_xhttp_cleaner.Netlink.Record.{no_times, record_of, parse_diag_record}
use remnanode_xhttp_cleaner.Netlink.Record.Attributes.{encode_attributes, attributes_loop-encode}
use remnanode_xhttp_cleaner.Netlink.Record.Info.{
  DiagAttribute, FitsDiagAttribute, as_attribute, times_told, read_attributes_lem, as_attribute-All,
}

-- The fields of `struct inet_diag_msg`, and the attributes behind it.
pub record DiagMessage : Type 0 where
  pub family : ℕ
  pub state : ℕ
  pub timer : ℕ
  pub retrans : ℕ
  pub local_port : ℕ
  pub remote_port : ℕ
  pub local_raw : Bytes
  pub remote_raw : Bytes
  pub interface : ℕ
  pub cookie : ℕ × ℕ
  pub expires : ℕ
  pub recv_queue : ℕ
  pub send_queue : ℕ
  pub uid : ℕ
  pub inode : ℕ
  pub attributes : List DiagAttribute

-- Every field fits its width, and an address has sixteen bytes in the message.
pub record FitsDiag (d : DiagMessage) : Type 0 where
  pub is_internet : (d.family ≡ af_inet) ⊎ (d.family ≡ af_inet6)
  pub local_port_fits : d.local_port < 2 ^ 16
  pub remote_port_fits : d.remote_port < 2 ^ 16
  pub local_size : length d.local_raw ≡ 16
  pub remote_size : length d.remote_raw ≡ 16
  pub interface_fits : d.interface < 2 ^ 32
  pub cookie_fits : (d.cookie.0 < 2 ^ 32) × (d.cookie.1 < 2 ^ 32)
  pub recv_queue_fits : d.recv_queue < 2 ^ 32
  pub send_queue_fits : d.send_queue < 2 ^ 32
  pub inode_fits : d.inode < 2 ^ 32
  pub attributes_fit : All FitsDiagAttribute d.attributes

-- `struct inet_diag_sockid`
unfoldable pub encode_sockid : DiagMessage → Bytes
encode_sockid d =
    pack16_big d.local_port
    ++ (pack16_big d.remote_port
        ++ (d.local_raw
            ++ (d.remote_raw
                ++ (pack32 d.interface ++ (pack32 d.cookie.0 ++ (pack32 d.cookie.1 ++ []))))))

unfoldable pub encode_diag : DiagMessage → Bytes
encode_diag d =
    d.family
    ∷ d.state
    ∷ d.timer
    ∷ d.retrans
    ∷ (encode_sockid d
        ++ (pack32 d.expires
            ++ (pack32 d.recv_queue
                ++ (pack32 d.send_queue
                    ++ (pack32 d.uid
                        ++ (pack32 d.inode
                            ++ encode_attributes (map as_attribute d.attributes)))))))

-- The bytes of an address that its family uses.
abbrev pub address_bytes : DiagMessage → Bytes → Bytes
address_bytes d raw = take (if d.family == af_inet then 4 else 16) raw

-- The record that the message describes.
unfoldable pub record_for : DiagMessage → SocketRecord
record_for d =
    let times = times_told d.attributes no_times in
    record {
      family = d.family;
      state = d.state;
      local_address = inet_ntop (d.family == af_inet) (address_bytes d d.local_raw);
      local_port = d.local_port;
      remote_address = inet_ntop (d.family == af_inet) (address_bytes d d.remote_raw);
      remote_port = d.remote_port;
      interface = d.interface;
      cookie = d.cookie;
      inode = d.inode;
      recv_queue = d.recv_queue;
      send_queue = d.send_queue;
      last_sent_ms = times.last_sent_ms;
      last_received_ms = times.last_received_ms;
      sockid = encode_sockid d;
    }

drop-pack32 : (n j x : ℕ) (rest : Bytes) → n ≡ 4 + j → drop n (pack32 x ++ rest) ≡ drop j rest
unfolding pack32
drop-pack32 n j x rest e = drop-past n j (pack32 x) rest e

module _ (d : DiagMessage) (fits : FitsDiag d) where
  -- What stands behind the two ports of the sockid, behind the addresses, and behind the sockid.
  abbrev numbers : Bytes
  numbers = pack32 d.interface ++ (pack32 d.cookie.0 ++ (pack32 d.cookie.1 ++ []))

  abbrev queues : Bytes
  queues =
      pack32 d.expires
      ++ (pack32 d.recv_queue
          ++ (pack32 d.send_queue
              ++ (pack32 d.uid
                  ++ (pack32 d.inode ++ encode_attributes (map as_attribute d.attributes)))))

  local_at : drop 4 (encode_sockid d) ≡ d.local_raw ++ (d.remote_raw ++ numbers)
  unfolding encode_sockid pack16_big
  local_at = refl

  remote_at : drop 20 (encode_sockid d) ≡ d.remote_raw ++ numbers
  unfolding encode_sockid pack16_big
  remote_at = drop-append_of 16 d.local_raw (d.remote_raw ++ numbers) (sym fits.local_size)

  numbers_behind :
      (n j : ℕ) → n ≡ 32 + j → drop n (d.local_raw ++ (d.remote_raw ++ numbers)) ≡ drop j numbers
  numbers_behind n j e =
      let local = fits.local_size in
      let remote = fits.remote_size in
      drop-past n (16 + j) d.local_raw (d.remote_raw ++ numbers) (omega arith)
      ∙ drop-past (16 + j) j d.remote_raw numbers (omega arith)

  interface_at : u32 (drop 36 (encode_sockid d)) ≡ d.interface
  unfolding encode_sockid pack16_big
  interface_at = rw (numbers_behind 32 0 refl) (u32-pack32 d.interface _ fits.interface_fits)

  cookie_at :
      (u32 (drop 40 (encode_sockid d)) ≡ d.cookie.0)
      × (u32 (drop 44 (encode_sockid d)) ≡ d.cookie.1)
  unfolding encode_sockid pack16_big
  cookie_at = (
    rw (numbers_behind 36 4 refl, drop-past 4 0 (pack32 d.interface) _ (unfold pack32 in refl))
        (u32-pack32 d.cookie.0 _ fits.cookie_fits.0),
    rw
        (
          numbers_behind 40 8 refl,
          drop-past 8 4 (pack32 d.interface) _ (unfold pack32 in refl),
          drop-past 4 0 (pack32 d.cookie.0) _ (unfold pack32 in refl),
        )
        (u32-pack32 d.cookie.1 [] fits.cookie_fits.1),
  )

  ports_at :
      (u16_big (encode_sockid d) ≡ d.local_port)
      × (u16_big (drop 2 (encode_sockid d)) ≡ d.remote_port)
  unfolding encode_sockid
  ports_at = (
    u16_big-pack16_big d.local_port _ fits.local_port_fits,
    rw (drop-past 2 0 (pack16_big d.local_port) _ (unfold pack16_big in refl))
        (u16_big-pack16_big d.remote_port _ fits.remote_port_fits),
  )

  addresses_at :
      (n : ℕ)
      → n ≤ 16
      → (take n (drop 4 (encode_sockid d)) ≡ take n d.local_raw)
        × (take n (drop 20 (encode_sockid d)) ≡ take n d.remote_raw)
  addresses_at n h =
      let local = fits.local_size in
      let remote = fits.remote_size in
      (
        rw local_at (take-within n d.local_raw (d.remote_raw ++ numbers) (omega arith)),
        rw remote_at (take-within n d.remote_raw numbers (omega arith)),
      )

  length-encode_sockid : length (encode_sockid d) ≡ 48
  unfolding encode_sockid pack16_big pack32
  length-encode_sockid =
      let local = fits.local_size in
      let remote = fits.remote_size in
      omega (
        arith,
        length-append d.local_raw (d.remote_raw ++ numbers),
        length-append d.remote_raw numbers,
      )

  sockid_at : take 48 (drop 4 (encode_diag d)) ≡ encode_sockid d
  unfolding encode_diag
  sockid_at = take-append_of 48 (encode_sockid d) queues (sym length-encode_sockid)

  queues_behind : (n j : ℕ) → n ≡ 48 + j → drop n (encode_sockid d ++ queues) ≡ drop j queues
  queues_behind n j e = drop-past n j (encode_sockid d) queues (omega (arith, length-encode_sockid))

  queues_at :
      (u32 (drop 56 (encode_diag d)) ≡ d.recv_queue)
      × (u32 (drop 60 (encode_diag d)) ≡ d.send_queue)
      × (u32 (drop 68 (encode_diag d)) ≡ d.inode)
      × (drop 72 (encode_diag d) ≡ encode_attributes (map as_attribute d.attributes))
  unfolding encode_diag
  queues_at = (
    rw (queues_behind 52 4 refl, drop-pack32 4 0 _ _ refl)
        (u32-pack32 d.recv_queue _ fits.recv_queue_fits),
    rw (queues_behind 56 8 refl, drop-pack32 8 4 _ _ refl, drop-pack32 4 0 _ _ refl)
        (u32-pack32 d.send_queue _ fits.send_queue_fits),
    rw
        (
          queues_behind 64 16 refl,
          drop-pack32 16 12 _ _ refl,
          drop-pack32 12 8 _ _ refl,
          drop-pack32 8 4 _ _ refl,
          drop-pack32 4 0 _ _ refl,
        )
        (u32-pack32 d.inode _ fits.inode_fits),
    queues_behind 68 20 refl ∙ unfold pack32 in refl,
  )

  length-encode_diag :
      72 + length (encode_attributes (map as_attribute d.attributes)) ≡ length (encode_diag d)
  unfolding encode_diag pack32
  length-encode_diag = omega (arith, length-append (encode_sockid d) queues, length-encode_sockid)

  address_size_le : (if d.family == af_inet then 4 else 16) ≤ 16
  address_size_le = ground arith

  first_bytes : (u8 (encode_diag d) ≡ d.family) × (u8 (drop 1 (encode_diag d)) ≡ d.state)
  unfolding encode_diag u8
  first_bytes = (refl, refl)

  record_of-encode_diag :
      record_of (encode_diag d) (encode_sockid d) (times_told d.attributes no_times) ≡ record_for d
  unfolding record_of record_for
  record_of-encode_diag =
      let addresses = addresses_at _ address_size_le in
      rw
        (
          first_bytes.0, first_bytes.1, ports_at.0, ports_at.1, addresses.0, addresses.1,
          interface_at, cookie_at.0, cookie_at.1, queues_at.0, queues_at.1, queues_at.2,
        )
        refl

  attributes_le :
      length (encode_attributes (map as_attribute d.attributes)) ≤ length (encode_diag d)
  attributes_le = omega (arith, length-encode_diag)

  long_enough : ltb (length (encode_diag d)) 72 ≡ false
  long_enough = rw (sym length-encode_diag) (ground arith)

  known_family : not ((u8 (encode_diag d) == af_inet) || (u8 (encode_diag d) == af_inet6)) ≡ false
  known_family = let known = fits.is_internet in rw first_bytes.0 (ground arith)

  -- On a message in the layout of `struct inet_diag_msg`, with its attributes behind it, the parser
  -- returns the record that the message describes: each field from its place, the addresses in the
  -- text of their family, and the two idle times of the last `struct tcp_info` among the attributes,
  -- or none if there is no such attribute.
  pub parse_diag_record-encode_diag : parse_diag_record (encode_diag d) ≡ some (record_for d)
  unfolding parse_diag_record
  parse_diag_record-encode_diag =
      let fuel =
        attributes_loop-encode _ (map as_attribute d.attributes) no_times
          (as_attribute-All d.attributes fits.attributes_fit) attributes_le in
      let told = read_attributes_lem d.attributes no_times fits.attributes_fit in
      rw (long_enough, known_family, sockid_at, queues_at.3, fuel, told, record_of-encode_diag) refl
