-- ===== src/Netlink/Record/Info.antt =====
-- The attributes of `struct inet_diag_msg` as the kernel fills them, and the idle times among them.
use remnanode_xhttp_cleaner.Base.{
  ℕ, ◌^◌, ◌<◌, ◌≡◌, ◌≢◌, refl, sym, ◌∙◌, ap, ◌⊎◌, true, some, List, [], ◌∷◌, ◌++◌, map, arith, All,
  length, length-append, drop, drop-append_of, drop-past, leb,
}
use remnanode_xhttp_cleaner.Netlink.Bytes.{Bytes, u32, pack32, u32-pack32}
use remnanode_xhttp_cleaner.Netlink.Record.{Times, read_attribute}
use remnanode_xhttp_cleaner.Netlink.Record.Attributes.{Attribute, FitsAttribute, read_attributes}

-- `struct tcp_info`: 44 bytes, `tcpi_last_data_sent`, `tcpi_last_ack_sent`, `tcpi_last_data_recv`,
-- and more.
pub record TcpInfo : Type 0 where
  pub before : Bytes
  pub last_data_sent : ℕ
  pub last_ack_sent : ℕ
  pub last_data_recv : ℕ
  pub more : Bytes

pub record FitsTcpInfo (i : TcpInfo) : Type 0 where
  pub before_size : length i.before ≡ 44
  pub sent_fits : i.last_data_sent < 2 ^ 32
  pub received_fits : i.last_data_recv < 2 ^ 32

-- An INET_DIAG_INFO attribute with all of these fields, or another one.
pub data DiagAttribute : Type 0 where
  info : TcpInfo → DiagAttribute
  other : Attribute → DiagAttribute

unfoldable pub encode_tcp_info : TcpInfo → Bytes
encode_tcp_info i =
    i.before
    ++ (pack32 i.last_data_sent ++ (pack32 i.last_ack_sent ++ (pack32 i.last_data_recv ++ i.more)))

abbrev pub as_attribute : DiagAttribute → Attribute
as_attribute (info i) = record { attribute_type = 2; value = encode_tcp_info i }
as_attribute (other a) = a

-- An attribute of another type, or one that is too short for the times.
abbrev pub IsOfKind : DiagAttribute → Type 0
IsOfKind (info i) = FitsTcpInfo i
IsOfKind (other a) = (a.attribute_type ≢ 2) ⊎ (length a.value < 56)

abbrev pub FitsDiagAttribute : DiagAttribute → Type 0
FitsDiagAttribute a = IsOfKind a × FitsAttribute (as_attribute a)

-- The idle times that the attributes tell: those of the last INET_DIAG_INFO.
unfoldable pub times_told : List DiagAttribute → Times → Times
times_told [] times = times
times_told (info i ∷ rest) times =
    times_told rest
      (record { last_sent_ms = some i.last_data_sent; last_received_ms = some i.last_data_recv })
times_told (other a ∷ rest) times = times_told rest times

module _ (i : TcpInfo) (fits : FitsTcpInfo i) where
  behind_sent : Bytes
  behind_sent = pack32 i.last_ack_sent ++ (pack32 i.last_data_recv ++ i.more)

  long_enough : leb 56 (length (encode_tcp_info i)) ≡ true
  unfolding encode_tcp_info pack32
  long_enough =
      let h = fits.before_size in
      ground (
        arith,
        length-append i.before (
            pack32 i.last_data_sent
            ++ (pack32 i.last_ack_sent ++ (pack32 i.last_data_recv ++ i.more))),
      )

  sent_read : u32 (drop 44 (encode_tcp_info i)) ≡ i.last_data_sent
  unfolding encode_tcp_info
  sent_read =
      rw (drop-append_of 44 i.before _ (sym fits.before_size))
        (u32-pack32 i.last_data_sent _ fits.sent_fits)

  received_read : u32 (drop 52 (encode_tcp_info i)) ≡ i.last_data_recv
  unfolding encode_tcp_info
  received_read =
      let h = fits.before_size in
      rw
        (
          drop-past 52 8 i.before _ (omega arith),
          drop-past 8 4 (pack32 i.last_data_sent) _ (unfold pack32 in refl),
          drop-past 4 0 (pack32 i.last_ack_sent) _ (unfold pack32 in refl),
        )
        (u32-pack32 i.last_data_recv i.more fits.received_fits)

  read_attribute_info :
      (times : Times)
      → read_attribute 2 (encode_tcp_info i) times
        ≡ record { last_sent_ms = some i.last_data_sent; last_received_ms = some i.last_data_recv }
  unfolding read_attribute
  read_attribute_info times = rw (long_enough, sent_read, received_read) refl

read_attribute_other :
    (a : Attribute) (times : Times)
    → (a.attribute_type ≢ 2) ⊎ (length a.value < 56)
    → read_attribute a.attribute_type a.value times ≡ times
unfolding read_attribute
read_attribute_other a times h = ground arith

-- Reading the attributes one after the other tells the times that they tell.
pub read_attributes_lem :
    (items : List DiagAttribute) (times : Times)
    → All FitsDiagAttribute items
    → read_attributes (map as_attribute items) times ≡ times_told items times
unfolding read_attributes times_told
read_attributes_lem [] times fit = refl
read_attributes_lem (info i ∷ items) times fit =
    ap (read_attributes (map as_attribute items)) (read_attribute_info i fit.0.0 times)
    ∙ read_attributes_lem items _ fit.1
read_attributes_lem (other a ∷ items) times fit =
    ap (read_attributes (map as_attribute items)) (read_attribute_other a times fit.0.0)
    ∙ read_attributes_lem items times fit.1

pub as_attribute-All :
    (items : List DiagAttribute)
    → All FitsDiagAttribute items
    → All FitsAttribute (map as_attribute items)
as_attribute-All [] fit = tt
as_attribute-All (a ∷ items) fit = (fit.0.1, as_attribute-All items fit.1)
