-- ===== src/Netlink/Client/Scan.antt =====
-- The byte-level loop over a datagram against the messages that the datagram is made of.
use remnanode_xhttp_cleaner.Base.{
  ℕ, zero, suc, ◌+◌, ◌-◌, ◌*◌, ◌/◌, ◌%◌, ◌^◌, ◌≤◌, ◌<◌, ◌≡◌, refl, sym, ap, ◌∙◌, false, List, [],
  ◌∷◌, ◌++◌, arith, All, length, length-append, take, drop, take-append_of, drop-append_of,
  append_assoc, ltb,
}
use mathlib.Core.Path.{fun_ext}
use remnanode_xhttp_cleaner.Netlink.Bytes.{Bytes, align4, u32, pack16, pack32}
use remnanode_xhttp_cleaner.Netlink.Client.{
  Message, read_message, Verdict, goes_on, scan_datagram, zeros, resume,
}

-- A message as the kernel writes it.
pub record WireMessage : Type 0 where
  pub message_type : ℕ
  pub flags : ℕ
  pub sequence : ℕ
  pub pid : ℕ
  pub payload : Bytes

-- The header fields and the length fit their formats, and the payload is made of bytes.
pub record FitsWire (m : WireMessage) : Type 0 where
  pub type_fits : m.message_type < 2 ^ 16
  pub sequence_fits : m.sequence < 2 ^ 32
  pub are_bytes : All (λ b. b < 2 ^ 8) m.payload
  pub length_fits : 16 + length m.payload < 2 ^ 32

abbrev padding : WireMessage → Bytes
padding m = zeros (align4 (16 + length m.payload) - (16 + length m.payload))

-- `struct nlmsghdr`, the payload, and the padding to four bytes
unfoldable pub encode : WireMessage → Bytes
unfolding pack16 pack32
encode m =
    pack32 (16 + length m.payload)
    ++ pack16 m.message_type
    ++ pack16 m.flags
    ++ pack32 m.sequence
    ++ pack32 m.pid
    ++ m.payload
    ++ padding m

unfoldable pub encode_all : List WireMessage → Bytes
encode_all [] = []
encode_all (m ∷ ms) = encode m ++ encode_all ms

abbrev pub message : WireMessage → Message
message m = record {
  size = 16 + length m.payload;
  message_type = m.message_type;
  sequence = m.sequence;
  payload = m.payload;
}

length-zeros : (n : ℕ) → length (zeros n) ≡ n
length-zeros zero = refl
length-zeros (suc n) = ap suc (length-zeros n)

-- What the four bytes of a packed number say.
unpacked :
    (n : ℕ)
    → n < 2 ^ 32
    → n % 2 ^ 8
        + n / 2 ^ 8 % 2 ^ 8 * 2 ^ 8
        + n / 2 ^ 16 % 2 ^ 8 * 2 ^ 16
        + n / 2 ^ 24 % 2 ^ 8 * 2 ^ 24
      ≡ n
unpacked n h = omega arith

unpacked16 : (n : ℕ) → n < 2 ^ 16 → n % 2 ^ 8 + n / 2 ^ 8 % 2 ^ 8 * 2 ^ 8 ≡ n
unpacked16 n h = omega arith

module _ (m : WireMessage) (fits : FitsWire m) (rest : Bytes) where
  read_message-encode : read_message (encode m ++ rest) ≡ message m
  unfolding read_message encode
  read_message-encode = λ i. record {
    size = size i;
    message_type = unpacked16 m.message_type fits.type_fits i;
    sequence = unpacked m.sequence fits.sequence_fits i;
    payload = body i;
  }
    where
      size : unfold u32 pack32 in u32 (pack32 (16 + length m.payload)) ≡ 16 + length m.payload
      size = unpacked (16 + length m.payload) fits.length_fits

      body :
          unfold u32 pack32 in
          take (u32 (pack32 (16 + length m.payload)) - 16) ((m.payload ++ padding m) ++ rest)
          ≡ m.payload
      body =
          rw append_assoc (take-append_of _ m.payload (padding m ++ rest) (rw size (omega arith)))

  length-encode : length (encode m) ≡ align4 (16 + length m.payload)
  unfolding encode align4
  length-encode = omega (
    arith,
    length-append m.payload (padding m),
    length-zeros (align4 (16 + length m.payload) - (16 + length m.payload)),
  )

  drop-encode : drop (align4 (16 + length m.payload)) (encode m ++ rest) ≡ rest
  drop-encode = drop-append_of _ (encode m) rest (sym length-encode)

-- The datagram is scanned as the list of its messages.
module _ {S R : Type 0} (step : Message → S → Verdict S R) where
  unfoldable pub handle_all : List WireMessage → S → Verdict S R
  handle_all [] s = goes_on s
  handle_all (m ∷ ms) s = resume (step (message m) s) (handle_all ms)

  scan_round :
      (fuel : ℕ) (m : WireMessage) (rest : Bytes) (s : S)
      → FitsWire m
      → scan_datagram step (suc fuel) (encode m ++ rest) s
        ≡ resume (step (message m) s) (scan_datagram step fuel rest)
  unfolding scan_datagram
  scan_round fuel m rest s fits =
      rw (read_message-encode m fits rest, drop-encode m fits rest, long_enough) (ground arith)
    where
      long_enough : ltb (length (encode m ++ rest)) 16 ≡ false
      long_enough =
          unfold align4 in ground (arith, length-append (encode m) rest, length-encode m fits rest)

  -- On a datagram made of messages, the loop over its bytes handles these messages in order, with
  -- any fuel that is at least its length.
  pub scan_datagram-encode_all :
      (fuel : ℕ) (ms : List WireMessage) (s : S)
      → All FitsWire ms
      → length (encode_all ms) ≤ fuel
      → scan_datagram step fuel (encode_all ms) s ≡ handle_all ms s
  unfolding handle_all encode_all
  scan_datagram-encode_all zero [] s fit h = unfold scan_datagram in refl
  scan_datagram-encode_all (suc fuel) [] s fit h = unfold scan_datagram in refl
  scan_datagram-encode_all zero (m ∷ ms) s fit h = absurd (
      unfold align4 in
      omega (arith, length-append (encode m) (encode_all ms), length-encode m fit.0 []))
  scan_datagram-encode_all (suc fuel) (m ∷ ms) s fit h =
      scan_round fuel m (encode_all ms) s fit.0
      ∙ ap (resume (step (message m) s))
          (fun_ext λ s'. scan_datagram-encode_all fuel ms s' fit.1 shorter)
    where
      shorter : length (encode_all ms) ≤ fuel
      shorter =
          unfold align4 in
          omega (arith, length-append (encode m) (encode_all ms), length-encode m fit.0 [])
