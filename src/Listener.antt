-- ===== src/Listener.antt =====
-- remnanode-xhttp-clean.py: class `XhttpListener` and the reading of the listeners from the rendered
-- Xray configuration.
pub mod Keys
pub mod Complete
use remnanode_xhttp_cleaner.Base.{
  ℕ, zero, suc, ◌+◌, ◌-◌, ◌*◌, Bool, true, false, not, ◌&&◌, ◌||◌, Option, none, some, List, [],
  ◌∷◌, ◌++◌, leb, ltb, ◌==◌, contains, if◌then◌else◌, Outcome, ok, err, overflow_error, value_error,
}
use remnanode_xhttp_cleaner.Base.Int.{ℤ, pos, negsuc}
use remnanode_xhttp_cleaner.Base.Text.{Text, codes, text_eq, starts_with, strip, lower}
use remnanode_xhttp_cleaner.Json.{
  Json, null, bool, int, float, str, list, dict, finite, infinite, nan, Items, nil, item, Fields,
  end, get,
}
use remnanode_xhttp_cleaner.Address.Print.{decimal}

pub record XhttpListener : Type 0 where
  pub address : Text
  pub port : ℕ
  pub tag : Text

-- The property `endpoint` of a listener.
unfoldable pub listener_endpoint : XhttpListener → Text
unfolding decimal text_eq
listener_endpoint l =
    if contains l.address b':' && not (text_eq l.address (codes "*"))
    then codes "[" ++ l.address ++ codes "]:" ++ decimal l.port
    else (if text_eq l.address [] then codes "*" else l.address) ++ codes ":" ++ decimal l.port

-- `str(value)` of a value of a configuration. Of a float, a list and a dict only the first
-- characters are kept: no network and no protocol is named like them.
unfoldable pub text_of : Json → Text
unfolding decimal
text_of null = codes "None"
text_of (bool true) = codes "True"
text_of (bool false) = codes "False"
text_of (int (pos n)) = decimal n
text_of (int (negsuc n)) = b'-' ∷ decimal (n + 1)
text_of (float (finite (pos n))) = decimal n ++ codes "."
text_of (float (finite (negsuc n))) = b'-' ∷ decimal (n + 1) ++ codes "."
text_of (float infinite) = codes "inf"
text_of (float nan) = codes "nan"
text_of (str s) = s
text_of (list _) = codes "["
text_of (dict _) = codes "{"

-- The zeros of the scripts with decimal digits, as Unicode 14 has them; the other nine digits follow.
abbrev script_zeros : List ℕ
script_zeros =
    0x30 ∷ 0x660 ∷ 0x6f0 ∷ 0x7c0 ∷ 0x966 ∷ 0x9e6 ∷ 0xa66 ∷ 0xae6 ∷ 0xb66 ∷ 0xbe6 ∷ 0xc66 ∷ 0xce6
    ∷ 0xd66 ∷ 0xde6 ∷ 0xe50 ∷ 0xed0 ∷ 0xf20 ∷ 0x1040 ∷ 0x1090 ∷ 0x17e0 ∷ 0x1810 ∷ 0x1946 ∷ 0x19d0
    ∷ 0x1a80 ∷ 0x1a90 ∷ 0x1b50 ∷ 0x1bb0 ∷ 0x1c40 ∷ 0x1c50 ∷ 0xa620 ∷ 0xa8d0 ∷ 0xa900 ∷ 0xa9d0
    ∷ 0xa9f0 ∷ 0xaa50 ∷ 0xabf0 ∷ 0xff10 ∷ 0x104a0 ∷ 0x10d30 ∷ 0x11066 ∷ 0x110f0 ∷ 0x11136 ∷ 0x111d0
    ∷ 0x112f0 ∷ 0x11450 ∷ 0x114d0 ∷ 0x11650 ∷ 0x116c0 ∷ 0x11730 ∷ 0x118e0 ∷ 0x11950 ∷ 0x11c50
    ∷ 0x11d50 ∷ 0x11da0 ∷ 0x16a60 ∷ 0x16ac0 ∷ 0x16b50 ∷ 0x1d7ce ∷ 0x1d7d8 ∷ 0x1d7e2 ∷ 0x1d7ec
    ∷ 0x1d7f6 ∷ 0x1e140 ∷ 0x1e2f0 ∷ 0x1e950 ∷ 0x1fbf0 ∷ []

is_decimal : List ℕ → ℕ → Bool
is_decimal [] c = false
is_decimal (z ∷ zs) c = (leb z c && ltb c (z + 10)) || is_decimal zs c

digit_value : List ℕ → ℕ → ℕ
digit_value [] c = 0
digit_value (z ∷ zs) c =
    let behind = digit_value zs c in if leb z c && ltb c (z + 10) then c - z else behind

-- The digits of `int(text)`; one `_` may stand between two digits. The flag tells whether a digit
-- has to come next.
int_digits : Bool → ℕ → Text → Option ℕ
unfolding is_decimal digit_value
int_digits true n [] = none
int_digits false n [] = some n
int_digits wanted n (c ∷ s) =
    let digit = int_digits false (n * 10 + digit_value script_zeros c) s in
    let underscore = int_digits true n s in
    if is_decimal script_zeros c
    then digit
    else if (c == b'_') && not wanted
    then underscore
    else none

abbrev negated : Option ℕ → Outcome ℤ
negated none = err (value_error "invalid literal for int()")
negated (some zero) = ok (pos 0)
negated (some (suc n)) = ok (negsuc n)

abbrev plain : Option ℕ → Outcome ℤ
plain none = err (value_error "invalid literal for int()")
plain (some n) = ok (pos n)

signed : Text → Outcome ℤ
unfolding int_digits
signed [] = err (value_error "invalid literal for int()")
signed (c ∷ s) =
    if c == b'-'
    then negated (int_digits true 0 s)
    else plain (int_digits true 0 (if c == b'+' then s else c ∷ s))

-- `int(value)`: a `TypeError` and a `ValueError` are one here, since the program treats them alike.
unfoldable pub int_of : Json → Outcome ℤ
unfolding signed strip
int_of (bool true) = ok (pos 1)
int_of (bool false) = ok (pos 0)
int_of (int n) = ok n
int_of (float (finite n)) = ok n
int_of (float infinite) = err overflow_error
int_of (float nan) = err (value_error "cannot convert float NaN to integer")
int_of (str s) = signed (strip s)
int_of _ = err (value_error "int() argument must be a string or a number")

-- What one round of a loop does: it skips the item, or goes on with a value.
pub data Round {ℓ} (A : Type ℓ) : Type ℓ where
  skip : Round A
  take_item : A → Round A
  raise_overflow : Round A

abbrev pub port_in_range : ℤ → Round ℕ
port_in_range (pos n) = if leb 1 n && leb n 65535 then take_item n else skip
port_in_range (negsuc n) = skip

abbrev pub port_read : Outcome ℤ → Round ℕ
port_read (ok n) = port_in_range n
port_read (err overflow_error) = raise_overflow
port_read (err _) = skip

-- `port_value` and the tests on it; `None` stands for a missing key.
unfoldable pub port_of : Json → Round ℕ
unfolding int_of
port_of (bool b) = skip
port_of value = port_read (int_of value)

unfoldable pub address_of : Json → Text
unfolding strip
address_of (str s) = strip s
address_of _ = []

abbrev tag_of : Json → Text
tag_of (str s) = s
tag_of _ = []

unfoldable pub is_unix : Text → Bool
unfolding starts_with
is_unix address = starts_with address (codes "/") || starts_with address (codes "@")

unfoldable pub is_xhttp_network : Json → Bool
unfolding text_of lower text_eq
is_xhttp_network v =
    let network = lower (text_of v) in
    text_eq network (codes "xhttp") || text_eq network (codes "splithttp")

abbrev pub with_address : Fields → ℕ → Text → Round XhttpListener
with_address inbound port address =
    if is_unix address
    then skip
    else take_item (record {
      address = address;
      port = port;
      tag = tag_of (get (codes "tag") (str []) inbound);
    })

abbrev pub with_port : Fields → Round ℕ → Round XhttpListener
with_port inbound skip = skip
with_port inbound raise_overflow = raise_overflow
with_port inbound (take_item port) =
    with_address inbound port (address_of (get (codes "listen") (str []) inbound))

abbrev pub with_stream : Fields → Json → Round XhttpListener
with_stream inbound (dict stream) =
    if is_xhttp_network (get (codes "network") (str []) stream)
    then with_port inbound (port_of (get (codes "port") null inbound))
    else skip
with_stream inbound _ = skip

-- One round of the loop, up to the test on `seen`.
unfoldable pub read_inbound : Json → Round XhttpListener
unfolding is_xhttp_network port_of address_of is_unix get
read_inbound (dict inbound) = with_stream inbound (get (codes "streamSettings") (dict end) inbound)
read_inbound _ = skip

-- `key in seen`, for the keys (address, port)
unfoldable pub has_key : Text → ℕ → List (Text × ℕ) → Bool
unfolding text_eq
has_key address port [] = false
has_key address port ((a, p) ∷ seen) =
    (text_eq address a && (port == p)) || has_key address port seen

-- The loop over the inbounds, with its two variables.
unfoldable pub listeners_loop :
    Items → List XhttpListener → List (Text × ℕ) → Outcome (List XhttpListener)
listeners_loop nil listeners seen = ok listeners
listeners_loop (item inbound rest) listeners seen = elim (read_inbound inbound) [
  | skip ↦ listeners_loop rest listeners seen
  | raise_overflow ↦ err overflow_error
  | take_item l ↦
      listeners_loop rest (if has_key l.address l.port seen then listeners else listeners ++ l ∷ [])
        (if has_key l.address l.port seen then seen else (l.address, l.port) ∷ seen)
]

abbrev pub from_inbounds : Json → Outcome (List XhttpListener)
from_inbounds (list inbounds) = listeners_loop inbounds [] []
from_inbounds _ = ok []

unfoldable pub parse_xhttp_listeners : Json → Outcome (List XhttpListener)
unfolding listeners_loop get
parse_xhttp_listeners (dict raw) = from_inbounds (get (codes "inbounds") (list nil) raw)
parse_xhttp_listeners _ = ok []
