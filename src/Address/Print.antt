-- ===== src/Address/Print.antt =====
-- `socket.inet_ntop`: dotted octets, and the groups of an IPv6 address with the longest run of at
-- least two zeros written `::`, as the C library prints them. Also `str` of a number and the
-- format `08x`.
use remnanode_xhttp_cleaner.Base.{
  ℕ, zero, suc, ◌+◌, ◌-◌, ◌*◌, ◌/◌, ◌%◌, ◌≡◌, refl, Bool, true, false, ◌&&◌, List, [], ◌∷◌, ◌++◌,
  ltb, ◌==◌, if◌then◌else◌,
}
use remnanode_xhttp_cleaner.Base.Text.{Text, codes}

-- One digit, in lower case.
abbrev digit : ℕ → ℕ
digit d = if ltb d 10 then b'0' + d else b'a' + d - 10

-- The digits of a number below `base ^ fuel` in front of `rest`, with no leading zero.
digits : ℕ → ℕ → ℕ → Text → Text
digits base zero n rest = rest
digits base (suc fuel) n rest =
    let more = digits base fuel (n / base) (digit (n % base) ∷ rest) in
    if ltb n base then digit n ∷ rest else more

-- `str(n)`: a number `n` has fewer than `n + 2` digits.
unfoldable pub decimal : ℕ → Text
unfolding digits
decimal n = digits 10 (n + 1) n []

unfoldable pub hexadecimal : ℕ → Text
unfolding digits
hexadecimal n = digits 16 (n + 1) n []

fixed_hex : ℕ → ℕ → Text → Text
fixed_hex zero n rest = rest
fixed_hex (suc k) n rest = fixed_hex k (n / 16) (digit (n % 16) ∷ rest)

-- `f"{n:08x}"` of a number below 2 ^ 32
unfoldable pub hex8 : ℕ → Text
unfolding fixed_hex
hex8 n = fixed_hex 8 n []

unfoldable pub dotted : List ℕ → Text
unfolding decimal
dotted [] = []
dotted (a ∷ []) = decimal a
dotted (a ∷ b ∷ rest) = decimal a ++ b'.' ∷ dotted (b ∷ rest)

-- The 16-bit groups of an address in network order.
abbrev words : List ℕ → List ℕ
words (a ∷ b ∷ rest) = (a * 256 + b) ∷ words rest
words _ = []

-- The first longest run of zeros: where it starts and its length.
record Run : Type 0 where
  base : ℕ
  len : ℕ

abbrev no_run : Run
no_run = record { base = 0; len = 0 }

longer : Run → Run → Run
longer best current = if ltb best.len current.len then current else best

longest : ℕ → Run → Run → List ℕ → Run
unfolding longer
longest i best current [] = longer best current
longest i best current (w ∷ ws) =
    longest (i + 1) (if w == 0 then best else longer best current)
      (if w == 0
        then record { base = (if current.len == 0 then i else current.base); len = current.len + 1 }
        else no_run)
      ws

-- The groups from position `i` on; a run that is hidden shows as `:` where it starts, and one more
-- where it ends the address.
shown : Run → ℕ → List ℕ → Text
unfolding hexadecimal
shown run i [] = if ltb 1 run.len && (run.base + run.len == 8) then b':' ∷ [] else []
shown run i (w ∷ ws) =
    let rest = shown run (i + 1) ws in
    if ltb 1 run.len && (i == run.base)
    then b':' ∷ rest
    else if ltb 1 run.len && ltb run.base i && ltb i (run.base + run.len)
    then rest
    else (if i == 0 then [] else b':' ∷ []) ++ hexadecimal w ++ rest

-- An encapsulated IPv4 address is printed in dotted form behind its prefix.
embedded : Text → List ℕ → Text
unfolding dotted
embedded prefix (_ ∷ _ ∷ _ ∷ _ ∷ _ ∷ _ ∷ _ ∷ _ ∷ _ ∷ _ ∷ _ ∷ _ ∷ quad) = prefix ++ dotted quad
embedded prefix _ = prefix

ntop6 : List ℕ → List ℕ → Run → Text
unfolding shown embedded
ntop6 bytes (_ ∷ _ ∷ _ ∷ _ ∷ _ ∷ w ∷ _) run =
    if (run.base == 0) && (run.len == 6)
    then embedded (codes "::") bytes
    else if (run.base == 0) && (run.len == 5) && (w == 0xffff)
    then embedded (codes "::ffff:") bytes
    else shown run 0 (words bytes)
ntop6 bytes _ run = []

-- `socket.inet_ntop(AF_INET, raw)` and `socket.inet_ntop(AF_INET6, raw)`
unfoldable pub inet_ntop : Bool → List ℕ → Text
unfolding dotted ntop6 longest
inet_ntop true raw = dotted raw
inet_ntop false raw = ntop6 raw (words raw) (longest 0 no_run no_run (words raw))

prints_addresses :
    (inet_ntop true (127 ∷ 0 ∷ 0 ∷ 1 ∷ []) ≡ codes "127.0.0.1")
    × (inet_ntop false (0 ∷ 0 ∷ 0 ∷ 0 ∷ 0 ∷ 0 ∷ 0 ∷ 0 ∷ 0 ∷ 0 ∷ 0 ∷ 0 ∷ 0 ∷ 0 ∷ 0 ∷ 1 ∷ [])
        ≡ codes "::1")
    × (inet_ntop false (0 ∷ 0 ∷ 0 ∷ 0 ∷ 0 ∷ 0 ∷ 0 ∷ 0 ∷ 0 ∷ 0 ∷ 255 ∷ 255 ∷ 10 ∷ 0 ∷ 0 ∷ 1 ∷ [])
        ≡ codes "::ffff:10.0.0.1")
    × (inet_ntop false (32 ∷ 1 ∷ 13 ∷ 184 ∷ 0 ∷ 0 ∷ 0 ∷ 0 ∷ 0 ∷ 8 ∷ 8 ∷ 0 ∷ 32 ∷ 12 ∷ 65 ∷ 122 ∷ [])
        ≡ codes "2001:db8::8:800:200c:417a")
unfolding inet_ntop
prints_addresses = (refl, refl, refl, refl)

hex8_pads : hex8 0xdeadbeef ++ hex8 10 ≡ codes "deadbeef0000000a"
unfolding hex8
hex8_pads = refl
