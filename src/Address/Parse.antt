-- ===== src/Address/Parse.antt =====
-- `ipaddress.ip_address`: dotted IPv4 first, then IPv6 in groups with one `::`.
use remnanode_xhttp_cleaner.Base.{
  ℕ, zero, suc, ◌+◌, ◌*◌, ◌-◌, ◌^◌, ◌/◌, ◌%◌, ◌≡◌, refl, Bool, true, false, ◌&&◌, ◌||◌, not, Option,
  none, some, List, [], ◌∷◌, ◌++◌, ltb, leb, ◌==◌, if◌then◌else◌, length, take, drop, contains,
}
use remnanode_xhttp_cleaner.Base.Text.{Text, codes}

pub data Ip : Type 0 where
  v4 : ℕ → Ip
  v6 : ℕ → Ip

abbrev prepend : ℕ → List Text → List Text
prepend c [] = (c ∷ []) ∷ []
prepend c (part ∷ parts) = (c ∷ part) ∷ parts

-- `s.split(sep)` at one character
unfoldable pub split_on : ℕ → Text → List Text
split_on sep [] = [] ∷ []
split_on sep (c ∷ s) =
    let parts = split_on sep s in if c == sep then [] ∷ parts else prepend c parts

infixl 5 ◌>>=◌
abbrev ◌>>=◌ : {A B : Type 0} → Option A → (A → Option B) → Option B
none >>= f = none
some a >>= f = f a

abbrev digit : ℕ → Option ℕ
digit c = if leb b'0' c && leb c b'9' then some (c - b'0') else none

abbrev hex_digit : ℕ → Option ℕ
hex_digit c =
    if leb b'0' c && leb c b'9'
    then some (c - b'0')
    else if leb b'a' c && leb c b'f'
    then some (c - b'a' + 10)
    else if leb b'A' c && leb c b'F'
    then some (c - b'A' + 10)
    else none

number_in : (ℕ → Option ℕ) → ℕ → ℕ → Text → Option ℕ
number_in reads base n [] = some n
number_in reads base n (c ∷ s) =
    let rest = λ (d : ℕ). number_in reads base (n * base + d) s in reads c >>= rest

-- Three ASCII digits at most, no leading zero, 255 at most.
unfoldable pub octet : Text → Option ℕ
unfolding number_in
octet [] = none
octet (c ∷ s) =
    if ltb 3 (length (c ∷ s)) || (c == b'0' && not (length s == 0))
    then none
    else (do n ← number_in digit 10 0 (c ∷ s); if ltb 255 n then none else some n)

abbrev ipv4_of_parts : List Text → Option ℕ
ipv4_of_parts (a ∷ b ∷ c ∷ d ∷ []) = do
  i ← octet a
  j ← octet b
  k ← octet c
  l ← octet d
  some (((i * 256 + j) * 256 + k) * 256 + l)
ipv4_of_parts _ = none

unfoldable pub ipv4_address : Text → Option ℕ
unfolding octet split_on
ipv4_address s = ipv4_of_parts (split_on b'.' s)

-- One to four hexadecimal digits.
hextet : Text → Option ℕ
unfolding number_in
hextet [] = none
hextet (c ∷ s) = if ltb 4 (length (c ∷ s)) then none else number_in hex_digit 16 0 (c ∷ s)

hextets : List Text → Option (List ℕ)
unfolding hextet
hextets [] = some []
hextets (part ∷ parts) = do w ← hextet part; ws ← hextets parts; some (w ∷ ws)

-- The groups of an IPv6 address, the last two of which may be written as an IPv4 address.
pub data Group : Type 0 where
  text : Text → Group
  word : ℕ → Group

abbrev is_empty : Group → Bool
is_empty (text []) = true
is_empty _ = false

group : Group → Option ℕ
unfolding hextet
group (word n) = some n
group (text s) = hextet s

groups : List Group → Option (List ℕ)
unfolding group
groups [] = some []
groups (g ∷ gs) = do w ← group g; ws ← groups gs; some (w ∷ ws)

abbrev plain_groups : List Text → List Group
plain_groups [] = []
plain_groups (s ∷ parts) = text s ∷ plain_groups parts

-- `if "." in parts[-1]`
with_ipv4 : List Text → Option (List Group)
unfolding ipv4_address
with_ipv4 [] = some []
with_ipv4 (s ∷ []) =
    if contains s b'.'
    then (do n ← ipv4_address s; some (word (n / 2 ^ 16) ∷ word (n % 2 ^ 16) ∷ []))
    else some (text s ∷ [])
with_ipv4 (s ∷ t ∷ parts) = do rest ← with_ipv4 (t ∷ parts); some (text s ∷ rest)

-- The positions of the empty groups that are neither the first nor the last.
inner_empty : ℕ → List Group → List ℕ
inner_empty i [] = []
inner_empty i (g ∷ []) = []
inner_empty i (g ∷ h ∷ gs) =
    let rest = inner_empty (i + 1) (h ∷ gs) in if is_empty g && not (i == 0) then i ∷ rest else rest

abbrev last_empty : List Group → Bool
last_empty [] = false
last_empty (g ∷ []) = is_empty g
last_empty (g ∷ h ∷ gs) = last_empty (h ∷ gs)

abbrev first_empty : List Group → Bool
first_empty [] = false
first_empty (g ∷ gs) = is_empty g

abbrev zeros : ℕ → List ℕ
zeros zero = []
zeros (suc n) = 0 ∷ zeros n

-- The groups before and after `::`, at position `i`. A leading or trailing empty group must be
-- part of it.
around_skip : ℕ → List Group → Option (List ℕ)
unfolding groups
around_skip i gs =
    let hi = if first_empty gs then i - 1 else i in
    let low = length gs - i - 1 in
    let lo = if last_empty gs then low - 1 else low in
    if (first_empty gs && not (hi == 0)) || (last_empty gs && not (lo == 0)) || leb 8 (hi + lo)
    then none
    else (do
      before ← groups (take hi gs)
      after ← groups (drop (length gs - lo) gs)
      some (before ++ zeros (8 - (hi + lo)) ++ after))

words_of : List ℕ → List Group → Option (List ℕ)
unfolding groups around_skip
words_of [] gs = if length gs == 8 then groups gs else none
words_of (i ∷ []) gs = around_skip i gs
words_of _ gs = none

abbrev join_words : ℕ → List ℕ → ℕ
join_words n [] = n
join_words n (w ∷ ws) = join_words (n * 2 ^ 16 + w) ws

unfoldable pub ipv6_address : Text → Option ℕ
unfolding split_on with_ipv4 inner_empty words_of
ipv6_address s =
    let parts = split_on b':' s in
    if ltb (length parts) 3 then none else (do
      gs ← with_ipv4 parts
      ws ← (if ltb 9 (length gs) then none else words_of (inner_empty 0 gs) gs)
      some (join_words 0 ws))

abbrev or_v6 : Option ℕ → Option ℕ → Option Ip
or_v6 (some n) other = some (v4 n)
or_v6 none (some n) = some (v6 n)
or_v6 none none = none

-- `none` stands for the `ValueError` of a text that is no address.
unfoldable pub ip_address : Text → Option Ip
unfolding ipv4_address ipv6_address
ip_address s = or_v6 (ipv4_address s) (ipv6_address s)

reads_addresses :
    (ip_address (codes "127.0.0.1") ≡ some (v4 0x7f00_0001))
    × (ip_address (codes "01.2.3.4") ≡ none)
    × (ip_address (codes "::1") ≡ some (v6 1))
    × (ip_address (codes "::") ≡ some (v6 0))
    × (ip_address (codes "::ffff:10.0.0.1") ≡ some (v6 0xffff_0a00_0001))
    × (ip_address (codes "2001:db8::8:800:200c:417a")
        ≡ some (v6 0x2001_0db8_0000_0000_0008_0800_200c_417a))
    × (ip_address (codes "1::2::3") ≡ none)
unfolding ip_address
reads_addresses = (refl, refl, refl, refl, refl, refl, refl)
