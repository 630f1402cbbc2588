-- ===== src/Listener/Keys.antt =====
-- The ports, addresses and keys of the listeners that are read.
use remnanode_xhttp_cleaner.Base.{
  ℕ, ◌≤◌, ◌≡◌, refl, sym, subst, Bool, true, false, List, [], ◌∷◌, ◌++◌, arith, All, All-append,
  if◌then◌else◌, Outcome, ok, err, ◌⊎◌, inl, inr, Bool-cases, ok-injective,
}
use remnanode_xhttp_cleaner.Base.Int.{ℤ, pos, negsuc}
use remnanode_xhttp_cleaner.Base.Text.{Text, codes, text_eq, text_eq_refl}
use remnanode_xhttp_cleaner.Json.{
  Json, Fields, Items, nil, item, null, bool, int, float, str, list, dict, get, end,
}
use remnanode_xhttp_cleaner.Listener.{
  XhttpListener, Round, skip, take_item, raise_overflow, port_read, port_of, int_of, is_unix,
  with_address, with_port, with_stream, read_inbound, has_key, listeners_loop, from_inbounds,
  parse_xhttp_listeners,
}

-- A listener on a TCP port.
pub record IsTcp (l : XhttpListener) : Type 0 where
  pub port_positive : 1 ≤ l.port
  pub port_fits : l.port ≤ 65535
  pub is_no_path : is_unix l.address ≡ false

-- The listener has not this address and port.
abbrev pub Differs : Text → ℕ → XhttpListener → Type 0
Differs address port l = ¬ ((l.address ≡ address) × (l.port ≡ port))

-- No two listeners have the same address and port.
pub IsDistinct : List XhttpListener → Type 0
IsDistinct [] = Unit
IsDistinct (l ∷ ls) = All (Differs l.address l.port) ls × IsDistinct ls

abbrev IsPort : ℕ → Type 0
IsPort n = (1 ≤ n) × (n ≤ 65535)

port_read-IsPort : (o : Outcome ℤ) (n : ℕ) → port_read o ≡ take_item n → IsPort n
port_read-IsPort (ok (pos m)) n h = ground arith
port_read-IsPort (ok (negsuc m)) n h = ground arith
port_read-IsPort (err e) n h = ground arith

port_of-IsPort : (v : Json) (n : ℕ) → port_of v ≡ take_item n → IsPort n
unfolding port_of
port_of-IsPort (bool b) n h = ground arith
port_of-IsPort null n h = port_read-IsPort (int_of null) n h
port_of-IsPort (int m) n h = port_read-IsPort (int_of (int m)) n h
port_of-IsPort (float x) n h = port_read-IsPort (int_of (float x)) n h
port_of-IsPort (str s) n h = port_read-IsPort (int_of (str s)) n h
port_of-IsPort (list xs) n h = port_read-IsPort (int_of (list xs)) n h
port_of-IsPort (dict fs) n h = port_read-IsPort (int_of (dict fs)) n h

with_address-IsTcp :
    (inbound : Fields) (port : ℕ) (address : Text) (l : XhttpListener)
    → IsPort port
    → with_address inbound port address ≡ take_item l
    → IsTcp l
with_address-IsTcp inbound port address l range h = ground arith

with_port-IsTcp :
    (inbound : Fields) (v : Json) (round : Round ℕ) (l : XhttpListener)
    → port_of v ≡ round
    → with_port inbound round ≡ take_item l
    → IsTcp l
with_port-IsTcp inbound v skip l e h = ground arith
with_port-IsTcp inbound v raise_overflow l e h = ground arith
with_port-IsTcp inbound v (take_item n) l e h =
    with_address-IsTcp inbound n _ l (port_of-IsPort v n e) h

if_xhttp-IsTcp :
    (b : Bool) (inbound : Fields) (v : Json) (l : XhttpListener)
    → (if b then with_port inbound (port_of v) else skip) ≡ take_item l
    → IsTcp l
if_xhttp-IsTcp true inbound v l h = with_port-IsTcp inbound v (port_of v) l refl h
if_xhttp-IsTcp false inbound v l h = ground arith

with_stream-IsTcp :
    (inbound : Fields) (v : Json) (l : XhttpListener)
    → with_stream inbound v ≡ take_item l
    → IsTcp l
with_stream-IsTcp inbound (dict stream) l h =
    if_xhttp-IsTcp _ inbound (get (codes "port") null inbound) l h
with_stream-IsTcp inbound v l h = ground arith

read_inbound-IsTcp : (v : Json) (l : XhttpListener) → read_inbound v ≡ take_item l → IsTcp l
unfolding read_inbound
read_inbound-IsTcp (dict inbound) l h =
    with_stream-IsTcp inbound (get (codes "streamSettings") (dict end) inbound) l h
read_inbound-IsTcp v l h = ground arith

IsDistinct-append :
    (ls : List XhttpListener) (l : XhttpListener)
    → IsDistinct ls
    → All (Differs l.address l.port) ls
    → IsDistinct (ls ++ l ∷ [])
unfolding IsDistinct
IsDistinct-append [] l distinct new = (tt, tt)
IsDistinct-append (m ∷ ls) l distinct new = (
  All-append _ ls (l ∷ []) distinct.0 (λ same. new.0 (sym same.0, sym same.1), tt),
  IsDistinct-append ls l distinct.1 new.1,
)

-- `seen` holds the keys of the listeners.
abbrev AreSeen : List (Text × ℕ) → List XhttpListener → Type 0
AreSeen seen ls =
    (address : Text) (port : ℕ) → has_key address port seen ≡ false → All (Differs address port) ls

has_key-cons :
    (address : Text) (port : ℕ) (l : XhttpListener) (seen : List (Text × ℕ))
    → has_key address port ((l.address, l.port) ∷ seen) ≡ false
    → Differs address port l × (has_key address port seen ≡ false)
unfolding has_key
has_key-cons address port l seen h = (
  λ same.
      let equal = subst (λ a. text_eq a l.address ≡ true) same.0 (text_eq_refl l.address) in
      let port_equal = same.1 in ground arith,
  ground arith,
)

AreSeen-cons :
    (seen : List (Text × ℕ)) (ls : List XhttpListener) (l : XhttpListener)
    → AreSeen seen ls
    → AreSeen ((l.address, l.port) ∷ seen) (ls ++ l ∷ [])
AreSeen-cons seen ls l known address port h =
    let new = has_key-cons address port l seen h in
    All-append _ ls (l ∷ []) (known address port new.1) (new.0, tt)

pub record IsGood (ls : List XhttpListener) : Type 0 where
  pub are_tcp : All IsTcp ls
  pub are_distinct : IsDistinct ls

pub Round-cases :
    (r : Round XhttpListener)
    → (r ≡ skip) ⊎ ((r ≡ raise_overflow) ⊎ ((l : XhttpListener) × (r ≡ take_item l)))
Round-cases skip = inl refl
Round-cases raise_overflow = inr (inl refl)
Round-cases (take_item l) = inr (inr (l, refl))

listeners_loop-IsGood :
    (items : Items) (ls : List XhttpListener) (seen : List (Text × ℕ)) (out : List XhttpListener)
    → IsGood ls
    → AreSeen seen ls
    → listeners_loop items ls seen ≡ ok out
    → IsGood out
unfolding listeners_loop
listeners_loop-IsGood nil ls seen out good known h = subst IsGood (ok-injective _ _ h) good
listeners_loop-IsGood (item inbound rest) ls seen out good known h =
    elim (Round-cases (read_inbound inbound)) [
      | inl e ↦ listeners_loop-IsGood rest ls seen out good known (rw (e, listeners_loop) at h)
      | inr (inl e) ↦ absurd (ground (arith, rw (e, listeners_loop) at h))
      | inr (inr (l, e)) ↦ elim (Bool-cases (has_key l.address l.port seen)) [
        | inl old ↦
            listeners_loop-IsGood rest ls seen out good known (rw (e, old, listeners_loop) at h)
        | inr new ↦
            listeners_loop-IsGood rest (ls ++ l ∷ []) ((l.address, l.port) ∷ seen) out
              (record {
                are_tcp =
                    All-append _ ls (l ∷ []) good.are_tcp (read_inbound-IsTcp inbound l e, tt);
                are_distinct =
                    IsDistinct-append ls l good.are_distinct (known l.address l.port new);
              })
              (AreSeen-cons seen ls l known) (rw (e, new, listeners_loop) at h)
      ]
    ]

from_inbounds-IsGood : (v : Json) (out : List XhttpListener) → from_inbounds v ≡ ok out → IsGood out
from_inbounds-IsGood (list inbounds) out h =
    listeners_loop-IsGood inbounds [] [] out
      (record { are_tcp = tt; are_distinct = unfold IsDistinct in tt }) (λ address port e. tt) h
from_inbounds-IsGood v out h =
    subst IsGood (ok-injective _ _ h)
      (record { are_tcp = tt; are_distinct = unfold IsDistinct in tt })

-- The listeners that are read have ports from 1 to 65535 and no address that names a unix socket,
-- and no two of them have the same address and port.
pub parse_xhttp_listeners-IsGood :
    (config : Json) (out : List XhttpListener) → parse_xhttp_listeners config ≡ ok out → IsGood out
unfolding parse_xhttp_listeners
parse_xhttp_listeners-IsGood (dict raw) out h =
    from_inbounds-IsGood (get (codes "inbounds") (list nil) raw) out h
parse_xhttp_listeners-IsGood v out h =
    subst IsGood (ok-injective _ _ h)
      (record { are_tcp = tt; are_distinct = unfold IsDistinct in tt })
