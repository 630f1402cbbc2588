-- ===== src/Listener/Complete.antt =====
-- `parse_xhttp_listeners` against the inbounds that qualify.
use remnanode_xhttp_cleaner.Base.{
  ℕ, ◌≡◌, refl, Bool, true, false, ◌&&◌, ◌||◌, List, [], ◌∷◌, ◌++◌, map, arith, ◌==◌, ap, sym, ◌∙◌,
  ok, inl, inr, Bool-cases, ok-injective,
}
use remnanode_xhttp_cleaner.Base.Text.{Text, codes, text_eq, text_eq_sound}
use remnanode_xhttp_cleaner.Json.{Json, Items, nil, item, list, dict, get}
use remnanode_xhttp_cleaner.Listener.{
  XhttpListener, Round, skip, take_item, raise_overflow, read_inbound, has_key, listeners_loop,
  from_inbounds, parse_xhttp_listeners,
}
use remnanode_xhttp_cleaner.Listener.Keys.{IsGood, Round-cases, parse_xhttp_listeners-IsGood}

abbrev pub key : XhttpListener → Text × ℕ
key l = (l.address, l.port)

abbrev pub taken : Round XhttpListener → List XhttpListener → List XhttpListener
taken (take_item l) rest = l ∷ rest
taken skip rest = rest
taken raise_overflow rest = rest

-- The listeners of all inbounds that qualify, each inbound read by itself.
abbrev pub qualified : Items → List XhttpListener
qualified nil = []
qualified (item inbound rest) = taken (read_inbound inbound) (qualified rest)

abbrev qualified_list : Json → List XhttpListener
qualified_list (list inbounds) = qualified inbounds
qualified_list _ = []

abbrev pub qualified_in : Json → List XhttpListener
qualified_in (dict raw) = qualified_list (get (codes "inbounds") (list nil) raw)
qualified_in _ = []

or-false : (s : Bool) → (s || false) ≡ s
or-false true = refl
or-false false = refl

or-absorbs : (s m t : Bool) → (m ≡ true → s ≡ true) → (s || t) ≡ (s || (m || t))
or-absorbs true m t f = refl
or-absorbs false true t f = absurd (let e = f refl in cc)
or-absorbs false false t f = refl

or-swaps : (s m t : Bool) → ((m || s) || t) ≡ (s || (m || t))
or-swaps true true t = refl
or-swaps true false t = refl
or-swaps false true t = refl
or-swaps false false t = refl

module _ (address : Text) (port : ℕ) where
  abbrev has : List XhttpListener → Bool
  has ls = has_key address port (map key ls)

  abbrev matches : XhttpListener → Bool
  matches l = text_eq address l.address && (port == l.port)

  has-append :
      (ls : List XhttpListener) (l : XhttpListener) → has (ls ++ l ∷ []) ≡ (matches l || has ls)
  unfolding has_key
  has-append [] l = refl
  has-append (m ∷ ls) l = ground (arith, has-append ls l)

  matches-seen :
      (l : XhttpListener) (seen : List (Text × ℕ))
      → has_key l.address l.port seen ≡ true
      → matches l ≡ true
      → has_key address port seen ≡ true
  matches-seen l seen old same =
      let a : address ≡ l.address = text_eq_sound address l.address (ground arith) in
      let p : port ≡ l.port = ground arith in rw (a, p, old)

  seen-cons :
      (l : XhttpListener) (seen : List (Text × ℕ))
      → has_key address port (key l ∷ seen) ≡ (matches l || has_key address port seen)
  unfolding has_key
  seen-cons l seen = refl

  none_more :
      (seen : List (Text × ℕ)) → (has_key address port seen || has []) ≡ has_key address port seen
  unfolding has_key
  none_more seen = or-false (has_key address port seen)

  listeners_loop-has :
      (items : Items) (ls : List XhttpListener) (seen : List (Text × ℕ)) (out : List XhttpListener)
      → has ls ≡ has_key address port seen
      → listeners_loop items ls seen ≡ ok out
      → has out ≡ (has_key address port seen || has (qualified items))
  unfolding listeners_loop
  listeners_loop-has nil ls seen out known h =
      ap has (sym (ok-injective ls out h)) ∙ known ∙ sym (none_more seen)
  listeners_loop-has (item inbound rest) ls seen out known h =
      elim (Round-cases (read_inbound inbound)) [
        | inl e ↦ rw e (listeners_loop-has rest ls seen out known (rw (e, listeners_loop) at h))
        | inr (inl e) ↦ absurd (ground (arith, rw (e, listeners_loop) at h))
        | inr (inr (l, e)) ↦ elim (Bool-cases (has_key l.address l.port seen)) [
          | inl old ↦
              rw (e, seen-cons l (map key (qualified rest)))
                (listeners_loop-has rest ls seen out known (rw (e, old, listeners_loop) at h)
                  ∙ or-absorbs (has_key address port seen) (matches l) (has (qualified rest))
                      (matches-seen l seen old))
          | inr new ↦
              rw (e, seen-cons l (map key (qualified rest)))
                (listeners_loop-has rest (ls ++ l ∷ []) (key l ∷ seen) out
                    (has-append ls l
                      ∙ ap (λ (b : Bool). matches l || b) known
                      ∙ sym (seen-cons l seen))
                    (rw (e, new, listeners_loop) at h)
                  ∙ ap (λ (b : Bool). b || has (qualified rest)) (seen-cons l seen)
                  ∙ or-swaps (has_key address port seen) (matches l) (has (qualified rest)))
        ]
      ]

from_inbounds-has :
    (v : Json) (out : List XhttpListener) (address : Text) (port : ℕ)
    → from_inbounds v ≡ ok out
    → has address port out ≡ has address port (qualified_list v)
unfolding has_key
from_inbounds-has (list inbounds) out address port h =
    listeners_loop-has address port inbounds [] [] out refl h
from_inbounds-has v out address port h = ap (has address port) (sym (ok-injective [] out h))

parse_xhttp_listeners-has :
    (raw : Json) (out : List XhttpListener) (address : Text) (port : ℕ)
    → parse_xhttp_listeners raw ≡ ok out
    → has address port out ≡ has address port (qualified_in raw)
unfolding parse_xhttp_listeners
parse_xhttp_listeners-has (dict raw) out address port h =
    from_inbounds-has (get (codes "inbounds") (list nil) raw) out address port h
parse_xhttp_listeners-has v out address port h = ap (has address port) (sym (ok-injective [] out h))

-- The listeners that are read have ports from 1 to 65535 and no address that names a unix socket, no
-- two of them have the same address and port, and an address with a port is among them exactly if it
-- is that of an inbound that qualifies by itself.
pub parse_xhttp_listeners-IsComplete :
    (raw : Json) (out : List XhttpListener)
    → parse_xhttp_listeners raw ≡ ok out
    → IsGood out
      × ((address : Text) (port : ℕ)
          → has_key address port (map key out) ≡ has_key address port (map key (qualified_in raw)))
parse_xhttp_listeners-IsComplete raw out h = (
  parse_xhttp_listeners-IsGood raw out h,
  λ address port. parse_xhttp_listeners-has raw out address port h,
)
