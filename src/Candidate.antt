-- ===== src/Candidate.antt =====
-- remnanode-xhttp-clean.py: the choice of the sockets to close, `xhttp_listener_matches`,
-- `matching_xhttp_listener`, `candidate_kind`, `candidate_reason`, and the states that are asked of
-- the kernel, `state_mask` and `diagnostic_states`.
pub mod Rules
use Prim.Native.Nat.{bit_or}
use mathlib.Core.List.{reverse}
use remnanode_xhttp_cleaner.Base.{
  ℕ, ◌+◌, ◌*◌, ◌/◌, ◌^◌, Bool, true, false, not, ◌&&◌, ◌||◌, Option, none, some, List, [], ◌∷◌,
  ◌++◌, ltb, ◌==◌, contains, if◌then◌else◌,
}
use remnanode_xhttp_cleaner.Base.Text.{Text, codes, text_eq, strip}
use remnanode_xhttp_cleaner.Config.{Config}
use remnanode_xhttp_cleaner.Address.{
  normalized_ip, is_loopback, is_unspecified, version, ip_eq, ipv4_mapped,
}
use remnanode_xhttp_cleaner.Address.Parse.{Ip}
use remnanode_xhttp_cleaner.Address.Print.{decimal}
use remnanode_xhttp_cleaner.Socket.{
  SocketRecord, idle_ms, or_zero, Kind, close_wait, xhttp_buffer, inbound, outbound,
  tcp_established, tcp_close_wait, tcp_listen,
}
use remnanode_xhttp_cleaner.Listener.{XhttpListener}

strip_brackets_left : Text → Text
strip_brackets_left [] = []
strip_brackets_left (c ∷ s) =
    let rest = strip_brackets_left s in if (c == b'[') || (c == b']') then rest else c ∷ s

-- `address.strip("[]")`
unfoldable pub strip_brackets : Text → Text
unfolding strip_brackets_left
strip_brackets s = reverse (strip_brackets_left (reverse (strip_brackets_left s)))

abbrev mapped_is : Option Ip → Ip → Bool
mapped_is none configured = false
mapped_is (some ip) configured = ip_eq ip configured

-- The tests on the two addresses, once they are read.
unfoldable pub addresses_match : Option Ip → Option Ip → Bool
unfolding is_unspecified version ip_eq ipv4_mapped
addresses_match (some configured) (some local) =
    if is_unspecified configured
    then version configured == version local
    else if ip_eq configured local
    then true
    else mapped_is (ipv4_mapped local) configured
addresses_match _ _ = false

unfoldable pub xhttp_listener_matches : SocketRecord → XhttpListener → Bool
unfolding strip strip_brackets addresses_match normalized_ip text_eq
xhttp_listener_matches r listener =
    let address = strip listener.address in
    if not (r.local_port == listener.port)
    then false
    else if text_eq address [] || text_eq address (codes "*")
    then true
    else addresses_match (normalized_ip (strip_brackets address)) (normalized_ip r.local_address)

-- `next((item for item in listeners if …), None)`
unfoldable pub matching_xhttp_listener : SocketRecord → List XhttpListener → Option XhttpListener
matching_xhttp_listener r [] = none
matching_xhttp_listener r (l ∷ ls) =
    let rest = matching_xhttp_listener r ls in if xhttp_listener_matches r l then some l else rest

abbrev found : Option XhttpListener → Bool
found none = false
found (some l) = true

-- `record.state not in TARGET_STATES`
abbrev is_target_state : ℕ → Bool
is_target_state s = (s == tcp_established) || (s == tcp_close_wait)

-- The last test of `candidate_kind`, for an established connection of a kind.
unfoldable pub unless_loopback : Config → SocketRecord → Kind → Option Kind
unless_loopback config r xhttp_buffer = some xhttp_buffer
unless_loopback config r kind =
    if config.exclude_loopback && (is_loopback r.local_address || is_loopback r.remote_address)
    then none
    else some kind

unfoldable pub established_kind : SocketRecord → List ℕ → Config → List XhttpListener → Option Kind
unfolding unless_loopback matching_xhttp_listener
established_kind r listen_ports config xhttp_listeners =
    let is_xhttp =
      found (matching_xhttp_listener r xhttp_listeners) && config.clean_xhttp_buffers in
    if contains listen_ports r.local_port
    then (if is_xhttp
        then unless_loopback config r xhttp_buffer
        else if config.include_inbound
        then unless_loopback config r inbound
        else none)
    else if not config.clean_established_outbound
    then none
    else unless_loopback config r outbound

abbrev idle_kind : Option ℕ → SocketRecord → List ℕ → Config → List XhttpListener → Option Kind
idle_kind none r listen_ports config xhttp_listeners = none
idle_kind (some idle) r listen_ports config xhttp_listeners =
    if ltb idle (config.idle_seconds * 1000)
    then none
    else if r.state == tcp_close_wait
    then (if config.clean_close_wait then some close_wait else none)
    else established_kind r listen_ports config xhttp_listeners

unfoldable pub candidate_kind :
    SocketRecord → List ℕ → List ℕ → Config → List XhttpListener → Option Kind
unfolding established_kind idle_ms
candidate_kind r owned_inodes listen_ports config xhttp_listeners =
    if not (is_target_state r.state) || not (contains owned_inodes r.inode)
    then none
    else idle_kind (idle_ms r) r listen_ports config xhttp_listeners

abbrev reason_of : Option Kind → SocketRecord → Option Text
reason_of none r = none
reason_of (some kind) r =
    some (codes "нет передачи данных " ++ decimal (or_zero (idle_ms r) / 1000) ++ codes " с")

unfoldable pub candidate_reason :
    SocketRecord → List ℕ → List ℕ → Config → List XhttpListener → Option Text
unfolding candidate_kind decimal
candidate_reason r owned_inodes listen_ports config xhttp_listeners =
    reason_of (candidate_kind r owned_inodes listen_ports config xhttp_listeners) r

-- `result |= 1 << state` for each state
unfoldable pub state_mask_from : ℕ → List ℕ → ℕ
state_mask_from result [] = result
state_mask_from result (s ∷ states) = state_mask_from (bit_or result (2 ^ s)) states

unfoldable pub state_mask : List ℕ → ℕ
unfolding state_mask_from
state_mask states = state_mask_from 0 states

unfoldable pub diagnostic_states : Config → List ℕ
diagnostic_states config =
    (if config.clean_close_wait then tcp_close_wait ∷ [] else [])
    ++ (if config.clean_xhttp_buffers || config.clean_established_outbound || config.include_inbound
        then tcp_established ∷ tcp_listen ∷ []
        else [])
