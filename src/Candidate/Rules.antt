-- ===== src/Candidate/Rules.antt =====
-- The rules by which a socket may be closed, stated apart from the code, and
-- `candidate_kind` against them.
use mathlib.Core.List.{Memᴰ}
use remnanode_xhttp_cleaner.Base.{
  ℕ, ◌*◌, ◌≤◌, ◌<◌, ◌≡◌, refl, true, false, ◌&&◌, ◌||◌, Option, none, some, List, [], ◌∷◌, arith,
  contains, ◌⊎◌, ◌↔◌, ◌==◌, inl, inr, Option-cases, Bool-cases, min,
}
use remnanode_xhttp_cleaner.Config.{Config}
use remnanode_xhttp_cleaner.Address.{is_loopback}
use remnanode_xhttp_cleaner.Socket.{
  SocketRecord, idle_ms, Kind, close_wait, xhttp_buffer, inbound, outbound, tcp_established,
  tcp_close_wait,
}
use remnanode_xhttp_cleaner.Listener.{XhttpListener}
use remnanode_xhttp_cleaner.Candidate.{
  xhttp_listener_matches, matching_xhttp_listener, candidate_kind, established_kind,
}

-- Neither direction has carried data for `ms` milliseconds, and both times are known and not 0.
pub record IsQuiet (r : SocketRecord) (ms : ℕ) : Type 0 where
  pub sent : ℕ
  pub received : ℕ
  pub sent_known : r.last_sent_ms ≡ some sent
  pub received_known : r.last_received_ms ≡ some received
  pub sent_positive : 0 < sent
  pub received_positive : 0 < received
  pub sent_long_ago : ms ≤ sent
  pub received_long_ago : ms ≤ received

-- One of the listeners accepts the socket's local address and port.
abbrev pub IsServed : SocketRecord → List XhttpListener → Type 0
IsServed r listeners = (l : XhttpListener) × Memᴰ l listeners × (xhttp_listener_matches r l ≡ true)

abbrev pub IsSpared : SocketRecord → Config → Type 0
IsSpared r config =
    (config.exclude_loopback ≡ true)
    × ((is_loopback r.local_address ≡ true) ⊎ (is_loopback r.remote_address ≡ true))

module _ (r : SocketRecord) (owned ports : List ℕ) (config : Config) (ls : List XhttpListener) where
  -- What every candidate satisfies.
  pub record IsOwnedQuiet : Type 0 where
    pub is_owned : contains owned r.inode ≡ true
    pub is_quiet : IsQuiet r (config.idle_seconds * 1000)

  -- The four ways to be a candidate. The exemption of loopback is one of the last two only.
  pub data IsReapable : Kind → Type 0 where
    peer_closed : r.state ≡ tcp_close_wait → config.clean_close_wait ≡ true → IsReapable close_wait
    idle_xhttp :
        r.state ≡ tcp_established
        → contains ports r.local_port ≡ true
        → config.clean_xhttp_buffers ≡ true
        → IsServed r ls
        → IsReapable xhttp_buffer
    idle_inbound :
        r.state ≡ tcp_established
        → contains ports r.local_port ≡ true
        → config.include_inbound ≡ true
        → ¬ ((config.clean_xhttp_buffers ≡ true) × IsServed r ls)
        → ¬ IsSpared r config
        → IsReapable inbound
    idle_outbound :
        r.state ≡ tcp_established
        → contains ports r.local_port ≡ false
        → config.clean_established_outbound ≡ true
        → ¬ IsSpared r config
        → IsReapable outbound

-- An item of a list that is not its head stands behind it.
Memᴰ-other :
    {x y : XhttpListener} {ls : List XhttpListener} → Memᴰ y (x ∷ ls) → ¬ (y ≡ x) → Memᴰ y ls
Memᴰ-other (Memᴰ.head e) differs = absurd (differs e)
Memᴰ-other (Memᴰ.tail m) differs = m

module _ (r : SocketRecord) where
  matching-IsServed :
      (ls : List XhttpListener) (l : XhttpListener)
      → matching_xhttp_listener r ls ≡ some l
      → IsServed r ls
  unfolding matching_xhttp_listener
  matching-IsServed [] l h = cc
  matching-IsServed (x ∷ ls) l h = elim (Bool-cases (xhttp_listener_matches r x)) [
    | inl yes_x ↦ (x, Memᴰ.head refl, yes_x)
    | inr no_x ↦
        let (y, there, matches) = matching-IsServed ls l (ground arith) in
        (y, Memᴰ.tail there, matches)
  ]

  IsServed-matching :
      (ls : List XhttpListener)
      → IsServed r ls
      → (l : XhttpListener) × (matching_xhttp_listener r ls ≡ some l)
  unfolding matching_xhttp_listener
  IsServed-matching [] (y, there, matches) = elim there [ ]
  IsServed-matching (x ∷ ls) (y, there, matches) = elim (Bool-cases (xhttp_listener_matches r x)) [
    | inl yes_x ↦ (x, ground arith)
    | inr no_x ↦
        let (l, e) = IsServed-matching ls (y, Memᴰ-other there (ground arith), matches) in
        (l, ground arith)
  ]

  IsQuiet-of :
      (a b : Option ℕ) (idle ms : ℕ)
      → r.last_sent_ms ≡ a
      → r.last_received_ms ≡ b
      → idle_ms r ≡ some idle
      → ms ≤ idle
      → IsQuiet r ms
  unfolding idle_ms
  IsQuiet-of (some a) (some b) idle ms ea eb h le = record {
    sent = a;
    received = b;
    sent_known = ea;
    received_known = eb;
    sent_positive = ground arith;
    received_positive = ground arith;
    sent_long_ago = ground arith;
    received_long_ago = ground arith;
  }
  IsQuiet-of none _ idle ms ea eb h le = absurd (ground arith)
  IsQuiet-of (some a) none idle ms ea eb h le = absurd (ground arith)

  idle_ms-IsQuiet : (idle ms : ℕ) → idle_ms r ≡ some idle → ms ≤ idle → IsQuiet r ms
  idle_ms-IsQuiet idle ms h le = IsQuiet-of r.last_sent_ms r.last_received_ms idle ms refl refl h le

  IsQuiet-idle_ms : (ms : ℕ) → IsQuiet r ms → (n : ℕ) × (idle_ms r ≡ some n) × (ms ≤ n)
  unfolding idle_ms
  IsQuiet-idle_ms ms q = (min q.sent q.received, ground arith, omega arith)

module _ (r : SocketRecord) (owned ports : List ℕ) (config : Config) (ls : List XhttpListener) where
  -- The code spares an established connection by the loopback rule.
  not-IsSpared :
      config.exclude_loopback && (is_loopback r.local_address || is_loopback r.remote_address)
        ≡ false
      → ¬ IsSpared r config
  not-IsSpared h spared = ground arith

  established-IsReapable :
      (kind : Kind)
      → r.state ≡ tcp_established
      → established_kind r ports config ls ≡ some kind
      → IsReapable r owned ports config ls kind
  unfolding established_kind
  established-IsReapable close_wait s h = absurd (ground arith)
  established-IsReapable xhttp_buffer s h = elim (Option-cases (matching_xhttp_listener r ls)) [
    | inl e ↦ absurd (ground arith)
    | inr (l, e) ↦ idle_xhttp s (ground arith) (ground arith) (matching-IsServed r ls l e)
  ]
  established-IsReapable inbound s h =
      idle_inbound s (ground arith) (ground arith)
        (λ served. let (l, e) = IsServed-matching r ls served.1 in absurd (ground arith))
        (not-IsSpared (ground arith))
  established-IsReapable outbound s h =
      idle_outbound s (ground arith) (ground arith) (not-IsSpared (ground arith))

  candidate-IsReapable :
      (kind : Kind) (n : ℕ)
      → idle_ms r ≡ some n
      → candidate_kind r owned ports config ls ≡ some kind
      → ((r.state == tcp_close_wait) ≡ true) ⊎ ((r.state == tcp_close_wait) ≡ false)
      → IsReapable r owned ports config ls kind
  unfolding candidate_kind
  candidate-IsReapable close_wait n e h (inl closed) = peer_closed (ground arith) (ground arith)
  candidate-IsReapable _ n e h (inl closed) = absurd (ground arith)
  candidate-IsReapable kind n e h (inr open_still) =
      established-IsReapable kind (ground arith) (ground arith)

  -- No matching listener, or the cleaning of XHTTP buffers is off.
  not_xhttp_buffer :
      ¬ ((config.clean_xhttp_buffers ≡ true) × IsServed r ls)
      → (matching_xhttp_listener r ls ≡ none)
        ⊎ ((l : XhttpListener) × (matching_xhttp_listener r ls ≡ some l))
      → (matching_xhttp_listener r ls ≡ none) ⊎ (config.clean_xhttp_buffers ≡ false)
  not_xhttp_buffer other (inl e) = inl e
  not_xhttp_buffer other (inr (l, e)) = elim (Bool-cases config.clean_xhttp_buffers) [
    | inl on ↦ absurd (other (on, matching-IsServed r ls l e))
    | inr off ↦ inr off
  ]

  candidate_kind_complete :
      (kind : Kind)
      → IsOwnedQuiet r owned ports config ls
      → IsReapable r owned ports config ls kind
      → candidate_kind r owned ports config ls ≡ some kind
  unfolding candidate_kind
  candidate_kind_complete kind o (peer_closed s c) =
      let (n, e, long) = IsQuiet-idle_ms r _ o.is_quiet in ground arith
  candidate_kind_complete kind o (idle_xhttp s p c served) =
      let (n, e, long) = IsQuiet-idle_ms r _ o.is_quiet in
      let (l, m) = IsServed-matching r ls served in ground arith
  candidate_kind_complete kind o (idle_inbound s p c other spared) =
      let (n, e, long) = IsQuiet-idle_ms r _ o.is_quiet in
      let not_xhttp = not_xhttp_buffer other (Option-cases (matching_xhttp_listener r ls)) in
      ground arith
  candidate_kind_complete kind o (idle_outbound s p c spared) =
      let (n, e, long) = IsQuiet-idle_ms r _ o.is_quiet in ground arith

  candidate_kind_sound :
      (kind : Kind)
      → candidate_kind r owned ports config ls ≡ some kind
      → IsOwnedQuiet r owned ports config ls × IsReapable r owned ports config ls kind
  unfolding candidate_kind
  candidate_kind_sound kind h = elim (Option-cases (idle_ms r)) [
    | inl e ↦ absurd (ground arith)
    | inr (n, e) ↦ (
      record { is_owned = ground arith; is_quiet = idle_ms-IsQuiet r n _ e (ground arith) },
      candidate-IsReapable kind n e h (Bool-cases (r.state == tcp_close_wait)),
    )
  ]

  -- `candidate_kind` is exactly the rules: it returns a kind if and only if the socket is owned,
  -- quiet for the configured time, and reapable in the way that the kind names.
  pub candidate_kind_iff :
      (kind : Kind)
      → (candidate_kind r owned ports config ls ≡ some kind)
        ↔ (IsOwnedQuiet r owned ports config ls × IsReapable r owned ports config ls kind)
  candidate_kind_iff kind = (candidate_kind_sound kind, λ (o, q). candidate_kind_complete kind o q)
