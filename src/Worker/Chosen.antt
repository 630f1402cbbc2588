-- ===== src/Worker/Chosen.antt =====
-- The candidates of the first look, and their order.
use mathlib.Core.List.{Memᴰ, Perm}
use mathlib.Core.List.Perm
use remnanode_xhttp_cleaner.Base.{
  ℕ, ◌≡◌, ◌≤◌, refl, some, List, [], ◌∷◌, arith, Bool-cases, subst, sym, All, All-map, leb, leb→le,
  Option-cases, inl, inr, ap, ◌⊎◌, ◌↔◌,
}
use remnanode_xhttp_cleaner.Config.{Config}
use remnanode_xhttp_cleaner.Socket.{SocketRecord, Kind}
use remnanode_xhttp_cleaner.Listener.{XhttpListener}
use remnanode_xhttp_cleaner.Candidate.{candidate_kind}
use remnanode_xhttp_cleaner.Worker.{Candidate, choose_all, insert, sort_by_idle, idle_key}

pub All-mem {ℓ κ} : {A : Type ℓ} (P : A → Type κ) (xs : List A) (x : A) → All P xs → Memᴰ x xs → P x
All-mem P [] x h m = elim m [ ]
All-mem P (y ∷ xs) x h (Memᴰ.head e) = subst P (sym e) h.0
All-mem P (y ∷ xs) x h (Memᴰ.tail m) = All-mem P xs x h.1 m

module _ (owned ports : List ℕ) (config : Config) (ls : List XhttpListener) where
  -- The first look chose a candidate under its kind.
  abbrev pub IsChosen : Candidate → Type 0
  IsChosen c = candidate_kind c.socket owned ports config ls ≡ some c.kind

  pub choose_all-IsChosen :
      (rs : List SocketRecord) → All IsChosen (choose_all owned ports config ls rs)
  unfolding choose_all
  choose_all-IsChosen [] = tt
  choose_all-IsChosen (r ∷ rs) = elim (Option-cases (candidate_kind r owned ports config ls)) [
    | inl e ↦ rw e (choose_all-IsChosen rs)
    | inr (kind, e) ↦ rw e (e, choose_all-IsChosen rs)
  ]

module _ {κ} (P : Candidate → Type κ) where
  All-insert : (c : Candidate) (ds : List Candidate) → P c → All P ds → All P (insert c ds)
  unfolding insert
  All-insert c [] p h = (p, tt)
  All-insert c (d ∷ ds) p h = elim (Bool-cases (leb (idle_key d) (idle_key c))) [
    | inl e ↦ rw e (p, h)
    | inr e ↦ rw e (h.0, All-insert c ds p h.1)
  ]

  pub All-sort_by_idle : (cs : List Candidate) → All P cs → All P (sort_by_idle cs)
  unfolding sort_by_idle
  All-sort_by_idle [] h = tt
  All-sort_by_idle (c ∷ cs) h = All-insert c (sort_by_idle cs) h.0 (All-sort_by_idle cs h.1)

insert-perm : (c : Candidate) (ds : List Candidate) → Perm (insert c ds) (c ∷ ds)
unfolding insert
insert-perm c [] = Perm.refl _
insert-perm c (d ∷ ds) = elim (Bool-cases (leb (idle_key d) (idle_key c))) [
  | inl e ↦ rw e (Perm.refl _)
  | inr e ↦ rw e (Perm.trans (Perm.cons d (insert-perm c ds)) (Perm.swap c d ds))
]

pub sort_by_idle-perm : (cs : List Candidate) → Perm (sort_by_idle cs) cs
unfolding sort_by_idle
sort_by_idle-perm [] = Perm.refl _
sort_by_idle-perm (c ∷ cs) =
    Perm.trans (insert-perm c (sort_by_idle cs)) (Perm.cons c (sort_by_idle-perm cs))

-- The idle times fall, or stay, from each candidate to all that follow it.
abbrev pub IsFalling : List Candidate → Type 0
IsFalling [] = Unit
IsFalling (c ∷ cs) = All (λ d. idle_key d ≤ idle_key c) cs × IsFalling cs

insert-IsFalling : (c : Candidate) (ds : List Candidate) → IsFalling ds → IsFalling (insert c ds)
unfolding insert
insert-IsFalling c [] h = (tt, tt)
insert-IsFalling c (d ∷ ds) h = elim (Bool-cases (leb (idle_key d) (idle_key c))) [
  | inl e ↦ rw e ((leb→le _ _ e, All-map _ _ ds (λ x le. omega (arith, leb→le _ _ e)) h.0), h)
  | inr e ↦
      rw e (
        All-insert (λ x. idle_key x ≤ idle_key d) c ds (ground arith) h.0,
        insert-IsFalling c ds h.1,
      )
]

-- The candidates are sorted from the longest idle time to the shortest.
pub sort_by_idle-IsFalling : (cs : List Candidate) → IsFalling (sort_by_idle cs)
unfolding sort_by_idle
sort_by_idle-IsFalling [] = tt
sort_by_idle-IsFalling (c ∷ cs) = insert-IsFalling c (sort_by_idle cs) (sort_by_idle-IsFalling cs)

mem_cases {ℓ} : {A : Type ℓ} {x y : A} {xs : List A} → Memᴰ x (y ∷ xs) → (x ≡ y) ⊎ Memᴰ x xs
mem_cases (Memᴰ.head e) = inl e
mem_cases (Memᴰ.tail m) = inr m

insert-mem : (c x : Candidate) (ds : List Candidate) → Memᴰ x (insert c ds) → Memᴰ x (c ∷ ds)
unfolding insert
insert-mem c x [] m = m
insert-mem c x (d ∷ ds) m = elim (Bool-cases (leb (idle_key d) (idle_key c))) [
  | inl e ↦ rw e at m
  | inr e ↦ elim (mem_cases (rw e at m)) [
    | inl here ↦ Memᴰ.tail (Memᴰ.head here)
    | inr there ↦ elim (mem_cases (insert-mem c x ds there)) [
      | inl new ↦ Memᴰ.head new
      | inr old ↦ Memᴰ.tail (Memᴰ.tail old)
    ]
  ]
]

mem-insert : (c x : Candidate) (ds : List Candidate) → Memᴰ x (c ∷ ds) → Memᴰ x (insert c ds)
unfolding insert
mem-insert c x [] m = m
mem-insert c x (d ∷ ds) m = elim (Bool-cases (leb (idle_key d) (idle_key c))) [
  | inl e ↦ rw e m
  | inr e ↦ rw e (elim (mem_cases m) [
    | inl new ↦ Memᴰ.tail (mem-insert c x ds (Memᴰ.head new))
    | inr there ↦ elim (mem_cases there) [
      | inl here ↦ Memᴰ.head here
      | inr old ↦ Memᴰ.tail (mem-insert c x ds (Memᴰ.tail old))
    ]
  ])
]

sort_by_idle-mem : (x : Candidate) (cs : List Candidate) → Memᴰ x (sort_by_idle cs) ↔ Memᴰ x cs
unfolding sort_by_idle
sort_by_idle-mem x [] = (λ m. m, λ m. m)
sort_by_idle-mem x (c ∷ cs) = (
  λ m. elim (mem_cases (insert-mem c x (sort_by_idle cs) m)) [
    | inl new ↦ Memᴰ.head new
    | inr old ↦ Memᴰ.tail ((sort_by_idle-mem x cs).0 old)
  ],
  λ m. mem-insert c x (sort_by_idle cs) (elim (mem_cases m) [
    | inl new ↦ Memᴰ.head new
    | inr old ↦ Memᴰ.tail ((sort_by_idle-mem x cs).1 old)
  ]),
)

module _ (owned ports : List ℕ) (config : Config) (ls : List XhttpListener) where
  choose_all-mem :
      (rs : List SocketRecord) (c : Candidate)
      → Memᴰ c (choose_all owned ports config ls rs)
      → Memᴰ c.socket rs
  unfolding choose_all
  choose_all-mem [] c m = elim m [ ]
  choose_all-mem (r ∷ rs) c m = elim (Option-cases (candidate_kind r owned ports config ls)) [
    | inl e ↦ Memᴰ.tail (choose_all-mem rs c (rw e at m))
    | inr (kind, e) ↦ elim (mem_cases (rw e at m)) [
      | inl here ↦ Memᴰ.head (ap (λ (d : Candidate). d.socket) here)
      | inr there ↦ Memᴰ.tail (choose_all-mem rs c there)
    ]
  ]

  mem-choose_all :
      (rs : List SocketRecord) (r : SocketRecord) (kind : Kind)
      → Memᴰ r rs
      → candidate_kind r owned ports config ls ≡ some kind
      → Memᴰ (record { socket = r; kind = kind }) (choose_all owned ports config ls rs)
  unfolding choose_all
  mem-choose_all [] r kind m e = elim m [ ]
  mem-choose_all (x ∷ rs) r kind m e = elim (mem_cases m) [
    | inl here ↦ rw (← here, e) (Memᴰ.head refl)
    | inr there ↦ elim (Option-cases (candidate_kind x owned ports config ls)) [
      | inl no_x ↦ rw no_x (mem-choose_all rs r kind there e)
      | inr (other, yes_x) ↦ rw yes_x (Memᴰ.tail (mem-choose_all rs r kind there e))
    ]
  ]

  -- A socket is a candidate of the first look exactly if the kernel reported it and it may be
  -- closed under that kind.
  pub candidates-mem :
      (rs : List SocketRecord) (c : Candidate)
      → Memᴰ c (sort_by_idle (choose_all owned ports config ls rs))
        ↔ (Memᴰ c.socket rs × IsChosen owned ports config ls c)
  candidates-mem rs c =
      let sorted = sort_by_idle-mem c (choose_all owned ports config ls rs) in
      (
        λ m. (
          choose_all-mem rs c (sorted.0 m),
          All-mem _ _ c (choose_all-IsChosen owned ports config ls rs) (sorted.0 m),
        ),
        λ h. sorted.1 (mem-choose_all rs c.socket c.kind h.0 h.1),
      )
