-- ===== src/Manager/RuntimeConfig/Braces.antt =====
-- The text between the braces in `dump_runtime_config` of `xray-core-manager.py`.
use remnanode_xhttp_cleaner.Base.{
  ℕ, ◌≡◌, refl, Bool, true, false, not, ◌&&◌, ◌⊎◌, inl, inr, Option, none, some, [], ◌∷◌, ◌++◌,
  ◌==◌, Bool-cases, arith, subst, sym,
}
use remnanode_xhttp_cleaner.Base.Text.{Text}
use remnanode_xhttp_cleaner.Manager.RuntimeConfig.{
  from_open, close_here, up_to_close, between_braces,
}

-- A text in which a character does not occur.
unfoldable pub without : ℕ → Text → Bool
without c [] = true
without c (d ∷ rest) = not (d == c) && without c rest

-- The first and the last character of a text.
unfoldable pub begins : ℕ → Text → Bool
begins c [] = false
begins c (d ∷ rest) = d == c

unfoldable pub finishes : ℕ → Text → Bool
finishes c [] = false
finishes c (d ∷ []) = d == c
finishes c (d ∷ e ∷ rest) = finishes c (e ∷ rest)

abbrev begins_or_empty : Text → Bool
begins_or_empty [] = true
begins_or_empty (d ∷ rest) = d == b'{'

grow : {s t : Text} (c : ℕ) → s ≡ t → c ∷ s ≡ c ∷ t
grow c e = rw e

from_open-split :
    (text : Text)
    → (front : Text) × (text ≡ front ++ from_open text)
      × (without b'{' front ≡ true)
      × (begins_or_empty (from_open text) ≡ true)
unfolding from_open without
from_open-split [] = ([], refl, refl, refl)
from_open-split (c ∷ rest) =
    let ih = from_open-split rest in
    elim (Bool-cases (c == b'{')) [
      | inl e ↦ ([], rw e, refl, rw (e, e))
      | inr e ↦ (c ∷ ih.0, rw (e, grow c ih.1), rw (e, ih.2), rw (e, ih.3))
    ]

close_here-none :
    (c : ℕ) (o : Option Text) → close_here c o ≡ none → (o ≡ none) × ((c == b'}') ≡ false)
close_here-none c none e = (refl, ground (arith, e))
close_here-none c (some text) e = cc

up_to_close-none : (text : Text) → up_to_close text ≡ none → without b'}' text ≡ true
unfolding up_to_close without
up_to_close-none [] e = refl
up_to_close-none (c ∷ rest) e =
    let p = close_here-none c (up_to_close rest) e in rw (p.1, up_to_close-none rest p.0)

close_here-some :
    (c : ℕ) (o : Option Text) (t : Text)
    → close_here c o ≡ some t
    → ((text : Text) × (o ≡ some text) × (t ≡ c ∷ text))
      ⊎ ((o ≡ none) × ((c == b'}') ≡ true) × (t ≡ c ∷ []))
close_here-some c (some text) t e = inl (text, refl, cc)
close_here-some c none t e = elim (Bool-cases (c == b'}')) [
  | inl f ↦ inr (refl, f, last_one f e)
  | inr f ↦ inr (refl, ground (arith, e, f), ground (arith, e, f))
]
  where
    last_one : (c == b'}') ≡ true → close_here c none ≡ some t → t ≡ c ∷ []
    last_one f e = ground (arith, e, f)

finishes-cons : (k c : ℕ) (text : Text) → finishes k text ≡ true → finishes k (c ∷ text) ≡ true
unfolding finishes
finishes-cons k c [] e = cc
finishes-cons k c (d ∷ rest) e = e

begins_of :
    (t back : Text)
    → finishes b'}' t ≡ true
    → begins_or_empty (t ++ back) ≡ true
    → begins b'{' t ≡ true
unfolding finishes begins
begins_of [] back f b = cc
begins_of (d ∷ rest) back f b = b

Closed : Text → Text → Type 0
Closed text t =
    (back : Text) × (text ≡ t ++ back) × (without b'}' back ≡ true) × (finishes b'}' t ≡ true)

up_to_close-split : (text t : Text) → up_to_close text ≡ some t → Closed text t
unfolding up_to_close without finishes Closed
up_to_close-split [] t e = cc
up_to_close-split (c ∷ rest) t e = elim (close_here-some c (up_to_close rest) t e) [
  | inl p ↦
      let ih = up_to_close-split rest p.0 p.1 in
      subst (λ (u : Text). Closed (c ∷ rest) u) (sym p.2)
        (ih.0, grow c ih.1, ih.2, finishes-cons b'}' c p.0 ih.3)
  | inr p ↦
      subst (λ (u : Text). Closed (c ∷ rest) u) (sym p.2)
        (rest, refl, up_to_close-none rest p.0, p.1)
]

-- The part of the output that is taken for the configuration begins with its first opening brace and
-- finishes with its last closing brace.
pub between_braces-IsSlice :
    (output t : Text)
    → between_braces output ≡ some t
    → (front : Text) × (back : Text) × (output ≡ front ++ (t ++ back))
      × (without b'{' front ≡ true)
      × (without b'}' back ≡ true)
      × (begins b'{' t ≡ true)
      × (finishes b'}' t ≡ true)
unfolding between_braces Closed
between_braces-IsSlice output t e =
    let p = from_open-split output in
    let q = up_to_close-split (from_open output) t e in
    (
      p.0,
      q.0,
      step p.0 q.0 p.1 q.1,
      p.2,
      q.2,
      begins_of t q.0 q.3 (subst (λ (x : Text). begins_or_empty x ≡ true) q.1 p.3),
      q.3,
    )
  where
    step :
        (front back : Text)
        → output ≡ front ++ from_open output
        → from_open output ≡ t ++ back
        → output ≡ front ++ (t ++ back)
    step front back a b = subst (λ (x : Text). output ≡ front ++ x) b a
