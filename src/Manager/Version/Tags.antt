-- ===== src/Manager/Version/Tags.antt =====
-- `parse_version` of `xray-core-manager.py`, and the test on the tag in `clone_and_build`.
use mathlib.Core.Path.{subst}
use native.Mathlib.Omega.{arith}
use remnanode_xhttp_cleaner.Base.{
  ◌≡◌, refl, Bool, true, false, not, ◌&&◌, Option, none, some, [], ◌∷◌, ◌++◌, ◌==◌, ok, Bool-cases,
  append-nil, ◌⊎◌, inl, inr,
}
use remnanode_xhttp_cleaner.Base.Text.{Text, codes, starts_with}
use remnanode_xhttp_cleaner.Manager.Version.{
  is_digit, span_digits, number, not_empty, literal, ◌>>=◌, when_boundary, dotted, spaces,
  version_here, or_else, search_lines, or_unparsed, parse_version, is_end, is_tag_version,
}

bind-some :
    {A B : Type 0} (m : Option A) (f : A → Option B) {b : B}
    → (m >>= f) ≡ some b
    → (a : A) × (m ≡ some a) × (f a ≡ some b)
bind-some none f e = cc
bind-some (some a) f e = (a, refl, e)

only_digits : Text → Bool
only_digits [] = true
only_digits (c ∷ rest) = is_digit c && only_digits rest

-- A text that no digit begins.
abbrev stops : Text → Bool
stops [] = true
stops (c ∷ rest) = not (is_digit c)

not-is-true : (b : Bool) → not b ≡ true → b ≡ false
not-is-true b e = ground arith

both : (a b : Bool) → a && b ≡ true → (a ≡ true) × (b ≡ true)
both a b e = ground arith

span_digits-only : (text : Text) → only_digits (span_digits text).0 ≡ true
unfolding span_digits only_digits
span_digits-only [] = refl
span_digits-only (c ∷ rest) = elim (Bool-cases (is_digit c)) [
  | inl e ↦ ground (arith, e, span_digits-only rest)
  | inr e ↦ rw e
]

span_digits-append :
    (digits rest : Text)
    → only_digits digits ≡ true
    → stops rest ≡ true
    → span_digits (digits ++ rest) ≡ (digits, rest)
unfolding span_digits only_digits
span_digits-append [] [] d s = refl
span_digits-append [] (c ∷ rest) d s = rw (not-is-true (is_digit c) s)
span_digits-append (c ∷ digits) rest d s =
    let p = both (is_digit c) (only_digits digits) d in
    rw (p.0, span_digits-append digits rest p.1 s)

has_digit : Text → Bool
has_digit [] = false
has_digit (c ∷ rest) = true

-- What `number` has taken are digits, at least one.
number-digits :
    (text digits left : Text)
    → number text ≡ some (digits, left)
    → (only_digits digits ≡ true) × (has_digit digits ≡ true)
unfolding number has_digit
number-digits text digits left e = go (span_digits text) (span_digits-only text) e
  where
    go :
        (r : Text × Text)
        → only_digits r.0 ≡ true
        → not_empty r ≡ some (digits, left)
        → (only_digits digits ≡ true) × (has_digit digits ≡ true)
    go ([], rest) o f = cc
    go (c ∷ ds, rest) o f =
        let same : c ∷ ds ≡ digits = cc in
        subst (λ (x : Text). (only_digits x ≡ true) × (has_digit x ≡ true)) same (o, refl)

number-append :
    (text digits left rest : Text)
    → number text ≡ some (digits, left)
    → stops rest ≡ true
    → number (digits ++ rest) ≡ some (digits, rest)
unfolding number has_digit
number-append text [] left rest e s = cc ((number-digits text [] left e).1)
number-append text (c ∷ ds) left rest e s =
    rw (span_digits-append (c ∷ ds) rest (number-digits text (c ∷ ds) left e).0 s)

abbrev three : Text → Text → Text → Text
three major minor patch = major ++ (codes "." ++ (minor ++ (codes "." ++ patch)))

dotted-three :
    (major minor patch : Text)
    → ((rest : Text) → stops rest ≡ true → number (major ++ rest) ≡ some (major, rest))
    → ((rest : Text) → stops rest ≡ true → number (minor ++ rest) ≡ some (minor, rest))
    → number patch ≡ some (patch, [])
    → dotted (three major minor patch) ≡ some (three major minor patch, [])
unfolding dotted literal starts_with is_digit
dotted-three major minor patch a b c =
    rw (a (codes "." ++ (minor ++ (codes "." ++ patch))) refl, b (codes "." ++ patch) refl, c)

-- What `dotted` has taken it takes again, as a whole.
dotted-value :
    (text value left : Text) → dotted text ≡ some (value, left) → dotted value ≡ some (value, [])
unfolding dotted
dotted-value text value left e =
    let p = bind-some (number text) _ e in
    let q = bind-some (literal (codes ".") p.0.1) _ p.2 in
    let r = bind-some (number q.0) _ q.2 in
    let s = bind-some (literal (codes ".") r.0.1) _ r.2 in
    let t = bind-some (number s.0) _ s.2 in
    let same : three p.0.0 r.0.0 t.0.0 ≡ value = cc t.2 in
    subst (λ (v : Text). dotted v ≡ some (v, [])) same
      (dotted-three p.0.0 r.0.0 t.0.0 (λ rest stop. number-append text p.0.0 p.0.1 rest p.1 stop)
        (λ rest stop. number-append q.0 r.0.0 r.0.1 rest r.1 stop)
        (subst (λ (x : Text). number x ≡ some (t.0.0, [])) (append-nil t.0.0)
          (number-append s.0 t.0.0 t.0.1 [] t.1 refl)))

when_boundary-some : (value left : Text) (v : Text) → when_boundary value left ≡ some v → value ≡ v
when_boundary-some value left v e = ground (arith, e)

version_here-tag : (text v : Text) → version_here text ≡ some v → dotted v ≡ some (v, [])
unfolding version_here
version_here-tag text v e =
    let p = bind-some (literal (codes "Xray") text) _ e in
    let q = bind-some (spaces p.0) _ p.2 in
    let r = bind-some (dotted q.0) _ q.2 in
    subst (λ (x : Text). dotted x ≡ some (x, [])) (when_boundary-some r.0.0 r.0.1 v r.2)
      (dotted-value q.0 r.0.0 r.0.1 r.1)

or_else-some :
    (first second : Option Text) (v : Text)
    → or_else first second ≡ some v
    → (first ≡ some v) ⊎ (second ≡ some v)
or_else-some none second v e = inr e
or_else-some (some w) second v e = inl e

-- What a search by lines finds, it finds at some place.
search_lines-some :
    (match_here : Text → Option Text) (P : Text → Type 0)
    → ((text v : Text) → match_here text ≡ some v → P v)
    → (fresh : Bool) (text v : Text) → search_lines match_here fresh text ≡ some v
    → P v
unfolding search_lines
search_lines-some match_here P found true [] v e = found [] v e
search_lines-some match_here P found false [] v e = cc
search_lines-some match_here P found false (c ∷ rest) v e =
    search_lines-some match_here P found (c == 10) rest v e
search_lines-some match_here P found true (c ∷ rest) v e =
    elim (or_else-some (match_here (c ∷ rest)) _ v e) [
      | inl f ↦ found (c ∷ rest) v f
      | inr f ↦ search_lines-some match_here P found (c == 10) rest v f
    ]

-- A version that `parse_version` has read from any text passes the test on the tag in
-- `clone_and_build`: it is three numbers with points between them, and nothing else.
pub parse_version-IsTag :
    (statement version : Text)
    → parse_version statement ≡ ok version
    → is_tag_version version ≡ true
unfolding parse_version is_tag_version
parse_version-IsTag statement version e = go (search_lines version_here true statement) refl e
  where
    go :
        (o : Option Text)
        → search_lines version_here true statement ≡ o
        → or_unparsed o ≡ ok version
        → is_end (dotted version) ≡ true
    go none f g = cc
    go (some v) f g =
        let same : v ≡ version = cc in
        rw (
          search_lines-some version_here (λ x. dotted x ≡ some (x, [])) version_here-tag true
            statement version (cc))
