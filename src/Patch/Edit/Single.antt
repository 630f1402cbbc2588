-- ===== src/Patch/Edit/Single.antt =====
-- What a change of the patcher does to a text, said by positions.
use remnanode_xhttp_cleaner.Base.{
  ℕ, zero, suc, ◌+◌, ◌-◌, ◌<◌, ◌≡◌, refl, sym, ap, ◌∙◌, ◌↔◌, true, false, [], ◌∷◌, ◌++◌, String,
  Bool-cases, inl, inr, subst, arith, length, drop, drop-append, ok,
}
use remnanode_xhttp_cleaner.Base.Text.{Text, starts_with, starts_with_sound, starts_with-append}
use remnanode_xhttp_cleaner.Patch.Edit.{count_from, count, replace_first, replace_once}

-- `out` is `text` with one place of `old` replaced, and it is the only one that is counted: `old` stands
-- at no place before it, and at none at or behind its end. A place that overlaps it is not looked at.
pub record IsSoleEdit (old new text out : Text) : Type 0 where
  pub before : Text
  pub after : Text
  pub text_eq : text ≡ before ++ (old ++ after)
  pub out_eq : out ≡ before ++ (new ++ after)
  pub first : (k : ℕ) → k < length before → starts_with (drop k text) old ≡ false
  pub sole : (k : ℕ) → starts_with (drop k after) old ≡ false

count_from-drop :
    (old : Text) (k : ℕ) (text : Text) → count_from old k text ≡ count_from old 0 (drop k text)
unfolding count_from
count_from-drop old zero text = refl
count_from-drop old (suc k) [] = refl
count_from-drop old (suc k) (c ∷ text) = count_from-drop old k text

pred_suc : (n : ℕ) → suc n - 1 ≡ n
pred_suc n = omega arith

module _ (p : ℕ) (ps : Text) where
  abbrev old : Text
  old = p ∷ ps

  count_from_here :
      (c : ℕ) (text : Text)
      → starts_with (c ∷ text) old ≡ true
      → count_from old 0 (c ∷ text) ≡ 1 + count_from old 0 (drop (length ps) text)
  unfolding count_from
  count_from_here c text h =
      rw (h, pred_suc (length ps)) (ap (λ n. 1 + n) (count_from-drop old (length ps) text))

  count_from-past :
      (c : ℕ) (text : Text)
      → starts_with (c ∷ text) old ≡ false
      → count_from old 0 (c ∷ text) ≡ count_from old 0 text
  unfolding count_from
  count_from-past c text h = rw h refl

  replace_first-past :
      (new : Text) (c : ℕ) (text : Text)
      → starts_with (c ∷ text) old ≡ false
      → replace_first old new (c ∷ text) ≡ c ∷ replace_first old new text
  unfolding replace_first
  replace_first-past new c text h = rw h refl

  zero_past :
      (c : ℕ) (text : Text)
      → count_from old 0 (c ∷ text) ≡ 0
      → (starts_with (c ∷ text) old ≡ false) × (count_from old 0 text ≡ 0)
  unfolding count_from
  zero_past c text h = ground arith

  count_from-absent :
      (text : Text) → count_from old 0 text ≡ 0 → (k : ℕ) → starts_with (drop k text) old ≡ false
  unfolding starts_with
  count_from-absent [] h zero = refl
  count_from-absent [] h (suc k) = refl
  count_from-absent (c ∷ text) h zero = (zero_past c text h).0
  count_from-absent (c ∷ text) h (suc k) = count_from-absent text (zero_past c text h).1 k

  absent-count_from :
      (text : Text) → ((k : ℕ) → starts_with (drop k text) old ≡ false) → count_from old 0 text ≡ 0
  absent-count_from [] h = unfold count_from in refl
  absent-count_from (c ∷ text) h =
      count_from-past c text (h 0) ∙ absent-count_from text λ k. h (suc k)

  first_at :
      (n c : ℕ) (text : Text)
      → starts_with (c ∷ text) old ≡ false
      → ((k : ℕ) → k < n → starts_with (drop k text) old ≡ false)
      → (k : ℕ) → k < suc n
      → starts_with (drop k (c ∷ text)) old ≡ false
  first_at n c text past rest zero below = past
  first_at n c text past rest (suc k) below = rest k (omega arith)

  edit_here :
      (new : Text) (c : ℕ) (text : Text)
      → starts_with (c ∷ text) old ≡ true
      → count_from old 0 (c ∷ text) ≡ 1
      → IsSoleEdit old new (c ∷ text) (replace_first old new (c ∷ text))
  edit_here new c text here h = record {
    before = [];
    after = drop (length ps) text;
    text_eq = starts_with_sound (c ∷ text) old here;
    out_eq = unfold replace_first in rw here refl;
    first = λ k below. ground arith;
    sole = count_from-absent _ (omega (arith, count_from_here c text here));
  }

  edit_past :
      (new : Text) (c : ℕ) (text : Text)
      → starts_with (c ∷ text) old ≡ false
      → IsSoleEdit old new text (replace_first old new text)
      → IsSoleEdit old new (c ∷ text) (replace_first old new (c ∷ text))
  edit_past new c text past rest = record {
    before = c ∷ rest.before;
    after = rest.after;
    text_eq = ap (◌∷◌ c) rest.text_eq;
    out_eq = replace_first-past new c text past ∙ ap (◌∷◌ c) rest.out_eq;
    first = first_at (length rest.before) c text past rest.first;
    sole = rest.sole;
  }

  count_from-IsSoleEdit :
      (new text : Text)
      → count_from old 0 text ≡ 1
      → IsSoleEdit old new text (replace_first old new text)
  count_from-IsSoleEdit new [] h = unfold count_from in ground arith
  count_from-IsSoleEdit new (c ∷ text) h = elim (Bool-cases (starts_with (c ∷ text) old)) [
    | inl here ↦ edit_here new c text here h
    | inr past ↦
        edit_past new c text past
          (count_from-IsSoleEdit new text (sym (count_from-past c text past) ∙ h))
  ]

  sole-count_from :
      (new before after : Text)
      → ((k : ℕ) → k < length before → starts_with (drop k (before ++ (old ++ after))) old ≡ false)
      → ((k : ℕ) → starts_with (drop k after) old ≡ false)
      → (count_from old 0 (before ++ (old ++ after)) ≡ 1)
        × (replace_first old new (before ++ (old ++ after)) ≡ before ++ (new ++ after))
  sole-count_from new [] after first sole =
      let here = starts_with-append old after in
      (
        count_from_here p (ps ++ after) here
            ∙ rw (drop-append ps after) (ap (λ n. 1 + n) (absent-count_from after sole)),
        unfold replace_first in rw (here, drop-append ps after) refl,
      )
  sole-count_from new (c ∷ before) after first sole =
      let past = first 0 (omega arith) in
      let ih = sole-count_from new before after (λ k below. first (suc k) (omega arith)) sole in
      (
        count_from-past c (before ++ (old ++ after)) past ∙ ih.0,
        replace_first-past new c (before ++ (old ++ after)) past ∙ ap (◌∷◌ c) ih.1,
      )

  edited :
      (new text out : Text)
      → IsSoleEdit old new text out
      → (count_from old 0 text ≡ 1) × (replace_first old new text ≡ out)
  edited new text out edit =
      let found =
        sole-count_from new edit.before edit.after
          (λ k below. rw (sym edit.text_eq) (edit.first k below)) edit.sole in
      (rw edit.text_eq found.0, rw (edit.text_eq, found.1) (sym edit.out_eq))

  count-old : (text : Text) → count text old ≡ count_from old 0 text
  unfolding count
  count-old text = ground arith

  replaced :
      (text new : Text) (label : String) (out : Text)
      → replace_once text old new label ≡ ok out
      → (count text old ≡ 1) × (replace_first old new text ≡ out)
  unfolding replace_once
  replaced text new label out h = ground arith

  -- `replace_once` on an anchor that is not empty returns a text exactly if the anchor stands in the
  -- source and does not stand again at or behind the end of its first place, and then it returns the
  -- source with the first place replaced. A second place that overlaps the first is not counted.
  pub replace_once_iff :
      (text new : Text) (label : String) (out : Text)
      → (replace_once text old new label ≡ ok out) ↔ IsSoleEdit old new text out
  unfolding replace_once
  replace_once_iff text new label out = (
    λ h.
        let facts = replaced text new label out h in
        subst (IsSoleEdit old new text) facts.1
          (count_from-IsSoleEdit new text (sym (count-old text) ∙ facts.0)),
    λ edit. let facts = edited new text out edit in rw (count-old text, facts.0, facts.1) refl,
  )
