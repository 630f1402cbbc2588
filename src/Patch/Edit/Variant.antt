-- ===== src/Patch/Edit/Variant.antt =====
-- Which of its variants `replace_one_variant` takes.
use remnanode_xhttp_cleaner.Base.{
  ◌≡◌, refl, ap, inl, inr, ◌⊎◌, subst, [], ◌∷◌, ◌++◌, String, arith, ok,
}
use remnanode_xhttp_cleaner.Base.Text.{Text}
use remnanode_xhttp_cleaner.Patch.Edit.{
  count, replace_first, replace_once, Variants, matches, total, replace_match, replace_one_variant,
}

-- One of the variants stands once in the text and is replaced. The others do not occur in it.
pub record IsOnlyVariant (text : Text) (variants : Variants) (label : String) (out : Text)
    : Type 0 where
  pub before : Variants
  pub after : Variants
  pub variant : Text × Text
  pub variants_eq : variants ≡ before ++ (variant ∷ after)
  pub replaced : replace_once text variant.0 variant.1 label ≡ ok out
  pub others : (total text before ≡ 0) × (total text after ≡ 0)

module _ (text : Text) (label : String) where
  this_variant :
      (variant : Text × Text) (rest : Variants)
      → count text variant.0 ≡ 1
      → total text rest ≡ 0
      → IsOnlyVariant text (variant ∷ rest) label (replace_first variant.0 variant.1 text)
  this_variant variant rest single none_behind = record {
    before = [];
    after = rest;
    variant = variant;
    variants_eq = refl;
    replaced = unfold replace_once in rw single refl;
    others = (unfold total in refl, none_behind);
  }

  later_variant :
      (variant : Text × Text) (rest : Variants) (out : Text)
      → count text variant.0 ≡ 0
      → IsOnlyVariant text rest label out
      → IsOnlyVariant text (variant ∷ rest) label out
  later_variant variant rest out absent later = record {
    before = variant ∷ later.before;
    after = later.after;
    variant = later.variant;
    variants_eq = ap (◌∷◌ variant) later.variants_eq;
    replaced = later.replaced;
    others = (unfold total in rw (absent, later.others.0) refl, later.others.1);
  }

  total-cons :
      (variant : Text × Text) (rest : Variants)
      → total text (variant ∷ rest) ≡ 1
      → ((count text variant.0 ≡ 0) × (total text rest ≡ 1))
        ⊎ ((count text variant.0 ≡ 1) × (total text rest ≡ 0))
  unfolding total
  total-cons variant rest h = ground arith

  matches-head :
      (variant : Text × Text) (rest : Variants)
      → count text variant.0 ≡ 1
      → replace_match text (matches text (variant ∷ rest)) ≡ replace_first variant.0 variant.1 text
  unfolding matches replace_match
  matches-head variant rest h = rw h refl

  matches-tail :
      (variant : Text × Text) (rest : Variants)
      → count text variant.0 ≡ 0
      → matches text (variant ∷ rest) ≡ matches text rest
  unfolding matches
  matches-tail variant rest h = rw h refl

  only_variant :
      (variants : Variants)
      → total text variants ≡ 1
      → IsOnlyVariant text variants label (replace_match text (matches text variants))
  only_variant [] h = unfold total in ground arith
  only_variant (v ∷ rest) h = elim (total-cons v rest h) [
    | inl facts ↦
        rw (matches-tail v rest facts.0)
          (later_variant v rest _ facts.0 (only_variant rest facts.1))
    | inr facts ↦ rw (matches-head v rest facts.0) (this_variant v rest facts.0 facts.1)
  ]

  replaced_match :
      (variants : Variants) (out : Text)
      → replace_one_variant text variants label ≡ ok out
      → (total text variants ≡ 1) × (replace_match text (matches text variants) ≡ out)
  unfolding replace_one_variant
  replaced_match variants out h = ground arith

  -- If `replace_one_variant` returns a text, it is that of `replace_once` with one of the variants,
  -- and no other variant occurs in the source.
  pub replace_one_variant-IsOnlyVariant :
      (variants : Variants) (out : Text)
      → replace_one_variant text variants label ≡ ok out
      → IsOnlyVariant text variants label out
  replace_one_variant-IsOnlyVariant variants out h =
      let facts = replaced_match variants out h in
      subst (IsOnlyVariant text variants label) facts.1 (only_variant variants facts.0)
