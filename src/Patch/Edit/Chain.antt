-- ===== src/Patch/Edit/Chain.antt =====
-- The changes of a list, one after the other.
use remnanode_xhttp_cleaner.Base.{
  ◌≡◌, ◌≢◌, refl, subst, List, [], ◌∷◌, ◌++◌, String, All, ok, bind_ok-eq-ok, ok-injective,
}
use remnanode_xhttp_cleaner.Base.Text.{Text}
use remnanode_xhttp_cleaner.Patch.Edit.{
  replace_once, Variants, Change, once, one_variant, apply_change, apply_changes,
}
use remnanode_xhttp_cleaner.Patch.Edit.Single.{IsSoleEdit, replace_once_iff}
use remnanode_xhttp_cleaner.Patch.Edit.Variant.{IsOnlyVariant, replace_one_variant-IsOnlyVariant}

-- No anchor of the change is empty.
abbrev pub IsAnchored : Change → Type 0
IsAnchored (once old new label) = old ≢ []
IsAnchored (one_variant variants label) = All (λ variant. variant.0 ≢ []) variants

-- What the change did to the text: one place of its anchor was replaced, or one place of the anchor
-- of one of its variants, while no other variant occurs.
pub data IsChanged : Change → Text → Text → Type 0 where
  changed_once :
      {old new text out : Text} {label : String}
      → IsSoleEdit old new text out
      → IsChanged (once old new label) text out
  changed_variant :
      {variants : Variants} {text out : Text} {label : String}
      (only : IsOnlyVariant text variants label out)
      → IsSoleEdit only.variant.0 only.variant.1 text out
      → IsChanged (one_variant variants label) text out

pub data IsChain : List Change → Text → Text → Type 0 where
  unchanged : {text : Text} → IsChain [] text text
  then_changed :
      {change : Change} {rest : List Change} {text between out : Text}
      → IsChanged change text between
      → IsChain rest between out
      → IsChain (change ∷ rest) text out

sole_edit :
    (old new text : Text) (label : String) (out : Text)
    → old ≢ []
    → replace_once text old new label ≡ ok out
    → IsSoleEdit old new text out
sole_edit [] new text label out some h = absurd (some refl)
sole_edit (p ∷ ps) new text label out some h = (replace_once_iff p ps text new label out).0 h

-- An item that stands between two parts of a list satisfies what all items satisfy.
All-between :
    (P : Text × Text → Type 0) (before after : Variants) (v : Text × Text)
    → All P (before ++ (v ∷ after))
    → P v
All-between P [] after v h = h.0
All-between P (b ∷ before) after v h = All-between P before after v h.1

apply_change-IsChanged :
    (change : Change) (text out : Text)
    → IsAnchored change
    → apply_change change text ≡ ok out
    → IsChanged change text out
unfolding apply_change
apply_change-IsChanged (once old new label) text out anchored h =
    changed_once (sole_edit old new text label out anchored h)
apply_change-IsChanged (one_variant variants label) text out anchored h =
    let only = replace_one_variant-IsOnlyVariant text label variants out h in
    let anchor =
      All-between (λ v. v.0 ≢ []) only.before only.after only.variant
        (subst (All (λ v. v.0 ≢ [])) only.variants_eq anchored) in
    changed_variant only
      (sole_edit only.variant.0 only.variant.1 text label out anchor only.replaced)

-- If the changes of a list, whose anchors are not empty, return a text, then each of them has made
-- its one edit, in the order of the list.
pub apply_changes-IsChain :
    (changes : List Change) (text out : Text)
    → All IsAnchored changes
    → apply_changes changes text ≡ ok out
    → IsChain changes text out
unfolding apply_changes
apply_changes-IsChain [] text out anchored h =
    subst (IsChain [] text) (ok-injective _ _ h) unchanged
apply_changes-IsChain (change ∷ rest) text out anchored h =
    let (between, first, behind) = bind_ok-eq-ok (apply_change change text) _ h in
    then_changed (apply_change-IsChanged change text between anchored.0 first)
      (apply_changes-IsChain rest between out anchored.1 behind)
