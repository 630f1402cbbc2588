-- ===== src/Tests/Patches.antt =====
-- The patcher on small texts.
use remnanode_xhttp_cleaner.Base.{◌≡◌, ◌↔◌, refl, List, [], ◌∷◌, ok}
use remnanode_xhttp_cleaner.Base.Text.{Text, codes, starts_with}
use remnanode_xhttp_cleaner.Patch.Edit.{
  replace_once, replace_one_variant, Variants, total, count, count_from, replace_match, matches,
  replace_first,
}
use remnanode_xhttp_cleaner.Patch.Launch.{config_aware_memory_optimizer_observation}
use remnanode_xhttp_cleaner.Patch.Edit.Chain.{IsAnchored, IsChain, apply_changes-IsChain}
use remnanode_xhttp_cleaner.Patch.Edit.{
  Change, once, one_variant, lines, apply_change, apply_changes,
}
use remnanode_xhttp_cleaner.Patch.Edit.Single.{IsSoleEdit, replace_once_iff}
use remnanode_xhttp_cleaner.Patch.Edit.Variant.{IsOnlyVariant, replace_one_variant-IsOnlyVariant}

replace_once_iff_example :
    (replace_once (codes "a cat") (codes "cat") (codes "dog") "pet" ≡ ok (codes "a dog"))
    ↔ IsSoleEdit (codes "cat") (codes "dog") (codes "a cat") (codes "a dog")
replace_once_iff_example =
    replace_once_iff b'c' (codes "at") (codes "a cat") (codes "dog") "pet" (codes "a dog")

-- A place that overlaps the first one is not counted.
overlapping_replaced :
    replace_once (codes "aaa") (codes "aa") (codes "b") "overlap" ≡ ok (codes "ba")
unfolding replace_once count count_from starts_with replace_first
overlapping_replaced = refl

abbrev pets : Variants
pets = (codes "bird", codes "fish") ∷ (codes "cat", codes "dog") ∷ []

pets_changed : replace_one_variant (codes "a cat") pets "pet" ≡ ok (codes "a dog")
unfolding replace_one_variant total count count_from starts_with replace_match matches replace_first
pets_changed = refl

replace_one_variant-IsOnlyVariant_example : IsOnlyVariant (codes "a cat") pets "pet" (codes "a dog")
replace_one_variant-IsOnlyVariant_example =
    replace_one_variant-IsOnlyVariant (codes "a cat") "pet" pets (codes "a dog") pets_changed

-- The change of `patched_run`, on a text that holds just its anchor.
abbrev run_changes : List Change
run_changes = config_aware_memory_optimizer_observation ∷ []

abbrev anchor_of : Change → Text
anchor_of (once old new label) = old
anchor_of (one_variant variants label) = []

abbrev replacement_of : Change → Text
replacement_of (once old new label) = new
replacement_of (one_variant variants label) = []

abbrev run_before : Text
run_before = anchor_of config_aware_memory_optimizer_observation

abbrev run_after : Text
run_after = replacement_of config_aware_memory_optimizer_observation

run_changed : apply_changes run_changes run_before ≡ ok run_after
unfolding apply_changes apply_change replace_once count count_from starts_with replace_first lines
run_changed = refl

run-IsAnchored : IsAnchored config_aware_memory_optimizer_observation
unfolding lines
run-IsAnchored = λ e. cc

apply_changes-IsChain_example : IsChain run_changes run_before run_after
apply_changes-IsChain_example =
    apply_changes-IsChain run_changes run_before run_after (run-IsAnchored, tt) run_changed
