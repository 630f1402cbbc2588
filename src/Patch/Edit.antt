-- ===== src/Patch/Edit.antt =====
-- `xray_patch/patch_xray.py`: the replacement of a structural anchor that must match once.
pub mod Single
pub mod Variant
pub mod Chain
use remnanode_xhttp_cleaner.Base.{
  ℕ, zero, suc, ◌+◌, ◌-◌, Bool, true, false, Option, none, some, List, [], ◌∷◌, ◌++◌, String, ◌==◌,
  ltb, if◌then◌else◌, length, drop, Outcome, ok, err, bind_ok, Exception, Refusal, patch_error,
  expected_one_match, expected_one_supported_match,
}
use remnanode_xhttp_cleaner.Base.Text.{Text, codes, starts_with}

-- A text of the source, by its lines.
unfoldable pub lines : List String → Text
lines [] = []
lines (line ∷ rest) = codes line ++ (10 ∷ lines rest)

-- The matches of `old` that do not overlap, when the next `skip` characters belong to a match.
unfoldable pub count_from : Text → ℕ → Text → ℕ
count_from old skip [] = 0
count_from old (suc skip) (c ∷ rest) = count_from old skip rest
count_from old zero (c ∷ rest) =
    let here = starts_with (c ∷ rest) old in
    let behind = count_from old (if here then length old - 1 else 0) rest in
    if here then 1 + behind else behind

-- `text.count(old)`
unfoldable pub count : Text → Text → ℕ
count text old = if length old == 0 then length text + 1 else count_from old 0 text

-- `text.replace(old, new, 1)`
unfoldable pub replace_first : Text → Text → Text → Text
replace_first old new [] = if length old == 0 then new else []
replace_first old new (c ∷ rest) =
    let behind = replace_first old new rest in
    if starts_with (c ∷ rest) old then new ++ drop (length old) (c ∷ rest) else c ∷ behind

unfoldable pub replace_once : Text → Text → Text → String → Outcome Text
replace_once text old new label =
    if count text old == 1
    then ok (replace_first old new text)
    else err (patch_error (expected_one_match label (count text old)))

abbrev pub Variants : Type 0
Variants = List (Text × Text)

-- `[(old, new, text.count(old)) for old, new in variants if text.count(old)]`, and the sum of the
-- counts.
unfoldable pub matches : Text → Variants → Variants
matches text [] = []
matches text (variant ∷ rest) =
    let behind = matches text rest in if count text variant.0 == 0 then behind else variant ∷ behind

unfoldable pub total : Text → Variants → ℕ
total text [] = 0
total text (variant ∷ rest) = count text variant.0 + total text rest

-- `matches[0]` is replaced. There is one when the total is not zero.
unfoldable pub replace_match : Text → Variants → Text
replace_match text [] = text
replace_match text (variant ∷ _) = replace_first variant.0 variant.1 text

unfoldable pub replace_one_variant : Text → Variants → String → Outcome Text
replace_one_variant text variants label =
    if total text variants == 1
    then ok (replace_match text (matches text variants))
    else err (patch_error (expected_one_supported_match label (total text variants)))

-- One call of `replace_once` or `replace_one_variant`, with its texts and its label.
pub data Change : Type 0 where
  once : Text → Text → String → Change
  one_variant : Variants → String → Change

unfoldable pub apply_change : Change → Text → Outcome Text
apply_change (once old new label) source = replace_once source old new label
apply_change (one_variant variants label) source = replace_one_variant source variants label

-- `source = replace_once(source, …)` again and again, up to `return source`.
unfoldable pub apply_changes : List Change → Text → Outcome Text
apply_changes [] source = ok source
apply_changes (change ∷ rest) source = bind_ok (apply_change change source) (apply_changes rest)
