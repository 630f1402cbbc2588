-- ===== src/Patch/Tree/Applied.antt =====
-- The tree after a run of `patch_tree` without an exception.
use remnanode_xhttp_cleaner.Base.{
  ◌≡◌, refl, sym, ap, ◌∙◌, true, Option, none, some, List, [], ◌∷◌, arith, All, All-map, ok, err,
  bind_ok-eq-ok, ok-injective, subst, missing_source, missing_asset, patch_error, overlay_present,
}
use remnanode_xhttp_cleaner.Base.Text.{Text, codes, text_eq}
use remnanode_xhttp_cleaner.Base.Exec.{◌>>◌, >>=-eq-ok}
use remnanode_xhttp_cleaner.Patch.Tree.{
  FilePath, root, path_eq, Tree, Disk, Patcher, sources, destinations, change_file, change_all,
  exists, any_exists, prepare, require_files, refuse_overlay, write_all, copy_all, patch_tree,
}
use remnanode_xhttp_cleaner.Patch.Tree.Writes.{
  IsCopied, none_is, are_apart, keys, targets, write_all-keeps, write_all-holds, copy_all-keeps,
  copy_all-IsCopied,
}

-- A source holds the patched text of what it held before.
pub record IsPatchedSource (before after : Tree) (path : FilePath) (patcher : Patcher)
    : Type 0 where
  pub original : Text
  pub out : Text
  pub found : before path ≡ some original
  pub patched : patcher original ≡ ok out
  pub holds : after path ≡ some out

pub record IsApplied (before after : Tree) : Type 0 where
  pub are_patched : All (λ item. IsPatchedSource before after item.0 item.1) sources
  pub are_copied : All (λ item. IsCopied before after item.0 item.1) destinations

All-both :
    {A : Type 0} (P Q : A → Type 0) (xs : List A) → All P xs → All Q xs → All (λ x. P x × Q x) xs
All-both P Q [] hp hq = tt
All-both P Q (x ∷ xs) hp hq = ((hp.0, hq.0), All-both P Q xs hp.1 hq.1)

module _ (before : Tree) where
  keys-change_all :
      (items : List (FilePath × Patcher)) (changes : List (FilePath × Text))
      → change_all before items ≡ ok changes
      → keys changes ≡ keys items
  unfolding change_all
  keys-change_all [] changes h = ap keys (sym (ok-injective _ _ h))
  keys-change_all ((p, patcher) ∷ rest) changes h =
      let (content, _, behind) = bind_ok-eq-ok (change_file (before p) patcher) _ h in
      let (others, second, whole) = bind_ok-eq-ok (change_all before rest) _ behind in
      ap keys (sym (ok-injective _ _ whole)) ∙ ap (◌∷◌ p) (keys-change_all rest others second)

  changed_source :
      (after : Tree) (p : FilePath) (patcher : Patcher) (out : Text) (old : Option Text)
      → before p ≡ old
      → change_file old patcher ≡ ok out
      → after p ≡ some out
      → IsPatchedSource before after p patcher
  unfolding change_file
  changed_source after p patcher out none e h holds = absurd (ground arith)
  changed_source after p patcher out (some original) e h holds = record {
    original = original;
    out = out;
    found = e;
    patched = h;
    holds = holds;
  }

  change_all-IsPatchedSource :
      (after : Tree) (items : List (FilePath × Patcher)) (changes : List (FilePath × Text))
      → change_all before items ≡ ok changes
      → All (λ change. after change.0 ≡ some change.1) changes
      → All (λ item. IsPatchedSource before after item.0 item.1) items
  unfolding change_all
  change_all-IsPatchedSource after [] changes h holds = tt
  change_all-IsPatchedSource after ((p, patcher) ∷ rest) changes h holds =
      let (content, first, behind) = bind_ok-eq-ok (change_file (before p) patcher) _ h in
      let (others, second, whole) = bind_ok-eq-ok (change_all before rest) _ behind in
      let all_hold =
        subst (All (λ change. after change.0 ≡ some change.1)) (sym (ok-injective _ _ whole))
          holds in
      (
        changed_source after p patcher content (before p) refl first all_hold.0,
        change_all-IsPatchedSource after rest others second all_hold.1,
      )

  prepare-change_all :
      (changes : List (FilePath × Text))
      → prepare before ≡ ok changes
      → change_all before sources ≡ ok changes
  unfolding prepare
  prepare-change_all changes h =
      let (_, _, sources_there) = bind_ok-eq-ok (require_files missing_source before sources) _ h in
      let (_, _, no_overlay) = bind_ok-eq-ok (refuse_overlay before) _ sources_there in
      let (found, computed, assets) = bind_ok-eq-ok (change_all before sources) _ no_overlay in
      let (_, _, whole) =
        bind_ok-eq-ok (require_files missing_asset before destinations) _ assets in
      computed ∙ ap ok (ok-injective _ _ whole)

  sources_apart : are_apart (keys sources) ≡ true
  unfolding are_apart none_is path_eq text_eq
  sources_apart = refl

  destinations_apart : are_apart (targets destinations) ≡ true
  unfolding are_apart none_is path_eq text_eq
  destinations_apart = refl

  assets_apart :
      All
        (λ item.
          (none_is item.0 (targets destinations) ≡ true) × (none_is item.0 (keys sources) ≡ true))
        destinations
  unfolding none_is path_eq
  assets_apart = (
    (refl, refl),
    ((refl, refl), ((refl, refl), ((refl, refl), ((refl, refl), ((refl, refl), tt))))),
  )

  sources_kept : All (λ item. none_is item.0 (targets destinations) ≡ true) sources
  unfolding none_is path_eq text_eq
  sources_kept = (refl, (refl, (refl, (refl, (refl, (refl, (refl, tt)))))))

  patched_later :
      (disk : Disk) (s : Tree)
      → All (λ item. IsPatchedSource before s item.0 item.1) sources
      → (copy_all disk destinations s).0 ≡ ok tt
      → All (λ item. IsPatchedSource before (copy_all disk destinations s).1 item.0 item.1) sources
  patched_later disk s held h =
      All-map
        (λ item.
          IsPatchedSource before s item.0 item.1 × (none_is item.0 (targets destinations) ≡ true))
        (λ item. IsPatchedSource before (copy_all disk destinations s).1 item.0 item.1) sources
        (λ (item : FilePath × Patcher)
            (facts : IsPatchedSource before s item.0 item.1
              × (none_is item.0 (targets destinations) ≡ true)).
          record {
            original = facts.0.original;
            out = facts.0.out;
            found = facts.0.found;
            patched = facts.0.patched;
            holds = copy_all-keeps disk destinations s item.0 facts.1 h ∙ facts.0.holds;
          })
        (All-both (λ item. IsPatchedSource before s item.0 item.1)
          (λ item. none_is item.0 (targets destinations) ≡ true) sources held sources_kept)

  written-IsApplied :
      (disk : Disk) (changes : List (FilePath × Text))
      → prepare before ≡ ok changes
      → (write_all disk changes before).0 ≡ ok tt
      → (copy_all disk destinations (write_all disk changes before).1).0 ≡ ok tt
      → IsApplied before (copy_all disk destinations (write_all disk changes before).1).1
  written-IsApplied disk changes e w c =
      let computed = prepare-change_all changes e in
      let same_keys = keys-change_all sources changes computed in
      let s = (write_all disk changes before).1 in
      record {
        are_patched =
            patched_later disk s
              (change_all-IsPatchedSource s sources changes computed
                (write_all-holds disk changes before (rw same_keys sources_apart) w))
              c;
        are_copied =
            copy_all-IsCopied disk before destinations s destinations_apart
              (All-map
                (λ item.
                  (none_is item.0 (targets destinations) ≡ true)
                  × (none_is item.0 (keys sources) ≡ true))
                (λ item.
                  (none_is item.0 (targets destinations) ≡ true) × (s item.0 ≡ before item.0))
                destinations
                (λ (item : FilePath × FilePath)
                    (facts : (none_is item.0 (targets destinations) ≡ true)
                      × (none_is item.0 (keys sources) ≡ true)).
                  (facts.0, write_all-keeps disk changes before item.0 (rw same_keys facts.1) w))
                assets_apart)
              c;
      }

  -- After a run of `patch_tree` without an exception, each of the seven sources holds the patched
  -- text of what it held, and each of the six destinations what its asset held.
  pub patch_tree-IsApplied :
      (disk : Disk)
      → (patch_tree disk before).0 ≡ ok tt
      → IsApplied before (patch_tree disk before).1
  unfolding patch_tree
  patch_tree-IsApplied disk h =
      let (changes, e, behind, whole) =
        >>=-eq-ok (λ (state : Tree). (prepare state, state))
          (λ changes. write_all disk changes >> copy_all disk destinations) before h in
      let (_, w, c, whole') =
        >>=-eq-ok (write_all disk changes) (λ _. copy_all disk destinations) before behind in
      subst (λ run. IsApplied before run.1) (sym (whole ∙ whole'))
        (written-IsApplied disk changes e w c)

abbrev Holds : Tree → FilePath → Type 0
Holds tree path = (content : Text) × (tree path ≡ some content)

exists-Holds : (tree : Tree) (path : FilePath) → Holds tree path → exists tree path ≡ true
unfolding exists
exists-Holds tree path (content, e) = rw e refl

require_files-Holds :
    (tree : Tree) (items : List (FilePath × Patcher))
    → All (λ item. Holds tree item.0) items
    → require_files missing_source tree items ≡ ok tt
unfolding require_files
require_files-Holds tree [] held = refl
require_files-Holds tree ((path, _) ∷ rest) held =
    rw (exists-Holds tree path held.0) (require_files-Holds tree rest held.1)

refuse_overlay-Holds :
    (tree : Tree)
    → Holds tree (root (codes "transport/internet/splithttp/xhttp_cleaner_reaper.go"))
    → refuse_overlay tree ≡ err (patch_error overlay_present)
unfolding refuse_overlay any_exists
refuse_overlay-Holds tree held = rw (exists-Holds tree _ held) refl

-- A tree that was patched once is refused, and left as it is, by every later run.
pub patch_tree_again :
    (disk later : Disk) (before : Tree)
    → (patch_tree disk before).0 ≡ ok tt
    → patch_tree later (patch_tree disk before).1
      ≡ (err (patch_error overlay_present), (patch_tree disk before).1)
patch_tree_again disk later before h =
    let after = (patch_tree disk before).1 in
    let applied = patch_tree-IsApplied before disk h in
    let sources_there = require_files-Holds after sources (
      All-map (λ item. IsPatchedSource before after item.0 item.1) (λ item. Holds after item.0)
        sources
        (λ (item : FilePath × Patcher) (held : IsPatchedSource before after item.0 item.1).
          (held.out, held.holds))
        applied.are_patched) in
    let overlay_there =
      refuse_overlay-Holds after (applied.are_copied.0.content, applied.are_copied.0.holds) in
    refused_again after sources_there overlay_there
  where
    refused_again :
        (tree : Tree)
        → require_files missing_source tree sources ≡ ok tt
        → refuse_overlay tree ≡ err (patch_error overlay_present)
        → patch_tree later tree ≡ (err (patch_error overlay_present), tree)
    refused_again tree e o = unfold patch_tree prepare in rw (e, o) refl
