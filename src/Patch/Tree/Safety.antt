-- ===== src/Patch/Tree/Safety.antt =====
-- What `patch_tree` can leave behind, however it ends.
use mathlib.Core.List.{Memᴰ}
use remnanode_xhttp_cleaner.Base.{
  ◌≡◌, refl, ap, inl, inr, true, Bool-cases, Option, none, some, Option-cases, List, [], ◌∷◌,
  Outcome, ok, err, bind_ok-eq-ok, Exception, os_error, All, All-map, ok-injective, subst,
  missing_source, missing_asset,
}
use remnanode_xhttp_cleaner.Base.Int.{ℤ, pos}
use remnanode_xhttp_cleaner.Base.Text.{Text, text_eq_sound}
use remnanode_xhttp_cleaner.Base.Exec.{Exec, bind_cases, ◌>>◌}
use remnanode_xhttp_cleaner.Patch.Tree.{
  FilePath, root, asset, scratch, path_eq, Tree, Disk, put, Patcher, sources, destinations,
  change_file, change_all, prepare, require_files, refuse_overlay, write_file, write_all, copy_file,
  copy_all, patch_tree,
}

path_eq_sound : (p q : FilePath) → path_eq p q ≡ true → p ≡ q
unfolding path_eq
path_eq_sound (root p) (root q) h = ap root (text_eq_sound p q h)
path_eq_sound (asset p) (asset q) h = ap asset (text_eq_sound p q h)
path_eq_sound (scratch p) (scratch q) h = ap scratch (text_eq_sound p q h)
path_eq_sound (root p) (asset q) h = cc
path_eq_sound (root p) (scratch q) h = cc
path_eq_sound (asset p) (root q) h = cc
path_eq_sound (asset p) (scratch q) h = cc
path_eq_sound (scratch p) (root q) h = cc
path_eq_sound (scratch p) (asset q) h = cc

members {ℓ} : {A : Type ℓ} (xs : List A) → All (λ x. Memᴰ x xs) xs
members [] = tt
members (x ∷ xs) = (Memᴰ.head refl, All-map _ _ xs (λ y m. Memᴰ.tail m) (members xs))

-- What may stand at a path afterwards: what stood there, the whole patched text of a source, or
-- anything at the destination of an asset or in a temporary file.
pub data IsKept (before : Tree) (path : FilePath) (content : Option Text) : Type 0 where
  same : content ≡ before path → IsKept before path content
  patched :
      (original out : Text) (patcher : Patcher)
      → Memᴰ (path, patcher) sources
      → before path ≡ some original
      → patcher original ≡ ok out
      → content ≡ some out
      → IsKept before path content
  overlay : (source : FilePath) → Memᴰ (source, path) destinations → IsKept before path content
  left_behind : (name : Text) → path ≡ scratch name → IsKept before path content

-- Every source stood in the tree, and its change could be computed from the text that it held.
pub IsComputed : Tree → FilePath × Patcher → Type 0
IsComputed before (path, patcher) =
    (original : Text) × (out : Text) × (before path ≡ some original) × (patcher original ≡ ok out)

pub IsUntorn : Tree → Tree → Type 0
IsUntorn before after = (path : FilePath) → IsKept before path (after path)

-- An end without an exception, or with an `OSError`
pub data IsIo : Outcome (Unit {0}) → Type 0 where
  finished : IsIo (ok tt)
  fault : (errno : ℤ) → IsIo (err (os_error errno))

-- The ends of `patch_tree`: an exception before anything is written, or, on a tree for which all the
-- changes could be computed, writes that leave no torn source and end in no other exception than an
-- `OSError`.
pub data IsPatchRun (before : Tree) : Outcome (Unit {0}) × Tree → Type 0 where
  refused : (e : Exception) → IsPatchRun before (err e, before)
  started :
      {result : Outcome (Unit {0})} {after : Tree}
      → All (IsComputed before) sources
      → IsIo result
      → IsUntorn before after
      → IsPatchRun before (result, after)

module _ (before : Tree) where
  put-IsUntorn :
      (path : FilePath) (content : Option Text) (tree : Tree)
      → IsKept before path content
      → IsUntorn before tree
      → IsUntorn before (put path content tree)
  unfolding put IsUntorn
  put-IsUntorn path content tree kept untorn q = elim (Bool-cases (path_eq path q)) [
    | inl equal ↦ rw equal (subst (λ r. IsKept before r content) (path_eq_sound path q equal) kept)
    | inr different ↦ rw different (untorn q)
  ]

  -- The end of a block of writes
  abbrev IsWritten : Outcome (Unit {0}) × Tree → Type 0
  IsWritten run = IsIo run.0 × IsUntorn before run.1

  then-IsWritten :
      (m n : Exec Tree (Unit {0})) (tree : Tree)
      → IsWritten (m tree)
      → ((s : Tree) → IsUntorn before s → IsWritten (n s))
      → IsWritten ((m >> n) tree)
  then-IsWritten m n tree first rest =
      bind_cases IsWritten m (λ _. n) tree (λ a e. rest (m tree).1 first.1)
        (λ x e. (subst IsIo e first.0, first.1))

  write_file-IsWritten :
      (disk : Disk) (path : FilePath) (content : Text) (tree : Tree)
      → IsKept before path (some content)
      → IsUntorn before tree
      → IsWritten (write_file disk path content tree)
  unfolding write_file
  write_file-IsWritten disk path content tree kept untorn =
      elim (Option-cases (disk.write_fault path)) [
        | inl works ↦ rw works (finished, put-IsUntorn path (some content) tree kept untorn)
        | inr ((errno, none), fails) ↦ rw fails (fault errno, untorn)
        | inr ((errno, some left), fails) ↦
            let name = disk.temporary tree path in
            rw fails (
              fault errno,
              put-IsUntorn (scratch name) (some left) tree (left_behind name refl) untorn,
            )
      ]

  write_all-IsWritten :
      (disk : Disk) (changes : List (FilePath × Text)) (tree : Tree)
      → All (λ change. IsKept before change.0 (some change.1)) changes
      → IsUntorn before tree
      → IsWritten (write_all disk changes tree)
  unfolding write_all
  write_all-IsWritten disk [] tree kept untorn = (finished, untorn)
  write_all-IsWritten disk ((path, content) ∷ rest) tree kept untorn =
      then-IsWritten (write_file disk path content) (write_all disk rest) tree
        (write_file-IsWritten disk path content tree kept.0 untorn)
        λ s u. write_all-IsWritten disk rest s kept.1 u

  copy_file-IsWritten :
      (disk : Disk) (source destination : FilePath) (tree : Tree)
      → Memᴰ (source, destination) destinations
      → IsUntorn before tree
      → IsWritten (copy_file disk source destination tree)
  unfolding copy_file
  copy_file-IsWritten disk source destination tree member untorn =
      elim (Option-cases (tree source)) [
        | inl gone ↦ rw gone (fault (pos 2), untorn)
        | inr (content, found) ↦ elim (Option-cases (disk.copy_fault destination)) [
          | inl works ↦
              rw (found, works)
                (
                  finished,
                  put-IsUntorn destination (some content) tree (overlay source member) untorn,
                )
          | inr ((errno, left), fails) ↦
              rw (found, fails)
                (fault errno, put-IsUntorn destination left tree (overlay source member) untorn)
        ]
      ]

  copy_all-IsWritten :
      (disk : Disk) (items : List (FilePath × FilePath)) (tree : Tree)
      → All (λ item. Memᴰ item destinations) items
      → IsUntorn before tree
      → IsWritten (copy_all disk items tree)
  unfolding copy_all
  copy_all-IsWritten disk [] tree members untorn = (finished, untorn)
  copy_all-IsWritten disk ((source, destination) ∷ rest) tree members untorn =
      then-IsWritten (copy_file disk source destination) (copy_all disk rest) tree
        (copy_file-IsWritten disk source destination tree members.0 untorn)
        λ s u. copy_all-IsWritten disk rest s members.1 u

  changed :
      (path : FilePath) (patcher : Patcher) (content : Text) (old : Option Text)
      → before path ≡ old
      → Memᴰ (path, patcher) sources
      → change_file old patcher ≡ ok content
      → IsKept before path (some content)
  unfolding change_file
  changed path patcher content none found member h = cc
  changed path patcher content (some original) found member h =
      patched original content patcher member found h refl

  change_all-IsKept :
      (items : List (FilePath × Patcher)) (changes : List (FilePath × Text))
      → All (λ item. Memᴰ item sources) items
      → change_all before items ≡ ok changes
      → All (λ change. IsKept before change.0 (some change.1)) changes
  unfolding change_all
  change_all-IsKept [] changes members h = subst (All _) (ok-injective _ _ h) tt
  change_all-IsKept ((path, patcher) ∷ rest) changes members h =
      let (content, first, behind) = bind_ok-eq-ok (change_file (before path) patcher) _ h in
      let (others, second, whole) = bind_ok-eq-ok (change_all before rest) _ behind in
      subst (All _) (ok-injective _ _ whole) (
        changed path patcher content (before path) refl members.0 first,
        change_all-IsKept rest others members.1 second,
      )

  change_file-IsComputed :
      (path : FilePath) (patcher : Patcher) (content : Text) (old : Option Text)
      → before path ≡ old
      → change_file old patcher ≡ ok content
      → IsComputed before (path, patcher)
  unfolding change_file IsComputed
  change_file-IsComputed path patcher content none found h = cc
  change_file-IsComputed path patcher content (some original) found h =
      (original, content, found, h)

  change_all-IsComputed :
      (items : List (FilePath × Patcher)) (changes : List (FilePath × Text))
      → change_all before items ≡ ok changes
      → All (IsComputed before) items
  unfolding change_all
  change_all-IsComputed [] changes h = tt
  change_all-IsComputed ((path, patcher) ∷ rest) changes h =
      let (content, first, behind) = bind_ok-eq-ok (change_file (before path) patcher) _ h in
      let (others, second, _) = bind_ok-eq-ok (change_all before rest) _ behind in
      (
        change_file-IsComputed path patcher content (before path) refl first,
        change_all-IsComputed rest others second,
      )

  -- What was found before the first write.
  prepare-IsKept :
      (changes : List (FilePath × Text))
      → prepare before ≡ ok changes
      → All (IsComputed before) sources
        × All (λ change. IsKept before change.0 (some change.1)) changes
  unfolding prepare
  prepare-IsKept changes h =
      let (_, _, sources_there) = bind_ok-eq-ok (require_files missing_source before sources) _ h in
      let (_, _, no_overlay) = bind_ok-eq-ok (refuse_overlay before) _ sources_there in
      let (found, computed, assets) = bind_ok-eq-ok (change_all before sources) _ no_overlay in
      let (_, _, whole) =
        bind_ok-eq-ok (require_files missing_asset before destinations) _ assets in
      (
        change_all-IsComputed sources found computed,
        subst (All _) (ok-injective _ _ whole)
            (change_all-IsKept sources found (members sources) computed),
      )

  -- `patch_tree` ends in an exception that leaves every file as it was, or it started on a tree with
  -- all the sources, from each of which its change could be computed, and then it ends without an
  -- exception or in an `OSError`, and every path holds what it held before, the whole patched text of
  -- a source, or is the destination of an asset or a temporary file.
  pub patch_tree-IsPatchRun : (disk : Disk) → IsPatchRun before (patch_tree disk before)
  unfolding patch_tree
  patch_tree-IsPatchRun disk =
      bind_cases (IsPatchRun before) (λ (state : Tree). (prepare state, state)) _ before
        (λ changes e.
          let found = prepare-IsKept changes e in
          let ends =
            then-IsWritten (write_all disk changes) (copy_all disk destinations) before
              (write_all-IsWritten disk changes before found.1 (unfold IsUntorn in λ p. same refl))
              λ s u. copy_all-IsWritten disk destinations s (members destinations) u in
          started found.0 ends.0 ends.1)
        λ x e. refused x
