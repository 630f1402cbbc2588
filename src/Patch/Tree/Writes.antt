-- ===== src/Patch/Tree/Writes.antt =====
-- What the writes and the copies of `patch_tree` leave in the tree, when none of them fails.
use remnanode_xhttp_cleaner.Base.{
  ◌≡◌, refl, sym, ◌∙◌, Bool, true, false, not, ◌&&◌, Option, none, some, Option-cases, inl, inr,
  List, [], ◌∷◌, map, arith, All, All-map, ok, subst,
}
use remnanode_xhttp_cleaner.Base.Text.{Text, text_eq_refl}
use remnanode_xhttp_cleaner.Base.Exec.{>>=-eq-ok}
use remnanode_xhttp_cleaner.Patch.Tree.{
  FilePath, root, asset, scratch, path_eq, Tree, Disk, put, write_file, write_all, copy_file,
  copy_all,
}

-- The destination holds what the asset held before.
pub record IsCopied (before after : Tree) (source destination : FilePath) : Type 0 where
  pub content : Text
  pub found : before source ≡ some content
  pub holds : after destination ≡ some content

-- No path of the list is `q`.
unfoldable pub none_is : FilePath → List FilePath → Bool
none_is q [] = true
none_is q (p ∷ paths) = not (path_eq p q) && none_is q paths

unfoldable pub are_apart : List FilePath → Bool
are_apart [] = true
are_apart (p ∷ paths) = none_is p paths && are_apart paths

and-true : (a b : Bool) → (a && b) ≡ true → (a ≡ true) × (b ≡ true)
and-true true b h = (refl, h)
and-true false b h = cc

none_is-cons :
    (p q : FilePath) (paths : List FilePath)
    → none_is q (p ∷ paths) ≡ true
    → (path_eq p q ≡ false) × (none_is q paths ≡ true)
unfolding none_is
none_is-cons p q paths h = ground arith

path_eq_refl : (p : FilePath) → path_eq p p ≡ true
unfolding path_eq
path_eq_refl (root p) = text_eq_refl p
path_eq_refl (asset p) = text_eq_refl p
path_eq_refl (scratch p) = text_eq_refl p

put_same : (p : FilePath) (c : Option Text) (tree : Tree) → put p c tree p ≡ c
unfolding put
put_same p c tree = rw (path_eq_refl p) refl

put_other :
    (p q : FilePath) (c : Option Text) (tree : Tree) → path_eq p q ≡ false → put p c tree q ≡ tree q
unfolding put
put_other p q c tree h = rw h refl

abbrev pub keys : {A : Type 0} → List (FilePath × A) → List FilePath
keys = map (λ item. item.0)

abbrev pub targets : List (FilePath × FilePath) → List FilePath
targets = map (λ item. item.1)

module _ (disk : Disk) where
  written :
      (p : FilePath) (c : Text) (s : Tree)
      → (write_file disk p c s).0 ≡ ok tt
      → (write_file disk p c s).1 ≡ put p (some c) s
  unfolding write_file
  written p c s h = elim (Option-cases (disk.write_fault p)) [
    | inl works ↦ rw works refl
    | inr ((errno, none), fails) ↦ absurd (ground (arith, rw fails at h))
    | inr ((errno, some left), fails) ↦ absurd (ground (arith, rw fails at h))
  ]

  pub write_all-keeps :
      (changes : List (FilePath × Text)) (s : Tree) (q : FilePath)
      → none_is q (keys changes) ≡ true
      → (write_all disk changes s).0 ≡ ok tt
      → (write_all disk changes s).1 q ≡ s q
  unfolding write_all
  write_all-keeps [] s q other h = refl
  write_all-keeps ((p, c) ∷ rest) s q other h =
      let (_, first, behind, whole) =
        >>=-eq-ok (write_file disk p c) (λ _. write_all disk rest) s h in
      let apart = none_is-cons p q (keys rest) other in
      rw whole (
        write_all-keeps rest _ q apart.1 behind
        ∙ rw (written p c s first) (put_other p q (some c) s apart.0))

  pub write_all-holds :
      (changes : List (FilePath × Text)) (s : Tree)
      → are_apart (keys changes) ≡ true
      → (write_all disk changes s).0 ≡ ok tt
      → All (λ change. (write_all disk changes s).1 change.0 ≡ some change.1) changes
  unfolding write_all are_apart
  write_all-holds [] s apart h = tt
  write_all-holds ((p, c) ∷ rest) s apart h =
      let (_, first, behind, whole) =
        >>=-eq-ok (write_file disk p c) (λ _. write_all disk rest) s h in
      let split = and-true _ _ apart in
      subst (λ run. All (λ change. run.1 change.0 ≡ some change.1) ((p, c) ∷ rest)) (sym whole)
        (
          write_all-keeps rest _ p split.0 behind
              ∙ rw (written p c s first) (put_same p (some c) s),
          write_all-holds rest _ split.1 behind,
        )

  copied :
      (source p : FilePath) (s : Tree)
      → (copy_file disk source p s).0 ≡ ok tt
      → (c : Text) × (s source ≡ some c) × ((copy_file disk source p s).1 ≡ put p (some c) s)
  unfolding copy_file
  copied source p s h = elim (Option-cases (s source)) [
    | inl gone ↦ absurd (ground (arith, rw gone at h))
    | inr (c, found) ↦ elim (Option-cases (disk.copy_fault p)) [
      | inl works ↦ (c, found, rw (found, works) refl)
      | inr (e, fails) ↦ absurd (ground (arith, rw (found, fails) at h))
    ]
  ]

  pub copy_all-keeps :
      (items : List (FilePath × FilePath)) (s : Tree) (q : FilePath)
      → none_is q (targets items) ≡ true
      → (copy_all disk items s).0 ≡ ok tt
      → (copy_all disk items s).1 q ≡ s q
  unfolding copy_all
  copy_all-keeps [] s q other h = refl
  copy_all-keeps ((source, p) ∷ rest) s q other h =
      let (_, first, behind, whole) =
        >>=-eq-ok (copy_file disk source p) (λ _. copy_all disk rest) s h in
      let apart = none_is-cons p q (targets rest) other in
      let (c, _, put_c) = copied source p s first in
      rw whole
        (copy_all-keeps rest _ q apart.1 behind ∙ rw put_c (put_other p q (some c) s apart.0))

  -- The assets of the items are no destinations of theirs and hold what they held in `before`.
  abbrev pub AreUnread : Tree → Tree → List (FilePath × FilePath) → Type 0
  AreUnread before s items =
      All (λ item. (none_is item.0 (targets items) ≡ true) × (s item.0 ≡ before item.0)) items

  AreUnread-put :
      (before s : Tree) (source p : FilePath) (c : Option Text) (rest : List (FilePath × FilePath))
      → AreUnread before s ((source, p) ∷ rest)
      → AreUnread before (put p c s) rest
  AreUnread-put before s source p c rest h =
      All-map _ _ rest
        (λ item facts.
          let apart = none_is-cons p item.0 (targets rest) facts.0 in
          (apart.1, put_other p item.0 c s apart.0 ∙ facts.1))
        h.1

  pub copy_all-IsCopied :
      (before : Tree) (items : List (FilePath × FilePath)) (s : Tree)
      → are_apart (targets items) ≡ true
      → AreUnread before s items
      → (copy_all disk items s).0 ≡ ok tt
      → All (λ item. IsCopied before (copy_all disk items s).1 item.0 item.1) items
  unfolding copy_all are_apart
  copy_all-IsCopied before [] s apart unread h = tt
  copy_all-IsCopied before ((source, p) ∷ rest) s apart unread h =
      let (_, first, behind, whole) =
        >>=-eq-ok (copy_file disk source p) (λ _. copy_all disk rest) s h in
      let split = and-true _ _ apart in
      let (c, found, put_c) = copied source p s first in
      subst (λ run. All (λ item. IsCopied before run.1 item.0 item.1) ((source, p) ∷ rest))
        (sym whole)
        (
          record {
            content = c;
            found = sym unread.0.1 ∙ found;
            holds = copy_all-keeps rest _ p split.0 behind ∙ rw put_c (put_same p (some c) s);
          },
          copy_all-IsCopied before rest _ split.1
              (rw put_c (AreUnread-put before s source p (some c) rest unread)) behind,
        )
