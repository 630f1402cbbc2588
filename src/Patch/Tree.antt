-- ===== src/Patch/Tree.antt =====
-- `patch_tree` of `xray_patch/patch_xray.py`.
pub mod Safety
pub mod Writes
pub mod Applied
use remnanode_xhttp_cleaner.Base.{
  ℕ, Bool, true, false, not, ◌||◌, Option, none, some, List, [], ◌∷◌, map, if◌then◌else◌, Outcome,
  ok, err, bind_ok, Exception, Refusal, patch_error, os_error, missing_source, missing_asset,
  overlay_present,
}
use remnanode_xhttp_cleaner.Base.Int.{ℤ, pos}
use remnanode_xhttp_cleaner.Base.Text.{Text, codes, text_eq}
use remnanode_xhttp_cleaner.Base.Exec.{Exec, pure, raise, ◌>>=◌, ◌>>◌}
use remnanode_xhttp_cleaner.Patch.Hub.{patched_hub}
use remnanode_xhttp_cleaner.Patch.Queue.{patched_upload_queue}
use remnanode_xhttp_cleaner.Patch.Policy.{patched_default_policy}
use remnanode_xhttp_cleaner.Patch.Hysteria.{patched_hysteria_hub, patched_hysteria_conn}
use remnanode_xhttp_cleaner.Patch.Launch.{patched_main, patched_run}

-- A path below the source root, or below the directory of the assets, or the temporary file that
-- `NamedTemporaryFile` makes in the directory of a source, under a name that it chooses.
pub data FilePath : Type 0 where
  root : Text → FilePath
  asset : Text → FilePath
  scratch : Text → FilePath

unfoldable pub path_eq : FilePath → FilePath → Bool
path_eq (root p) (root q) = text_eq p q
path_eq (asset p) (asset q) = text_eq p q
path_eq (scratch p) (scratch q) = text_eq p q
path_eq _ _ = false

-- The files with their texts.
abbrev pub Tree : Type 0
Tree = FilePath → Option Text

-- The name of the temporary file for a path, and how the file system fails: the errno with which the
-- replacement of a file or a copy ends, what a failed replacement leaves in the temporary file, if it
-- was made, and what a failed copy leaves at its destination.
pub record Disk : Type 0 where
  pub temporary : Tree → FilePath → Text
  pub write_fault : FilePath → Option (ℤ × Option Text)
  pub copy_fault : FilePath → Option (ℤ × Option Text)

unfoldable pub put : FilePath → Option Text → Tree → Tree
put path content tree = λ q. if path_eq path q then content else tree q

abbrev pub Patcher : Type 0
Patcher = Text → Outcome Text

-- `source_paths`, each with the function that `changes` applies to its text
abbrev pub sources : List (FilePath × Patcher)
sources =
    (root (codes "transport/internet/splithttp/hub.go"), patched_hub)
    ∷ (root (codes "transport/internet/splithttp/upload_queue.go"), patched_upload_queue)
    ∷ (root (codes "features/policy/policy.go"), patched_default_policy)
    ∷ (root (codes "transport/internet/hysteria/hub.go"), patched_hysteria_hub)
    ∷ (root (codes "transport/internet/hysteria/conn.go"), patched_hysteria_conn)
    ∷ (root (codes "main/main.go"), patched_main)
    ∷ (root (codes "main/run.go"), patched_run)
    ∷ []

abbrev pub destinations : List (FilePath × FilePath)
destinations =
    (
      asset (codes "xhttp_cleaner_reaper.go"),
      root (codes "transport/internet/splithttp/xhttp_cleaner_reaper.go"),
    )
    ∷ (
      asset (codes "xhttp_cleaner_reaper_test.go"),
      root (codes "transport/internet/splithttp/xhttp_cleaner_reaper_test.go"),
    )
    ∷ (
      asset (codes "core_memory_optimizer.go"),
      root (codes "main/xhttp_cleaner_memory_optimizer.go"),
    )
    ∷ (
      asset (codes "core_memory_optimizer_test.go"),
      root (codes "main/xhttp_cleaner_memory_optimizer_test.go"),
    )
    ∷ (
      asset (codes "hysteria_memory_guard.go"),
      root (codes "transport/internet/hysteria/xhttp_cleaner_memory_guard.go"),
    )
    ∷ (
      asset (codes "hysteria_memory_guard_test.go"),
      root (codes "transport/internet/hysteria/xhttp_cleaner_memory_guard_test.go"),
    )
    ∷ []

unfoldable pub exists : Tree → FilePath → Bool
exists tree path = is_some (tree path)
  where
    is_some : Option Text → Bool
    is_some none = false
    is_some (some text) = true

unfoldable pub any_exists : Tree → List (FilePath × FilePath) → Bool
any_exists tree [] = false
any_exists tree ((_, destination) ∷ rest) = exists tree destination || any_exists tree rest

unfoldable pub path_text : FilePath → Text
path_text (root p) = p
path_text (asset p) = p
path_text (scratch p) = p

-- The `is_file` loops over the sources and over the assets
unfoldable pub require_files :
    {A : Type 0} → (Text → Refusal) → Tree → List (FilePath × A) → Outcome (Unit {0})
require_files missing tree [] = ok tt
require_files missing tree ((path, _) ∷ rest) =
    let behind = require_files missing tree rest in
    if exists tree path then behind else err (patch_error (missing (path_text path)))

-- `originals` and `changes`. A source that is gone by now is an `OSError` of `read_text`.
unfoldable pub change_file : Option Text → Patcher → Outcome Text
change_file none patcher = err (os_error (pos 2))
change_file (some original) patcher = patcher original

unfoldable pub change_all : Tree → List (FilePath × Patcher) → Outcome (List (FilePath × Text))
change_all tree [] = ok []
change_all tree ((path, patcher) ∷ rest) =
    bind_ok (change_file (tree path) patcher)
      λ content. bind_ok (change_all tree rest) λ changes. ok ((path, content) ∷ changes)

unfoldable pub refuse_overlay : Tree → Outcome (Unit {0})
refuse_overlay tree =
    if any_exists tree destinations then err (patch_error overlay_present) else ok tt

-- The part of `patch_tree` before the first write
unfoldable pub prepare : Tree → Outcome (List (FilePath × Text))
prepare tree = bind_ok (require_files missing_source tree sources) λ _.
    bind_ok (refuse_overlay tree) λ _.
      bind_ok (change_all tree sources)
        λ changes. bind_ok (require_files missing_asset tree destinations) λ _. ok changes

-- A temporary file that replaces the old one. It stays behind (`delete=False`) if it was made and
-- could not be written or moved.
unfoldable pub write_file : Disk → FilePath → Text → Exec Tree (Unit {0})
write_file disk path content tree = go (disk.write_fault path)
  where
    go : Option (ℤ × Option Text) → Outcome (Unit {0}) × Tree
    go none = (ok tt, put path (some content) tree)
    go (some (errno, none)) = (err (os_error errno), tree)
    go (some (errno, some left)) =
        (err (os_error errno), put (scratch (disk.temporary tree path)) (some left) tree)

unfoldable pub write_all : Disk → List (FilePath × Text) → Exec Tree (Unit {0})
write_all disk [] = pure tt
write_all disk ((path, content) ∷ rest) = write_file disk path content >> write_all disk rest

-- `shutil.copy2`
unfoldable pub copy_file : Disk → FilePath → FilePath → Exec Tree (Unit {0})
copy_file disk source destination tree = go (tree source) (disk.copy_fault destination)
  where
    go : Option Text → Option (ℤ × Option Text) → Outcome (Unit {0}) × Tree
    go none fault = (err (os_error (pos 2)), tree)
    go (some content) none = (ok tt, put destination (some content) tree)
    go (some content) (some (errno, left)) = (err (os_error errno), put destination left tree)

unfoldable pub copy_all : Disk → List (FilePath × FilePath) → Exec Tree (Unit {0})
copy_all disk [] = pure tt
copy_all disk ((source, destination) ∷ rest) =
    copy_file disk source destination >> copy_all disk rest

unfoldable pub patch_tree : Disk → Exec Tree (Unit {0})
patch_tree disk tree =
    ((λ (state : Tree). (prepare state, state)) >>= λ changes.
    write_all disk changes >> copy_all disk destinations)
      tree
