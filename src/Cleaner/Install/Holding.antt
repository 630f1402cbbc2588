-- ===== src/Cleaner/Install/Holding.antt =====
-- What `atomic_write` and the copy of the script leave of one file.
use remnanode_xhttp_cleaner.Base.{◌≡◌, ◌∙◌, false, Option, none, some, Outcome, ok, err}
use remnanode_xhttp_cleaner.Base.Int.{ℤ}
use remnanode_xhttp_cleaner.Base.Text.{Text, text_eq}
use remnanode_xhttp_cleaner.Base.Exec.Keeps.{Keeps, keeps_rules}
use remnanode_xhttp_cleaner.Base.Exec.Triple.{Ends, Triple}
use remnanode_xhttp_cleaner.System.{Content, bytes, write, atomic_put, write_file, written}
use remnanode_xhttp_cleaner.System.Keeps.{Keeps-attempt, Keeps-read_file}
use remnanode_xhttp_cleaner.System.Atomic.{Replaced, Untouched, atomic_put-IsAtomic, put_file-other}
use remnanode_xhttp_cleaner.Cleaner.Machine.{Host, Machine, Setting}
use remnanode_xhttp_cleaner.Cleaner.Install.{
  atomic_write, copy_script, install_script, install_path,
}

module _ {W : Type 0} (h : Host W) (s : Setting W) where
  -- The file at `q` holds this content.
  abbrev pub Holds : Text → Option Content → Machine W → Type 0
  Holds q content m = m.files q ≡ content

  -- `mkstemp` never picks the name `q`.
  abbrev pub Spared : Text → Type 0
  Spared q = (path : Text) (w : W) → text_eq (h.temporary path w) q ≡ false

  pub Keeps-atomic_write :
      (path q content : Text) (held : Option Content)
      → Spared path
      → Spared q
      → text_eq path q ≡ false
      → Keeps (Holds q held) (atomic_write h s path content)
  unfolding atomic_write
  Keeps-atomic_write path q content held spared_path spared other = record {
    at = λ m p.
        go m (atomic_put h path (bytes content) m).0 (atomic_put h path (bytes content) m).1 p
          (atomic_put-IsAtomic h path (bytes content) m (spared_path path m.world));
  }
    where
      go :
          (m : Machine W) (r : Outcome (Unit {0})) (after : Machine W)
          → m.files q ≡ held
          → Ends
              (λ (_ : Unit {0}). Replaced h m (h.temporary path m.world) path (bytes content))
              (Untouched h m (h.temporary path m.world) path (bytes content))
              r
              after
          → after.files q ≡ held
      go m (ok u) after p e = e.2 q (spared path m.world) other ∙ p
      go m (err x) after p e = e q (spared path m.world) ∙ p

  pub atomic_write-Holds :
      {P : Machine W → Type 0} {R : Machine W → Type 0} (path content : Text)
      → Spared path
      → ((m : Machine W) → R m)
      → Triple P (λ _. Holds path (some (bytes content))) R (atomic_write h s path content)
  unfolding atomic_write
  atomic_write-Holds {R} path content spared weaker = record {
    at = λ m p.
        go m (atomic_put h path (bytes content) m).0 (atomic_put h path (bytes content) m).1
          (atomic_put-IsAtomic h path (bytes content) m (spared path m.world));
  }
    where
      go :
          (m : Machine W) (r : Outcome (Unit {0})) (after : Machine W)
          → Ends
              (λ (_ : Unit {0}). Replaced h m (h.temporary path m.world) path (bytes content))
              (Untouched h m (h.temporary path m.world) path (bytes content))
              r
              after
          → Ends (λ (_ : Unit {0}). Holds path (some (bytes content))) R r after
      go m (ok u) after e = e.0
      go m (err x) after e = weaker after

  module _ (q : Text) (held : Option Content) where
    Keeps-write_file :
        (path : Text) (content : Content)
        → text_eq path q ≡ false
        → Keeps (Holds q held) (write_file h path content)
    unfolding write_file
    Keeps-write_file path content other = record { at = λ m p. go (h.fault write path m.world) m p }
      where
        go :
            (r : Option ℤ) (m : Machine W)
            → Holds q held m
            → Holds q held (written h r path content m).1
        go none m p = put_file-other path q (some content) m.files other ∙ p
        go (some errno) m p = put_file-other path q (h.left path m.world) m.files other ∙ p

    pub Keeps-install_script :
        text_eq install_path q ≡ false → Keeps (Holds q held) (install_script h s)
    unfolding install_script copy_script
    Keeps-install_script other =
        search
          (
            Keeps-read_file h,
            λ (content : Content). Keeps-write_file install_path content other,
            Keeps-attempt h,
            keeps_rules,
          )
          depth 20
