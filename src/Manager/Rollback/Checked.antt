-- ===== src/Manager/Rollback/Checked.antt =====
-- The tests of `rollback` in `xray-core-manager.py` on the record of a deployment.
use remnanode_xhttp_cleaner.Base.{◌≡◌, refl, Bool, true, false, not, ok, Exception}
use remnanode_xhttp_cleaner.Base.Text.{Text, codes}
use remnanode_xhttp_cleaner.Base.Exec.{raise_if, lift}
use remnanode_xhttp_cleaner.Base.Exec.Triple.{Triple, Triple-pure, Triple-ok, Triple-learn}
use remnanode_xhttp_cleaner.Json.{null, Fields, get}
use remnanode_xhttp_cleaner.Manager.Command.{inspect_id}
use remnanode_xhttp_cleaner.Manager.Machine.{Host, Machine, docker, file_digest}
use remnanode_xhttp_cleaner.Manager.Rollback.{is_text, metadata_text, check_metadata}

raise_if-passed :
    {S : Type 0} (b : Bool) (e : Exception) (s : S) (u : Unit {0})
    → (raise_if (not b) e s).0 ≡ ok u
    → b ≡ true
raise_if-passed true e s u h = refl
raise_if-passed false e s u h = cc

module _ {W : Type 0} (h : Host W) (container : Text) (metadata : Fields) where
  -- What the record says of a binary, its backup, and the id of the container.
  abbrev pub Checked : Text × Text × Text → Type 0
  Checked plan =
      (is_text (get (codes "container") null metadata) container ≡ true)
      × (is_text (get (codes "container_id") null metadata) plan.2 ≡ true)
      × (metadata_text (codes "backup") metadata ≡ ok plan.1)
      × (metadata_text (codes "binary") metadata ≡ ok plan.0)
      × ((digest : Text) × (is_text (get (codes "backup_sha256") null metadata) digest ≡ true)
          × ((before : Machine W) × ((file_digest h plan.1 before).0 ≡ ok digest)))
      × ((before : Machine W) × ((docker h (inspect_id container) before).0 ≡ ok plan.2))

  check_metadata-Triple :
      Triple
        (λ _. Unit {0})
        (λ plan _. Checked plan)
        (λ _. Unit {0})
        (check_metadata h container metadata)
  unfolding check_metadata
  check_metadata-Triple =
      Triple-learn _ _
        (raise_if-passed (is_text (get (codes "container") null metadata) container) _)
        (λ _ same.
          Triple-learn (docker h (inspect_id container)) _ (λ m current e. (m, e))
            (λ current asked.
              Triple-learn _ _
                (raise_if-passed (is_text (get (codes "container_id") null metadata) current) _)
                (λ _ same_id.
                  Triple-learn (lift (metadata_text (codes "backup") metadata)) _ (λ m backup e. e)
                    (λ backup has_backup.
                      Triple-learn (file_digest h backup) _ (λ m digest e. (m, e))
                        (λ digest read.
                          Triple-learn _ _
                            (raise_if-passed
                              (is_text (get (codes "backup_sha256") null metadata) digest) _)
                            (λ _ same_digest.
                              Triple-learn (lift (metadata_text (codes "binary") metadata)) _
                                (λ m binary e. e)
                                (λ binary has_binary.
                                  Triple-pure (binary, backup, current)
                                    (λ m p. (
                                      same,
                                      same_id,
                                      has_backup,
                                      has_binary,
                                      (digest, same_digest, read),
                                      asked,
                                    )))))))))

  -- What `rollback` takes from the record was written for this container and for the id that Docker
  -- answers, and the digest of the backup is the one in the record.
  pub check_metadata-IsChecked :
      (m : Machine W) (plan : Text × Text × Text)
      → (check_metadata h container metadata m).0 ≡ ok plan
      → Checked plan
  check_metadata-IsChecked m plan e = Triple-ok check_metadata-Triple tt e
