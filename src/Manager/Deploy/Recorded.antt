-- ===== src/Manager/Deploy/Recorded.antt =====
-- The record that `deploy` of `xray-core-manager.py` writes, as `rollback` reads it.
use remnanode_xhttp_cleaner.Base.{◌≡◌, ℕ, ok}
use remnanode_xhttp_cleaner.Base.Text.{Text, text_eq, text_eq_refl}
use remnanode_xhttp_cleaner.Base.Exec.{lift, ◌>>=◌}
use remnanode_xhttp_cleaner.Json.{find, get}
use remnanode_xhttp_cleaner.Listener.{text_of}
use remnanode_xhttp_cleaner.Manager.Command.{inspect_id}
use remnanode_xhttp_cleaner.Manager.Machine.{Host, Machine, docker, file_digest}
use remnanode_xhttp_cleaner.Manager.Settings.{fields_of}
use remnanode_xhttp_cleaner.Manager.Info.{Info}
use remnanode_xhttp_cleaner.Manager.Rollback.{check_metadata, metadata_text}
use remnanode_xhttp_cleaner.Manager.Deploy.{deployment, backup_path}

-- The record of a deployment passes the tests of `rollback` while Docker answers the id in it and the
-- backup has its digest: `rollback` then takes the binary, the backup and the id of the deployment.
pub deployment-check_metadata :
    {W : Type 0} (h : Host W) (container : Text) (info : Info)
    (id artifact artifact_sha256 backup_sha256 : Text) (now : ℕ) (m : Machine W)
    → (docker h (inspect_id container) m).0 ≡ ok id
    → (file_digest h (backup_path info) (docker h (inspect_id container) m).1).0 ≡ ok backup_sha256
    → ((lift (fields_of (deployment container info id artifact artifact_sha256 backup_sha256 now))
          >>= check_metadata h container)
        m).0
      ≡ ok (info.binary, backup_path info, id)
unfolding deployment check_metadata find get metadata_text text_of text_eq
deployment-check_metadata h container info id artifact artifact_sha256 backup_sha256 now m asked
      read =
    rw (text_eq_refl container, asked, text_eq_refl id, read, text_eq_refl backup_sha256)
