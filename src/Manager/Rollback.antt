-- ===== src/Manager/Rollback.antt =====
-- `xray-core-manager.py`: `rollback_binary`, `rollback` and `restore_if_patched`.
pub mod Checked
use remnanode_xhttp_cleaner.Base.{
  ℕ, Bool, true, false, not, Option, none, some, List, [], ◌∷◌, ◌++◌, if◌then◌else◌, Outcome, ok,
  err, Exception, core_manager_error, os_error, key_error,
}
use remnanode_xhttp_cleaner.Base.Text.{Text, codes, text_eq}
use remnanode_xhttp_cleaner.Base.Exec.{Exec, pure, raise, raise_if, gets, lift, catch, ◌>>=◌, ◌>>◌}
use remnanode_xhttp_cleaner.Json.{Json, null, bool, int, float, str, list, dict, Fields, find, get}
use remnanode_xhttp_cleaner.Listener.{text_of}
use remnanode_xhttp_cleaner.Address.Print.{decimal}
use remnanode_xhttp_cleaner.Manager.Command.{inspect_id, copy_in, make_executable, move, restart}
use remnanode_xhttp_cleaner.Manager.Machine.{
  Host, Machine, Content, json, bytes, run, docker, read_file, file_digest, has_file,
}
use remnanode_xhttp_cleaner.Manager.Settings.{fields_of}
use remnanode_xhttp_cleaner.Manager.Info.{Info, require_environment, current_info, deployment_path}
use remnanode_xhttp_cleaner.Manager.Process.{is_empty}
use remnanode_xhttp_cleaner.Manager.Health.{wait_healthy}

-- `value == text`
abbrev pub is_text : Json → Text → Bool
is_text (str s) text = text_eq s text
is_text _ text = false

-- `str(metadata[key])`
abbrev required : Option Json → Outcome Text
required none = err key_error
required (some value) = ok (text_of value)

unfoldable pub metadata_text : Text → Fields → Outcome Text
unfolding find text_of
metadata_text key metadata = required (find key metadata)

module _ {W : Type 0} (h : Host W) where
  abbrev pub rollback_remote : Text
  rollback_remote = codes "/tmp/xhttp-cleaner-rollback-" ++ decimal h.pid

  unfoldable pub require_id : Text → Text → Exception → Exec (Machine W) (Unit {0})
  unfolding docker text_eq
  require_id container expected e = do
    current ← docker h (inspect_id container)
    raise_if (not (text_eq current expected)) e

  -- The part of `rollback_binary` that replaces the binary, and what stands behind it.
  unfoldable pub put_back : Text → Text → Text → Exec (Machine W) (Unit {0})
  unfolding run decimal
  put_back container binary backup = do
    run h (copy_in container backup rollback_remote)
    run h (make_executable container rollback_remote)
    run h (move container rollback_remote binary)
    pure tt

  unfoldable pub restart_stock : Text → Text → Text → Exec (Machine W) (Unit {0})
  unfolding run require_id wait_healthy
  restart_stock container binary expected_container_id = do
    run h (restart container)
    require_id container expected_container_id
        (core_manager_error "container identity changed during rollback")
    wait_healthy h container none binary

  unfoldable pub rollback_binary : Text → Text → Text → Text → Exec (Machine W) (Unit {0})
  unfolding require_id put_back restart_stock
  rollback_binary container binary backup expected_container_id = do
    there ← has_file h backup
    raise_if (not there) (core_manager_error "stock rollback binary is missing")
    require_id container expected_container_id
        (core_manager_error "container was recreated; refusing to inject an old rollback binary")
    put_back container binary backup
    restart_stock container binary expected_container_id

  abbrev unavailable : Exception
  unavailable = core_manager_error "deployment metadata is unavailable"

  abbrev on_read_error : Exception → Exec (Machine W) Content
  on_read_error (os_error errno) = raise unavailable
  on_read_error e = raise e

  abbrev decoded : Option Json → Exec (Machine W) Json
  decoded none = raise unavailable
  decoded (some value) = pure value

  abbrev parsed : Content → Exec (Machine W) Json
  parsed (json value) = pure value
  parsed (bytes text) = decoded (h.loads text)

  -- `json.loads(metadata_path.read_text(…))` with its `except`
  unfoldable pub read_metadata : Exec (Machine W) Json
  unfolding read_file
  read_metadata = do content ← catch (read_file h deployment_path) on_read_error; parsed content

  -- The tests of `rollback` on the metadata, up to the call of `rollback_binary`
  unfoldable pub check_metadata : Text → Fields → Exec (Machine W) (Text × Text × Text)
  unfolding docker get text_eq metadata_text file_digest
  check_metadata container metadata = do
    raise_if (not (is_text (get (codes "container") null metadata) container))
        (core_manager_error "rollback metadata belongs to another container")
    current_id ← docker h (inspect_id container)
    raise_if (not (is_text (get (codes "container_id") null metadata) current_id))
        (core_manager_error "container was recreated; automatic rollback is intentionally refused")
    backup ← lift (metadata_text (codes "backup") metadata)
    digest ← file_digest h backup
    raise_if (not (is_text (get (codes "backup_sha256") null metadata) digest))
        (core_manager_error "rollback binary checksum mismatch")
    binary ← lift (metadata_text (codes "binary") metadata)
    pure (binary, backup, current_id)

  unfoldable pub rollback : Text → Exec (Machine W) (Unit {0})
  unfolding require_environment read_metadata check_metadata rollback_binary
  rollback container = do
    require_environment h container
    value ← read_metadata
    metadata ← lift (fields_of value)
    (binary, backup, current_id) ← check_metadata container metadata
    rollback_binary container binary backup current_id

  unfoldable pub restore_if_patched : Text → Exec (Machine W) (Unit {0})
  unfolding require_environment current_info rollback
  restore_if_patched container = do
    require_environment h container
    info ← current_info h container
    if is_empty info.cleaner_patch then pure tt else rollback container
