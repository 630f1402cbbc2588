-- ===== src/Manager/Machine.antt =====
-- `xray-core-manager.py`: the machine of the manager, which is a `System` with its commands, and how
-- it runs a command.
pub mod Keeps
pub mod Triples
pub use remnanode_xhttp_cleaner.System.{
  Completed, Content, json, bytes, FileStep, create, write, chmod, replace, unlink, read, lock,
  Files, is_some, succeeded, set_file, fail_with, written, has_file, put_fetched, receive, found,
  moved,
}
unfoldable pub use remnanode_xhttp_cleaner.System.{
  put_file, call, attempt, write_file, read_file, unlink_file, replace_file,
}
use remnanode_xhttp_cleaner.Base.{if◌then◌else◌, core_manager_error}
use remnanode_xhttp_cleaner.Base.Text.{Text, strip}
use remnanode_xhttp_cleaner.Base.Exec.{Exec, pure, raise, ◌>>=◌}
use remnanode_xhttp_cleaner.System.{Platform, System}
use remnanode_xhttp_cleaner.Manager.Command.{Command}

abbrev pub Host : Type 0 → Type 0
Host W = Platform Command W

abbrev pub Machine : Type 0 → Type 0
Machine W = System Command W

module _ {W : Type 0} (h : Host W) where
  abbrev pub checked : Completed → Exec (Machine W) Completed
  checked completed =
      if succeeded completed then pure completed else raise (core_manager_error "command failed")

  -- `run(command)`, and `run(command, check=False)` is `call`
  unfoldable pub run : Command → Exec (Machine W) Completed
  run command = do completed ← call h command; checked completed

  -- `docker(…)`, and the same with `check=False`
  unfoldable pub docker : Command → Exec (Machine W) Text
  unfolding strip
  docker command = do completed ← run command; pure (strip completed.stdout)

  unfoldable pub docker_unchecked : Command → Exec (Machine W) Text
  unfolding strip
  docker_unchecked command = do completed ← call h command; pure (strip completed.stdout)

  -- `sha256(path)`
  unfoldable pub file_digest : Text → Exec (Machine W) Text
  unfolding read_file
  file_digest path = do content ← read_file h path; pure (h.sha256 content)
