-- ===== src/Manager/Files.antt =====
-- `xray-core-manager.py`: `atomic_json` and `copy_from_container`. Directories are not modelled: a
-- file can be created where `mkdir` has made one.
pub mod Atomic
use remnanode_xhttp_cleaner.Base.{
  ℕ, ◌==◌, if◌then◌else◌, Bool, true, false, Option, none, some, List, [], ◌∷◌, ◌++◌, Outcome, ok,
  err, Exception,
}
use remnanode_xhttp_cleaner.Base.Text.{Text, codes}
use remnanode_xhttp_cleaner.Base.Exec.{Exec, pure, raise, gets, catch, finally, ◌>>=◌, ◌>>◌}
use remnanode_xhttp_cleaner.Json.{Json}
use remnanode_xhttp_cleaner.Manager.Command.{Command, copy_out}
use remnanode_xhttp_cleaner.System.{atomic_put}
use remnanode_xhttp_cleaner.Manager.Machine.{
  Host, Machine, Content, json, bytes, create, write, chmod, attempt, write_file, set_file,
  unlink_file, replace_file, run, receive,
}

abbrev joined : ℕ → Text × Text → Text × Text
joined c ([], name) = if c == b'/' then (c ∷ [], name) else ([], c ∷ name)
joined c (d ∷ directory, name) = (c ∷ d ∷ directory, name)

-- A path as its directory, with the slash, and its name.
unfoldable pub split_name : Text → Text × Text
split_name [] = ([], [])
split_name (c ∷ rest) = joined c (split_name rest)

-- `path.with_name(f".{path.name}.new")`
unfoldable pub beside : Text → Text
unfolding split_name
beside path = (split_name path).0 ++ (codes "." ++ ((split_name path).1 ++ codes ".new"))

module _ {W : Type 0} (h : Host W) where
  unfoldable pub atomic_json : Text → Json → Exec (Machine W) (Unit {0})
  unfolding atomic_put
  atomic_json path payload = atomic_put h path (json payload)

  -- `docker cp`, which may have written the file also when it fails.
  unfoldable pub fetch : Text → Text → Text → Exec (Machine W) (Unit {0})
  unfolding run
  fetch container source file =
      finally (run h (copy_out container source file) >> pure tt)
        (receive h (copy_out container source file) file)

  unfoldable pub copy_from_container : Text → Text → Text → Exec (Machine W) (Unit {0})
  unfolding fetch attempt replace_file unlink_file beside
  copy_from_container container source destination =
      let temporary = beside destination in
      finally
        (do
          fetch container source temporary
          attempt h chmod temporary
          replace_file h temporary destination)
        (unlink_file h temporary)
