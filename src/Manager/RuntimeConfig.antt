-- ===== src/Manager/RuntimeConfig.antt =====
-- `xray-core-manager.py`: `dump_runtime_config` and `validate_inside_container`.
pub mod Braces
use remnanode_xhttp_cleaner.Base.{
  ℕ, not, ◌&&◌, Option, none, some, List, [], ◌∷◌, ◌++◌, ◌==◌, if◌then◌else◌, Exception,
  core_manager_error,
}
use remnanode_xhttp_cleaner.Base.Text.{Text, codes, strip}
use remnanode_xhttp_cleaner.Base.Exec.{
  Exec, pure, raise, raise_if, gets, catch, finally, ◌>>=◌, ◌>>◌,
}
use remnanode_xhttp_cleaner.Json.{Json}
use remnanode_xhttp_cleaner.Address.Print.{decimal}
use remnanode_xhttp_cleaner.Manager.Command.{
  Command, dump_config, dump_config_short, copy_in, make_executable, core_version, test_core,
  remove,
}
use remnanode_xhttp_cleaner.Manager.Machine.{
  Host, Machine, bytes, chmod, call, run, docker, attempt, write_file, set_file, succeeded,
}
use remnanode_xhttp_cleaner.Manager.Version.{patch_id, occurs}
use remnanode_xhttp_cleaner.Manager.Process.{is_empty}

-- The text from the first `{`.
unfoldable pub from_open : Text → Text
from_open [] = []
from_open (c ∷ rest) = let behind = from_open rest in if c == b'{' then c ∷ rest else behind

-- The text up to its last `}`, if it has one.
abbrev pub close_here : ℕ → Option Text → Option Text
close_here c (some text) = some (c ∷ text)
close_here c none = if c == b'}' then some (c ∷ []) else none

unfoldable pub up_to_close : Text → Option Text
up_to_close [] = none
up_to_close (c ∷ rest) = close_here c (up_to_close rest)

-- `output[first : last + 1]`, unless `first < 0 or last <= first`
unfoldable pub between_braces : Text → Option Text
unfolding from_open up_to_close
between_braces output = up_to_close (from_open output)

module _ {W : Type 0} (h : Host W) where
  -- One round of the loop over `attempts`
  unfoldable pub try_dump : Command → Exec (Machine W) Text → Exec (Machine W) Text
  unfolding strip
  try_dump command later = do
    completed ← call h command
    let output = strip completed.stdout
    if succeeded completed && not (is_empty output) then pure output else later

  unfoldable pub first_output : List Command → Exec (Machine W) Text
  unfolding try_dump
  first_output [] = pure []
  first_output (command ∷ rest) = try_dump command (first_output rest)

  abbrev pub braced : Option Text → Exec (Machine W) Text
  braced none = raise (core_manager_error "cannot obtain the active RemnaNode Xray configuration")
  braced (some text) = pure text

  abbrev pub parsed : Option Json → Exec (Machine W) (Unit {0})
  parsed none = raise (core_manager_error "the active Xray configuration is not valid JSON")
  parsed (some value) = pure tt

  unfoldable pub dump_runtime_config : Text → Text → Exec (Machine W) (Unit {0})
  unfolding first_output between_braces write_file attempt
  dump_runtime_config container destination = do
    output ← first_output (dump_config container ∷ dump_config_short container ∷ [])
    text ← braced (between_braces output)
    parsed (h.loads text)
    write_file h destination (bytes (text ++ 10 ∷ []))
    attempt h chmod destination

  abbrev token : Text
  token = codes "/tmp/xhttp-cleaner-" ++ decimal h.pid

  unfoldable pub remote_binary : Text
  unfolding decimal
  remote_binary = token ++ codes ".xray"

  unfoldable pub remote_config : Text
  unfolding decimal
  remote_config = token ++ codes ".json"

  -- The `try` of `validate_inside_container`
  unfoldable pub try_inside : Text → Text → Text → Exec (Machine W) Text
  unfolding run docker occurs
  try_inside container artifact config = do
    run h (copy_in container artifact remote_binary)
    run h (copy_in container config remote_config)
    run h (make_executable container remote_binary)
    statement ← docker h (core_version container remote_binary)
    raise_if (not (occurs patch_id statement))
        (core_manager_error "built binary does not contain the XHTTP Cleaner build marker")
    run h (test_core container remote_binary remote_config)
    pure remote_binary

  -- Its `except BaseException` and `finally`
  unfoldable pub clean_up : Text → Exception → Exec (Machine W) Text
  clean_up container e = do call h (remove container (remote_binary ∷ remote_config ∷ [])); raise e

  unfoldable pub validate_in : Text → Text → Text → Exec (Machine W) Text
  unfolding dump_runtime_config try_inside clean_up
  validate_in container artifact config = do
    dump_runtime_config container config
    finally (catch (try_inside container artifact config) (clean_up container))
        (call h (remove container (remote_config ∷ [])) >> pure tt)

  -- The temporary directory, which goes with the file in it.
  unfoldable pub validate_inside_container : Text → Text → Exec (Machine W) Text
  unfolding validate_in
  validate_inside_container container artifact = do
    directory ← gets (λ m. h.temporary (codes "xhttp-cleaner-config-") m.world)
    let config = directory ++ codes "/active.json"
    finally (validate_in container artifact config) (set_file h config none)
