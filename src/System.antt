-- ===== src/System.antt =====
-- What the two command line programs, `remnanode-xhttp-clean.py` and `xray-core-manager.py`, run on.
-- The commands, the clock, the JSON parser and SHA-256 are the interface `Platform` over the type of
-- the commands and an unknown state of the world; the files are a map. A run keeps the trace of the
-- commands with their answers, the newest first.
pub mod Keeps
pub mod Atomic
use remnanode_xhttp_cleaner.Base.{
  ℕ, zero, suc, ◌≡◌, Bool, true, false, not, ◌&&◌, Option, none, some, List, [], ◌∷◌, ◌++◌, ◌==◌,
  if◌then◌else◌, Outcome, ok, err, Exception, core_manager_error, os_error,
}
use remnanode_xhttp_cleaner.Base.Int.{ℤ, pos, negsuc}
use remnanode_xhttp_cleaner.Base.Text.{Text, codes, text_eq, starts_with, strip}
use remnanode_xhttp_cleaner.Base.Exec.{Exec, pure, raise, gets, lift, catch, ◌>>=◌, ◌>>◌}
use remnanode_xhttp_cleaner.Json.{Json}

-- `subprocess.CompletedProcess`, with `stdout or ""` and `stderr or ""`
pub record Completed : Type 0 where
  pub returncode : ℤ
  pub stdout : Text
  pub stderr : Text

-- What a file holds: a JSON value that the manager wrote or will read, or other bytes.
pub data Content : Type 0 where
  json : Json → Content
  bytes : Text → Content

-- The calls on a file that may fail.
pub data FileStep : Type 0 where
  create write chmod replace unlink read lock : FileStep

pub record Platform (C W : Type 0) : Type 0 where
  pub run : C → W → Outcome Completed × W
  -- what a command that has run has written into its target on the host
  pub fetched : C → W → Option Content
  -- `time.monotonic` in milliseconds, `time.sleep` of some seconds, and `time.time`
  pub monotonic : W → ℕ
  pub sleep : ℕ → W → W
  pub time : W → ℕ
  pub is_root : Bool
  -- `os.environ.get(name, "")`
  pub environment : Text → Text
  pub which : Text → W → Bool
  -- `json.loads`, with `none` for a `JSONDecodeError`, and `==` of two JSON values
  pub loads : Text → Option Json
  pub json_eq : Json → Json → Bool
  pub sha256 : Content → Text
  -- `str(exc)`: what an `Exception` does not carry of its message comes from the world
  pub str_of : Exception → W → Text
  -- `path.stat().st_size` of a file with this content
  pub size : Content → ℕ
  -- the errno with which a call on a file fails, and what a failed write leaves
  pub fault : FileStep → Text → W → Option ℤ
  pub left : Text → W → Option Content
  -- the name that `tempfile.mkstemp` picks, and the path of `tempfile.TemporaryDirectory`
  pub temporary : Text → W → Text
  pub pid : ℕ
  -- the directory `xray_patch` beside the script, if it is there
  pub local_assets : Option Text
  -- `sys.executable`
  pub python : Text

abbrev pub Files : Type 0
Files = Text → Option Content

pub record System (C W : Type 0) : Type 0 where
  pub world : W
  pub files : Files
  -- whether this process holds the lock of `operation_lock`
  pub locked : Bool
  pub trace : List (C × Outcome Completed)

unfoldable pub put_file : Text → Option Content → Files → Files
put_file path content files = λ q. if text_eq path q then content else files q

abbrev pub is_some : Option Content → Bool
is_some none = false
is_some (some content) = true

abbrev is_zero : ℤ → Bool
is_zero (pos n) = n == 0
is_zero (negsuc n) = false

-- `completed.returncode == 0`
abbrev pub succeeded : Completed → Bool
succeeded c = is_zero c.returncode

abbrev pub is_failure : Option ℤ → Bool
is_failure none = false
is_failure (some errno) = true

module _ {C W : Type 0} (h : Platform C W) where
  -- `subprocess.run`
  unfoldable pub call : C → Exec (System C W) Completed
  call command m =
      let (answer, w) = h.run command m.world in
      (answer, record m { world = w; trace = (command, answer) ∷ m.trace })

  abbrev pub set_file : Text → Option Content → Exec (System C W) (Unit {0})
  set_file path content m = (ok tt, record m { files = put_file path content m.files })

  abbrev pub fail_with : Option ℤ → Exec (System C W) (Unit {0})
  fail_with none = pure tt
  fail_with (some errno) = raise (os_error errno)

  -- A call on a file: it fails, or does nothing that is not said after it.
  unfoldable pub attempt : FileStep → Text → Exec (System C W) (Unit {0})
  attempt step path m = fail_with (h.fault step path m.world) m

  -- Opens `path`, writes and closes it. A failed write leaves what it leaves.
  abbrev pub written : Option ℤ → Text → Content → Exec (System C W) (Unit {0})
  written none path content m = set_file path (some content) m
  written (some errno) path content m =
      (err (os_error errno), record m { files = put_file path (h.left path m.world) m.files })

  unfoldable pub write_file : Text → Content → Exec (System C W) (Unit {0})
  write_file path content m = written (h.fault write path m.world) path content m

  abbrev pub has_file : Text → Exec (System C W) Bool
  has_file path = gets (λ m. is_some (m.files path))

  -- What a command has left in a file of the host.
  abbrev pub put_fetched : Text → Option Content → Exec (System C W) (Unit {0})
  put_fetched file none = pure tt
  put_fetched file (some content) = set_file file (some content)

  abbrev pub receive : C → Text → Exec (System C W) (Unit {0})
  receive command file m = put_fetched file (h.fetched command m.world) m

  -- Opens `path` and reads it.
  abbrev pub found : Option Content → Exec (System C W) Content
  found none = raise (os_error (pos 2))
  found (some content) = pure content

  unfoldable pub read_file : Text → Exec (System C W) Content
  unfolding attempt
  read_file path = do
    content ← gets (λ m. m.files path)
    text ← found content
    attempt read path
    pure text

  -- `path.unlink(missing_ok=True)`
  unfoldable pub unlink_file : Text → Exec (System C W) (Unit {0})
  unfolding attempt
  unlink_file path = do
    there ← has_file path
    if there then (attempt unlink path >> set_file path none) else pure tt

  -- `os.replace(source, target)`
  abbrev pub moved : Option Content → Text → Text → Exec (System C W) (Unit {0})
  moved none source target = raise (os_error (pos 2))
  moved (some content) source target = set_file target (some content) >> set_file source none

  unfoldable pub replace_file : Text → Text → Exec (System C W) (Unit {0})
  unfolding attempt
  replace_file source target = do
    content ← gets (λ m. m.files source)
    attempt replace source
    moved content source target

  -- `try: os.unlink(name)` with `except FileNotFoundError: pass`, then `raise`
  unfoldable pub discard : Text → Exception → Exec (System C W) (Unit {0})
  unfolding unlink_file
  discard name e = unlink_file name >> raise e

  -- The `try` of `atomic_json` and of `atomic_write`: the new content is written beside the old file and replaces it.
  unfoldable pub fill_and_replace : Text → Text → Content → Exec (System C W) (Unit {0})
  unfolding write_file attempt replace_file
  fill_and_replace name path content = do
    write_file name content
    attempt chmod name
    replace_file name path

  -- Both functions, for a file with any content.
  unfoldable pub atomic_put : Text → Content → Exec (System C W) (Unit {0})
  unfolding attempt discard fill_and_replace
  atomic_put path content = do
    name ← gets (λ m. h.temporary path m.world)
    attempt create name
    set_file name (some (bytes []))
    catch (fill_and_replace name path content) (discard name)

  abbrev pub without_tree : Text → W → Files → Files
  without_tree root w files = λ path.
      if starts_with path (root ++ codes "/") && not (is_failure (h.fault unlink path w))
      then none
      else files path

  -- `shutil.rmtree(root, ignore_errors=True)`: a file that cannot be deleted stays.
  unfoldable pub remove_tree : Text → Exec (System C W) (Unit {0})
  unfolding starts_with
  remove_tree root m = (ok tt, record m { files = without_tree root m.world m.files })
