-- ===== src/Cleaner/Machine.antt =====
-- remnanode-xhttp-clean.py: what the program runs on, a `System` with its commands, and `run`.
pub mod Keeps
pub mod Triples
use remnanode_xhttp_cleaner.Base.{
  ℕ, Bool, true, false, not, ◌==◌, if◌then◌else◌, Exception, cleaner_error, os_error,
}
use remnanode_xhttp_cleaner.Base.Int.{ℤ, pos, negsuc}
use remnanode_xhttp_cleaner.Base.Text.{Text}
use remnanode_xhttp_cleaner.Base.Exec.{Exec, pure, raise, raise_if, gets, catch, ◌>>=◌}
use remnanode_xhttp_cleaner.Json.{Json}
use remnanode_xhttp_cleaner.System.{Platform, System, Completed, succeeded, call}
use remnanode_xhttp_cleaner.Cleaner.Command.{Command}

abbrev pub Host : Type 0 → Type 0
Host W = Platform Command W

abbrev pub Machine : Type 0 → Type 0
Machine W = System Command W

-- What else the program takes from outside.
pub record Setting (W : Type 0) : Type 0 where
  -- `json.dumps` with the separators of `run_worker`, and with the indentation of `command_install`
  pub dumps : Json → Text
  pub dumps_indented : Json → Text
  -- `CONFIG_PATH`, which the environment may name, and `Path(__file__).resolve()`
  pub config_path : Text
  pub script : Text
  pub resolve : Text → W → Text

abbrev pub is_enoent : ℤ → Bool
is_enoent (pos n) = n == 2
is_enoent (negsuc n) = false

-- `except FileNotFoundError` of `run`
abbrev pub explained : Exception → Exception
explained (os_error errno) =
    if is_enoent errno then cleaner_error "Команда не найдена" else os_error errno
explained e = e

module _ {W : Type 0} (h : Host W) where
  -- `run(command, check=False)`
  unfoldable pub run_unchecked : Command → Exec (Machine W) Completed
  unfolding call
  run_unchecked command = catch (call h command) (λ e. raise (explained e))

  abbrev pub checked : Completed → Exec (Machine W) Completed
  checked completed =
      if succeeded completed then pure completed else raise (cleaner_error "Ошибка команды")

  -- `run(command)`
  unfoldable pub run : Command → Exec (Machine W) Completed
  unfolding run_unchecked
  run command = do completed ← run_unchecked command; checked completed

  -- `if shutil.which(name) is None: raise CleanerError(…)`
  abbrev pub require_program : Text → Exec (Machine W) (Unit {0})
  require_program name = do
    there ← gets (λ m. h.which name m.world)
    raise_if (not there) (cleaner_error "программа не найдена")

  abbrev pub require_root : Exec (Machine W) (Unit {0})
  require_root =
      raise_if (not h.is_root)
        (cleaner_error "Для чтения чужих socket inode и SOCK_DESTROY нужен root")
