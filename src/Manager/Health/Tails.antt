-- ===== src/Manager/Health/Tails.antt =====
-- The texts that `write_diagnostics` of `xray-core-manager.py` keeps of a command.
use native.Mathlib.Omega.{arith}
use remnanode_xhttp_cleaner.Base.{
  ℕ, ◌-◌, ◌≤◌, ◌≡◌, length, length-drop, ok, Exception, os_error, timeout_expired,
}
use remnanode_xhttp_cleaner.Base.Text.{Text, codes, text_eq}
use remnanode_xhttp_cleaner.Base.Exec.{gets}
use remnanode_xhttp_cleaner.Base.Exec.Triple.{
  Triple, Triple-bind, Triple-pure, Triple-gets, Triple-raise, Triple-catch, Triple-always,
  Triple-ok,
}
use remnanode_xhttp_cleaner.Json.{Json, null, str, dict, find, get}
use remnanode_xhttp_cleaner.Manager.Command.{Command}
use remnanode_xhttp_cleaner.Manager.Machine.{Host, Machine, Completed, call}
use remnanode_xhttp_cleaner.Manager.Health.{
  last_of, command_fields, error_field, diagnostic_command, on_command_error,
}

length-last_of : (n : ℕ) (text : Text) → length (last_of n text) ≤ n
length-last_of n text = omega (arith, length-drop (length text - n) text)

-- The length of a string of JSON, and the value of a key.
abbrev string_length : Json → ℕ
string_length (str s) = length s
string_length _ = 0

abbrev field_length : Text → Json → ℕ
field_length key (dict fs) = string_length (get key null fs)
field_length key _ = 0

abbrev pub IsBounded : Json → Type 0
IsBounded value =
    (field_length (codes "stdout") value ≤ 30000) × (field_length (codes "stderr") value ≤ 10000)

module _ {W : Type 0} (h : Host W) where
  abbrev Bounded : Json → Machine W → Type 0
  Bounded value m = IsBounded value

  abbrev Anything : Machine W → Type 0
  Anything m = Unit {0}

  command_fields-IsBounded : (c : Completed) → IsBounded (command_fields h c)
  unfolding get find text_eq
  command_fields-IsBounded c = (length-last_of 30000 c.stdout, length-last_of 10000 c.stderr)

  error_field-IsBounded : (e : Exception) (w : W) → IsBounded (error_field h e w)
  unfolding get find text_eq
  error_field-IsBounded e w = (omega arith, omega arith)

  handler-IsBounded :
      (e : Exception)
      → Triple Anything Bounded Anything (on_command_error (gets (λ m. error_field h e m.world)) e)
  handler-IsBounded (os_error errno) =
      Triple-gets _ (λ m p. error_field-IsBounded (os_error errno) m.world)
  handler-IsBounded timeout_expired =
      Triple-gets _ (λ m p. error_field-IsBounded timeout_expired m.world)
  handler-IsBounded e = Triple-raise e (λ m p. tt)

  diagnostic_command-Bounded :
      (c : Command) → Triple Anything Bounded Anything (diagnostic_command h c)
  unfolding diagnostic_command
  diagnostic_command-Bounded c =
      Triple-catch _ _
        (Triple-bind {Q = λ _. Anything} (call h c) _ (Triple-always _ (λ a s. tt) (λ s. tt))
          (λ done. Triple-pure _ (λ m p. command_fields-IsBounded done)))
        handler-IsBounded

  -- What `diagnostic_command` keeps of a command has at most 30000 characters of its output and at most
  -- 10000 of its errors.
  pub diagnostic_command-IsBounded :
      (c : Command) (m : Machine W) (value : Json)
      → (diagnostic_command h c m).0 ≡ ok value
      → IsBounded value
  diagnostic_command-IsBounded c m value e = Triple-ok (diagnostic_command-Bounded c) tt e
