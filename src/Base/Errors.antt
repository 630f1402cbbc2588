-- ===== src/Base/Errors.antt =====
-- Python's exceptions: a call returns a value, or raises an exception that carries what the code
-- puts in it.
use Prim.Native.Nat.{ℕ}
use remnanode_xhttp_cleaner.Base.Int.{ℤ}
use Prim.Native.String.{String}
use mathlib.Core.Path.{◌≡◌, refl}
use mathlib.Core.Logic.{◌⊎◌, inl, inr}
use mathlib.Core.List.{List}

-- The messages of `PatchError`.
pub data Refusal : Type 0 where
  expected_one_match : String → ℕ → Refusal
  expected_one_supported_match : String → ℕ → Refusal
  missing_source : List ℕ → Refusal
  overlay_present : Refusal
  missing_asset : List ℕ → Refusal

-- `cleaner_error`, `patch_error` and `core_manager_error` are the program's own classes. The
-- others are the standard library's: `os_error` is `OSError` with its errno, `socket_timeout` is
-- `socket.timeout`, `timeout_expired` is `subprocess.TimeoutExpired`, and
-- `json_decode_error` is `json.JSONDecodeError`.
pub data Exception : Type 0 where
  cleaner_error : String → Exception
  patch_error : Refusal → Exception
  core_manager_error : String → Exception
  os_error : ℤ → Exception
  socket_timeout : Exception
  overflow_error : Exception
  value_error : String → Exception
  attribute_error : Exception
  key_error : Exception
  timeout_expired : Exception
  type_error : Exception
  json_decode_error : Exception
  index_error : Exception

pub data Outcome {ℓ} (A : Type ℓ) : Type ℓ where
  ok : A → Outcome A
  err : Exception → Outcome A

pub Outcome-cases {ℓ} :
    {A : Type ℓ} (r : Outcome A) → ((a : A) × (r ≡ ok a)) ⊎ ((e : Exception) × (r ≡ err e))
Outcome-cases (ok a) = inl (a, refl)
Outcome-cases (err e) = inr (e, refl)

-- The rest of a block after a step of `Outcome`.
abbrev pub bind_ok {ℓ κ} : {A : Type ℓ} {B : Type κ} → Outcome A → (A → Outcome B) → Outcome B
bind_ok (ok a) f = f a
bind_ok (err e) f = err e

-- A successful block has a successful first step.
pub bind_ok-eq-ok {ℓ κ} :
    {A : Type ℓ} {B : Type κ} (m : Outcome A) (f : A → Outcome B) {b : B}
    → bind_ok m f ≡ ok b
    → (a : A) × (m ≡ ok a) × (f a ≡ ok b)
bind_ok-eq-ok (ok a) f h = (a, refl, h)
bind_ok-eq-ok (err e) f h = cc

pub ok-injective {ℓ} : {A : Type ℓ} (a b : A) → ok a ≡ ok b → a ≡ b
ok-injective a b h = cc
