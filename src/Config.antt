-- ===== src/Config.antt =====
-- The settings of remnanode-xhttp-clean.py: class `Config` with `load`, `validate` and the copy
-- that `dataclasses.asdict` hands to the worker process. A JSON file may give a field any value, so
-- `RawConfig` is the object as `cls(**raw)` builds it, and `Config` the object once `validate` has
-- accepted it.
pub mod Validation
use remnanode_xhttp_cleaner.Base.{
  ℕ, ◌≡◌, Bool, true, false, ◌&&◌, ◌||◌, not, Option, none, some, List, [], ◌∷◌, ltb, if◌then◌else◌,
  Outcome, ok, err, cleaner_error, value_error, Exception, bind_ok,
}
use remnanode_xhttp_cleaner.Base.Int.{ℤ, pos, negsuc}
use remnanode_xhttp_cleaner.Base.Text.{Text, codes, text_eq}
use remnanode_xhttp_cleaner.Json.{
  Json, null, bool, int, float, str, list, dict, Fields, end, field, get,
}

pub record Config : Type 0 where
  pub container : Text
  pub idle_seconds : ℕ
  pub include_inbound : Bool
  pub exclude_loopback : Bool
  pub clean_xhttp_buffers : Bool
  pub clean_close_wait : Bool
  pub clean_established_outbound : Bool

-- `cls()`
abbrev pub default : Config
default = record {
  container = codes "remnanode";
  idle_seconds = 300;
  include_inbound = false;
  exclude_loopback = true;
  clean_xhttp_buffers = false;
  clean_close_wait = true;
  clean_established_outbound = false;
}

pub record RawConfig : Type 0 where
  pub container : Json
  pub idle_seconds : Json
  pub include_inbound : Json
  pub exclude_loopback : Json
  pub clean_xhttp_buffers : Json
  pub clean_close_wait : Json
  pub clean_established_outbound : Json

abbrev pub container_check : Json → Outcome Text
container_check (str []) = err (cleaner_error "container должен быть непустой строкой")
container_check (str (c ∷ cs)) = ok (c ∷ cs)
container_check _ = err (cleaner_error "container должен быть непустой строкой")

-- A `bool` is an `int` to `isinstance`, and is refused by the second test of the source.
abbrev pub idle_seconds_check : Json → Outcome ℕ
idle_seconds_check (int (pos n)) =
    if ltb n 300
    then err (cleaner_error "idle_seconds нельзя устанавливать меньше 300 секунд")
    else ok n
idle_seconds_check (int (negsuc n)) =
    err (cleaner_error "idle_seconds нельзя устанавливать меньше 300 секунд")
idle_seconds_check _ = err (cleaner_error "idle_seconds должен быть целым числом")

abbrev pub boolean_check : Json → Outcome Bool
boolean_check (bool b) = ok b
boolean_check _ = err (cleaner_error "boolean_fields должны быть boolean")

infixl 5 ◌>>=◌
abbrev ◌>>=◌ : {A B : Type 0} → Outcome A → (A → Outcome B) → Outcome B
m >>= f = bind_ok m f

unfoldable pub validate : RawConfig → Outcome Config
validate raw = do
  container ← container_check raw.container
  idle_seconds ← idle_seconds_check raw.idle_seconds
  include_inbound ← boolean_check raw.include_inbound
  exclude_loopback ← boolean_check raw.exclude_loopback
  clean_xhttp_buffers ← boolean_check raw.clean_xhttp_buffers
  clean_close_wait ← boolean_check raw.clean_close_wait
  clean_established_outbound ← boolean_check raw.clean_established_outbound
  ok (record {
    container = container;
    idle_seconds = idle_seconds;
    include_inbound = include_inbound;
    exclude_loopback = exclude_loopback;
    clean_xhttp_buffers = clean_xhttp_buffers;
    clean_close_wait = clean_close_wait;
    clean_established_outbound = clean_established_outbound;
  })

-- `{field.name for field in dataclasses.fields(cls)}`
abbrev allowed : List Text
allowed =
    codes "container"
    ∷ codes "idle_seconds"
    ∷ codes "include_inbound"
    ∷ codes "exclude_loopback"
    ∷ codes "clean_xhttp_buffers"
    ∷ codes "clean_close_wait"
    ∷ codes "clean_established_outbound"
    ∷ []

abbrev one_of : List Text → Text → Bool
one_of [] t = false
one_of (s ∷ names) t = text_eq s t || one_of names t

-- `set(raw) - allowed` is not empty
unfoldable pub has_unknown : Fields → Bool
unfolding text_eq
has_unknown end = false
has_unknown (field k v fs) = not (one_of allowed k) || has_unknown fs

-- `cls(**raw)` for a `raw` with no unknown key
unfoldable pub build : Fields → RawConfig
unfolding get
build raw = record {
  container = get (codes "container") (str default.container) raw;
  idle_seconds = get (codes "idle_seconds") (int (pos default.idle_seconds)) raw;
  include_inbound = get (codes "include_inbound") (bool default.include_inbound) raw;
  exclude_loopback = get (codes "exclude_loopback") (bool default.exclude_loopback) raw;
  clean_xhttp_buffers = get (codes "clean_xhttp_buffers") (bool default.clean_xhttp_buffers) raw;
  clean_close_wait = get (codes "clean_close_wait") (bool default.clean_close_wait) raw;
  clean_established_outbound =
      get (codes "clean_established_outbound") (bool default.clean_established_outbound) raw;
}

-- What `json.loads(CONFIG_PATH.read_text(encoding="utf-8"))` does: it returns a value, raises an
-- `OSError` or a `JSONDecodeError`, or raises a `UnicodeDecodeError`, which is neither.
pub data ConfigFile : Type 0 where
  absent : ConfigFile
  holds : Json → ConfigFile
  unreadable : ConfigFile
  not_utf8 : ConfigFile

abbrev from_object : Json → Outcome Config
from_object (dict raw) =
    if has_unknown raw then err (cleaner_error "Неизвестные параметры") else validate (build raw)
from_object _ = err (cleaner_error "Конфигурация должна быть JSON-объектом")

unfoldable pub load : ConfigFile → Outcome Config
unfolding validate has_unknown build
load absent = ok default
load (holds raw) = from_object raw
load unreadable = err (cleaner_error "Не удалось прочитать")
load not_utf8 = err (value_error "UnicodeDecodeError")

-- `dataclasses.asdict(config)`, as JSON
unfoldable pub asdict : Config → Json
asdict c = dict (
    field (codes "container") (str c.container) (
      field (codes "idle_seconds") (int (pos c.idle_seconds)) (
        field (codes "include_inbound") (bool c.include_inbound) (
          field (codes "exclude_loopback") (bool c.exclude_loopback) (
            field (codes "clean_xhttp_buffers") (bool c.clean_xhttp_buffers) (
              field (codes "clean_close_wait") (bool c.clean_close_wait) (
                field (codes "clean_established_outbound") (bool c.clean_established_outbound)
                  end)))))))
