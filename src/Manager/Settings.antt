-- ===== src/Manager/Settings.antt =====
-- `xray-core-manager.py`: `preserved_container_settings`, and `load_container`.
use remnanode_xhttp_cleaner.Base.{
  Option, none, some, [], ◌∷◌, if◌then◌else◌, Outcome, ok, err, bind_ok, Exception,
  core_manager_error, attribute_error, value_error,
}
use remnanode_xhttp_cleaner.Base.Text.{Text, codes}
use remnanode_xhttp_cleaner.Json.{Json, null, str, list, dict, nil, item, Fields, end, field, get}
use remnanode_xhttp_cleaner.Config.{ConfigFile, absent, holds, unreadable, not_utf8}
use remnanode_xhttp_cleaner.Manager.Version.{is_container_name}

infixl 5 ◌>>=◌
abbrev ◌>>=◌ {ℓ κ} : {A : Type ℓ} {B : Type κ} → Outcome A → (A → Outcome B) → Outcome B
m >>= f = bind_ok m f

abbrev malformed : Exception
malformed = core_manager_error "Docker returned malformed container inspection data"

-- `json.loads(inspect_payload)[0]`. The index 0 is no key of a `dict`, and a number has no items.
unfoldable pub first_item : Option Json → Outcome Json
first_item none = err malformed
first_item (some (list nil)) = err malformed
first_item (some (list (item first rest))) = ok first
first_item (some (str [])) = err malformed
first_item (some (str (c ∷ rest))) = ok (str (c ∷ []))
first_item (some _) = err malformed

-- The methods `get` and `items`, which only a `dict` has
abbrev pub fields_of : Json → Outcome Fields
fields_of (dict fs) = ok fs
fields_of _ = err attribute_error

-- `item.get(key)`, where a missing key gives `None`
abbrev pub get_or_null : Text → Fields → Json
get_or_null key fs = get key null fs

abbrev stable_keys : Fields → Json
stable_keys values = dict (
    field (codes "Aliases") (get_or_null (codes "Aliases") values) (
      field (codes "Links") (get_or_null (codes "Links") values) (
        field (codes "IPAMConfig") (get_or_null (codes "IPAMConfig") values) (
          field (codes "DriverOpts") (get_or_null (codes "DriverOpts") values)
            (field (codes "NetworkID") (get_or_null (codes "NetworkID") values) end)))))

-- `stable_networks`
unfoldable pub stable_networks : Fields → Outcome Fields
stable_networks end = ok end
stable_networks (field name settings rest) = do
  values ← fields_of settings
  later ← stable_networks rest
  ok (field name (stable_keys values) later)

-- The dictionary that is kept of one container.
unfoldable pub settings_of : Fields → Outcome Json
unfolding stable_networks get
settings_of container = do
  network_settings ← fields_of (get (codes "NetworkSettings") (dict end) container)
  networks ← fields_of (get (codes "Networks") (dict end) network_settings)
  stable ← stable_networks networks
  ok (
      dict (
        field (codes "Config") (get_or_null (codes "Config") container) (
          field (codes "HostConfig") (get_or_null (codes "HostConfig") container) (
            field (codes "Mounts") (get_or_null (codes "Mounts") container)
              (field (codes "Networks") (dict stable) end)))))

unfoldable pub preserved_container_settings : Option Json → Outcome Json
unfolding first_item settings_of
preserved_container_settings payload = do
  first ← first_item payload
  container ← fields_of first
  settings_of container

abbrev valid_name : Json → Outcome Text
valid_name (str name) =
    if is_container_name name
    then ok name
    else err (core_manager_error "invalid Docker container name in configuration")
valid_name _ = err (core_manager_error "invalid Docker container name in configuration")

unfoldable pub load_container : ConfigFile → Outcome Text
unfolding get is_container_name
load_container absent = err (core_manager_error "cannot read the configuration")
load_container unreadable = err (core_manager_error "cannot read the configuration")
load_container not_utf8 = err (value_error "UnicodeDecodeError")
load_container (holds raw) = do
  fs ← fields_of raw
  valid_name (get (codes "container") (str (codes "remnanode")) fs)
