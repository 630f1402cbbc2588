-- ===== src/Cleaner/Process.antt =====
-- remnanode-xhttp-clean.py: the worker process, from both of its ends: `run_worker`, which starts it,
-- and the branch `_worker` of `main` up to the call of `worker`.
pub mod Arguments
use remnanode_xhttp_cleaner.Base.{
  ℕ, Bool, true, false, not, Option, none, some, List, [], ◌∷◌, ◌||◌, if◌then◌else◌, Outcome, ok,
  err, bind_ok, cleaner_error, type_error, json_decode_error,
}
use remnanode_xhttp_cleaner.Base.Int.{pos}
use remnanode_xhttp_cleaner.Base.Text.{Text, codes, text_eq}
use remnanode_xhttp_cleaner.Base.Exec.{Exec, pure, lift, ◌>>=◌, ◌>>◌}
use remnanode_xhttp_cleaner.Json.{
  Json, str, int, list, dict, Items, nil, item, Fields, end, field, find, get,
}
use remnanode_xhttp_cleaner.Config.{Config, asdict, validate, build, has_unknown}
use remnanode_xhttp_cleaner.Listener.{XhttpListener}
use remnanode_xhttp_cleaner.System.{Completed}
use remnanode_xhttp_cleaner.Cleaner.Command.{Command, enter_worker}
use remnanode_xhttp_cleaner.Cleaner.Machine.{
  Host, Machine, Setting, run, require_root, require_program,
}
use remnanode_xhttp_cleaner.Cleaner.Discover.{
  Discovery, disabled, found, unavailable, docker_info, discover_xhttp_listeners,
}

-- `dataclasses.asdict(item)` of a listener, and of all of them
unfoldable pub listener_asdict : XhttpListener → Json
listener_asdict l = dict (
    field (codes "address") (str l.address)
      (field (codes "port") (int (pos l.port)) (field (codes "tag") (str l.tag) end)))

unfoldable pub listeners_asdict : List XhttpListener → Items
unfolding listener_asdict
listeners_asdict [] = nil
listeners_asdict (l ∷ ls) = item (listener_asdict l) (listeners_asdict ls)

-- What the program prints as `xhttp_discovery`.
unfoldable pub discovery_text : Discovery → Text
discovery_text disabled = codes "disabled"
discovery_text found = codes "ok"
discovery_text unavailable = codes "unavailable"

-- `result[key] = value`
unfoldable pub set_item : Text → Json → Fields → Fields
unfolding text_eq
set_item key value end = field key value end
set_item key value (field k v fs) =
    let rest = set_item key value fs in if text_eq k key then field k value fs else field k v rest

abbrev pub with_discovery : Discovery → Option Json → Outcome Fields
with_discovery discovery none = err (cleaner_error "Некорректный ответ worker")
with_discovery discovery (some (dict result)) =
    ok (set_item (codes "xhttp_discovery") (str (discovery_text discovery)) result)
with_discovery discovery (some _) = err type_error

module _ {W : Type 0} (h : Host W) (s : Setting W) where
  unfoldable pub run_worker : Config → Bool → Exec (Machine W) Fields
  unfolding docker_info discover_xhttp_listeners run asdict listeners_asdict set_item discovery_text
  run_worker config apply = do
    require_root h
    require_program h (codes "nsenter")
    target ← docker_info h config.container
    (listeners, discovery) ← discover_xhttp_listeners h config
    completed ← run h (
        enter_worker target.init_pid target.xray_pid (s.dumps (asdict config))
          (s.dumps (list (listeners_asdict listeners))) apply)
    lift (with_discovery discovery (h.loads completed.stdout))

-- `XhttpListener(**item)`: a dataclass does not test the types of its fields.
pub record RawListener : Type 0 where
  pub address : Json
  pub port : Json
  pub tag : Json

abbrev is_field : Text → Bool
is_field key =
    text_eq key (codes "address") || text_eq key (codes "port") || text_eq key (codes "tag")

unfoldable pub has_other : Fields → Bool
unfolding text_eq
has_other end = false
has_other (field key v fs) = not (is_field key) || has_other fs

abbrev with_required : Option Json → Option Json → Json → Outcome RawListener
with_required (some address) (some port) tag =
    ok (record { address = address; port = port; tag = tag })
with_required _ _ tag = err type_error

unfoldable pub raw_listener : Json → Outcome RawListener
unfolding has_other find get
raw_listener (dict fields) =
    if has_other fields
    then err type_error
    else with_required (find (codes "address") fields) (find (codes "port") fields)
        (get (codes "tag") (str []) fields)
raw_listener _ = err type_error

unfoldable pub raw_listeners : Items → Outcome (List RawListener)
unfolding raw_listener
raw_listeners nil = ok []
raw_listeners (item value rest) =
    bind_ok (raw_listener value) (λ l. bind_ok (raw_listeners rest) (λ ls. ok (l ∷ ls)))

-- `Config(**raw)` and `validate`
unfoldable pub config_of : Json → Outcome Config
unfolding has_unknown validate build
config_of (dict raw) = if has_unknown raw then err type_error else validate (build raw)
config_of _ = err type_error

abbrev pub listeners_of : Json → Outcome (List RawListener)
listeners_of (list items) = raw_listeners items
listeners_of _ = err (cleaner_error "xhttp-json должен быть массивом")

abbrev pub loaded : Option Json → Outcome Json
loaded none = err json_decode_error
loaded (some value) = ok value

-- The branch up to the call of `worker`: the configuration and the listeners that it is called with.
unfoldable pub worker_input :
    (Text → Option Json) → Text → Text → Outcome (Config × List RawListener)
unfolding config_of raw_listeners
worker_input loads config_json xhttp_json = bind_ok (loaded (loads config_json)) (λ raw.
    bind_ok (config_of raw) (λ config.
      bind_ok (loaded (loads xhttp_json))
        (λ items. bind_ok (listeners_of items) (λ listeners. ok (config, listeners)))))
