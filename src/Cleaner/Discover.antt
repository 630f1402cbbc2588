-- ===== src/Cleaner/Discover.antt =====
-- remnanode-xhttp-clean.py: `docker_info`, and the three functions that ask the container for its
-- rendered configuration and for the state of the memory optimizer.
pub mod Asking
use remnanode_xhttp_cleaner.Base.{
  Bool, true, false, not, ◌&&◌, ◌||◌, Option, none, some, List, [], ◌∷◌, if◌then◌else◌, Outcome, ok,
  err, bind_ok, Exception, cleaner_error, value_error,
}
use remnanode_xhttp_cleaner.Base.Int.{ℤ}
use remnanode_xhttp_cleaner.Base.Text.{Text, codes, text_eq, strip, strip_left}
use remnanode_xhttp_cleaner.Base.Exec.{Exec, pure, raise_if, lift, ◌>>=◌, ◌>>◌}
use remnanode_xhttp_cleaner.Json.{Json, str, dict, Fields, end}
use remnanode_xhttp_cleaner.Config.{Config}
use remnanode_xhttp_cleaner.Listener.{XhttpListener, int_of, parse_xhttp_listeners}
use remnanode_xhttp_cleaner.Transport.{Counts, no_counts, parse_transport_counts}
use remnanode_xhttp_cleaner.System.{Completed, succeeded}
use remnanode_xhttp_cleaner.Manager.Version.{occurs}
use remnanode_xhttp_cleaner.Manager.Process.{
  splitlines, span_word, second_field, third_field, behind_first, is_empty,
}
use remnanode_xhttp_cleaner.Manager.RuntimeConfig.{between_braces}
use remnanode_xhttp_cleaner.Cleaner.Command.{
  Command, inspect_running, inspect_pid, inspect_image, process_table, dump_config,
  dump_config_short, optimizer_status,
}
use remnanode_xhttp_cleaner.Cleaner.Machine.{Host, Machine, run, run_unchecked, require_program}

pub record Target : Type 0 where
  pub init_pid : ℤ
  pub xray_pid : ℤ
  pub image : Text

-- The first item of `line.split(None, 2)`
unfoldable pub first_field : Text → Text
unfolding span_word strip_left
first_field line = (span_word (strip_left line)).0

-- The test on one line; the second field is empty where there are fewer than two.
unfoldable pub is_xray_line : Text → Bool
unfolding second_field third_field text_eq occurs
is_xray_line line =
    not (is_empty (second_field line))
    && (text_eq (second_field line) (codes "rw-core")
        || text_eq (second_field line) (codes "xray")
        || occurs (codes "/rw-core") (third_field line))

-- The loop over the lines of `docker top`
unfoldable pub find_xray : List Text → Outcome (Option ℤ)
unfolding is_xray_line first_field int_of
find_xray [] = ok none
find_xray (line ∷ lines) =
    let later = find_xray lines in
    if is_xray_line line
    then bind_ok (int_of (str (first_field line))) (λ pid. ok (some pid))
    else later

abbrev pub required_pid : Option ℤ → Outcome ℤ
required_pid none = err (cleaner_error "Процесс rw-core/xray внутри контейнера не найден")
required_pid (some pid) = ok pid

-- `int(text)` with its `except ValueError`
abbrev pub container_pid : Outcome ℤ → Outcome ℤ
container_pid (err (value_error message)) =
    err (cleaner_error "Docker вернул некорректный PID контейнера")
container_pid other = other

-- `json.loads(output)`, or else of what is between the braces
abbrev pub loads_from : (Text → Option Json) → Option Text → Option Json
loads_from loads none = none
loads_from loads (some text) = loads text

abbrev pub or_else : Option Json → Option Json → Option Json
or_else none other = other
or_else (some value) other = some value

unfoldable pub rendered : (Text → Option Json) → Text → Option Json
unfolding between_braces
rendered loads output = or_else (loads output) (loads_from loads (between_braces output))

-- The part of both loops that asks: the text, if the command has returned one.
unfoldable pub usable : Completed → Option Text
unfolding strip
usable completed =
    if succeeded completed && not (is_empty (strip completed.stdout))
    then some (strip completed.stdout)
    else none

pub data Discovery : Type 0 where
  disabled found unavailable : Discovery

module _ {W : Type 0} (h : Host W) where
  unfoldable pub docker_info : Text → Exec (Machine W) Target
  unfolding run strip text_eq int_of splitlines behind_first find_xray
  docker_info container = do
    require_program h (codes "docker")
    running ← run h (inspect_running container)
    raise_if (not (text_eq (strip running.stdout) (codes "true")))
        (cleaner_error "Контейнер не запущен")
    init_pid_text ← run h (inspect_pid container)
    init_pid ← lift (container_pid (int_of (str (strip init_pid_text.stdout))))
    top ← run h (process_table container)
    seen ← lift (find_xray (behind_first (splitlines top.stdout)))
    xray_pid ← lift (required_pid seen)
    image ← run h (inspect_image container)
    pure (record { init_pid = init_pid; xray_pid = xray_pid; image = strip image.stdout })

  abbrev pub parsed_listeners :
      Option Json
      → Exec (Machine W) (List XhttpListener × Discovery)
      → Exec (Machine W) (List XhttpListener × Discovery)
  parsed_listeners none later = later
  parsed_listeners (some raw) later = do
    listeners ← lift (parse_xhttp_listeners raw)
    pure (listeners, found)

  abbrev pub rendered_from : Option Text → Option Json
  rendered_from none = none
  rendered_from (some output) = rendered h.loads output

  -- One round of the loop over `attempts`
  unfoldable pub try_listeners :
      Command
      → Exec (Machine W) (List XhttpListener × Discovery)
      → Exec (Machine W) (List XhttpListener × Discovery)
  unfolding run_unchecked usable rendered parse_xhttp_listeners
  try_listeners command later = do
    completed ← run_unchecked h command
    parsed_listeners (rendered_from (usable completed)) later

  unfoldable pub discover_xhttp_listeners :
      Config → Exec (Machine W) (List XhttpListener × Discovery)
  unfolding try_listeners
  discover_xhttp_listeners config =
      if config.clean_xhttp_buffers
      then try_listeners (dump_config config.container)
          (try_listeners (dump_config_short config.container) (pure ([], unavailable)))
      else pure ([], disabled)

  abbrev pub between : Option Text → Option Json
  between none = none
  between (some output) = loads_from h.loads (between_braces output)

  abbrev pub parsed_counts :
      Option Json → Exec (Machine W) (Counts × Discovery) → Exec (Machine W) (Counts × Discovery)
  parsed_counts none later = later
  parsed_counts (some raw) later = pure (parse_transport_counts raw, found)

  unfoldable pub try_counts :
      Command → Exec (Machine W) (Counts × Discovery) → Exec (Machine W) (Counts × Discovery)
  unfolding run_unchecked usable between_braces parse_transport_counts
  try_counts command later = do
    completed ← run_unchecked h command
    parsed_counts (between (usable completed)) later

  unfoldable pub discover_transport_counts : Text → Exec (Machine W) (Counts × Discovery)
  unfolding try_counts
  discover_transport_counts container =
      try_counts (dump_config container)
        (try_counts (dump_config_short container) (pure (no_counts, unavailable)))

  abbrev pub object_or_empty : Option Json → Fields
  object_or_empty (some (dict status)) = status
  object_or_empty _ = end

  unfoldable pub read_memory_optimizer_status : Text → Exec (Machine W) Fields
  unfolding run_unchecked
  read_memory_optimizer_status container = do
    completed ← run_unchecked h (optimizer_status container)
    pure (if succeeded completed then object_or_empty (h.loads completed.stdout) else end)
