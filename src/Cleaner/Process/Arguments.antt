-- ===== src/Cleaner/Process/Arguments.antt =====
-- The worker process gets from its arguments what `run_worker` has put into them.
use remnanode_xhttp_cleaner.Base.{
  ◌≡◌, refl, Bool, true, Option, some, none, List, [], ◌∷◌, map, All, Outcome, ok, arith,
}
use remnanode_xhttp_cleaner.Base.Int.{ℤ, pos}
use remnanode_xhttp_cleaner.Base.Text.{codes}
use remnanode_xhttp_cleaner.Base.Exec.{Exec}
use remnanode_xhttp_cleaner.Base.Exec.Keeps.{Keeps}
use remnanode_xhttp_cleaner.Base.Exec.Triple.{
  Triple, Triple-bind, Triple-Keeps, Triple-pure, Triple-lift, Triple-if, Triple-given,
  Keeps-Triple,
}
use remnanode_xhttp_cleaner.Json.{Json, null, str, int, list}
use remnanode_xhttp_cleaner.Config.{Config, asdict}
use remnanode_xhttp_cleaner.Config.Validation.{IsValid}
use remnanode_xhttp_cleaner.Listener.{XhttpListener, parse_xhttp_listeners}
use remnanode_xhttp_cleaner.Listener.Keys.{IsGood, parse_xhttp_listeners-IsGood}
use remnanode_xhttp_cleaner.System.{Completed, call}
use remnanode_xhttp_cleaner.System.Keeps.{Keeps-call}
use remnanode_xhttp_cleaner.Cleaner.Command.{Command, enter_worker}
use remnanode_xhttp_cleaner.Cleaner.Machine.{Host, Machine, Setting, run, run_unchecked}
use remnanode_xhttp_cleaner.Cleaner.Machine.Keeps.{
  Keeps-run, Keeps-require_root, Keeps-require_program,
}
use remnanode_xhttp_cleaner.Cleaner.Discover.Asking.{asking, Keeps-try, Keeps-docker_info}
use remnanode_xhttp_cleaner.Cleaner.Discover.{
  Discovery, unavailable, disabled, discover_xhttp_listeners, try_listeners, parsed_listeners,
  found, rendered_from, usable,
}
use remnanode_xhttp_cleaner.Cleaner.Process.{
  RawListener, raw_listener, raw_listeners, listener_asdict, listeners_asdict, config_of,
  worker_input, run_worker,
}

-- A listener as the worker process holds it.
abbrev pub untyped : XhttpListener → RawListener
untyped l = record { address = str l.address; port = int (pos l.port); tag = str l.tag }

config_of-asdict : (c : Config) → IsValid c → config_of (asdict c) ≡ ok c
unfolding config_of asdict
config_of-asdict c v = ground arith

raw_listener-asdict : (l : XhttpListener) → raw_listener (listener_asdict l) ≡ ok (untyped l)
unfolding raw_listener listener_asdict
raw_listener-asdict l = refl

raw_listeners-asdict :
    (ls : List XhttpListener) → raw_listeners (listeners_asdict ls) ≡ ok (map untyped ls)
unfolding raw_listeners listeners_asdict
raw_listeners-asdict [] = refl
raw_listeners-asdict (l ∷ ls) = rw (raw_listeners-asdict ls)

empty-IsGood : IsGood []
unfolding parse_xhttp_listeners
empty-IsGood = parse_xhttp_listeners-IsGood null [] refl

module _ {W : Type 0} (h : Host W) (s : Setting W) (config : Config) (valid : IsValid config)
    (round_trip : (v : Json) → h.loads (s.dumps v) ≡ some v) where
  worker_input-dumps :
      (ls : List XhttpListener)
      → worker_input h.loads (s.dumps (asdict config)) (s.dumps (list (listeners_asdict ls)))
        ≡ ok (config, map untyped ls)
  unfolding worker_input
  worker_input-dumps ls = rw (
    round_trip (asdict config),
    config_of-asdict config valid,
    round_trip (list (listeners_asdict ls)),
    raw_listeners-asdict ls,
  )

module _ {W : Type 0} (h : Host W) (s : Setting W) (config : Config) (apply : Bool) where
  -- A command that enters the worker gives it this configuration, this flag, and listeners that are
  -- well formed.
  abbrev pub Faithful : Command × Outcome Completed → Type 0
  Faithful (enter_worker init_pid xray_pid config_json xhttp_json flag, answer) =
      (flag ≡ apply)
      × ((ls : List XhttpListener) × IsGood ls
          × (worker_input h.loads config_json xhttp_json ≡ ok (config, map untyped ls)))
  Faithful (command, answer) = Unit {0}

  abbrev T : List (Command × Outcome Completed) → Type 0
  T trace = All Faithful trace

  abbrev P : Machine W → Type 0
  P m = T m.trace

  asking-Faithful : (c : Command) → asking c ≡ true → (r : Outcome Completed) → Faithful (c, r)
  asking-Faithful (enter_worker init_pid xray_pid config_json xhttp_json flag) e r = cc
  asking-Faithful c e r = tt

  Keeps-asking : (c : Command) → asking c ≡ true → Keeps P (call h c)
  Keeps-asking c e = Keeps-call h T c (λ r t p. (asking-Faithful c e r, p))

  abbrev Found : List XhttpListener × Discovery → Machine W → Type 0
  Found answer m = IsGood answer.0 × P m

  parsed_listeners-Found :
      (value : Option Json) (later : _)
      → Triple P Found P later
      → Triple P Found P (parsed_listeners h value later)
  unfolding parse_xhttp_listeners
  parsed_listeners-Found none later t = t
  parsed_listeners-Found (some raw) later t =
      Triple-bind _ _
        (Triple-lift {Q = λ ls m. IsGood ls × P m} (parse_xhttp_listeners raw) (λ m p. p)
          (λ ls e m p. (parse_xhttp_listeners-IsGood raw ls e, p)))
        (λ ls. Triple-pure (ls, found) (λ m p. p))

  try_listeners-Found :
      (c : Command) (later : _)
      → asking c ≡ true
      → Triple P Found P later
      → Triple P Found P (try_listeners h c later)
  unfolding try_listeners
  try_listeners-Found c later k t =
      Triple-bind _ _ (Triple-Keeps (run_unchecked h c) (λ m p. p) (Keeps-try h Keeps-asking c k))
        (λ completed. parsed_listeners-Found (rendered_from h (usable completed)) later t)

  discover-Found : Triple P Found P (discover_xhttp_listeners h config)
  unfolding discover_xhttp_listeners
  discover-Found =
      Triple-if config.clean_xhttp_buffers _ _
        (λ _.
          try_listeners-Found _ _ refl (
            try_listeners-Found _ _ refl
              (Triple-pure ([], unavailable) (λ m p. (empty-IsGood, p)))))
        (λ _. Triple-pure ([], disabled) (λ m p. (empty-IsGood, p)))

module _ {W : Type 0} (h : Host W) (s : Setting W) (config : Config) (valid : IsValid config)
    (round_trip : (v : Json) → h.loads (s.dumps v) ≡ some v) (apply : Bool) where
  abbrev Kept : Machine W → Type 0
  Kept = P h s config apply

  enter-Kept :
      (ls : List XhttpListener) (init_pid xray_pid : ℤ)
      → Triple
          (λ m. IsGood ls × Kept m)
          (λ _. Kept)
          Kept
          (run h (
            enter_worker init_pid xray_pid
              (s.dumps (asdict config))
              (s.dumps (list (listeners_asdict ls)))
              apply))
  enter-Kept ls init_pid xray_pid = Triple-given _ (λ good.
      Triple-Keeps _ (λ m p. p)
        (Keeps-run h _ (
          Keeps-call h (T h s config apply) _
            (λ r t p. ((refl, (ls, good, worker_input-dumps h s config valid round_trip ls)), p)))))

  -- Whatever the commands answer and however a run of `run_worker` ends: each worker process that it
  -- has started runs with `--apply` exactly if `run_worker` was called with it, and reads from its
  -- arguments this same configuration and listeners with ports from 1 to 65535, all different and none
  -- a unix socket, if the configuration is valid and `json.loads` gives back what `json.dumps` wrote.
  pub run_worker-IsFaithful :
      (m : Machine W)
      → All (Faithful h s config apply) m.trace
      → All (Faithful h s config apply) (run_worker h s config apply m).1.trace
  unfolding run_worker
  run_worker-IsFaithful = (Keeps-Triple _ (λ a m p. p) body).at
    where
      asks : (c : Command) → asking c ≡ true → Keeps Kept (call h c)
      asks = Keeps-asking h s config apply

      still :
          {A : Type 0} {step : Exec (Machine W) A}
          → Keeps Kept step
          → Triple Kept (λ _. Kept) Kept step
      still k = Triple-Keeps _ (λ m p. p) k

      body : Triple Kept (λ _. Kept) Kept (run_worker h s config apply)
      body = Triple-bind _ _ (still (Keeps-require_root h)) (λ _.
          Triple-bind _ _ (still (Keeps-require_program h (codes "nsenter"))) (λ _.
            Triple-bind _ _ (still (Keeps-docker_info h asks config.container)) (λ target.
              Triple-bind _ _ (discover-Found h s config apply) (λ answer.
                Triple-bind _ _ (enter-Kept answer.0 target.init_pid target.xray_pid)
                  (λ completed. Triple-lift _ (λ m p. p) (λ a e m p. p))))))
