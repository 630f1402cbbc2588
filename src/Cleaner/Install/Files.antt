-- ===== src/Cleaner/Install/Files.antt =====
-- The files that `command_install` leaves.
use remnanode_xhttp_cleaner.Cleaner.Install.Holding.{
  Holds, Spared, Keeps-atomic_write, atomic_write-Holds, Keeps-install_script,
}
use remnanode_xhttp_cleaner.Base.{◌≡◌, refl, Bool, true, false, some, Outcome, ok, err}
use remnanode_xhttp_cleaner.Base.Text.{codes, text_eq}
use remnanode_xhttp_cleaner.Base.Exec.{Exec}
use remnanode_xhttp_cleaner.Base.Exec.Keeps.{Keeps, Keeps-bind, Keeps-pure, keeps_rules}
use remnanode_xhttp_cleaner.Base.Exec.Triple.{
  Ends, Triple, Triple-bind, Triple-Keeps, Triple-pure, Triple-gets, Triple-given, Triple-also,
  Triple-always, Triple-before, Keeps-Triple,
}
use remnanode_xhttp_cleaner.Config.{Config}
use remnanode_xhttp_cleaner.System.{Files, Content, bytes, call, is_some}
use remnanode_xhttp_cleaner.Cleaner.Command.{Command, reload_units, enable_timer}
use remnanode_xhttp_cleaner.Cleaner.Machine.{
  Host, Machine, Setting, run, require_root, require_program,
}
use remnanode_xhttp_cleaner.Cleaner.Machine.Keeps.{
  Keeps-call_files, Keeps-run, Keeps-require_root, Keeps-require_program,
}
use remnanode_xhttp_cleaner.Cleaner.Discover.{docker_info}
use remnanode_xhttp_cleaner.Cleaner.Discover.Asking.{Keeps-docker_info}
use remnanode_xhttp_cleaner.Cleaner.Install.{
  config_when, install_script, write_config, install_files, command_install, install_path,
  service_path, timer_path, service_text, timer_text,
}

module _ {W : Type 0} (h : Host W) (s : Setting W) where
  -- The three other files are not the configuration, and `mkstemp` picks none of these names.
  pub record AreApart : Type 0 where
    pub spared_config : Spared h s s.config_path
    pub spared_service : Spared h s service_path
    pub spared_timer : Spared h s timer_path
    pub not_script : text_eq install_path s.config_path ≡ false
    pub not_service : text_eq service_path s.config_path ≡ false
    pub not_timer : text_eq timer_path s.config_path ≡ false

  module _ (apart : AreApart) where
    Keeps-config_when :
        (config : Config) (content : Content) (b : Bool)
        → b ≡ true
        → Keeps (Holds h s s.config_path (some content)) (config_when h s config b)
    unfolding config_when
    Keeps-config_when config content true e = search (keeps_rules)
    Keeps-config_when config content false e = absurd cc

    Keeps-write_config :
        (config : Config) (content : Content)
        → Keeps (Holds h s s.config_path (some content)) (write_config h s config)
    unfolding write_config
    Keeps-write_config config content =
        Keeps-Triple _ (λ _ m p. p)
          (Triple-bind _ (config_when h s config)
            (Triple-gets {Q = λ there m. (there ≡ true) × Holds h s s.config_path (some content) m}
              (λ m. is_some (m.files s.config_path)) (λ m p. (rw p, p)))
            (λ there.
              Triple-given _
                (λ e. Triple-Keeps _ (λ m p. p) (Keeps-config_when config content there e))))

    Keeps-install_files :
        (config : Config) (content : Content)
        → Keeps (Holds h s s.config_path (some content)) (install_files h s config)
    unfolding install_files
    Keeps-install_files config content =
        Keeps-bind _ _ (Keeps-install_script h s s.config_path (some content) apart.not_script)
          (λ _. Keeps-bind _ _ (Keeps-write_config config content) (λ _.
            Keeps-bind _ _
              (Keeps-atomic_write h s service_path s.config_path service_text (some content)
                apart.spared_service apart.spared_config apart.not_service)
              (λ _.
                Keeps-atomic_write h s timer_path s.config_path timer_text (some content)
                  apart.spared_timer apart.spared_config apart.not_timer)))

    command_install-IsKeeping :
        (config : Config) (content : Content) (m : Machine W)
        → m.files s.config_path ≡ some content
        → (command_install h s config m).1.files s.config_path ≡ some content
    unfolding command_install
    command_install-IsKeeping config content = kept.at
      where
        asked : (c : Command) → Keeps (Holds h s s.config_path (some content)) (call h c)
        asked c = Keeps-call_files h (λ (files : Files). files s.config_path ≡ some content) c

        kept : Keeps (Holds h s s.config_path (some content)) (command_install h s config)
        kept = Keeps-bind _ _ (Keeps-require_root h) (λ _.
            Keeps-bind _ _ (Keeps-docker_info h (λ c e. asked c) config.container) (λ _.
              Keeps-bind _ _ (Keeps-require_program h (codes "systemctl")) (λ _.
                Keeps-bind _ _ (Keeps-require_program h (codes "nsenter")) (λ _.
                  Keeps-bind _ _ (Keeps-install_files config content) (λ _.
                    Keeps-bind _ _ (Keeps-run h reload_units (asked reload_units)) (λ _.
                      Keeps-bind _ _ (Keeps-run h enable_timer (asked enable_timer))
                        (λ _. Keeps-pure tt)))))))

    abbrev Units : Machine W → Type 0
    Units m =
        Holds h s timer_path (some (bytes timer_text)) m
        × Holds h s service_path (some (bytes service_text)) m

    Keeps-Units : (c : Command) → Keeps Units (run h c)
    Keeps-Units c = Keeps-run h c (
        Keeps-call_files h
          (λ (files : Files).
            (files timer_path ≡ some (bytes timer_text))
            × (files service_path ≡ some (bytes service_text)))
          c)

    timer-not-service : text_eq timer_path service_path ≡ false
    unfolding text_eq
    timer-not-service = refl

    skip :
        {A : Type 0} (step : Exec (Machine W) A)
        → Triple (λ _. Unit {0}) (λ _ _. Unit {0}) (λ _. Unit {0}) step
    skip step = Triple-always step (λ a m. tt) (λ m. tt)

    install_files-Units :
        (config : Config)
        → Triple (λ _. Unit {0}) (λ _. Units) (λ _. Unit {0}) (install_files h s config)
    unfolding install_files
    install_files-Units config = Triple-bind _ _ (skip (install_script h s)) (λ _.
        Triple-bind _ _ (skip (write_config h s config)) (λ _.
          Triple-bind _ _
            (atomic_write-Holds h s service_path service_text apart.spared_service (λ m. tt))
            (λ _.
              Triple-before _ (λ m p. (tt, p))
                (Triple-also _
                  (Keeps-atomic_write h s timer_path service_path timer_text
                    (some (bytes service_text)) apart.spared_timer apart.spared_service
                    timer-not-service)
                  (atomic_write-Holds h s timer_path timer_text apart.spared_timer (λ m. tt))))))

    command_install-Units :
        (config : Config)
        → Triple (λ _. Unit {0}) (λ _. Units) (λ _. Unit {0}) (command_install h s config)
    unfolding command_install
    command_install-Units config = body
      where
        still : (c : Command) → Triple Units (λ _. Units) (λ _. Unit {0}) (run h c)
        still c = Triple-Keeps _ (λ m' p. tt) (Keeps-Units c)

        body : Triple (λ _. Unit {0}) (λ _. Units) (λ _. Unit {0}) (command_install h s config)
        body = Triple-bind _ _ (skip (require_root h)) (λ _.
            Triple-bind _ _ (skip (docker_info h config.container)) (λ _.
              Triple-bind _ _ (skip (require_program h (codes "systemctl"))) (λ _.
                Triple-bind _ _ (skip (require_program h (codes "nsenter"))) (λ _.
                  Triple-bind _ _ (install_files-Units config) (λ _.
                    Triple-bind _ _ (still reload_units) (λ _.
                      Triple-bind _ _ (still enable_timer) (λ _. Triple-pure tt (λ m' p. p))))))))

    -- Where a configuration is there, a run of `command_install` leaves it as it is, however it ends;
    -- and if it returns, both units hold the texts of the source. The environment may not give the
    -- configuration the name of one of the other files, and `mkstemp` may pick none of their names.
    pub command_install-IsInstalled :
        (config : Config) (content : Content) (m : Machine W)
        → m.files s.config_path ≡ some content
        → Ends
            (λ (_ : Unit {0}) (after : Machine W).
              (after.files s.config_path ≡ some content)
              × (after.files service_path ≡ some (bytes service_text))
              × (after.files timer_path ≡ some (bytes timer_text)))
            (λ after. after.files s.config_path ≡ some content)
            (command_install h s config m).0
            (command_install h s config m).1
    command_install-IsInstalled config content m there =
        go (command_install h s config m).0 (command_install h s config m).1
          (command_install-IsKeeping config content m there)
          ((command_install-Units config).at m tt)
      where
        go :
            (r : Outcome (Unit {0})) (after : Machine W)
            → after.files s.config_path ≡ some content
            → Ends (λ (_ : Unit {0}). Units) (λ _. Unit {0}) r after
            → Ends
                (λ (_ : Unit {0}) (after' : Machine W).
                  (after'.files s.config_path ≡ some content)
                  × (after'.files service_path ≡ some (bytes service_text))
                  × (after'.files timer_path ≡ some (bytes timer_text)))
                (λ after'. after'.files s.config_path ≡ some content)
                r
                after
        go (ok u) after kept units = (kept, units.1, units.0)
        go (err e) after kept units = kept
