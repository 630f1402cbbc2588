-- ===== src/Cleaner/Install.antt =====
-- remnanode-xhttp-clean.py: `atomic_write` and `command_install`. The texts of the two units are those
-- of the source; a path of a directory is not modelled.
pub mod Holding
pub mod Files
use remnanode_xhttp_cleaner.Base.{
  Bool, true, false, not, Option, none, some, List, [], ◌∷◌, ◌++◌, if◌then◌else◌,
}
use remnanode_xhttp_cleaner.Base.Text.{Text, codes, text_eq}
use remnanode_xhttp_cleaner.Base.Exec.{Exec, pure, gets, ◌>>=◌, ◌>>◌}
use remnanode_xhttp_cleaner.Config.{Config, asdict}
use remnanode_xhttp_cleaner.System.{
  bytes, chmod, attempt, has_file, read_file, write_file, atomic_put, is_some,
}
use remnanode_xhttp_cleaner.Cleaner.Command.{reload_units, enable_timer}
use remnanode_xhttp_cleaner.Cleaner.Machine.{
  Host, Machine, Setting, run, require_root, require_program,
}
use remnanode_xhttp_cleaner.Cleaner.Discover.{docker_info}

abbrev pub install_path : Text
install_path = codes "/usr/local/sbin/remnanode-xhttp-clean"

abbrev pub service_path : Text
service_path = codes "/etc/systemd/system/remnanode-xhttp-clean.service"

abbrev pub timer_path : Text
timer_path = codes "/etc/systemd/system/remnanode-xhttp-clean.timer"

-- A text by its lines.
abbrev lines : List Text → Text
lines [] = []
lines (line ∷ rest) = line ++ (10 ∷ lines rest)

unfoldable pub service_text : Text
service_text = lines (
    codes "[Unit]"
    ∷ codes
        "Description=Xray Memory Optimizer by Bankaev - maintain fork and reap dead rw-core sockets"
    ∷ codes "After=docker.service"
    ∷ codes "Requires=docker.service"
    ∷ []
    ∷ codes "[Service]"
    ∷ codes "Type=oneshot"
    ∷ codes "ExecStartPre=/usr/local/lib/remnanode-xhttp-clean/xray-core-manager ensure --nonfatal"
    ∷ codes "ExecStart=/usr/local/sbin/remnanode-xhttp-clean clean"
    ∷ codes "Nice=10"
    ∷ [])

unfoldable pub timer_text : Text
timer_text = lines (
    codes "[Unit]"
    ∷ codes "Description=XHTTP Cleaner by Bankaev - run every five minutes"
    ∷ []
    ∷ codes "[Timer]"
    ∷ codes "OnBootSec=5min"
    ∷ codes "OnUnitActiveSec=5min"
    ∷ codes "RandomizedDelaySec=20s"
    ∷ codes "Persistent=true"
    ∷ codes "Unit=remnanode-xhttp-clean.service"
    ∷ []
    ∷ codes "[Install]"
    ∷ codes "WantedBy=timers.target"
    ∷ [])

module _ {W : Type 0} (h : Host W) (s : Setting W) where
  unfoldable pub atomic_write : Text → Text → Exec (Machine W) (Unit {0})
  unfolding atomic_put
  atomic_write path content = atomic_put h path (bytes content)

  -- `shutil.copy2(source_path, INSTALL_PATH)` and the mode
  unfoldable pub copy_script : Exec (Machine W) (Unit {0})
  unfolding read_file write_file attempt
  copy_script = do
    content ← read_file h s.script
    write_file h install_path content
    attempt h chmod install_path

  -- Copies the script, unless it is the installed one.
  unfoldable pub install_script : Exec (Machine W) (Unit {0})
  unfolding copy_script text_eq
  install_script = do
    there ← has_file h install_path
    resolved ← gets (λ m. s.resolve install_path m.world)
    if text_eq s.script (if there then resolved else install_path) then pure tt else copy_script

  unfoldable pub config_when : Config → Bool → Exec (Machine W) (Unit {0})
  unfolding atomic_write asdict
  config_when config true = pure tt
  config_when config false =
      atomic_write s.config_path (s.dumps_indented (asdict config) ++ 10 ∷ [])

  -- `if not CONFIG_PATH.exists()`
  unfoldable pub write_config : Config → Exec (Machine W) (Unit {0})
  unfolding config_when
  write_config config = has_file h s.config_path >>= config_when config

  -- From the script to the timer
  unfoldable pub install_files : Config → Exec (Machine W) (Unit {0})
  unfolding install_script write_config atomic_write service_text timer_text
  install_files config = do
    install_script
    write_config config
    atomic_write service_path service_text
    atomic_write timer_path timer_text

  unfoldable pub command_install : Config → Exec (Machine W) (Unit {0})
  unfolding docker_info install_files run
  command_install config = do
    require_root h
    docker_info h config.container
    require_program h (codes "systemctl")
    require_program h (codes "nsenter")
    install_files config
    run h reload_units
    run h enable_timer
    pure tt
