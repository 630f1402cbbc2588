-- ===== src/Manager/Health.antt =====
-- `xray-core-manager.py`: `wait_healthy`, `write_diagnostics` and `stock_core_is_running`.
pub mod Waiting
pub mod Seen
pub mod Tails
use remnanode_xhttp_cleaner.Base.{
  ℕ, zero, suc, ◌+◌, ◌-◌, ◌*◌, Bool, true, false, not, ◌&&◌, ◌||◌, Option, none, some, List, [],
  ◌∷◌, ◌++◌, ltb, length, drop, if◌then◌else◌, Outcome, ok, err, Exception, core_manager_error,
  os_error, timeout_expired,
}
use remnanode_xhttp_cleaner.Base.Int.{ℤ, pos}
use remnanode_xhttp_cleaner.Base.Text.{Text, codes, text_eq}
use remnanode_xhttp_cleaner.Base.Exec.{Exec, pure, raise, gets, modify, catch, ◌>>=◌, ◌>>◌}
use remnanode_xhttp_cleaner.Json.{Json, int, str, dict, Fields, field, end}
use remnanode_xhttp_cleaner.Address.Print.{decimal}
use remnanode_xhttp_cleaner.Manager.Command.{
  Command, inspect_running, inspect_health, inspect_state, process_table, core_version, recent_logs,
}
use remnanode_xhttp_cleaner.Manager.Machine.{Host, Machine, Completed, call, docker_unchecked}
use remnanode_xhttp_cleaner.Manager.Files.{atomic_json}
use remnanode_xhttp_cleaner.Manager.Version.{occurs}
use remnanode_xhttp_cleaner.Manager.Info.{Info, version_statement, current_info}
use remnanode_xhttp_cleaner.Manager.Process.{running_core_evidence, is_empty}

-- What one round of `wait_healthy` finds.
pub record Probe : Type 0 where
  pub running : Text
  pub health : Text
  pub evidence : Text
  pub marker_ok : Bool

unfoldable pub is_healthy : Probe → Bool
unfolding text_eq
is_healthy p =
    text_eq p.running (codes "true")
    && (not (is_empty p.evidence)
        && (p.marker_ok && (text_eq p.health (codes "none") || text_eq p.health (codes "healthy"))))

unfoldable pub is_hopeless : Probe → Bool
unfolding text_eq
is_hopeless p = text_eq p.health (codes "unhealthy") || text_eq p.running (codes "false")

-- How the loop of `wait_healthy` ends. `out_of_fuel` is an end of the model only.
pub data WaitEnd : Type 0 where
  healthy gave_up out_of_fuel : WaitEnd

-- `text[-n:]`
abbrev pub last_of : ℕ → Text → Text
last_of n text = drop (length text - n) text

-- `except CoreManagerError`, and `except (OSError, subprocess.TimeoutExpired)`
abbrev pub on_manager_error {ℓ} : {S A : Type ℓ} → Exec S A → Exception → Exec S A
on_manager_error handler (core_manager_error message) = handler
on_manager_error handler e = raise e

abbrev pub on_command_error {ℓ} : {S A : Type ℓ} → Exec S A → Exception → Exec S A
on_command_error handler (os_error errno) = handler
on_command_error handler timeout_expired = handler
on_command_error handler e = raise e

-- `except (CoreManagerError, OSError)`
abbrev pub on_core_error {ℓ} : {S A : Type ℓ} → Exec S A → Exception → Exec S A
on_core_error handler (core_manager_error message) = handler
on_core_error handler (os_error errno) = handler
on_core_error handler e = raise e

module _ {W : Type 0} (h : Host W) where
  unfoldable pub check_marker : Text → Option Text → Text → Exec (Machine W) Bool
  unfolding version_statement occurs
  check_marker container none binary = pure true
  check_marker container (some marker) binary =
      catch (version_statement h container binary >>= λ statement. pure (occurs marker statement))
        (on_manager_error (pure false))

  unfoldable pub probe : Text → Option Text → Text → Exec (Machine W) Probe
  unfolding docker_unchecked running_core_evidence check_marker
  probe container expected_marker binary = do
    running ← docker_unchecked h (inspect_running container)
    health ← docker_unchecked h (inspect_health container)
    evidence ← running_core_evidence h container binary
    marker_ok ← check_marker container expected_marker binary
    pure (record { running = running; health = health; evidence = evidence; marker_ok = marker_ok })

  -- `time.sleep(2)`
  abbrev pub pause : Exec (Machine W) (Unit {0})
  pause m = (ok tt, record m { world = h.sleep 2 m.world })

  -- One round of the loop.
  unfoldable pub wait_round :
      Text → Option Text → Text → ℕ → Exec (Machine W) WaitEnd → Exec (Machine W) WaitEnd
  unfolding probe is_healthy is_hopeless
  wait_round container marker binary deadline again = do
    now ← gets (λ m. h.monotonic m.world)
    if not (ltb now deadline) then pure gave_up else (do
      p ← probe container marker binary
      if is_healthy p
          then pure healthy
          else if is_hopeless p
          then pure gave_up
          else (pause >> again))

  -- The loop, with a round of fuel for each turn.
  unfoldable pub wait_loop : ℕ → Text → Option Text → Text → ℕ → Exec (Machine W) WaitEnd
  unfolding wait_round
  wait_loop zero container marker binary deadline = pure out_of_fuel
  wait_loop (suc fuel) container marker binary deadline =
      wait_round container marker binary deadline (wait_loop fuel container marker binary deadline)

  abbrev pub command_fields : Completed → Json
  command_fields c = dict (
      field (codes "returncode") (int c.returncode) (
        field (codes "stdout") (str (last_of 30000 c.stdout))
          (field (codes "stderr") (str (last_of 10000 c.stderr)) end)))

  abbrev pub error_field : Exception → W → Json
  error_field e w = dict (field (codes "error") (str (h.str_of e w)) end)

  unfoldable pub diagnostic_command : Command → Exec (Machine W) Json
  diagnostic_command command =
      catch (call h command >>= λ completed. pure (command_fields completed))
        (λ e. on_command_error (gets (λ m. error_field e m.world)) e)

  abbrev diagnostics_path : Text → W → Text
  diagnostics_path phase w =
      codes "/var/lib/remnanode-xhttp-clean/diagnostics/"
      ++ (decimal (h.time w)
          ++ (codes "-" ++ (phase ++ (codes "-" ++ (decimal h.pid ++ codes ".json")))))

  unfoldable pub write_diagnostics : Text → Text → Text → Exec (Machine W) (Unit {0})
  unfolding running_core_evidence diagnostic_command decimal atomic_json
  write_diagnostics container binary phase = do
    created ← gets (λ m. h.time m.world)
    evidence ← running_core_evidence h container binary
    state ← diagnostic_command (inspect_state container)
    top ← diagnostic_command (process_table container)
    version ← diagnostic_command (core_version container binary)
    logs ← diagnostic_command (recent_logs container)
    path ← gets (λ m. diagnostics_path phase m.world)
    atomic_json h path (
        dict (
          field (codes "phase") (str phase) (
            field (codes "created_at") (int (pos created)) (
              field (codes "container") (str container) (
                field (codes "binary") (str binary) (
                  field (codes "process_evidence") (str evidence) (
                    field (codes "state") state (
                      field (codes "top") top
                        (field (codes "version") version (field (codes "logs") logs end))))))))))

  -- What stands behind the loop. A loop that ran out of fuel would be an error of its own.
  unfoldable pub after_wait : Text → Text → WaitEnd → Exec (Machine W) (Unit {0})
  unfolding write_diagnostics
  after_wait container binary healthy = pure tt
  after_wait container binary gave_up =
      write_diagnostics container binary (codes "health-failure")
      >> raise (core_manager_error "container did not become healthy after core restart")
  after_wait container binary out_of_fuel = raise (core_manager_error "out of fuel")

  -- `wait_healthy` with its timeout of 90 seconds: 46 rounds, each but the last with a pause of two
  -- seconds.
  unfoldable pub wait_healthy : Text → Option Text → Text → Exec (Machine W) (Unit {0})
  unfolding wait_loop after_wait
  wait_healthy container expected_marker binary = do
    start ← gets (λ m. h.monotonic m.world)
    result ← wait_loop 46 container expected_marker binary (start + 90000)
    after_wait container binary result

  abbrev pub stock_and_running : Text → Exec (Machine W) Bool
  stock_and_running container = do
    running ← docker_unchecked h (inspect_running container)
    if not (text_eq running (codes "true")) then pure false else (do
      info ← current_info h container
      evidence ← running_core_evidence h container info.binary
      pure (is_empty info.cleaner_patch && not (is_empty evidence)))

  unfoldable pub stock_core_is_running : Text → Exec (Machine W) Bool
  unfolding docker_unchecked text_eq current_info running_core_evidence
  stock_core_is_running container = catch (stock_and_running container) (on_core_error (pure false))
