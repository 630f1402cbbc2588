-- ===== src/Manager/Reading.antt =====
-- The rules by which an invariant is carried through the functions of `xray-core-manager.py` that ask.
use remnanode_xhttp_cleaner.Base.{
  ◌≡◌, refl, true, Option, none, some, List, [], ◌∷◌, Exception, core_manager_error, os_error,
  timeout_expired,
}
use remnanode_xhttp_cleaner.Base.Text.{Text}
use remnanode_xhttp_cleaner.Base.Exec.{Exec}
use remnanode_xhttp_cleaner.Base.Exec.Keeps.{Keeps, Keeps-bind, Keeps-if, Keeps-catch, keeps_rules}
use remnanode_xhttp_cleaner.Manager.Command.{Command, read_link, dump_config, dump_config_short}
use remnanode_xhttp_cleaner.Manager.Machine.{Host, Machine, call, docker_unchecked, succeeded}
use remnanode_xhttp_cleaner.Manager.Version.{is_core_path}
use remnanode_xhttp_cleaner.Manager.Machine.Keeps.{
  reading, Keeps-run, Keeps-docker, Keeps-docker_unchecked,
}
use remnanode_xhttp_cleaner.Manager.Info.{
  require_environment, try_candidate, core_path_loop, core_path, version_statement, current_info,
  core_candidates,
}
use remnanode_xhttp_cleaner.Manager.Process.{running_core_evidence}
use remnanode_xhttp_cleaner.Manager.Health.{
  check_marker, probe, stock_and_running, diagnostic_command, stock_core_is_running,
  on_manager_error, on_command_error, on_core_error,
}
use remnanode_xhttp_cleaner.Manager.RuntimeConfig.{first_output, try_dump}
use remnanode_xhttp_cleaner.Manager.Deploy.{read_settings}
use remnanode_xhttp_cleaner.Manager.Rollback.{require_id}

-- The `except` clauses by class.
module _ {ℓ} {S A : Type ℓ} {P : S → Type ℓ} (handler : Exec S A) (k : Keeps P handler) where
  pub Keeps-on_manager_error : (e : Exception) → Keeps P (on_manager_error handler e)
  Keeps-on_manager_error (core_manager_error message) = k
  Keeps-on_manager_error e = search (keeps_rules)

  pub Keeps-on_command_error : (e : Exception) → Keeps P (on_command_error handler e)
  Keeps-on_command_error (os_error errno) = k
  Keeps-on_command_error timeout_expired = k
  Keeps-on_command_error e = search (keeps_rules)

  pub Keeps-on_core_error : (e : Exception) → Keeps P (on_core_error handler e)
  Keeps-on_core_error (core_manager_error message) = k
  Keeps-on_core_error (os_error errno) = k
  Keeps-on_core_error e = search (keeps_rules)

module _ {W : Type 0} (h : Host W) {P : Machine W → Type 0}
    (k : (c : Command) → reading c ≡ true → Keeps P (call h c)) where
  pub Keeps-require_environment : (container : Text) → Keeps P (require_environment h container)
  unfolding require_environment
  Keeps-require_environment container = search (k, Keeps-docker, keeps_rules) depth 20

  Keeps-try_candidate :
      (container c : Text) (later : Exec (Machine W) Text)
      → Keeps P later
      → Keeps P (try_candidate h container c later)
  unfolding try_candidate
  Keeps-try_candidate container c later kl =
      Keeps-bind (docker_unchecked h (read_link container c)) _ (search (k, Keeps-docker_unchecked))
        (λ resolved.
          Keeps-if (is_core_path resolved) _ later
            (λ _.
              Keeps-bind _ _ (k _ refl)
                (λ probe. Keeps-if (succeeded probe) _ later (λ _. search (keeps_rules)) (λ _. kl)))
            (λ _. kl))

  Keeps-core_path_loop :
      (container : Text) (cs : List Text) → Keeps P (core_path_loop h container cs)
  unfolding core_path_loop
  Keeps-core_path_loop container [] = search (keeps_rules)
  Keeps-core_path_loop container (c ∷ cs) =
      Keeps-try_candidate container c _ (Keeps-core_path_loop container cs)

  pub Keeps-core_path : (container : Text) → Keeps P (core_path h container)
  unfolding core_path
  Keeps-core_path container = Keeps-core_path_loop container core_candidates

  pub Keeps-version_statement :
      (container binary : Text) → Keeps P (version_statement h container binary)
  unfolding version_statement
  Keeps-version_statement container binary = search (k, Keeps-docker, keeps_rules)

  pub Keeps-current_info : (container : Text) → Keeps P (current_info h container)
  unfolding current_info
  Keeps-current_info container =
      search (k, Keeps-docker, Keeps-core_path, Keeps-version_statement, keeps_rules) depth 20

  pub Keeps-running_core_evidence :
      (container binary : Text) → Keeps P (running_core_evidence h container binary)
  unfolding running_core_evidence
  Keeps-running_core_evidence container binary = search (k, keeps_rules) depth 20

  pub Keeps-check_marker :
      (container : Text) (marker : Option Text) (binary : Text)
      → Keeps P (check_marker h container marker binary)
  unfolding check_marker
  Keeps-check_marker container none binary = search (keeps_rules)
  Keeps-check_marker container (some marker) binary =
      search (Keeps-version_statement, Keeps-on_manager_error, keeps_rules) depth 20

  pub Keeps-probe :
      (container : Text) (marker : Option Text) (binary : Text)
      → Keeps P (probe h container marker binary)
  unfolding probe
  Keeps-probe container marker binary =
      search
        (k, Keeps-docker_unchecked, Keeps-running_core_evidence, Keeps-check_marker, keeps_rules)
        depth 20

  pub Keeps-diagnostic_command : (c : Command) → reading c ≡ true → Keeps P (diagnostic_command h c)
  unfolding diagnostic_command
  Keeps-diagnostic_command c r =
      Keeps-catch _ _ (Keeps-bind (call h c) _ (k c r) (λ done. search (keeps_rules)))
        (λ e. search (Keeps-on_command_error, keeps_rules))

  Keeps-stock_and_running : (container : Text) → Keeps P (stock_and_running h container)
  Keeps-stock_and_running container =
      search
        (k, Keeps-docker_unchecked, Keeps-current_info, Keeps-running_core_evidence, keeps_rules)
        depth 20

  pub Keeps-stock_core_is_running : (container : Text) → Keeps P (stock_core_is_running h container)
  unfolding stock_core_is_running
  Keeps-stock_core_is_running container =
      search (Keeps-stock_and_running, Keeps-on_core_error, keeps_rules) depth 20

  Keeps-try_dump :
      (c : Command) (later : Exec (Machine W) Text)
      → reading c ≡ true
      → Keeps P later
      → Keeps P (try_dump h c later)
  unfolding try_dump
  Keeps-try_dump c later r kl = search (k c r, kl, keeps_rules) depth 20

  pub Keeps-dump_output :
      (container : Text)
      → Keeps P (first_output h (dump_config container ∷ dump_config_short container ∷ []))
  unfolding first_output
  Keeps-dump_output container = search (Keeps-try_dump, keeps_rules) depth 20

  pub Keeps-read_settings : (container : Text) → Keeps P (read_settings h container)
  unfolding read_settings
  Keeps-read_settings container = search (k, Keeps-run, keeps_rules) depth 20

  pub Keeps-require_id :
      (container expected : Text) (e : Exception) → Keeps P (require_id h container expected e)
  unfolding require_id
  Keeps-require_id container expected e = search (k, Keeps-docker, keeps_rules) depth 20
