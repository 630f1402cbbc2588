-- ===== src/Manager/Tracing.antt =====
-- The rules by which an invariant of the trace is carried through `deploy` and `rollback_binary` of
-- `xray-core-manager.py`, beside their `mv`.
use remnanode_xhttp_cleaner.Base.{
  ◌≡◌, true, false, Option, none, some, List, ◌∷◌, Outcome, Exception, ℕ, zero, suc, not, ltb,
}
use remnanode_xhttp_cleaner.Base.Text.{Text}
use remnanode_xhttp_cleaner.Base.Exec.{Exec, pure, ◌>>◌}
use remnanode_xhttp_cleaner.Base.Exec.Keeps.{
  Keeps, Keeps-bind, Keeps-if, Keeps-gets, Keeps-pure, keeps_rules,
}
use remnanode_xhttp_cleaner.Json.{Json}
use remnanode_xhttp_cleaner.Manager.Command.{Command}
use remnanode_xhttp_cleaner.System.Keeps.{Keeps-atomic_put}
use remnanode_xhttp_cleaner.Manager.Machine.{json, Host, Machine, Completed, call, run, docker}
use remnanode_xhttp_cleaner.Manager.Machine.Keeps.{
  is_move, is_move-reading, reading, Traced, Keeps-call, Keeps-run, Keeps-docker, file_rules,
}
use remnanode_xhttp_cleaner.Manager.Files.{atomic_json, fetch, copy_from_container}
use remnanode_xhttp_cleaner.Manager.Info.{Info}
use remnanode_xhttp_cleaner.Manager.Health.{
  WaitEnd, healthy, gave_up, out_of_fuel, is_healthy, is_hopeless, wait_round, wait_loop, pause,
  write_diagnostics, after_wait, wait_healthy,
}
use remnanode_xhttp_cleaner.Manager.RuntimeConfig.{
  dump_runtime_config, try_inside, clean_up, validate_in, validate_inside_container, braced, parsed,
}
use remnanode_xhttp_cleaner.Manager.Deploy.{
  keep_inspection, require_stock, keep_stock, record_deployment, activate,
}
use remnanode_xhttp_cleaner.Manager.Reading.{
  Keeps-version_statement, Keeps-current_info, Keeps-running_core_evidence, Keeps-probe,
  Keeps-diagnostic_command, Keeps-dump_output, Keeps-read_settings,
}

module _ {W : Type 0} (h : Host W) (T : List (Command × Outcome Completed) → Type 0)
    (extend : (c : Command) (r : Outcome Completed) (t : List (Command × Outcome Completed))
      → is_move c ≡ false
      → T t
      → T ((c, r) ∷ t)) where
  Keeps-still : (c : Command) → is_move c ≡ false → Keeps (Traced h T) (call h c)
  Keeps-still c e = Keeps-call h T c (λ r t. extend c r t e)

  Keeps-read : (c : Command) → reading c ≡ true → Keeps (Traced h T) (call h c)
  Keeps-read c e = Keeps-still c (is_move-reading c e)

  pub Keeps-step : (c : Command) → is_move c ≡ false → Keeps (Traced h T) (run h c)
  Keeps-step c e = Keeps-run h c (Keeps-still c e)

  Keeps-answer : (c : Command) → is_move c ≡ false → Keeps (Traced h T) (docker h c)
  Keeps-answer c e = Keeps-docker h c (Keeps-still c e)

  pub Keeps-atomic_json :
      (path : Text) (payload : Json) → Keeps (Traced h T) (atomic_json h path payload)
  unfolding atomic_json
  Keeps-atomic_json path payload = Keeps-atomic_put h T path (json payload)

  Keeps-fetch : (container source file : Text) → Keeps (Traced h T) (fetch h container source file)
  unfolding fetch
  Keeps-fetch container source file = search (Keeps-step, file_rules, keeps_rules) depth 20

  Keeps-copy_from_container :
      (container source destination : Text)
      → Keeps (Traced h T) (copy_from_container h container source destination)
  unfolding copy_from_container
  Keeps-copy_from_container container source destination =
      search (Keeps-fetch, file_rules, keeps_rules) depth 20

  Keeps-write_diagnostics :
      (container binary phase : Text)
      → Keeps (Traced h T) (write_diagnostics h container binary phase)
  unfolding write_diagnostics
  Keeps-write_diagnostics container binary phase =
      search
        (
          Keeps-running_core_evidence h Keeps-read,
          Keeps-diagnostic_command h Keeps-read,
          Keeps-atomic_json,
          keeps_rules,
        )
        depth 30

  Keeps-pause : Keeps (Traced h T) (pause h)
  Keeps-pause = record { at = λ m p. p }

  Keeps-wait_round :
      (container : Text) (marker : Option Text) (binary : Text) (deadline : ℕ)
      (again : Exec (Machine W) WaitEnd)
      → Keeps (Traced h T) again
      → Keeps (Traced h T) (wait_round h container marker binary deadline again)
  unfolding wait_round
  Keeps-wait_round container marker binary deadline again ka = Keeps-bind _ _ (Keeps-gets _) (λ now.
      Keeps-if (not (ltb now deadline)) (pure gave_up) _ (λ _. Keeps-pure gave_up)
        (λ _. Keeps-bind _ _ (Keeps-probe h Keeps-read container marker binary) (λ p.
          Keeps-if (is_healthy p) (pure healthy) _ (λ _. Keeps-pure healthy)
            (λ _.
              Keeps-if (is_hopeless p) (pure gave_up) (pause h >> again) (λ _. Keeps-pure gave_up)
                (λ _. Keeps-bind (pause h) (λ _. again) Keeps-pause (λ _. ka))))))

  Keeps-wait_loop :
      (fuel : ℕ) (container : Text) (marker : Option Text) (binary : Text) (deadline : ℕ)
      → Keeps (Traced h T) (wait_loop h fuel container marker binary deadline)
  unfolding wait_loop
  Keeps-wait_loop zero container marker binary deadline = search (keeps_rules)
  Keeps-wait_loop (suc fuel) container marker binary deadline =
      Keeps-wait_round container marker binary deadline _
        (Keeps-wait_loop fuel container marker binary deadline)

  Keeps-after_wait :
      (container binary : Text) (result : WaitEnd)
      → Keeps (Traced h T) (after_wait h container binary result)
  unfolding after_wait
  Keeps-after_wait container binary healthy = search (keeps_rules)
  Keeps-after_wait container binary gave_up = search (Keeps-write_diagnostics, keeps_rules) depth 20
  Keeps-after_wait container binary out_of_fuel = search (keeps_rules)

  pub Keeps-wait_healthy :
      (container : Text) (marker : Option Text) (binary : Text)
      → Keeps (Traced h T) (wait_healthy h container marker binary)
  unfolding wait_healthy
  Keeps-wait_healthy container marker binary =
      search (Keeps-wait_loop, Keeps-after_wait, keeps_rules) depth 20

  Keeps-braced : (r : Option Text) → Keeps (Traced h T) (braced h r)
  Keeps-braced none = search (keeps_rules)
  Keeps-braced (some text) = search (keeps_rules)

  Keeps-parsed : (r : Option Json) → Keeps (Traced h T) (parsed h r)
  Keeps-parsed none = search (keeps_rules)
  Keeps-parsed (some value) = search (keeps_rules)

  pub Keeps-dump_runtime_config :
      (container destination : Text)
      → Keeps (Traced h T) (dump_runtime_config h container destination)
  unfolding dump_runtime_config
  Keeps-dump_runtime_config container destination =
      search (Keeps-dump_output h Keeps-read, Keeps-braced, Keeps-parsed, file_rules, keeps_rules)
        depth 20

  Keeps-clean_up : (container : Text) (e : Exception) → Keeps (Traced h T) (clean_up h container e)
  unfolding clean_up
  Keeps-clean_up container e = search (Keeps-still, keeps_rules) depth 20

  Keeps-try_inside :
      (container artifact config : Text)
      → Keeps (Traced h T) (try_inside h container artifact config)
  unfolding try_inside
  Keeps-try_inside container artifact config =
      search (Keeps-step, Keeps-answer, keeps_rules) depth 30

  Keeps-validate_in :
      (container artifact config : Text)
      → Keeps (Traced h T) (validate_in h container artifact config)
  unfolding validate_in
  Keeps-validate_in container artifact config =
      search (Keeps-still, Keeps-dump_runtime_config, Keeps-clean_up, Keeps-try_inside, keeps_rules)
        depth 20

  pub Keeps-validate_inside_container :
      (container artifact : Text)
      → Keeps (Traced h T) (validate_inside_container h container artifact)
  unfolding validate_inside_container
  Keeps-validate_inside_container container artifact =
      search (Keeps-validate_in, file_rules, keeps_rules) depth 20

  Keeps-keep_inspection : (path raw : Text) → Keeps (Traced h T) (keep_inspection h path raw)
  unfolding keep_inspection
  Keeps-keep_inspection path raw = search (file_rules, keeps_rules) depth 20

  Keeps-require_stock :
      (container : Text) (info : Info) → Keeps (Traced h T) (require_stock h container info)
  unfolding require_stock
  Keeps-require_stock container info =
      search (Keeps-version_statement h Keeps-read, file_rules, keeps_rules) depth 20

  pub Keeps-keep_stock :
      (container : Text) (info : Info) → Keeps (Traced h T) (keep_stock h container info)
  unfolding keep_stock
  Keeps-keep_stock container info =
      search
        (
          Keeps-current_info h Keeps-read,
          Keeps-read_settings h Keeps-read,
          Keeps-keep_inspection,
          Keeps-copy_from_container,
          Keeps-require_stock,
          keeps_rules,
        )
        depth 30

  Keeps-record_deployment :
      (container : Text) (info : Info) (artifact current_id : Text)
      → Keeps (Traced h T) (record_deployment h container info artifact current_id)
  unfolding record_deployment
  Keeps-record_deployment container info artifact current_id =
      search (Keeps-atomic_json, file_rules, keeps_rules) depth 20

  pub Keeps-activate :
      (container : Text) (info : Info) (artifact : Text) (settings : Json)
      → Keeps (Traced h T) (activate h container info artifact settings)
  unfolding activate
  Keeps-activate container info artifact settings =
      search
        (
          Keeps-step,
          Keeps-answer,
          Keeps-read_settings h Keeps-read,
          Keeps-wait_healthy,
          Keeps-record_deployment,
          keeps_rules,
        )
        depth 30
