-- ===== src/Tests/CoreManager.antt =====
-- Runs of `xray-core-manager.py` on a host with one container.
use native.Mathlib.Omega.{arith}
use remnanode_xhttp_cleaner.Base.{◌++◌, ◌≡◌, ◌≢◌, refl, ◌≤◌, true, false, none, some, [], ok}
use remnanode_xhttp_cleaner.Base.Int.{pos}
use remnanode_xhttp_cleaner.Base.Text.{Text, codes, text_eq}
use remnanode_xhttp_cleaner.Json.{Json, Fields, int, str, dict, end, field}
use remnanode_xhttp_cleaner.Manager.Command.{Command, inspect_id}
use remnanode_xhttp_cleaner.Manager.Machine.{
  Machine, json, run, docker, call, file_digest, put_file,
}
use remnanode_xhttp_cleaner.Manager.Files.{atomic_json}
use remnanode_xhttp_cleaner.Manager.Files.Atomic.{atomic_json-IsAtomic}
use remnanode_xhttp_cleaner.System.Atomic.{Replaced, Untouched}
use remnanode_xhttp_cleaner.Base.Exec.Triple.{Ends}
use remnanode_xhttp_cleaner.Manager.Version.{parse_version, is_tag_version}
use remnanode_xhttp_cleaner.Manager.Version.Tags.{parse_version-IsTag}
use remnanode_xhttp_cleaner.Manager.Info.{deployment_path}
use remnanode_xhttp_cleaner.Manager.Settings.{fields_of}
use remnanode_xhttp_cleaner.Manager.RuntimeConfig.{remote_binary}
use remnanode_xhttp_cleaner.Manager.Rollback.{check_metadata}
use remnanode_xhttp_cleaner.Manager.Rollback.Checked.{Checked, check_metadata-IsChecked}
use remnanode_xhttp_cleaner.Manager.Deploy.Recorded.{deployment-check_metadata}
use remnanode_xhttp_cleaner.Base.Exec.{lift, ◌>>=◌}
use remnanode_xhttp_cleaner.Manager.Health.{out_of_fuel, wait_loop, wait_healthy}
use remnanode_xhttp_cleaner.Manager.Health.Waiting.{wait_loop-terminates}
use remnanode_xhttp_cleaner.Manager.Health.Seen.{wait_healthy-IsSeen, Seen}
use remnanode_xhttp_cleaner.Manager.Deploy.{deploy, deployment, backup_path}
use remnanode_xhttp_cleaner.Manager.Deploy.Guard.{guarded}
use remnanode_xhttp_cleaner.Manager.Deploy.Validated.{plan_of}
use remnanode_xhttp_cleaner.Manager.Deploy.Safety.{deploy-IsGuarded}
use remnanode_xhttp_cleaner.Manager.Deploy.Failure.{Fate, deploy-Fate}
use remnanode_xhttp_cleaner.Manager.Main.{print_status}
use remnanode_xhttp_cleaner.Manager.Ensure.{ensure, already_patched}
use remnanode_xhttp_cleaner.Manager.Ensure.Quiet.{Quiet, ensure-IsQuiet, print_status-IsQuiet}
use remnanode_xhttp_cleaner.Manager.Health.{stock_core_is_running, diagnostic_command}
use remnanode_xhttp_cleaner.Manager.Health.Tails.{IsBounded, diagnostic_command-IsBounded}
use remnanode_xhttp_cleaner.Manager.Ensure.{failure_record, record_failure, attempt_deploy}
use remnanode_xhttp_cleaner.Manager.Ensure.Remembered.{recorded, record_failure-IsRemembered}
use remnanode_xhttp_cleaner.Manager.Info.{failure_path}
use remnanode_xhttp_cleaner.Manager.Command.{process_table}
use remnanode_xhttp_cleaner.Base.{core_manager_error, timeout_expired, err}
use remnanode_xhttp_cleaner.Tests.Node.{
  node, core, World, version_text, answer, host, at_start, stock_info, built,
}
use remnanode_xhttp_cleaner.Manager.RuntimeConfig.{between_braces}
use remnanode_xhttp_cleaner.Manager.RuntimeConfig.Braces.{
  between_braces-IsSlice, without, begins, finishes,
}

-- The whole run: the deployment succeeds.
deploy_returns : (deploy host node stock_info built (at_start false)).0 ≡ ok tt
unfolding deploy call put_file remote_binary deployment_path
deploy_returns = refl

deploy-IsGuarded_example :
    guarded
      (plan_of host node stock_info)
      (deploy host node stock_info built (at_start false)).1.trace
    ≡ true
unfolding guarded
deploy-IsGuarded_example = deploy-IsGuarded host node stock_info built (at_start false) refl

deploy-Fate_example : Fate host node stock_info (deploy host node stock_info built (at_start false))
deploy-Fate_example = deploy-Fate host node stock_info built (at_start false) refl

atomic_json-IsAtomic_example :
    Ends
      (λ (_ : Unit {0}) (after : Machine World).
        Replaced host (at_start false) (codes "/a.tmp") (codes "/a") (json (dict end)) after)
      (λ after.
        Untouched host (at_start false) (codes "/a.tmp") (codes "/a") (json (dict end)) after)
      (atomic_json host (codes "/a") (dict end) (at_start false)).0
      (atomic_json host (codes "/a") (dict end) (at_start false)).1
unfolding text_eq
atomic_json-IsAtomic_example =
    atomic_json-IsAtomic host (codes "/a") (dict end) (at_start false) refl

clock_never_back : (c : Command) (w : World) → w.0 ≤ (answer c w).1.0
clock_never_back c w = omega arith

wait_loop-terminates_example :
    (wait_loop host 46 node none core 90000 (at_start false)).0 ≢ ok out_of_fuel
wait_loop-terminates_example =
    wait_loop-terminates host clock_never_back (λ w. omega arith) node none core (at_start false)

read_version : parse_version (version_text false) ≡ ok (codes "1.8.4")
unfolding parse_version
read_version = refl

parse_version-IsTag_example : is_tag_version (codes "1.8.4") ≡ true
parse_version-IsTag_example = parse_version-IsTag (version_text false) (codes "1.8.4") read_version

healthy_returns : (wait_healthy host node none core (at_start false)).0 ≡ ok tt
unfolding wait_healthy call
healthy_returns = refl

wait_healthy-IsSeen_example :
    Seen host node none core (wait_healthy host node none core (at_start false)).1
wait_healthy-IsSeen_example =
    wait_healthy-IsSeen host node none core (at_start false) healthy_returns

print_status-IsQuiet_example :
    Quiet host (at_start false) (print_status host node (at_start false)).1
print_status-IsQuiet_example = print_status-IsQuiet host node (at_start false)

already : (ensure host node false (at_start true)).0 ≡ ok already_patched
unfolding ensure call
already = refl

ensure-IsQuiet_example : Quiet host (at_start true) (ensure host node false (at_start true)).1
ensure-IsQuiet_example = ensure-IsQuiet host node false (at_start true) already

abbrev container_id : Text
container_id = codes "0123456789abcdef"

asked_id : (docker host (inspect_id node) (at_start true)).0 ≡ ok container_id
unfolding docker call run
asked_id = refl

read_backup :
    (file_digest host (backup_path stock_info) (docker host (inspect_id node) (at_start true)).1).0
    ≡ ok (codes "digest")
unfolding file_digest docker call run
read_backup = refl

deployment-check_metadata_example :
    ((lift (
          fields_of
            (deployment node stock_info container_id built (codes "digest") (codes "digest") 0))
        >>= check_metadata host node)
      (at_start true)).0
    ≡ ok (core, backup_path stock_info, container_id)
deployment-check_metadata_example =
    deployment-check_metadata host node stock_info container_id built (codes "digest")
      (codes "digest") 0 (at_start true) asked_id read_backup

abbrev metadata : Fields
metadata = field (codes "container") (str node) (
    field (codes "container_id") (str container_id) (
      field (codes "backup") (str (codes "/backup")) (
        field (codes "backup_sha256") (str (codes "digest"))
          (field (codes "binary") (str core) end))))

metadata_passes :
    (check_metadata host node metadata (at_start true)).0 ≡ ok (core, codes "/backup", container_id)
unfolding check_metadata call run
metadata_passes = refl

check_metadata-IsChecked_example : Checked host node metadata (core, codes "/backup", container_id)
check_metadata-IsChecked_example =
    check_metadata-IsChecked host node metadata (at_start true)
      (core, codes "/backup", container_id) metadata_passes

abbrev kept : Json
kept = dict (
    field (codes "returncode") (int (pos 0))
      (field (codes "stdout") (str []) (field (codes "stderr") (str []) end)))

table_kept : (diagnostic_command host (process_table node) (at_start false)).0 ≡ ok kept
unfolding diagnostic_command call
table_kept = refl

diagnostic_command-IsBounded_example : IsBounded kept
diagnostic_command-IsBounded_example =
    diagnostic_command-IsBounded host (process_table node) (at_start false) kept table_kept

stock_runs : (stock_core_is_running host node (at_start false)).0 ≡ ok true
unfolding stock_core_is_running call run
stock_runs = refl

name_is_fresh :
    text_eq
      (host.temporary
        (failure_path stock_info)
        (stock_core_is_running host node (at_start false)).1.world)
      (failure_path stock_info)
    ≡ false
unfolding text_eq failure_path stock_core_is_running call run
name_is_fresh = refl

failure_written : (recorded host node stock_info (at_start false) true timeout_expired).0 ≡ ok tt
unfolding atomic_json put_file stock_core_is_running call run failure_path
failure_written = refl

record_failure-IsRemembered_example :
    (record_failure host node stock_info timeout_expired (at_start false) ≡ (
      err timeout_expired,
      (recorded host node stock_info (at_start false) true timeout_expired).1,
    ))
    × ((recorded host node stock_info (at_start false) true timeout_expired).1.files
          (failure_path stock_info)
        ≡ some (
            json (
              failure_record stock_info
                (codes "failed")
                true
                (host.time (stock_core_is_running host node (at_start false)).1.world))))
    × (attempt_deploy host node false stock_info
          (recorded host node stock_info (at_start false) true timeout_expired).1
        ≡ (
          err (
              core_manager_error
                "this exact Xray version previously failed the compatibility gate"),
          (recorded host node stock_info (at_start false) true timeout_expired).1,
        ))
record_failure-IsRemembered_example =
    record_failure-IsRemembered host node stock_info (at_start false) true timeout_expired
      stock_runs name_is_fresh failure_written

abbrev dumped : Text
dumped = codes "cli: {\"a\": {}} done"

abbrev config_text : Text
config_text = codes "{\"a\": {}}"

config_found : between_braces dumped ≡ some config_text
unfolding between_braces
config_found = refl

between_braces-IsSlice_example :
    (front : Text) × (back : Text) × (dumped ≡ front ++ (config_text ++ back))
    × (without b'{' front ≡ true)
    × (without b'}' back ≡ true)
    × (begins b'{' config_text ≡ true)
    × (finishes b'}' config_text ≡ true)
between_braces-IsSlice_example = between_braces-IsSlice dumped config_text config_found
