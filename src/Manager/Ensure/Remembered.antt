-- ===== src/Manager/Ensure/Remembered.antt =====
-- The record of a failed attempt in `xray-core-manager.py`, as the next `ensure` finds it.
use mathlib.Core.Path.{subst}
use remnanode_xhttp_cleaner.Base.{
  ◌≡◌, Bool, false, some, Outcome, ok, err, Exception, core_manager_error,
}
use remnanode_xhttp_cleaner.Base.Text.{Text, text_eq}
use remnanode_xhttp_cleaner.Base.Exec.Triple.{Ends}
use remnanode_xhttp_cleaner.Manager.Machine.{Host, Machine, json}
use remnanode_xhttp_cleaner.Manager.Files.{atomic_json}
use remnanode_xhttp_cleaner.System.Atomic.{Replaced, Untouched}
use remnanode_xhttp_cleaner.Manager.Files.Atomic.{atomic_json-IsAtomic}
use remnanode_xhttp_cleaner.Manager.Info.{Info, failure_path}
use remnanode_xhttp_cleaner.Manager.Health.{stock_core_is_running}
use remnanode_xhttp_cleaner.Manager.Ensure.{failure_record, record_failure, attempt_deploy}

module _ {W : Type 0} (h : Host W) (container : Text) (info : Info) (m : Machine W) (stock : Bool)
    (e : Exception) where
  abbrev asked : Machine W
  asked = (stock_core_is_running h container m).1

  -- The call of `atomic_json` in the handler, and the state that it leaves.
  abbrev pub recorded : Outcome (Unit {0}) × Machine W
  recorded =
      atomic_json h (failure_path info)
        (failure_record info (h.str_of e asked.world) stock (h.time asked.world)) asked

  has_record :
      text_eq (h.temporary (failure_path info) asked.world) (failure_path info) ≡ false
      → recorded.0 ≡ ok tt
      → recorded.1.files (failure_path info)
        ≡ some (json (failure_record info (h.str_of e asked.world) stock (h.time asked.world)))
  has_record fresh written =
      (subst
        (λ (r : Outcome (Unit {0})).
          Ends
            (λ (_ : Unit {0}) (after : Machine W).
              Replaced h asked (h.temporary (failure_path info) asked.world) (failure_path info)
                (json (failure_record info (h.str_of e asked.world) stock (h.time asked.world)))
                after)
            (λ after.
              Untouched h asked (h.temporary (failure_path info) asked.world) (failure_path info)
                (json (failure_record info (h.str_of e asked.world) stock (h.time asked.world)))
                after)
            r recorded.1)
        written
        (atomic_json-IsAtomic h (failure_path info)
          (failure_record info (h.str_of e asked.world) stock (h.time asked.world)) asked fresh)).0

  -- If the handler of a failed attempt could find out whether the stock core runs, the temporary name
  -- is not the path, and `atomic_json` has returned, then the handler raises the error of the attempt,
  -- the file of the failure has the record, and a next attempt without `--retry-failed` is refused and
  -- leaves the machine as it is.
  pub record_failure-IsRemembered :
      (stock_core_is_running h container m).0 ≡ ok stock
      → text_eq (h.temporary (failure_path info) asked.world) (failure_path info) ≡ false
      → recorded.0 ≡ ok tt
      → (record_failure h container info e m ≡ (err e, recorded.1))
        × (recorded.1.files (failure_path info)
            ≡ some (json (failure_record info (h.str_of e asked.world) stock (h.time asked.world))))
        × (attempt_deploy h container false info recorded.1 ≡ (
          err (
              core_manager_error
                "this exact Xray version previously failed the compatibility gate"),
          recorded.1,
        ))
  unfolding record_failure attempt_deploy
  record_failure-IsRemembered known fresh written =
      (rw (known, written), has_record fresh written, rw (has_record fresh written))
