-- ===== src/Manager/Deploy/Guard.antt =====
-- What `deploy` and `rollback_binary` of `xray-core-manager.py` ask before they replace the binary,
-- as a test on the trace.
use remnanode_xhttp_cleaner.Base.{
  Bool, true, false, not, ◌&&◌, ◌||◌, Option, none, some, List, [], ◌∷◌, Outcome, ok, if◌then◌else◌,
}
use remnanode_xhttp_cleaner.Base.Text.{Text, text_eq, strip}
use remnanode_xhttp_cleaner.Manager.Command.{Command, inspect_id, core_version, test_core, move}
use remnanode_xhttp_cleaner.Manager.Machine.{Completed, succeeded}
use remnanode_xhttp_cleaner.Manager.Machine.Keeps.{is_move}
use remnanode_xhttp_cleaner.Manager.Version.{patch_id, occurs}

abbrev pub Event : Type 0
Event = Command × Outcome Completed

abbrev pub any_event : (Event → Bool) → List Event → Bool
any_event p [] = false
any_event p (e ∷ older) = p e || any_event p older

-- The newest answer with the id of the container.
abbrev pub latest_id : Text → List Event → Option Text
latest_id container [] = none
latest_id container ((inspect_id c, ok done) ∷ older) =
    let before = latest_id container older in
    if text_eq c container && succeeded done then some (strip done.stdout) else before
latest_id container (e ∷ older) = latest_id container older

-- The newest command was `docker inspect` for the id of a container.
abbrev pub is_asked : List Event → Bool
is_asked [] = false
is_asked ((inspect_id c, r) ∷ older) = true
is_asked (e ∷ older) = false

abbrev pub is_some_text : Option Text → Text → Bool
is_some_text none expected = false
is_some_text (some text) expected = text_eq text expected

-- `version` of this binary has shown the marker of the patch; and its run with `-test` has succeeded.
abbrev pub shows_marker : Text → Text → Event → Bool
shows_marker container binary (core_version c b, ok done) =
    text_eq c container
    && (text_eq b binary && (succeeded done && occurs patch_id (strip done.stdout)))
shows_marker container binary e = false

abbrev pub passes_test : Text → Text → Event → Bool
passes_test container binary (test_core c b config, ok done) =
    text_eq c container && (text_eq b binary && succeeded done)
passes_test container binary e = false

-- What a replacement may be, where `container`, `id` and `binary` say what is replaced, `remote` is the
-- new binary, and `stock` the copy of the old one.
pub record Plan : Type 0 where
  pub container : Text
  pub id : Text
  pub binary : Text
  pub remote : Text
  pub stock : Text

abbrev pub is_ready : Plan → List Event → Bool
is_ready plan older =
    any_event (shows_marker plan.container plan.remote) older
    && any_event (passes_test plan.container plan.remote) older

abbrev pub may_move : Plan → Command → List Event → Bool
may_move plan (move c source target) older =
    text_eq c plan.container
    && (text_eq target plan.binary
        && (is_some_text (latest_id plan.container older) plan.id
            && ((text_eq source plan.remote && (is_asked older && is_ready plan older))
                || text_eq source plan.stock)))
may_move plan c older = true

-- Each `mv` of a trace was allowed when it was run.
unfoldable pub guarded : Plan → List Event → Bool
unfolding strip text_eq occurs
guarded plan [] = true
guarded plan (e ∷ older) = (not (is_move e.0) || may_move plan e.0 older) && guarded plan older
