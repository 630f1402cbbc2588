-- ===== src/Patch/Hub.antt =====
-- `patched_hub` of `xray_patch/patch_xray.py`.
pub mod Session
pub mod Connection
pub mod Lifecycle
use remnanode_xhttp_cleaner.Base.{List, [], ◌∷◌, Outcome}
use remnanode_xhttp_cleaner.Base.Text.{Text}
use remnanode_xhttp_cleaner.Patch.Edit.{apply_changes}
use remnanode_xhttp_cleaner.Patch.Hub.Session.{
  request_handler_reaper_lifecycle, httpsession_activity_field,
  session_construction_and_upstream_reaper,
}
use remnanode_xhttp_cleaner.Patch.Hub.Connection.{
  downstream_activity_hook, session_completion_reuse_guard, httpserverconn_activity_callback,
  downstream_write_accounting,
}
use remnanode_xhttp_cleaner.Patch.Hub.Lifecycle.{
  listener_owns_reaper_lifecycle, handler_lifecycle_construction,
  start_listener_reaper_after_successful_setup, xhttp_idle_http_connection_timeout,
  stop_listener_reaper,
}

unfoldable pub patched_hub : Text → Outcome Text
patched_hub = apply_changes (
    request_handler_reaper_lifecycle ∷ httpsession_activity_field
    ∷ session_construction_and_upstream_reaper ∷ downstream_activity_hook
    ∷ session_completion_reuse_guard ∷ httpserverconn_activity_callback
    ∷ downstream_write_accounting ∷ listener_owns_reaper_lifecycle ∷ handler_lifecycle_construction
    ∷ start_listener_reaper_after_successful_setup ∷ xhttp_idle_http_connection_timeout
    ∷ stop_listener_reaper ∷ [])
