-- ===== src/Tests/Whole.antt =====
-- A run of the whole patcher, on a tree whose sources are made of the anchors.
use remnanode_xhttp_cleaner.Base.{
  ◌≡◌, refl, none, some, List, [], ◌∷◌, ◌++◌, ok, err, if◌then◌else◌, patch_error, overlay_present,
}
use remnanode_xhttp_cleaner.Base.Text.{Text, codes, starts_with, text_eq}
use remnanode_xhttp_cleaner.Patch.Edit.{
  Change, once, one_variant, Variants, lines, apply_changes, apply_change, replace_once,
  replace_one_variant, count, count_from, replace_first, total, matches, replace_match,
}
use remnanode_xhttp_cleaner.Patch.Hub.{patched_hub}
use remnanode_xhttp_cleaner.Patch.Hub.Session.{
  request_handler_reaper_lifecycle, httpsession_activity_field,
  session_construction_and_upstream_reaper,
}
use remnanode_xhttp_cleaner.Patch.Hub.Connection.{
  downstream_activity_hook, session_completion_reuse_guard, httpserverconn_activity_callback,
  downstream_write_accounting,
}
use remnanode_xhttp_cleaner.Patch.Hub.Lifecycle.{
  listener_owns_reaper_lifecycle, handler_lifecycle_construction,
  start_listener_reaper_after_successful_setup, xhttp_idle_http_connection_timeout,
  stop_listener_reaper,
}
use remnanode_xhttp_cleaner.Patch.Queue.{
  patched_upload_queue, upload_queue_activity_callback, queued_payload_activity_accounting,
  stream_upload_read_accounting, first_stream_upload_read_accounting, packet_upload_read_accounting,
}
use remnanode_xhttp_cleaner.Patch.Hysteria.{
  patched_hysteria_hub, patched_hysteria_conn, hysteria_inactive_udp_lifetime,
  hysteria_outbound_activity_and_close_serialization, hysteria_released_udp_payload_references,
  hysteria_manager_close_state_synchronization, hysteria_udp_expiry_scan,
  hysteria_udp_expiry_activity_recheck, hysteria_client_udp_initial_activity_timestamp,
  hysteria_inbound_datagram_activity_accounting,
}
use remnanode_xhttp_cleaner.Patch.Launch.{
  patched_main, patched_run, long_lived_xray_command_memory_optimizer_startup,
  config_aware_memory_optimizer_observation,
}
use remnanode_xhttp_cleaner.Patch.Policy.{patched_default_policy, default_buffer_variants}
use remnanode_xhttp_cleaner.Patch.Tree.{
  FilePath, root, asset, path_eq, Tree, Disk, put, patch_tree, prepare, require_files, exists,
  refuse_overlay, any_exists, change_all, change_file, write_all, write_file, copy_all, copy_file,
}
use remnanode_xhttp_cleaner.Patch.Tree.Safety.{IsPatchRun, patch_tree-IsPatchRun}
use remnanode_xhttp_cleaner.Patch.Tree.Applied.{IsApplied, patch_tree-IsApplied, patch_tree_again}

abbrev first_anchor : Variants → Text
first_anchor [] = []
first_anchor (variant ∷ _) = variant.0

abbrev anchors : List Change → Text
anchors [] = []
anchors (once old new label ∷ rest) = old ++ anchors rest
anchors (one_variant variants label ∷ rest) = first_anchor variants ++ anchors rest

abbrev contents : List (FilePath × Text)
contents =
    (
      root (codes "transport/internet/splithttp/hub.go"),
      anchors (
          request_handler_reaper_lifecycle ∷ httpsession_activity_field
          ∷ session_construction_and_upstream_reaper ∷ downstream_activity_hook
          ∷ session_completion_reuse_guard ∷ httpserverconn_activity_callback
          ∷ downstream_write_accounting ∷ listener_owns_reaper_lifecycle
          ∷ handler_lifecycle_construction ∷ start_listener_reaper_after_successful_setup
          ∷ xhttp_idle_http_connection_timeout ∷ stop_listener_reaper ∷ []),
    )
    ∷ (
      root (codes "transport/internet/splithttp/upload_queue.go"),
      anchors (
          upload_queue_activity_callback ∷ queued_payload_activity_accounting
          ∷ stream_upload_read_accounting ∷ first_stream_upload_read_accounting
          ∷ packet_upload_read_accounting ∷ []),
    )
    ∷ (root (codes "features/policy/policy.go"), first_anchor default_buffer_variants)
    ∷ (
      root (codes "transport/internet/hysteria/hub.go"),
      anchors (hysteria_inactive_udp_lifetime ∷ []),
    )
    ∷ (
      root (codes "transport/internet/hysteria/conn.go"),
      anchors (
          hysteria_outbound_activity_and_close_serialization
          ∷ hysteria_released_udp_payload_references ∷ hysteria_manager_close_state_synchronization
          ∷ hysteria_udp_expiry_scan ∷ hysteria_udp_expiry_activity_recheck
          ∷ hysteria_client_udp_initial_activity_timestamp
          ∷ hysteria_inbound_datagram_activity_accounting ∷ []),
    )
    ∷ (root (codes "main/main.go"), anchors (long_lived_xray_command_memory_optimizer_startup ∷ []))
    ∷ (root (codes "main/run.go"), anchors (config_aware_memory_optimizer_observation ∷ []))
    ∷ (asset (codes "xhttp_cleaner_reaper.go"), codes "a")
    ∷ (asset (codes "xhttp_cleaner_reaper_test.go"), codes "b")
    ∷ (asset (codes "core_memory_optimizer.go"), codes "c")
    ∷ (asset (codes "core_memory_optimizer_test.go"), codes "d")
    ∷ (asset (codes "hysteria_memory_guard.go"), codes "e")
    ∷ (asset (codes "hysteria_memory_guard_test.go"), codes "f")
    ∷ []

look_up : List (FilePath × Text) → Tree
look_up [] path = none
look_up ((p, content) ∷ rest) path =
    let behind = look_up rest path in if path_eq p path then some content else behind

abbrev whole_tree : Tree
whole_tree = look_up contents

abbrev working_disk : Disk
working_disk = record {
  temporary = λ tree path. codes "tmp0";
  write_fault = λ path. none;
  copy_fault = λ path. none;
}

patch_works : (patch_tree working_disk whole_tree).0 ≡ ok tt
unfolding patch_tree prepare require_files exists refuse_overlay any_exists change_all change_file
    write_all write_file copy_all copy_file put path_eq text_eq look_up patched_hub
    patched_upload_queue patched_default_policy patched_hysteria_hub patched_hysteria_conn
    patched_main patched_run apply_changes apply_change replace_once replace_one_variant count
    count_from starts_with replace_first lines total matches replace_match
patch_works = refl

patch_tree-IsApplied_example : IsApplied whole_tree (patch_tree working_disk whole_tree).1
patch_tree-IsApplied_example = patch_tree-IsApplied whole_tree working_disk patch_works

patch_tree_again_example :
    patch_tree working_disk (patch_tree working_disk whole_tree).1
    ≡ (err (patch_error overlay_present), (patch_tree working_disk whole_tree).1)
patch_tree_again_example = patch_tree_again working_disk working_disk whole_tree patch_works

patch_tree-IsPatchRun_example : IsPatchRun whole_tree (patch_tree working_disk whole_tree)
patch_tree-IsPatchRun_example = patch_tree-IsPatchRun whole_tree working_disk
