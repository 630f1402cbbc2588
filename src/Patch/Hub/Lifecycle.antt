-- ===== src/Patch/Hub/Lifecycle.antt =====
-- `patched_hub` of `xray_patch/patch_xray.py`: the changes to the listener.
use remnanode_xhttp_cleaner.Base.{[], ◌∷◌}
use remnanode_xhttp_cleaner.Patch.Edit.{lines, Change, once}

abbrev pub listener_owns_reaper_lifecycle : Change
listener_owns_reaper_lifecycle =
    once (lines ("type Listener struct {" ∷ "\tsync.Mutex" ∷ "\tserver     http.Server" ∷ []))
      (lines (
        "type Listener struct {" ∷ "\tsync.Mutex" ∷ "\thandler    *requestHandler"
        ∷ "\tserver     http.Server" ∷ []))
      "listener owns reaper lifecycle"

abbrev pub handler_lifecycle_construction : Change
handler_lifecycle_construction =
    once
      (lines (
        "\t\tsessionMu:      &sync.Mutex{}," ∷ "\t\tsessions:       sync.Map{},"
        ∷ "\t\tsocketSettings: streamSettings.SocketSettings," ∷ "\t}" ∷ []))
      (lines (
        "\t\tsessionMu:      &sync.Mutex{}," ∷ "\t\tsessions:       sync.Map{},"
        ∷ "\t\treaperStop:     done.New()," ∷ "\t\tsocketSettings: streamSettings.SocketSettings,"
        ∷ "\t}" ∷ "\tl.handler = handler" ∷ []))
      "handler lifecycle construction"

abbrev pub start_listener_reaper_after_successful_setup : Change
start_listener_reaper_after_successful_setup =
    once
      (lines ("" ∷ "\treturn l, err" ∷ "}" ∷ "" ∷ "// Addr implements net.Listener.Addr()." ∷ []))
      (lines (
        "" ∷ "\thandler.startXHTTPReaper()" ∷ "\treturn l, err" ∷ "}" ∷ ""
        ∷ "// Addr implements net.Listener.Addr()." ∷ []))
      "start listener reaper after successful setup"

abbrev pub xhttp_idle_http_connection_timeout : Change
xhttp_idle_http_connection_timeout =
    once
      (lines (
        "\t\tl.server = http.Server{" ∷ "\t\t\tHandler:           handler,"
        ∷ "\t\t\tReadHeaderTimeout: time.Second * 4,"
        ∷ "\t\t\tMaxHeaderBytes:    l.config.GetNormalizedServerMaxHeaderBytes()," ∷ []))
      (lines (
        "\t\tl.server = http.Server{" ∷ "\t\t\tHandler:           handler,"
        ∷ "\t\t\tReadHeaderTimeout: time.Second * 4,"
        ∷ "\t\t\tIdleTimeout:       xhttpCleanerHTTPIdleTimeout,"
        ∷ "\t\t\tMaxHeaderBytes:    l.config.GetNormalizedServerMaxHeaderBytes()," ∷ []))
      "XHTTP idle HTTP connection timeout"

abbrev pub stop_listener_reaper : Change
stop_listener_reaper =
    once (lines ("func (ln *Listener) Close() error {" ∷ "\tif ln.h3server != nil {" ∷ []))
      (lines (
        "func (ln *Listener) Close() error {" ∷ "\tif ln.handler != nil {"
        ∷ "\t\tln.handler.stopXHTTPReaper()" ∷ "\t}" ∷ "\tif ln.h3server != nil {" ∷ []))
      "stop listener reaper"
