-- ===== src/Patch/Hub/Connection.antt =====
-- `patched_hub` of `xray_patch/patch_xray.py`: the changes to the downstream connection.
use remnanode_xhttp_cleaner.Base.{List, [], ◌∷◌, ◌++◌, map}
use remnanode_xhttp_cleaner.Base.Text.{Text}
use remnanode_xhttp_cleaner.Patch.Edit.{lines, Change, once, one_variant}

abbrev pub downstream_conn : Text
downstream_conn = lines (
    "\t\thttpSC := &httpServerConn{" ∷ "\t\t\tInstance:       done.New(),"
    ∷ "\t\t\tReader:         request.Body," ∷ "\t\t\tResponseWriter: writer," ∷ "\t\t}" ∷ [])

abbrev pub downstream_conn_with_activity : Text
downstream_conn_with_activity = lines (
    "\t\thttpSC := &httpServerConn{" ∷ "\t\t\tInstance:       done.New(),"
    ∷ "\t\t\tReader:         request.Body," ∷ "\t\t\tResponseWriter: writer,"
    ∷ "\t\t\tonActivity:     xhttpSessionTouch(currentSession)," ∷ "\t\t}" ∷ [])

abbrev pub downstream_layouts : List Text
downstream_layouts =
    (lines ("\t\tconn := splitConn{" ∷ []))
    ∷ (lines (
        "\t\tlocalAddr := h.localAddr"
        ∷ "\t\tif la, ok := request.Context().Value(http.LocalAddrContextKey).(net.Addr); ok && la != nil {"
        ∷ "\t\t\tlocalAddr = la" ∷ "\t\t}" ∷ "\t\tconn := splitConn{" ∷ []))
    ∷ []

abbrev pub downstream_activity_hook : Change
downstream_activity_hook =
    one_variant
      (map (λ layout. (downstream_conn ++ layout, downstream_conn_with_activity ++ layout))
        downstream_layouts)
      "downstream activity hook"

abbrev pub session_completion_reuse_guard : Change
session_completion_reuse_guard =
    once
      (lines (
        "\t\t\tcurrentSession.isFullyConnected.Close()" ∷ "\t\t\tdefer h.sessions.Delete(sessionId)"
        ∷ []))
      (lines (
        "\t\t\tcurrentSession.isFullyConnected.Close()"
        ∷ "\t\t\tdefer h.sessions.CompareAndDelete(sessionId, currentSession)" ∷ []))
      "session completion reuse guard"

abbrev pub httpserverconn_activity_callback : Change
httpserverconn_activity_callback =
    once
      (lines (
        "type httpServerConn struct {" ∷ "\tsync.Mutex" ∷ "\t*done.Instance"
        ∷ "\tio.Reader // no need to Close request.Body" ∷ "\thttp.ResponseWriter" ∷ "}" ∷ []))
      (lines (
        "type httpServerConn struct {" ∷ "\tsync.Mutex" ∷ "\t*done.Instance"
        ∷ "\tio.Reader // no need to Close request.Body" ∷ "\thttp.ResponseWriter"
        ∷ "\tonActivity func()" ∷ "}" ∷ []))
      "httpServerConn activity callback"

abbrev pub downstream_write_accounting : Change
downstream_write_accounting =
    once
      (lines (
        "\tn, err := c.ResponseWriter.Write(b)" ∷ "\tif err == nil {"
        ∷ "\t\tc.ResponseWriter.(http.Flusher).Flush()" ∷ "\t}" ∷ "\treturn n, err" ∷ []))
      (lines (
        "\tn, err := c.ResponseWriter.Write(b)" ∷ "\tif n > 0 && c.onActivity != nil {"
        ∷ "\t\tc.onActivity()" ∷ "\t}" ∷ "\tif err == nil {"
        ∷ "\t\tc.ResponseWriter.(http.Flusher).Flush()" ∷ "\t}" ∷ "\treturn n, err" ∷ []))
      "downstream write accounting"
