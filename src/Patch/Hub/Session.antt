-- ===== src/Patch/Hub/Session.antt =====
-- `patched_hub` of `xray_patch/patch_xray.py`: the changes to the sessions.
use remnanode_xhttp_cleaner.Base.{[], ◌∷◌}
use remnanode_xhttp_cleaner.Patch.Edit.{lines, Change, once}

abbrev pub request_handler_reaper_lifecycle : Change
request_handler_reaper_lifecycle =
    once (lines ("\tsessions       sync.Map" ∷ "\tlocalAddr      net.Addr" ∷ []))
      (lines (
        "\tsessions       sync.Map" ∷ "\treaperStop     *done.Instance"
        ∷ "\tlocalAddr      net.Addr" ∷ []))
      "request handler reaper lifecycle"

abbrev pub httpsession_activity_field : Change
httpsession_activity_field =
    once
      (lines (
        "type httpSession struct {" ∷ "\tuploadQueue *uploadQueue"
        ∷ "\t// for as long as the GET request is not opened by the client, this will be" ∷ []))
      (lines (
        "type httpSession struct {" ∷ "\tuploadQueue *uploadQueue"
        ∷ "\tactivity    *xhttpSessionActivity"
        ∷ "\t// for as long as the GET request is not opened by the client, this will be" ∷ []))
      "httpSession activity field"

abbrev pub session_construction_and_upstream_reaper : Change
session_construction_and_upstream_reaper =
    once
      (lines (
        "\ts := &httpSession{"
        ∷ "\t\tuploadQueue:      NewUploadQueue(h.ln.config.GetNormalizedScMaxBufferedPosts()),"
        ∷ "\t\tisFullyConnected: done.New()," ∷ "\t}" ∷ "" ∷ "\th.sessions.Store(sessionId, s)" ∷ ""
        ∷ "\tshouldReap := done.New()" ∷ "\tgo func() {" ∷ "\t\ttime.Sleep(30 * time.Second)"
        ∷ "\t\tshouldReap.Close()" ∷ "\t}()" ∷ "\tgo func() {" ∷ "\t\tselect {"
        ∷ "\t\tcase <-shouldReap.Wait():" ∷ "\t\t\th.sessions.Delete(sessionId)"
        ∷ "\t\t\ts.uploadQueue.Close()" ∷ "\t\tcase <-s.isFullyConnected.Wait():" ∷ "\t\t}"
        ∷ "\t}()" ∷ []))
      (lines (
        "\ts := &httpSession{"
        ∷ "\t\tuploadQueue:      NewUploadQueue(h.ln.config.GetNormalizedScMaxBufferedPosts()),"
        ∷ "\t\tactivity:         newXHTTPSessionActivity()," ∷ "\t\tisFullyConnected: done.New(),"
        ∷ "\t}" ∷ "\ts.uploadQueue.setActivityCallback(s.activity.touch)" ∷ ""
        ∷ "\th.sessions.Store(sessionId, s)" ∷ "\th.startXHTTPPreconnectExpiry(sessionId, s)" ∷ []))
      "session construction and upstream reaper"
