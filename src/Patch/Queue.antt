-- ===== src/Patch/Queue.antt =====
-- `patched_upload_queue` of `xray_patch/patch_xray.py`.
use remnanode_xhttp_cleaner.Base.{[], ◌∷◌, Outcome}
use remnanode_xhttp_cleaner.Base.Text.{Text}
use remnanode_xhttp_cleaner.Patch.Edit.{lines, Change, apply_changes, once}

abbrev pub upload_queue_activity_callback : Change
upload_queue_activity_callback =
    once (lines ("\tmaxPackets    int" ∷ "\tclosed        *done.Instance" ∷ "}" ∷ []))
      (lines (
        "\tmaxPackets    int" ∷ "\tclosed        *done.Instance" ∷ "\tonActivity    func()" ∷ "}"
        ∷ []))
      "upload queue activity callback"

abbrev pub queued_payload_activity_accounting : Change
queued_payload_activity_accounting =
    once
      (lines (
        "func (h *uploadQueue) Push(p Packet) error {"
        ∷ "\tif h.reader.Load() != nil || (p.Reader != nil && !h.reader.CompareAndSwap(nil, p.Reader)) {"
        ∷ []))
      (lines (
        "func (h *uploadQueue) Push(p Packet) error {" ∷ "\tif len(p.Payload) > 0 {"
        ∷ "\t\th.touchActivity()" ∷ "\t}"
        ∷ "\tif h.reader.Load() != nil || (p.Reader != nil && !h.reader.CompareAndSwap(nil, p.Reader)) {"
        ∷ []))
      "queued payload activity accounting"

abbrev pub stream_upload_read_accounting : Change
stream_upload_read_accounting =
    once
      (lines (
        "\tif reader := h.reader.Load(); reader != nil {" ∷ "\t\treturn reader.Read(b)" ∷ "\t}"
        ∷ []))
      (lines (
        "\tif reader := h.reader.Load(); reader != nil {" ∷ "\t\tn, err := reader.Read(b)"
        ∷ "\t\tif n > 0 {" ∷ "\t\t\th.touchActivity()" ∷ "\t\t}" ∷ "\t\treturn n, err" ∷ "\t}"
        ∷ []))
      "stream upload read accounting"

abbrev pub first_stream_upload_read_accounting : Change
first_stream_upload_read_accounting =
    once
      (lines (
        "\t\tcase p := <-h.pushedPackets:" ∷ "\t\t\tif p.Reader != nil {"
        ∷ "\t\t\t\treturn p.Reader.Read(b)" ∷ "\t\t\t}" ∷ []))
      (lines (
        "\t\tcase p := <-h.pushedPackets:" ∷ "\t\t\tif p.Reader != nil {"
        ∷ "\t\t\t\tn, err := p.Reader.Read(b)" ∷ "\t\t\t\tif n > 0 {"
        ∷ "\t\t\t\t\th.touchActivity()" ∷ "\t\t\t\t}" ∷ "\t\t\t\treturn n, err" ∷ "\t\t\t}" ∷ []))
      "first stream upload read accounting"

abbrev pub packet_upload_read_accounting : Change
packet_upload_read_accounting =
    once (lines ("\t\t\treturn n, nil" ∷ "\t\t}" ∷ "" ∷ "\t\t// misordered packet" ∷ []))
      (lines (
        "\t\t\tif n > 0 {" ∷ "\t\t\t\th.touchActivity()" ∷ "\t\t\t}" ∷ "\t\t\treturn n, nil"
        ∷ "\t\t}" ∷ "" ∷ "\t\t// misordered packet" ∷ []))
      "packet upload read accounting"

unfoldable pub patched_upload_queue : Text → Outcome Text
patched_upload_queue = apply_changes (
    upload_queue_activity_callback ∷ queued_payload_activity_accounting
    ∷ stream_upload_read_accounting ∷ first_stream_upload_read_accounting
    ∷ packet_upload_read_accounting ∷ [])
