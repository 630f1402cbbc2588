-- ===== src/Patch/Hysteria.antt =====
-- `patched_hysteria_hub` and `patched_hysteria_conn` of `xray_patch/patch_xray.py`.
use remnanode_xhttp_cleaner.Base.{[], ◌∷◌, Outcome}
use remnanode_xhttp_cleaner.Base.Text.{Text}
use remnanode_xhttp_cleaner.Patch.Edit.{lines, Change, apply_changes, once}

abbrev pub hysteria_inactive_udp_lifetime : Change
hysteria_inactive_udp_lifetime =
    once
      (lines
        ("\t\t\t\t\tudpIdleTimeout: time.Duration(h.config.UdpIdleTimeout) * time.Second," ∷ []))
      (lines (
        "\t\t\t\t\t// Configure only inactive logical UDP sessions. The guard preserves"
        ∷ "\t\t\t\t\t// the parsed timeout by default and never changes active QUIC traffic."
        ∷ "\t\t\t\t\tudpIdleTimeout: configuredHysteriaUDPIdleTimeoutSeconds(h.config.UdpIdleTimeout),"
        ∷ []))
      "Hysteria inactive UDP lifetime"

unfoldable pub patched_hysteria_hub : Text → Outcome Text
patched_hysteria_hub = apply_changes (hysteria_inactive_udp_lifetime ∷ [])

abbrev pub hysteria_outbound_activity_and_close_serialization : Change
hysteria_outbound_activity_and_close_serialization =
    once
      (lines (
        "func (c *InterConn) Write(p []byte) (int, error) {" ∷ "\tif c.closed {"
        ∷ "\t\treturn 0, io.ErrClosedPipe" ∷ "\t}" ∷ "\tbinary.BigEndian.PutUint32(p, c.id)"
        ∷ "\tif err := c.write(p); err != nil {" ∷ "\t\treturn 0, err" ∷ "\t}" ∷ "\tc.Update()"
        ∷ "\treturn len(p), nil" ∷ "}" ∷ []))
      (lines (
        "func (c *InterConn) Write(p []byte) (int, error) {"
        ∷ "\t// Serialize the final activity update with the cleaner's close decision."
        ∷ "\t// Holding this small per-session mutex never blocks unrelated sessions."
        ∷ "\tc.mutex.Lock()" ∷ "\tdefer c.mutex.Unlock()" ∷ "\tif c.closed {"
        ∷ "\t\treturn 0, io.ErrClosedPipe" ∷ "\t}" ∷ "\tbinary.BigEndian.PutUint32(p, c.id)"
        ∷ "\tif err := c.write(p); err != nil {" ∷ "\t\treturn 0, err" ∷ "\t}"
        ∷ "\tc.time = time.Now()" ∷ "\treturn len(p), nil" ∷ "}" ∷ []))
      "Hysteria outbound activity and close serialization"

abbrev pub hysteria_released_udp_payload_references : Change
hysteria_released_udp_payload_references =
    once
      (lines (
        "func (m *udpSessionManager) close(udpConn *InterConn) {" ∷ "\tif !udpConn.closed {"
        ∷ "\t\tudpConn.closed = true" ∷ "\t\tclose(udpConn.ch)" ∷ "\t\tdelete(m.m, udpConn.id)"
        ∷ "\t}" ∷ "}" ∷ []))
      (lines (
        "func (m *udpSessionManager) close(udpConn *InterConn) {" ∷ "\tudpConn.mutex.Lock()"
        ∷ "\tdefer udpConn.mutex.Unlock()" ∷ "\tm.closeHysteriaUDPSessionLocked(udpConn)" ∷ "}"
        ∷ []))
      "Hysteria released UDP payload references"

abbrev pub hysteria_manager_close_state_synchronization : Change
hysteria_manager_close_state_synchronization =
    once
      (lines (
        "\tfor range ticker.C {" ∷ "\t\tif m.closed {" ∷ "\t\t\treturn" ∷ "\t\t}" ∷ ""
        ∷ "\t\tm.RLock()" ∷ []))
      (lines (
        "\tfor range ticker.C {" ∷ "\t\tm.RLock()" ∷ "\t\tif m.closed {" ∷ "\t\t\tm.RUnlock()"
        ∷ "\t\t\treturn" ∷ "\t\t}" ∷ []))
      "Hysteria manager close-state synchronization"

abbrev pub hysteria_udp_expiry_scan : Change
hysteria_udp_expiry_scan =
    once
      (lines (
        "\t\tfor _, udpConn := range m.m {"
        ∷ "\t\t\tif now.Sub(udpConn.Time()) > m.udpIdleTimeout {"
        ∷ "\t\t\t\ttimeoutConn = append(timeoutConn, udpConn)" ∷ "\t\t\t}" ∷ "\t\t}" ∷ []))
      (lines (
        "\t\tfor _, udpConn := range m.m {"
        ∷ "\t\t\tif hysteriaUDPSessionExpired(udpConn, now, m.udpIdleTimeout) {"
        ∷ "\t\t\t\ttimeoutConn = append(timeoutConn, udpConn)" ∷ "\t\t\t}" ∷ "\t\t}" ∷ []))
      "Hysteria UDP expiry scan"

abbrev pub hysteria_udp_expiry_activity_recheck : Change
hysteria_udp_expiry_activity_recheck =
    once
      (lines (
        "\t\tfor _, udpConn := range timeoutConn {" ∷ "\t\t\tm.Lock()" ∷ "\t\t\tm.close(udpConn)"
        ∷ "\t\t\tm.Unlock()" ∷ "\t\t}" ∷ []))
      (lines (
        "\t\tfor _, udpConn := range timeoutConn {" ∷ "\t\t\tm.Lock()"
        ∷ "\t\t\t// Recheck identity and activity under both manager and session"
        ∷ "\t\t\t// locks. A datagram arriving near the boundary wins over cleanup."
        ∷ "\t\t\tm.closeHysteriaUDPSessionIfExpired(udpConn, time.Now())" ∷ "\t\t\tm.Unlock()"
        ∷ "\t\t}" ∷ []))
      "Hysteria UDP expiry activity recheck"

abbrev pub hysteria_client_udp_initial_activity_timestamp : Change
hysteria_client_udp_initial_activity_timestamp =
    once (lines ("\t\tid: m.next," ∷ "\t\tch: make(chan []byte, udpMessageChanSize)," ∷ []))
      (lines (
        "\t\tid:   m.next," ∷ "\t\tch:   make(chan []byte, udpMessageChanSize),"
        ∷ "\t\ttime: time.Now()," ∷ []))
      "Hysteria client UDP initial activity timestamp"

abbrev pub hysteria_inbound_datagram_activity_accounting : Change
hysteria_inbound_datagram_activity_accounting =
    once (lines ("\tudpConn, ok := m.m[id]" ∷ "\tif ok {" ∷ "\t\tselect {" ∷ []))
      (lines (
        "\tudpConn, ok := m.m[id]" ∷ "\tif ok {"
        ∷ "\t\t// Count arrival immediately. Waiting for the dispatcher to drain the"
        ∷ "\t\t// channel could otherwise make a busy session look inactive."
        ∷ "\t\tudpConn.Update()" ∷ "\t\tselect {" ∷ []))
      "Hysteria inbound datagram activity accounting"

unfoldable pub patched_hysteria_conn : Text → Outcome Text
patched_hysteria_conn = apply_changes (
    hysteria_outbound_activity_and_close_serialization ∷ hysteria_released_udp_payload_references
    ∷ hysteria_manager_close_state_synchronization ∷ hysteria_udp_expiry_scan
    ∷ hysteria_udp_expiry_activity_recheck ∷ hysteria_client_udp_initial_activity_timestamp
    ∷ hysteria_inbound_datagram_activity_accounting ∷ [])
