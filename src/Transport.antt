-- ===== src/Transport.antt =====
-- remnanode-xhttp-clean.py: `parse_transport_counts`, the number of XHTTP, TCP, gRPC and Hysteria
-- entries of a configuration.
use remnanode_xhttp_cleaner.Base.{ℕ, ◌+◌, Bool, ◌||◌, [], if◌then◌else◌}
use remnanode_xhttp_cleaner.Base.Text.{Text, codes, text_eq, lower}
use remnanode_xhttp_cleaner.Json.{Json, str, list, dict, Items, nil, item, Fields, end, get}
use remnanode_xhttp_cleaner.Listener.{text_of}

pub record Counts : Type 0 where
  pub xhttp : ℕ
  pub tcp : ℕ
  pub grpc : ℕ
  pub hysteria : ℕ

abbrev pub no_counts : Counts
no_counts = record { xhttp = 0; tcp = 0; grpc = 0; hysteria = 0 }

abbrev is_named : Text → Text → Bool
is_named name t = text_eq t name

-- One round of the inner loop, once the two names are known.
unfoldable pub count_names : Text → Text → Counts → Counts
unfolding text_eq
count_names network protocol counts =
    if text_eq network (codes "hysteria") || text_eq protocol (codes "hysteria")
    then record counts { hysteria = counts.hysteria + 1 }
    else if text_eq network (codes "xhttp") || text_eq network (codes "splithttp")
    then record counts { xhttp = counts.xhttp + 1 }
    else if text_eq network (codes "grpc")
    then record counts { grpc = counts.grpc + 1 }
    else if text_eq network (codes "tcp") || text_eq network (codes "raw")
    then record counts { tcp = counts.tcp + 1 }
    else counts

abbrev count_stream : Fields → Json → Counts → Counts
count_stream entry (dict stream) counts =
    count_names (lower (text_of (get (codes "network") (str []) stream)))
      (lower (text_of (get (codes "protocol") (str []) entry))) counts
count_stream entry _ counts = counts

unfoldable pub count_entry : Json → Counts → Counts
unfolding count_names get lower text_of
count_entry (dict entry) counts =
    count_stream entry (get (codes "streamSettings") (dict end) entry) counts
count_entry _ counts = counts

unfoldable pub count_entries : Items → Counts → Counts
unfolding count_entry
count_entries nil counts = counts
count_entries (item entry rest) counts = count_entries rest (count_entry entry counts)

abbrev count_section : Json → Counts → Counts
count_section (list entries) counts = count_entries entries counts
count_section _ counts = counts

unfoldable pub parse_transport_counts : Json → Counts
unfolding count_entries get
parse_transport_counts (dict raw) =
    count_section (get (codes "outbounds") (list nil) raw)
      (count_section (get (codes "inbounds") (list nil) raw) no_counts)
parse_transport_counts _ = no_counts
