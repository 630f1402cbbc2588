-- ===== src/Netlink.antt =====
-- remnanode-xhttp-clean.py: class `DiagClient` and `parse_diag_record`, the client of the kernel's
-- socket diagnostics over netlink. `Bytes` has what `struct` does, `Record` the parser of one
-- message, `Client` the requests and the two receive loops.
pub mod Bytes
pub mod Record
pub mod Client
