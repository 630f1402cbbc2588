-- ===== src/Lib.antt =====
-- remnanode-xhttp-cleaner: a tool that closes idle TCP sockets of an Xray process in a container,
-- and a patch for the sources of Xray-core. The development models the Python code of both.
--
-- The program and its parts
--
-- `remnanode-xhttp-clean.py` reads a configuration, finds the process, reads the XHTTP listeners
-- from the rendered configuration of Xray, and runs `worker`. The worker reads the inodes of the
-- sockets that the process owns, asks the kernel over NETLINK_SOCK_DIAG for all sockets in some
-- states, chooses the candidates, and prints them. With `--apply` it waits, reads the inodes again,
-- asks for each candidate by its kernel cookie, and destroys it if it is still a candidate.
-- `xray_patch/patch_xray.py` replaces structural anchors in seven Go sources, each of which must
-- be counted once, and copies six new files beside them.
-- `xray-core-manager.py` builds the patched core for the version in a container, validates it there,
-- puts it in the place of the original binary, restarts the container and waits for its health. If
-- that fails it puts the original back.
--
-- Which file models which part
--
-- Base: numbers, lists, texts, exceptions, and code with effects. A text is a list of code points.
-- Code that may raise returns an `Outcome`; code that also changes a state is an `Exec`, a function
-- from the state to the outcome and the state that it leaves.
-- Json: a value as `json.loads` returns it.
-- Config: class `Config`. `RawConfig` is the object before `validate` has tested its types.
-- Address: `_normalized_ip` and `is_loopback`, over `ipaddress.ip_address` (Address/Parse) and
-- `socket.inet_ntop` (Address/Print) for texts without a scope.
-- Socket: class `SocketRecord` and `record_to_dict`. Listener: class `XhttpListener` and
-- `parse_xhttp_listeners`. Transport: `parse_transport_counts`.
-- Candidate: `candidate_kind` and what it calls; Candidate/Rules states the rules apart from it.
-- Netlink: `struct` formats (Bytes), `parse_diag_record` (Record), class `DiagClient` (Client). A
-- datagram is a list of bytes. What the kernel does is a parameter: the datagrams and the faults of
-- `recv` that follow each request, or the exception with which `sock.send` fails, and then nothing is
-- sent. A byte loop runs on the part of its buffer that is left.
-- Worker: `dump_all` and `worker`, over the interface `Kernel` of the calls that leave the process.
-- A run keeps the trace of these calls with their answers, which only the statements read. Worker/Wire
-- has the client in the place of the interface.
-- Patch: `replace_once` and `replace_one_variant` (Edit), the anchors and their replacements (Hub,
-- Queue, Policy, Hysteria, Launch), and `patch_tree` (Tree), over a map from paths to texts and a
-- `Disk` that names the temporary files and says which write fails, and what it leaves.
-- System: what both programs with commands run on: the interface `Platform` of the calls that leave the
-- process, and a state with the files and the trace of the commands with their answers. It has the
-- steps of `atomic_json` and of `atomic_write`, which are the same.
-- Cleaner: the commands of `remnanode-xhttp-clean.py`. Command: the commands with their arguments.
-- Machine: `run`. Proc: `owned_socket_inodes`, `process_cpu_ticks`, `process_rss_mb`. Discover:
-- `docker_info` and the functions that ask the container. Process: `run_worker`, and the branch
-- `_worker` of `main` up to the call of `worker`. Install, Uninstall: `command_install` and
-- `command_uninstall`. Main: the other commands and `main`.
-- Manager: `xray-core-manager.py`. Command: the commands with their arguments. Machine: `run` and
-- `docker`. Files: `atomic_json`, `copy_from_container`. Version: the regular expressions.
-- Settings: `preserved_container_settings`, `load_container`. Info: `current_info`, `core_path`.
-- Process: `running_core_evidence`. Health: `wait_healthy`. RuntimeConfig:
-- `validate_inside_container`. Rollback, Deploy, Build, Ensure: the functions of these names. Main:
-- `main`. A function with a `try` is split at it: what stands before, the `try`, its handler. Reading
-- and Tracing carry an invariant through these functions.
-- Tests: runs at concrete inputs.
--
-- Bounds and fuel
--
-- The loops over a datagram and over the attributes run on fuel, the number of bytes: each round
-- takes at least sixteen or four bytes. The statements about them hold for any such fuel. A number
-- read by `struct` is below 2 ^ 32; a number written is packed modulo its width. The loop of
-- `wait_healthy` has 46 rounds of fuel, for pauses of two seconds in 90 seconds.
--
-- What is not modelled
--
-- Of `remnanode-xhttp-clean.py`: what is printed, `process_cpu_percent` with its floats, the arguments
-- of `main`, and the call of `worker` with listeners whose fields have other types than a text and a
-- number. The Go sources, the installer and the menu. Of `xray-core-manager.py`: directories and their
-- modes, what is printed, and the arguments of `main`; `\d` and `\w` stand for their ASCII
-- characters, and the file lock is a flag of the state, without other processes. An exception
-- carries the fixed part of its message; the whole text is a parameter where a record keeps it. The
-- sequence number is not cut at 2 ^ 32, which `struct.pack` would refuse. The files of the patch are
-- taken as decoded texts that can be read, and the assets as outside of the patched tree.
pub mod Base
pub mod Json
pub mod Config
pub mod Address
pub mod Socket
pub mod Listener
pub mod Transport
pub mod Candidate
pub mod Netlink
pub mod Worker
pub mod Patch
pub mod Tests
pub mod System
pub mod Manager
pub mod Cleaner
