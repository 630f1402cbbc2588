-- ===== src/Cleaner.antt =====
-- remnanode-xhttp-clean.py: the commands of the program, over a system with docker and systemd.
pub mod Command
pub mod Machine
pub mod Proc
pub mod Discover
pub mod Process
pub mod Install
pub mod Uninstall
pub mod Main
