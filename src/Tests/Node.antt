-- ===== src/Tests/Node.antt =====
-- A host with one container, on which every command succeeds.
use remnanode_xhttp_cleaner.Base.{
  ℕ, ◌+◌, ◌*◌, Bool, true, false, ◌||◌, Option, none, some, [], ◌++◌, Outcome, ok, if◌then◌else◌,
}
use remnanode_xhttp_cleaner.Base.Int.{pos}
use remnanode_xhttp_cleaner.Base.Text.{Text, codes, text_eq}
use remnanode_xhttp_cleaner.Json.{dict, list, end, item, nil}
use remnanode_xhttp_cleaner.Manager.Command.{
  Command, inspect_running, inspect_health, inspect_id, read_link, core_version, machine_arch,
  dump_config, copy_out, process_scan,
}
use remnanode_xhttp_cleaner.Manager.Machine.{Host, Machine, Completed, Content, bytes}
use remnanode_xhttp_cleaner.Manager.Machine.Keeps.{is_move}
use remnanode_xhttp_cleaner.Manager.Info.{Info}

abbrev pub node : Text
node = codes "remnanode"

abbrev pub core : Text
core = codes "/usr/local/bin/xray"

-- The clock, and whether the core was replaced.
abbrev pub World : Type 0
World = ℕ × Bool

abbrev pub says : Text → Outcome Completed
says text = ok (record { returncode = pos 0; stdout = text; stderr = [] })

abbrev pub version_text : Bool → Text
version_text true = codes "Xray 1.8.4 xhttp-cleaner-v6-1.8.4"
version_text false = codes "Xray 1.8.4 (Xray, Penetrates Everything.)"

-- Every command succeeds. The copy of the new binary in the container shows the marker.
abbrev pub reply : Command → Bool → Text
reply (inspect_running c) replaced = codes "true"
reply (inspect_health c) replaced = codes "none"
reply (inspect_id c) replaced = codes "0123456789abcdef"
reply (read_link c candidate) replaced = core
reply (core_version c binary) replaced =
    version_text (if text_eq binary core then replaced else true)
reply (machine_arch c) replaced = codes "x86_64"
reply (dump_config c) replaced = codes "{}"
reply (process_scan c binary) replaced = codes "12"
reply command replaced = []

abbrev pub answer : Command → World → Outcome Completed × World
answer command w = (says (reply command w.1), (w.0, w.1 || is_move command))

abbrev pub brought : Command → World → Option Content
brought (copy_out c path file) w = some (bytes (codes "stock"))
brought command w = none

abbrev pub host : Host World
host = record {
  run = answer;
  fetched = brought;
  monotonic = λ w. w.0;
  sleep = λ n w. (w.0 + 1000 * n, w.1);
  time = λ w. w.0;
  is_root = true;
  environment = λ name. [];
  which = λ name w. true;
  loads = λ text. some (list (item (dict end) nil));
  json_eq = λ a b. true;
  sha256 = λ content. codes "digest";
  str_of = λ e w. codes "failed";
  size = λ content. 2000000;
  fault = λ step path w. none;
  left = λ path w. none;
  temporary = λ path w. path ++ codes ".tmp";
  pid = 7;
  local_assets = none;
  python = codes "/usr/bin/python3";
}

abbrev pub at_start : Bool → Machine World
at_start replaced = record {
  world = (0, replaced);
  files = λ path. some (bytes (codes "content"));
  locked = false;
  trace = [];
}

abbrev pub stock_info : Info
stock_info = record {
  binary = core;
  statement = version_text false;
  version = codes "1.8.4";
  goarch = codes "amd64";
  arch = codes "amd64";
  patched = false;
  cleaner_patch = [];
  container_id = codes "0123456789abcdef";
}

abbrev pub built : Text
built = codes "/artifact"
