-- ===== src/Patch/Launch.antt =====
-- `patched_main` and `patched_run` of `xray_patch/patch_xray.py`.
use remnanode_xhttp_cleaner.Base.{[], ◌∷◌, Outcome}
use remnanode_xhttp_cleaner.Base.Text.{Text}
use remnanode_xhttp_cleaner.Patch.Edit.{lines, Change, apply_changes, once}

abbrev pub long_lived_xray_command_memory_optimizer_startup : Change
long_lived_xray_command_memory_optimizer_startup =
    once
      (lines (
        "func main() {" ∷ "\tos.Args = getArgsV4Compatible()" ∷ ""
        ∷ "\tbase.RootCommand.Long = \"Xray is a platform for building proxies.\"" ∷ []))
      (lines (
        "func main() {" ∷ "\tos.Args = getArgsV4Compatible()"
        ∷ "\t// Short-lived commands such as `xray version` must not start the memory"
        ∷ "\t// optimizer or overwrite the running server's shared status file."
        ∷ "\tstartMemoryOptimizerForCommand(os.Args)" ∷ ""
        ∷ "\tbase.RootCommand.Long = \"Xray is a platform for building proxies.\"" ∷ []))
      "long-lived Xray command memory optimizer startup"

unfoldable pub patched_main : Text → Outcome Text
patched_main = apply_changes (long_lived_xray_command_memory_optimizer_startup ∷ [])

abbrev pub config_aware_memory_optimizer_observation : Change
config_aware_memory_optimizer_observation =
    once
      (lines (
        "\tserver, err := core.New(c)" ∷ "\tif err != nil {"
        ∷ "\t\treturn nil, errors.New(\"failed to create server\").Base(err)" ∷ "\t}" ∷ ""
        ∷ "\treturn server, nil" ∷ []))
      (lines (
        "\tserver, err := core.New(c)" ∷ "\tif err != nil {"
        ∷ "\t\treturn nil, errors.New(\"failed to create server\").Base(err)" ∷ "\t}" ∷ ""
        ∷ "\t// Use the exact merged protobuf and effective policy manager. This only"
        ∷ "\t// adjusts memory-maintenance cadence; it never changes connection timers."
        ∷ "\tobserveMemoryOptimizerConfig(c, server)" ∷ "\treturn server, nil" ∷ []))
      "config-aware memory optimizer observation"

unfoldable pub patched_run : Text → Outcome Text
patched_run = apply_changes (config_aware_memory_optimizer_observation ∷ [])
