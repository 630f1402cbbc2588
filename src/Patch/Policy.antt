-- ===== src/Patch/Policy.antt =====
-- `patched_default_policy` of `xray_patch/patch_xray.py`.
use remnanode_xhttp_cleaner.Base.{[], ◌∷◌, Outcome}
use remnanode_xhttp_cleaner.Base.Text.{Text}
use remnanode_xhttp_cleaner.Patch.Edit.{lines, Variants, replace_one_variant}

abbrev pub default_buffer_variants : Variants
default_buffer_variants =
    (
      (lines ("\t\tdefaultBufferSize = 512 * 1024" ∷ [])),
      (lines (
          "\t\t// A 512 KiB queue per direction retains several GiB on busy"
          ∷ "\t\t// servers with thousands of sessions. 128 KiB preserves batching and"
          ∷ "\t\t// backpressure while bounding XHTTP, raw TCP and gRPC pipe memory."
          ∷ "\t\tdefaultBufferSize = 128 * 1024" ∷ [])),
    )
    ∷ (
      (lines ("\t\t\treturn 512 * 1024" ∷ [])),
      (lines (
          "\t\t\t// Bound the default XHTTP, raw TCP and gRPC pipe memory"
          ∷ "\t\t\t// while preserving Xray's reloadable atomic policy in v26.7+."
          ∷ "\t\t\treturn 128 * 1024" ∷ [])),
    )
    ∷ []

-- The body is that of `replace_one_variant`, written out with the label of its message.
unfoldable pub patched_default_policy : Text → Outcome Text
patched_default_policy source =
    replace_one_variant source default_buffer_variants
      "default per-connection transport pipe budget"
