-- ===== src/Manager/Build.antt =====
-- `xray-core-manager.py`: `installed_assets` and `clone_and_build`, with
-- `prune_project_build_cache`.
use remnanode_xhttp_cleaner.Base.{
  ℕ, ◌*◌, Bool, true, not, ◌&&◌, ◌||◌, if◌then◌else◌, Option, none, some, List, [], ◌∷◌, ◌++◌, ltb,
  core_manager_error,
}
use remnanode_xhttp_cleaner.Base.Int.{pos}
use remnanode_xhttp_cleaner.Base.Text.{Text, codes, strip, lower, text_eq}
use remnanode_xhttp_cleaner.Base.Exec.{Exec, pure, raise, raise_if, gets, finally, ◌>>=◌, ◌>>◌}
use remnanode_xhttp_cleaner.Json.{Json, int, str, dict, field, end}
use remnanode_xhttp_cleaner.System.{remove_tree}
use remnanode_xhttp_cleaner.Manager.Command.{clone, apply_patch, build_step, xray_repository}
use remnanode_xhttp_cleaner.Manager.Machine.{
  Host, Machine, Content, json, bytes, chmod, run, receive, attempt, read_file, write_file,
  set_file, replace_file, file_digest, is_some,
}
use remnanode_xhttp_cleaner.Manager.Files.{atomic_json, beside, split_name}
use remnanode_xhttp_cleaner.Manager.Version.{patch_id, is_tag_version, go_version}
use remnanode_xhttp_cleaner.Manager.Info.{Info, cache_root}

abbrev required_assets : List Text
required_assets =
    codes "/patch_xray.py"
    ∷ codes "/xhttp_cleaner_reaper.go"
    ∷ codes "/xhttp_cleaner_reaper_test.go"
    ∷ codes "/core_memory_optimizer.go"
    ∷ codes "/core_memory_optimizer_test.go"
    ∷ codes "/hysteria_memory_guard.go"
    ∷ codes "/hysteria_memory_guard_test.go"
    ∷ []

abbrev assets_directory : Option Text → Text
assets_directory none = codes "/usr/local/lib/remnanode-xhttp-clean/xray_patch"
assets_directory (some local) = local

-- `all(path.is_file() for path in required)`
unfoldable pub all_files : Text → List Text → (Text → Option Content) → Bool
all_files directory [] files = true
all_files directory (name ∷ rest) files =
    is_some (files (directory ++ name)) && all_files directory rest files

abbrev mounts : Text → Text → List Text
mounts source output =
    codes "-v"
    ∷ (source ++ codes ":/src")
    ∷ codes "-v"
    ∷ (output ++ codes ":/out")
    ∷ codes "-v"
    ∷ (cache_root ++ codes "/go-mod:/go/pkg/mod")
    ∷ codes "-v"
    ∷ (cache_root ++ codes "/go-build:/root/.cache/go-build")
    ∷ codes "-w"
    ∷ codes "/src"
    ∷ []

abbrev gofmt_arguments : List Text
gofmt_arguments =
    codes "gofmt"
    ∷ codes "-w"
    ∷ codes "transport/internet/splithttp/hub.go"
    ∷ codes "transport/internet/splithttp/upload_queue.go"
    ∷ codes "transport/internet/splithttp/xhttp_cleaner_reaper.go"
    ∷ codes "transport/internet/splithttp/xhttp_cleaner_reaper_test.go"
    ∷ codes "features/policy/policy.go"
    ∷ codes "transport/internet/hysteria/hub.go"
    ∷ codes "transport/internet/hysteria/conn.go"
    ∷ codes "transport/internet/hysteria/xhttp_cleaner_memory_guard.go"
    ∷ codes "transport/internet/hysteria/xhttp_cleaner_memory_guard_test.go"
    ∷ codes "main/main.go"
    ∷ codes "main/run.go"
    ∷ codes "main/xhttp_cleaner_memory_optimizer.go"
    ∷ codes "main/xhttp_cleaner_memory_optimizer_test.go"
    ∷ []

abbrev go_test : List Text → List Text
go_test arguments = codes "go" ∷ codes "test" ∷ arguments

-- The five test runs, in their order.
abbrev test_arguments : List (List Text)
test_arguments =
    go_test (codes "./transport/internet/splithttp" ∷ [])
    ∷ go_test (
        codes "./transport/internet/grpc"
        ∷ codes "./transport/internet/hysteria"
        ∷ codes "./features/policy"
        ∷ codes "./main"
        ∷ [])
    ∷ go_test (
        codes "-race"
        ∷ codes "-run"
        ∷ codes "^TestXHTTPCleaner"
        ∷ codes "./transport/internet/splithttp"
        ∷ [])
    ∷ go_test (codes "-race" ∷ codes "-run" ∷ codes "^TestMemoryOptimizer" ∷ codes "./main" ∷ [])
    ∷ go_test (
        codes "-race"
        ∷ codes "-run"
        ∷ codes "^TestHysteriaCleaner"
        ∷ codes "./transport/internet/hysteria"
        ∷ [])
    ∷ []

-- `build_script`
unfoldable pub build_script : Info → Text
build_script info =
    codes "CGO_ENABLED=0 GOOS=linux GOARCH="
    ++ (info.goarch
        ++ (codes
              " go build -trimpath -buildvcs=false -ldflags='-s -w -X github.com/xtls/xray-core/core.build="
            ++ (patch_id ++ (codes "-" ++ (info.version ++ codes "' -o /out/xray ./main")))))

abbrev build_arguments : Info → List Text
build_arguments info = codes "bash" ∷ codes "-ceu" ∷ build_script info ∷ []

abbrev image_of : Text → Text
image_of version = codes "golang:" ++ (version ++ codes "-bookworm")

-- What a file says as a text.
abbrev text_in : Content → Text
text_in (bytes text) = text
text_in (json value) = []

-- The values of the variable with which the cache is kept
unfoldable pub keeps_cache : Text → Bool
unfolding strip lower text_eq
keeps_cache variable =
    let keep = lower (strip variable) in
    text_eq keep (codes "1")
    || text_eq keep (codes "true")
    || text_eq keep (codes "yes")
    || text_eq keep (codes "on")

module _ {W : Type 0} (h : Host W) where
  unfoldable pub installed_assets : Exec (Machine W) Text
  unfolding all_files
  installed_assets = do
    let assets = assets_directory h.local_assets
    complete ← gets (λ m. all_files assets required_assets m.files)
    raise_if (not complete) (core_manager_error "Xray patch assets are incomplete")
    pure assets

  abbrev with_go_version : Option Text → Exec (Machine W) Text
  with_go_version none =
      raise (core_manager_error "cannot determine the Go toolchain required by this Xray release")
  with_go_version (some version) = pure version

  -- The clone, the patch and the version of Go; `git clone` brings `go.mod`.
  unfoldable pub patched_source : Text → Text → Text → Exec (Machine W) Text
  unfolding run read_file go_version
  patched_source assets tag source = do
    run h (clone tag source)
    receive h (clone tag source) (source ++ codes "/go.mod")
    run h (apply_patch assets source)
    go_mod ← read_file h (source ++ codes "/go.mod")
    with_go_version (go_version (text_in go_mod))

  -- The runs of one list of arguments after the other.
  unfoldable pub run_steps : List Text → Text → List (List Text) → Exec (Machine W) (Unit {0})
  unfolding run
  run_steps volumes image [] = pure tt
  run_steps volumes image (arguments ∷ rest) =
      run h (build_step volumes image arguments) >> run_steps volumes image rest

  -- The size of a file that is there, or 0: both tests refuse it.
  abbrev size_of : Option Content → ℕ
  size_of none = 0
  size_of (some content) = h.size content

  unfoldable pub compile : Info → Text → Text → Text → Exec (Machine W) (Unit {0})
  unfolding run_steps run build_script
  compile info source output image = do
    let volumes = mounts source output
    run_steps volumes image (gofmt_arguments ∷ test_arguments)
    run h (build_step volumes image (build_arguments info))
    receive h (build_step volumes image (build_arguments info)) (output ++ codes "/xray")
    size ← gets (λ m. size_of (m.files (output ++ codes "/xray")))
    raise_if (ltb size (1024 * 1024))
        (core_manager_error "builder did not produce a plausible Xray binary")

  -- `shutil.copy2(built, staging)`, `os.chmod` and `os.replace`
  unfoldable pub publish : Text → Text → Exec (Machine W) (Unit {0})
  unfolding read_file write_file attempt replace_file beside
  publish built destination = do
    content ← read_file h built
    write_file h (beside destination) content
    attempt h chmod (beside destination)
    replace_file h (beside destination) destination

  abbrev build_record : Info → Text → ℕ → Text → Json
  build_record info digest now image = dict (
      field (codes "patch_id") (str patch_id) (
        field (codes "xray_version") (str info.version) (
          field (codes "architecture") (str info.arch) (
            field (codes "sha256") (str digest) (
              field (codes "built_at") (int (pos now)) (
                field (codes "source_repository") (str xray_repository) (
                  field (codes "source_tag") (str (codes "v" ++ info.version))
                    (field (codes "go_image") (str image) end))))))))

  abbrev build_record_path : Text → Text
  build_record_path destination = (split_name destination).0 ++ codes "build.json"

  -- `prune_project_build_cache(CACHE_ROOT / "go-build")`; what it returns decides what is printed.
  unfoldable pub prune_project_build_cache : Exec (Machine W) (Unit {0})
  unfolding remove_tree keeps_cache
  prune_project_build_cache =
      if keeps_cache (h.environment (codes "XHTTP_CLEANER_KEEP_BUILD_CACHE"))
      then pure tt
      else remove_tree h (cache_root ++ codes "/go-build")

  -- The body of the `with` block
  unfoldable pub build_in : Info → Text → Text → Text → Exec (Machine W) (Unit {0})
  unfolding patched_source compile publish file_digest atomic_json split_name
      prune_project_build_cache
  build_in info destination assets workspace = do
    let source = workspace ++ codes "/xray-core"
    let output = workspace ++ codes "/output"
    version ← patched_source assets (codes "v" ++ info.version) source
    compile info source output (image_of version)
    publish (output ++ codes "/xray") destination
    digest ← file_digest h destination
    now ← gets (λ m. h.time m.world)
    atomic_json h (build_record_path destination) (build_record info digest now (image_of version))
    prune_project_build_cache

  -- The temporary directory goes, with the files in it.
  abbrev remove_workspace : Text → Exec (Machine W) (Unit {0})
  remove_workspace workspace =
      set_file h (workspace ++ codes "/xray-core/go.mod") none
      >> set_file h (workspace ++ codes "/output/xray") none

  unfoldable pub clone_and_build : Info → Text → Exec (Machine W) (Unit {0})
  unfolding installed_assets is_tag_version build_in
  clone_and_build info destination = do
    assets ← installed_assets
    raise_if (not (is_tag_version info.version)) (core_manager_error "unsafe source tag")
    workspace ← gets (λ m. h.temporary (codes "xhttp-cleaner-build-") m.world)
    finally (build_in info destination assets workspace) (remove_workspace workspace)
