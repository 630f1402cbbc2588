-- ===== src/Manager/Version.antt =====
-- `xray-core-manager.py`: `parse_version`, `normalize_arch`, the marker of the patch in a version
-- statement, and the other regular expressions. `\d` and `\w` are read as their ASCII characters.
pub mod Tags
use remnanode_xhttp_cleaner.Base.{
  ℕ, zero, suc, ◌+◌, Bool, true, false, not, ◌&&◌, ◌||◌, Option, none, some, List, [], ◌∷◌, ◌++◌,
  leb, ◌==◌, if◌then◌else◌, Outcome, ok, err, core_manager_error, length, drop,
}
use remnanode_xhttp_cleaner.Base.Text.{
  Text, codes, text_eq, starts_with, is_space, strip, strip_left,
}

-- `\d` and `\w`
unfoldable pub is_digit : ℕ → Bool
is_digit c = leb b'0' c && leb c b'9'

unfoldable pub is_word : ℕ → Bool
unfolding is_digit
is_word c = is_digit c || (leb b'A' c && leb c b'Z') || (leb b'a' c && leb c b'z') || (c == b'_')

-- The longest run of digits, and what is left.
unfoldable pub span_digits : Text → Text × Text
unfolding is_digit
span_digits [] = ([], [])
span_digits (c ∷ rest) =
    let (digits, left) = span_digits rest in
    if is_digit c then (c ∷ digits, left) else ([], c ∷ rest)

-- `\d+`, which takes all the digits: no expression here goes on with a digit.
abbrev pub not_empty : Text × Text → Option (Text × Text)
not_empty ([], left) = none
not_empty (d ∷ digits, left) = some (d ∷ digits, left)

unfoldable pub number : Text → Option (Text × Text)
unfolding span_digits
number text = not_empty (span_digits text)

-- A literal.
unfoldable pub literal : Text → Text → Option Text
unfolding starts_with
literal word text = if starts_with text word then some (drop (length word) text) else none

infixl 5 ◌>>=◌
abbrev pub ◌>>=◌ {ℓ κ} : {A : Type ℓ} {B : Type κ} → Option A → (A → Option B) → Option B
none >>= f = none
some a >>= f = f a

-- `\b` behind a word character
unfoldable pub at_boundary : Text → Bool
unfolding is_word
at_boundary [] = true
at_boundary (c ∷ rest) = not (is_word c)

abbrev pub when_boundary : Text → Text → Option Text
when_boundary value left = if at_boundary left then some value else none

-- `\d+\.\d+\.\d+`
unfoldable pub dotted : Text → Option (Text × Text)
unfolding number literal
dotted text = do
  (major, text1) ← number text
  text2 ← literal (codes ".") text1
  (minor, text3) ← number text2
  text4 ← literal (codes ".") text3
  (patch, text5) ← number text4
  some (major ++ (codes "." ++ (minor ++ (codes "." ++ patch))), text5)

abbrev pub spaces : Text → Option Text
spaces [] = none
spaces (c ∷ rest) = if is_space c then some (strip_left rest) else none

-- `Xray\s+(\d+\.\d+\.\d+)\b`, from the start of the text
unfoldable pub version_here : Text → Option Text
unfolding literal dotted at_boundary strip_left is_space
version_here text = do
  text1 ← literal (codes "Xray") text
  text2 ← spaces text1
  (value, text3) ← dotted text2
  when_boundary value text3

abbrev pub or_else : Option Text → Option Text → Option Text
or_else none second = second
or_else (some a) second = some a

-- The expression at each start of a line, from the first; `fresh` says whether the text is one.
unfoldable pub search_lines : (Text → Option Text) → Bool → Text → Option Text
search_lines match_here fresh [] = if fresh then match_here [] else none
search_lines match_here fresh (c ∷ rest) =
    let later = search_lines match_here (c == 10) rest in
    or_else (if fresh then match_here (c ∷ rest) else none) later

abbrev pub or_unparsed : Option Text → Outcome Text
or_unparsed none = err (core_manager_error "cannot parse Xray version")
or_unparsed (some version) = ok version

unfoldable pub parse_version : Text → Outcome Text
unfolding search_lines version_here
parse_version statement = or_unparsed (search_lines version_here true statement)

-- `normalize_arch`, the two names of the architecture
unfoldable pub normalize_arch : Text → Outcome (Text × Text)
unfolding strip text_eq
normalize_arch raw =
    let name = strip raw in
    if text_eq name (codes "x86_64") || text_eq name (codes "amd64")
    then ok (codes "amd64", codes "amd64")
    else if text_eq name (codes "aarch64") || text_eq name (codes "arm64")
    then ok (codes "arm64", codes "arm64")
    else err (core_manager_error "unsupported container architecture")

abbrev pub patch_id : Text
patch_id = codes "xhttp-cleaner-v6"

-- `part in text`
unfoldable pub occurs : Text → Text → Bool
unfolding starts_with
occurs part [] = starts_with [] part
occurs part (c ∷ rest) = starts_with (c ∷ rest) part || occurs part rest

-- `xhttp-cleaner-v\d+\b`, from the start of the text
unfoldable pub marker_here : Text → Option Text
unfolding literal number at_boundary
marker_here text = do
  text1 ← literal (codes "xhttp-cleaner-v") text
  (digits, text2) ← number text1
  when_boundary (codes "xhttp-cleaner-v" ++ digits) text2

-- `PATCH_MARKER_RE.search`; `inner` says whether a word character stands before the text.
unfoldable pub search_marker : Bool → Text → Option Text
unfolding marker_here is_word
search_marker inner [] = none
search_marker inner (c ∷ rest) =
    let later = search_marker (is_word c) rest in
    or_else (if inner then none else marker_here (c ∷ rest)) later

abbrev or_empty : Option Text → Text
or_empty none = []
or_empty (some marker) = marker

-- `marker_match.group(0) if marker_match else ""`
unfoldable pub cleaner_patch : Text → Text
unfolding search_marker
cleaner_patch statement = or_empty (search_marker false statement)

-- `[A-Za-z0-9][A-Za-z0-9_.-]*`
abbrev is_name_start : ℕ → Bool
is_name_start c = is_word c && not (c == b'_')

all_name : Text → Bool
all_name [] = true
all_name (c ∷ rest) = (is_word c || (c == b'.') || (c == b'-')) && all_name rest

unfoldable pub is_container_name : Text → Bool
unfolding is_word all_name
is_container_name [] = false
is_container_name (c ∷ rest) = is_name_start c && all_name rest

-- `/[A-Za-z0-9_./+-]+`
all_path : Text → Bool
all_path [] = true
all_path (c ∷ rest) =
    (is_word c || (c == b'.') || (c == b'/') || (c == b'+') || (c == b'-')) && all_path rest

unfoldable pub is_core_path : Text → Bool
unfolding is_word all_path
is_core_path (slash ∷ c ∷ rest) = (slash == b'/') && all_path (c ∷ rest)
is_core_path _ = false

-- `v\d+\.\d+\.\d+` as a whole
abbrev pub is_end : Option (Text × Text) → Bool
is_end (some (value, [])) = true
is_end _ = false

unfoldable pub is_tag_version : Text → Bool
unfolding dotted
is_tag_version version = is_end (dotted version)

-- `\s*$`: the end of the text or a line feed, with nothing but white space before it
unfoldable pub at_line_end : Text → Bool
unfolding is_space
at_line_end [] = true
at_line_end (c ∷ rest) = (c == 10) || (is_space c && at_line_end rest)

-- `(?:\.\d+)?`
abbrev third_number : Text → Option (Text × Text)
third_number text = do (patch, left) ← (literal (codes ".") text >>= number); some (patch, left)

abbrev with_third : Text → Text → Option (Text × Text) → Text × Text
with_third value text none = (value, text)
with_third value text (some (patch, left)) = (value ++ (codes "." ++ patch), left)

abbrev when_line_end : Text × Text → Option Text
when_line_end (value, left) = if at_line_end left then some value else none

-- `go\s+(\d+\.\d+(?:\.\d+)?)\s*$`, from the start of the text
unfoldable pub go_version_here : Text → Option Text
unfolding literal number at_line_end strip_left is_space
go_version_here text = do
  text1 ← literal (codes "go") text
  text2 ← spaces text1
  (major, text3) ← number text2
  text4 ← literal (codes ".") text3
  (minor, text5) ← number text4
  let value = major ++ (codes "." ++ minor)
  when_line_end (with_third value text5 (third_number text5))

unfoldable pub go_version : Text → Option Text
unfolding search_lines go_version_here
go_version go_mod = search_lines go_version_here true go_mod
