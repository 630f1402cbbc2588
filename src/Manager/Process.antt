-- ===== src/Manager/Process.antt =====
-- `xray-core-manager.py`: `top_has_core_process` and `running_core_evidence`.
use remnanode_xhttp_cleaner.Base.{
  ℕ, Bool, true, false, not, ◌&&◌, ◌||◌, List, [], ◌∷◌, leb, ◌==◌, if◌then◌else◌,
}
use remnanode_xhttp_cleaner.Base.Text.{Text, codes, text_eq, is_space, strip, strip_left, lower}
use remnanode_xhttp_cleaner.Base.Exec.{Exec, pure, ◌>>=◌}
use remnanode_xhttp_cleaner.Manager.Command.{process_scan, process_table}
use remnanode_xhttp_cleaner.Manager.Machine.{Host, Machine, Completed, call, succeeded}
use remnanode_xhttp_cleaner.Manager.Version.{occurs}

-- The characters at which `str.splitlines` ends a line
unfoldable pub is_line_break : ℕ → Bool
is_line_break c =
    (leb 10 c && leb c 13)
    || (leb 28 c && leb c 30)
    || (c == 0x85)
    || (c == 0x2028)
    || (c == 0x2029)

abbrev starts_line_feed : Text → Bool
starts_line_feed [] = false
starts_line_feed (c ∷ rest) = c == 10

abbrev cons_first : ℕ → List Text → List Text
cons_first c [] = (c ∷ []) ∷ []
cons_first c (line ∷ lines) = (c ∷ line) ∷ lines

-- `text.splitlines()`: a carriage return and the line feed behind it are one end, and an end behind
-- the last line opens no other.
unfoldable pub splitlines : Text → List Text
unfolding is_line_break
splitlines [] = []
splitlines (c ∷ rest) =
    let later = splitlines rest in
    if (c == 13) && starts_line_feed rest
    then later
    else if is_line_break c
    then [] ∷ later
    else cons_first c later

-- The characters up to the first white space, and the rest.
unfoldable pub span_word : Text → Text × Text
unfolding is_space
span_word [] = ([], [])
span_word (c ∷ rest) =
    let (word, left) = span_word rest in if is_space c then ([], c ∷ rest) else (c ∷ word, left)

-- The second and the third item of `text.split(None, 2)`, or the empty text where there is none.
unfoldable pub second_field : Text → Text
unfolding span_word strip_left
second_field text = (span_word (strip_left (span_word (strip_left text)).1)).0

unfoldable pub third_field : Text → Text
unfolding span_word strip_left
third_field text = strip_left (span_word (strip_left (span_word (strip_left text)).1)).1

unfoldable pub is_core_name : Text → Bool
unfolding text_eq
is_core_name command =
    text_eq command (codes "rw-core")
    || text_eq command (codes "rwcore")
    || text_eq command (codes "xray")

-- The test on one line
unfoldable pub is_core_line : Text → Text → Bool
unfolding lower second_field third_field is_core_name occurs
is_core_line binary line =
    let lowered = lower line in
    is_core_name (second_field lowered) || occurs (lower binary) (third_field lowered)

unfoldable pub any_core_line : Text → List Text → Bool
any_core_line binary [] = false
any_core_line binary (line ∷ lines) = is_core_line binary line || any_core_line binary lines

-- `lines[1:]`
unfoldable pub behind_first : List Text → List Text
behind_first [] = []
behind_first (line ∷ lines) = lines

unfoldable pub top_has_core_process : Text → Text → Bool
unfolding splitlines any_core_line behind_first
top_has_core_process output binary = any_core_line binary (behind_first (splitlines output))

abbrev pub is_empty : Text → Bool
is_empty [] = true
is_empty (c ∷ rest) = false

module _ {W : Type 0} (h : Host W) where
  -- The fallback, and the result
  abbrev table_evidence : Completed → Text → Text
  table_evidence top binary =
      if succeeded top && top_has_core_process top.stdout binary
      then codes "docker-top-match"
      else []

  unfoldable pub running_core_evidence : Text → Text → Exec (Machine W) Text
  unfolding strip top_has_core_process
  running_core_evidence container binary = do
    scan ← call h (process_scan container binary)
    let evidence = strip scan.stdout
    if succeeded scan && not (is_empty evidence)
        then pure evidence
        else (do top ← call h (process_table container); pure (table_evidence top binary))
