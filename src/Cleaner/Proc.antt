-- ===== src/Cleaner/Proc.antt =====
-- remnanode-xhttp-clean.py: what the program reads from /proc (`owned_socket_inodes`,
-- `process_cpu_ticks`, `process_rss_mb`). What the kernel answers is an argument.
pub mod Comm
use remnanode_xhttp_cleaner.Base.{
  ℕ, zero, suc, ◌+◌, ◌-◌, ◌/◌, Bool, true, false, ◌&&◌, Option, none, some, List, [], ◌∷◌, ◌==◌,
  leb, length, take, drop, if◌then◌else◌, Outcome, ok, err, bind_ok, Exception, cleaner_error,
  value_error, os_error, index_error,
}
use remnanode_xhttp_cleaner.Base.Int.{ℤ, pos, negsuc}
use remnanode_xhttp_cleaner.Base.Text.{Text, codes, starts_with, is_space}
use remnanode_xhttp_cleaner.Json.{str}
use remnanode_xhttp_cleaner.Listener.{int_of}
use remnanode_xhttp_cleaner.Manager.Process.{splitlines}

-- `n in numbers` of integers, and `set.add`
abbrev pub int_eq : ℤ → ℤ → Bool
int_eq (pos a) (pos b) = a == b
int_eq (negsuc a) (negsuc b) = a == b
int_eq _ _ = false

unfoldable pub has_int : ℤ → List ℤ → Bool
has_int n [] = false
has_int n (m ∷ ms) = if int_eq n m then true else has_int n ms

abbrev pub add_int : ℤ → List ℤ → List ℤ
add_int n numbers = if has_int n numbers then numbers else n ∷ numbers

-- `text.endswith("]")`
unfoldable pub ends_bracket : Text → Bool
ends_bracket [] = false
ends_bracket (c ∷ []) = c == b']'
ends_bracket (c ∷ d ∷ rest) = ends_bracket (d ∷ rest)

abbrev pub is_socket : Text → Bool
is_socket target = starts_with target (codes "socket:[") && ends_bracket target

-- `target[8:-1]`
unfoldable pub inner : Text → Text
inner target = let behind = drop 8 target in take (length behind - 1) behind

abbrev pub add_read : Outcome ℤ → List ℤ → List ℤ
add_read (ok n) result = add_int n result
add_read (err e) result = result

-- One round of the loop over the entries, with what `os.readlink` does.
unfoldable pub add_link : Outcome Text → List ℤ → List ℤ
unfolding has_int starts_with ends_bracket inner int_of
add_link (ok target) result =
    if is_socket target then add_read (int_of (str (inner target))) result else result
add_link (err e) result = result

unfoldable pub link_loop : List (Outcome Text) → List ℤ → List ℤ
unfolding add_link
link_loop [] result = result
link_loop (link ∷ links) result = link_loop links (add_link link result)

-- The argument is what listing the directory gives: the links in it, or an `OSError`.
unfoldable pub owned_socket_inodes : Outcome (List (Outcome Text)) → Outcome (List ℤ)
unfolding link_loop
owned_socket_inodes (ok links) = ok (link_loop links [])
owned_socket_inodes (err (os_error errno)) = err (cleaner_error "Не удалось прочитать")
owned_socket_inodes (err e) = err e

abbrev after_last : ℕ → Text → Option Text → Option Text
after_last c rest (some text) = some text
after_last c rest none = if c == b')' then some rest else none

-- The text behind the last `)`, if there is one
unfoldable pub behind_close : Text → Option Text
behind_close [] = none
behind_close (c ∷ rest) = after_last c rest (behind_close rest)

abbrev begins_word : Text → Bool
begins_word [] = false
begins_word (c ∷ rest) = if is_space c then false else true

abbrev onto_first : ℕ → List Text → List Text
onto_first c [] = (c ∷ []) ∷ []
onto_first c (word ∷ words) = (c ∷ word) ∷ words

-- `text.split()`
unfoldable pub split_words : Text → List Text
unfolding is_space
split_words [] = []
split_words (c ∷ rest) =
    let later = split_words rest in
    if is_space c then later else if begins_word rest then onto_first c later else (c ∷ []) ∷ later

-- `fields[n]`
unfoldable pub item_at : ℕ → List Text → Option Text
item_at n [] = none
item_at zero (word ∷ words) = some word
item_at (suc n) (word ∷ words) = item_at n words

abbrev plus : ℤ → ℤ → ℤ
plus (pos a) (pos b) = pos (a + b)
plus (negsuc a) (negsuc b) = negsuc (a + b + 1)
plus (pos a) (negsuc b) = if leb (b + 1) a then pos (a - (b + 1)) else negsuc (b - a)
plus (negsuc a) (pos b) = if leb (a + 1) b then pos (b - (a + 1)) else negsuc (a - b)

abbrev sum_texts : Option Text → Option Text → Outcome ℤ
sum_texts (some a) (some b) =
    bind_ok (int_of (str a)) (λ m. bind_ok (int_of (str b)) (λ n. ok (plus m n)))
sum_texts _ _ = err (value_error "short /proc stat")

-- `int(fields[11]) + int(fields[12])`, if there are more than twelve fields
unfoldable pub user_and_system : List Text → Outcome ℤ
unfolding item_at int_of
user_and_system words = sum_texts (item_at 11 words) (item_at 12 words)

abbrev ticks_behind : Option Text → Outcome ℤ
ticks_behind none = err (value_error "malformed /proc stat")
ticks_behind (some text) = user_and_system (split_words text)

unfoldable pub process_cpu_ticks : Text → Outcome ℤ
unfolding behind_close split_words user_and_system
process_cpu_ticks stat_line = ticks_behind (behind_close stat_line)

abbrev megabytes : ℤ → ℤ
megabytes (pos n) = pos (n / 1024)
megabytes (negsuc n) = negsuc (n / 1024)

abbrev read_size : Option Text → Outcome ℤ
read_size none = err index_error
read_size (some word) = bind_ok (int_of (str word)) (λ n. ok (megabytes n))

abbrev zero_if_caught : Outcome ℤ → Outcome ℤ
zero_if_caught (err (os_error errno)) = ok (pos 0)
zero_if_caught (err (value_error message)) = ok (pos 0)
zero_if_caught other = other

-- The loop over the lines
unfoldable pub resident_size : List Text → Outcome ℤ
unfolding starts_with split_words item_at int_of
resident_size [] = ok (pos 0)
resident_size (line ∷ lines) =
    let later = resident_size lines in
    if starts_with line (codes "VmRSS:") then read_size (item_at 1 (split_words line)) else later

abbrev size_in : Outcome Text → Outcome ℤ
size_in (ok text) = resident_size (splitlines text)
size_in (err e) = err e

-- The argument is what `read_text` of /proc/PID/status does.
unfoldable pub process_rss_mb : Outcome Text → Outcome ℤ
unfolding resident_size splitlines
process_rss_mb status = zero_if_caught (size_in status)
