-- ===== src/Cleaner/Proc/Comm.antt =====
-- `process_cpu_ticks`: the line of /proc/PID/stat.
use remnanode_xhttp_cleaner.Base.{
  ℕ, suc, ◌+◌, ◌≡◌, refl, subst, false, ok, length, none, some, List, [], ◌∷◌, ◌++◌, ap, ◌∙◌, All,
  ◌==◌,
}
use remnanode_xhttp_cleaner.Base.Text.{Text, is_space}
use remnanode_xhttp_cleaner.Base.Int.{pos}
use remnanode_xhttp_cleaner.Json.{str}
use remnanode_xhttp_cleaner.Listener.{int_of}
use remnanode_xhttp_cleaner.Cleaner.Proc.{
  item_at, behind_close, split_words, user_and_system, process_cpu_ticks,
}

-- A character of a field: no white space, and not the closing bracket.
abbrev pub Plain : ℕ → Type 0
Plain c = (is_space c ≡ false) × ((c == b')') ≡ false)

-- A field is a character with more characters behind it.
abbrev pub Field : Type 0
Field = ℕ × Text

abbrev pub IsField : Field → Type 0
IsField f = Plain f.0 × All Plain f.1

abbrev pub word : Field → Text
word f = f.0 ∷ f.1

abbrev pub words : List Field → List Text
words [] = []
words (f ∷ fs) = word f ∷ words fs

-- The fields, each behind a space.
abbrev pub spaced : List Field → Text
spaced [] = []
spaced (f ∷ fs) = b' ' ∷ f.0 ∷ f.1 ++ spaced fs

behind_close-none :
    (s t : Text) → All Plain s → behind_close t ≡ none → behind_close (s ++ t) ≡ none
unfolding behind_close
behind_close-none [] t p e = e
behind_close-none (c ∷ s) t p e = rw (behind_close-none s t p.1 e, p.0.1)

behind_close-spaced : (fs : List Field) → All IsField fs → behind_close (spaced fs) ≡ none
unfolding behind_close
behind_close-spaced [] p = refl
behind_close-spaced (f ∷ fs) p =
    rw (behind_close-none f.1 (spaced fs) p.0.1 (behind_close-spaced fs p.1), p.0.0.1)

behind_close-close : (s t : Text) → behind_close t ≡ none → behind_close (s ++ b')' ∷ t) ≡ some t
unfolding behind_close
behind_close-close [] t e = rw e
behind_close-close (c ∷ s) t e = rw (behind_close-close s t e)

split_words-space : (t : Text) → split_words (b' ' ∷ t) ≡ split_words t
unfolding split_words is_space
split_words-space t = refl

split_words-end : (c : ℕ) → is_space c ≡ false → split_words (c ∷ []) ≡ (c ∷ []) ∷ []
unfolding split_words
split_words-end c e = rw e

split_words-last :
    (c : ℕ) (t : Text)
    → is_space c ≡ false
    → split_words (c ∷ b' ' ∷ t) ≡ (c ∷ []) ∷ split_words (b' ' ∷ t)
unfolding split_words
split_words-last c t e = rw e

split_words-more :
    (c d : ℕ) (t : Text) (first : Text) (more : List Text)
    → is_space c ≡ false
    → is_space d ≡ false
    → split_words (d ∷ t) ≡ first ∷ more
    → split_words (c ∷ d ∷ t) ≡ (c ∷ first) ∷ more
unfolding split_words
split_words-more c d t first more e f h = rw (e, h, f)

-- A word with fields behind it.
split_words-spaced :
    (c : ℕ) (s : Text) (fs : List Field)
    → IsField (c, s)
    → All IsField fs
    → split_words (c ∷ s ++ spaced fs) ≡ (c ∷ s) ∷ words fs
split_words-spaced c [] [] p q = split_words-end c p.0.0
split_words-spaced c [] (f ∷ fs) p q =
    split_words-last c (f.0 ∷ f.1 ++ spaced fs) p.0.0
    ∙ ap (◌∷◌ (c ∷ [])) (split_words-space _ ∙ split_words-spaced f.0 f.1 fs q.0 q.1)
split_words-spaced c (d ∷ s) fs p q =
    split_words-more c d (s ++ spaced fs) (d ∷ s) (words fs) p.0.0 p.1.0.0
      (split_words-spaced d s fs (p.1.0, p.1.1) q)

split_fields : (fs : List Field) → All IsField fs → split_words (spaced fs) ≡ words fs
unfolding split_words
split_fields [] q = refl
split_fields (f ∷ fs) q =
    split_words-space (f.0 ∷ f.1 ++ spaced fs) ∙ split_words-spaced f.0 f.1 fs q.0 q.1

fields_of_line :
    (start comm : Text) (fs : List Field)
    → All IsField fs
    → process_cpu_ticks (start ++ b'(' ∷ comm ++ b')' ∷ spaced fs) ≡ user_and_system (words fs)
unfolding process_cpu_ticks
fields_of_line start comm fs q = rw (
  behind_close-close (start ++ b'(' ∷ comm) (spaced fs) (behind_close-spaced fs q),
  split_fields fs q,
)

item_at-length :
    (before after : List Field) (f : Field)
    → item_at (length before) (words (before ++ f ∷ after)) ≡ some (word f)
unfolding item_at
item_at-length [] after f = refl
item_at-length (b ∷ before) after f = item_at-length before after f

item_at-next :
    (before after : List Field) (f g : Field)
    → item_at (suc (length before)) (words (before ++ f ∷ g ∷ after)) ≡ some (word g)
unfolding item_at
item_at-next [] after f g = refl
item_at-next (b ∷ before) after f g = item_at-next before after f g

-- The name of the process in brackets may have spaces and brackets itself: if eleven fields follow it,
-- and then one that reads as the number `a` and one that reads as `b`, `process_cpu_ticks` returns
-- `a + b`, where the fields have neither white space nor a closing bracket.
pub process_cpu_ticks_comm :
    (start comm : Text) (before after : List Field) (utime stime : Field) (a b : ℕ)
    → length before ≡ 11
    → All IsField (before ++ utime ∷ stime ∷ after)
    → int_of (str (word utime)) ≡ ok (pos a)
    → int_of (str (word stime)) ≡ ok (pos b)
    → process_cpu_ticks (start ++ b'(' ∷ comm ++ b')' ∷ spaced (before ++ utime ∷ stime ∷ after))
      ≡ ok (pos (a + b))
unfolding user_and_system
process_cpu_ticks_comm start comm before after utime stime a b eleven plain reads_a reads_b =
    fields_of_line start comm (before ++ utime ∷ stime ∷ after) plain
    ∙ rw (first_at, second_at, reads_a, reads_b)
  where
    first_at : item_at 11 (words (before ++ utime ∷ stime ∷ after)) ≡ some (word utime)
    first_at =
        subst (λ n. item_at n (words (before ++ utime ∷ stime ∷ after)) ≡ some (word utime)) eleven
          (item_at-length before (stime ∷ after) utime)

    second_at : item_at 12 (words (before ++ utime ∷ stime ∷ after)) ≡ some (word stime)
    second_at =
        subst (λ n. item_at (suc n) (words (before ++ utime ∷ stime ∷ after)) ≡ some (word stime))
          eleven (item_at-next before after utime stime)
