-- ===== src/Base/Text.antt =====
-- Python's texts as lists of code points, with the methods of `str` that the program calls.
use Prim.Native.Nat.{ℕ, ◌+◌}
use Prim.Native.Char.{code}
use Prim.Native.String.{String}
use mathlib.Core.Path.{◌≡◌, refl}
use mathlib.Core.Bool.{Bool, true, false, ◌&&◌, ◌||◌}
use mathlib.Core.List.{List, [], ◌∷◌, ◌++◌, map, reverse}
use native.Mathlib.Omega.{arith}
use remnanode_xhttp_cleaner.Base.Tests.{leb, ◌==◌, if◌then◌else◌}
use remnanode_xhttp_cleaner.Base.Lists.{drop, length}

abbrev pub Text : Type 0
Text = List ℕ

-- A literal of the source.
abbrev pub codes : String → Text
codes String.[] = []
codes (String.◌∷◌ c s) = code c ∷ codes s

-- `a == b`
unfoldable pub text_eq : Text → Text → Bool
text_eq [] [] = true
text_eq (a ∷ s) (b ∷ t) = (a == b) && text_eq s t
text_eq _ _ = false

pub text_eq_sound : (s t : Text) → text_eq s t ≡ true → s ≡ t
unfolding text_eq
text_eq_sound [] [] h = refl
text_eq_sound [] (b ∷ t) h = cc
text_eq_sound (a ∷ s) [] h = cc
text_eq_sound (a ∷ s) (b ∷ t) h = ground (arith, text_eq_sound s t)

pub text_eq_refl : (s : Text) → text_eq s s ≡ true
unfolding text_eq
text_eq_refl [] = refl
text_eq_refl (a ∷ s) = ground (arith, text_eq_refl s)

-- `text.startswith(prefix)`
unfoldable pub starts_with : Text → Text → Bool
starts_with s [] = true
starts_with [] (p ∷ ps) = false
starts_with (c ∷ s) (p ∷ ps) = (c == p) && starts_with s ps

-- `str.isspace` of one character, over all of Unicode
unfoldable pub is_space : ℕ → Bool
is_space c =
    (leb 9 c && leb c 13)
    || (leb 28 c && leb c 32)
    || (c == 0x85)
    || (c == 0xa0)
    || (c == 0x1680)
    || (leb 0x2000 c && leb c 0x200a)
    || (c == 0x2028)
    || (c == 0x2029)
    || (c == 0x202f)
    || (c == 0x205f)
    || (c == 0x3000)

unfoldable pub strip_left : Text → Text
strip_left [] = []
strip_left (c ∷ s) = let rest = strip_left s in if is_space c then rest else c ∷ s

-- `text.strip()`
unfoldable pub strip : Text → Text
unfolding strip_left is_space
strip s = reverse (strip_left (reverse (strip_left s)))

-- `text.lower()` for the ASCII letters. No other character has a lower case that occurs in the
-- names with which the program compares the result.
unfoldable pub lower : Text → Text
lower = map (λ c. if leb b'A' c && leb c b'Z' then c + 32 else c)

pub starts_with_sound : (s p : Text) → starts_with s p ≡ true → s ≡ p ++ drop (length p) s
unfolding starts_with
starts_with_sound s [] h = refl
starts_with_sound [] (b ∷ p) h = cc
starts_with_sound (a ∷ s) (b ∷ p) h = ground (arith, starts_with_sound s p)

pub starts_with-append : (p s : Text) → starts_with (p ++ s) p ≡ true
unfolding starts_with
starts_with-append [] s = refl
starts_with-append (b ∷ p) s = ground (arith, starts_with-append p s)
