-- ===== src/Base/Texts.antt =====
-- Text as the list of its characters' code points, with the searches that the program makes.
use Prim.Native.Nat.{ℕ, ◌+◌}
use Prim.Native.Char.{code}
use Prim.Native.String.{String}
use mathlib.Core.Path.{◌≡◌, refl, ap}
use mathlib.Core.Bool.{Bool, true, false, ◌&&◌, ◌||◌}
use mathlib.Core.List.{List, [], ◌∷◌, ◌++◌}
use native.Mathlib.Omega.{arith}
use mathlib.Core.Option.{Option, none, some}
use zbag_app_tauri.Base.Lists.{length, drop}
use zbag_app_tauri.Base.Tests.{◌==◌, leb, if◌then◌else◌}

abbrev pub Text : Type 0
Text = List ℕ

-- The text of a literal.
abbrev pub text : String → Text
text String.[] = []
text (String.◌∷◌ c s) = code c ∷ text s

-- `str::starts_with`, with the prefix first.
unfoldable pub starts_with : Text → Text → Bool
starts_with [] s = true
starts_with (p ∷ ps) [] = false
starts_with (p ∷ ps) (c ∷ s) = p == c && starts_with ps s

-- `str::contains`, with the text first.
unfoldable pub contains : Text → Text → Bool
unfolding starts_with
contains [] n = starts_with n []
contains (c ∷ s) n = starts_with n (c ∷ s) || contains s n

-- `lower.contains(a) || lower.contains(b) || …`.
unfoldable pub contains_any : Text → List Text → Bool
unfolding contains
contains_any s [] = false
contains_any s (n ∷ ns) = contains s n || contains_any s ns

pub starts_with-append : (p s t : Text) → starts_with p s ≡ true → starts_with p (s ++ t) ≡ true
unfolding starts_with
starts_with-append [] s t h = refl
starts_with-append (p ∷ ps) [] t h = cc
starts_with-append (p ∷ ps) (c ∷ s) t h = ground (arith, starts_with-append ps s t)

-- More text after a match, or before it, keeps the match.
pub contains-append_right : (s t n : Text) → contains s n ≡ true → contains (s ++ t) n ≡ true
unfolding contains
contains-append_right [] [] n h = h
contains-append_right [] (c ∷ t) n h = ground (arith, starts_with-append n [] (c ∷ t))
contains-append_right (c ∷ s) t n h =
    ground (arith, starts_with-append n (c ∷ s) t, contains-append_right s t n)

pub contains-append_left : (p s n : Text) → contains s n ≡ true → contains (p ++ s) n ≡ true
unfolding contains
contains-append_left [] s n h = h
contains-append_left (c ∷ p) s n h = ground (arith, contains-append_left p s n h)

pub contains_any-append :
    (p s t : Text) (ns : List Text)
    → contains_any s ns ≡ true
    → contains_any (p ++ (s ++ t)) ns ≡ true
unfolding contains_any
contains_any-append p s t [] h = h
contains_any-append p s t (n ∷ ns) h = ground (
  arith,
  contains-append_right s t n,
  contains-append_left p (s ++ t) n,
  contains_any-append p s t ns,
)

-- `char::is_whitespace`, the White_Space property of Unicode.
unfoldable pub is_whitespace : ℕ → Bool
is_whitespace c =
    (leb 9 c && leb c 13)
    || (c == 32)
    || (c == 0x85)
    || (c == 0xa0)
    || (c == 0x1680)
    || (leb 0x2000 c && leb c 0x200a)
    || (c == 0x2028)
    || (c == 0x2029)
    || (c == 0x202f)
    || (c == 0x205f)
    || (c == 0x3000)

unfoldable pub trim_start : Text → Text
unfolding is_whitespace
trim_start [] = []
trim_start (c ∷ s) = let rest = trim_start s in if is_whitespace c then rest else c ∷ s

abbrev pub cons_unless_blank : ℕ → Text → Text
cons_unless_blank c [] = if is_whitespace c then [] else c ∷ []
cons_unless_blank c (d ∷ s) = c ∷ d ∷ s

unfoldable pub trim_end : Text → Text
unfolding is_whitespace
trim_end [] = []
trim_end (c ∷ s) = cons_unless_blank c (trim_end s)

unfoldable pub trim : Text → Text
unfolding trim_start trim_end
trim s = trim_end (trim_start s)

-- What follows the first occurrence of the pattern: the second half of `str::split_once`.
unfoldable pub after_first : Text → Text → Option Text
unfolding starts_with
after_first pat [] = if starts_with pat [] then some [] else none
after_first pat (c ∷ s) =
    let rest = after_first pat s in
    if starts_with pat (c ∷ s) then some (drop (length pat) (c ∷ s)) else rest

-- `==` on text.
unfoldable pub text_eq : Text → Text → Bool
text_eq [] [] = true
text_eq [] (c ∷ s) = false
text_eq (b ∷ r) [] = false
text_eq (b ∷ r) (c ∷ s) = b == c && text_eq r s

pub text_eq→eq : (r s : Text) → text_eq r s ≡ true → r ≡ s
unfolding text_eq
text_eq→eq [] [] h = refl
text_eq→eq [] (c ∷ s) h = cc
text_eq→eq (b ∷ r) [] h = cc
text_eq→eq (b ∷ r) (c ∷ s) h = ground (arith, text_eq→eq r s)

pub text_eq_refl : (r : Text) → text_eq r r ≡ true
unfolding text_eq
text_eq_refl [] = refl
text_eq_refl (b ∷ r) = ground (arith, text_eq_refl r)

-- `u8::to_ascii_lowercase` on each character.
abbrev pub ascii_lower : ℕ → ℕ
ascii_lower c = if leb 65 c && leb c 90 then c + 32 else c

unfoldable pub ascii_lowercase : Text → Text
ascii_lowercase [] = []
ascii_lowercase (c ∷ s) = ascii_lower c ∷ ascii_lowercase s

pub ascii_lowercase-append :
    (r s : Text) → ascii_lowercase (r ++ s) ≡ ascii_lowercase r ++ ascii_lowercase s
unfolding ascii_lowercase
ascii_lowercase-append [] s = refl
ascii_lowercase-append (c ∷ r) s = ap (◌∷◌ (ascii_lower c)) (ascii_lowercase-append r s)
