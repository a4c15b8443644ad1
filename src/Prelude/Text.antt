-- ===== src/Prelude/Text.antt =====
-- Rust's tests on text that the validators use: `trim`, the classes of characters, and `matches!` on
-- literals. A text is the native `String`; `len` counts its bytes and `count` its characters.
use Prim.Native.Char.{Char, code}
use Prim.Native.String.{String, len, slice}
use Prim.Native.Nat.{ℕ, ◌+◌}
use mathlib.Core.Option.{Option, none, some}
use text.Mathlib.Text.{◌==◌ as str_eq, starts_with}
use mathlib.Core.Bool.{Bool, true, false, ◌&&◌, ◌||◌}
use mathlib.Core.List.{List, [], ◌∷◌}
use honey.Prelude.Tests.{leb, ◌==◌, if◌then◌else◌}

abbrev pub within : ℕ → ℕ → ℕ → Bool
within low high n = leb low n && leb n high

-- `char::is_whitespace`: the Unicode property White_Space.
abbrev pub is_whitespace : ℕ → Bool
is_whitespace c =
    within 9 13 c
    || (c == 32)
    || (c == 133)
    || (c == 160)
    || (c == 5760)
    || within 8192 8202 c
    || (c == 8232)
    || (c == 8233)
    || (c == 8239)
    || (c == 8287)
    || (c == 12288)

abbrev pub is_ascii_digit : ℕ → Bool
is_ascii_digit c = within 48 57 c

abbrev pub is_ascii_alphabetic : ℕ → Bool
is_ascii_alphabetic c = within 65 90 c || within 97 122 c

abbrev pub is_ascii_alphanumeric : ℕ → Bool
is_ascii_alphanumeric c = is_ascii_alphabetic c || is_ascii_digit c

abbrev pub is_ascii_hexdigit : ℕ → Bool
is_ascii_hexdigit c = is_ascii_digit c || within 65 70 c || within 97 102 c

unfoldable pub is_empty : String → Bool
is_empty String.[] = true
is_empty (String.◌∷◌ c s) = false

unfoldable pub trim_start : String → String
trim_start String.[] = String.[]
trim_start (String.◌∷◌ c s) =
    let rest = trim_start s in if is_whitespace (code c) then rest else String.◌∷◌ c s

unfoldable pub trim_end : String → String
unfolding is_empty
trim_end String.[] = String.[]
trim_end (String.◌∷◌ c s) =
    let rest = trim_end s in
    if is_empty rest && is_whitespace (code c) then String.[] else String.◌∷◌ c rest

unfoldable pub trim : String → String
trim s = trim_start (trim_end s)

-- A test that holds of every character. The tests in use fail on every character past ASCII, so that
-- they hold of all bytes of the UTF-8 exactly if they hold of all characters.
unfoldable pub chars_all : (ℕ → Bool) → String → Bool
chars_all p String.[] = true
chars_all p (String.◌∷◌ c s) = p (code c) && chars_all p s

-- `matches!(s, "a" | "b" | …)`
unfoldable pub one_of : String → List String → Bool
one_of s [] = false
one_of s (t ∷ ts) = str_eq s t || one_of s ts

-- `contains`
unfoldable pub contains : String → String → Bool
unfolding is_empty
contains String.[] p = is_empty p
contains (String.◌∷◌ c s) p = starts_with (String.◌∷◌ c s) p || contains s p

-- `ends_with`
unfoldable pub ends_with : String → String → Bool
unfolding is_empty
ends_with String.[] p = is_empty p
ends_with (String.◌∷◌ c s) p = str_eq (String.◌∷◌ c s) p || ends_with s p

-- `strip_prefix`
unfoldable pub strip_prefix : String → String → Option String
strip_prefix s p = if starts_with s p then some (slice s (len p) (len s)) else none

abbrev push_left : Char → Option (String × String) → Option (String × String)
push_left c none = none
push_left c (some (a, b)) = some (String.◌∷◌ c a, b)

-- `split_once` at a character, given by its number
unfoldable pub split_once : ℕ → String → Option (String × String)
split_once d String.[] = none
split_once d (String.◌∷◌ c s) =
    let rest = push_left c (split_once d s) in if code c == d then some (String.[], s) else rest

-- `trim_start_matches` of one character
unfoldable pub trim_start_matches : ℕ → String → String
trim_start_matches d String.[] = String.[]
trim_start_matches d (String.◌∷◌ c s) =
    let rest = trim_start_matches d s in if code c == d then rest else String.◌∷◌ c s

abbrev pub to_ascii_lowercase : ℕ → ℕ
to_ascii_lowercase c = if within 65 90 c then c + 32 else c

unfoldable pub eq_ignore_ascii_case : String → String → Bool
eq_ignore_ascii_case String.[] String.[] = true
eq_ignore_ascii_case String.[] (String.◌∷◌ d t) = false
eq_ignore_ascii_case (String.◌∷◌ c s) String.[] = false
eq_ignore_ascii_case (String.◌∷◌ c s) (String.◌∷◌ d t) =
    (to_ascii_lowercase (code c) == to_ascii_lowercase (code d)) && eq_ignore_ascii_case s t
