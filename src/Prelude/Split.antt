-- ===== src/Prelude/Split.antt =====
-- Lower case, and the parts of a text: `to_ascii_lowercase`, `split`, `lines` and `split_whitespace`.
use Prim.Native.Nat.{ℕ, ◌-◌}
use Prim.Native.Char.{Char, code}
use Prim.Native.String.{String, char_at}
use mathlib.Core.Bool.{false}
use mathlib.Core.List.{List, [], ◌∷◌}
use honey.Prelude.Tests.{if◌then◌else◌, ◌==◌}
use honey.Prelude.Text.{within, is_whitespace, is_empty}

abbrev lower_char : Char → Char
lower_char c =
    if within 65 90 (code c) then char_at "abcdefghijklmnopqrstuvwxyz" (code c - 65) else c

unfoldable pub to_lower : String → String
to_lower String.[] = String.[]
to_lower (String.◌∷◌ c s) = String.◌∷◌ (lower_char c) (to_lower s)

abbrev push_first : Char → List String → List String
push_first c [] = String.◌∷◌ c String.[] ∷ []
push_first c (s ∷ rest) = String.◌∷◌ c s ∷ rest

-- `split` at a character, given by its number: one part more than there are such characters.
unfoldable pub split_on : ℕ → String → List String
split_on d String.[] = String.[] ∷ []
split_on d (String.◌∷◌ c s) =
    let rest = split_on d s in if code c == d then String.[] ∷ rest else push_first c rest

-- A `\r` at the end of a line goes with the line's end.
unfoldable pub drop_return : String → String
unfolding is_empty
drop_return String.[] = String.[]
drop_return (String.◌∷◌ c s) =
    let rest = String.◌∷◌ c (drop_return s) in
    let last = if is_empty s then code c == 13 else false in if last then String.[] else rest

-- The last line needs no end.
abbrev line_list : List String → List String
line_list [] = []
line_list (s ∷ []) = if is_empty s then [] else s ∷ []
line_list (s ∷ t ∷ rest) = drop_return s ∷ line_list (t ∷ rest)

unfoldable pub lines : String → List String
unfolding split_on drop_return is_empty
lines s = line_list (split_on 10 s)

abbrev keep_nonempty : List String → List String
keep_nonempty [] = []
keep_nonempty (s ∷ rest) = let kept = keep_nonempty rest in if is_empty s then kept else s ∷ kept

-- The parts between white space, empty ones too.
unfoldable pub split_spaces : String → List String
split_spaces String.[] = String.[] ∷ []
split_spaces (String.◌∷◌ c s) =
    let rest = split_spaces s in
    if is_whitespace (code c) then String.[] ∷ rest else push_first c rest

unfoldable pub split_whitespace : String → List String
unfolding split_spaces is_empty
split_whitespace s = keep_nonempty (split_spaces s)
