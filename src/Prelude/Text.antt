-- ===== src/Prelude/Text.antt =====
-- Python's operations on texts that the program uses.
use Prim.Native.Nat.{ℕ}
use Prim.Native.Char.{Char, code}
use mathlib.Core.Path.{◌≡◌, refl}
use Prim.Native.String.{String, count, compare, ◌++◌ as str_append}
use text.Mathlib.Text.{is_le}
use mathlib.Core.Bool.{Bool, true, ◌&&◌}
use mathlib.Core.Option.{Option, none, some}
use mathlib.Core.List.{List, [], ◌∷◌}
use rmt_platform.Prelude.Tests.{nat_beq, any_of, leb, if◌then◌else◌}
use rmt_platform.Prelude.Equality.{◌==◌, string_eq}

-- `bool(text)` of a text that may be `None`, negated.
abbrev pub falsy : Option String → Bool
falsy none = true
falsy (some s) = s == ""

unfoldable pub translate_char : String → String → Char → Char
translate_char (String.◌∷◌ u us) (String.◌∷◌ l ls) c =
    if nat_beq (code u) (code c) then l else translate_char us ls c
translate_char _ _ c = c

unfoldable pub map_chars : (Char → Char) → String → String
map_chars f String.[] = String.[]
map_chars f (String.◌∷◌ c s) = String.◌∷◌ (f c) (map_chars f s)

-- `text.lower()`, on the letters of ASCII.
unfoldable pub lower : String → String
unfolding translate_char map_chars
lower = map_chars (translate_char "ABCDEFGHIJKLMNOPQRSTUVWXYZ" "abcdefghijklmnopqrstuvwxyz")

-- `len(text)`
abbrev pub text_length : String → ℕ
text_length s = count s

-- `s <= t`, by code points.
abbrev pub text_leb : String → String → Bool
text_leb s t = is_le (compare s t)

-- `"".join(texts)`
abbrev pub join : List String → String
join [] = ""
join (s ∷ ss) = str_append s (join ss)

-- `c.isspace()`: the white space of Unicode.
unfoldable pub is_space : Char → Bool
is_space c =
    let n = code c in
    any_of (
      (leb 9 n && leb n 13)
      ∷ (leb 28 n && leb n 32)
      ∷ nat_beq n 133
      ∷ nat_beq n 160
      ∷ nat_beq n 5760
      ∷ (leb 8192 n && leb n 8202)
      ∷ nat_beq n 8232
      ∷ nat_beq n 8233
      ∷ nat_beq n 8239
      ∷ nat_beq n 8287
      ∷ nat_beq n 12288
      ∷ [])

unfoldable pub strip_left : String → String
strip_left String.[] = ""
strip_left (String.◌∷◌ c s) = let rest = strip_left s in if is_space c then rest else String.◌∷◌ c s

unfoldable pub strip_right : String → String
strip_right String.[] = ""
strip_right (String.◌∷◌ c s) =
    let rest = strip_right s in if is_space c && rest == "" then "" else String.◌∷◌ c rest

-- `text.strip()`
unfoldable pub strip : String → String
strip s = strip_right (strip_left s)

stripped : strip " a b \t" ≡ "a b"
unfolding strip strip_left strip_right is_space
stripped = refl
