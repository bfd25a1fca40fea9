-- ===== src/Prelude/Text.antt =====
-- The JavaScript string methods that the program uses, over the characters of a text.
use Prim.Native.Nat.{ℕ, zero, suc}
use Prim.Native.Char.{Char, code}
use Prim.Native.String.{String, [], ◌∷◌}
use mathlib.Core.Bool.{Bool, true, false, ◌&&◌}
use mathlib.Core.Option
use mathlib.Core.Option.{Option, none, some}
use augmented_finance_protoc.Prelude.Tests.{eqb, if◌then◌else◌}

-- `String.length`, for texts whose characters are one UTF-16 unit each.
abbrev pub str_length : String → ℕ
str_length [] = 0
str_length (c ∷ s) = suc (str_length s)

-- `s.indexOf(c)` for a one-character text `c`; -1 is `none`.
unfoldable pub index_of : ℕ → String → Option ℕ
index_of k [] = none
index_of k (c ∷ s) =
    let rest = index_of k s in if eqb (code c) k then some 0 else Option.map suc rest

-- `s.startsWith(m)`
unfoldable pub starts_with : String → String → Bool
starts_with s [] = true
starts_with [] (d ∷ m) = false
starts_with (c ∷ s) (d ∷ m) = eqb (code c) (code d) && starts_with s m

-- `s.indexOf(m)`
unfoldable pub index_of_text : String → String → Option ℕ
unfolding starts_with
index_of_text m [] = if starts_with [] m then some 0 else none
index_of_text m (c ∷ s) =
    let rest = index_of_text m s in if starts_with (c ∷ s) m then some 0 else Option.map suc rest

-- `s.substring(0, n)` and `s.substring(n)`
unfoldable pub str_take : ℕ → String → String
str_take zero s = []
str_take (suc n) [] = []
str_take (suc n) (c ∷ s) = c ∷ str_take n s

unfoldable pub str_drop : ℕ → String → String
str_drop zero s = s
str_drop (suc n) [] = []
str_drop (suc n) (c ∷ s) = str_drop n s

translate : String → String → Char → Char
translate [] _ c = c
translate (a ∷ from) [] c = c
translate (a ∷ from) (b ∷ to) c =
    let rest = translate from to c in if eqb (code a) (code c) then b else rest

map_chars : (Char → Char) → String → String
map_chars f [] = []
map_chars f (c ∷ s) = f c ∷ map_chars f s

-- `toLowerCase` and `toUpperCase` on ASCII, which is what addresses, symbols and ids are.
unfoldable pub to_lower_case : String → String
unfolding translate map_chars
to_lower_case = map_chars (translate "ABCDEFGHIJKLMNOPQRSTUVWXYZ" "abcdefghijklmnopqrstuvwxyz")

unfoldable pub to_upper_case : String → String
unfolding translate map_chars
to_upper_case = map_chars (translate "abcdefghijklmnopqrstuvwxyz" "ABCDEFGHIJKLMNOPQRSTUVWXYZ")
