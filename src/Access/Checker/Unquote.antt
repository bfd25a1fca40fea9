-- ===== src/Access/Checker/Unquote.antt =====
-- The texts that helpers/method-checker.ts cuts out of error messages.
use Prim.Native.Char.{Char, code}
use augmented_finance_protoc.Prelude.{
  ℕ, ◌+◌, ◌-◌, String, Bool, true, ◌&&◌, ◌||◌, Option, none, some, eqb, if◌then◌else◌,
  index_of_text, str_take, str_drop, str_length,
}

-- `s.trim()`, of the ASCII white space.
is_space : ℕ → Bool
is_space c = eqb c 32 || (eqb c 9 || (eqb c 10 || (eqb c 11 || (eqb c 12 || eqb c 13))))

trim_start : String → String
trim_start String.[] = String.[]
trim_start (String.◌∷◌ c s) =
    let rest = trim_start s in if is_space (code c) then rest else String.◌∷◌ c s

trim_end : String → String
trim_end String.[] = String.[]
trim_end (String.◌∷◌ c s) = elim (trim_end s) [
  | String.[] ↦ if is_space (code c) then String.[] else String.◌∷◌ c String.[]
  | String.◌∷◌ d t ↦ String.◌∷◌ c (String.◌∷◌ d t)
]

unfoldable pub trim : String → String
unfolding trim_start trim_end is_space
trim s = trim_end (trim_start s)

-- `s.replace(/\\q/g, r)`: a backslash before the character `q` is dropped, and `q` becomes `r q`.
replace_escape : ℕ → (Char → Char) → String → String
replace_escape q r String.[] = String.[]
replace_escape q r (String.◌∷◌ c String.[]) = String.◌∷◌ c String.[]
replace_escape q r (String.◌∷◌ c (String.◌∷◌ d s)) =
    let replaced = replace_escape q r s in
    let kept = replace_escape q r (String.◌∷◌ d s) in
    if eqb (code c) 92 && eqb (code d) q then String.◌∷◌ (r d) replaced else String.◌∷◌ c kept

-- The quote is `'`, or anything else, which counts as `"`. Of a text of one character
-- `substring(1, 0)` is that character.
unfoldable pub unquote : String → String
unfolding replace_escape
unquote String.[] = String.[]
unquote (String.◌∷◌ quote String.[]) = String.◌∷◌ quote String.[]
unquote (String.◌∷◌ quote (String.◌∷◌ c s)) =
    replace_escape (if eqb (code quote) 39 then 39 else 34) (λ _. quote)
      (replace_escape 92 (λ d. d) (str_take (str_length s) (String.◌∷◌ c s)))

-- The text behind the first `m` in `s`; with `do_unquote` the last character of `m` is its quote.
unfoldable pub substring_after : String → String → Bool → Option String
unfolding unquote
substring_after s m do_unquote = elim (index_of_text m s) [
  | none ↦ none
  | some pos ↦ some (
      if do_unquote
      then unquote (str_drop (pos + str_length m - 1) s)
      else str_drop (pos + str_length m) s)
]

-- The reason of a revert in one of the two forms that hardhat writes.
unfoldable pub revert_reason : String → Option String
unfolding substring_after
revert_reason message =
    elim (substring_after message
      "VM Exception while processing transaction: reverted with reason string '" true) [
        | some text ↦ some text
        | none ↦
            substring_after message
              "VM Exception while processing transaction: revert with reason \"" true
      ]
