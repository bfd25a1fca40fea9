-- ===== src/Commands/Prepare/Slashes.antt =====
-- The text of a command with its roles before slashes, and the parts of a list by index.
use Prim.Native.Char.{Char}
use Prim.Native.String.append
use native.Mathlib.Nat.{zero-add, add-zero}
use augmented_finance_protoc.Prelude.{
  ℕ, zero, suc, ◌+◌, ◌≤◌, String, ◌≡◌, refl, ap, ◌∙◌, List, [], ◌∷◌, ◌++◌, some, arith, ◌<>◌, take,
  drop, get_elem?, length, drop-suc, append_assoc, append-nil, All, str_length, Lacks,
  index_of-joined, str_take-joined, str_drop-joined,
}
use augmented_finance_protoc.Commands.Prepare.{split_roles}

abbrev slash : Char
slash = "/"

-- The text of a command: its roles, each before a slash, and its name.
abbrev pub command_text : List String → String → String
command_text [] cmd = cmd
command_text (r ∷ rs) cmd = r <> (String.◌∷◌ slash (command_text rs cmd))

str_length-append : (a b : String) → str_length (a <> b) ≡ str_length a + str_length b
str_length-append String.[] b = rw (append.nil, zero-add) refl
str_length-append (String.◌∷◌ c a) b = rw (append.cons, str_length-append a b) (omega arith)

pub split_roles_lem :
    (fuel : ℕ) (roles rs : List String) (cmd : String)
    → All (Lacks 47) rs
    → Lacks 47 cmd
    → str_length (command_text rs cmd) ≤ fuel
    → split_roles fuel roles (command_text rs cmd) ≡ (roles ++ rs, cmd)
unfolding split_roles
split_roles_lem zero roles [] cmd h l f = rw append-nil refl
split_roles_lem (suc fuel) roles [] cmd h l f = rw (split_roles, l, append-nil) refl
split_roles_lem zero roles (r ∷ rs) cmd h l f =
    absurd (omega (arith, str_length-append r (String.◌∷◌ slash (command_text rs cmd)), f))
split_roles_lem (suc fuel) roles (r ∷ rs) cmd (h, hs) l f =
    let rest = command_text rs cmd in
    rw
      (
        split_roles,
        index_of-joined r rest slash h,
        str_take-joined r (String.◌∷◌ slash rest),
        str_drop-joined r rest slash,
      )
      (split_roles_lem fuel (roles ++ r ∷ []) rs cmd hs l
          (omega (arith, str_length-append r (String.◌∷◌ slash rest), f))
        ∙ ap (λ q. (q, cmd)) (append_assoc roles (r ∷ []) rs))

module _ {A : Type 0} where
  pub get_elem?-drop :
      (i : ℕ) (xs : List A) {x : A} {r : List A} → drop i xs ≡ x ∷ r → get_elem? xs i ≡ some x
  get_elem?-drop zero [] h = ground arith
  get_elem?-drop zero (y ∷ xs) h = ground arith
  get_elem?-drop (suc i) [] h = ground arith
  get_elem?-drop (suc i) (y ∷ xs) h = get_elem?-drop i xs h

  pub take-length : (xs ys : List A) → take (length xs) (xs ++ ys) ≡ xs
  take-length [] ys = take-zero ys
    where
      take-zero : (zs : List A) → take 0 zs ≡ []
      take-zero [] = refl
      take-zero (z ∷ zs) = refl
  take-length (x ∷ xs) ys = ap (λ zs. x ∷ zs) (take-length xs ys)

  pub drop-length :
      (i : ℕ) (xs array : List A) {ys : List A}
      → drop i array ≡ xs ++ ys
      → drop (i + length xs) array ≡ ys
  drop-length i [] array h = rw add-zero h
  drop-length i (x ∷ xs) array {ys} h =
      let step : i + suc (length xs) ≡ suc i + length xs = omega arith in
      rw step (drop-length (suc i) xs array (drop-suc i array h))
