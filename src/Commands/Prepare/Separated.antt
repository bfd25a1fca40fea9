-- ===== src/Commands/Prepare/Separated.antt =====
-- Command lines that are put together are taken apart again.
use native.Mathlib.Nat.{add-zero}
use native.Mathlib.Numerals.{add-one}
use augmented_finance_protoc.Prelude.{
  ℕ, suc, ◌+◌, ◌-◌, ◌<◌, String, ◌≡◌, refl, sym, ap, ◌∙◌, true, false, List, [], ◌∷◌, ◌++◌, arith,
  ◌==◌, eqb, drop, length, map, flatten, drop-suc, append_assoc, append-nil, All, str_length, Lacks,
}
use augmented_finance_protoc.Commands.Prepare.{
  CallCommand, command_at, prepare_loop, prepare_args, separator,
}
use augmented_finance_protoc.Commands.Prepare.Slashes.{
  command_text, split_roles_lem, get_elem?-drop, take-length, drop-length,
}

abbrev IsArgument : String → Type 0
IsArgument s = (s == separator) ≡ false

-- A command that can be written on the command line.
abbrev pub IsWritten : CallCommand → Type 0
IsWritten c =
    All (Lacks 47) c.roles
    × Lacks 47 c.cmd
    × IsArgument (command_text c.roles c.cmd)
    × All IsArgument c.args

-- Its arguments, with the separator that ends them.
abbrev pub ended : CallCommand → List String
ended c = command_text c.roles c.cmd ∷ c.args ++ separator ∷ []

abbrev pub with_roles : List String → CallCommand → CallCommand
with_roles role_list c = record c { roles = role_list ++ c.roles }

module _ (role_list array : List String) where
  loop-arguments :
      (args tail : List String) (i j : ℕ)
      → All IsArgument args
      → j < i
      → prepare_loop role_list array i j (args ++ separator ∷ tail)
        ≡ command_at role_list array (i + length args) j
          ∷ prepare_loop role_list array (i + length args + 1) (i + length args + 1) tail
  unfolding prepare_loop
  loop-arguments [] tail i j h l =
      let other : eqb i j ≡ false = ground arith in rw (other, add-zero) refl
  loop-arguments (a ∷ args) tail i j (h, hs) l =
      let step : i + suc (length args) ≡ (i + 1) + length args = omega arith in
      rw (h, step) (loop-arguments args tail (i + 1) j hs (omega arith))

  rest_at :
      (c : CallCommand) (tail : List String) (i : ℕ)
      → drop i array ≡ ended c ++ tail
      → drop (i + 1) array ≡ c.args ++ (separator ∷ tail)
  rest_at c tail i d = rw add-one (drop-suc i array d) ∙ append_assoc (c.args) (separator ∷ []) tail

  next_at :
      (c : CallCommand) (tail : List String) (i : ℕ)
      → drop i array ≡ ended c ++ tail
      → drop (i + 1 + length c.args + 1) array ≡ tail
  next_at c tail i d = rw add-one (
      drop-suc (i + 1 + length c.args) array
        (drop-length (i + 1) (c.args) array (rest_at c tail i d)))

  command_at_lem :
      (c : CallCommand) (tail : List String) (i : ℕ)
      → All (Lacks 47) c.roles
      → Lacks 47 c.cmd
      → drop i array ≡ ended c ++ tail
      → command_at role_list array (i + 1 + length c.args) i ≡ with_roles role_list c
  unfolding command_at
  command_at_lem c tail i h l d =
      let width : (i + 1 + length c.args) - (i + 1) ≡ length c.args = omega arith in
      rw
        (
          get_elem?-drop i array d,
          split_roles_lem (str_length (command_text c.roles c.cmd)) role_list c.roles c.cmd h l
              (omega arith),
          width,
          rest_at c tail i d,
          take-length c.args (separator ∷ tail),
        )
        refl

  loop-one :
      (c : CallCommand) (more : List String) (i : ℕ)
      → IsArgument (command_text c.roles c.cmd)
      → All IsArgument c.args
      → prepare_loop role_list array i i (ended c ++ more)
        ≡ command_at role_list array (i + 1 + length c.args) i
          ∷ prepare_loop role_list array
              (i + 1 + length c.args + 1)
              (i + 1 + length c.args + 1)
              more
  unfolding prepare_loop
  loop-one c more i n k =
      rw (n, append_assoc c.args (separator ∷ []) more)
        (loop-arguments c.args more (i + 1) i k (omega arith))

  loop-commands :
      (cs : List CallCommand) (tail : List String) (i : ℕ)
      → All IsWritten cs
      → drop i array ≡ flatten (map ended cs) ++ tail
      → (n : ℕ) × (drop n array ≡ tail)
        × (prepare_loop role_list array i i (flatten (map ended cs) ++ tail)
            ≡ map (with_roles role_list) cs ++ prepare_loop role_list array n n tail)
  loop-commands [] tail i h d = (i, d, refl)
  loop-commands (c ∷ cs) tail i ((a, l, n, k), hs) d =
      let more = flatten (map ended cs) ++ tail in
      let end = i + 1 + length c.args in
      let split = append_assoc (ended c) (flatten (map ended cs)) tail in
      let (m, rest, e) = loop-commands cs tail (end + 1) hs (next_at c more i (d ∙ split)) in
      (
        m,
        rest,
        ap (λ xs. prepare_loop role_list array i i xs) split
            ∙ loop-one c more i n k
            ∙ ap (λ x. x ∷ prepare_loop role_list array (end + 1) (end + 1) more)
                (command_at_lem c more i a l (d ∙ split))
            ∙ ap (λ xs. with_roles role_list c ∷ xs) e,
      )

  -- The guard passes over a separator where a command would start.
  loop-passed :
      (i : ℕ) (rest : List String)
      → prepare_loop role_list array i i (separator ∷ rest)
        ≡ prepare_loop role_list array (i + 1) i rest
  unfolding prepare_loop
  loop-passed i rest = let same : eqb i i ≡ true = ground arith in rw same refl

-- The command line of commands.
abbrev pub command_line : List CallCommand → List String
command_line [] = []
command_line (c ∷ []) = command_text c.roles c.cmd ∷ c.args
command_line (c ∷ d ∷ cs) = ended c ++ command_line (d ∷ cs)

command_line-ended :
    (c : CallCommand) (cs : List CallCommand)
    → command_line (c ∷ cs) ++ separator ∷ [] ≡ flatten (map ended (c ∷ cs))
command_line-ended c [] = sym (append-nil (ended c))
command_line-ended c (d ∷ cs) =
    append_assoc (ended c) (command_line (d ∷ cs)) (separator ∷ [])
    ∙ ap (λ l. ended c ++ l) (command_line-ended d cs)

loop-lines :
    (role_list : List String) (cs : List CallCommand)
    → All IsWritten cs
    → prepare_loop role_list (flatten (map ended cs)) 0 0 (flatten (map ended cs))
      ≡ map (with_roles role_list) cs
unfolding prepare_loop
loop-lines role_list cs h =
    let all = flatten (map ended cs) in
    let (n, rest, e) = loop-commands role_list all cs [] 0 h (sym (append-nil all)) in
    ap (λ xs. prepare_loop role_list all 0 0 xs) (sym (append-nil all))
    ∙ e
    ∙ append-nil (map (with_roles role_list) cs)

-- Commands written one after another, separated by `///`, each with its roles before slashes and with
-- arguments that are no separator, are read back: in their order, with the same name and arguments, and with
-- the roles that `--roles` gives before their own.
pub prepare_args-command_line :
    (role_list : List String) (cs : List CallCommand)
    → All IsWritten cs
    → prepare_args role_list (command_line cs) ≡ map (with_roles role_list) cs
unfolding prepare_args
prepare_args-command_line role_list [] h = refl
prepare_args-command_line role_list (c ∷ cs) h =
    rw (command_line-ended c cs) (loop-lines role_list (c ∷ cs) h)

-- What is read where an empty command is followed by arguments.
abbrev pub weird : List String → CallCommand
weird args = record { roles = "" ∷ "" ∷ "" ∷ []; cmd = ""; args = args }

-- A separator that ends no command, with arguments behind it.
loop-empty_command :
    (role_list array : List String) (arg : String) (args : List String) (i : ℕ)
    → All IsArgument (arg ∷ args)
    → drop i array ≡ separator ∷ arg ∷ args ++ separator ∷ []
    → prepare_loop role_list array i i (separator ∷ arg ∷ args ++ separator ∷ [])
      ≡ with_roles role_list (weird (arg ∷ args)) ∷ []
unfolding prepare_loop
loop-empty_command role_list array arg args i h d =
    loop-passed role_list array i (arg ∷ args ++ separator ∷ [])
    ∙ loop-arguments role_list array (arg ∷ args) [] (i + 1) i h (omega arith)
    ∙ ap (λ x. x ∷ [])
        (command_at_lem role_list array (weird (arg ∷ args)) [] i (refl, (refl, (refl, tt))) refl
          (d ∙ sym (append-nil (separator ∷ arg ∷ args ++ separator ∷ []))))

-- An empty command between commands and arguments is not passed over, although the loop has a guard for it:
-- the separator that ends it becomes the command, with three empty roles and no name, and takes the
-- arguments that follow. Only an empty command at the end of the line is passed over.
pub prepare_args-empty_command :
    (role_list : List String) (cs : List CallCommand) (arg : String) (args : List String)
    → All IsWritten cs
    → All IsArgument (arg ∷ args)
    → (prepare_args role_list (flatten (map ended cs) ++ (separator ∷ arg ∷ args))
        ≡ map (with_roles role_list) cs ++ with_roles role_list (weird (arg ∷ args)) ∷ [])
      × (prepare_args role_list (flatten (map ended cs)) ≡ map (with_roles role_list) cs)
unfolding prepare_args
prepare_args-empty_command role_list cs arg args h k = (
  let tail = separator ∷ arg ∷ args ++ separator ∷ [] in
      let all = flatten (map ended cs) ++ tail in
      let (n, rest, e) = loop-commands role_list all cs tail 0 h refl in
      rw (append_assoc (flatten (map ended cs)) (separator ∷ arg ∷ args) (separator ∷ [])) (
        e
        ∙ ap (λ xs. map (with_roles role_list) cs ++ xs)
            (loop-empty_command role_list all arg args n k rest)),
  let all = flatten (map ended cs) ++ separator ∷ [] in
      let (n, rest, e) = loop-commands role_list all cs (separator ∷ []) 0 h refl in
      e
      ∙ ap (λ xs. map (with_roles role_list) cs ++ xs) (loop-passed role_list all n [])
      ∙ append-nil (map (with_roles role_list) cs),
)
