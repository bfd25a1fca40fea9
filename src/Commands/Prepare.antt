-- ===== src/Commands/Prepare.antt =====
-- The command line of the tasks `call-cmd` and `encode-cmd`: `prepareArgs` of tasks/misc/call-cmd.ts,
-- less the look-up of the controller. The list of roles that `--roles` gives, whose text may be JSON, is
-- a parameter.
pub mod Slashes
pub mod Separated
use augmented_finance_protoc.Prelude.{
  ℕ, zero, suc, ◌+◌, ◌-◌, String, Bool, true, false, not, ◌||◌, List, [], ◌∷◌, ◌++◌, Option, none,
  some, if◌then◌else◌, eqb, ◌==◌, slice, get_elem?, index_of, str_take, str_drop, str_length,
  Result, ok, thrown,
}

pub record CallCommand : Type 0 where
  pub roles : List String
  pub cmd : String
  pub args : List String

-- The `while (true)` over the slashes of a command; each round leaves a shorter text.
unfoldable pub split_roles : (fuel : ℕ) → List String → String → List String × String
unfolding index_of str_take str_drop
split_roles zero roles cmd = (roles, cmd)
split_roles (suc fuel) roles cmd = elim (index_of 47 cmd) [
  | none ↦ (roles, cmd)
  | some pos ↦ split_roles fuel (roles ++ str_take pos cmd ∷ []) (str_drop (suc pos) cmd)
]

abbrev pub separator : String
separator = "///"

-- `args[j] || ''`
abbrev or_empty_text : Option String → String
or_empty_text none = ""
or_empty_text (some s) = s

-- The command of the arguments from `j` to `i`.
unfoldable pub command_at : List String → List String → ℕ → ℕ → CallCommand
unfolding split_roles
command_at role_list args i j =
    let cmd = or_empty_text (get_elem? args j) in
    let (roles, name) = split_roles (str_length cmd) role_list cmd in
    record { roles = roles; cmd = name; args = slice args (j + 1) i }

-- The loop over the arguments, those left being read at index `i`.
unfoldable pub prepare_loop : List String → List String → (i j : ℕ) → List String → List CallCommand
unfolding command_at
prepare_loop role_list args i j [] = []
prepare_loop role_list args i j (arg ∷ rest) =
    let passed = prepare_loop role_list args (i + 1) j rest in
    let closed = prepare_loop role_list args (i + 1) (i + 1) rest in
    if not (arg == separator) || eqb i j then passed else command_at role_list args i j ∷ closed

unfoldable pub prepare_args : List String → List String → List CallCommand
unfolding prepare_loop
prepare_args role_list args = let all = args ++ separator ∷ [] in prepare_loop role_list all 0 0 all

-- With no argument on the command line `args` is undefined, and `args.push` throws.
unfoldable pub prepare_optional_args :
    List String → Option (List String) → Result (List CallCommand)
unfolding prepare_args
prepare_optional_args role_list none = thrown "TypeError"
prepare_optional_args role_list (some args) = ok (prepare_args role_list args)
