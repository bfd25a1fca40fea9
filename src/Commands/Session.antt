-- ===== src/Commands/Session.antt =====
-- The calls that the commands have collected, and `callContract`, which adds one.
pub mod Roles
pub mod Collected
use Prim.Native.Nat.{bit_or}
use augmented_finance_protoc.Prelude.{
  ℕ, ℤ, suc, ◌+◌, String, Bool, true, false, not, ◌&&◌, ◌||◌, List, [], ◌∷◌, ◌++◌, Option, none,
  some, eqb, if◌then◌else◌, Dict, Result, ok, thrown, Act, pure, throw, ◌>>=◌, ◌>>◌, ◌<>◌,
}
use augmented_finance_protoc.Access.Flags.{FlagEntry, number, name, access_flags}
use augmented_finance_protoc.JsonDb.{Db}

-- The values that commands pass to contracts.
pub data Value : Type 0 where
  text : String → Value
  num : ℕ → Value
  int : ℤ → Value
  undefined : Value
  nan : Value
  texts : List String → Value
  nums : List (Option ℕ) → Value
  fields : Dict String → Value

-- A contract that is connected: the id of its type and its address.
pub record Contract : Type 0 where
  pub type_id : String
  pub address : String

pub record ContractCall : Type 0 where
  pub access_flags : ℕ
  pub contract : Contract
  pub fn_name : String
  pub is_static : Bool
  pub args : List Value

-- An entry of `getAllTokenDescriptions`.
pub record TokenInfo : Type 0 where
  pub token : String
  pub price_token : String
  pub token_symbol : String
  pub token_type : ℕ

-- The variables of the task and of its module, beside the chain `W`.
pub record Session (W : Type 0) : Type 0 where
  pub calls : List ContractCall
  pub all_flags : ℕ
  pub all_static : Bool
  pub token_list : Option (List TokenInfo)
  pub pools_by_names : Dict String
  pub db : Db
  pub chain : W

abbrev pub new_session : {W : Type 0} → Db → W → Session W
new_session db w = record {
  calls = [];
  all_flags = 0;
  all_static = true;
  token_list = none;
  pools_by_names = [];
  db = db;
  chain = w;
}

module _ {W : Type 0} where
  abbrev on_remote : {A : Type 0} → Session W → Result A × W → Result A × Session W
  on_remote s (r, w) = (r, record s { chain = w })

  -- A call of the chain.
  abbrev pub remote : {A : Type 0} → Act W A → Act (Session W) A
  remote m s = on_remote s (m s.chain)

  -- `applyCall`
  unfoldable pub apply_call : ContractCall → Act (Session W) (Unit {0})
  apply_call call s = (
    ok tt,
    record s {
      calls = s.calls ++ call ∷ [];
      all_flags = bit_or s.all_flags call.access_flags;
      all_static = s.all_static && call.is_static;
    },
  )

-- A role is a number, or a text that names a flag.
pub data Role : Type 0 where
  flag : ℕ → Role
  named : String → Role

-- `accessFlags |= id`, where a text that is no number counts as 0.
unfoldable pub or_entry : ℕ → FlagEntry → ℕ
or_entry flags (number n) = bit_or flags n
or_entry flags (name s) = flags

abbrev is_zero_entry : FlagEntry → Bool
is_zero_entry (number n) = eqb n 0
is_zero_entry (name s) = false

unfoldable pub add_role : ℕ → Role → Result ℕ
unfolding or_entry
add_role flags (flag n) = ok (bit_or flags n)
add_role flags (named value) = elim (access_flags value) [
  | none ↦ thrown ("Unknown role: " <> value)
  | some e ↦ if is_zero_entry e then thrown ("Unknown role: " <> value) else ok (or_entry flags e)
]

-- `roles.forEach`
unfoldable pub add_roles : List Role → ℕ → Result ℕ
unfolding add_role
add_roles [] flags = ok flags
add_roles (r ∷ rs) flags = elim (add_role flags r) [
  | ok flags' ↦ add_roles rs flags'
  | thrown e ↦ thrown e
]

pub record FunctionFragment : Type 0 where
  pub fn_name : String
  pub is_view_or_pure : Bool

abbrev pub new_call : ℕ → Contract → List Value → FunctionFragment → ContractCall
new_call flags contract args fragment = record {
  access_flags = flags;
  contract = contract;
  fn_name = fragment.fn_name;
  is_static = fragment.is_view_or_pure;
  args = args;
}

module _ {W : Type 0} (get_function : Contract → String → Result FunctionFragment) where
  abbrev of_result : {A : Type 0} → Result A → Act (Session W) A
  of_result r s = (r, s)

  unfoldable pub call_contract :
      List Role → Contract → String → List Value → Act (Session W) (Unit {0})
  unfolding add_roles apply_call
  call_contract roles contract func_name args = do
    flags ← of_result (add_roles roles 0)
    fragment ← of_result (get_function contract func_name)
    apply_call (new_call flags contract args fragment)
