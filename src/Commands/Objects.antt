-- ===== src/Commands/Objects.antt =====
-- Which contract and function a command names: `qualifiedName`, `callQualifiedFunc` and `findObject`
-- of tasks/helpers/call-cmd.ts. The characters `.`, `@` and `/` have the numbers 46, 64 and 47.
pub mod Named
use augmented_finance_protoc.Prelude.{
  ℕ, zero, suc, ◌+◌, String, Bool, true, false, not, ◌&&◌, ◌||◌, List, [], ◌∷◌, ◌++◌, Option, none,
  some, if◌then◌else◌, Result, ok, thrown, Act, pure, throw, ◌>>=◌, ◌>>◌, ◌<>◌, ◌==◌, index_of,
  str_take, str_drop, Dict, keep,
}
use augmented_finance_protoc.Helpers.Addresses.{AddressLib, falsy_or_zero_address}
use augmented_finance_protoc.Types.ContractIds.{
  ContractId, id_name, market_access_controller, addresses_provider_registry,
}
use augmented_finance_protoc.Types.ContractGetters.{get_contract_getter_by_id}
use augmented_finance_protoc.Access.Flags.{FlagEntry, number, name, access_flags}
use augmented_finance_protoc.JsonDb.{
  DbInstanceEntry, DbNamedEntry, get_from_json_db, get_externals_from_json_db,
  get_instance_from_json_db,
}
use augmented_finance_protoc.Commands.Session.{
  Value, Contract, Role, FunctionFragment, Session, remote, call_contract,
}

-- `typeId + '@' + instanceId + '.' + funcName`, with the name of the instance's flag, or an address.
unfoldable pub qualified_name : String → String → String → String
qualified_name type_id instance_id func_name = type_id <> "@" <> instance_id <> "." <> func_name

-- What comes before a character at `pos` and after it; at -1 JavaScript gives the empty text and the whole.
unfoldable pub split_at : Option ℕ → String → String × String
unfolding str_take str_drop
split_at none s = ("", s)
split_at (some pos) s = (str_take pos s, str_drop (suc pos) s)

-- What the commands ask of the chain, of the market's configuration and of the contract interfaces.
pub record Network (W : Type 0) : Type 0 where
  pub network : String
  pub lib : AddressLib
  pub ac_address : String
  pub get_address : FlagEntry → Act W String
  pub provider_registry : Option String
  pub get_function : Contract → String → Result FunctionFragment
  pub encode_function_data : Contract → String → List Value → Result String

abbrev pub connected : ContractId → String → Contract
connected id addr = record { type_id = id_name id; address = addr }

-- `await fn(address)` of a getter, which is `undefined` where the id has none.
abbrev pub connect : {W : Type 0} → String → Option ContractId → String → Act (Session W) Contract
connect message none addr = throw message
connect message (some id) addr = pure (connected id addr)

abbrev impl_of_entry : DbInstanceEntry → Option String
impl_of_entry e = elim (e.verify) [ none ↦ none | some v ↦ v.impl ]

module _ {W : Type 0} (net : Network W) where
  unfoldable pub find_registry : Act (Session W) Contract
  unfolding get_from_json_db falsy_or_zero_address id_name
  find_registry s = elim (get_from_json_db net.network (id_name addresses_provider_registry) s.db) [
    | some reg ↦ (ok (connected addresses_provider_registry reg.address), s)
    | none ↦ elim (net.provider_registry) [
      | none ↦ (thrown "Registry was not found", s)
      | some addr ↦
          if falsy_or_zero_address net.lib (some addr)
          then (thrown "Registry was not found", s)
          else (ok (connected addresses_provider_registry addr), s)
    ]
  ]

  -- An external that has the name and a known implementation.
  unfoldable pub is_named_proxy : String → String × DbInstanceEntry → Bool
  unfolding falsy_or_zero_address
  is_named_proxy obj_name (addr, desc) =
      desc.id == obj_name && not (falsy_or_zero_address net.lib (impl_of_entry desc))

  -- The type of a proxy is that of its implementation.
  unfoldable pub connect_proxy : String → String × DbInstanceEntry → Act (Session W) Contract
  unfolding get_instance_from_json_db get_contract_getter_by_id
  connect_proxy obj_name (addr, desc) s = elim (impl_of_entry desc) [
    | none ↦ (thrown ("Unknown impl address: " <> obj_name), s)
    | some impl ↦ elim (get_instance_from_json_db net.network impl s.db) [
      | none ↦ (thrown ("Unknown impl address: " <> obj_name), s)
      | some inst ↦
          connect ("Unsupported type name: " <> inst.id) (get_contract_getter_by_id inst.id) addr s
    ]
  ]

  -- The proxies that were found under a name; the list that ends the message is left out.
  unfoldable pub single_proxy : String → List (String × DbInstanceEntry) → Act (Session W) Contract
  unfolding connect_proxy
  single_proxy obj_name [] = throw ("Unknown object name: " <> obj_name)
  single_proxy obj_name (p ∷ []) = connect_proxy obj_name p
  single_proxy obj_name (p ∷ q ∷ ps) = throw ("Ambigous object name: " <> obj_name)

  unfoldable pub find_by_name : String → Act (Session W) Contract
  unfolding get_from_json_db get_externals_from_json_db single_proxy is_named_proxy
      get_contract_getter_by_id
  find_by_name obj_name s = elim (get_from_json_db net.network obj_name s.db) [
    | some entry ↦
        connect ("Unsupported type name: " <> obj_name) (get_contract_getter_by_id obj_name)
          entry.address s
    | none ↦
        single_proxy obj_name
          (keep (is_named_proxy obj_name) (get_externals_from_json_db net.network s.db)) s
  ]

  -- The address that stands behind `@`: the first two characters decide whether it is one.
  unfoldable pub address_of_name : String → String → Act (Session W) String
  unfolding str_take
  address_of_name type_name addr_name =
      if str_take 2 addr_name == "0x" then pure addr_name else (elim (access_flags addr_name) [
        | none ↦ throw ("Unknown role: " <> type_name)
        | some role_id ↦ remote (net.get_address role_id)
      ])

  unfoldable pub find_qualified : String → String → Act (Session W) Contract
  unfolding address_of_name falsy_or_zero_address get_contract_getter_by_id
  find_qualified type_name addr_name = do
    addr ← address_of_name type_name addr_name
    if falsy_or_zero_address net.lib (some addr)
        then throw ("Invalid address: " <> addr)
        else connect ("Unknown type name: " <> type_name) (get_contract_getter_by_id type_name) addr

  unfoldable pub find_at : String → Option ℕ → Act (Session W) Contract
  unfolding find_by_name find_qualified split_at
  find_at obj_name none = find_by_name obj_name
  find_at obj_name (some pos) =
      find_qualified ((split_at (some pos) obj_name).0) ((split_at (some pos) obj_name).1)

  unfoldable pub find_object : String → Act (Session W) Contract
  unfolding find_registry find_at index_of
  find_object obj_name =
      if obj_name == "AC" || obj_name == "ACCESS_CONTROLLER"
      then pure (connected market_access_controller net.ac_address)
      else (if obj_name == "REGISTRY"
          then find_registry
          else find_at obj_name (index_of 64 obj_name))

  unfoldable pub call_qualified_func : List Role → String → List Value → Act (Session W) (Unit {0})
  unfolding find_object call_contract split_at index_of
  call_qualified_func roles cmd args = do
    contract ← find_object ((split_at (index_of 46 cmd) cmd).0)
    call_contract net.get_function roles contract ((split_at (index_of 46 cmd) cmd).1) args
