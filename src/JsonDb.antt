-- ===== src/JsonDb.antt =====
-- The deployment database, deployed-contracts.json, as helpers/misc-utils.ts reads and writes it.
-- A section of a network that was never written reads like an empty one. Ids and addresses hold no
-- dot, so a lowdb path names one entry. The writers' current network is `network`.
pub mod Registry
pub mod Printing
pub mod Refined
use augmented_finance_protoc.Prelude.{
  ℕ, suc, ◌+◌, String, Bool, true, false, not, List, [], ◌∷◌, Option, none, some, if◌then◌else◌,
  ltb, length, starts_with, Dict, lookup, insert, ◌<>◌,
}
use augmented_finance_protoc.Helpers.Addresses.{AddressLib, falsy_or_zero_address}

pub record DbNamedEntry : Type 0 where
  pub address : String
  pub count : ℕ

pub record VerifyInfo : Type 0 where
  pub args : Option String
  pub impl : Option String
  pub sub_type : Option String

pub record DbInstanceEntry : Type 0 where
  pub id : String
  pub verify : Option VerifyInfo

pub record NetworkDb : Type 0 where
  pub instances : Dict DbInstanceEntry
  pub externals : Dict DbInstanceEntry
  pub named : Dict DbNamedEntry
  pub verified : Dict Bool

abbrev pub Db : Type 0
Db = Dict NetworkDb

abbrev pub empty_network : NetworkDb
empty_network = record { instances = []; externals = []; named = []; verified = [] }

abbrev pub or_empty : Option NetworkDb → NetworkDb
or_empty none = empty_network
or_empty (some n) = n

unfoldable pub network_of : String → Db → NetworkDb
network_of network db = or_empty (lookup network db)

unfoldable pub cleanup_json_db : String → Db → Db
cleanup_json_db network db = insert network empty_network db

abbrev pub count_of : Option DbNamedEntry → ℕ
count_of none = 0
count_of (some e) = e.count

-- The `logEntry` of a contract that was deployed.
abbrev pub instance_entry : String → Option String → DbInstanceEntry
instance_entry id none = record { id = id; verify = none }
instance_entry id (some args) = record {
  id = id;
  verify = some (record { args = some args; impl = none; sub_type = none });
}

module _ (network : String) where
  abbrev pub update_network : (NetworkDb → NetworkDb) → Db → Db
  update_network f db = insert network (f (network_of network db)) db

  -- The named entry, with its count one up.
  register_named : String → String → NetworkDb → NetworkDb
  register_named id addr n = record n {
    named = insert id (record { address = addr; count = count_of (lookup id n.named) + 1 }) n.named;
  }

  unfoldable pub add_named_to_json_db : String → String → Db → Db
  unfolding register_named
  add_named_to_json_db id addr = update_network (register_named id addr)

  add_instance : String → String → Option String → NetworkDb → NetworkDb
  add_instance id addr args n = record n {
    instances = insert addr (instance_entry id args) n.instances;
  }

  -- `verifyArgs`, if given, comes as the text that `stringifyArgs` made of it.
  unfoldable pub add_contract_addr_to_json_db :
      String → String → (register : Bool) → Option String → Db → Db
  unfolding add_instance register_named
  add_contract_addr_to_json_db id addr register args db =
      let db' = update_network (add_instance id addr args) db in
      if register then update_network (register_named id addr) db' else db'

  unfoldable pub add_proxy_to_json_db : String → String → String → String → Option String → Db → Db
  add_proxy_to_json_db id proxy impl sub_type args = update_network λ n. record n {
    externals =
        insert proxy
          (record {
            id = id;
            verify = some (record { args = args; impl = some impl; sub_type = some sub_type });
          })
          n.externals;
  }

  unfoldable pub add_external_to_json_db : String → String → Option String → Db → Db
  add_external_to_json_db id addr args = update_network λ n. record n {
    externals =
        insert addr
          (record { id = id; verify = some (record { args = args; impl = none; sub_type = none }) })
          n.externals;
  }

  unfoldable pub set_verified_to_json_db : String → Bool → Db → Db
  set_verified_to_json_db addr verified =
      update_network λ n. record n { verified = insert addr verified n.verified }

  unfoldable pub get_verified_from_json_db : String → Db → Option Bool
  get_verified_from_json_db addr db = lookup addr (network_of network db).verified

  unfoldable pub get_instance_from_json_db : String → Db → Option DbInstanceEntry
  get_instance_from_json_db addr db = lookup addr (network_of network db).instances

  unfoldable pub get_instances_from_json_db : Db → Dict DbInstanceEntry
  get_instances_from_json_db db = (network_of network db).instances

  unfoldable pub get_externals_from_json_db : Db → Dict DbInstanceEntry
  get_externals_from_json_db db = (network_of network db).externals

  unfoldable pub get_named_from_json_db : Db → Dict DbNamedEntry
  get_named_from_json_db db = (network_of network db).named

  unfoldable pub get_from_json_db : String → Db → Option DbNamedEntry
  get_from_json_db id db = lookup id (network_of network db).named

  unfoldable pub has_in_json_db : AddressLib → String → Db → Bool
  unfolding get_from_json_db falsy_or_zero_address
  has_in_json_db lib id db = not (
      falsy_or_zero_address lib
        (elim (get_from_json_db id db) [ none ↦ none | some e ↦ some e.address ]))

-- The loop of `printContracts` over the named entries: the single contracts and the number of ids
-- that were registered more than once; an id that starts with `~` is passed over.
unfoldable pub print_entries : Dict DbNamedEntry → Dict String → ℕ → Dict String × ℕ
unfolding starts_with insert
print_entries [] entry_map multi = (entry_map, multi)
print_entries ((key, value) ∷ rest) entry_map multi =
    print_entries rest
      (if starts_with key "~"
        then entry_map
        else (if ltb 1 value.count then entry_map else insert key value.address entry_map))
      (if starts_with key "~" then multi else (if ltb 1 value.count then multi + 1 else multi))

-- The entry map, the number of instances and the number of ids with several instances.
unfoldable pub print_contracts : String → Db → Dict String × ℕ × ℕ
unfolding print_entries get_named_from_json_db get_instances_from_json_db
print_contracts network db =
    let (entry_map, multi) = print_entries (get_named_from_json_db network db) [] 0 in
    (entry_map, length (get_instances_from_json_db network db), multi)
