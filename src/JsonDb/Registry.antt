-- ===== src/JsonDb/Registry.antt =====
-- How registrations add up.
use augmented_finance_protoc.Prelude.{
  ℕ, ◌+◌, String, ◌≡◌, ap, Bool-cases, inl, inr, ◌≢◌, ◌∙◌, true, List, [], ◌∷◌, Option, some, arith,
  eq_iff, ◌==◌, if◌then◌else◌, lookup, lookup-insert,
}
use augmented_finance_protoc.JsonDb.{
  Db, NetworkDb, network_of, count_of, update_network, add_instance, add_contract_addr_to_json_db,
  get_from_json_db, get_instance_from_json_db, instance_entry, get_externals_from_json_db,
  get_verified_from_json_db, register_named, add_named_to_json_db,
}

module _ (network : String) where
  pub network_of-update :
      (f : NetworkDb → NetworkDb) (db : Db) (other : String)
      → network_of other (update_network network f db)
        ≡ (if network == other then f (network_of network db) else network_of other db)
  unfolding network_of
  network_of-update f db other =
      ground (arith, lookup-insert network other (f (network_of network db)) db)

  pub network_of-update_self :
      (f : NetworkDb → NetworkDb) (db : Db)
      → network_of network (update_network network f db) ≡ f (network_of network db)
  network_of-update_self f db =
      ground (arith, network_of-update f db network, eq_iff network network)

  network_of-update_ne :
      (f : NetworkDb → NetworkDb) (db : Db) (other : String)
      → network ≢ other
      → network_of other (update_network network f db) ≡ network_of other db
  network_of-update_ne f db other h =
      ground (arith, network_of-update f db other, eq_iff network other)

  register_named-lookup :
      (id addr other : String) (n : NetworkDb)
      → lookup other (register_named network id addr n).named ≡ (
          if id == other
          then some (record { address = addr; count = count_of (lookup other n.named) + 1 })
          else lookup other n.named)
  unfolding register_named
  register_named-lookup id addr other n =
      lookup-insert id other _ n.named ∙ elim (Bool-cases (id == other)) [
        | inl e ↦ let same = (eq_iff id other).0 e in rw same
        | inr e ↦ rw e
      ]

  pub lookup-add_named_to_json_db :
      (id addr other : String) (db : Db)
      → get_from_json_db network other (add_named_to_json_db network id addr db) ≡ (
          if id == other
          then some
              (record { address = addr; count = count_of (get_from_json_db network other db) + 1 })
          else get_from_json_db network other db)
  unfolding add_named_to_json_db get_from_json_db
  lookup-add_named_to_json_db id addr other db =
      ap (λ m. lookup other m.named) (network_of-update_self (register_named network id addr) db)
      ∙ register_named-lookup id addr other (network_of network db)

  -- Registering a contract leaves its entry under its address and a named entry with the new address
  -- and a count one up. The entries of other names and addresses, the externals, the verified marks
  -- and all other networks are as before.
  pub record IsRegistered (id addr : String) (args : Option String) (db db' : Db) : Type 0 where
    pub named :
        (other : String)
        → get_from_json_db network other db' ≡ (
            if id == other
            then some (record {
              address = addr;
              count = count_of (get_from_json_db network other db) + 1;
            })
            else get_from_json_db network other db)
    pub instances :
        (other : String)
        → get_instance_from_json_db network other db' ≡ (
            if addr == other
            then some (instance_entry id args)
            else get_instance_from_json_db network other db)
    pub externals : get_externals_from_json_db network db' ≡ get_externals_from_json_db network db
    pub verified :
        (other : String)
        → get_verified_from_json_db network other db' ≡ get_verified_from_json_db network other db
    pub elsewhere : (other : String) → network ≢ other → network_of other db' ≡ network_of other db

  -- Registering a contract under an id, with the flag `register` on, does what `IsRegistered` says: its
  -- entry stands under its address, the named entry of the id has the new address and a count one
  -- higher than before, and all other entries of this network and all other networks are unchanged.
  pub add_contract_addr_to_json_db-IsRegistered :
      (id addr : String) (args : Option String) (db : Db)
      → IsRegistered id addr args db (add_contract_addr_to_json_db network id addr true args db)
  unfolding add_contract_addr_to_json_db get_from_json_db get_instance_from_json_db
      get_externals_from_json_db get_verified_from_json_db
  add_contract_addr_to_json_db-IsRegistered id addr args db =
      let f = add_instance network id addr args in
      let g = register_named network id addr in
      let db' = update_network network f db in
      let n = network_of network db in
      let key : network_of network (update_network network g db') ≡ g (f n) =
        network_of-update_self g db' ∙ ap g (network_of-update_self f db) in
      record {
        named =
            λ other. ap (λ m. lookup other m.named) key ∙ register_named-lookup id addr other (f n);
        instances = λ other.
            ap (λ m. lookup other m.instances) key
            ∙ lookup-insert addr other (instance_entry id args) n.instances;
        externals = ap (λ m. m.externals) key;
        verified = λ other. ap (λ m. lookup other m.verified) key;
        elsewhere =
            λ other h. network_of-update_ne g db' other h ∙ network_of-update_ne f db other h;
      }

pub record Registration : Type 0 where
  pub id : String
  pub address : String
  pub args : Option String

module _ (network : String) where
  -- Several registrations, one after another.
  abbrev pub register_all : List Registration → Db → Db
  register_all [] db = db
  register_all (r ∷ rs) db =
      register_all rs (add_contract_addr_to_json_db network r.id r.address true r.args db)

  abbrev pub occurrences : String → List Registration → ℕ
  occurrences id [] = 0
  occurrences id (r ∷ rs) = (if r.id == id then 1 else 0) + occurrences id rs

  -- After any sequence of registrations the count of an id is the count that it had before, 0 if it had
  -- no named entry, and the number of registrations of that id in the sequence.
  pub count-register_all :
      (rs : List Registration) (db : Db) (id : String)
      → count_of (get_from_json_db network id (register_all rs db))
        ≡ occurrences id rs + count_of (get_from_json_db network id db)
  count-register_all [] db id = omega arith
  count-register_all (r ∷ rs) db id = ground (
    arith,
    count-register_all rs (add_contract_addr_to_json_db network r.id r.address true r.args db) id,
    (add_contract_addr_to_json_db-IsRegistered network r.id r.address r.args db).named id,
  )
