-- ===== src/Deployment/Controllers/Agreed.antt =====
-- The first task of a deployment and the tasks behind it agree on the access controller.
use augmented_finance_protoc.Prelude.{
  ◌+◌, String, ◌≡◌, refl, ap, Bool, Bool-cases, inl, inr, true, false, not, Option, none, some,
  arith, ◌==◌, Result, ok, thrown,
}
use augmented_finance_protoc.Helpers.Addresses.{
  AddressLib, falsy_or_zero_address, not_falsy_or_zero_address,
}
use augmented_finance_protoc.Types.ContractIds.{
  id_name, market_access_controller, pre_deployed_market_access_controller,
}
use augmented_finance_protoc.JsonDb.{
  Db, DbNamedEntry, count_of, get_from_json_db, has_in_json_db, add_named_to_json_db,
}
use augmented_finance_protoc.JsonDb.Registry.{lookup-add_named_to_json_db}
use augmented_finance_protoc.Deployment.Controllers.{
  get_addr, get_market_address_controller, has_market_address_controller, named_address,
  continued_controller, get_deploy_access_controller, set_pre_deploy_access_controller,
  get_pre_deployed_address_controller, has_pre_deployed_address_controller,
}

module _ (lib : AddressLib) (network : String) where
  -- The database after the controller was saved as the one that was deployed before.
  abbrev saved : String → Db → Db
  saved addr db =
      add_named_to_json_db network (id_name pre_deployed_market_access_controller) addr db

  saved-pre_deployed :
      (addr : String) (db : Db)
      → get_from_json_db network (id_name pre_deployed_market_access_controller) (saved addr db)
        ≡ some (record {
          address = addr;
          count =
              count_of (get_from_json_db network (id_name pre_deployed_market_access_controller) db)
              + 1;
        })
  unfolding id_name
  saved-pre_deployed addr db =
      lookup-add_named_to_json_db network (id_name pre_deployed_market_access_controller) addr
        (id_name pre_deployed_market_access_controller) db

  saved-market :
      (addr : String) (db : Db)
      → has_market_address_controller lib network (saved addr db)
        ≡ has_market_address_controller lib network db
  unfolding has_market_address_controller has_in_json_db id_name
  saved-market addr db = rw (
      lookup-add_named_to_json_db network (id_name pre_deployed_market_access_controller) addr
        (id_name market_access_controller) db)

  get_pre-saved :
      (addr : String) (db : Db)
      → falsy_or_zero_address lib (some addr) ≡ false
      → get_pre_deployed_address_controller lib network (saved addr db) ≡ (ok addr, saved addr db)
  unfolding get_pre_deployed_address_controller get_addr named_address
  get_pre-saved addr db h = rw (saved-pre_deployed addr db, h) refl

  -- What a later task gets when the controller was saved.
  get-saved :
      (addr : String) (db : Db)
      → falsy_or_zero_address lib (some addr) ≡ false
      → get_deploy_access_controller lib network (saved addr db) ≡ (
        ok (
          has_market_address_controller lib network db,
          has_market_address_controller lib network db,
          addr,
        ),
        saved addr db,
      )
  unfolding get_deploy_access_controller has_pre_deployed_address_controller has_in_json_db
      get_pre_deployed_address_controller get_addr
  get-saved addr db h =
      rw (saved-pre_deployed addr db, saved-market addr db, h)
        (rw (get_pre-saved addr db h)
          (elim (Bool-cases (has_market_address_controller lib network db)) [
            | inl e ↦ rw e
            | inr e ↦ rw e
          ]))

  named_address-found :
      (id : String) (e : Option DbNamedEntry)
      → not (
          falsy_or_zero_address lib
            (elim e as (λ _. Option String) [ none ↦ none | some e ↦ some e.address ]))
        ≡ true
      → (addr : String) × (falsy_or_zero_address lib (some addr) ≡ false)
        × (named_address lib network id e ≡ ok addr)
  unfolding named_address falsy_or_zero_address not_falsy_or_zero_address
  named_address-found id none h = absurd (cc h)
  named_address-found id (some e) h =
      elim (Bool-cases (falsy_or_zero_address lib (some e.address))) [
        | inl f ↦ absurd (ground arith)
        | inr f ↦ (e.address, f, ground (arith, f))
      ]

  -- A controller that is registered is found.
  get_market-has :
      (db : Db)
      → has_market_address_controller lib network db ≡ true
      → (addr : String) × (falsy_or_zero_address lib (some addr) ≡ false)
        × (get_market_address_controller lib network none db ≡ (ok addr, db))
  unfolding get_market_address_controller get_addr named_address has_market_address_controller
      has_in_json_db
  get_market-has db h =
      let (addr, valid, found) =
        named_address-found (id_name market_access_controller)
          (get_from_json_db network (id_name market_access_controller) db) h in
      (addr, valid, ap (λ r. (r, db)) found)

  -- What the later tasks get, where the first one got a controller or none.
  abbrev pub Agree : Db → Result (Bool × Option String) × Db → Type 0
  Agree db (ok (continuation, some addr), db') = get_deploy_access_controller lib network db' ≡ (
    ok (
      has_market_address_controller lib network db,
      has_market_address_controller lib network db,
      addr,
    ),
    db',
  )
  Agree db (ok (continuation, none), db') =
      (db' ≡ db) × (has_market_address_controller lib network db ≡ false)
  Agree db (thrown e, db') = ⊥

  nonempty : (addr : String) → falsy_or_zero_address lib (some addr) ≡ false → (addr == "") ≡ false
  unfolding falsy_or_zero_address not_falsy_or_zero_address
  nonempty addr h = ground arith

  continued_controller-agrees : (db : Db) → Agree db (continued_controller lib network db)
  unfolding continued_controller
  continued_controller-agrees db =
      elim (Bool-cases (has_market_address_controller lib network db)) [
        | inl e ↦
            let (addr, valid, found) = get_market-has db e in
            rw (e, found) (get-saved addr db valid)
        | inr e ↦ rw e (refl, e)
      ]

  -- The first task never throws in its choice of the controller. If it chose one, every later task gets
  -- that one, as a fresh start and a continuation just if a controller of this deployment is named in
  -- the database; if it chose none, the database is unchanged and names no controller.
  pub set_pre_deploy_access_controller-agrees :
      (existing : Option String) (db : Db)
      → Agree db (set_pre_deploy_access_controller lib network existing db)
  unfolding set_pre_deploy_access_controller
  set_pre_deploy_access_controller-agrees none db = continued_controller-agrees db
  set_pre_deploy_access_controller-agrees (some existing) db =
      elim (Bool-cases (falsy_or_zero_address lib (some existing))) [
        | inl e ↦ rw e (continued_controller-agrees db)
        | inr e ↦ rw (e, nonempty existing e) (get-saved existing db e)
      ]
