-- ===== src/Deployment.antt =====
-- Deploying contracts and waiting for their addresses: helpers/contracts-helpers.ts and
-- helpers/deploy-helpers.ts. The chain is the state `W` of the actions that a `Chain` offers.
pub mod Waiting
pub mod Once
pub mod Controllers
use augmented_finance_protoc.Prelude.{
  ℕ, zero, suc, ◌+◌, ◌*◌, String, Bool, true, false, not, List, Option, none, some, ◌==◌,
  if◌then◌else◌, Result, ok, thrown, Act, pure, throw, ◌>>=◌, ◌>>◌,
}
use augmented_finance_protoc.Helpers.Addresses.{AddressLib, falsy_or_zero_address}
use augmented_finance_protoc.JsonDb.{
  Db, DbNamedEntry, get_from_json_db, has_in_json_db, add_contract_addr_to_json_db,
  add_named_to_json_db, add_proxy_to_json_db,
}

-- The loop of `waitForAddressFn`, with `i` the index of the attempt and `rounds` those left.
module _ {W : Type 0} (lib : AddressLib) (get_fn : Act W String)
    (sleep : ℕ → Act W (Unit {0})) where
  pub wait_loop : (rounds i : ℕ) → Act W String
  wait_loop zero i = throw "failed to get an address"
  wait_loop (suc rounds) i = do
    result ← get_fn
    if falsy_or_zero_address lib (some result)
        then (do sleep (100 + 1000 * i); wait_loop rounds (i + 1))
        else pure result

  unfoldable pub wait_for_address_fn : Act W String
  unfolding wait_loop falsy_or_zero_address
  wait_for_address_fn = wait_loop 21 0

-- The database file beside the chain.
pub record Site (W : Type 0) : Type 0 where
  pub db : Db
  pub chain : W

module _ {W : Type 0} where
  abbrev on_chain : {A : Type 0} → Db → Result A × W → Result A × Site W
  on_chain db (r, w) = (r, record { db = db; chain = w })

  abbrev pub lift : {A : Type 0} → Act W A → Act (Site W) A
  lift m s = on_chain s.db (m s.chain)

  abbrev pub modify_db : (Db → Db) → Act (Site W) (Unit {0})
  modify_db f s = (ok tt, record s { db = f s.db })

abbrev address_of : Option DbNamedEntry → Option String
address_of none = none
address_of (some e) = some e.address

-- What the helpers call on the chain and on the plugins: an instance is known by its address.
pub record Chain (W : Type 0) : Type 0 where
  pub deploy : String → Act W String
  pub wait_for_tx : String → Act W (Unit {0})
  pub sleep : ℕ → Act W (Unit {0})
  pub verify_on_tenderly : String → String → Act W (Unit {0})
  pub using_tenderly : Bool
  pub get_address : String → ℕ → Act W String
  pub set_address_as_proxy : String → ℕ → String → Act W (Unit {0})
  pub set_address_as_proxy_with_init : String → ℕ → String → String → Act W (Unit {0})
  pub encode_initialize : String → String
  pub stringify_args : List String → String
  pub role_name : ℕ → String

module _ {W : Type 0} (chain : Chain W) (lib : AddressLib) (network : String) where
  verify_on_tenderly : String → String → Act (Site W) (Unit {0})
  verify_on_tenderly address id =
      if chain.using_tenderly then lift (chain.verify_on_tenderly id address) else pure tt

  -- `registerAndVerify`; `args` is what `stringifyArgs` makes of the constructor's arguments.
  unfoldable pub register_and_verify : String → String → String → Bool → Act (Site W) String
  unfolding verify_on_tenderly
  register_and_verify address id args verify = do
    modify_db
        (add_contract_addr_to_json_db network id address true (if verify then some args else none))
    verify_on_tenderly address id
    pure address

  -- `withSaveAndVerify`
  unfoldable pub with_save_and_verify : String → String → String → Bool → Act (Site W) String
  unfolding register_and_verify
  with_save_and_verify address id args verify = do
    lift (chain.wait_for_tx address)
    register_and_verify address id args verify

  -- `withVerify`: the contract is an instance without a name.
  unfoldable pub with_verify : String → String → String → Bool → Act (Site W) String
  unfolding verify_on_tenderly
  with_verify address id args verify = do
    lift (chain.wait_for_tx address)
    modify_db
        (add_contract_addr_to_json_db network id address false (if verify then some args else none))
    verify_on_tenderly address id
    pure address

  deploy_new : String → Bool → Act (Site W) String
  deploy_new id verify = do
    address ← lift (chain.deploy id)
    with_save_and_verify address id "[]" verify

  -- An address that is known and valid is attached to, any other is deployed.
  attach_or_deploy : String → Bool → Option String → Act (Site W) String
  attach_or_deploy id verify none = deploy_new id verify
  attach_or_deploy id verify (some address) =
      if falsy_or_zero_address lib (some address) then deploy_new id verify else pure address

  unfoldable pub with_save_and_verify_once : String → Bool → Bool → Act (Site W) String
  unfolding attach_or_deploy deploy_new
  with_save_and_verify_once id verify once s =
      (if once
          then attach_or_deploy id verify (address_of (get_from_json_db network id s.db))
          else deploy_new id verify)
        s

  wait_for_address : String → ℕ → Act (Site W) String
  wait_for_address ac role = lift (wait_for_address_fn lib (chain.get_address ac role) chain.sleep)

  -- `setAndGetAddressAsProxy`; the transaction's receipt is not waited for, the address is.
  unfoldable pub set_and_get_address_as_proxy : String → ℕ → String → Act (Site W) String
  unfolding wait_for_address
  set_and_get_address_as_proxy ac role addr = do
    lift (chain.set_address_as_proxy ac role addr)
    proxy ← wait_for_address ac role
    modify_db (
        add_proxy_to_json_db network (chain.role_name role) proxy addr "core" (
          some (
            chain.stringify_args
              (List.◌∷◌ ac (List.◌∷◌ addr (List.◌∷◌ (chain.encode_initialize ac) List.[]))))))
    pure proxy

  unfoldable pub set_and_get_address_as_proxy_with_init :
      String → ℕ → String → String → Act (Site W) String
  unfolding wait_for_address
  set_and_get_address_as_proxy_with_init ac role addr init = do
    lift (chain.set_address_as_proxy_with_init ac role addr init)
    proxy ← wait_for_address ac role
    modify_db (
        add_proxy_to_json_db network (chain.role_name role) proxy addr "core"
          (some (chain.stringify_args (List.◌∷◌ ac (List.◌∷◌ addr (List.◌∷◌ init List.[]))))))
    pure proxy
