-- ===== src/Deployment/Once.antt =====
-- A contract that is deployed once is found again.
use augmented_finance_protoc.Prelude.{
  String, ◌≡◌, eq_iff, Bool, true, false, none, some, arith, ok, continue-eq_ok, if◌then◌else◌,
}
use augmented_finance_protoc.Helpers.Addresses.{AddressLib, falsy_or_zero_address}
use augmented_finance_protoc.JsonDb.{get_from_json_db}
use augmented_finance_protoc.JsonDb.Registry.{add_contract_addr_to_json_db-IsRegistered}
use augmented_finance_protoc.Deployment.{
  Chain, Site, register_and_verify, with_save_and_verify, with_save_and_verify_once, address_of,
  attach_or_deploy, deploy_new, lift,
}

module _ {W : Type 0} (chain : Chain W) (lib : AddressLib) (network : String) where
  -- After the contract is registered the database names it, whatever Tenderly does.
  register_and_verify-named :
      (id address args : String) (verify : Bool) (s s' : Site W) (a : String)
      → register_and_verify chain lib network address id args verify s ≡ (ok a, s')
      → (a ≡ address) × (address_of (get_from_json_db network id s'.db) ≡ some address)
  unfolding register_and_verify
  register_and_verify-named id address args verify s s' a run =
      let registered =
        add_contract_addr_to_json_db-IsRegistered network id address
          (if verify then some args else none) s.db in
      ground (arith, registered.named id, eq_iff id id)

  with_save_and_verify-named :
      (id address args : String) (verify : Bool) (s s' : Site W) (a : String)
      → with_save_and_verify chain lib network address id args verify s ≡ (ok a, s')
      → (a ≡ address) × (address_of (get_from_json_db network id s'.db) ≡ some address)
  unfolding with_save_and_verify
  with_save_and_verify-named id address args verify s s' a run =
      let (waited, _, rest) =
        continue-eq_ok
          (λ (_ : Unit {0}). register_and_verify chain lib network address id args verify)
          (lift (chain.wait_for_tx address) s) run in
      register_and_verify-named id address args verify waited.1 s' a rest

  -- If a run of `with_save_and_verify_once` under an id deploys a contract at a valid address, then
  -- a run with the flag `once` on returns that address and changes neither the database nor the chain.
  pub with_save_and_verify_once_again :
      (id : String) (verify verify' : Bool) (s s' : Site W) (address : String)
      → with_save_and_verify_once chain lib network id verify false s ≡ (ok address, s')
      → falsy_or_zero_address lib (some address) ≡ false
      → with_save_and_verify_once chain lib network id verify' true s' ≡ (ok address, s')
  unfolding with_save_and_verify_once attach_or_deploy deploy_new
  with_save_and_verify_once_again id verify verify' s s' address run valid =
      let (deployed, _, rest) =
        continue-eq_ok (λ a. with_save_and_verify chain lib network a id "[]" verify)
          (lift (chain.deploy id) s) run in
      let (same, named) =
        with_save_and_verify-named id deployed.0 "[]" verify deployed.1 s' address rest in
      rw (named, ← same) (rw valid)
