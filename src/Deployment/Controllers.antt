-- ===== src/Deployment/Controllers.antt =====
-- Which access controller the deployment tasks work with: `getDeployAccessController` and
-- `setPreDeployAccessController` of helpers/deploy-helpers.ts, and the getters that they use in
-- helpers/contracts-getters.ts. A controller is known by its address.
pub mod Agreed
use augmented_finance_protoc.Prelude.{
  String, Bool, true, false, not, Option, none, some, ◌==◌, if◌then◌else◌, Result, ok, thrown, Act,
  pure, throw, ◌>>=◌, ◌>>◌, ◌<>◌,
}
use augmented_finance_protoc.Helpers.Addresses.{AddressLib, falsy_or_zero_address}
use augmented_finance_protoc.Types.ContractIds.{
  ContractId, id_name, market_access_controller, pre_deployed_market_access_controller,
}
use augmented_finance_protoc.JsonDb.{
  Db, DbNamedEntry, get_from_json_db, has_in_json_db, add_named_to_json_db,
}

module _ (lib : AddressLib) (network : String) where
  pub named_address : String → Option DbNamedEntry → Result String
  named_address id none = thrown ("unknown named address: " <> id)
  named_address id (some e) =
      if falsy_or_zero_address lib (some e.address)
      then thrown ("unknown named address: " <> id)
      else ok e.address

  unfoldable pub get_addr : ContractId → Act Db String
  unfolding named_address get_from_json_db id_name
  get_addr id db = (named_address (id_name id) (get_from_json_db network (id_name id) db), db)

  unfoldable pub get_market_address_controller : Option String → Act Db String
  unfolding get_addr
  get_market_address_controller none = get_addr market_access_controller
  get_market_address_controller (some address) =
      if address == "" then get_addr market_access_controller else pure address

  unfoldable pub has_market_address_controller : Db → Bool
  unfolding has_in_json_db id_name
  has_market_address_controller db =
      has_in_json_db network lib (id_name market_access_controller) db

  unfoldable pub get_pre_deployed_address_controller : Act Db String
  unfolding get_addr
  get_pre_deployed_address_controller = get_addr pre_deployed_market_access_controller

  unfoldable pub has_pre_deployed_address_controller : Db → Bool
  unfolding has_in_json_db id_name
  has_pre_deployed_address_controller db =
      has_in_json_db network lib (id_name pre_deployed_market_access_controller) db

  -- The flags `freshStart` and `continuation`, and the controller.
  unfoldable pub get_deploy_access_controller : Act Db (Bool × Bool × String)
  unfolding has_pre_deployed_address_controller get_pre_deployed_address_controller
      has_market_address_controller get_market_address_controller
  get_deploy_access_controller db =
      (if has_pre_deployed_address_controller db
          then (do
            ac ← get_pre_deployed_address_controller
            pure
                (if has_market_address_controller db then (true, true, ac) else (false, false, ac)))
          else (do ac ← get_market_address_controller none; pure (true, false, ac)))
        db

  save_controller : String → Act Db (Unit {0})
  save_controller addr db =
      (ok tt, add_named_to_json_db network (id_name pre_deployed_market_access_controller) addr db)

  -- Without an existing controller: the one of a deployment that is continued, if there is one.
  continued_controller : Act Db (Bool × Option String)
  unfolding save_controller get_market_address_controller has_market_address_controller
  continued_controller db =
      (if has_market_address_controller db
          then (do
            ac ← get_market_address_controller none
            save_controller ac
            pure (true, some ac))
          else pure (false, none))
        db

  -- The flag `continuation`, and the controller if there is one already.
  unfoldable pub set_pre_deploy_access_controller : Option String → Act Db (Bool × Option String)
  unfolding continued_controller save_controller get_market_address_controller
  set_pre_deploy_access_controller none = continued_controller
  set_pre_deploy_access_controller (some existing) =
      if not (falsy_or_zero_address lib (some existing))
      then (do
        save_controller existing
        ac ← get_market_address_controller (some existing)
        pure (false, some ac))
      else continued_controller
