-- ===== src/Helpers/Addresses.antt =====
-- `notFalsyOrZeroAddress` and `falsyOrZeroAddress` of helpers/misc-utils.ts. A missing address,
-- `null` or `undefined`, is `none`. `isAddress` (ethers) and `isZeroAddress` (ethereumjs-util) are
-- parameters.
use augmented_finance_protoc.Prelude.{
  String, Bool, false, not, ◌&&◌, Option, none, some, ◌==◌, if◌then◌else◌,
}

pub record AddressLib : Type 0 where
  pub is_address : String → Bool
  pub is_zero_address : String → Bool

module _ (lib : AddressLib) where
  unfoldable pub not_falsy_or_zero_address : Option String → Bool
  not_falsy_or_zero_address none = false
  not_falsy_or_zero_address (some address) =
      if address == "" then false else lib.is_address address && not (lib.is_zero_address address)

  unfoldable pub falsy_or_zero_address : Option String → Bool
  unfolding not_falsy_or_zero_address
  falsy_or_zero_address address = not (not_falsy_or_zero_address address)
