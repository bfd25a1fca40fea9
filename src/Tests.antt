-- ===== src/Tests.antt =====
-- Runs of the definitions, and the theorems at concrete data.
mod Access
mod Registry
mod Reserves
mod Commands
mod Aliases
mod Markets
mod Calculations
mod Migrations
mod Rewards
use augmented_finance_protoc.Prelude.{◌==◌, starts_with}
use augmented_finance_protoc.Helpers.Addresses.{AddressLib}

-- Texts with the prefix 0x are addresses, and 0x0 is the zero address.
unfoldable pub sample_lib : AddressLib
unfolding starts_with
sample_lib = record { is_address = λ a. starts_with a "0x"; is_zero_address = λ a. a == "0x0" }
