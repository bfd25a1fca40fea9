-- ===== src/Access/Flags.antt =====
-- The enum `AccessFlags` of helpers/access-flags.ts. A numeric enum of TypeScript is an object that maps
-- each name to its number and each number, as a text, back to its name.
use augmented_finance_protoc.Prelude.{ℕ, ◌^◌, String, Option, List, [], ◌∷◌, Dict, lookup}

pub data AccessFlag : Type 0 where
  emergency_admin : AccessFlag
  pool_admin : AccessFlag
  treasury_admin : AccessFlag
  reward_config_admin : AccessFlag
  reward_rate_admin : AccessFlag
  stake_admin : AccessFlag
  referral_admin : AccessFlag
  lending_rate_admin : AccessFlag
  sweep_admin : AccessFlag
  oracle_admin : AccessFlag
  lending_pool : AccessFlag
  lending_pool_configurator : AccessFlag
  liquidity_controller : AccessFlag
  treasury : AccessFlag
  reward_token : AccessFlag
  reward_stake_token : AccessFlag
  reward_controller : AccessFlag
  reward_configurator : AccessFlag
  stake_configurator : AccessFlag
  referral_registry : AccessFlag
  weth_gateway : AccessFlag
  data_helper : AccessFlag
  price_oracle : AccessFlag
  lending_rate_oracle : AccessFlag

unfoldable pub flag_value : AccessFlag → ℕ
flag_value emergency_admin = 2 ^ 0
flag_value pool_admin = 2 ^ 1
flag_value treasury_admin = 2 ^ 2
flag_value reward_config_admin = 2 ^ 3
flag_value reward_rate_admin = 2 ^ 4
flag_value stake_admin = 2 ^ 5
flag_value referral_admin = 2 ^ 6
flag_value lending_rate_admin = 2 ^ 7
flag_value sweep_admin = 2 ^ 8
flag_value oracle_admin = 2 ^ 9
flag_value lending_pool = 2 ^ 16
flag_value lending_pool_configurator = 2 ^ 17
flag_value liquidity_controller = 2 ^ 18
flag_value treasury = 2 ^ 19
flag_value reward_token = 2 ^ 20
flag_value reward_stake_token = 2 ^ 21
flag_value reward_controller = 2 ^ 22
flag_value reward_configurator = 2 ^ 23
flag_value stake_configurator = 2 ^ 24
flag_value referral_registry = 2 ^ 25
flag_value weth_gateway = 2 ^ 27
flag_value data_helper = 2 ^ 28
flag_value price_oracle = 2 ^ 29
flag_value lending_rate_oracle = 2 ^ 30

unfoldable pub flag_name : AccessFlag → String
flag_name emergency_admin = "EMERGENCY_ADMIN"
flag_name pool_admin = "POOL_ADMIN"
flag_name treasury_admin = "TREASURY_ADMIN"
flag_name reward_config_admin = "REWARD_CONFIG_ADMIN"
flag_name reward_rate_admin = "REWARD_RATE_ADMIN"
flag_name stake_admin = "STAKE_ADMIN"
flag_name referral_admin = "REFERRAL_ADMIN"
flag_name lending_rate_admin = "LENDING_RATE_ADMIN"
flag_name sweep_admin = "SWEEP_ADMIN"
flag_name oracle_admin = "ORACLE_ADMIN"
flag_name lending_pool = "LENDING_POOL"
flag_name lending_pool_configurator = "LENDING_POOL_CONFIGURATOR"
flag_name liquidity_controller = "LIQUIDITY_CONTROLLER"
flag_name treasury = "TREASURY"
flag_name reward_token = "REWARD_TOKEN"
flag_name reward_stake_token = "REWARD_STAKE_TOKEN"
flag_name reward_controller = "REWARD_CONTROLLER"
flag_name reward_configurator = "REWARD_CONFIGURATOR"
flag_name stake_configurator = "STAKE_CONFIGURATOR"
flag_name referral_registry = "REFERRAL_REGISTRY"
flag_name weth_gateway = "WETH_GATEWAY"
flag_name data_helper = "DATA_HELPER"
flag_name price_oracle = "PRICE_ORACLE"
flag_name lending_rate_oracle = "LENDING_RATE_ORACLE"

-- The number as a text, the key of the reverse mapping.
unfoldable pub flag_digits : AccessFlag → String
flag_digits emergency_admin = "1"
flag_digits pool_admin = "2"
flag_digits treasury_admin = "4"
flag_digits reward_config_admin = "8"
flag_digits reward_rate_admin = "16"
flag_digits stake_admin = "32"
flag_digits referral_admin = "64"
flag_digits lending_rate_admin = "128"
flag_digits sweep_admin = "256"
flag_digits oracle_admin = "512"
flag_digits lending_pool = "65536"
flag_digits lending_pool_configurator = "131072"
flag_digits liquidity_controller = "262144"
flag_digits treasury = "524288"
flag_digits reward_token = "1048576"
flag_digits reward_stake_token = "2097152"
flag_digits reward_controller = "4194304"
flag_digits reward_configurator = "8388608"
flag_digits stake_configurator = "16777216"
flag_digits referral_registry = "33554432"
flag_digits weth_gateway = "134217728"
flag_digits data_helper = "268435456"
flag_digits price_oracle = "536870912"
flag_digits lending_rate_oracle = "1073741824"

abbrev pub all_flags : List AccessFlag
all_flags =
    emergency_admin ∷ pool_admin ∷ treasury_admin ∷ reward_config_admin ∷ reward_rate_admin
    ∷ stake_admin ∷ referral_admin ∷ lending_rate_admin ∷ sweep_admin ∷ oracle_admin ∷ lending_pool
    ∷ lending_pool_configurator ∷ liquidity_controller ∷ treasury ∷ reward_token
    ∷ reward_stake_token ∷ reward_controller ∷ reward_configurator ∷ stake_configurator
    ∷ referral_registry ∷ weth_gateway ∷ data_helper ∷ price_oracle ∷ lending_rate_oracle ∷ []

-- What `AccessFlags[key]` holds: a number, or a name where the key is a number.
pub data FlagEntry : Type 0 where
  number : ℕ → FlagEntry
  name : String → FlagEntry

unfoldable pub enum_entries : List AccessFlag → Dict FlagEntry
unfolding flag_value flag_name flag_digits
enum_entries [] = []
enum_entries (f ∷ fs) =
    (flag_name f, number (flag_value f)) ∷ (flag_digits f, name (flag_name f)) ∷ enum_entries fs

unfoldable pub access_flags : String → Option FlagEntry
unfolding enum_entries
access_flags key = lookup key (enum_entries all_flags)
