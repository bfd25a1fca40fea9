-- ===== src/Commands/Aliases.antt =====
-- The commands with a name of their own: `parseCommand` of tasks/helpers/call-cmd.ts. The promises of a
-- batch run one after another, their questions to the chain before the calls that they add. A name that
-- every JavaScript object has is no alias. A command throws when it reads a missing argument as a name or
-- a text; one that would put it into a record throws here too, not only when the record is encoded.
pub mod Run
pub mod Changed
pub mod Dates
use augmented_finance_protoc.Prelude.{
  ℕ, zero, suc, ◌*◌, ◌/◌, String, Bool, true, false, not, List, [], ◌∷◌, ◌++◌, Option, none, some,
  if◌then◌else◌, Result, ok, thrown, Act, pure, throw, ◌>>=◌, ◌>>◌, ◌<>◌, ◌==◌, eqb, ltb, length,
  get_elem?, drop, map, index_of, to_int32, Dict, lookup,
}
use augmented_finance_protoc.Helpers.Addresses.{AddressLib, falsy_or_zero_address}
use augmented_finance_protoc.Types.ContractIds.{
  ContractId, id_name, stake_configurator_impl, oracle_router, static_price_oracle,
  reward_booster_impl, referral_reward_pool_v1_impl, treasury_impl, reward_configurator_impl,
}
use augmented_finance_protoc.Access.Flags.{
  AccessFlag, flag_value, flag_name, FlagEntry, number, stake_configurator, stake_admin,
  price_oracle, oracle_admin, reward_config_admin, reward_controller, reward_rate_admin,
  referral_registry, referral_admin, treasury, treasury_admin, reward_configurator,
}
use augmented_finance_protoc.Commands.Session.{
  Value, text, num, int, nan, texts, nums, fields, undefined, Contract, Role, flag, TokenInfo,
  Session, remote, call_contract,
}
use augmented_finance_protoc.Commands.Split.{split_array}
use augmented_finance_protoc.Commands.Objects.{Network, qualified_name, call_qualified_func}
use augmented_finance_protoc.Commands.Tokens.{
  get_token_list, find_price_tokens, find_token, PoolEntry, get_reward_pool_by_name,
  prepare_pool_names_and_values, prepare_percentage,
}

pub data Alias : Type 0 where
  set_cooldown_for_all get_price get_price_source set_price_source set_static_price
        add_reward_provider set_meltdown set_mint_rate set_mint_rate_and_shares set_boost_factors
        register_ref_code transfer_from_treasury set_claimable_pools upgrade_reward_pool
        upgrade_stake_token :
      Alias

-- `cmdAliases[cmd]`
unfoldable pub cmd_aliases : Dict Alias
cmd_aliases =
    ("setCooldownForAll", set_cooldown_for_all)
    ∷ ("getPrice", get_price)
    ∷ ("getPriceSource", get_price_source)
    ∷ ("setPriceSource", set_price_source)
    ∷ ("setStaticPrice", set_static_price)
    ∷ ("addRewardProvider", add_reward_provider)
    ∷ ("setMeltdown", set_meltdown)
    ∷ ("setMintRate", set_mint_rate)
    ∷ ("setMintRateAndShares", set_mint_rate_and_shares)
    ∷ ("setBoostFactors", set_boost_factors)
    ∷ ("registerRefCode", register_ref_code)
    ∷ ("transferFromTreasury", transfer_from_treasury)
    ∷ ("setClaimablePools", set_claimable_pools)
    ∷ ("upgradeRewardPool", upgrade_reward_pool)
    ∷ ("upgradeStakeToken", upgrade_stake_token)
    ∷ []

-- What the aliases ask of the chain and of the libraries.
pub record Market (W : Type 0) : Type 0 where
  pub net : Network W
  pub fetch_tokens : Act W (List TokenInfo × ℕ)
  pub list_pools : Act W (List PoolEntry)
  pub named_reward_pool : String → Act W String
  pub fallback_oracle : Act W String
  pub baseline_percentage : String → Act W ℕ
  pub boost_factor : String → Act W ℕ
  pub stake_token_data : String → Act W (String × String)
  pub parse_units : String → ℕ → Result ℕ
  pub parse_int : String → Option ℕ
  pub is_hex_prefixed : String → Bool
  -- `Date.parse`, in milliseconds; dates before 1970 are left out.
  pub parse_date : String → Option ℕ
  pub number_text : ℕ → String
  -- The order in which the promises of `promiseAllBatch` settle, as what it does to their results.
  pub settled : List (String × Option ℕ) → List (String × Option ℕ)

abbrev zero_address : String
zero_address = "0x0000000000000000000000000000000000000000"

abbrev pub text_or_undefined : Option String → Value
text_or_undefined none = undefined
text_or_undefined (some s) = text s

-- `args[2] || ZERO_ADDRESS`
abbrev pub or_zero_address : Option String → String
or_zero_address none = zero_address
or_zero_address (some s) = if s == "" then zero_address else s

abbrev pub factor_value : Option ℕ → Value
factor_value none = nan
factor_value (some n) = num n

-- `==` with a number; NaN is equal to nothing.
abbrev pub same_number : ℕ → Option ℕ → Bool
same_number a none = false
same_number a (some b) = eqb a b

abbrev pub split_two : List String → List String × List String
unfolding split_array
split_two args = elim (split_array 2 args) [ l ∷ (r ∷ _) ↦ (l, r) | _ ↦ ([], []) ]

abbrev pub pool_contract : String → String → Contract
pool_contract type_id addr = record { type_id = type_id; address = addr }

module _ {W : Type 0} (m : Market W) where
  abbrev pub of_result : {A : Type 0} → Result A → Act (Session W) A
  of_result r s = (r, s)

  -- An argument that is read as a text.
  unfoldable pub arg : List String → ℕ → Act (Session W) String
  arg args i = elim (get_elem? args i) [ some a ↦ pure a | none ↦ throw "TypeError" ]

  -- The inner function `call`, with the role of the alias.
  unfoldable pub call_alias :
      ContractId → AccessFlag → String → List Value → Option AccessFlag → Act (Session W) (Unit {0})
  unfolding call_qualified_func qualified_name id_name flag_name flag_value
  call_alias type_id instance func args role =
      call_qualified_func m.net (elim role [ none ↦ [] | some r ↦ flag (flag_value r) ∷ [] ])
        (qualified_name (id_name type_id) (flag_name instance) func) args

  abbrev pub price_tokens : List String → Act (Session W) (List String)
  unfolding find_price_tokens get_token_list
  price_tokens names = find_price_tokens m.net.lib (get_token_list m.fetch_tokens) names

  -- `getPrice` and `getPriceSource`: one function for several tokens, the other one else.
  unfoldable pub ask_oracle : (several single : String) → List String → Act (Session W) (Unit {0})
  unfolding price_tokens call_alias
  ask_oracle several single args = do
    tokens ← price_tokens args
    if ltb 1 (length args)
        then call_alias oracle_router price_oracle several (texts tokens ∷ []) none
        else call_alias oracle_router price_oracle single (map text tokens) none

  unfoldable pub get_named_pool_addr : String → Act (Session W) String
  unfolding falsy_or_zero_address
  get_named_pool_addr name = do
    addr ← remote (m.named_reward_pool name)
    if falsy_or_zero_address m.net.lib (some addr)
        then throw ("Unknown pool name: " <> name)
        else pure addr

  unfoldable pub prepare_mint_rate : String → Result Value
  prepare_mint_rate value =
      if m.is_hex_prefixed value then ok (text value) else (elim (m.parse_units value 18) [
        | ok n ↦ ok (text (m.number_text n))
        | thrown e ↦ thrown e
      ])

  -- The timestamp of `setMeltdown`.
  unfoldable pub meltdown_timestamp : String → Result Value
  unfolding to_int32
  meltdown_timestamp date =
      if m.is_hex_prefixed date
      then ok (factor_value (m.parse_int date))
      else (elim (m.parse_date date) [
        | none ↦ thrown ("Invalid date: " <> date)
        | some ms ↦ ok (int (to_int32 (ms / 1000)))
      ])

  abbrev pub share_value : Option String → Result (Option ℕ)
  unfolding prepare_percentage
  share_value none = thrown "TypeError"
  share_value (some v) = prepare_percentage (λ t. m.parse_units t 2) m.parse_int v true

  abbrev pub factor_of : Option String → Result (Option ℕ)
  factor_of none = ok none
  factor_of (some v) = ok (elim (m.parse_int v) [ none ↦ none | some n ↦ some (n * 10000) ])

  -- The pools whose value differs from the one that the chain has, as they stand in the lists.
  unfoldable pub compare_values :
      (String → Act W ℕ)
      → List String
      → List (Option ℕ)
      → Act (Session W) (List (String × Option ℕ))
  compare_values ask [] values = pure []
  compare_values ask (pool ∷ pools) [] = pure []
  compare_values ask (pool ∷ pools) (value ∷ values) = do
    old ← remote (ask pool)
    more ← compare_values ask pools values
    pure (if same_number old value then more else (pool, value) ∷ more)

  -- The promises are all started, whatever the size of a batch, and each does its update when it settles.
  unfoldable pub changed :
      (String → Act W ℕ)
      → List String
      → List (Option ℕ)
      → Act (Session W) (List (String × Option ℕ))
  unfolding compare_values
  changed ask pools values = do found ← compare_values ask pools values; pure (m.settled found)

  unfoldable pub set_factors : Contract → List (String × Option ℕ) → Act (Session W) (Unit {0})
  unfolding call_contract flag_value
  set_factors booster [] = pure tt
  set_factors booster ((pool, value) ∷ rest) = do
    call_contract m.net.get_function (flag (flag_value reward_rate_admin) ∷ []) booster
        "setBoostFactor" (text pool ∷ factor_value value ∷ [])
    set_factors booster rest

  unfoldable pub set_shares : Value → List (String × Option ℕ) → Act (Session W) (Unit {0})
  unfolding call_alias
  set_shares rate [] = pure tt
  set_shares rate (u ∷ us) =
      call_alias reward_booster_impl reward_controller "setBaselinePercentagesAndRate"
        (texts (map (λ p. p.0) (u ∷ us)) ∷ nums (map (λ p. p.1) (u ∷ us)) ∷ rate ∷ [])
        (some reward_rate_admin)
