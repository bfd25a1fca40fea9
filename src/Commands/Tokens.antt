-- ===== src/Commands/Tokens.antt =====
-- Tokens and reward pools by their names: `findToken`, `findPriceTokens`, `getRewardPoolByName`,
-- `_preparePoolNamesAndValues` and `preparePercentage` of tasks/helpers/call-cmd.ts. What is logged is
-- left out, so the `warn` of `_findPriceToken` is too.
pub mod Found
pub mod Pools
use augmented_finance_protoc.Prelude.{
  ℕ, zero, suc, String, Bool, true, false, not, ◌&&◌, ◌||◌, List, [], ◌∷◌, ◌++◌, Option, none, some,
  if◌then◌else◌, Result, ok, thrown, Act, pure, throw, ◌>>=◌, ◌>>◌, ◌<>◌, ◌==◌, eqb, to_lower_case,
  keep, Dict, lookup, insert, index_of, str_take, take,
}
use augmented_finance_protoc.Helpers.Addresses.{AddressLib, falsy_or_zero_address}
use augmented_finance_protoc.Commands.Session.{TokenInfo, Session, remote}

-- `_getTokenList`, which asks once: `fetch` gives the descriptions and their number.
unfoldable pub get_token_list :
    {W : Type 0} → Act W (List TokenInfo × ℕ) → Act (Session W) (List TokenInfo)
get_token_list fetch s = elim (s.token_list) [
  | some tokens ↦ (ok tokens, s)
  | none ↦
      (do
        list ← remote fetch
        let tokens = take list.1 list.0
        λ s'. (ok tokens, record s' { token_list = some tokens }))
        s
]

-- `TokenType.HiddenStake`
abbrev hidden_stake : ℕ
hidden_stake = 7

abbrev pub has_symbol : String → TokenInfo → Bool
unfolding to_lower_case
has_symbol name t = to_lower_case t.token_symbol == to_lower_case name

-- The single token that matched.
unfoldable pub matched_token : String → List TokenInfo → Result TokenInfo
matched_token name [] = thrown ("Unknown token name: " <> name)
matched_token name (t ∷ []) = ok t
matched_token name (t ∷ u ∷ ts) = thrown ("Ambigous token name: " <> name)

module _ (lib : AddressLib) where
  -- `!name || !falsyOrZeroAddress(name)`
  unfoldable pub is_given : String → Bool
  unfolding falsy_or_zero_address
  is_given name = name == "" || not (falsy_or_zero_address lib (some name))

  abbrev proper : String → String → Result String
  unfolding falsy_or_zero_address
  proper message addr = if falsy_or_zero_address lib (some addr) then thrown message else ok addr

  unfoldable pub price_token_in : List TokenInfo → String → Result String
  unfolding matched_token proper has_symbol
  price_token_in tokens name = elim (matched_token name (keep (has_symbol name) tokens)) [
    | thrown e ↦ thrown e
    | ok t ↦ proper ("Token has no pricing token: " <> name) t.price_token
  ]

  unfoldable pub token_in : List TokenInfo → Bool → String → Result String
  unfolding matched_token proper has_symbol
  token_in tokens use_hidden name =
      elim (matched_token name (
        keep (λ t. has_symbol name t && (use_hidden || not (eqb t.token_type hidden_stake)))
          tokens)) [
            | thrown e ↦ thrown e
            | ok t ↦ proper ("Token has no address: " <> name) t.token
          ]

  module _ {W : Type 0} (tokens_fn : Act (Session W) (List TokenInfo)) where
    unfoldable pub find_price_token : String → Act (Session W) String
    unfolding is_given price_token_in
    find_price_token name =
        if is_given name
        then pure name
        else (do tokens ← tokens_fn; λ s. (price_token_in tokens name, s))

    unfoldable pub find_price_tokens : List String → Act (Session W) (List String)
    unfolding find_price_token
    find_price_tokens [] = pure []
    find_price_tokens (name ∷ names) = do
      token ← find_price_token name
      tokens ← find_price_tokens names
      pure (token ∷ tokens)

    unfoldable pub find_token : Bool → String → Act (Session W) String
    unfolding is_given token_in
    find_token use_hidden name =
        if is_given name
        then pure name
        else (do tokens ← tokens_fn; λ s. (token_in tokens use_hidden name, s))

-- A pool that `getRewardPoolByName` has asked for its name and, where it has one, its revision.
pub record PoolEntry : Type 0 where
  pub address : String
  pub pool_name : String
  pub revision : Option String

unfoldable pub pool_key : PoolEntry → String
unfolding to_lower_case
pool_key p = elim (p.revision) [
  | none ↦ to_lower_case p.pool_name
  | some rev ↦ to_lower_case p.pool_name <> "-" <> rev
]

-- The pools in the order in which they have answered; a name that is taken keeps its pool.
unfoldable pub register_pools : List PoolEntry → Dict String → Dict String
unfolding pool_key lookup insert
register_pools [] pools = pools
register_pools (p ∷ ps) pools = register_pools ps (elim (lookup (pool_key p) pools) [
  | none ↦ insert (pool_key p) p.address pools
  | some found ↦ pools
])

abbrev pool_at : {W : Type 0} → AddressLib → String → Option String → Act W String
unfolding falsy_or_zero_address
pool_at lib name none = throw ("Unknown pool name: " <> name)
pool_at lib name (some addr) =
    if falsy_or_zero_address lib (some addr)
    then throw ("Unknown pool name: " <> name)
    else pure addr

module _ {W : Type 0} (lib : AddressLib) (list_pools : Act W (List PoolEntry)) where
  -- The pools are asked for while none is known.
  unfoldable pub known_pools : Act (Session W) (Dict String)
  unfolding register_pools
  known_pools s = elim (s.pools_by_names) [
    | _ ∷ _ ↦ (ok s.pools_by_names, s)
    | [] ↦
        (do
          list ← remote list_pools
          let pools = register_pools list []
          λ s'. (ok pools, record s' { pools_by_names = pools }))
          s
  ]

  unfoldable pub get_reward_pool_by_name : String → Act (Session W) String
  unfolding known_pools pool_at lookup to_lower_case
  get_reward_pool_by_name name = do
    pools ← known_pools
    pool_at lib name (lookup (to_lower_case name) pools)

  -- An argument that is no address names a pool.
  unfoldable pub pool_of_argument : String → Act (Session W) String
  unfolding get_reward_pool_by_name falsy_or_zero_address
  pool_of_argument arg =
      if falsy_or_zero_address lib (some arg) then get_reward_pool_by_name arg else pure arg

  -- `valueFn` is given `undefined` for a pool without a value.
  unfoldable pub prepare_pool_names_and_values :
      {T : Type 0}
      → (Option String → Result T)
      → List String
      → Act (Session W) (List String × List T)
  unfolding pool_of_argument
  prepare_pool_names_and_values value_fn [] = pure ([], [])
  prepare_pool_names_and_values value_fn (a ∷ []) = do
    addr ← pool_of_argument a
    value ← (λ s. (value_fn none, s))
    pure (addr ∷ [], value ∷ [])
  prepare_pool_names_and_values value_fn (a ∷ v ∷ rest) = do
    addr ← pool_of_argument a
    value ← (λ s. (value_fn (some v), s))
    more ← prepare_pool_names_and_values value_fn rest
    pure (addr ∷ more.0, value ∷ more.1)

-- `parseUnits(text, 2)` of ethers and `parseInt` are parameters.
unfoldable pub prepare_percentage :
    (String → Result ℕ) → (String → Option ℕ) → String → Bool → Result (Option ℕ)
unfolding index_of str_take
prepare_percentage parse_units parse_int value strict = elim (index_of 37 value) [
  | some (suc pos) ↦ elim (parse_units (str_take (suc pos) value)) [
    | ok n ↦ ok (some n)
    | thrown e ↦ thrown e
  ]
  | _ ↦ if strict then thrown ("Not a percentage: " <> value) else ok (parse_int value)
]
