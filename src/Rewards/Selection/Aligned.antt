-- ===== src/Rewards/Selection/Aligned.antt =====
-- The arrays that the selection of reward pools fills belong together.
use augmented_finance_protoc.Prelude.{
  ℕ, String, ◌≡◌, refl, ap, ◌∙◌, sym, Bool-cases, inl, inr, false, List, [], ◌∷◌, ◌++◌, Option,
  none, some, All, All-append, map, map-append, get_elem?,
}
use augmented_finance_protoc.Helpers.Addresses.{AddressLib, falsy_or_zero_address}
use augmented_finance_protoc.Rewards.Selection.{
  RewardPoolParams, Prepared, nothing_prepared, SymbolPrefixes, KnownReserve, push_prepared,
  token_symbol, prepare_pool, prepare_type, prepare_types, prepare_pools,
}

-- Names and providers are those of the parameters, index by index, and every provider is a proper
-- address.
pub record IsAligned (lib : AddressLib) (p : Prepared) : Type 0 where
  pub names : p.names ≡ map (λ q. q.pool_name) p.params
  pub providers : p.providers ≡ map (λ q. q.provider) p.params
  pub valid : All (λ q. falsy_or_zero_address lib (some q.provider) ≡ false) p.params

module _ (lib : AddressLib) (prefixes : SymbolPrefixes) where
  push_prepared-IsAligned :
      (name token : String) (share : RewardPoolParams) (p : Prepared)
      → falsy_or_zero_address lib (some token) ≡ false
      → IsAligned lib p
      → IsAligned lib (push_prepared lib prefixes name token share p)
  unfolding push_prepared
  push_prepared-IsAligned name token share p v h = record {
    names = ap (λ ns. ns ++ name ∷ []) h.names ∙ sym (map-append _ p.params _);
    providers = ap (λ ns. ns ++ token ∷ []) h.providers ∙ sym (map-append _ p.params _);
    valid = All-append _ p.params _ h.valid (v, tt);
  }

  prepare_pool-IsAligned :
      (name : String) (share : Option (Option RewardPoolParams)) (token : Option String)
      (p : Prepared)
      → IsAligned lib p
      → IsAligned lib (prepare_pool lib prefixes name share token p)
  unfolding prepare_pool
  prepare_pool-IsAligned name (some (some share)) (some token) p h =
      elim (Bool-cases (falsy_or_zero_address lib (some token))) [
        | inl e ↦ rw e h
        | inr e ↦ rw e (push_prepared-IsAligned name token share p e h)
      ]
  prepare_pool-IsAligned name (some (some share)) none p h = h
  prepare_pool-IsAligned name (some none) token p h = h
  prepare_pool-IsAligned name none token p h = h

  prepare_type-IsAligned :
      (sub_type : ℕ) (rs : List KnownReserve) (p : Prepared)
      → IsAligned lib p
      → IsAligned lib (prepare_type lib prefixes sub_type rs p)
  unfolding prepare_type
  prepare_type-IsAligned sub_type [] p h = h
  prepare_type-IsAligned sub_type (r ∷ rs) p h = prepare_type-IsAligned sub_type rs _ (
      prepare_pool-IsAligned (token_symbol lib prefixes sub_type r.base_symbol)
        (get_elem? r.shares sub_type) (get_elem? r.tokens sub_type) p h)

  prepare_types-IsAligned :
      (ts : List ℕ) (rs : List KnownReserve) (p : Prepared)
      → IsAligned lib p
      → IsAligned lib (prepare_types lib prefixes ts rs p)
  unfolding prepare_types
  prepare_types-IsAligned [] rs p h = h
  prepare_types-IsAligned (t ∷ ts) rs p h =
      prepare_types-IsAligned ts rs _ (prepare_type-IsAligned t rs p h)

  pub prepare_pools-IsAligned :
      (rs : List KnownReserve) → IsAligned lib (prepare_pools lib prefixes rs)
  unfolding prepare_pools
  prepare_pools-IsAligned rs =
      prepare_types-IsAligned (0 ∷ 1 ∷ 3 ∷ 2 ∷ []) rs nothing_prepared
        (record { names = refl; providers = refl; valid = tt })
