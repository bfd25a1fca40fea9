-- ===== src/Migrations/Finalize/Fresh.antt =====
-- The id under which a provider is registered that has none.
use augmented_finance_protoc.Prelude.{
  ℕ, ◌+◌, ◌≤◌, ◌<◌, ltb, String, ◌≡◌, refl, false, List, [], ◌∷◌, some, ok, arith, All,
  if◌then◌else◌, Bool-cases, inl, inr,
}
use augmented_finance_protoc.Helpers.Addresses.{AddressLib, falsy_or_zero_address}
use augmented_finance_protoc.Migrations.Finalize.{
  Market, max_id_loop, find_max_provider_id, choose_id,
}

module _ {W : Type 0} (market : Market W) (lib : AddressLib) (registry : String)
    (ids : String → ℕ) where
  -- The registry answers from the table `ids`.
  abbrev pub Answers : Type 0
  Answers =
      (addr : String) (w : W)
      → market.get_addresses_provider_id_by_address registry addr w ≡ (ok (ids addr), w)

  abbrev pub IsAbove : ℕ → String → Type 0
  IsAbove n addr = falsy_or_zero_address lib (some addr) ≡ false → ids addr < n

  abbrev IsMaximum : ℕ → List String → ℕ → Type 0
  IsMaximum start addrs r = (start ≤ r) × All (IsAbove (r + 1)) addrs

  max_id_loop-IsMaximum :
      Answers
      → (start : ℕ) (addrs : List String) (w : W)
      → (r : ℕ) × (max_id_loop market lib registry start addrs w ≡ (ok r, w))
        × (start ≤ r)
        × All (IsAbove (r + 1)) addrs
  unfolding max_id_loop
  max_id_loop-IsMaximum table start [] w = (start, refl, omega arith, tt)
  max_id_loop-IsMaximum table start (addr ∷ addrs) w =
      elim (Bool-cases (falsy_or_zero_address lib (some addr))) [
        | inl bad ↦
            let (r, run, low, all) = max_id_loop-IsMaximum table start addrs w in
            (r, rw bad run, low, (λ good. cc, all))
        | inr good ↦
            let next : ℕ = if ltb start (ids addr) then ids addr else start in
            let (r, run, low, all) = max_id_loop-IsMaximum table next addrs w in
            (r, rw (good, table addr w) run, ground arith, (λ _. ground arith, all))
      ]

  -- A provider that has no id, for which none is configured, gets an id that is positive and larger
  -- than the id of every proper address of the list of the registry. So it is the id of none of them.
  pub choose_id-IsFresh :
      (addrs : List String) (w : W)
      → Answers
      → market.get_addresses_providers_list registry w ≡ (ok addrs, w)
      → (n : ℕ) × (choose_id market lib registry 0 0 w ≡ (ok n, w))
        × (0 < n)
        × All (IsAbove n) addrs
  unfolding choose_id find_max_provider_id
  choose_id-IsFresh addrs w table listed =
      let (r, run, low, all) = max_id_loop-IsMaximum table 0 addrs w in
      (r + 1, rw (listed, run) refl, omega arith, all)
