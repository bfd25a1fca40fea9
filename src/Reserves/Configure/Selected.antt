-- ===== src/Reserves/Configure/Selected.antt =====
-- Which reserves `configureReservesByHelper` (helpers/init-helpers.ts) configures.
use augmented_finance_protoc.Prelude.{
  is_negative, String, ◌≡◌, refl, ap, ◌∙◌, Bool, true, false, not, ◌&&◌, List, [], ◌∷◌, Option,
  none, some, ok, Act, for_each, Dict, lookup, keep, map, if◌then◌else◌, Bool-cases, inl, inr,
}
use augmented_finance_protoc.Helpers.Addresses.{AddressLib, falsy_or_zero_address}
use augmented_finance_protoc.Helpers.Batches.{chunk}
use augmented_finance_protoc.Reserves.Strategies.{ReserveParams}
use augmented_finance_protoc.Reserves.Configure.{
  ConfigureInput, configure_input, select_at, select_configured, configure_reserves_by_helper,
}

abbrev pub address_or_empty : Option String → String
address_or_empty none = ""
address_or_empty (some addr) = addr

abbrev pub input_for : Dict String → String × ReserveParams → ConfigureInput
input_for addresses (symbol, p) = configure_input (address_or_empty (lookup symbol addresses)) p

module _ (lib : AddressLib) (enabled : String → Bool) (addresses : Dict String) where
  abbrev pub is_free : Option String → Bool
  is_free none = false
  is_free (some addr) = not (falsy_or_zero_address lib (some addr)) && not (enabled addr)

  -- A reserve with an LTV that is not negative and with a proper address, not yet enabled as collateral.
  abbrev pub is_configurable : String × ReserveParams → Bool
  is_configurable (symbol, p) =
      not (is_negative (p.base_ltv_as_collateral)) && is_free (lookup symbol addresses)

map-if :
    {A B : Type 0} (f : A → B) (b : Bool) (x : A) (xs : List A)
    → (if b then f x ∷ map f xs else map f xs) ≡ map f (if b then x ∷ xs else xs)
map-if f true x xs = refl
map-if f false x xs = refl

module _ {W : Type 0} (lib : AddressLib) (enabled : String → Bool) (addresses : Dict String) where
  -- A data provider that answers from a table.
  abbrev pub answers : String → Act W Bool
  answers addr w = (ok (enabled addr), w)

  select_at_lem :
      (p : ReserveParams) (found : Option String) (more : Act W (List ConfigureInput))
      (inputs : List ConfigureInput) (w : W)
      → more w ≡ (ok inputs, w)
      → select_at lib answers addresses p found more w ≡ (
        ok (
            if is_free lib enabled addresses found
            then configure_input (address_or_empty found) p ∷ inputs
            else inputs),
        w,
      )
  unfolding select_at
  select_at_lem p none more inputs w e = e
  select_at_lem p (some addr) more inputs w e =
      elim (Bool-cases (falsy_or_zero_address lib (some addr))) [
        | inl f ↦ rw f e
        | inr f ↦ elim (Bool-cases (enabled addr)) [
          | inl b ↦ rw (f, b) e
          | inr b ↦ rw (f, b, e) refl
        ]
      ]

  select_configured_lem :
      (params : Dict ReserveParams) (w : W)
      → select_configured lib answers addresses params w
        ≡ (ok (map (input_for addresses) (keep (is_configurable lib enabled addresses) params)), w)
  unfolding select_configured
  select_configured_lem [] w = refl
  select_configured_lem ((symbol, p) ∷ rest) w =
      elim (Bool-cases (is_negative (p.base_ltv_as_collateral))) [
        | inl n ↦ rw n (select_configured_lem rest w)
        | inr n ↦ rw n (
            select_at_lem p (lookup symbol addresses) (select_configured lib answers addresses rest)
              _ w (select_configured_lem rest w)
            ∙ ap (λ l. (ok l, w))
                (map-if (input_for addresses) _ (symbol, p)
                  (keep (is_configurable lib enabled addresses) rest)))
      ]

  -- When the data provider answers from a table, the reserves that get configured are exactly those with an LTV
  -- that is not negative, a proper address, and not yet enabled as collateral: they are sent in
  -- their order, each at the address of its symbol, in batches of 20.
  pub configure_reserves_by_helper_lem :
      (configure : List ConfigureInput → Act W (Unit {0})) (params : Dict ReserveParams) (w : W)
      → configure_reserves_by_helper lib answers addresses configure params w
        ≡ for_each configure
            (chunk
              (map (input_for addresses) (keep (is_configurable lib enabled addresses) params))
              20)
            w
  unfolding configure_reserves_by_helper
  configure_reserves_by_helper_lem configure params w = rw (select_configured_lem params w) refl
