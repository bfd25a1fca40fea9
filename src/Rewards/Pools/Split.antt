-- ===== src/Rewards/Pools/Split.antt =====
-- Which pools are created, which are only initialised and which are left alone, and how they are
-- initialised.
use augmented_finance_protoc.Prelude.{
  ℕ, ◌+◌, ltb, String, ◌≡◌, refl, ap, ◌∙◌, sym, Bool-cases, inl, inr, Bool, true, false, ◌||◌, List,
  [], ◌∷◌, ◌++◌, some, append-nil, append_assoc, get_elem?, if◌then◌else◌, ok, thrown, arith,
}
use augmented_finance_protoc.Helpers.Addresses.{AddressLib, falsy_or_zero_address}
use augmented_finance_protoc.Helpers.Batches.{chunk}
use augmented_finance_protoc.Helpers.Batches.Awaited.{await_all, for_each-await_all}
use augmented_finance_protoc.Helpers.Batches.Order.{chunk_lem}
use augmented_finance_protoc.Rewards.Selection.{PoolInitParams}
use augmented_finance_protoc.Rewards.Pools.{
  Configurator, Chosen, nothing_chosen, zero_address, push_chosen, pool_impl, choose_pool,
  choose_pools, init_pools, add_shares,
}

module _ (lib : AddressLib) (addr : String) (pools controllers : List String) where
  -- The pools that are to be initialised, with the implementation at `addr` for those to be created.
  abbrev pub wanted : ℕ → List PoolInitParams → List PoolInitParams
  wanted i [] = []
  wanted i (p ∷ ps) =
      if falsy_or_zero_address lib (get_elem? pools i)
      then record p { impl = addr } ∷ wanted (i + 1) ps
      else (if falsy_or_zero_address lib (get_elem? controllers i)
          then record p { impl = zero_address } ∷ wanted (i + 1) ps
          else wanted (i + 1) ps)

  -- Whether a pool is to be created.
  abbrev pub some_missing : ℕ → List PoolInitParams → Bool
  some_missing i [] = false
  some_missing i (p ∷ ps) = falsy_or_zero_address lib (get_elem? pools i) || some_missing (i + 1) ps

-- The implementation is deployed at `addr`.
module _ {W : Type 0} (configurator : Configurator W) (lib : AddressLib) (addr : String)
    (deployed : W → W) (names pools controllers : List String)
    (deploys : (s : W)
      → configurator.deploy_token_weighted_reward_pool_impl s ≡ (ok addr, deployed s))
    (valid : falsy_or_zero_address lib (some addr) ≡ false)
    (zero : falsy_or_zero_address lib (some zero_address) ≡ true) where
  abbrev impl_of : Bool → String
  impl_of done = if done then addr else zero_address

  abbrev after : Bool → W → W
  after now s = if now then deployed s else s

  pool_impl_lem :
      (done : Bool) (s : W)
      → pool_impl configurator lib (impl_of done) s ≡ (ok addr, (if done then s else deployed s))
  unfolding pool_impl
  pool_impl_lem true s = rw valid
  pool_impl_lem false s = rw zero (deploys s)

  abbrev Step : (p : PoolInitParams) → (i : ℕ) → Chosen → W → Chosen → W → Type 0
  Step p i c s c' s' =
      choose_pool configurator lib p (get_elem? names i) (get_elem? pools i)
        (get_elem? controllers i) c s
      ≡ (ok c', s')

  choose_missing :
      (p : PoolInitParams) (i : ℕ) (done : Bool) (c : Chosen) (s : W)
      → c.impl ≡ impl_of done
      → falsy_or_zero_address lib (get_elem? pools i) ≡ true
      → Step p i c s
          (push_chosen addr p (get_elem? names i) (record c { impl = addr }))
          (if done then s else deployed s)
  unfolding choose_pool
  choose_missing p i done c s e m = rw m (rw (e, pool_impl_lem done s) refl)

  choose_known :
      (p : PoolInitParams) (i : ℕ) (c : Chosen) (s : W)
      → falsy_or_zero_address lib (get_elem? pools i) ≡ false
      → falsy_or_zero_address lib (get_elem? controllers i) ≡ true
      → Step p i c s (push_chosen zero_address p (get_elem? names i) c) s
  unfolding choose_pool
  choose_known p i c s m f = rw (m, f)

  choose_active :
      (p : PoolInitParams) (i : ℕ) (c : Chosen) (s : W)
      → falsy_or_zero_address lib (get_elem? pools i) ≡ false
      → falsy_or_zero_address lib (get_elem? controllers i) ≡ false
      → Step p i c s c s
  unfolding choose_pool
  choose_active p i c s m f = rw (m, f)

  choose_pools_from :
      (i : ℕ) (ps : List PoolInitParams) (done : Bool) (c : Chosen) (s : W)
      → c.impl ≡ impl_of done
      → (c' : Chosen) × (choose_pools configurator lib names pools controllers i ps c s
          ≡ (ok c', (if done then s else after (some_missing lib addr pools controllers i ps) s)))
        × (c'.params ≡ c.params ++ wanted lib addr pools controllers i ps)
  unfolding choose_pools
  choose_pools_from i [] true c s e = (c, refl, sym (append-nil c.params))
  choose_pools_from i [] false c s e = (c, refl, sym (append-nil c.params))
  choose_pools_from i (p ∷ ps) done c s e =
      elim (Bool-cases (falsy_or_zero_address lib (get_elem? pools i))) [
        | inl m ↦
            let c1 = push_chosen addr p (get_elem? names i) (record c { impl = addr }) in
            let (c', run, params) =
              choose_pools_from (i + 1) ps true c1 (if done then s else deployed s) refl in
            (
              c',
              rw (choose_missing p i done c s e m, m) run,
              rw m (params ∙ append_assoc c.params _ _),
            )
        | inr m ↦ elim (Bool-cases (falsy_or_zero_address lib (get_elem? controllers i))) [
          | inl f ↦
              let c1 = push_chosen zero_address p (get_elem? names i) c in
              let (c', run, params) = choose_pools_from (i + 1) ps done c1 s e in
              (
                c',
                rw (choose_known p i c s m f, m) run,
                rw (m, f) (params ∙ append_assoc c.params _ _),
              )
          | inr f ↦
              let (c', run, params) = choose_pools_from (i + 1) ps done c s e in
              (c', rw (choose_active p i c s m f, m) run, rw (m, f) params)
        ]
      ]

  -- If the implementation can be deployed, the pools that get initialised are just those of tokens with
  -- no pool, which get that implementation, and those of pools with no controller, which get none, in
  -- order; and the implementation is deployed exactly once if a pool is missing, and else not at all.
  pub choose_pools_lem :
      (ps : List PoolInitParams) (s : W)
      → (c : Chosen) × (choose_pools configurator lib names pools controllers 0 ps nothing_chosen s
          ≡ (ok c, (if some_missing lib addr pools controllers 0 ps then deployed s else s)))
        × (c.params ≡ wanted lib addr pools controllers 0 ps)
  choose_pools_lem ps s = choose_pools_from 0 ps false nothing_chosen s refl

-- The sum of the shares.
abbrev pub sum_shares : List PoolInitParams → ℕ
sum_shares [] = 0
sum_shares (p ∷ ps) = p.baseline_percentage + sum_shares ps

add_shares_lem :
    (total : ℕ) (ps : List PoolInitParams) → add_shares total ps ≡ total + sum_shares ps
unfolding add_shares
add_shares_lem total [] = omega arith
add_shares_lem total (p ∷ ps) = add_shares_lem (total + p.baseline_percentage) ps ∙ omega arith

module _ (configurator : Configurator (List PoolInitParams)) (lib : AddressLib) where
  -- A configurator that keeps the pools that it was told to initialise.
  abbrev pub recording : Configurator (List PoolInitParams)
  recording = record configurator { batch_init_reward_pools = await_all }

  -- If the share of the pools that exist and of those that are asked for is above 10000, the task
  -- throws and no pool is initialised; else all that are asked for are initialised, in order.
  pub init_pools_lem :
      (total : ℕ) (ps log : List PoolInitParams)
      → init_pools recording lib (add_shares total ps) ps log ≡ (
          if ltb 10000 (total + sum_shares ps)
          then (thrown "excessive total reward share", log)
          else (ok tt, log ++ ps))
  unfolding init_pools
  init_pools_lem total ps log =
      rw (add_shares_lem total ps) (elim (Bool-cases (ltb 10000 (total + sum_shares ps))) [
        | inl e ↦ rw e
        | inr e ↦
            rw e
              (for_each-await_all (chunk ps 4) log ∙ ap (λ l. (ok tt, log ++ l)) (chunk_lem ps 3).0)
      ])
