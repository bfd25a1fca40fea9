-- ===== src/Rewards/Extra/Deployed.antt =====
-- The missing pools are deployed.
use native.Mathlib.Nat.{add-zero, add_assoc}
use augmented_finance_protoc.Prelude.{
  ℕ, ◌+◌, String, ◌≡◌, refl, ◌∙◌, sym, Bool-cases, inl, inr, List, [], ◌∷◌, ◌++◌, Option, none,
  some, append-nil, append_assoc, map, Act, ok, for_each, arith,
}
use augmented_finance_protoc.Helpers.Addresses.{AddressLib, falsy_or_zero_address}
use augmented_finance_protoc.Reserves.Plan.{has}
use augmented_finance_protoc.Rewards.Selection.{RewardPoolParams}
use augmented_finance_protoc.Rewards.Extra.{
  TeamPool, PermiRewardPool, ExtraPools, Named, push_named, team_pool_name, ref_pool_name,
  burn_pool_name, retro_pool_name, treasury_pool_name, deploy_team_pool, deploy_referral_pool,
  referral_pool_at, deploy_treasury_pool, add_provider, deploy_permit_pool, register_named_pools,
  deploy_missing,
}
use augmented_finance_protoc.Rewards.Extra.Deployable.{
  Addresses, logging, Event, Entry, share_of, team_names, team_share, team_log, referral_entry,
  referral_log, treasury_entry, treasury_log, is_passed, permit_entry, providers_log, permit_log,
  entries, naming_log, whole_log,
}

-- Entries added one after another.
abbrev push_all : List Entry → Named → Named
push_all [] n = n
push_all (e ∷ es) n = push_all es (push_named e.addr e.name e.factor e.share n)

push_all-append :
    (es fs : List Entry) (n : Named) → push_all (es ++ fs) n ≡ push_all fs (push_all es n)
push_all-append [] fs n = refl
push_all-append (e ∷ es) fs n = push_all-append es fs (push_named e.addr e.name e.factor e.share n)

push_all_lem :
    (es : List Entry) (n : Named)
    → push_all es n ≡ record {
      addrs = n.addrs ++ map (λ e. e.addr) es;
      names = n.names ++ map (λ e. e.name) es;
      factors = n.factors ++ map (λ e. e.factor) es;
      total_share = n.total_share + share_of es;
    }
push_all_lem [] n =
    rw (append-nil n.addrs, append-nil n.names, append-nil n.factors, add-zero n.total_share) refl
push_all_lem (e ∷ es) n =
    push_all_lem es (push_named e.addr e.name e.factor e.share n)
    ∙ rw
        (
          append_assoc n.addrs (e.addr ∷ []) (map (λ x. x.addr) es),
          append_assoc n.names (e.name ∷ []) (map (λ x. x.name) es),
          append_assoc n.factors (e.factor ∷ []) (map (λ x. x.factor) es),
          add_assoc n.total_share e.share (share_of es),
        )
        refl

module _ (a : Addresses) (lib : AddressLib) (known : List String) where
  -- What an action does with the entries and the log.
  abbrev Deploys : Act (List Event) Named → List Entry → Named → List Event → List Event → Type 0
  Deploys m es n log log' = m log ≡ (ok (push_all es n), log')

  deploy_team_pool_lem :
      (pool : Option TeamPool) (log : List Event)
      → deploy_team_pool (logging a) lib known pool log ≡ (
        ok (team_names a lib known pool, team_share a lib known pool),
        team_log a lib known pool log,
      )
  unfolding deploy_team_pool
  deploy_team_pool_lem none log = refl
  deploy_team_pool_lem (some p) log = elim (Bool-cases (has team_pool_name known)) [
    | inl e ↦ rw e refl
    | inr e ↦ rw e refl
  ]

  deploy_referral_pool_lem :
      (pool : Option RewardPoolParams) (n : Named) (log : List Event)
      → Deploys
          (deploy_referral_pool (logging a) lib known pool n)
          (referral_entry a lib known pool)
          n
          log
          (referral_log a lib known pool log)
  unfolding deploy_referral_pool referral_pool_at
  deploy_referral_pool_lem none n log = refl
  deploy_referral_pool_lem (some p) n log = elim (Bool-cases (has ref_pool_name known)) [
    | inl e ↦ rw e refl
    | inr e ↦ elim (Bool-cases (falsy_or_zero_address lib (some a.registry))) [
      | inl f ↦ rw (e, f) refl
      | inr f ↦ rw (e, f) refl
    ]
  ]

  deploy_treasury_pool_lem :
      (pool : Option RewardPoolParams) (n : Named) (log : List Event)
      → Deploys
          (deploy_treasury_pool (logging a) lib known pool n)
          (treasury_entry a lib known pool)
          n
          log
          (treasury_log a lib known pool log)
  unfolding deploy_treasury_pool
  deploy_treasury_pool_lem none n log = refl
  deploy_treasury_pool_lem (some p) n log = elim (Bool-cases (has treasury_pool_name known)) [
    | inl e ↦ rw e refl
    | inr e ↦ rw e refl
  ]

  providers_lem :
      (pool : String) (ps : List String) (log : List Event)
      → for_each (add_provider (logging a) lib known pool) ps log
        ≡ (ok tt, providers_log a lib known pool ps log)
  unfolding for_each add_provider
  providers_lem pool [] log = refl
  providers_lem pool (p ∷ ps) log = elim (Bool-cases (falsy_or_zero_address lib (some p))) [
    | inl e ↦ rw e (providers_lem pool ps log)
    | inr e ↦ rw e (providers_lem pool ps _)
  ]

  deploy_permit_pool_lem :
      (name : String) (pool : Option PermiRewardPool) (n : Named) (log : List Event)
      → Deploys
          (deploy_permit_pool (logging a) lib known name pool n)
          (permit_entry a lib known name pool)
          n
          log
          (permit_log a lib known name pool log)
  unfolding deploy_permit_pool
  deploy_permit_pool_lem name none n log = refl
  deploy_permit_pool_lem name (some p) n log = elim (Bool-cases (is_passed a lib known name p)) [
    | inl e ↦ rw e refl
    | inr e ↦ rw e (rw (providers_lem (a.freezer name) p.providers _) refl)
  ]

  abbrev nothing_named : ℕ → Named
  nothing_named share = record { addrs = []; names = []; factors = []; total_share = share }

  register_named_pools_lem :
      (extra : List String) (share : ℕ) (es : List Entry) (log : List Event)
      → register_named_pools (logging a) lib known extra (push_all es (nothing_named share)) log
        ≡ (ok (extra ++ map (λ e. e.name) es, share + share_of es), naming_log a lib known es log)
  unfolding register_named_pools
  register_named_pools_lem extra share [] log = rw (append-nil extra, add-zero share) refl
  register_named_pools_lem extra share (e ∷ es) log =
      rw (push_all_lem (e ∷ es) (nothing_named share)) (ground arith)

  entries-pushed :
      (pools : ExtraPools) (n : Named)
      → push_all (permit_entry a lib known retro_pool_name pools.retro_pool) (
          push_all (permit_entry a lib known burn_pool_name pools.burners_pool) (
            push_all
              (treasury_entry a lib known pools.treasury_pool)
              (push_all (referral_entry a lib known pools.referral_pool) n)))
        ≡ push_all (entries a lib known pools) n
  entries-pushed pools n =
      let rf = referral_entry a lib known pools.referral_pool in
      let tr = treasury_entry a lib known pools.treasury_pool in
      let bu = permit_entry a lib known burn_pool_name pools.burners_pool in
      let re = permit_entry a lib known retro_pool_name pools.retro_pool in
      sym (
        push_all-append rf (tr ++ (bu ++ re)) n
        ∙ push_all-append tr (bu ++ re) (push_all rf n)
        ∙ push_all-append bu re (push_all tr (push_all rf n)))

  -- With contracts that answer and write down what they do, exactly the pools that are configured and not
  -- known yet are deployed, each with its parameters, in the order team, referrals, treasury, burners and
  -- retro: the team pool is configured with its members, the referral pool only comes about if there is no
  -- referral registry, and the pools with frozen rewards get their providers. All but the team pool are then
  -- registered together, with their addresses, names and factors, unless there is none. What is
  -- returned are the names of all and the sum of their shares, where frozen rewards have none.
  pub deploy_missing_lem :
      (pools : ExtraPools) (log : List Event)
      → deploy_missing (logging a) lib known pools log ≡ (
        ok (
          team_names a lib known pools.team_pool ++ map (λ e. e.name) (entries a lib known pools),
          team_share a lib known pools.team_pool + share_of (entries a lib known pools),
        ),
        whole_log a lib known pools log,
      )
  unfolding deploy_missing
  deploy_missing_lem pools log =
      let n0 = nothing_named (team_share a lib known pools.team_pool) in
      rw
        (
          deploy_team_pool_lem pools.team_pool log,
          deploy_referral_pool_lem pools.referral_pool n0 _,
          deploy_treasury_pool_lem pools.treasury_pool _ _,
          deploy_permit_pool_lem burn_pool_name pools.burners_pool _ _,
          deploy_permit_pool_lem retro_pool_name pools.retro_pool _ _,
          entries-pushed pools n0,
        )
        (register_named_pools_lem (team_names a lib known pools.team_pool)
          (team_share a lib known pools.team_pool) (entries a lib known pools) _)
