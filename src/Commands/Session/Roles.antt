-- ===== src/Commands/Session/Roles.antt =====
-- The flags of the roles, and what the session's summaries say of its calls.
use Prim.Native.Nat.{bit_or}
use augmented_finance_protoc.Prelude.{
  ℕ, String, ◌≡◌, refl, Bool, true, false, ◌&&◌, List, [], ◌∷◌, ◌++◌, some, arith, Result, ok,
  thrown, continue, lookup, eqb, map,
}
use augmented_finance_protoc.Access.Flags.{
  AccessFlag, number, name, flag_name, flag_value, flag_digits, access_flags,
}
use augmented_finance_protoc.Commands.Session.{
  Session, ContractCall, Contract, FunctionFragment, Role, named, add_role, add_roles, apply_call,
  call_contract, new_call, Value,
}

access_flags-flag_name :
    (f : AccessFlag) → access_flags (flag_name f) ≡ some (number (flag_value f))
unfolding access_flags lookup
access_flags-flag_name AccessFlag.emergency_admin = refl
access_flags-flag_name AccessFlag.pool_admin = refl
access_flags-flag_name AccessFlag.treasury_admin = refl
access_flags-flag_name AccessFlag.reward_config_admin = refl
access_flags-flag_name AccessFlag.reward_rate_admin = refl
access_flags-flag_name AccessFlag.stake_admin = refl
access_flags-flag_name AccessFlag.referral_admin = refl
access_flags-flag_name AccessFlag.lending_rate_admin = refl
access_flags-flag_name AccessFlag.sweep_admin = refl
access_flags-flag_name AccessFlag.oracle_admin = refl
access_flags-flag_name AccessFlag.lending_pool = refl
access_flags-flag_name AccessFlag.lending_pool_configurator = refl
access_flags-flag_name AccessFlag.liquidity_controller = refl
access_flags-flag_name AccessFlag.treasury = refl
access_flags-flag_name AccessFlag.reward_token = refl
access_flags-flag_name AccessFlag.reward_stake_token = refl
access_flags-flag_name AccessFlag.reward_controller = refl
access_flags-flag_name AccessFlag.reward_configurator = refl
access_flags-flag_name AccessFlag.stake_configurator = refl
access_flags-flag_name AccessFlag.referral_registry = refl
access_flags-flag_name AccessFlag.weth_gateway = refl
access_flags-flag_name AccessFlag.data_helper = refl
access_flags-flag_name AccessFlag.price_oracle = refl
access_flags-flag_name AccessFlag.lending_rate_oracle = refl

access_flags-flag_digits :
    (f : AccessFlag) → access_flags (flag_digits f) ≡ some (name (flag_name f))
unfolding access_flags lookup
access_flags-flag_digits AccessFlag.emergency_admin = refl
access_flags-flag_digits AccessFlag.pool_admin = refl
access_flags-flag_digits AccessFlag.treasury_admin = refl
access_flags-flag_digits AccessFlag.reward_config_admin = refl
access_flags-flag_digits AccessFlag.reward_rate_admin = refl
access_flags-flag_digits AccessFlag.stake_admin = refl
access_flags-flag_digits AccessFlag.referral_admin = refl
access_flags-flag_digits AccessFlag.lending_rate_admin = refl
access_flags-flag_digits AccessFlag.sweep_admin = refl
access_flags-flag_digits AccessFlag.oracle_admin = refl
access_flags-flag_digits AccessFlag.lending_pool = refl
access_flags-flag_digits AccessFlag.lending_pool_configurator = refl
access_flags-flag_digits AccessFlag.liquidity_controller = refl
access_flags-flag_digits AccessFlag.treasury = refl
access_flags-flag_digits AccessFlag.reward_token = refl
access_flags-flag_digits AccessFlag.reward_stake_token = refl
access_flags-flag_digits AccessFlag.reward_controller = refl
access_flags-flag_digits AccessFlag.reward_configurator = refl
access_flags-flag_digits AccessFlag.stake_configurator = refl
access_flags-flag_digits AccessFlag.referral_registry = refl
access_flags-flag_digits AccessFlag.weth_gateway = refl
access_flags-flag_digits AccessFlag.data_helper = refl
access_flags-flag_digits AccessFlag.price_oracle = refl
access_flags-flag_digits AccessFlag.lending_rate_oracle = refl

flag_value-pos : (f : AccessFlag) → eqb (flag_value f) 0 ≡ false
unfolding flag_value
flag_value-pos AccessFlag.emergency_admin = refl
flag_value-pos AccessFlag.pool_admin = refl
flag_value-pos AccessFlag.treasury_admin = refl
flag_value-pos AccessFlag.reward_config_admin = refl
flag_value-pos AccessFlag.reward_rate_admin = refl
flag_value-pos AccessFlag.stake_admin = refl
flag_value-pos AccessFlag.referral_admin = refl
flag_value-pos AccessFlag.lending_rate_admin = refl
flag_value-pos AccessFlag.sweep_admin = refl
flag_value-pos AccessFlag.oracle_admin = refl
flag_value-pos AccessFlag.lending_pool = refl
flag_value-pos AccessFlag.lending_pool_configurator = refl
flag_value-pos AccessFlag.liquidity_controller = refl
flag_value-pos AccessFlag.treasury = refl
flag_value-pos AccessFlag.reward_token = refl
flag_value-pos AccessFlag.reward_stake_token = refl
flag_value-pos AccessFlag.reward_controller = refl
flag_value-pos AccessFlag.reward_configurator = refl
flag_value-pos AccessFlag.stake_configurator = refl
flag_value-pos AccessFlag.referral_registry = refl
flag_value-pos AccessFlag.weth_gateway = refl
flag_value-pos AccessFlag.data_helper = refl
flag_value-pos AccessFlag.price_oracle = refl
flag_value-pos AccessFlag.lending_rate_oracle = refl

-- The bitwise or of flags, from `acc` on.
abbrev pub or_values : List AccessFlag → ℕ → ℕ
or_values [] acc = acc
or_values (f ∷ fs) acc = or_values fs (bit_or acc (flag_value f))

abbrev pub by_name : AccessFlag → Role
by_name f = named (flag_name f)

add_role-by_name :
    (f : AccessFlag) (acc : ℕ) → add_role acc (by_name f) ≡ ok (bit_or acc (flag_value f))
unfolding add_role
add_role-by_name f acc = ground (arith, access_flags-flag_name f, flag_value-pos f)

add_role-digits : (f : AccessFlag) (acc : ℕ) → add_role acc (named (flag_digits f)) ≡ ok acc
unfolding add_role
add_role-digits f acc = ground (arith, access_flags-flag_digits f)

-- Roles given by the names of flags are never refused, and their flags are the bitwise or of the values.
add_roles-by_name :
    (fs : List AccessFlag) (acc : ℕ) → add_roles (map by_name fs) acc ≡ ok (or_values fs acc)
unfolding add_roles
add_roles-by_name [] acc = refl
add_roles-by_name (f ∷ fs) acc =
    ground (arith, add_role-by_name f acc, add_roles-by_name fs (bit_or acc (flag_value f)))

-- A role given by the number of a flag as a text is not refused, but adds no flag: the enum maps that
-- text back to a name, and `|=` with a name changes nothing.
pub add_roles-digits :
    (f : AccessFlag) (rs : List Role) (acc : ℕ)
    → add_roles (named (flag_digits f) ∷ rs) acc ≡ add_roles rs acc
unfolding add_roles
add_roles-digits f rs acc = ground (arith, add_role-digits f acc)

abbrev pub or_calls : List ContractCall → ℕ → ℕ
or_calls [] acc = acc
or_calls (c ∷ cs) acc = or_calls cs (bit_or acc c.access_flags)

abbrev pub and_calls : List ContractCall → Bool → Bool
and_calls [] acc = acc
and_calls (c ∷ cs) acc = and_calls cs (acc && c.is_static)

or_calls-append :
    (cs : List ContractCall) (c : ContractCall) (acc : ℕ)
    → or_calls (cs ++ c ∷ []) acc ≡ bit_or (or_calls cs acc) c.access_flags
or_calls-append [] c acc = refl
or_calls-append (d ∷ cs) c acc = or_calls-append cs c (bit_or acc d.access_flags)

and_calls-append :
    (cs : List ContractCall) (c : ContractCall) (acc : Bool)
    → and_calls (cs ++ c ∷ []) acc ≡ (and_calls cs acc && c.is_static)
and_calls-append [] c acc = refl
and_calls-append (d ∷ cs) c acc = and_calls-append cs c (acc && d.is_static)

-- The summaries agree with the calls: the flags are the bitwise or of theirs, and `all_static` says
-- whether all of them are static.
pub record IsSummary {W : Type 0} (s : Session W) : Type 0 where
  pub flags : s.all_flags ≡ or_calls s.calls 0
  pub static : s.all_static ≡ and_calls s.calls true

module _ {W : Type 0} where
  apply_call-IsSummary :
      (call : ContractCall) (s : Session W) → IsSummary s → IsSummary (apply_call call s).1
  unfolding apply_call
  apply_call-IsSummary call s v = record {
    flags = rw (or_calls-append s.calls call 0, v.flags) refl;
    static = rw (and_calls-append s.calls call true, v.static) refl;
  }

  -- What a run of `call_contract` from `s` does.
  abbrev pub IsOneCall : Contract → List Value → Session W → Result (Unit {0}) × Session W → Type 0
  IsOneCall contract args s (ok _, s') =
      (call : ContractCall) × (s'.calls ≡ s.calls ++ call ∷ [])
      × (call.contract ≡ contract)
      × (call.args ≡ args)
  IsOneCall contract args s (thrown e, s') = s' ≡ s

  -- `call_contract` keeps the summaries right, returned or thrown; if it throws, the session is as
  -- before; and if it returns, it has added one call at the end, of this contract with these
  -- arguments.
  pub call_contract_lem :
      (get_function : Contract → String → Result FunctionFragment) (roles : List Role)
      (contract : Contract) (func_name : String) (args : List Value) (s : Session W)
      → IsSummary s
      → IsSummary (call_contract get_function roles contract func_name args s).1
        × IsOneCall contract args s (call_contract get_function roles contract func_name args s)
  unfolding call_contract
  call_contract_lem get_function roles contract func_name args s v = by_roles (add_roles roles 0)
    where
      by_fragment :
          (flags : ℕ) (r : Result FunctionFragment)
          → let p =
              continue (λ fragment. apply_call (new_call flags contract args fragment)) (r, s) in
            IsSummary p.1 × IsOneCall contract args s p
      by_fragment flags (ok fragment) = (
        apply_call-IsSummary (new_call flags contract args fragment) s v,
        (new_call flags contract args fragment, refl, refl, refl),
      )
      by_fragment flags (thrown e) = (v, refl)

      by_roles :
          (r : Result ℕ)
          → let p =
              continue
                (λ flags t.
                  continue
                    (λ fragment. apply_call (new_call flags contract args fragment))
                    (get_function contract func_name, t))
                (r, s) in
            IsSummary p.1 × IsOneCall contract args s p
      by_roles (ok flags) = by_fragment flags (get_function contract func_name)
      by_roles (thrown e) = (v, refl)
