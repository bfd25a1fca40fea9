-- ===== src/Commands/Dispatch/Whole.antt =====
-- Which calls are encoded, simulated or sent.
use std.Path.{subst}
use augmented_finance_protoc.Prelude.{
  ℕ, String, ◌≡◌, refl, inl, inr, Bool, true, false, ◌&&◌, ◌||◌, List, [], ◌∷◌, ◌++◌, ◌==◌, eqb,
  eqb_iff, Bool-cases, if◌then◌else◌, Result, ok, thrown, append_assoc, append-nil, sym, ◌∙◌,
}
use augmented_finance_protoc.Commands.Session.{Contract, ContractCall, Value}
use augmented_finance_protoc.Commands.Dispatch.{
  CallWithRoles, Dispatch, nothing, encode_one, encode_batch, static_one, static_batch, send_one,
  send_batch, and_then, encoded, entry_of, push_calls, prepare_call_with_roles_args, encode_calls,
  static_calls, send_calls, dispatch,
}

module _ (encode : Contract → String → List Value → Result String) where
  -- The entry has the flags of the call, no flag of its own, the address of the contract and the encoded
  -- arguments.
  abbrev pub IsEntryOf : ContractCall → CallWithRoles → Type 0
  IsEntryOf c e =
      (e.access_flags ≡ c.access_flags)
      × (e.call_flag ≡ 0)
      × (e.call_addr ≡ c.contract.address)
      × (encode c.contract c.fn_name c.args ≡ ok e.call_data)

  -- One entry for each call, in their order.
  abbrev pub AreEntriesOf : List ContractCall → List CallWithRoles → Type 0
  AreEntriesOf [] [] = Unit
  AreEntriesOf (c ∷ cs) (e ∷ es) = IsEntryOf c e × AreEntriesOf cs es
  AreEntriesOf [] (e ∷ es) = ⊥
  AreEntriesOf (c ∷ cs) [] = ⊥

  -- One call goes to its contract only if it is the only one and no role is asked for; a batch has them all.
  abbrev pub IsWhole : List ContractCall → ℕ → Dispatch → Type 0
  IsWhole calls flags nothing = calls ≡ []
  IsWhole calls flags (encode_one to payload) =
      (flags ≡ 0)
      × ((c : ContractCall) × (calls ≡ c ∷ [])
          × (c.contract.address ≡ to)
          × (encode c.contract c.fn_name c.args ≡ ok payload))
  IsWhole calls flags (static_one c) = (flags ≡ 0) × (calls ≡ c ∷ [])
  IsWhole calls flags (send_one c wait) = (flags ≡ 0) × (calls ≡ c ∷ [])
  IsWhole calls flags (encode_batch es needless) = AreEntriesOf calls es
  IsWhole calls flags (static_batch es) = AreEntriesOf calls es
  IsWhole calls flags (send_batch es wait) = AreEntriesOf calls es

  abbrev WholeIfOk : List ContractCall → ℕ → Result Dispatch → Type 0
  WholeIfOk calls flags (ok d) = IsWhole calls flags d
  WholeIfOk calls flags (thrown e) = Unit

  -- What `push_calls` gives starts with the entries so far.
  abbrev Extends : List CallWithRoles → List ContractCall → Result (List CallWithRoles) → Type 0
  Extends entries cs (ok all) =
      (es : List CallWithRoles) × (all ≡ entries ++ es) × AreEntriesOf cs es
  Extends entries cs (thrown e) = Unit

  Extends-one :
      (entries : List CallWithRoles) (c : ContractCall) (cs : List ContractCall) (payload : String)
      (r : Result (List CallWithRoles))
      → encoded encode c ≡ ok payload
      → Extends (entries ++ entry_of encode c payload ∷ []) cs r
      → Extends entries (c ∷ cs) r
  Extends-one entries c cs payload (ok all) e (es, h, v) = (
    entry_of encode c payload ∷ es,
    h ∙ append_assoc entries (entry_of encode c payload ∷ []) es,
    ((refl, refl, refl, e), v),
  )
  Extends-one entries c cs payload (thrown m) e h = tt

  push_calls-Extends :
      (cs : List ContractCall) (entries : List CallWithRoles)
      → Extends entries cs (push_calls encode entries cs)
  unfolding push_calls
  push_calls-Extends [] entries = ([], sym (append-nil entries), tt)
  push_calls-Extends (c ∷ cs) entries =
      by_payload (encoded encode c) refl (λ payload. push_calls-Extends cs _)
    where
      by_payload :
          (r : Result String)
          → encoded encode c ≡ r
          → ((payload : String)
              → Extends
                  (entries ++ entry_of encode c payload ∷ [])
                  cs
                  (push_calls encode (entries ++ entry_of encode c payload ∷ []) cs))
          → Extends entries (c ∷ cs) (
              and_then r
                (λ payload. push_calls encode (entries ++ entry_of encode c payload ∷ []) cs))
      by_payload (ok payload) e rest = Extends-one entries c cs payload _ e (rest payload)
      by_payload (thrown m) e rest = tt

  -- A batch has all the calls.
  batch-WholeIfOk :
      (calls : List ContractCall) (flags : ℕ) (f : List CallWithRoles → Dispatch)
      → ((es : List CallWithRoles) → AreEntriesOf calls es → IsWhole calls flags (f es))
      → WholeIfOk calls flags
          (and_then (prepare_call_with_roles_args encode calls) (λ es. ok (f es)))
  unfolding prepare_call_with_roles_args
  batch-WholeIfOk calls flags f h =
      by_entries (push_calls encode [] calls) (push_calls-Extends calls [])
    where
      by_entries :
          (r : Result (List CallWithRoles))
          → Extends [] calls r
          → WholeIfOk calls flags (and_then r (λ es. ok (f es)))
      by_entries (ok all) (es, e, v) = rw e (h es v)
      by_entries (thrown m) v = tt

  encode_calls-WholeIfOk :
      (calls : List ContractCall) (flags : ℕ) (all_static : Bool)
      → WholeIfOk calls flags (encode_calls encode calls flags all_static)
  unfolding encode_calls
  encode_calls-WholeIfOk calls flags all_static = by_single calls
    where
      batch : List CallWithRoles → Dispatch
      batch es = encode_batch es (all_static && eqb flags 0)

      encoded_one :
          (c : ContractCall) (r : Result String)
          → flags ≡ 0
          → encoded encode c ≡ r
          → WholeIfOk
              (c ∷ [])
              flags
              (and_then r (λ payload. ok (encode_one c.contract.address payload)))
      encoded_one c (ok payload) z e = (z, (c, refl, refl, e))
      encoded_one c (thrown m) z e = tt

      by_single :
          (cs : List ContractCall) → WholeIfOk cs flags (encode_calls encode cs flags all_static)
      by_single [] = batch-WholeIfOk [] flags batch (λ es v. v)
      by_single (c ∷ []) = elim (Bool-cases (eqb flags 0)) [
        | inl e ↦
            rw (encode_calls, e) (encoded_one c (encoded encode c) ((eqb_iff flags 0).0 e) refl)
        | inr e ↦ rw (encode_calls, e) (batch-WholeIfOk (c ∷ []) flags batch (λ es v. v))
      ]
      by_single (c ∷ d ∷ cs) = batch-WholeIfOk (c ∷ d ∷ cs) flags batch (λ es v. v)

  static_calls-WholeIfOk :
      (calls : List ContractCall) (flags : ℕ)
      → WholeIfOk calls flags (static_calls encode calls flags)
  unfolding static_calls
  static_calls-WholeIfOk [] flags = batch-WholeIfOk [] flags (λ es. static_batch es) (λ es v. v)
  static_calls-WholeIfOk (c ∷ []) flags = elim (Bool-cases (eqb flags 0)) [
    | inl e ↦ rw (static_calls, e) ((eqb_iff flags 0).0 e, refl)
    | inr e ↦
        rw (static_calls, e) (batch-WholeIfOk (c ∷ []) flags (λ es. static_batch es) (λ es v. v))
  ]
  static_calls-WholeIfOk (c ∷ d ∷ cs) flags =
      batch-WholeIfOk (c ∷ d ∷ cs) flags (λ es. static_batch es) (λ es v. v)

  send_calls-WholeIfOk :
      (calls : List ContractCall) (flags : ℕ) (wait : Bool)
      → WholeIfOk calls flags (send_calls encode calls flags wait)
  unfolding send_calls
  send_calls-WholeIfOk [] flags wait =
      batch-WholeIfOk [] flags (λ es. send_batch es wait) (λ es v. v)
  send_calls-WholeIfOk (c ∷ []) flags wait = elim (Bool-cases (eqb flags 0)) [
    | inl e ↦ rw (send_calls, e) ((eqb_iff flags 0).0 e, refl)
    | inr e ↦
        rw (send_calls, e) (batch-WholeIfOk (c ∷ []) flags (λ es. send_batch es wait) (λ es v. v))
  ]
  send_calls-WholeIfOk (c ∷ d ∷ cs) flags wait =
      batch-WholeIfOk (c ∷ d ∷ cs) flags (λ es. send_batch es wait) (λ es v. v)

  either_branch :
      (P : Result Dispatch → Type 0) (b : Bool) (x y : Result Dispatch)
      → P x
      → P y
      → P (if b then x else y)
  either_branch P true x y p q = p
  either_branch P false x y p q = q

  dispatch-WholeIfOk :
      (mode : String) (calls : List ContractCall) (flags : ℕ) (all_static : Bool)
      → WholeIfOk calls flags (dispatch encode mode calls flags all_static)
  unfolding dispatch
  dispatch-WholeIfOk mode [] flags all_static = refl
  dispatch-WholeIfOk mode (c ∷ cs) flags all_static =
      let P = WholeIfOk (c ∷ cs) flags in
      either_branch P (mode == "encode") _ _ (encode_calls-WholeIfOk (c ∷ cs) flags all_static) (
        either_branch P (mode == "static" || (all_static && eqb flags 0)) _ _
          (static_calls-WholeIfOk (c ∷ cs) flags)
          (either_branch P (mode == "waitTx") _ _ (send_calls-WholeIfOk (c ∷ cs) flags true)
            (either_branch P (mode == "call") _ _ (send_calls-WholeIfOk (c ∷ cs) flags false) tt)))

  -- Whatever the mode, what is encoded, simulated or sent in a batch has one entry for each collected call,
  -- in their order, with the flags of the call, the call flag 0, the address of its contract and its encoded
  -- arguments; a call goes to its contract directly, without `callWithRoles`, only if it is the only
  -- one and no role is asked for; and nothing is done only if there is no call.
  pub dispatch-calls :
      (mode : String) (calls : List ContractCall) (flags : ℕ) (all_static : Bool) (d : Dispatch)
      → dispatch encode mode calls flags all_static ≡ ok d
      → IsWhole calls flags d
  dispatch-calls mode calls flags all_static d h =
      subst (WholeIfOk calls flags) h (dispatch-WholeIfOk mode calls flags all_static)
