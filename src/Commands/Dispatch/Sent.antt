-- ===== src/Commands/Dispatch/Sent.antt =====
-- When a transaction is sent.
use augmented_finance_protoc.Prelude.{
  ℕ, String, ◌≡◌, refl, ◌≢◌, ◌↔◌, ◌⊎◌, inl, inr, Bool, true, false, List, [], ◌∷◌, ◌++◌, arith,
  eq_iff, eqb_iff, Result, ok, thrown, All, Bool-cases, eqb, ◌&&◌,
}
use augmented_finance_protoc.JsonDb.{Db}
use augmented_finance_protoc.Commands.Session.{Contract, ContractCall, Value, Session, new_session}
use augmented_finance_protoc.Commands.Session.Collected.{
  collected, collected_lem, NeedsTransaction, summary-NeedsTransaction,
}
use augmented_finance_protoc.Commands.Dispatch.{
  CallWithRoles, Dispatch, encode_one, encode_batch, static_batch, send_one, send_batch, and_then,
  encoded, entry_of, push_calls, prepare_call_with_roles_args, encode_calls, static_calls,
  send_calls, dispatch,
}

abbrev pub is_sent : Result Dispatch → Bool
is_sent (ok (send_one c wait)) = true
is_sent (ok (send_batch cs wait)) = true
is_sent _ = false

module _ (encode : Contract → String → List Value → Result String) where
  -- The arguments of the call can be encoded.
  abbrev pub IsEncoded : ContractCall → Type 0
  IsEncoded c = (payload : String) × (encoded encode c ≡ ok payload)

  push_calls-ok :
      (entries : List CallWithRoles) (cs : List ContractCall)
      → All IsEncoded cs
      → (all : List CallWithRoles) × (push_calls encode entries cs ≡ ok all)
  unfolding push_calls
  push_calls-ok entries [] h = (entries, refl)
  push_calls-ok entries (c ∷ cs) ((payload, e), h) =
      rw e (push_calls-ok (entries ++ entry_of encode c payload ∷ []) cs h)

  batch-is_sent :
      (r : Result (List CallWithRoles)) (wait : Bool) {all : List CallWithRoles}
      → r ≡ ok all
      → is_sent (and_then r (λ entries. ok (send_batch entries wait))) ≡ true
  batch-is_sent (ok es) wait e = refl
  batch-is_sent (thrown m) wait e = absurd (cc e)

  send_calls-is_sent :
      (calls : List ContractCall) (flags : ℕ) (wait : Bool)
      → All IsEncoded calls
      → is_sent (send_calls encode calls flags wait) ≡ true
  unfolding send_calls prepare_call_with_roles_args
  send_calls-is_sent [] flags wait h =
      let (all, e) = push_calls-ok [] [] h in batch-is_sent (push_calls encode [] []) wait e
  send_calls-is_sent (c ∷ []) flags wait h =
      let (all, e) = push_calls-ok [] (c ∷ []) h in
      ground (arith, batch-is_sent (push_calls encode [] (c ∷ [])) wait e)
  send_calls-is_sent (c ∷ d ∷ cs) flags wait h =
      let (all, e) = push_calls-ok [] (c ∷ d ∷ cs) h in
      batch-is_sent (push_calls encode [] (c ∷ d ∷ cs)) wait e

  -- A result that comes about without a transaction.
  not_sent :
      {A : Type 0} (f : A → Dispatch) (r : Result A)
      → ((a : A) → is_sent (ok (f a)) ≡ false)
      → is_sent (and_then r (λ a. ok (f a))) ≡ false
  not_sent f (ok a) h = h a
  not_sent f (thrown e) h = refl

  encode_calls-is_sent :
      (calls : List ContractCall) (flags : ℕ) (all_static : Bool)
      → is_sent (encode_calls encode calls flags all_static) ≡ false
  unfolding encode_calls prepare_call_with_roles_args
  encode_calls-is_sent calls flags all_static = by_single calls
    where
      batch : List CallWithRoles → Dispatch
      batch es = encode_batch es (all_static && eqb flags 0)

      by_single :
          (cs : List ContractCall) → is_sent (encode_calls encode cs flags all_static) ≡ false
      by_single [] = not_sent batch (push_calls encode [] []) (λ es. refl)
      by_single (c ∷ []) = elim (Bool-cases (eqb flags 0)) [
        | inl e ↦
            rw (encode_calls, e)
              (not_sent (λ payload. encode_one c.contract.address payload) (encoded encode c)
                (λ p. refl))
        | inr e ↦ rw (encode_calls, e) (not_sent batch (push_calls encode [] (c ∷ [])) (λ es. refl))
      ]
      by_single (c ∷ d ∷ cs) = not_sent batch (push_calls encode [] (c ∷ d ∷ cs)) (λ es. refl)

  static_calls-is_sent :
      (calls : List ContractCall) (flags : ℕ) → is_sent (static_calls encode calls flags) ≡ false
  unfolding static_calls prepare_call_with_roles_args
  static_calls-is_sent [] flags =
      not_sent (λ es. static_batch es) (push_calls encode [] []) (λ es. refl)
  static_calls-is_sent (c ∷ []) flags = elim (Bool-cases (eqb flags 0)) [
    | inl e ↦ rw (static_calls, e) refl
    | inr e ↦
        rw (static_calls, e)
          (not_sent (λ es. static_batch es) (push_calls encode [] (c ∷ [])) (λ es. refl))
  ]
  static_calls-is_sent (c ∷ d ∷ cs) flags =
      not_sent (λ es. static_batch es) (push_calls encode [] (c ∷ d ∷ cs)) (λ es. refl)

  sent_mode :
      (mode : String) (calls : List ContractCall) (flags : ℕ) (all_static : Bool)
      → is_sent (dispatch encode mode calls flags all_static) ≡ true
      → (mode ≡ "call") ⊎ (mode ≡ "waitTx")
  unfolding dispatch
  sent_mode mode [] flags all_static h = ground arith
  sent_mode mode (c ∷ cs) flags all_static h = ground (
    arith,
    encode_calls-is_sent (c ∷ cs) flags all_static,
    static_calls-is_sent (c ∷ cs) flags,
    eq_iff mode "call",
    eq_iff mode "waitTx",
  )

  sent_dynamic :
      (mode : String) (calls : List ContractCall) (flags : ℕ) (all_static : Bool)
      → is_sent (dispatch encode mode calls flags all_static) ≡ true
      → (all_static ≡ false) ⊎ (flags ≢ 0)
  unfolding dispatch
  sent_dynamic mode [] flags all_static h = ground arith
  sent_dynamic mode (c ∷ cs) flags all_static h = ground (
    arith,
    encode_calls-is_sent (c ∷ cs) flags all_static,
    static_calls-is_sent (c ∷ cs) flags,
    eqb_iff flags 0,
  )

  sends :
      (mode : String) (calls : List ContractCall) (flags : ℕ) (all_static : Bool)
      → calls ≢ []
      → All IsEncoded calls
      → (mode ≡ "call") ⊎ (mode ≡ "waitTx")
      → (all_static ≡ false) ⊎ (flags ≢ 0)
      → is_sent (dispatch encode mode calls flags all_static) ≡ true
  unfolding dispatch
  sends mode [] flags all_static n h m asks = absurd (n refl)
  sends mode (c ∷ cs) flags all_static n h (inl e) asks =
      rw e (ground (arith, send_calls-is_sent (c ∷ cs) flags false h, eqb_iff flags 0))
  sends mode (c ∷ cs) flags all_static n h (inr e) asks =
      rw e (ground (arith, send_calls-is_sent (c ∷ cs) flags true h, eqb_iff flags 0))

  some_call : (cs : List ContractCall) → NeedsTransaction cs → cs ≢ []
  some_call [] found e = found
  some_call (c ∷ cs) found e = absurd (ground arith)

  -- What is done in a mode with the calls and the summaries of a session.
  abbrev pub outcome_of : {W : Type 0} → String → Session W → Result Dispatch
  outcome_of mode s = dispatch encode mode s.calls s.all_flags s.all_static

  -- If the task starts with no calls, these calls are applied, and the arguments of each can be encoded,
  -- then a transaction is sent exactly when the mode is `call` or `waitTx` and some of the calls is not
  -- static or needs a role.
  pub dispatch-IsSent :
      {W : Type 0} (mode : String) (cs : List ContractCall) (db : Db) (chain : W)
      → All IsEncoded cs
      → (is_sent (outcome_of mode (collected cs (new_session db chain))) ≡ true)
        ↔ (((mode ≡ "call") ⊎ (mode ≡ "waitTx")) × NeedsTransaction cs)
  dispatch-IsSent mode cs db chain h =
      let all = collected_lem cs (new_session db chain) in
      let (asks, needs) = summary-NeedsTransaction cs in
      rw (all.calls, all.flags, all.static)
        (
          λ sent. (sent_mode mode cs _ _ sent, asks (sent_dynamic mode cs _ _ sent)),
          λ (m, found). sends mode cs _ _ (some_call cs found) h m (needs found),
        )
