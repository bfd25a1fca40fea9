-- ===== src/Verification/Proxy.antt =====
-- `verifyContract`, `verifyProxy` and `_verifyProxy` of helpers/contract-verification.ts. The
-- requests to the explorer are actions on the state `W`, and so is `_verifyProxyByWebForm`.
pub mod Bounds
use augmented_finance_protoc.Prelude.{
  ℕ, zero, suc, ◌+◌, ◌*◌, String, Bool, true, false, not, ◌&&◌, Option, none, some, ◌==◌, eqb,
  if◌then◌else◌, starts_with, Result, ok, thrown, Act, pure, throw, ◌>>=◌, ◌>>◌,
}

-- `EtherscanResponse`; a status that is no number is `none`.
pub record EtherscanResponse : Type 0 where
  pub status : Option ℕ
  pub message : String

abbrev pub is_pending : EtherscanResponse → Bool
is_pending r = r.message == "Pending in queue"

unfoldable pub is_proxy_impl_not_detected : EtherscanResponse → Bool
is_proxy_impl_not_detected r = starts_with r.message "A corresponding implementation contract"

abbrev pub is_ok : EtherscanResponse → Bool
is_ok r = elim r.status [ none ↦ false | some n ↦ eqb n 1 ]

pub record Explorer (W : Type 0) : Type 0 where
  pub submit : Act W EtherscanResponse
  pub status_of : String → Act W EtherscanResponse
  pub web_form : Act W Bool
  pub sleep : ℕ → Act W (Unit {0})

module _ {W : Type 0} where
  abbrev ok_or_error : Result (Unit {0}) × W → Result (Bool × String) × W
  ok_or_error (ok _, w) = (ok (true, ""), w)
  ok_or_error (thrown message, w) = (ok (false, message), w)

module _ {W : Type 0} (explorer : Explorer W) where
  -- The web form is tried if no implementation was detected; else, or in vain, the message is thrown.
  pub by_web_form : EtherscanResponse → Act W (Unit {0})
  by_web_form r =
      if is_proxy_impl_not_detected r
      then (do done ← explorer.web_form; if done then pure tt else throw r.message)
      else throw r.message

  -- `for (let i = 0; ; i++)`, with `rounds` retries left at attempt `i`.
  pub status_loop : String → (rounds i : ℕ) → Act W (Unit {0})
  status_loop guid zero i = do
    r ← explorer.status_of guid
    if is_ok r then pure tt else (if is_pending r then throw "Too many retries" else by_web_form r)
  status_loop guid (suc rounds) i = do
    r ← explorer.status_of guid
    if is_ok r
        then pure tt
        else (if is_pending r
            then (do explorer.sleep (100 + i * 200); status_loop guid rounds (i + 1))
            else by_web_form r)

  unfoldable pub verify_proxy_steps : Act W (Unit {0})
  verify_proxy_steps = do
    r ← explorer.submit
    if is_ok r then status_loop r.message 20 0 else by_web_form r

  -- `verifyProxy`: what is thrown becomes a result.
  unfoldable pub verify_proxy : Act W (Bool × String)
  unfolding verify_proxy_steps
  verify_proxy w = ok_or_error (verify_proxy_steps w)

-- `_verifyContract`, with the plugin's `verify:verify` task as `run_verify`.
module _ {W : Type 0} (run_verify : Act W (Unit {0})) where
  abbrev contract_result : Result (Unit {0}) × W → Result (Bool × String) × W
  contract_result (ok _, w) = (ok (true, ""), w)
  contract_result (thrown message, w) = (
    ok (
        if message == "Contract source code already verified"
        then (true, "")
        else (false, message)),
    w,
  )

  unfoldable pub verify_contract : Act W (Bool × String)
  verify_contract w = contract_result (run_verify w)
