-- ===== src/Verification/Proxy/Bounds.antt =====
-- The status loop ends, and how often it asks.
use native.Mathlib.Nat.{zero-add}
use augmented_finance_protoc.Prelude.{
  ℕ, zero, suc, ◌+◌, ◌*◌, ◌≤◌, ◌<◌, String, ◌≡◌, refl, ◌∙◌, Bool, true, false, arith, Result, ok,
  thrown, ◌⊎◌, inl, inr,
}
use augmented_finance_protoc.Verification.Proxy.{
  EtherscanResponse, Explorer, is_pending, is_ok, status_loop, by_web_form, verify_proxy_steps,
  verify_proxy, ok_or_error,
}

-- The explorer as a script: the answer to the submission, those to the status requests in turn,
-- and whether the web form works. The state counts the requests.
pub record Script : Type 0 where
  pub first : EtherscanResponse
  pub later : ℕ → EtherscanResponse
  pub form_works : Bool

pub record Requests : Type 0 where
  pub statuses : ℕ
  pub forms : ℕ
  pub slept : ℕ

abbrev pub scripted : Script → Explorer Requests
scripted s = record {
  submit = λ w. (ok s.first, w);
  status_of = λ guid w. (ok (s.later w.statuses), record w { statuses = w.statuses + 1 });
  web_form = λ w. (ok s.form_works, record w { forms = w.forms + 1 });
  sleep = λ ms w. (ok tt, record w { slept = w.slept + ms });
}

abbrev pub none_yet : Requests
none_yet = record { statuses = 0; forms = 0; slept = 0 }

-- A script in which each request may throw as well, and so may the web form.
pub record Trial : Type 0 where
  pub submission : Result EtherscanResponse
  pub answers : ℕ → Result EtherscanResponse
  pub form : Result Bool

abbrev pub tried : Trial → Explorer Requests
tried t = record {
  submit = λ w. (t.submission, w);
  status_of = λ guid w. (t.answers w.statuses, record w { statuses = w.statuses + 1 });
  web_form = λ w. (t.form, record w { forms = w.forms + 1 });
  sleep = λ ms w. (ok tt, record w { slept = w.slept + ms });
}

ok_or_error-total :
    {W : Type 0} (p : Result (Unit {0}) × W)
    → (r : Bool × String) × ((ok_or_error p).0 ≡ ok r) × ((ok_or_error p).1 ≡ p.1)
ok_or_error-total (ok u, w) = ((true, ""), refl, refl)
ok_or_error-total (thrown m, w) = ((false, m), refl, refl)

of_ok :
    (p : Result (Unit {0}) × Requests) {k : ℕ}
    → p.0 ≡ ok tt
    → p.1.statuses ≡ k
    → ((ok_or_error p).0 ≡ ok (true, "")) × ((ok_or_error p).1.statuses ≡ k)
of_ok (ok u, w) e h = (refl, h)
of_ok (thrown m, w) e h = absurd (cc e)

Result-cases :
    {A : Type 0} (r : Result A) → ((a : A) × (r ≡ ok a)) ⊎ ((m : String) × (r ≡ thrown m))
Result-cases (ok a) = inl (a, refl)
Result-cases (thrown m) = inr (m, refl)

module _ (t : Trial) where
  by_web_form-bounds :
      (r : EtherscanResponse) (w : Requests)
      → ((by_web_form (tried t) r w).1.statuses ≡ w.statuses)
        × ((by_web_form (tried t) r w).1.forms ≤ w.forms + 1)
  unfolding by_web_form
  by_web_form-bounds r w = elim (Result-cases (t.form)) [
    | inl (done, e) ↦ rw e (ground arith, ground arith)
    | inr (m, e) ↦ rw e (ground arith, ground arith)
  ]

  status_loop-bounds :
      (guid : String) (rounds i : ℕ) (w : Requests)
      → ((status_loop (tried t) guid rounds i w).1.statuses ≤ w.statuses + suc rounds)
        × ((status_loop (tried t) guid rounds i w).1.forms ≤ w.forms + 1)
  unfolding status_loop
  status_loop-bounds guid zero i w = elim (Result-cases (t.answers w.statuses)) [
    | inl (r, e) ↦
        rw e (ground (arith, by_web_form-bounds r (record w { statuses = w.statuses + 1 })))
    | inr (m, e) ↦ rw e (ground arith)
  ]
  status_loop-bounds guid (suc rounds) i w = elim (Result-cases (t.answers w.statuses)) [
    | inl (r, e) ↦ rw e (
        ground (
          arith,
          by_web_form-bounds r (record w { statuses = w.statuses + 1 }),
          status_loop-bounds guid rounds (i + 1)
              (record w { statuses = w.statuses + 1; slept = w.slept + (100 + i * 200) }),
        ))
    | inr (m, e) ↦ rw e (ground arith)
  ]

  verify_proxy_steps-bounds :
      ((verify_proxy_steps (tried t) none_yet).1.statuses ≤ 21)
      × ((verify_proxy_steps (tried t) none_yet).1.forms ≤ 1)
  unfolding verify_proxy_steps
  verify_proxy_steps-bounds = elim (Result-cases (t.submission)) [
    | inl (r, e) ↦
        rw e (
          ground (arith, by_web_form-bounds r none_yet, status_loop-bounds r.message 20 0 none_yet))
    | inr (m, e) ↦ rw e (ground arith)
  ]

  -- Whatever the explorer answers, and whichever request throws, `verify_proxy` returns a pair and never
  -- throws, with at most 21 status requests and at most one use of the web form.
  pub verify_proxy-bounds :
      (r : Bool × String) × ((verify_proxy (tried t) none_yet).0 ≡ ok r)
      × ((verify_proxy (tried t) none_yet).1.statuses ≤ 21)
      × ((verify_proxy (tried t) none_yet).1.forms ≤ 1)
  unfolding verify_proxy
  verify_proxy-bounds =
      let (r, returned, same) = ok_or_error-total (verify_proxy_steps (tried t) none_yet) in
      let (statuses, forms) = verify_proxy_steps-bounds in
      (r, returned, rw same statuses, rw same forms)

module _ (s : Script) where
  status_loop-succeeds :
      (guid : String) (n rounds i : ℕ) (w : Requests)
      → n ≤ rounds
      → ((j : ℕ)
          → j < n
          → (is_ok (s.later (w.statuses + j)) ≡ false)
            × (is_pending (s.later (w.statuses + j)) ≡ true))
      → is_ok (s.later (w.statuses + n)) ≡ true
      → ((status_loop (scripted s) guid rounds i w).0 ≡ ok tt)
        × ((status_loop (scripted s) guid rounds i w).1.statuses ≡ w.statuses + n + 1)
  unfolding status_loop
  status_loop-succeeds guid zero zero i w h pending done =
      let here : w.statuses + 0 ≡ w.statuses = omega arith in
      let e : is_ok (s.later w.statuses) ≡ true = rw here at done in rw e (refl, omega arith)
  status_loop-succeeds guid zero (suc rounds) i w h pending done =
      let here : w.statuses + 0 ≡ w.statuses = omega arith in
      let e : is_ok (s.later w.statuses) ≡ true = rw here at done in rw e (refl, omega arith)
  status_loop-succeeds guid (suc n) zero i w h pending done = absurd (omega arith)
  status_loop-succeeds guid (suc n) (suc rounds) i w h pending done =
      let here : w.statuses + 0 ≡ w.statuses = omega arith in
      let p = pending 0 (omega arith) in
      let not_ok : is_ok (s.later w.statuses) ≡ false = rw here at (p.0) in
      let waits : is_pending (s.later w.statuses) ≡ true = rw here at (p.1) in
      let there : w.statuses + suc n ≡ w.statuses + 1 + n = omega arith in
      let (returned, asked) =
        status_loop-succeeds guid n rounds (i + 1)
          (record w { statuses = w.statuses + 1; slept = w.slept + (100 + i * 200) }) (omega arith)
          (λ j hj.
            let e : w.statuses + suc j ≡ w.statuses + 1 + j = omega arith in
            rw e at (pending (suc j) (omega arith)))
          (rw there at done) in
      rw (not_ok, waits) (returned, asked ∙ omega arith)

  -- If the submission is accepted and the first status that is not pending is the `n`-th, counted from 0
  -- and at most 20, and it is ok, then `verify_proxy` reports success after `n + 1` requests.
  pub verify_proxy-succeeds :
      (n : ℕ)
      → n ≤ 20
      → is_ok s.first ≡ true
      → ((j : ℕ) → j < n → (is_ok (s.later j) ≡ false) × (is_pending (s.later j) ≡ true))
      → is_ok (s.later n) ≡ true
      → ((verify_proxy (scripted s) none_yet).0 ≡ ok (true, ""))
        × ((verify_proxy (scripted s) none_yet).1.statuses ≡ n + 1)
  unfolding verify_proxy verify_proxy_steps
  verify_proxy-succeeds n h submitted pending done =
      let (returned, asked) =
        status_loop-succeeds s.first.message n 20 0 none_yet h (λ j hj. rw zero-add (pending j hj))
          (rw zero-add done) in
      let steps : verify_proxy_steps (scripted s) none_yet
          ≡ status_loop (scripted s) s.first.message 20 0 none_yet =
        rw (submitted, verify_proxy_steps) refl in
      rw steps (of_ok _ returned (asked ∙ omega (arith, zero-add n)))
