-- ===== src/Deployment/Waiting.antt =====
-- The polling loop against an oracle that gives the answer of each attempt.
use native.Mathlib.Nat.{zero-add}
use augmented_finance_protoc.Prelude.{
  ℕ, zero, suc, ◌+◌, ◌*◌, ◌≤◌, ◌<◌, String, ◌≡◌, ◌∙◌, true, false, some, arith, ok, thrown, Act,
}
use augmented_finance_protoc.Helpers.Addresses.{AddressLib, falsy_or_zero_address}
use augmented_finance_protoc.Deployment.{wait_loop, wait_for_address_fn}

-- The number of attempts so far and the milliseconds slept.
pub record Clock : Type 0 where
  pub asked : ℕ
  pub slept : ℕ

module _ (lib : AddressLib) (answers : ℕ → String) where
  abbrev pub ask : Act Clock String
  ask c = (ok (answers c.asked), record c { asked = c.asked + 1 })

  abbrev pub snooze : ℕ → Act Clock (Unit {0})
  snooze ms c = (ok tt, record c { slept = c.slept + ms })

  abbrev pub IsBad : ℕ → Type 0
  IsBad i = falsy_or_zero_address lib (some (answers i)) ≡ true

  -- The milliseconds slept in `n` attempts from attempt `i` on.
  abbrev pub naps : ℕ → ℕ → ℕ
  naps i zero = 0
  naps i (suc n) = 100 + 1000 * i + naps (i + 1) n

  wait_loop-found :
      (n rounds i slept : ℕ)
      → n < rounds
      → ((j : ℕ) → j < n → IsBad (i + j))
      → falsy_or_zero_address lib (some (answers (i + n))) ≡ false
      → wait_loop lib ask snooze rounds i (record { asked = i; slept = slept })
        ≡ (ok (answers (i + n)), record { asked = i + n + 1; slept = slept + naps i n })
  unfolding wait_loop
  wait_loop-found n zero i slept h bad good = elim h [ ]
  wait_loop-found zero (suc rounds) i slept h bad good =
      let here : i + 0 ≡ i = omega arith in
      let g : falsy_or_zero_address lib (some (answers i)) ≡ false = rw here at good in
      rw g (ground (arith, here))
  wait_loop-found (suc n) (suc rounds) i slept h bad good =
      let here : i + 0 ≡ i = omega arith in
      let there : i + suc n ≡ i + 1 + n = omega arith in
      let b : IsBad i = rw here at (bad 0 (omega arith)) in
      let later =
        wait_loop-found n rounds (i + 1) (slept + (100 + 1000 * i)) (omega arith)
          (λ j hj.
            let e : i + suc j ≡ i + 1 + j = omega arith in rw e at (bad (suc j) (omega arith)))
          (rw there at good) in
      rw b (later ∙ ground (arith, there))

  wait_loop-lost :
      (rounds i slept : ℕ)
      → ((j : ℕ) → j < rounds → IsBad (i + j))
      → wait_loop lib ask snooze rounds i (record { asked = i; slept = slept }) ≡ (
        thrown "failed to get an address",
        record { asked = i + rounds; slept = slept + naps i rounds },
      )
  unfolding wait_loop
  wait_loop-lost zero i slept bad = ground arith
  wait_loop-lost (suc rounds) i slept bad =
      let here : i + 0 ≡ i = omega arith in
      let b : IsBad i = rw here at (bad 0 (omega arith)) in
      let later = wait_loop-lost rounds (i + 1) (slept + (100 + 1000 * i)) (λ j hj.
        let e : i + suc j ≡ i + 1 + j = omega arith in rw e at (bad (suc j) (omega arith))) in
      rw b (later ∙ ground arith)

  -- If the `n`-th answer, counted from 0 and at most 20, is the first that is a valid address, then
  -- `wait_for_address_fn` asks `n + 1` times, sleeps 100 + 1000 * i milliseconds after each failed
  -- attempt `i`, and returns that address.
  pub wait_for_address_fn-found :
      (n : ℕ)
      → n ≤ 20
      → ((j : ℕ) → j < n → IsBad j)
      → falsy_or_zero_address lib (some (answers n)) ≡ false
      → wait_for_address_fn lib ask snooze (record { asked = 0; slept = 0 })
        ≡ (ok (answers n), record { asked = n + 1; slept = naps 0 n })
  unfolding wait_for_address_fn
  wait_for_address_fn-found n h bad good =
      wait_loop-found n 21 0 0 (omega arith) (λ j hj. rw zero-add (bad j hj)) (rw zero-add good)
      ∙ ground (arith, zero-add n, zero-add (naps 0 n))

  -- If none of the first 21 answers is a valid address, `wait_for_address_fn` throws after it has asked
  -- 21 times and slept 212100 milliseconds.
  pub wait_for_address_fn-lost :
      ((j : ℕ) → j < 21 → IsBad j)
      → wait_for_address_fn lib ask snooze (record { asked = 0; slept = 0 })
        ≡ (thrown "failed to get an address", record { asked = 21; slept = 212100 })
  unfolding wait_for_address_fn
  wait_for_address_fn-lost bad = wait_loop-lost 21 0 0 (λ j hj. rw zero-add (bad j hj))
