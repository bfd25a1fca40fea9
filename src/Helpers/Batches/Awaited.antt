-- ===== src/Helpers/Batches/Awaited.antt =====
-- Which promises a batch awaits, and in which order.
use augmented_finance_protoc.Prelude.{
  ℕ, zero, suc, ◌≡◌, refl, sym, ap, ◌∙◌, false, List, [], ◌∷◌, ◌++◌, Option, ok, Act, for_each,
  flatten, append-nil, append_assoc, eqb, Bool-cases, inl, inr, arith,
}
use augmented_finance_protoc.Helpers.Batches.{batch_size, promise_all_batch, chunk}
use augmented_finance_protoc.Helpers.Batches.Order.{chunk_lem}

module _ {P : Type 0} where
  -- The promises that were awaited, in the order in which the awaits were written.
  abbrev pub await_all : List P → Act (List P) (Unit {0})
  await_all ps log = (ok tt, log ++ ps)

  abbrev pub await_one : P → Act (List P) (Unit {0})
  await_one p log = (ok tt, log ++ p ∷ [])

  for_each-await_one : (ps : List P) (log : List P) → for_each await_one ps log ≡ (ok tt, log ++ ps)
  unfolding for_each
  for_each-await_one [] log = ap (λ l. (ok tt, l)) (sym (append-nil log))
  for_each-await_one (p ∷ ps) log =
      for_each-await_one ps (log ++ p ∷ []) ∙ ap (λ l. (ok tt, l)) (append_assoc log (p ∷ []) ps)

  pub for_each-await_all :
      (cs : List (List P)) (log : List P) → for_each await_all cs log ≡ (ok tt, log ++ flatten cs)
  unfolding for_each
  for_each-await_all [] log = ap (λ l. (ok tt, l)) (sym (append-nil log))
  for_each-await_all (c ∷ cs) log =
      for_each-await_all cs (log ++ c) ∙ ap (λ l. (ok tt, l)) (append_assoc log c (flatten cs))

  nonzero_batch :
      (n : ℕ) (values log : List P)
      → eqb n 0 ≡ false
      → for_each await_all (chunk values n) log ≡ (ok tt, log ++ values)
  nonzero_batch zero values log e = ground arith
  nonzero_batch (suc n) values log e =
      for_each-await_all (chunk values (suc n)) log
      ∙ ap (λ l. (ok tt, log ++ l)) ((chunk_lem values n).0)

  -- Whatever the batch size that is set and the one that is asked for, every promise is awaited exactly
  -- once, in the order of the array.
  promise_all_batch_lem :
      (async_batch : ℕ) (values : List P) (count : Option ℕ) (log : List P)
      → promise_all_batch await_all await_one async_batch values count log ≡ (ok tt, log ++ values)
  unfolding promise_all_batch
  promise_all_batch_lem async_batch values count log =
      let n = batch_size async_batch count in
      elim (Bool-cases (eqb n 0)) [
        | inl z ↦ rw z refl
        | inr z ↦ elim (Bool-cases (eqb n 1)) [
          | inl o ↦ rw (z, o) (for_each-await_one values log)
          | inr o ↦ rw (z, o) (nonzero_batch n values log z)
        ]
      ]
