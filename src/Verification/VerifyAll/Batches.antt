-- ===== src/Verification/VerifyAll/Batches.antt =====
-- Which contracts a batch takes.
use native.Mathlib.Nat.{zero-add, add-zero}
use augmented_finance_protoc.Prelude.{
  ℕ, suc, ◌+◌, ◌%◌, ◌≡◌, refl, ◌∙◌, false, List, [], ◌∷◌, ◌++◌, arith, eqb, if◌then◌else◌, is_some,
  Dict, append-nil, append_assoc, Bool-cases, inl, inr,
}
use augmented_finance_protoc.Helpers.Addresses.{AddressLib}
use augmented_finance_protoc.JsonDb.{DbInstanceEntry}
use augmented_finance_protoc.Verification.VerifyAll.{
  Selection, add_entry, add_entries, add_rest, filter_map, select_entries,
}

-- The contracts that can be verified.
abbrev pub verifiable : Dict DbInstanceEntry → Dict DbInstanceEntry
verifiable [] = []
verifiable ((addr, e) ∷ rest) =
    let more = verifiable rest in if is_some e.verify then (addr, e) ∷ more else more

-- Every `of`-th element, those whose place, counted from `i`, leaves the rest `n`.
abbrev pub every : {A : Type 0} → (n of i : ℕ) → List A → List A
every n of i [] = []
every n of i (x ∷ xs) =
    let more = every n of (i + 1) xs in if eqb (i % of) n then x ∷ more else more

abbrev pub count_list : {A : Type 0} → List A → ℕ
count_list [] = 0
count_list (x ∷ xs) = suc (count_list xs)

module _ (n of : ℕ) where
  add_entries-every :
      (d : Dict DbInstanceEntry) (s : Selection)
      → add_entries n of false d s ≡ record s {
        batch_index = s.batch_index + count_list (verifiable d);
        entries = s.entries ++ every n of s.batch_index (verifiable d);
      }
  unfolding add_entries
  add_entries-every [] s = rw append-nil (ground arith)
  add_entries-every ((addr, e) ∷ d) s = elim (Bool-cases (is_some e.verify)) [
    | inr b ↦ rw (b, add_entry) (add_entries-every d s)
    | inl b ↦ elim (Bool-cases (eqb (s.batch_index % of) n)) [
      | inl t ↦
          rw (b, add_entry, t)
            (add_entries-every d (record s {
              batch_index = s.batch_index + 1;
              entries = s.entries ++ (addr, e) ∷ [];
            })
              ∙ ground (
                arith,
                append_assoc s.entries ((addr, e) ∷ [])
                    (every n of (s.batch_index + 1) (verifiable d)),
              ))
      | inr t ↦
          rw (b, add_entry, t)
            (add_entries-every d (record s { batch_index = s.batch_index + 1 }) ∙ ground arith)
    ]
  ]

  verifiable-append :
      (d e : Dict DbInstanceEntry) → verifiable (d ++ e) ≡ verifiable d ++ verifiable e
  verifiable-append [] e = refl
  verifiable-append ((addr, x) ∷ d) e = elim (Bool-cases (is_some x.verify)) [
    | inl b ↦ rw (b, verifiable-append d e)
    | inr b ↦ rw (b, verifiable-append d e)
  ]

  every-append :
      (i : ℕ) (d e : Dict DbInstanceEntry)
      → every n of i (d ++ e) ≡ every n of i d ++ every n of (i + count_list d) e
  every-append i [] e = rw add-zero
  every-append i (x ∷ d) e =
      let shift : i + suc (count_list d) ≡ i + 1 + count_list d = omega arith in
      elim (Bool-cases (eqb (i % of) n)) [
        | inl b ↦ rw (b, shift, every-append (i + 1) d e)
        | inr b ↦ rw (b, shift, every-append (i + 1) d e)
      ]

  -- Without a filter a batch is every `of`-th of the contracts that can be verified, the instances first
  -- and the externals behind them, from the `n`-th on, in their order.
  pub select_entries-every :
      (lib : AddressLib) (instances externals : Dict DbInstanceEntry)
      → (select_entries n of lib [] instances externals).entries
        ≡ every n of 0 (verifiable (instances ++ externals))
  unfolding select_entries add_rest filter_map
  select_entries-every lib instances externals =
      let start : Selection = record { filter_set = []; batch_index = 0; entries = [] } in
      let first = add_entries-every instances start in
      let one = add_entries n of false instances start in
      rw (add_entries-every externals one, first, verifiable-append, every-append, zero-add) refl
