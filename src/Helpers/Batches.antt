-- ===== src/Helpers/Batches.antt =====
-- Splitting work into batches: `chunk` of helpers/misc-utils.ts, and `setPromiseBatch` and
-- `promiseAllBatch` of tasks/helpers/utils.ts.
pub mod Order
pub mod Parallel
pub mod Awaited
use augmented_finance_protoc.Prelude.{
  ℕ, zero, suc, ◌+◌, ◌%◌, Bool, true, List, [], ◌∷◌, ◌++◌, Option, none, some, eqb, if◌then◌else◌,
  slice, map, Act, for_each,
}

-- `!(currIndx % chunkSize)`; in JavaScript `i % 0` is NaN, which is falsy.
pub starts_chunk : ℕ → ℕ → Bool
starts_chunk zero i = true
starts_chunk (suc n) i = eqb (i % suc n) 0

module _ {A : Type 0} where
  -- The `reduce` of `chunk`: the rest of the array is read at index `i`.
  pub chunk_reduce : (array : List A) (n : ℕ) → List (List A) → ℕ → List A → List (List A)
  chunk_reduce array n prev i [] = prev
  chunk_reduce array n prev i (x ∷ rest) =
      chunk_reduce array n (if starts_chunk n i then prev ++ slice array i (i + n) ∷ [] else prev)
        (i + 1) rest

  unfoldable pub chunk : List A → ℕ → List (List A)
  unfolding chunk_reduce starts_chunk
  chunk array n = chunk_reduce array n [] 0 array

-- `batchCount = batchCount || asyncBatch`
unfoldable pub batch_size : ℕ → Option ℕ → ℕ
batch_size async_batch none = async_batch
batch_size async_batch (some zero) = async_batch
batch_size async_batch (some (suc n)) = suc n

module _ {P S : Type 0} (promise_all : List P → Act S (Unit {0}))
    (settle : P → Act S (Unit {0})) where
  -- The groups of promises that are awaited together, one group after another.
  unfoldable pub promise_all_batch : (async_batch : ℕ) → List P → Option ℕ → Act S (Unit {0})
  unfolding batch_size for_each
  promise_all_batch async_batch values count =
      let n = batch_size async_batch count in
      if eqb n 0
      then promise_all values
      else (if eqb n 1 then for_each settle values else for_each promise_all (chunk values n))
