-- ===== src/Helpers/Batches/Order.antt =====
-- `chunk` keeps every element, in order, in groups of the size asked for.
use native.Mathlib.Nat.{zero-add, mod_self, mod-add-mod, mod-eq_of_lt}
use native.Mathlib.Numerals.{add-one}
use augmented_finance_protoc.Prelude.{
  ℕ, suc, ◌+◌, ◌-◌, ◌%◌, ◌≤◌, ◌<◌, ◌≡◌, refl, true, false, List, [], ◌∷◌, ◌++◌, All, All-append,
  length, take, drop, slice, flatten, flatten-append, take_all, take-add, drop-suc,
  length-le_of_drop, length-take-le, arith, Bool-cases, append-nil, ◌∙◌, ap, inl, inr,
}
use augmented_finance_protoc.Helpers.Batches.{starts_chunk, chunk_reduce, chunk}

starts_chunk_cases :
    (n i c : ℕ) → c ≤ n → (i + c) % suc n ≡ 0 → starts_chunk (suc n) i ≡ true → c ≡ 0
unfolding starts_chunk
starts_chunk_cases n i c h e s =
    let z : i % suc n ≡ 0 = ground arith in
    ground
      (arith, mod-add-mod i (suc n) c, mod-eq_of_lt {n = c} {m = suc n} (omega arith), zero-add c)

not_starts_chunk :
    (n i c : ℕ) → c ≤ n → (i + c) % suc n ≡ 0 → starts_chunk (suc n) i ≡ false → 0 < c
unfolding starts_chunk
not_starts_chunk n i c h e s = ground arith

next_start : (n i : ℕ) → (i + 0) % suc n ≡ 0 → (i + 1 + n) % suc n ≡ 0
next_start n i e =
    let shift : i + 1 + n ≡ i + 0 + suc n = omega arith in
    rw (shift, ← mod-add-mod (i + 0) (suc n) (suc n), e, zero-add) (mod_self (suc n))

module _ {A : Type 0} (array : List A) (n : ℕ) where
  slice_step :
      (prev : List (List A)) (i : ℕ)
      → flatten prev ≡ take (i + 0) array
      → flatten (prev ++ slice array i (i + suc n) ∷ []) ≡ take (i + 1 + n) array
  slice_step prev i f =
      let width : i + suc n - i ≡ suc n = omega arith in
      let start : i + 0 ≡ i = omega arith in
      let end : i + suc n ≡ i + 1 + n = omega arith in
      flatten-append prev _
      ∙ rw (append-nil, f, width, start) (take-add i (suc n) array ∙ ap (λ t. take t array) end)

  -- `c` is what is left of the chunk that the index `i` lies in.
  flatten-chunk_reduce :
      (prev : List (List A)) (i c : ℕ) (rest : List A)
      → drop i array ≡ rest
      → c ≤ n
      → (i + c) % suc n ≡ 0
      → flatten prev ≡ take (i + c) array
      → flatten (chunk_reduce array (suc n) prev i rest) ≡ array
  unfolding chunk_reduce
  flatten-chunk_reduce prev i c [] d h e f =
      f ∙ take_all (i + c) array (omega (arith, length-le_of_drop i array d))
  flatten-chunk_reduce prev i c (x ∷ rest) d h e f = elim (Bool-cases (starts_chunk (suc n) i)) [
    | inl s ↦
        let z : c ≡ 0 = starts_chunk_cases n i c h e s in
        let f' : flatten prev ≡ take (i + 0) array = rw z at f in
        let e' : (i + 0) % suc n ≡ 0 = rw z at e in
        rw s (
          flatten-chunk_reduce (prev ++ slice array i (i + suc n) ∷ []) (i + 1) n rest
            (rw add-one (drop-suc i array d)) (omega arith) (next_start n i e')
            (slice_step prev i f'))
    | inr s ↦
        let p = not_starts_chunk n i c h e s in
        let same : i + c ≡ i + 1 + (c - 1) = omega arith in
        rw s (
          flatten-chunk_reduce prev (i + 1) (c - 1) rest (rw add-one (drop-suc i array d))
            (omega arith) (rw same at e) (rw same at f))
  ]

module _ {A : Type 0} (array : List A) (n : ℕ) where
  abbrev pub IsChunk : List A → Type 0
  IsChunk c = (0 < length c) × (length c ≤ suc n)

  slice-IsChunk :
      (i : ℕ) {x : A} {rest : List A}
      → drop i array ≡ x ∷ rest
      → IsChunk (slice array i (i + suc n))
  slice-IsChunk i {x} {rest} d =
      let width : i + suc n - i ≡ suc n = omega arith in
      rw (width, d) (omega arith, omega (arith, length-take-le n rest))

  chunk_reduce-IsChunk :
      (prev : List (List A)) (i : ℕ) (rest : List A)
      → drop i array ≡ rest
      → All IsChunk prev
      → All IsChunk (chunk_reduce array (suc n) prev i rest)
  unfolding chunk_reduce
  chunk_reduce-IsChunk prev i [] d h = h
  chunk_reduce-IsChunk prev i (x ∷ rest) d h = elim (Bool-cases (starts_chunk (suc n) i)) [
    | inl s ↦ rw s (
        chunk_reduce-IsChunk (prev ++ slice array i (i + suc n) ∷ []) (i + 1) rest
          (rw add-one (drop-suc i array d)) (All-append IsChunk prev _ h (slice-IsChunk i d, tt)))
    | inr s ↦ rw s (chunk_reduce-IsChunk prev (i + 1) rest (rw add-one (drop-suc i array d)) h)
  ]

-- For every chunk size of at least 1, the chunks joined again are the array in its order, none of
-- them is empty, and none is longer than the chunk size.
pub chunk_lem :
    {A : Type 0} (array : List A) (n : ℕ)
    → (flatten (chunk array (suc n)) ≡ array) × All (IsChunk array n) (chunk array (suc n))
unfolding chunk
chunk_lem array n = (
  flatten-chunk_reduce array n [] 0 0 array refl (omega arith) (omega arith) refl,
  chunk_reduce-IsChunk array n [] 0 array refl tt,
)
