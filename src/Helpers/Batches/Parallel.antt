-- ===== src/Helpers/Batches/Parallel.antt =====
-- Arrays of the same length are split alike.
use augmented_finance_protoc.Prelude.{
  ℕ, zero, suc, ◌+◌, ◌≡◌, refl, sym, ap, ◌∙◌, Bool, true, false, List, [], ◌∷◌, ◌++◌, map,
  map-append, take, drop, slice, if◌then◌else◌, ◌-◌,
}
use augmented_finance_protoc.Helpers.Batches.{starts_chunk, chunk_reduce, chunk}

-- What the reducer makes of its accumulator, `starts` saying that a chunk starts here.
abbrev step : {A : Type 0} → List A → ℕ → ℕ → List (List A) → Bool → List (List A)
step array n i prev starts = if starts then prev ++ slice array i (i + n) ∷ [] else prev

module _ {A B : Type 0} (f : A → B) where
  take-map : (n : ℕ) (xs : List A) → take n (map f xs) ≡ map f (take n xs)
  take-map zero [] = refl
  take-map zero (x ∷ xs) = refl
  take-map (suc n) [] = refl
  take-map (suc n) (x ∷ xs) = ap (λ ys. f x ∷ ys) (take-map n xs)

  drop-map : (n : ℕ) (xs : List A) → drop n (map f xs) ≡ map f (drop n xs)
  drop-map zero xs = refl
  drop-map (suc n) [] = refl
  drop-map (suc n) (x ∷ xs) = drop-map n xs

  slice-map : (xs : List A) (i j : ℕ) → slice (map f xs) i j ≡ map f (slice xs i j)
  slice-map xs i j = ap (take (j - i)) (drop-map i xs) ∙ take-map (j - i) (drop i xs)

  step-map :
      (array : List A) (n : ℕ) (prev : List (List A)) (i : ℕ) (b : Bool)
      → step (map f array) n i (map (map f) prev) b ≡ map (map f) (step array n i prev b)
  step-map array n prev i false = refl
  step-map array n prev i true =
      ap (λ c. map (map f) prev ++ c ∷ []) (slice-map array i (i + n))
      ∙ sym (map-append (map f) prev (slice array i (i + n) ∷ []))

  chunk_reduce-map :
      (array : List A) (n : ℕ) (prev : List (List A)) (i : ℕ) (rest : List A)
      → chunk_reduce (map f array) n (map (map f) prev) i (map f rest)
        ≡ map (map f) (chunk_reduce array n prev i rest)
  unfolding chunk_reduce
  chunk_reduce-map array n prev i [] = refl
  chunk_reduce-map array n prev i (x ∷ rest) =
      ap (λ p. chunk_reduce (map f array) n p (i + 1) (map f rest))
        (step-map array n prev i (starts_chunk n i))
      ∙ chunk_reduce-map array n (step array n i prev (starts_chunk n i)) (i + 1) rest

  -- For every chunk size, the array of what a function makes of the elements is split where the array is.
  pub chunk-map : (array : List A) (n : ℕ) → chunk (map f array) n ≡ map (map f) (chunk array n)
  unfolding chunk
  chunk-map array n = chunk_reduce-map array n [] 0 array
