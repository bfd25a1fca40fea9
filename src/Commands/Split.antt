-- ===== src/Commands/Split.antt =====
-- `splitArray` of tasks/helpers/call-cmd.ts.
use augmented_finance_protoc.Prelude.{
  ℕ, zero, suc, ◌+◌, ◌%◌, ◌<◌, ◌≡◌, refl, ◌∙◌, ap, List, [], ◌∷◌, ◌++◌, some, arith, eqb,
  if◌then◌else◌, get_elem?, append_assoc, append-nil, Bool-cases, inl, inr, String,
}
use augmented_finance_protoc.Verification.VerifyAll.Batches.{every}

-- The lists that the first loop makes.
unfoldable pub empty_lists : ℕ → List (List String)
empty_lists zero = []
empty_lists (suc n) = [] ∷ empty_lists n

-- `result[i].push(value)`
unfoldable pub push_at : ℕ → String → List (List String) → List (List String)
push_at i value [] = []
push_at zero value (l ∷ ls) = (l ++ value ∷ []) ∷ ls
push_at (suc i) value (l ∷ ls) = l ∷ push_at i value ls

-- The `forEach`, from index `i` on.
unfoldable pub split_from : (n i : ℕ) → List String → List (List String) → List (List String)
unfolding push_at
split_from n i [] result = result
split_from n i (value ∷ a) result = split_from n (i + 1) a (push_at (i % n) value result)

unfoldable pub split_array : ℕ → List String → List (List String)
unfolding split_from empty_lists
split_array n a = split_from n 0 a (empty_lists n)

get_elem?-push_at :
    (k i : ℕ) (value : String) (ls : List (List String)) {l : List String}
    → get_elem? ls k ≡ some l
    → get_elem? (push_at i value ls) k ≡ some (if eqb i k then l ++ value ∷ [] else l)
unfolding push_at
get_elem?-push_at k i value [] h = ground arith
get_elem?-push_at zero zero value (x ∷ ls) h = ground arith
get_elem?-push_at zero (suc i) value (x ∷ ls) h = ground arith
get_elem?-push_at (suc k) zero value (x ∷ ls) h = ground arith
get_elem?-push_at (suc k) (suc i) value (x ∷ ls) {l} h =
    get_elem?-push_at k i value ls h ∙ ground arith

get_elem?-split_from :
    (n i k : ℕ) (a : List String) (ls : List (List String)) {l : List String}
    → get_elem? ls k ≡ some l
    → get_elem? (split_from n i a ls) k ≡ some (l ++ every k n i a)
unfolding split_from
get_elem?-split_from n i k [] ls h = rw append-nil h
get_elem?-split_from n i k (value ∷ a) ls {l} h = elim (Bool-cases (eqb (i % n) k)) [
  | inl e ↦
      let here : get_elem? (push_at (i % n) value ls) k ≡ some (l ++ value ∷ []) =
        rw e at (get_elem?-push_at k (i % n) value ls h) in
      rw e (
        get_elem?-split_from n (i + 1) k a (push_at (i % n) value ls) here
        ∙ ap some (append_assoc l (value ∷ []) (every k n (i + 1) a)))
  | inr e ↦
      let here : get_elem? (push_at (i % n) value ls) k ≡ some l =
        rw e at (get_elem?-push_at k (i % n) value ls h) in
      rw e (get_elem?-split_from n (i + 1) k a (push_at (i % n) value ls) here)
]

get_elem?-empty_lists : (n k : ℕ) → k < n → get_elem? (empty_lists n) k ≡ some []
unfolding empty_lists
get_elem?-empty_lists zero k h = elim h [ ]
get_elem?-empty_lists (suc n) zero h = refl
get_elem?-empty_lists (suc n) (suc k) h = get_elem?-empty_lists n k (omega arith)

-- For every `k` below `n`, the `k`-th list of `split_array n` holds, in their order, the arguments at the
-- places `k`, `k + n`, `k + 2 * n` and so on.
pub split_array-every :
    (n k : ℕ) (a : List String) → k < n → get_elem? (split_array n a) k ≡ some (every k n 0 a)
unfolding split_array
split_array-every n k a h =
    get_elem?-split_from n 0 k a (empty_lists n) (get_elem?-empty_lists n k h)
