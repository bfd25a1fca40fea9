-- ===== src/Commands/Tokens/Found.antt =====
-- Tokens that are looked up when the list of tokens is known.
use augmented_finance_protoc.Prelude.{
  ℕ, String, ◌≡◌, refl, List, [], ◌∷◌, some, Result, ok, thrown, Act, continue, pure, ◌>>=◌, map,
  if◌then◌else◌, Bool-cases, inl, inr,
}
use augmented_finance_protoc.Helpers.Addresses.{AddressLib}
use augmented_finance_protoc.Commands.Session.{TokenInfo, Session}
use augmented_finance_protoc.Commands.Tokens.{
  get_token_list, is_given, price_token_in, find_price_token, find_price_tokens,
}

-- What a name stands for by itself.
abbrev pub price_of : AddressLib → List TokenInfo → String → Result String
price_of lib tokens name = if is_given lib name then ok name else price_token_in lib tokens name

-- The results in their order, or the first failure.
abbrev pub all_ok : List (Result String) → Result (List String)
all_ok [] = ok []
all_ok (thrown e ∷ rs) = thrown e
all_ok (ok a ∷ rs) = elim (all_ok rs) [ ok more ↦ ok (a ∷ more) | thrown e ↦ thrown e ]

module _ {W : Type 0} (lib : AddressLib) (fetch : Act W (List TokenInfo × ℕ))
    (tokens : List TokenInfo) (s : Session W) (known : s.token_list ≡ some tokens) where
  known_tokens : get_token_list fetch s ≡ (ok tokens, s)
  unfolding get_token_list
  known_tokens = rw known refl

  find_price_token_lem :
      (name : String)
      → find_price_token lib (get_token_list fetch) name s ≡ (price_of lib tokens name, s)
  unfolding find_price_token
  find_price_token_lem name = elim (Bool-cases (is_given lib name)) [
    | inl e ↦ rw e refl
    | inr e ↦ rw (e, known_tokens) refl
  ]

last_of :
    {W : Type 0} (a : String) (rs : List (Result String)) (s : W)
    → continue (λ more s'. (ok (a ∷ more), s')) (all_ok rs, s) ≡ (all_ok (ok a ∷ rs), s)
last_of a rs s = go (all_ok rs)
  where
    go :
        (r : Result (List String))
        → continue (λ more s'. (ok (a ∷ more), s')) (r, s)
          ≡ ((elim r [ ok more ↦ ok (a ∷ more) | thrown e ↦ thrown e ]), s)
    go (ok more) = refl
    go (thrown e) = refl

after :
    {W : Type 0} (r : Result String) (rs : List (Result String)) (m : Act W (List String)) (s : W)
    → m s ≡ (all_ok rs, s)
    → continue (λ token. m >>= λ more. pure (token ∷ more)) (r, s) ≡ (all_ok (r ∷ rs), s)
after (thrown e) rs m s h = refl
after (ok a) rs m s h = rw h (last_of a rs s)

-- When the list of tokens is known, the price tokens of names are found without a call of the chain and
-- without a change of the state: they are those of the single names, in their order, or the
-- first failure among them.
pub find_price_tokens_lem :
    {W : Type 0} (lib : AddressLib) (fetch : Act W (List TokenInfo × ℕ)) (tokens : List TokenInfo)
    (s : Session W)
    → s.token_list ≡ some tokens
    → (names : List String)
    → find_price_tokens lib (get_token_list fetch) names s
      ≡ (all_ok (map (price_of lib tokens) names), s)
unfolding find_price_tokens
find_price_tokens_lem lib fetch tokens s known [] = refl
find_price_tokens_lem lib fetch tokens s known (name ∷ names) =
    rw (find_price_token_lem lib fetch tokens s known name) (
      after (price_of lib tokens name) _ _ s (find_price_tokens_lem lib fetch tokens s known names))
