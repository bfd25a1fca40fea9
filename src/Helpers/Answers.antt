-- ===== src/Helpers/Answers.antt =====
-- Actions that return: what the contracts are assumed to do where a result is shown to come about.
use augmented_finance_protoc.Prelude.{◌≡◌, refl, List, [], ◌∷◌, ok, Act, ◌>>=◌, for_each}

module _ {W : Type 0} where
  -- The action returns from the state, with a value that has the property.
  abbrev pub Gives : {A : Type 0} → (A → Type 0) → Act W A → W → Type 0
  Gives {A} P m s = (a : A) × (s' : W) × (m s ≡ (ok a, s')) × P a

  -- The action returns from every state.
  abbrev pub Answers : {A : Type 0} → Act W A → Type 0
  Answers m = (s : W) → Gives (λ _. Unit {0}) m s

  pub Gives-bind :
      {A B : Type 0} (P : A → Type 0) (Q : B → Type 0) (m : Act W A) (f : A → Act W B) (s : W)
      → Gives P m s
      → ((a : A) (s' : W) → P a → Gives Q (f a) s')
      → Gives Q (m >>= f) s
  Gives-bind P Q m f s (a, s', e, p) h = let (b, s'', e', q) = h a s' p in (b, s'', rw e e', q)

  -- One answer, and then the rest.
  pub after :
      {A B : Type 0} (Q : B → Type 0) (m : Act W A) (f : A → Act W B) (s : W)
      → Answers m
      → ((a : A) (s' : W) → Gives Q (f a) s')
      → Gives Q (m >>= f) s
  after Q m f s h k = Gives-bind (λ _. Unit {0}) Q m f s (h s) (λ a s' _. k a s')

  pub for_each-Answers :
      {A : Type 0} (f : A → Act W (Unit {0})) (xs : List A)
      → ((a : A) → Answers (f a))
      → Answers (for_each f xs)
  unfolding for_each
  for_each-Answers f [] h s = (tt, s, refl, tt)
  for_each-Answers f (x ∷ xs) h s =
      after (λ _. Unit {0}) (f x) (λ _. for_each f xs) s (h x) (λ _ s'. for_each-Answers f xs h s')
