-- ===== src/Prelude/Actions.antt =====
-- Asynchronous code as a state machine: an action takes the state of what it talks to (a chain, a
-- database file, an explorer) and returns a value or what was thrown, with the state that it leaves.
-- What was done before a `throw` stays done.
use Prim.Native.String.{String}
use mathlib.Core.Path.{◌≡◌, refl, ap}
use mathlib.Core.List.{List, [], ◌∷◌}

pub data Result (A : Type 0) : Type 0 where
  ok : A → Result A
  thrown : String → Result A

abbrev pub Act : Type 0 → Type 0 → Type 0
Act S A = S → Result A × S

module _ {S : Type 0} where
  abbrev pub pure : {A : Type 0} → A → Act S A
  pure a s = (ok a, s)

  abbrev pub throw : {A : Type 0} → String → Act S A
  throw message s = (thrown message, s)

  abbrev pub continue : {A B : Type 0} → (A → Act S B) → Result A × S → Result B × S
  continue f (ok a, s) = f a s
  continue f (thrown e, s) = (thrown e, s)

  infixl 5 ◌>>=◌ ◌>>◌
  abbrev pub ◌>>=◌ : {A B : Type 0} → Act S A → (A → Act S B) → Act S B
  ◌>>=◌ m f s = continue f (m s)

  abbrev pub ◌>>◌ : {B : Type 0} → Act S (Unit {0}) → Act S B → Act S B
  m >> k = m >>= λ _. k

  -- `for (const x of xs) await f(x)`
  unfoldable pub for_each : {A : Type 0} → (A → Act S (Unit {0})) → List A → Act S (Unit {0})
  for_each f [] = pure tt
  for_each f (x ∷ xs) = do f x; for_each f xs

  -- `try { m } catch (e) { handler(e) }`
  abbrev pub recover : {A : Type 0} → (String → Act S A) → Result A × S → Result A × S
  recover handler (ok a, s) = (ok a, s)
  recover handler (thrown e, s) = handler e s

  abbrev pub catch : {A : Type 0} → Act S A → (String → Act S A) → Act S A
  catch m handler s = recover handler (m s)

  -- Inversion of a bind that returned.
  pub continue-eq_ok :
      {A B : Type 0} (f : A → Act S B) (r : Result A × S) {b : B} {s' : S}
      → continue f r ≡ (ok b, s')
      → (done : A × S) × (r ≡ (ok done.0, done.1)) × (f done.0 done.1 ≡ (ok b, s'))
  continue-eq_ok f (ok a, s) e = ((a, s), refl, e)
  continue-eq_ok f (thrown m, s) e = cc (ap (λ p. p.0) e)
