-- ===== src/Prelude/Splits.antt =====
-- Texts that are cut at a character: what `indexOf`, `substring(0, i)` and `substring(i + 1)` give.
use Prim.Native.Nat.{ℕ, suc}
use Prim.Native.Char.{Char, code}
use Prim.Native.String.{String, [], ◌∷◌, ◌++◌ as ◌<>◌}
use Prim.Native.String.append
use mathlib.Core.Path.{◌≡◌, refl, ap, ◌∙◌}
use mathlib.Core.Logic.{inl, inr}
use mathlib.Core.Bool.{true, false}
use mathlib.Core.Option
use mathlib.Core.Option.{Option, none, some}
use native.Mathlib.Omega.{arith}
use text.Mathlib.TextLemmas.{append_assoc}
use augmented_finance_protoc.Prelude.Tests.{eqb, Bool-cases}
use augmented_finance_protoc.Prelude.Text.{str_length, index_of, str_take, str_drop}

-- `s` has no character with the number `k`.
abbrev pub Lacks : ℕ → String → Type 0
Lacks k s = index_of k s ≡ none

eqb_refl : (k : ℕ) → eqb k k ≡ true
eqb_refl k = ground arith

map-suc-none : (o : Option ℕ) → Option.map suc o ≡ none → o ≡ none
map-suc-none none e = refl
map-suc-none (some n) e = ground arith

-- The head of a text that lacks `k` is another character, and so is the rest.
pub Lacks-cons :
    (k : ℕ) (c : Char) (s : String) → Lacks k (c ∷ s) → (eqb (code c) k ≡ false) × Lacks k s
unfolding index_of
Lacks-cons k c s h = elim (Bool-cases (eqb (code c) k)) [
  | inl e ↦ (let bad : ◌≡◌ {A = Option ℕ} (some 0) none = rw e at h in ground arith)
  | inr e ↦ (e, map-suc-none (index_of k s) (rw e at h))
]

pub index_of-joined :
    (a b : String) (c : Char)
    → Lacks (code c) a
    → index_of (code c) (a <> (c ∷ b)) ≡ some (str_length a)
unfolding index_of
index_of-joined [] b c h = rw (append.nil, eqb_refl (code c)) refl
index_of-joined (d ∷ a) b c h =
    let (e, r) = Lacks-cons (code c) d a h in
    rw (append.cons, e) (ap (Option.map suc) (index_of-joined a b c r))

pub str_take-joined : (a b : String) → str_take (str_length a) (a <> b) ≡ a
unfolding str_take
str_take-joined [] b = refl
str_take-joined (d ∷ a) b = rw append.cons (ap (λ s. d ∷ s) (str_take-joined a b))

pub str_drop-joined : (a b : String) (c : Char) → str_drop (suc (str_length a)) (a <> (c ∷ b)) ≡ b
unfolding str_drop
str_drop-joined [] b c = rw append.nil refl
str_drop-joined (d ∷ a) b c = rw append.cons (str_drop-joined a b c)

-- A text of one character in front.
pub one-append : (c : Char) (s : String) → (c ∷ []) <> s ≡ c ∷ s
one-append c s = append.cons c [] s ∙ ap (λ t. c ∷ t) (append.nil s)

pub append-str_assoc : (a b c : String) → (a <> b) <> c ≡ a <> (b <> c)
append-str_assoc a b c = append_assoc a b c

pub Lacks-append : (k : ℕ) (a b : String) → Lacks k a → Lacks k b → Lacks k (a <> b)
unfolding index_of
Lacks-append k [] b h g = rw append.nil g
Lacks-append k (d ∷ a) b h g =
    let (e, r) = Lacks-cons k d a h in
    rw (append.cons, e) (ap (Option.map suc) (Lacks-append k a b r g))
