-- ===== src/Commands/Session/Collected.antt =====
-- The session after calls have been applied, and when its summaries ask for no transaction.
use Prim.Native.Nat.{bit_or, bit_or-bitwise, digits, max}
use augmented_finance_protoc.Prelude.{
  ℕ, zero, suc, ◌/◌, ◌%◌, ◌≤◌, ◌≡◌, refl, ◌≢◌, ◌⊎◌, ◌↔◌, inl, inr, Bool, true, false, ◌&&◌, List,
  [], ◌∷◌, ◌++◌, arith, ◌∙◌, sym, for_each, append_assoc, append-nil,
}
use augmented_finance_protoc.Commands.Session.{ContractCall, Session, apply_call}
use augmented_finance_protoc.Commands.Session.Roles.{or_calls, and_calls}

max-zero : (a b : ℕ) → max a b ≡ 0 → (a ≡ 0) × (b ≡ 0)
max-zero a b h = (omega arith, omega arith)

digits-zero : (n a b : ℕ) → a ≤ n → digits (λ k. k) max n a b ≡ 0 → (a ≡ 0) × (b ≡ 0)
digits-zero zero a b l h = (omega arith, h)
digits-zero (suc n) zero b l h = (refl, h)
digits-zero (suc n) (suc a) b l h =
    let rest = digits (λ k. k) max n (suc a / 2) (b / 2) in
    let low : max (suc a % 2) (b % 2) ≡ 0 = omega arith in
    let (half, _) = digits-zero n (suc a / 2) (b / 2) (omega arith) (omega arith) in
    absurd (omega (arith, half, max-zero (suc a % 2) (b % 2) low))

bit_or-zero : (a b : ℕ) → bit_or a b ≡ 0 → (a ≡ 0) × (b ≡ 0)
bit_or-zero a b h =
    let same : bit_or a b ≡ digits (λ k. k) max a a b = λ i. bit_or-bitwise a b i in
    digits-zero a a b (omega arith) (sym same ∙ h)

zero-bit_or : (a b : ℕ) → a ≡ 0 → b ≡ 0 → bit_or a b ≡ 0
zero-bit_or a b e f = rw (e, f) (λ i. bit_or-bitwise 0 0 i)

module _ {W : Type 0} where
  -- The session in which these calls have been applied one after another.
  abbrev pub collected : List ContractCall → Session W → Session W
  collected cs s = (for_each apply_call cs s).1

  pub record IsCollected (cs : List ContractCall) (s s' : Session W) : Type 0 where
    pub calls : s'.calls ≡ s.calls ++ cs
    pub flags : s'.all_flags ≡ or_calls cs s.all_flags
    pub static : s'.all_static ≡ and_calls cs s.all_static

  pub collected_lem : (cs : List ContractCall) (s : Session W) → IsCollected cs s (collected cs s)
  unfolding for_each apply_call
  collected_lem [] s = record { calls = sym (append-nil s.calls); flags = refl; static = refl }
  collected_lem (c ∷ cs) s =
      let rest = collected_lem cs (apply_call c s).1 in
      record {
        calls = rest.calls ∙ append_assoc s.calls (c ∷ []) cs;
        flags = rest.flags;
        static = rest.static;
      }

-- Some call is not static or needs a role.
abbrev pub NeedsTransaction : List ContractCall → Type 0
NeedsTransaction [] = ⊥
NeedsTransaction (c ∷ cs) = ((c.is_static ≡ false) ⊎ (c.access_flags ≢ 0)) ⊎ NeedsTransaction cs

abbrev AsksFor : Bool → ℕ → Type 0
AsksFor all_static flags = (all_static ≡ false) ⊎ (flags ≢ 0)

AsksFor-both : (b c : Bool) (f g : ℕ) → AsksFor (b && c) (bit_or f g) → AsksFor b f ⊎ AsksFor c g
AsksFor-both false c f g h = inl (inl refl)
AsksFor-both true false f g h = inr (inl refl)
AsksFor-both true true f zero (inl e) = absurd (ground arith)
AsksFor-both true true f (suc g) h = inr (inr (λ e. ground arith))
AsksFor-both true true zero zero (inr n) = absurd (n (zero-bit_or 0 0 refl refl))
AsksFor-both true true (suc f) zero (inr n) = inl (inr (λ e. ground arith))

AsksFor-left : (b c : Bool) (f g : ℕ) → AsksFor b f → AsksFor (b && c) (bit_or f g)
AsksFor-left b c f g (inl e) = inl (rw e refl)
AsksFor-left b c f g (inr n) = inr (λ e. n (bit_or-zero f g e).0)

AsksFor-right : (b c : Bool) (f g : ℕ) → AsksFor c g → AsksFor (b && c) (bit_or f g)
AsksFor-right true c f g (inl e) = inl e
AsksFor-right false c f g (inl e) = inl refl
AsksFor-right b c f g (inr n) = inr (λ e. n (bit_or-zero f g e).1)

summary_asks :
    (cs : List ContractCall) (b : Bool) (f : ℕ)
    → AsksFor (and_calls cs b) (or_calls cs f)
    → AsksFor b f ⊎ NeedsTransaction cs
summary_asks [] b f h = inl h
summary_asks (c ∷ cs) b f h =
    elim (summary_asks cs (b && c.is_static) (bit_or f c.access_flags) h) [
      | inl a ↦ elim (AsksFor-both b c.is_static f c.access_flags a) [
        | inl before ↦ inl before
        | inr here ↦ inr (inl here)
      ]
      | inr later ↦ inr (inr later)
    ]

asks-kept :
    (cs : List ContractCall) (b : Bool) (f : ℕ)
    → AsksFor b f
    → AsksFor (and_calls cs b) (or_calls cs f)
asks-kept [] b f h = h
asks-kept (c ∷ cs) b f h =
    asks-kept cs (b && c.is_static) (bit_or f c.access_flags)
      (AsksFor-left b c.is_static f c.access_flags h)

asks_summary :
    (cs : List ContractCall) (b : Bool) (f : ℕ)
    → NeedsTransaction cs
    → AsksFor (and_calls cs b) (or_calls cs f)
asks_summary [] b f h = absurd h
asks_summary (c ∷ cs) b f (inl here) =
    asks-kept cs (b && c.is_static) (bit_or f c.access_flags)
      (AsksFor-right b c.is_static f c.access_flags here)
asks_summary (c ∷ cs) b f (inr later) =
    asks_summary cs (b && c.is_static) (bit_or f c.access_flags) later

-- The summaries of calls ask for a transaction exactly if some call does.
pub summary-NeedsTransaction :
    (cs : List ContractCall)
    → ((and_calls cs true ≡ false) ⊎ (or_calls cs 0 ≢ 0)) ↔ NeedsTransaction cs
summary-NeedsTransaction cs = (
  λ h. elim (summary_asks cs true 0 h) [
    | inl (inl e) ↦ absurd (ground arith)
    | inl (inr n) ↦ absurd (n refl)
    | inr found ↦ found
  ],
  λ found. asks_summary cs true 0 found,
)
