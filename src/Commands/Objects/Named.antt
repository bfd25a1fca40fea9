-- ===== src/Commands/Objects/Named.antt =====
-- What a qualified name leads to.
use Prim.Native.Char.{Char, code}
use Prim.Native.String.{◌∷◌}
use Prim.Native.String.append
use mathlib.Core.Option
use augmented_finance_protoc.Prelude.{
  ℕ, suc, String, ◌≡◌, refl, sym, ap, ◌∙◌, false, List, Option, none, some, arith, ok, ◌<>◌, ◌==◌,
  Bool-cases, inl, inr, eq_iff, index_of, str_take, str_length, Lacks, index_of-joined,
  str_take-joined, str_drop-joined, one-append, append-str_assoc, Lacks-append,
}
use augmented_finance_protoc.Helpers.Addresses.{falsy_or_zero_address}
use augmented_finance_protoc.Types.ContractIds.{ContractId}
use augmented_finance_protoc.Types.ContractGetters.{get_contract_getter_by_id}
use augmented_finance_protoc.Access.Flags.{FlagEntry, access_flags}
use augmented_finance_protoc.Commands.Session.{Value, Role, Session, call_contract}
use augmented_finance_protoc.Commands.Objects.{
  Network, qualified_name, split_at, connected, address_of_name, find_qualified, find_at,
  find_object, call_qualified_func,
}

-- A text cut at the first of a character gives what stood before it and after it.
split_at-joined :
    (a b : String) (c : Char)
    → Lacks (code c) a
    → split_at (index_of (code c) (a <> (c ∷ b))) (a <> (c ∷ b)) ≡ (a, b)
unfolding split_at
split_at-joined a b c h =
    rw (index_of-joined a b c h, str_take-joined a (c ∷ b), str_drop-joined a b c) refl

abbrev dot : Char
dot = "."

abbrev at_sign : Char
at_sign = "@"

qualified_name-parts :
    (type_id instance_id func_name : String)
    → qualified_name type_id instance_id func_name
      ≡ (type_id <> (at_sign ∷ instance_id)) <> (dot ∷ func_name)
unfolding qualified_name
qualified_name-parts type_id instance_id func_name =
    ap (λ s. type_id <> s)
      (one-append at_sign (instance_id <> "." <> func_name)
        ∙ ap (λ s. at_sign ∷ (instance_id <> s)) (one-append dot func_name)
        ∙ sym (append.cons at_sign instance_id (dot ∷ func_name)))
    ∙ sym (append-str_assoc type_id (at_sign ∷ instance_id) (dot ∷ func_name))

Lacks-object :
    (type_id instance_id : String)
    → Lacks 46 type_id
    → Lacks 46 instance_id
    → Lacks 46 (type_id <> (at_sign ∷ instance_id))
unfolding index_of
Lacks-object type_id instance_id h g =
    Lacks-append 46 type_id (at_sign ∷ instance_id) h (ap (Option.map suc) g)

-- The name of an object that has an at sign is none of the names without one.
named_otherwise :
    (type_id instance_id plain : String)
    → index_of 64 plain ≡ none
    → Lacks 64 type_id
    → ((type_id <> (at_sign ∷ instance_id)) == plain) ≡ false
named_otherwise type_id instance_id plain h t =
    let found = index_of-joined type_id instance_id at_sign t in
    elim (Bool-cases ((type_id <> (at_sign ∷ instance_id)) == plain)) [
      | inr e ↦ e
      | inl e ↦
          let same = (eq_iff (type_id <> (at_sign ∷ instance_id)) plain).0 e in
          let bad : ◌≡◌ {A = Option ℕ} none (some (str_length type_id)) =
            sym h ∙ ap (index_of 64) (sym same) ∙ found in
          ground arith
    ]

module _ {W : Type 0} (net : Network W) where
  find_object-qualified :
      (type_id instance_id : String)
      → Lacks 64 type_id
      → find_object net (type_id <> (at_sign ∷ instance_id))
        ≡ find_qualified net type_id instance_id
  unfolding find_object find_at index_of
  find_object-qualified type_id instance_id t =
      rw
        (
          named_otherwise type_id instance_id "AC" refl t,
          named_otherwise type_id instance_id "ACCESS_CONTROLLER" refl t,
          named_otherwise type_id instance_id "REGISTRY" refl t,
          index_of-joined type_id instance_id at_sign t,
        )
        (ap (λ p. find_qualified net p.0 p.1)
          (ap (λ o. split_at o (type_id <> (at_sign ∷ instance_id)))
              (sym (index_of-joined type_id instance_id at_sign t))
            ∙ split_at-joined type_id instance_id at_sign t))

  -- A command whose name `qualifiedName` made, of a type and the name of a role, calls the function on the
  -- contract of that type at the address that the access controller has for the role: when the type
  -- and the role hold no dot and the type no at sign, the role is a flag and does not begin like
  -- an address, the address is proper, and the type has a getter.
  pub call_qualified_func-qualified_name :
      (type_id role func_name : String) (roles : List Role) (args : List Value) (s : Session W)
      (entry : FlagEntry) (id : ContractId) (addr : String) (w : W)
      → Lacks 46 type_id
      → Lacks 46 role
      → Lacks 64 type_id
      → (str_take 2 role == "0x") ≡ false
      → access_flags role ≡ some entry
      → net.get_address entry s.chain ≡ (ok addr, w)
      → falsy_or_zero_address net.lib (some addr) ≡ false
      → get_contract_getter_by_id type_id ≡ some id
      → call_qualified_func net roles (qualified_name type_id role func_name) args s
        ≡ call_contract net.get_function roles
            (connected id addr)
            func_name
            args
            (record s { chain = w })
  unfolding call_qualified_func find_qualified address_of_name
  call_qualified_func-qualified_name type_id role func_name roles args s entry id addr w td rd ta x
        f a v g =
      rw
        (
          qualified_name-parts type_id role func_name,
          split_at-joined (type_id <> (at_sign ∷ role)) func_name dot
              (Lacks-object type_id role td rd),
          find_object-qualified type_id role ta,
          x,
          f,
          a,
          v,
          g,
        )
        refl
