-- ===== src/Provider/Granted.antt =====
-- Which emergency admins a continued deployment grants their role to, and what a configured
-- controller leads to.
use augmented_finance_protoc.Prelude.{
  String, ◌≡◌, refl, ap, ◌∙◌, false, List, [], ◌∷◌, ◌++◌, All, drop, length, map, to_lower_case, ok,
  Act, continue, ◌>>◌, for_each,
}
use augmented_finance_protoc.Access.Flags.{AccessFlag, flag_value}
use augmented_finance_protoc.Helpers.Addresses.{AddressLib}
use augmented_finance_protoc.Reserves.Plan.{has}
use augmented_finance_protoc.Provider.{Contracts, known_admins, grant_admin, grant_emergency_admins}

drop-append : {A : Type 0} (xs ys : List A) → drop (length xs) (xs ++ ys) ≡ ys
drop-append [] ys = refl
drop-append (x ∷ xs) ys = drop-append xs ys

module _ {W : Type 0} (contracts : Contracts W) (lib : AddressLib) (controller : String) where
  -- No text of the list is the admin.
  abbrev pub IsUnknown : List String → String → Type 0
  IsUnknown known admin = has (to_lower_case admin) (map to_lower_case known) ≡ false

  abbrev pub grant : String → Act W (Unit {0})
  grant admin = contracts.grant_roles controller admin (flag_value AccessFlag.emergency_admin)

  grant_first :
      (known : List String) (a : String) (k k' : Act W (Unit {0}))
      → IsUnknown known a
      → k ≡ k'
      → (s : W)
      → (grant_admin contracts lib controller (map to_lower_case known) a >> k) s
        ≡ (grant a >> k') s
  unfolding grant_admin
  grant_first known a k k' u e s = rw u (ap (λ m. continue (λ _. m) (grant a s)) e)

  grant_unknown :
      (known admins : List String)
      → All (IsUnknown known) admins
      → for_each (grant_admin contracts lib controller (map to_lower_case known)) admins
        ≡ for_each grant admins
  unfolding for_each
  grant_unknown known [] h = refl
  grant_unknown known (a ∷ rest) (u, h) =
      λ i s. grant_first known a _ _ u (grant_unknown known rest h) s i

  known_admins_lem :
      (active unused : List String) (s s' : W)
      → contracts.role_active_grantees controller (flag_value AccessFlag.emergency_admin) s
        ≡ (ok (active ++ unused, length active), s')
      → known_admins contracts lib controller s ≡ (ok (map to_lower_case unused), s')
  unfolding known_admins
  known_admins_lem active unused s s' e = rw (e, drop-append active unused) refl

  -- The controller is not new, its list of grantees is `active` and then places that are not used, which
  -- hold none of the configured admins, and its count is that of `active`. Then the role is granted to
  -- every configured admin, whichever of them have it already.
  pub grant_emergency_admins-regrants :
      (active unused : List String) (a : String) (admins : List String) (s s' : W)
      → contracts.role_active_grantees controller (flag_value AccessFlag.emergency_admin) s
        ≡ (ok (active ++ unused, length active), s')
      → All (IsUnknown unused) (a ∷ admins)
      → grant_emergency_admins contracts lib controller false (a ∷ admins) s
        ≡ for_each grant (a ∷ admins) s'
  unfolding grant_emergency_admins
  grant_emergency_admins-regrants active unused a admins s s' e h =
      ap (continue (λ known. for_each (grant_admin contracts lib controller known) (a ∷ admins)))
        (known_admins_lem active unused s s' e)
      ∙ ap (λ m. m s') (grant_unknown unused (a ∷ admins) h)
