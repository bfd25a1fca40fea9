-- ===== src/JsonDb/Printing.antt =====
-- What `printContracts` reports of the named entries.
use augmented_finance_protoc.Prelude.{
  ℕ, ◌+◌, String, ◌≡◌, refl, ◌∙◌, [], ◌∷◌, Option, none, some, arith, eq_iff, ◌==◌, if◌then◌else◌,
  ltb, length, All, Dict, lookup, insert, NodupKeys, lookup-insert, length-insert, starts_with, inl,
  inr, Bool-cases,
}
use augmented_finance_protoc.JsonDb.{
  Db, DbNamedEntry, print_entries, print_contracts, get_named_from_json_db,
}

-- The value that an entry has in the entry map: `none` for a name that starts with `~` and for an id
-- that was registered more than once.
abbrev pub single : String → DbNamedEntry → Option String
single key value =
    if starts_with key "~" then none else (if ltb 1 value.count then none else some value.address)

abbrev pub single_or : Option String → String → Option DbNamedEntry → Option String
single_or old key none = old
single_or old key (some value) = elim (single key value) [ none ↦ old | some a ↦ some a ]

single_or-none :
    (key : String) (value : DbNamedEntry) → single_or none key (some value) ≡ single key value
single_or-none key value = ground arith

print_entries-lookup :
    (d : Dict DbNamedEntry) (m : Dict String) (multi : ℕ) (k : String)
    → NodupKeys d
    → lookup k (print_entries d m multi).0 ≡ single_or (lookup k m) k (lookup k d)
unfolding print_entries lookup
print_entries-lookup [] m multi k u = refl
print_entries-lookup ((key, value) ∷ d) m multi k (fresh, u) = elim (Bool-cases (key == k)) [
  | inl e ↦
      let same = (eq_iff key k).0 e in
      ground (
        arith,
        eq_iff key k,
        print_entries-lookup d m multi k u,
        print_entries-lookup d m (multi + 1) k u,
        print_entries-lookup d (insert key value.address m) multi k u,
        lookup-insert key k value.address m,
      )
  | inr e ↦ ground (
    arith,
    print_entries-lookup d m multi k u,
    print_entries-lookup d m (multi + 1) k u,
    print_entries-lookup d (insert key value.address m) multi k u,
    lookup-insert key k value.address m,
  )
]

-- The names that do not start with `~`.
abbrev pub count_public : Dict DbNamedEntry → ℕ
count_public [] = 0
count_public ((key, _) ∷ d) = (if starts_with key "~" then 0 else 1) + count_public d

abbrev pub AreFresh : Dict DbNamedEntry → Dict String → Type 0
AreFresh d m = All (λ e. lookup e.0 m ≡ none) d

AreFresh-insert :
    (d : Dict DbNamedEntry) (m : Dict String) (key addr : String)
    → lookup key d ≡ none
    → AreFresh d m
    → AreFresh d (insert key addr m)
unfolding lookup
AreFresh-insert [] m key addr fresh h = tt
AreFresh-insert ((k, v) ∷ d) m key addr fresh (p, h) = (
  ground (arith, lookup-insert key k addr m, eq_iff key k, eq_iff k key),
  AreFresh-insert d m key addr (ground arith) h,
)

print_entries-length :
    (d : Dict DbNamedEntry) (m : Dict String) (multi : ℕ)
    → NodupKeys d
    → AreFresh d m
    → length (print_entries d m multi).0 + (print_entries d m multi).1
      ≡ length m + multi + count_public d
unfolding print_entries
print_entries-length [] m multi u h = omega arith
print_entries-length ((key, value) ∷ d) m multi (fresh, u) (p, h) =
    let hidden = print_entries-length d m multi u h in
    let several = print_entries-length d m (multi + 1) u h in
    let one =
      print_entries-length d (insert key value.address m) multi u
        (AreFresh-insert d m key value.address fresh h) in
    ground (arith, hidden, several, one, length-insert key value.address m)

AreFresh-nil : (d : Dict DbNamedEntry) → AreFresh d []
unfolding lookup
AreFresh-nil [] = tt
AreFresh-nil (e ∷ d) = (refl, AreFresh-nil d)

-- If no two named entries have one name, then in the entry map that `print_contracts` returns an id
-- has the address of its named entry when its name does not start with `~` and its count is at most 1,
-- and no value otherwise; and the size of that map and the number of ids with several instances
-- add up to the number of names that do not start with `~`.
pub print_contracts_lem :
    (network : String) (db : Db)
    → NodupKeys (get_named_from_json_db network db)
    → ((k : String)
        → lookup k (print_contracts network db).0
          ≡ single_or none k (lookup k (get_named_from_json_db network db)))
      × (length (print_contracts network db).0 + (print_contracts network db).2
          ≡ count_public (get_named_from_json_db network db))
unfolding print_contracts lookup
print_contracts_lem network db u = (
  λ k. print_entries-lookup (get_named_from_json_db network db) [] 0 k u,
  print_entries-length (get_named_from_json_db network db) [] 0 u
        (AreFresh-nil (get_named_from_json_db network db))
      ∙ omega arith,
)
