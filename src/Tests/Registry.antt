-- ===== src/Tests/Registry.antt =====
-- The deployment database, deployments, batches and verification runs at concrete data.
use augmented_finance_protoc.Prelude.{
  ℕ, zero, suc, ◌+◌, ◌<◌, String, ◌≡◌, refl, true, false, List, [], ◌∷◌, ◌++◌, none, some, arith,
  ok, thrown, Dict, lookup, insert, All, NodupKeys, if◌then◌else◌, ltb, starts_with, flatten,
  length,
}
use augmented_finance_protoc.Helpers.Addresses.{falsy_or_zero_address}
use augmented_finance_protoc.Helpers.Batches.{chunk}
use augmented_finance_protoc.Helpers.Batches.Order.{IsChunk, chunk_lem}
use augmented_finance_protoc.JsonDb.Printing.{single_or, count_public, print_contracts_lem}
use augmented_finance_protoc.JsonDb.{
  print_contracts, get_named_from_json_db, Db, DbInstanceEntry, empty_network, count_of,
  get_from_json_db, add_contract_addr_to_json_db, network_of, get_verified_from_json_db,
  set_verified_to_json_db,
}
use augmented_finance_protoc.JsonDb.Registry.{
  IsRegistered, add_contract_addr_to_json_db-IsRegistered, Registration, register_all, occurrences,
  count-register_all,
}
use augmented_finance_protoc.JsonDb.Refined.{
  DbWrite, write_all, meaning_all, view, write_all-refines,
}
use augmented_finance_protoc.Deployment.{
  Site, Chain, wait_for_address_fn, with_save_and_verify, with_save_and_verify_once,
}
use augmented_finance_protoc.Deployment.Waiting.{
  ask, snooze, IsBad, wait_for_address_fn-found, wait_for_address_fn-lost,
}
use augmented_finance_protoc.Deployment.Once.{with_save_and_verify_once_again}
use augmented_finance_protoc.Verification.VerifyAll.{full, Verifier, select_entries, verify_entries}
use augmented_finance_protoc.Verification.VerifyAll.Batches.{
  every, verifiable, select_entries-every,
}
use augmented_finance_protoc.Verification.VerifyAll.Marks.{IsMarked, verify_entries-IsMarked}
use augmented_finance_protoc.Tests.{sample_lib}

abbrev five : List ℕ
five = 1 ∷ 2 ∷ 3 ∷ 4 ∷ 5 ∷ []

chunk_lem_example : (flatten (chunk five 2) ≡ five) × All (IsChunk five 1) (chunk five 2)
chunk_lem_example = chunk_lem five 1

three_chunks : chunk five 2 ≡ (1 ∷ 2 ∷ []) ∷ (3 ∷ 4 ∷ []) ∷ (5 ∷ []) ∷ []
unfolding chunk
three_chunks = refl

abbrev old_db : Db
old_db =
    ("main", record empty_network { named = ("Pool", record { address = "0x1"; count = 1 }) ∷ [] })
    ∷ []

add_contract_addr_to_json_db-IsRegistered_example :
    IsRegistered "main" "Pool" "0x2" none old_db
      (add_contract_addr_to_json_db "main" "Pool" "0x2" true none old_db)
add_contract_addr_to_json_db-IsRegistered_example =
    add_contract_addr_to_json_db-IsRegistered "main" "Pool" "0x2" none old_db

abbrev two_pools : List Registration
two_pools =
    record { id = "Pool"; address = "0x2"; args = none }
    ∷ record { id = "Oracle"; address = "0x3"; args = some "[]" }
    ∷ record { id = "Pool"; address = "0x4"; args = none }
    ∷ []

count-register_all_example :
    count_of (get_from_json_db "main" "Pool" (register_all "main" two_pools old_db))
    ≡ occurrences "main" "Pool" two_pools + count_of (get_from_json_db "main" "Pool" old_db)
count-register_all_example = count-register_all "main" two_pools old_db "Pool"

three_pools : count_of (get_from_json_db "main" "Pool" (register_all "main" two_pools old_db)) ≡ 3
unfolding get_from_json_db add_contract_addr_to_json_db lookup insert network_of
three_pools = refl

abbrev three_writes : List (String × DbWrite)
three_writes =
    ("main", DbWrite.add_contract "Pool" "0x2" true none)
    ∷ ("test", DbWrite.cleanup)
    ∷ ("main", DbWrite.set_verified "0x2" true)
    ∷ []

write_all-refines_example :
    view (write_all three_writes old_db) ≡ meaning_all three_writes (view old_db)
write_all-refines_example = write_all-refines three_writes old_db

named_once : NodupKeys (get_named_from_json_db "main" old_db)
unfolding get_named_from_json_db network_of lookup
named_once = (refl, tt)

print_contracts_lem_example :
    ((k : String)
      → lookup k (print_contracts "main" old_db).0
        ≡ single_or none k (lookup k (get_named_from_json_db "main" old_db)))
    × (length (print_contracts "main" old_db).0 + (print_contracts "main" old_db).2
        ≡ count_public (get_named_from_json_db "main" old_db))
print_contracts_lem_example = print_contracts_lem "main" old_db named_once

abbrev third_try : ℕ → String
third_try i = if ltb i 2 then "" else "0x5"

third_try-IsBad : (j : ℕ) → j < 2 → IsBad sample_lib third_try j
unfolding falsy_or_zero_address
third_try-IsBad zero h = refl
third_try-IsBad (suc zero) h = refl
third_try-IsBad (suc (suc j)) h = absurd (omega arith)

third_try_valid : falsy_or_zero_address sample_lib (some (third_try 2)) ≡ false
unfolding falsy_or_zero_address sample_lib starts_with
third_try_valid = refl

wait_for_address_fn-found_example :
    wait_for_address_fn sample_lib
      (ask sample_lib third_try)
      (snooze sample_lib third_try)
      (record { asked = 0; slept = 0 })
    ≡ (ok "0x5", record { asked = 3; slept = 1200 })
wait_for_address_fn-found_example =
    wait_for_address_fn-found sample_lib third_try 2 (omega arith) third_try-IsBad third_try_valid

never : (j : ℕ) → j < 21 → IsBad sample_lib (λ _. "") j
unfolding falsy_or_zero_address
never j h = refl

wait_for_address_fn-lost_example :
    wait_for_address_fn sample_lib
      (ask sample_lib (λ _. ""))
      (snooze sample_lib (λ _. ""))
      (record { asked = 0; slept = 0 })
    ≡ (thrown "failed to get an address", record { asked = 21; slept = 212100 })
wait_for_address_fn-lost_example = wait_for_address_fn-lost sample_lib (λ _. "") never

-- A chain that deploys every contract at 0x9.
abbrev sample_chain : Chain ℕ
sample_chain = record {
  deploy = λ id w. (ok "0x9", suc w);
  wait_for_tx = λ tx w. (ok tt, w);
  sleep = λ ms w. (ok tt, w);
  verify_on_tenderly = λ id addr w. (ok tt, w);
  using_tenderly = false;
  get_address = λ ac role w. (ok "", w);
  set_address_as_proxy = λ ac role addr w. (ok tt, w);
  set_address_as_proxy_with_init = λ ac role addr init w. (ok tt, w);
  encode_initialize = λ addr. addr;
  stringify_args = λ args. "[]";
  role_name = λ role. "";
}

abbrev fresh_site : Site ℕ
fresh_site = record { db = []; chain = 0 }

abbrev deployed_site : Site ℕ
deployed_site = record {
  db =
      (
        "main",
        record empty_network {
          instances = ("0x9", record { id = "Impl"; verify = none }) ∷ [];
          named = ("Impl", record { address = "0x9"; count = 1 }) ∷ [];
        },
      )
      ∷ [];
  chain = 1;
}

first_run :
    with_save_and_verify_once sample_chain sample_lib "main" "Impl" false false fresh_site
    ≡ (ok "0x9", deployed_site)
unfolding with_save_and_verify_once with_save_and_verify add_contract_addr_to_json_db insert
    network_of lookup
first_run = refl

nine_valid : falsy_or_zero_address sample_lib (some "0x9") ≡ false
unfolding falsy_or_zero_address sample_lib starts_with
nine_valid = refl

with_save_and_verify_once_again_example :
    with_save_and_verify_once sample_chain sample_lib "main" "Impl" true true deployed_site
    ≡ (ok "0x9", deployed_site)
with_save_and_verify_once_again_example =
    with_save_and_verify_once_again sample_chain sample_lib "main" "Impl" false true fresh_site
      deployed_site "0x9" first_run nine_valid

abbrev verifiable_entry : DbInstanceEntry
verifiable_entry = record {
  id = "A";
  verify = some (record { args = some "[]"; impl = none; sub_type = none });
}

abbrev three_entries : Dict DbInstanceEntry
three_entries =
    ("0x1", verifiable_entry) ∷ ("0x2", verifiable_entry) ∷ ("0x3", verifiable_entry) ∷ []

select_entries-every_example :
    (select_entries 1 2 sample_lib [] three_entries three_entries).entries
    ≡ every 1 2 0 (verifiable (three_entries ++ three_entries))
select_entries-every_example = select_entries-every 1 2 sample_lib three_entries three_entries

abbrev sample_verifier : Verifier ℕ
sample_verifier = record {
  verify_contract_stringified = λ addr args w. (ok (true, ""), suc w);
  verify_proxy = λ addr impl w. (ok (true, ""), w);
}

abbrev marked_site : Site ℕ
marked_site = record {
  db =
      (
        "main",
        record empty_network { verified = ("0x1", true) ∷ ("0x2", true) ∷ ("0x3", true) ∷ [] },
      )
      ∷ [];
  chain = 3;
}

all_verified :
    verify_entries sample_verifier "main" false full three_entries false fresh_site
    ≡ (ok [], marked_site)
unfolding verify_entries get_verified_from_json_db lookup network_of set_verified_to_json_db insert
all_verified = refl

verify_entries-IsMarked_example :
    (Path (List String) [] []
      → All (λ e. IsMarked sample_verifier "main" false full e.0 marked_site) three_entries)
    × ((a : String)
        → IsMarked sample_verifier "main" false full a fresh_site
        → IsMarked sample_verifier "main" false full a marked_site)
verify_entries-IsMarked_example =
    verify_entries-IsMarked sample_verifier "main" false full three_entries false fresh_site
      marked_site [] all_verified
