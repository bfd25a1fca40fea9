-- ===== src/Verification/VerifyAll.antt =====
-- The task `verify:verify-all-contracts` of tasks/misc/verify-all.ts: it picks one of several
-- batches of the recorded contracts and verifies each contract that has no mark yet.
pub mod Batches
pub mod Marks
use augmented_finance_protoc.Prelude.{
  ℕ, suc, ◌+◌, ◌%◌, String, Bool, true, false, not, ◌&&◌, ◌||◌, List, [], ◌∷◌, ◌++◌, Option, none,
  some, ◌==◌, eqb, leb, if◌then◌else◌, is_some, Dict, lookup, insert, erase, to_lower_case,
  to_upper_case, Act, pure, throw, ◌>>=◌, ◌>>◌, ok, ◌<>◌,
}
use augmented_finance_protoc.Helpers.Addresses.{AddressLib, falsy_or_zero_address}
use augmented_finance_protoc.JsonDb.{
  DbInstanceEntry, VerifyInfo, get_instances_from_json_db, get_externals_from_json_db,
  get_verified_from_json_db, set_verified_to_json_db,
}
use augmented_finance_protoc.Deployment.{Site, lift, modify_db}

pub data ProxyMode : Type 0 where
  auto full min : ProxyMode

unfoldable pub proxy_mode : String → ProxyMode
proxy_mode proxy =
    let mode = to_lower_case proxy in
    if mode == "auto" then auto else (if mode == "full" then full else min)

-- `filterProxy`, with the variable `hasFirst` before and after.
unfoldable pub filter_proxy : ProxyMode → Bool → Bool × Bool
filter_proxy auto has_first = (not has_first, true)
filter_proxy full has_first = (true, has_first)
filter_proxy min has_first = (false, has_first)

-- A contract that is no proxy is verified in full.
unfoldable pub turn_of : ProxyMode → Option String → Bool → Bool × Bool
unfolding filter_proxy
turn_of mode none has_first = (true, has_first)
turn_of mode (some impl) has_first = filter_proxy mode has_first

-- What `addEntry` changes.
pub record Selection : Type 0 where
  pub filter_set : Dict String
  pub batch_index : ℕ
  pub entries : Dict DbInstanceEntry

-- `filter`, by its texts in upper case.
unfoldable pub filter_map : List String → Dict String → Dict String
filter_map [] d = d
filter_map (value ∷ rest) d = filter_map rest (insert (to_upper_case value) value d)

-- The filter set after a look-up of the address and of the id, and whether one was found.
unfoldable pub find_in_filter : String → String → Dict String → Bool × Dict String
find_in_filter addr id d =
    if is_some (lookup (to_upper_case addr) d)
    then (true, erase (to_upper_case addr) d)
    else (if is_some (lookup (to_upper_case id) d)
        then (true, if id == addr then erase (to_upper_case id) d else d)
        else (false, d))

module _ (n of : ℕ) where
  take_turn : String → DbInstanceEntry → Selection → Selection
  take_turn addr entry s = record s {
    batch_index = s.batch_index + 1;
    entries = if eqb (s.batch_index % of) n then s.entries ++ (addr, entry) ∷ [] else s.entries;
  }

  unfoldable pub add_entry : (has_filter : Bool) → String → DbInstanceEntry → Selection → Selection
  unfolding take_turn find_in_filter
  add_entry has_filter addr entry s =
      if not (is_some entry.verify)
      then s
      else (if has_filter
          then (let (found, set) = find_in_filter addr entry.id s.filter_set in
              if found then take_turn addr entry (record s { filter_set = set }) else s)
          else take_turn addr entry s)

  unfoldable pub add_entries : Bool → Dict DbInstanceEntry → Selection → Selection
  unfolding add_entry
  add_entries has_filter [] s = s
  add_entries has_filter ((addr, entry) ∷ rest) s =
      add_entries has_filter rest (add_entry has_filter addr entry s)

  -- The addresses of the filter that no record answered to; the loop sees the set as it changes, and a
  -- step takes away its own key at most.
  pub add_rest : AddressLib → Bool → Dict String → Selection → Selection
  add_rest lib has_filter [] s = s
  add_rest lib has_filter ((key, value) ∷ rest) s = add_rest lib has_filter rest (
      if falsy_or_zero_address lib (some value)
      then s
      else add_entry has_filter value
          (record {
            id = "ID_" <> key;
            verify = some (record { args = some "[]"; impl = none; sub_type = none });
          })
          s)

  unfoldable pub select_entries :
      AddressLib → List String → Dict DbInstanceEntry → Dict DbInstanceEntry → Selection
  unfolding add_entries add_rest filter_map
  select_entries lib filter instances externals =
      let set = filter_map filter [] in
      let has_filter : Bool = elim set [ [] ↦ false | _ ↦ true ] in
      let s = add_entries has_filter externals (
        add_entries has_filter instances
          (record { filter_set = set; batch_index = 0; entries = [] })) in
      add_rest lib has_filter s.filter_set s

pub record Verifier (W : Type 0) : Type 0 where
  pub verify_contract_stringified : String → Option String → Act W (Bool × String)
  pub verify_proxy : String → String → Act W (Bool × String)

-- `if (params.impl)`
abbrev pub impl_of : DbInstanceEntry → Option String
impl_of e = elim e.verify [
  | none ↦ none
  | some v ↦ elim v.impl [ none ↦ none | some impl ↦ if impl == "" then none else some impl ]
]

abbrev pub args_of : DbInstanceEntry → Option String
args_of e = elim e.verify [ none ↦ none | some v ↦ v.args ]

abbrev pub truthy : Option Bool → Bool
truthy none = false
truthy (some b) = b

module _ {W : Type 0} (verifier : Verifier W) (network : String) (force : Bool)
    (mode : ProxyMode) where
  -- The two verifications of a contract: its source, and the link of a proxy to its implementation.
  pub verify_entry : String → DbInstanceEntry → Bool → Act (Site W) (Bool × String)
  verify_entry addr entry full_verify = do
    first ←
        (if full_verify
          then lift (verifier.verify_contract_stringified addr (args_of entry))
          else pure (true, ""))
    elim (impl_of entry) [
      | none ↦ pure first
      | some impl ↦ if first.0 then lift (verifier.verify_proxy addr impl) else pure first
    ]

  -- A success is marked, a failure goes to the summary.
  pub record_result : String → DbInstanceEntry → Bool × String → Act (Site W) (List String)
  record_result addr entry (true, err) = do
    modify_db (set_verified_to_json_db network addr true)
    pure []
  record_result addr entry (false, err) = pure ((addr <> " " <> entry.id <> ": " <> err) ∷ [])

  pub verify_one : String → DbInstanceEntry → Bool → Act (Site W) (List String)
  verify_one addr entry full_verify s =
      (if not force && truthy (get_verified_from_json_db network addr s.db)
          then pure []
          else (do result ← verify_entry addr entry full_verify; record_result addr entry result))
        s

  unfoldable pub verify_entries : Dict DbInstanceEntry → Bool → Act (Site W) (List String)
  unfolding verify_one verify_entry record_result turn_of
  verify_entries [] has_first = pure []
  verify_entries ((addr, entry) ∷ rest) has_first = do
    let (full_verify, has_first') = turn_of mode (impl_of entry) has_first
    issue ← verify_one addr entry full_verify
    issues ← verify_entries rest has_first'
    pure (issue ++ issues)

-- The whole task. Its result is the summary.
unfoldable pub verify_all_contracts :
    {W : Type 0}
    → Verifier W
    → AddressLib
    → String
    → (n of : ℕ) → List String
    → String
    → Bool
    → Act (Site W) (List String)
unfolding verify_entries select_entries proxy_mode
verify_all_contracts verifier lib network n of filter proxy force s =
    (if leb of n
        then throw "invalid batch parameters"
        else verify_entries verifier network force (proxy_mode proxy)
            (select_entries n of lib filter (get_instances_from_json_db network s.db)
              (get_externals_from_json_db network s.db)).entries
            false)
      s
