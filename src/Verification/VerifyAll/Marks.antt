-- ===== src/Verification/VerifyAll/Marks.antt =====
-- What a run leaves in the database.
use augmented_finance_protoc.Prelude.{
  String, ◌≡◌, refl, ◌∙◌, ap, Bool, true, false, not, ◌&&◌, List, [], ◌∷◌, ◌++◌, some, arith, ◌==◌,
  eq_iff, if◌then◌else◌, Dict, lookup, insert, lookup-insert, All, Result, ok, pure, ◌>>=◌,
  continue-eq_ok, Bool-cases, inl, inr,
}
use augmented_finance_protoc.JsonDb.{
  Db, DbInstanceEntry, network_of, get_verified_from_json_db, set_verified_to_json_db,
}
use augmented_finance_protoc.JsonDb.Registry.{network_of-update_self}
use augmented_finance_protoc.Deployment.{Site}
use augmented_finance_protoc.Verification.VerifyAll.{
  ProxyMode, Verifier, truthy, turn_of, impl_of, verify_entry, record_result, verify_one,
  verify_entries,
}

get_verified-set :
    (network addr other : String) (db : Db)
    → get_verified_from_json_db network other (set_verified_to_json_db network addr true db)
      ≡ (if addr == other then some true else get_verified_from_json_db network other db)
unfolding get_verified_from_json_db set_verified_to_json_db
get_verified-set network addr other db =
    ap (λ n. lookup other n.verified)
      (network_of-update_self network (λ x. record x { verified = insert addr true x.verified }) db)
    ∙ lookup-insert addr other true (network_of network db).verified

append-eq_nil : {A : Type 0} (xs ys : List A) → xs ++ ys ≡ [] → (xs ≡ []) × (ys ≡ [])
append-eq_nil [] ys h = (refl, h)
append-eq_nil (x ∷ xs) ys h = absurd (cc h)

module _ {W : Type 0} (verifier : Verifier W) (network : String) (force : Bool)
    (mode : ProxyMode) where
  abbrev pub IsMarked : String → Site W → Type 0
  IsMarked addr s = truthy (get_verified_from_json_db network addr s.db) ≡ true

  verify_entry-db :
      (addr : String) (entry : DbInstanceEntry) (full_verify : Bool) (s : Site W)
      → (verify_entry verifier network force mode addr entry full_verify s).1.db ≡ s.db
  unfolding verify_entry
  verify_entry-db addr entry full_verify s = ground arith

  -- A recorded success is marked, and no mark is lost.
  record_result-IsMarked :
      (addr a : String) (entry : DbInstanceEntry) (result : Bool × String) (s s' : Site W)
      (issue : List String)
      → record_result verifier network force mode addr entry result s ≡ (ok issue, s')
      → (issue ≡ [] → IsMarked addr s') × (IsMarked a s → IsMarked a s')
  unfolding record_result
  record_result-IsMarked addr a entry (true, err) s s' issue h = (
    λ _. ground (arith, get_verified-set network addr addr s.db, eq_iff addr addr),
    λ m. ground (arith, get_verified-set network addr a s.db),
  )
  record_result-IsMarked addr a entry (false, err) s s' issue h =
      (λ e. ground arith, λ m. ground arith)

  verify_one-IsMarked :
      (addr a : String) (entry : DbInstanceEntry) (full_verify : Bool) (s s' : Site W)
      (issue : List String)
      → verify_one verifier network force mode addr entry full_verify s ≡ (ok issue, s')
      → (issue ≡ [] → IsMarked addr s') × (IsMarked a s → IsMarked a s')
  unfolding verify_one
  verify_one-IsMarked addr a entry full_verify s s' issue h =
      elim (Bool-cases (not force && truthy (get_verified_from_json_db network addr s.db))) [
        | inl skip ↦ (λ _. ground arith, λ m. ground arith)
        | inr go ↦
            let (done, ran, rest) =
              continue-eq_ok (record_result verifier network force mode addr entry)
                (verify_entry verifier network force mode addr entry full_verify s) (rw go at h) in
            let kept = verify_entry-db addr entry full_verify s in
            let (marked, mono) = record_result-IsMarked addr a entry done.0 done.1 s' issue rest in
            (marked, λ m. mono (ground arith))
      ]

  -- If a run over a list of contracts returns with an empty summary, then every address of the list has the
  -- verified mark; and, whatever the summary, an address that was marked before is marked after.
  pub verify_entries-IsMarked :
      (entries : Dict DbInstanceEntry) (has_first : Bool) (s s' : Site W) (summary : List String)
      → verify_entries verifier network force mode entries has_first s ≡ (ok summary, s')
      → (summary ≡ [] → All (λ e. IsMarked e.0 s') entries)
        × ((a : String) → IsMarked a s → IsMarked a s')
  unfolding verify_entries
  verify_entries-IsMarked [] has_first s s' summary h = (λ _. tt, λ a m. ground arith)
  verify_entries-IsMarked ((addr, entry) ∷ rest) has_first s s' summary h =
      let turn = turn_of mode (impl_of entry) has_first in
      let (first, ran, more) =
        continue-eq_ok
          (λ issue. do
            issues ← verify_entries verifier network force mode rest turn.1
            pure (issue ++ issues))
          (verify_one verifier network force mode addr entry turn.0 s) h in
      let (second, ran', last) =
        continue-eq_ok {S = Site W} (λ issues. pure (first.0 ++ issues))
          (verify_entries verifier network force mode rest turn.1 first.1) more in
      let one = λ (a : String). verify_one-IsMarked addr a entry turn.0 s first.1 first.0 ran in
      let (all, mono) = verify_entries-IsMarked rest turn.1 first.1 second.1 second.0 ran' in
      let same : second.1 ≡ s' = ap (λ p. p.1) last in
      let sum : Path (Result (List String)) (ok (first.0 ++ second.0)) (ok summary) =
        ap (λ p. p.0) last in
      (
        λ e.
            let (f, g) = append-eq_nil first.0 second.0 (ground arith) in
            (rw same at (mono addr ((one addr).0 f)), rw same at (all g)),
        λ a m. rw same at (mono a ((one a).1 m)),
      )
