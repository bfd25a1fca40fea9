-- ===== src/JsonDb/Refined.antt =====
-- The database as what it promises: for each network, which entry stands under which key. The writers
-- of helpers/misc-utils.ts implement the writes of this specification.
use augmented_finance_protoc.Prelude.{
  ◌+◌, String, ◌≡◌, refl, ap, ◌∙◌, Bool, Bool-cases, inl, inr, true, false, List, [], ◌∷◌, Option,
  none, some, ◌==◌, eq_iff, if◌then◌else◌, Dict, lookup, insert, lookup-insert, arith,
}
use augmented_finance_protoc.JsonDb.{
  Db, NetworkDb, DbNamedEntry, DbInstanceEntry, empty_network, network_of, count_of, instance_entry,
  update_network, register_named, add_instance, cleanup_json_db, add_contract_addr_to_json_db,
  add_proxy_to_json_db, add_external_to_json_db, add_named_to_json_db, set_verified_to_json_db,
}
use augmented_finance_protoc.JsonDb.Registry.{network_of-update}

-- A write, with the arguments of its writer.
pub data DbWrite : Type 0 where
  cleanup : DbWrite
  add_contract : (id addr : String) (register : Bool) (args : Option String) → DbWrite
  add_proxy : (id proxy impl sub_type : String) (args : Option String) → DbWrite
  add_external : (id addr : String) (args : Option String) → DbWrite
  add_named : (id addr : String) → DbWrite
  set_verified : (addr : String) (verified : Bool) → DbWrite

unfoldable pub write : String → DbWrite → Db → Db
write network cleanup = cleanup_json_db network
write network (add_contract id addr register args) =
    add_contract_addr_to_json_db network id addr register args
write network (add_proxy id proxy impl sub_type args) =
    add_proxy_to_json_db network id proxy impl sub_type args
write network (add_external id addr args) = add_external_to_json_db network id addr args
write network (add_named id addr) = add_named_to_json_db network id addr
write network (set_verified addr verified) = set_verified_to_json_db network addr verified

unfoldable pub write_all : List (String × DbWrite) → Db → Db
write_all [] db = db
write_all ((network, w) ∷ ws) db = write_all ws (write network w db)

-- The specification of a network: four partial functions.
pub record Entries : Type 0 where
  pub named : String → Option DbNamedEntry
  pub instances : String → Option DbInstanceEntry
  pub externals : String → Option DbInstanceEntry
  pub verified : String → Option Bool

abbrev put {ℓ} : {V : Type ℓ} → String → V → (String → Option V) → String → Option V
put k v f j = if k == j then some v else f j

abbrev external_entry : String → Option String → Option String → Option String → DbInstanceEntry
external_entry id args impl sub_type = record {
  id = id;
  verify = some (record { args = args; impl = impl; sub_type = sub_type });
}

abbrev add_name : String → String → Entries → Entries
add_name id addr e = record e {
  named = put id (record { address = addr; count = count_of (e.named id) + 1 }) e.named;
}

-- What a write means.
unfoldable pub meaning : DbWrite → Entries → Entries
meaning cleanup e = record {
  named = λ k. none;
  instances = λ k. none;
  externals = λ k. none;
  verified = λ k. none;
}
meaning (add_contract id addr register args) e =
    let e' : Entries = record e { instances = put addr (instance_entry id args) e.instances } in
    if register then add_name id addr e' else e'
meaning (add_proxy id proxy impl sub_type args) e = record e {
  externals = put proxy (external_entry id args (some impl) (some sub_type)) e.externals;
}
meaning (add_external id addr args) e = record e {
  externals = put addr (external_entry id args none none) e.externals;
}
meaning (add_named id addr) e = add_name id addr e
meaning (set_verified addr verified) e = record e { verified = put addr verified e.verified }

unfoldable pub meaning_all : List (String × DbWrite) → (String → Entries) → String → Entries
meaning_all [] s = s
meaning_all ((network, w) ∷ ws) s =
    meaning_all ws (λ other. if network == other then meaning w (s network) else s other)

abbrev pub entries_of : NetworkDb → Entries
entries_of n = record {
  named = λ k. lookup k n.named;
  instances = λ k. lookup k n.instances;
  externals = λ k. lookup k n.externals;
  verified = λ k. lookup k n.verified;
}

-- What the database means.
abbrev pub view : Db → String → Entries
view db network = entries_of (network_of network db)

put-lookup {ℓ} :
    {V : Type ℓ} (k : String) (v : V) (d : Dict V)
    → (λ j. lookup j (insert k v d)) ≡ put k v (λ j. lookup j d)
put-lookup k v d = λ i j. lookup-insert k j v d i

view-update_at :
    (network : String) (f : NetworkDb → NetworkDb) (g : Entries → Entries) (db : Db)
    (other : String)
    → ((n : NetworkDb) → entries_of (f n) ≡ g (entries_of n))
    → view (update_network network f db) other
      ≡ (if network == other then g (view db network) else view db other)
view-update_at network f g db other h =
    ap entries_of (network_of-update network f db other) ∙ elim (Bool-cases (network == other)) [
      | inl e ↦ rw e (h (network_of network db))
      | inr e ↦ rw e
    ]

-- One network is updated.
view-update :
    (network : String) (f : NetworkDb → NetworkDb) (g : Entries → Entries) (db : Db)
    → ((n : NetworkDb) → entries_of (f n) ≡ g (entries_of n))
    → view (update_network network f db)
      ≡ (λ other. if network == other then g (view db network) else view db other)
view-update network f g db h = λ i other. view-update_at network f g db other h i

with_named :
    (network id addr : String) (n : NetworkDb)
    → entries_of (register_named network id addr n) ≡ add_name id addr (entries_of n)
unfolding register_named
with_named network id addr n =
    let v : DbNamedEntry = record { address = addr; count = count_of (lookup id n.named) + 1 } in
    λ i. record {
      named = put-lookup id v n.named i;
      instances = λ k. lookup k n.instances;
      externals = λ k. lookup k n.externals;
      verified = λ k. lookup k n.verified;
    }

with_instance :
    (network id addr : String) (args : Option String) (n : NetworkDb)
    → entries_of (add_instance network id addr args n) ≡ record (entries_of n) {
      instances = put addr (instance_entry id args) (entries_of n).instances;
    }
unfolding add_instance
with_instance network id addr args n = λ i. record {
  named = λ k. lookup k n.named;
  instances = put-lookup addr (instance_entry id args) n.instances i;
  externals = λ k. lookup k n.externals;
  verified = λ k. lookup k n.verified;
}

with_external :
    (addr : String) (v : DbInstanceEntry) (n : NetworkDb)
    → entries_of (record n { externals = insert addr v n.externals })
      ≡ record (entries_of n) { externals = put addr v (entries_of n).externals }
with_external addr v n = λ i. record {
  named = λ k. lookup k n.named;
  instances = λ k. lookup k n.instances;
  externals = put-lookup addr v n.externals i;
  verified = λ k. lookup k n.verified;
}

with_verified :
    (addr : String) (v : Bool) (n : NetworkDb)
    → entries_of (record n { verified = insert addr v n.verified })
      ≡ record (entries_of n) { verified = put addr v (entries_of n).verified }
with_verified addr v n = λ i. record {
  named = λ k. lookup k n.named;
  instances = λ k. lookup k n.instances;
  externals = λ k. lookup k n.externals;
  verified = put-lookup addr v n.verified i;
}

abbrev step : String → (Entries → Entries) → (String → Entries) → String → Entries
step network g s other = if network == other then g (s network) else s other

step_twice :
    (network : String) (g g' : Entries → Entries) (s : String → Entries)
    → step network g' (step network g s) ≡ step network (λ e. g' (g e)) s
step_twice network g g' s = λ i other. step_twice_at other i
  where
    step_twice_at :
        (other : String)
        → step network g' (step network g s) other ≡ step network (λ e. g' (g e)) s other
    step_twice_at other = ground (arith, eq_iff network network)

cleaned :
    (network : String) (n : NetworkDb) → entries_of empty_network ≡ meaning cleanup (entries_of n)
unfolding lookup meaning
cleaned network n = refl

write_contract :
    (network id addr : String) (register : Bool) (args : Option String) (db : Db)
    → view (add_contract_addr_to_json_db network id addr register args db)
      ≡ step network (meaning (add_contract id addr register args)) (view db)
unfolding meaning add_contract_addr_to_json_db
write_contract network id addr true args db =
    let f = add_instance network id addr args in
    let g : Entries → Entries = meaning (add_contract id addr false args) in
    view-update network (register_named network id addr) (add_name id addr)
      (update_network network f db) (with_named network id addr)
    ∙ ap (step network (add_name id addr))
        (view-update network f g db (with_instance network id addr args))
    ∙ step_twice network g (add_name id addr) (view db)
write_contract network id addr false args db =
    view-update network (add_instance network id addr args)
      (meaning (add_contract id addr false args)) db (with_instance network id addr args)

-- Each writer implements its write.
write-refines :
    (network : String) (w : DbWrite) (db : Db)
    → view (write network w db) ≡ step network (meaning w) (view db)
unfolding write meaning cleanup_json_db add_proxy_to_json_db add_external_to_json_db
    add_named_to_json_db set_verified_to_json_db
write-refines network cleanup db =
    view-update network (λ _. empty_network) (meaning cleanup) db (cleaned network)
write-refines network (add_contract id addr register args) db =
    write_contract network id addr register args db
write-refines network (add_proxy id proxy impl sub_type args) db =
    view-update network _ (meaning (add_proxy id proxy impl sub_type args)) db
      (with_external proxy _)
write-refines network (add_external id addr args) db =
    view-update network _ (meaning (add_external id addr args)) db (with_external addr _)
write-refines network (add_named id addr) db =
    view-update network (register_named network id addr) (add_name id addr) db
      (with_named network id addr)
write-refines network (set_verified addr verified) db =
    view-update network _ (meaning (set_verified addr verified)) db (with_verified addr verified)

-- The writers implement the specification: the entries that the database holds for each network and
-- key after any sequence of writes are those that the specification computes from the entries before.
pub write_all-refines :
    (ws : List (String × DbWrite)) (db : Db) → view (write_all ws db) ≡ meaning_all ws (view db)
unfolding write_all meaning_all
write_all-refines [] db = refl
write_all-refines ((network, w) ∷ ws) db =
    write_all-refines ws (write network w db) ∙ ap (meaning_all ws) (write-refines network w db)
