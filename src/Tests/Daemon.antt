-- ===== src/Tests/Daemon.antt =====
-- The theorems about daemon/src on concrete inputs.
use prototype_net.Base.{
  eq_bytes, eq_bytes→eq, ℕ, zero, suc, arith, ◌^◌, ◌≤◌, ◌<◌, ◌≡◌, refl, ap, sym, eq_bytes_self,
  ◌==◌, ==_self, min, List, [], ◌∷◌, ◌++◌, length, get_or, false, if◌then◌else◌, none, some,
  Bool-cases, inl, inr, ==_iff,
}
use prototype_net.Common.Types.{is_zero, is_zero_loop}
use prototype_net.Ebpf.Ingress.{active_key}
use prototype_net.Control.Database.{
  Db, Row, update_origin, update_inet, set_origin, id_in_use, row_of_id, row_of_domain, refresh,
}
use prototype_net.Control.Dns.Fresh.{new_row}
use prototype_net.Control.Daemon.Key.{hex_text, parse_proxy_key_hex}
use prototype_net.Control.Daemon.Key.Hex.{parse_proxy_key_hex-hex_text}
use prototype_net.Control.Daemon.Load.{write_maps, accepted_key_is_active}
use prototype_net.Control.Daemon.Backoff.{delays, initial_backoff, delays_in_range, delays_double}
use prototype_net.Control.Daemon.NatMap.{
  NatMap, BpfHash, HasRoom, entry, insert_nat_entry, on_notification, bulk_load_from_db,
  resolve_all,
}
use prototype_net.Control.Daemon.NatMap.Bulk.{Loadable, loaded_entry, bulk_load-loaded_entry}
use prototype_net.Control.Daemon.NatMap.Sync.{
  System, still, notification, resolver_updated, resolver_mapped,
}
use prototype_net.Control.Daemon.NatMap.Follow.{nat_map_follows_database}
use prototype_net.Control.Daemon.NatMap.Race.{raced, after_race, stale_entry}
use prototype_net.Control.Daemon.NatMap.Rewritten.{moved_row, moved_entry, resolve_all-moved_row}
use prototype_net.Control.Dns.{Lookup, resolved, failed}
use prototype_net.Control.Text.{Text}
use prototype_net.Tests.Fixtures.{test_key, test_maps, origin_addr, zeros, all_bytes→bound}
use prototype_net.Tests.Services.{test_texts, test_texts-IsTexts, first_db}

pub test_key_nonzero : is_zero test_key ≡ false
unfolding is_zero is_zero_loop
test_key_nonzero = refl

parse_proxy_key_hex-hex_text_example :
    parse_proxy_key_hex (hex_text (test_key.prince_key ++ test_key.siphash_key)) ≡ some test_key
parse_proxy_key_hex-hex_text_example =
    parse_proxy_key_hex-hex_text test_key
      (record { sized = refl; bytes = all_bytes→bound test_key.prince_key refl })
      (record { sized = refl; bytes = all_bytes→bound test_key.siphash_key refl }) test_key_nonzero

accepted_key_is_active_example :
    (active_key (write_maps false 3 [] test_key none test_maps) ≡ some test_key)
    × ((write_maps false 3 [] test_key none test_maps).xfrm_ifindex 0 ≡ some 3)
accepted_key_is_active_example =
    accepted_key_is_active false 3 [] (hex_text (test_key.prince_key ++ test_key.siphash_key))
      test_key none test_maps
      (parse_proxy_key_hex-hex_text test_key
        (record { sized = refl; bytes = all_bytes→bound test_key.prince_key refl })
        (record { sized = refl; bytes = all_bytes→bound test_key.siphash_key refl })
        test_key_nonzero)

abbrev short_runs : List ℕ
short_runs = 0 ∷ 4 ∷ 2 ∷ 0 ∷ 1 ∷ 3 ∷ []

short : (j : ℕ) → get_or short_runs j 0 < 5
short zero = omega arith
short (suc zero) = omega arith
short (suc (suc zero)) = omega arith
short (suc (suc (suc zero))) = omega arith
short (suc (suc (suc (suc zero)))) = omega arith
short (suc (suc (suc (suc (suc zero))))) = omega arith
short (suc (suc (suc (suc (suc (suc j)))))) = omega arith

delays_double_example : get_or (delays initial_backoff short_runs) 5 0 ≡ min (2 ^ 6) 30
delays_double_example = delays_double short_runs 5 short (omega arith)

delays_in_range_example :
    (1 ≤ get_or (delays initial_backoff short_runs) 5 0)
    × (get_or (delays initial_backoff short_runs) 5 0 ≤ 30)
delays_in_range_example = delays_in_range short_runs 5 (omega arith)

-- A map without a bound.
abbrev pub test_hash : BpfHash
test_hash = record {
  insert = λ m k e. some (λ j. if j == k then some e else m j);
  remove = λ m k j. if j == k then none else m j;
}

pub test_hash-HasRoom : HasRoom test_hash
test_hash-HasRoom = record {
  insert_in = λ m k e. (
    λ j. if j == k then some e else m j,
    refl,
    rw (==_self k) refl,
    λ j ne. elim (Bool-cases (j == k)) [
      | inl same ↦ absurd (ne ((==_iff j k).0 same))
      | inr other ↦ rw other refl
    ],
  );
}

abbrev pub empty_map : NatMap
empty_map id = none

pub first_db-Loadable : Loadable first_db.rows
unfolding Loadable row_of_id
first_db-Loadable = (refl, refl, tt)

bulk_load-loaded_entry_example :
    (m' : NatMap) × (bulk_load_from_db test_hash test_texts first_db empty_map
      ≡ (some (length first_db.rows), m'))
    × ((id : ℕ) → m' id ≡ loaded_entry (empty_map id) (row_of_id id first_db.rows))
bulk_load-loaded_entry_example =
    bulk_load-loaded_entry test_hash test_hash-HasRoom test_texts test_texts-IsTexts first_db
      empty_map first_db-Loadable

-- The resolver changes the origin after the bulk load, and the notifications are handled.
abbrev changed_db : Db
changed_db = (update_origin test_texts 1 (zeros 16) first_db).1

abbrev loaded_map : NatMap
loaded_map = (bulk_load_from_db test_hash test_texts first_db empty_map).1

abbrev mapped : NatMap
mapped = (insert_nat_entry test_hash 1 (zeros 16) loaded_map).1

abbrev first_handled : System
first_handled = record {
  db = record changed_db { notified = (1 ∷ []) ∷ [] };
  nat = (on_notification test_hash test_texts changed_db (1 ∷ []) mapped).1;
  pending = none;
}

abbrev all_handled : System
all_handled = record {
  db = record changed_db { notified = [] };
  nat = (on_notification test_hash test_texts first_handled.db (1 ∷ []) first_handled.nat).1;
  pending = none;
}

abbrev changed_row : Row
changed_row = record (new_row (97 ∷ []) 1 origin_addr) { origin_ipv6 = zeros 16 }

nat_map_follows_database_example :
    all_handled.nat 1 ≡ some (entry test_hash changed_row.origin_ipv6)
unfolding row_of_id update_origin update_inet set_origin id_in_use
nat_map_follows_database_example =
    nat_map_follows_database test_hash test_hash-HasRoom test_texts test_texts-IsTexts first_db
      empty_map all_handled 1 changed_row first_db-Loadable
      (resolver_updated 1 (zeros 16) refl refl (
        resolver_mapped 1 (zeros 16) refl
          (notification (1 ∷ []) ((1 ∷ []) ∷ []) refl (notification (1 ∷ []) [] refl still))))
      refl (omega arith) refl refl

-- Every name has moved to the address of zeros.
abbrev moved : Text → Lookup
moved name = resolved (zeros 16 ∷ [])

first_length : Lookup → ℕ
first_length (resolved []) = 0
first_length (resolved (ip ∷ ips)) = length ip
first_length (failed no_records) = 0

resolve_all-moved_row_example :
    (t : Db × NatMap) × (resolve_all test_hash test_texts moved (first_db, loaded_map)
      ≡ (some tt, t))
    × ((id : ℕ)
        → (row_of_id id t.0.rows ≡ moved_row test_texts moved (row_of_id id first_db.rows))
          × (t.1 id ≡ moved_entry test_texts moved (row_of_id id first_db.rows) (loaded_map id)))
unfolding first_length
resolve_all-moved_row_example =
    resolve_all-moved_row test_hash test_hash-HasRoom test_texts test_texts-IsTexts moved
      (first_db, loaded_map) (λ name new_ip ips e. ap first_length (sym e)) first_db-Loadable

-- The one row has moved, and so has its entry.
moved_row_example :
    moved_row test_texts moved (row_of_id 1 first_db.rows)
    ≡ some (record (new_row (97 ∷ []) 1 origin_addr) { origin_ipv6 = zeros 16 })
unfolding row_of_id
moved_row_example = elim (Bool-cases (eq_bytes (zeros 16) origin_addr)) [
  | inl same ↦
      absurd (omega (arith, ap (λ a. get_or a 0 0) (eq_bytes→eq (zeros 16) origin_addr same)))
  | inr other ↦ rw other refl
]

abbrev first_row : Row
first_row = new_row (97 ∷ []) 1 origin_addr

abbrev race_db : Db
race_db = raced test_texts first_db first_row (zeros 16) 2 origin_addr (zeros 16) 60

stale_entry_example :
    (row_of_id 1 race_db.rows ≡ some (refresh origin_addr 60 first_row))
    × (race_db.notified ≡ (first_db.notified ++ ((1 ∷ []) ∷ [])) ++ ((1 ∷ []) ∷ []))
    × ((on_notification test_hash test_texts race_db (1 ∷ []) loaded_map).1 1
        ≡ some (entry test_hash origin_addr))
    × (after_race test_texts test_hash race_db 1 (zeros 16) loaded_map 1
        ≡ some (entry test_hash (zeros 16)))
unfolding row_of_domain row_of_id
stale_entry_example =
    stale_entry test_texts test_hash test_hash-HasRoom test_texts-IsTexts first_db first_row
      (zeros 16) origin_addr (zeros 16) 2 60 loaded_map (rw (eq_bytes_self (97 ∷ [])) refl) refl
      (omega arith) refl refl refl
