-- ===== src/Control/Daemon/NatMap.antt =====
-- NAT_MAP as the daemon fills it: daemon/src/maps.rs, the loop of `run_listener` in
-- daemon/src/db.rs, and `resolve_all` of daemon/src/resolver.rs.
use prototype_net.Base.{
  ℕ, ◌+◌, ◌≡◌, ◌≢◌, not, Bool, true, false, if◌then◌else◌, List, [], ◌∷◌, length, Option, none,
  some, eq_bytes,
}
use prototype_net.Common.Types.{NatEntry}
use prototype_net.Control.Run.{Run, done, lift, proceed, ◌>>=◌}
use prototype_net.Control.Text.{Text, Addr, Texts}
use prototype_net.Control.Database.{Row, Db, row_of_id, update_origin}
use prototype_net.Control.Dns.{Lookup, resolved, failed}
pub mod Sync
pub mod Delivered
pub mod Follow
pub mod Bulk
pub mod Resolve
pub mod Rewritten
pub mod Race

-- The contents of NAT_MAP.
abbrev pub NatMap : Type 0
NatMap = ℕ → Option NatEntry

-- `HashMap::insert` and `HashMap::remove` of the crate `aya`; an insertion may fail.
pub record BpfHash : Type 0 where
  pub insert : NatMap → ℕ → NatEntry → Option NatMap
  pub remove : NatMap → ℕ → NatMap

-- A map with room: an insertion sets one key.
pub record HasRoom (b : BpfHash) : Type 0 where
  pub insert_in :
      (m : NatMap) (k : ℕ) (e : NatEntry)
      → (m' : NatMap) × (b.insert m k e ≡ some m')
        × (m' k ≡ some e)
        × ((j : ℕ) → j ≢ k → m' j ≡ m j)

module _ (b : BpfHash) where
  abbrev pub entry : Addr → NatEntry
  entry origin = record { origin_ipv6 = origin }

  abbrev pub put : Option NatMap → Run NatMap (Unit {0})
  put none m = (none, m)
  put (some m') m = (some tt, m')

  unfoldable pub insert_nat_entry : ℕ → Addr → Run NatMap (Unit {0})
  insert_nat_entry domain_id origin m = put (b.insert m domain_id (entry origin)) m

  -- The result of the removal is dropped.
  unfoldable pub remove_nat_entry : ℕ → Run NatMap (Unit {0})
  remove_nat_entry domain_id m = (some tt, b.remove m domain_id)

  module _ (x : Texts) where
    -- The loop of `bulk_load_from_db` over the rows that were fetched.
    unfoldable pub load_rows : List Row → Run NatMap (Unit {0})
    unfolding insert_nat_entry
    load_rows [] = done tt
    load_rows (r ∷ rows) = do
      origin ← lift (x.parse (x.host r.origin_ipv6))
      inserted ← insert_nat_entry r.domain_id origin
      load_rows rows

    unfoldable pub bulk_load_from_db : Db → Run NatMap ℕ
    unfolding load_rows
    bulk_load_from_db db = do loaded ← load_rows db.rows; done (length db.rows)

    -- A failed insertion is logged.
    abbrev pub logged : Option (Unit {0}) × NatMap → Option (Unit {0}) × NatMap
    logged o = (some tt, o.1)

    unfoldable pub update_from_row : ℕ → Option Row → Run NatMap (Unit {0})
    unfolding insert_nat_entry
    update_from_row domain_id none = done tt
    update_from_row domain_id (some r) = do
      origin ← lift (x.parse (x.host r.origin_ipv6))
      λ m. logged (insert_nat_entry domain_id origin m)

    -- One notification in `run_listener`. An error ends the loop. The row is read and its entry
    -- inserted in one step; the code awaits the database between the two.
    unfoldable pub on_notification : Db → Text → Run NatMap (Unit {0})
    unfolding update_from_row row_of_id
    on_notification db payload = do
      domain_id ← lift (x.parse_i32 payload)
      update_from_row domain_id (row_of_id domain_id db.rows)

    -- `resolve_all` on a row, with the first address that upstream gives for it.
    unfoldable pub write_origin : Row → Addr → Run (Db × NatMap) (Unit {0})
    unfolding insert_nat_entry update_origin
    write_origin r new_ip s =
        if eq_bytes (x.print new_ip) (x.host r.origin_ipv6)
        then (some tt, s)
        else let u = update_origin x r.domain_id (x.print new_ip) s.0 in
          elim u.0 [
            | none ↦ (none, (u.1, s.1))
            | some done ↦ let n = insert_nat_entry r.domain_id new_ip s.1 in (n.0, (u.1, n.1))
          ]

    unfoldable pub resolve_row : Row → Lookup → Run (Db × NatMap) (Unit {0})
    unfolding write_origin
    resolve_row r (resolved []) = done tt
    resolve_row r (resolved (new_ip ∷ ips)) = write_origin r new_ip
    resolve_row r (failed no_records) = done tt

    unfoldable pub resolve_rows : (Text → Lookup) → List Row → Run (Db × NatMap) (Unit {0})
    unfolding resolve_row
    resolve_rows ipv6_lookup [] = done tt
    resolve_rows ipv6_lookup (r ∷ rows) = do
      row_done ← resolve_row r (ipv6_lookup r.domain)
      resolve_rows ipv6_lookup rows

    unfoldable pub resolve_all : (Text → Lookup) → Run (Db × NatMap) (Unit {0})
    unfolding resolve_rows
    resolve_all ipv6_lookup s = resolve_rows ipv6_lookup s.0.rows s
