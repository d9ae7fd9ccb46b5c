-- ===== src/Control/Daemon/NatMap/Bulk.antt =====
-- What `bulk_load_from_db` of daemon/src/maps.rs leaves in NAT_MAP.
use prototype_net.Base.{
  ℕ, Option, arith, ◌≡◌, ◌≢◌, refl, sym, ap, ◌∙◌, ◌⊎◌, inl, inr, ◌==◌, ==_iff, Bool-cases, List, [],
  ◌∷◌, length, none, some,
}
use prototype_net.Control.Text.{Texts, IsTexts}
use prototype_net.Control.Database.{Row, Db, row_of_id}
use prototype_net.Common.Types.{NatEntry}
use prototype_net.Control.Daemon.NatMap.{
  NatMap, BpfHash, HasRoom, entry, insert_nat_entry, load_rows, bulk_load_from_db,
}

-- The rows have distinct ids, as the table demands, and IPv6 origins.
unfoldable pub Loadable : List Row → Type 0
Loadable [] = Unit
Loadable (r ∷ rows) =
    (length r.origin_ipv6 ≡ 16) × (row_of_id r.domain_id rows ≡ none) × Loadable rows

pub row_missing :
    (id : ℕ) (r : Row) (rows : List Row)
    → row_of_id id (r ∷ rows) ≡ none
    → (id ≢ r.domain_id) × (row_of_id id rows ≡ none)
unfolding row_of_id
row_missing id r rows h = (λ e. ground arith, ground arith)

pub row_found :
    (id : ℕ) (r r' : Row) (rows : List Row)
    → row_of_id id (r ∷ rows) ≡ some r'
    → ((r.domain_id ≡ id) × (r ≡ r')) ⊎ (row_of_id id rows ≡ some r')
unfolding row_of_id
row_found id r r' rows h = elim (Bool-cases (r.domain_id == id)) [
  | inl same ↦ inl ((==_iff r.domain_id id).0 same, ground arith)
  | inr other ↦ inr (ground arith)
]

-- What an entry becomes, given the row of its id.
abbrev pub loaded_entry : Option NatEntry → Option Row → Option NatEntry
loaded_entry before none = before
loaded_entry before (some r) = some (record { origin_ipv6 = r.origin_ipv6 })

module _ (b : BpfHash) (room : HasRoom b) (x : Texts) (w : IsTexts x) where
  -- The map after the rows: rows with an id are there, other entries are as before.
  load_rows_lem :
      (rows : List Row) (m : NatMap)
      → Loadable rows
      → (m' : NatMap) × (load_rows b x rows m ≡ (some tt, m'))
        × ((id : ℕ) → row_of_id id rows ≡ none → m' id ≡ m id)
        × ((id : ℕ) (r : Row) → row_of_id id rows ≡ some r → m' id ≡ some (entry b r.origin_ipv6))
  unfolding load_rows insert_nat_entry Loadable row_of_id
  load_rows_lem [] m h = (m, refl, λ id e. refl, λ id r e. absurd (cc))
  load_rows_lem (r ∷ rows) m h =
      let i = room.insert_in m r.domain_id (entry b r.origin_ipv6) in
      let ih = load_rows_lem rows i.0 h.2 in
      (
        ih.0,
        rw (w.parse-host r.origin_ipv6 h.0, i.1, ih.1) refl,
        λ id e. let missing = row_missing id r rows e in ih.2 id missing.1 ∙ i.3 id missing.0,
        λ id r' e. elim (row_found id r r' rows e) [
          | inl (same, first) ↦
              ap ih.0 (sym same)
              ∙ ih.2 r.domain_id h.1
              ∙ i.2
              ∙ ap (λ (y : Row). some (entry b y.origin_ipv6)) first
          | inr later ↦ ih.3 id r' later
        ],
      )

  -- A bulk load of rows with distinct ids and IPv6 origins, into a map with room, counts the rows
  -- and leaves the origin of each row under its id; entries of other ids stay as they were.
  pub bulk_load-loaded_entry :
      (db : Db) (m : NatMap)
      → Loadable db.rows
      → (m' : NatMap) × (bulk_load_from_db b x db m ≡ (some (length db.rows), m'))
        × ((id : ℕ) → m' id ≡ loaded_entry (m id) (row_of_id id db.rows))
  unfolding bulk_load_from_db
  bulk_load-loaded_entry db m h =
      let l = load_rows_lem db.rows m h in
      (l.0, rw (l.1) refl, λ id. by_row l.0 id (row_of_id id db.rows) (l.2 id) (l.3 id))
    where
      by_row :
          (m' : NatMap) (id : ℕ) (row : Option Row)
          → (row ≡ none → m' id ≡ m id)
          → ((r : Row) → row ≡ some r → m' id ≡ some (entry b r.origin_ipv6))
          → m' id ≡ loaded_entry (m id) row
      by_row m' id none old new = old refl
      by_row m' id (some r) old new = new r refl
