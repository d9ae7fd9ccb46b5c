-- ===== src/Control/Database.antt =====
-- The table `domains` of migrations/ and the statements of dns-server/src/db.rs and
-- daemon/src that read and write it.
pub mod Steps
pub mod Insert
use prototype_net.Base.{
  ℕ, ◌+◌, ◌^◌, ◌==◌, ltb, ◌||◌, Bool, true, false, if◌then◌else◌, List, [], ◌∷◌, ◌++◌, map, Option,
  none, some, eq_bytes,
}
use prototype_net.Word.{u32}
use prototype_net.Control.Run.{Run}
use prototype_net.Control.Text.{Text, Addr, Texts}

-- A row of `domains`, less the columns that no statement reads. An INTEGER is its bit pattern.
pub record Row : Type 0 where
  pub domain_id : ℕ
  pub domain : Text
  pub origin_ipv6 : Addr
  pub synthetic_ipv6 : Addr
  pub ttl_seconds : Option ℕ

-- The table, `domain_id_seq`, and the payloads sent on the channel `domain_changes`.
pub record Db : Type 0 where
  pub rows : List Row
  pub sequence : ℕ
  pub notified : List Text

pub record DomainRow : Type 0 where
  pub domain_id : ℕ
  pub domain : Text
  pub origin_ipv6 : Text
  pub synthetic_ipv6 : Text
  pub ttl_seconds : Option ℕ

-- The trait `DbOps`, on whatever holds the state.
pub record DbOps (S : Type 0) : Type 0 where
  pub find_by_domain : Text → Run S (Option DomainRow)
  pub insert_domain : ℕ → Text → Text → Text → ℕ → Run S (ℕ × Text)
  pub next_domain_id : Run S ℕ

-- The first row with a domain, or with an id.
unfoldable pub row_of_domain : Text → List Row → Option Row
row_of_domain domain [] = none
row_of_domain domain (r ∷ rows) =
    if eq_bytes r.domain domain then some r else row_of_domain domain rows

unfoldable pub row_of_id : ℕ → List Row → Option Row
row_of_id id [] = none
row_of_id id (r ∷ rows) = if r.domain_id == id then some r else row_of_id id rows

unfoldable pub id_in_use : ℕ → List Row → Bool
id_in_use id [] = false
id_in_use id (r ∷ rows) = (r.domain_id == id) || id_in_use id rows

-- `ON CONFLICT (domain) DO UPDATE SET`, on the one row that conflicts.
abbrev pub refresh : Addr → ℕ → Row → Row
refresh origin ttl r = record r { origin_ipv6 = origin; ttl_seconds = some ttl }

unfoldable pub refresh_domain : Text → Addr → ℕ → List Row → List Row
refresh_domain domain origin ttl [] = []
refresh_domain domain origin ttl (r ∷ rows) =
    if eq_bytes r.domain domain
    then refresh origin ttl r ∷ rows
    else r ∷ refresh_domain domain origin ttl rows

-- The rows with an id get a new origin: `UPDATE domains SET origin_ipv6 = $1 WHERE domain_id = $2`.
unfoldable pub set_origin : ℕ → Addr → List Row → List Row
set_origin id origin [] = []
set_origin id origin (r ∷ rows) =
    (if r.domain_id == id then record r { origin_ipv6 = origin } else r) ∷ set_origin id origin rows

module _ (x : Texts) where
  abbrev pub to_domain_row : Row → DomainRow
  to_domain_row r = record {
    domain_id = r.domain_id;
    domain = r.domain;
    origin_ipv6 = x.host r.origin_ipv6;
    synthetic_ipv6 = x.host r.synthetic_ipv6;
    ttl_seconds = r.ttl_seconds;
  }

  abbrev pub to_domain_row? : Option Row → Option DomainRow
  to_domain_row? none = none
  to_domain_row? (some r) = some (to_domain_row r)

  -- Rows that were written, with the trigger `domain_change_trigger` fired for `id`.
  abbrev pub write_rows : List Row → ℕ → Db → Db
  write_rows rows id db = record db { rows = rows; notified = db.notified ++ (x.int_text id ∷ []) }

  unfoldable pub find_by_domain : Text → Run Db (Option DomainRow)
  unfolding row_of_domain
  find_by_domain domain db = (some (to_domain_row? (row_of_domain domain db.rows)), db)

  -- A new row, unless its id is taken.
  unfoldable pub append_row : Row → Run Db (ℕ × Text)
  unfolding id_in_use
  append_row r db = if id_in_use r.domain_id db.rows then (none, db) else (
    some (r.domain_id, x.host r.synthetic_ipv6),
    write_rows (db.rows ++ (r ∷ [])) r.domain_id db,
  )

  unfoldable pub upsert : Row → ℕ → Option Row → Run Db (ℕ × Text)
  unfolding append_row refresh_domain
  upsert r ttl none db = append_row r db
  upsert r ttl (some old) db = (
    some (old.domain_id, x.host old.synthetic_ipv6),
    write_rows (refresh_domain r.domain r.origin_ipv6 ttl db.rows) old.domain_id db,
  )

  -- The statement, after the casts of the addresses.
  unfoldable pub insert_inet : ℕ → Text → ℕ → Option Addr → Option Addr → Run Db (ℕ × Text)
  unfolding upsert row_of_domain
  insert_inet id domain ttl none synthetic db = (none, db)
  insert_inet id domain ttl (some o) none db = (none, db)
  insert_inet id domain ttl (some o) (some a) db =
      let r : Row = record {
        domain_id = id;
        domain = domain;
        origin_ipv6 = o;
        synthetic_ipv6 = a;
        ttl_seconds = some ttl;
      } in
      upsert r ttl (row_of_domain domain db.rows) db

  unfoldable pub insert_domain : ℕ → Text → Text → Text → ℕ → Run Db (ℕ × Text)
  unfolding insert_inet
  insert_domain id domain origin synthetic ttl db =
      insert_inet id domain ttl (x.cast origin) (x.cast synthetic) db

  -- `nextval`, cast from i64 to i32; a sequence ends at 2 ^ 63 - 1.
  unfoldable pub next_domain_id : Run Db ℕ
  next_domain_id db =
      if ltb db.sequence (2 ^ 63)
      then (some (u32 db.sequence), record db { sequence = db.sequence + 1 })
      else (none, db)

  -- The UPDATE of daemon/src/resolver.rs; the trigger fires when there is a row.
  unfoldable pub update_inet : ℕ → Option Addr → Run Db (Unit {0})
  unfolding set_origin id_in_use
  update_inet id none db = (none, db)
  update_inet id (some o) db =
      if id_in_use id db.rows
      then (some tt, write_rows (set_origin id o db.rows) id db)
      else (some tt, db)

  unfoldable pub update_origin : ℕ → Text → Run Db (Unit {0})
  unfolding update_inet
  update_origin id origin db = update_inet id (x.cast origin) db

  -- The implementation of the trait for `PgPool`.
  unfoldable pub pg_pool : DbOps Db
  unfolding find_by_domain insert_domain next_domain_id
  pg_pool = record {
    find_by_domain = find_by_domain;
    insert_domain = insert_domain;
    next_domain_id = next_domain_id;
  }
