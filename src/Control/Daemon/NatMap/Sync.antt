-- ===== src/Control/Daemon/NatMap/Sync.antt =====
-- NAT_MAP and the table `domains`: notifications of daemon/src/db.rs in any interleaving with the
-- statements on the database.
use mathlib.Core.Option.{some-injective}
use prototype_net.Base.{
  ℕ, arith, ◌^◌, ◌≡◌, refl, ap, sym, ◌∙◌, ◌⊎◌, inl, inr, ◌==◌, ltb, ==_iff, ◌||◌, Bool, Bool-cases,
  true, false, if◌then◌else◌, List, [], ◌∷◌, ◌++◌, length, Option, none, some, eq_bytes,
  eq_bytes_self,
}
use prototype_net.Control.Text.{Text, Addr, Texts}
use prototype_net.Control.Database.{
  Row, Db, row_of_domain, row_of_id, id_in_use, refresh_domain, set_origin, append_row, upsert,
  insert_inet, update_inet, insert_domain, next_domain_id, update_origin, find_by_domain,
  write_rows, write_rows,
}
use prototype_net.Control.Database.Steps.{Step, found, numbered, inserted, updated}
use prototype_net.Control.Daemon.NatMap.{NatMap, BpfHash, on_notification, insert_nat_entry}

-- The table, NAT_MAP, and the entry that the resolver writes next, after its UPDATE.
pub record System : Type 0 where
  pub db : Db
  pub nat : NatMap
  pub pending : Option (ℕ × Addr)

-- A statement that leaves the row alone whose entry the resolver is about to write.
abbrev pub Undisturbed : Option (ℕ × Addr) → Db → Db → Type 0
Undisturbed none db db' = Unit
Undisturbed (some (id, origin)) db db' = row_of_id id db'.rows ≡ row_of_id id db.rows

-- A statement of any client of the database, the daemon taking the oldest notification, or one of
-- the two writes of `resolve_all` for an origin that has changed.
pub data Moves (b : BpfHash) (x : Texts) : System → System → Type 0 where
  still : {s : System} → Moves b x s s
  statement :
      {s t : System} {db : Db}
      → Step x s.db db
      → Undisturbed s.pending s.db db
      → Moves b x (record s { db = db }) t
      → Moves b x s t
  notification :
      {s t : System} (payload : Text) (queue : List Text)
      → s.db.notified ≡ payload ∷ queue
      → Moves b x
          (record s {
            db = record s.db { notified = queue };
            nat = (on_notification b x s.db payload s.nat).1;
          })
          t
      → Moves b x s t
  resolver_updated :
      {s t : System} (id : ℕ) (new_ip : Addr)
      → s.pending ≡ none
      → length new_ip ≡ 16
      → Moves b x
          (record s {
            db = (update_origin x id (x.print new_ip) s.db).1;
            pending = some (id, new_ip);
          })
          t
      → Moves b x s t
  resolver_mapped :
      {s t : System} (id : ℕ) (new_ip : Addr)
      → s.pending ≡ some (id, new_ip)
      → Moves b x (record s { nat = (insert_nat_entry b id new_ip s.nat).1; pending = none }) t
      → Moves b x s t

-- `payload` waits in the queue.
unfoldable pub waits : Text → List Text → Bool
waits payload [] = false
waits payload (p ∷ queue) = eq_bytes p payload || waits payload queue

waits-append :
    (payload p : Text) (queue : List Text)
    → waits payload (queue ++ (p ∷ [])) ≡ waits payload queue || eq_bytes p payload
unfolding waits
waits-append payload p [] = ground arith
waits-append payload p (q ∷ queue) = let ih = waits-append payload p queue in ground arith

-- Rows with another id stay what they are.
row_of_id-append :
    (id : ℕ) (rows : List Row) (r : Row)
    → (r.domain_id == id) ≡ false
    → row_of_id id (rows ++ (r ∷ [])) ≡ row_of_id id rows
unfolding row_of_id
row_of_id-append id [] r h = ground arith
row_of_id-append id (y ∷ rows) r h = let ih = row_of_id-append id rows r h in ground arith

row_of_id-refresh :
    (id : ℕ) (domain : Text) (origin : Addr) (ttl : ℕ) (rows : List Row) (old : Row)
    → row_of_domain domain rows ≡ some old
    → (old.domain_id == id) ≡ false
    → row_of_id id (refresh_domain domain origin ttl rows) ≡ row_of_id id rows
unfolding row_of_id row_of_domain refresh_domain
row_of_id-refresh id domain origin ttl [] old h ne = refl
row_of_id-refresh id domain origin ttl (y ∷ rows) old h ne =
    let ih = row_of_id-refresh id domain origin ttl rows old in ground arith

pub row_of_id-set_origin :
    (id other : ℕ) (origin : Addr) (rows : List Row)
    → (other == id) ≡ false
    → row_of_id id (set_origin other origin rows) ≡ row_of_id id rows
unfolding row_of_id set_origin
row_of_id-set_origin id other origin [] h = refl
row_of_id-set_origin id other origin (y ∷ rows) h =
    let ih = row_of_id-set_origin id other origin rows h in ground arith

-- What a statement does to the row of an id: nothing, or a notification waits.
abbrev pub Kept : Texts → ℕ → Db → Db → Type 0
Kept x id db db' =
    ((row_of_id id db'.rows ≡ row_of_id id db.rows)
      × (waits (x.int_text id) db.notified ≡ true → waits (x.int_text id) db'.notified ≡ true))
    ⊎ (waits (x.int_text id) db'.notified ≡ true)

unchanged : (x : Texts) (id : ℕ) (db : Db) → Kept x id db db
unchanged x id db = inl (refl, λ w. w)

-- Rows that are written with a notification for `other`.
written :
    (x : Texts) (id other : ℕ) (db : Db) (rows : List Row)
    → ((other == id) ≡ false → row_of_id id rows ≡ row_of_id id db.rows)
    → Kept x id db (write_rows x rows other db)
written x id other db rows h = elim (Bool-cases (other == id)) [
  | inl same ↦ inr (
      waits-append (x.int_text id) (x.int_text other) db.notified
      ∙ (let e : eq_bytes (x.int_text other) (x.int_text id) ≡ true =
            rw (sym ((==_iff other id).0 same)) (eq_bytes_self (x.int_text other)) in
          ground arith))
  | inr differs ↦
      inl
        (h differs, λ w. waits-append (x.int_text id) (x.int_text other) db.notified ∙ ground arith)
]

branch-Kept :
    {A : Type 0} (x : Texts) (id : ℕ) (db : Db) (c : Bool) (p q : Option A × Db)
    → Kept x id db p.1
    → Kept x id db q.1
    → Kept x id db (if c then p else q).1
branch-Kept x id db true p q h h' = h
branch-Kept x id db false p q h h' = h'

upsert-Kept :
    (x : Texts) (id : ℕ) (r : Row) (ttl : ℕ) (old : Option Row) (db : Db)
    → row_of_domain r.domain db.rows ≡ old
    → Kept x id db (upsert x r ttl old db).1
unfolding upsert append_row
upsert-Kept x id r ttl none db h =
    branch-Kept x id db (id_in_use r.domain_id db.rows) _ _ (unchanged x id db)
      (written x id r.domain_id db _ (row_of_id-append id db.rows r))
upsert-Kept x id r ttl (some old) db h =
    written x id old.domain_id db _ (row_of_id-refresh id r.domain r.origin_ipv6 ttl db.rows old h)

insert_inet-Kept :
    (x : Texts) (id other : ℕ) (domain : Text) (ttl : ℕ) (o a : Option Addr) (db : Db)
    → Kept x id db (insert_inet x other domain ttl o a db).1
unfolding insert_inet
insert_inet-Kept x id other domain ttl none a db = unchanged x id db
insert_inet-Kept x id other domain ttl (some o) none db = unchanged x id db
insert_inet-Kept x id other domain ttl (some o) (some a) db =
    upsert-Kept x id _ ttl (row_of_domain domain db.rows) db refl

update_inet-Kept :
    (x : Texts) (id other : ℕ) (o : Option Addr) (db : Db)
    → Kept x id db (update_inet x other o db).1
unfolding update_inet
update_inet-Kept x id other none db = unchanged x id db
update_inet-Kept x id other (some o) db =
    branch-Kept x id db (id_in_use other db.rows) _ _
      (written x id other db _ (row_of_id-set_origin id other o db.rows)) (unchanged x id db)

pub Step-Kept : (x : Texts) (id : ℕ) (db db' : Db) → Step x db db' → Kept x id db db'
unfolding find_by_domain next_domain_id insert_domain update_origin
Step-Kept x id db db' (found domain) = unchanged x id db
Step-Kept x id db db' numbered =
    branch-Kept x id db (ltb db.sequence (2 ^ 63)) _ _ (unchanged x id db) (unchanged x id db)
Step-Kept x id db db' (inserted other domain origin synthetic ttl) =
    insert_inet-Kept x id other domain ttl (x.cast origin) (x.cast synthetic) db
Step-Kept x id db db' (updated other origin) = update_inet-Kept x id other (x.cast origin) db

-- The row that an UPDATE of the resolver leaves.
row_of_id-set_origin_same :
    (id : ℕ) (origin : Addr) (rows : List Row) (r : Row)
    → row_of_id id (set_origin id origin rows) ≡ some r
    → r.origin_ipv6 ≡ origin
unfolding row_of_id set_origin
row_of_id-set_origin_same id origin [] r h = absurd (cc)
row_of_id-set_origin_same id origin (y ∷ rows) r h = elim (Bool-cases (y.domain_id == id)) [
  | inl same ↦ first same
  | inr other ↦ row_of_id-set_origin_same id origin rows r (rw (other, other) at h)
]
  where
    first : (y.domain_id == id) ≡ true → r.origin_ipv6 ≡ origin
    first same = sym (ap (λ (z : Row). z.origin_ipv6) (some-injective _ r (rw (same, same) at h)))

row_of_id-unused : (id : ℕ) (rows : List Row) → id_in_use id rows ≡ false → row_of_id id rows ≡ none
unfolding row_of_id id_in_use
row_of_id-unused id [] h = refl
row_of_id-unused id (y ∷ rows) h = let ih = row_of_id-unused id rows in ground arith

pub update_inet-origin :
    (x : Texts) (id : ℕ) (origin : Addr) (db : Db) (r : Row)
    → row_of_id id (update_inet x id (some origin) db).1.rows ≡ some r
    → r.origin_ipv6 ≡ origin
unfolding update_inet
update_inet-origin x id origin db r h = elim (Bool-cases (id_in_use id db.rows)) [
  | inl used ↦ row_of_id-set_origin_same id origin db.rows r (rw used at h)
  | inr unused ↦
      absurd (missing (row_of_id id db.rows) (row_of_id-unused id db.rows unused) (rw unused at h))
]
  where
    missing : (o : Option Row) → o ≡ none → ¬ (o ≡ some r)
    missing none e h = cc
    missing (some y) e h = cc
