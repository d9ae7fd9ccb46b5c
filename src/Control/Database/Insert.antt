-- ===== src/Control/Database/Insert.antt =====
-- What an insertion of dns-server/src/db.rs leaves in the table.
use prototype_net.Base.{ℕ, arith, ◌≡◌, refl, List, [], ◌∷◌, ◌++◌, Option, none, some, eq_bytes_self}
use prototype_net.Control.Text.{Text, Addr, Texts}
use prototype_net.Control.Database.{
  Row, Db, row_of_domain, append_row, upsert, insert_inet, insert_domain,
}
use prototype_net.Control.Database.Steps.{IsMapped, identity-refresh}

row_of_domain-append_new :
    (rows : List Row) (r : Row)
    → row_of_domain r.domain rows ≡ none
    → row_of_domain r.domain (rows ++ (r ∷ [])) ≡ some r
unfolding row_of_domain
row_of_domain-append_new [] r h = rw (eq_bytes_self r.domain) refl
row_of_domain-append_new (y ∷ rows) r h = let ih = row_of_domain-append_new rows r in ground arith

-- The result of an insertion is the mapping that the table has afterwards.
abbrev pub Stored : Texts → Text → ℕ × Text → Db → Type 0
Stored x domain result db =
    (synthetic : Addr) × IsMapped db domain result.0 synthetic × (result.1 ≡ x.host synthetic)

upsert-Stored :
    (x : Texts) (r : Row) (ttl : ℕ) (old : Option Row) (db : Db) (result : ℕ × Text)
    → row_of_domain r.domain db.rows ≡ old
    → (upsert x r ttl old db).0 ≡ some result
    → Stored x r.domain result (upsert x r ttl old db).1
unfolding upsert append_row
upsert-Stored x r ttl none db result before h =
    let added = row_of_domain-append_new db.rows r before in
    (r.synthetic_ipv6, ground arith, ground arith)
upsert-Stored x r ttl (some old) db result before h =
    let kept = identity-refresh r.domain r.domain r.origin_ipv6 ttl db.rows in
    (old.synthetic_ipv6, ground arith, ground arith)

insert_inet-Stored :
    (x : Texts) (id : ℕ) (domain : Text) (ttl : ℕ) (o a : Option Addr) (db : Db) (result : ℕ × Text)
    → (insert_inet x id domain ttl o a db).0 ≡ some result
    → Stored x domain result (insert_inet x id domain ttl o a db).1
unfolding insert_inet
insert_inet-Stored x id domain ttl none a db result h = absurd (cc)
insert_inet-Stored x id domain ttl (some o) none db result h = absurd (cc)
insert_inet-Stored x id domain ttl (some o) (some a) db result h =
    upsert-Stored x _ ttl (row_of_domain domain db.rows) db result refl h

pub insert_domain-Stored :
    (x : Texts) (id : ℕ) (domain origin synthetic : Text) (ttl : ℕ) (db : Db) (result : ℕ × Text)
    → (insert_domain x id domain origin synthetic ttl db).0 ≡ some result
    → Stored x domain result (insert_domain x id domain origin synthetic ttl db).1
unfolding insert_domain
insert_domain-Stored x id domain origin synthetic ttl db result h =
    insert_inet-Stored x id domain ttl (x.cast origin) (x.cast synthetic) db result h
