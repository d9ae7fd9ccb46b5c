-- ===== src/Control/Database/Steps.antt =====
-- Runs of the database: any interleaving of the statements of the DNS server and of the daemon.
use prototype_net.Base.{ℕ, arith, ◌≡◌, refl, ◌∙◌, List, [], ◌∷◌, ◌++◌, Option, none, some}
use prototype_net.Control.Text.{Text, Addr, Texts}
use prototype_net.Control.Database.{
  Row, Db, row_of_domain, refresh_domain, set_origin, append_row, upsert, insert_inet, update_inet,
  insert_domain, next_domain_id, update_origin, find_by_domain,
}

-- One statement, with whatever parameters and whatever result.
pub data Step (x : Texts) : Db → Db → Type 0 where
  found : {db : Db} (domain : Text) → Step x db (find_by_domain x domain db).1
  numbered : {db : Db} → Step x db (next_domain_id x db).1
  inserted :
      {db : Db} (id : ℕ) (domain origin synthetic : Text) (ttl : ℕ)
      → Step x db (insert_domain x id domain origin synthetic ttl db).1
  updated : {db : Db} (id : ℕ) (origin : Text) → Step x db (update_origin x id origin db).1

pub data Steps (x : Texts) : Db → Db → Type 0 where
  rest : {db : Db} → Steps x db db
  step : {a b c : Db} → Step x a b → Steps x b c → Steps x a c

-- The two columns that identify a mapping, of an optional row.
abbrev pub Identity : Type 0
Identity = Option (ℕ × Addr)

abbrev pub identity : Option Row → Identity
identity none = none
identity (some r) = some (r.domain_id, r.synthetic_ipv6)

-- `domain` has been given `id` and the address `synthetic`.
abbrev pub IsMapped : Db → Text → ℕ → Addr → Type 0
IsMapped db domain id synthetic = identity (row_of_domain domain db.rows) ≡ some (id, synthetic)

identity-append :
    (domain : Text) (rows more : List Row) (m : ℕ × Addr)
    → identity (row_of_domain domain rows) ≡ some m
    → identity (row_of_domain domain (rows ++ more)) ≡ some m
unfolding row_of_domain
identity-append domain [] more m h = absurd (cc)
identity-append domain (y ∷ rows) more m h =
    let ih = identity-append domain rows more m in ground arith

pub identity-refresh :
    (domain other : Text) (origin : Addr) (ttl : ℕ) (rows : List Row)
    → identity (row_of_domain domain (refresh_domain other origin ttl rows))
      ≡ identity (row_of_domain domain rows)
unfolding row_of_domain refresh_domain
identity-refresh domain other origin ttl [] = refl
identity-refresh domain other origin ttl (r ∷ rows) =
    let ih = identity-refresh domain other origin ttl rows in ground arith

identity-set_origin :
    (domain : Text) (id : ℕ) (origin : Addr) (rows : List Row)
    → identity (row_of_domain domain (set_origin id origin rows))
      ≡ identity (row_of_domain domain rows)
unfolding row_of_domain set_origin
identity-set_origin domain id origin [] = refl
identity-set_origin domain id origin (r ∷ rows) =
    let ih = identity-set_origin domain id origin rows in ground arith

-- An insertion, with the row that its domain already has.
upsert-IsMapped :
    (x : Texts) (domain : Text) (m : ℕ × Addr) (r : Row) (ttl : ℕ) (old : Option Row) (db : Db)
    → identity (row_of_domain domain db.rows) ≡ some m
    → identity (row_of_domain domain (upsert x r ttl old db).1.rows) ≡ some m
unfolding upsert append_row
upsert-IsMapped x domain m r ttl none db h =
    let kept = identity-append domain db.rows (r ∷ []) m h in ground arith
upsert-IsMapped x domain m r ttl (some old) db h =
    identity-refresh domain r.domain r.origin_ipv6 ttl db.rows ∙ h

insert_inet-IsMapped :
    (x : Texts) (domain : Text) (m : ℕ × Addr) (id : ℕ) (other : Text) (ttl : ℕ) (o a : Option Addr)
    (db : Db)
    → identity (row_of_domain domain db.rows) ≡ some m
    → identity (row_of_domain domain (insert_inet x id other ttl o a db).1.rows) ≡ some m
unfolding insert_inet
insert_inet-IsMapped x domain m id other ttl none a db h = h
insert_inet-IsMapped x domain m id other ttl (some o) none db h = h
insert_inet-IsMapped x domain m id other ttl (some o) (some a) db h =
    upsert-IsMapped x domain m _ ttl (row_of_domain other db.rows) db h

update_inet-IsMapped :
    (x : Texts) (domain : Text) (m : ℕ × Addr) (id : ℕ) (o : Option Addr) (db : Db)
    → identity (row_of_domain domain db.rows) ≡ some m
    → identity (row_of_domain domain (update_inet x id o db).1.rows) ≡ some m
unfolding update_inet
update_inet-IsMapped x domain m id none db h = h
update_inet-IsMapped x domain m id (some o) db h =
    let kept = identity-set_origin domain id o db.rows ∙ h in ground arith

Step-IsMapped :
    (x : Texts) (db db' : Db) (domain : Text) (m : ℕ × Addr)
    → Step x db db'
    → identity (row_of_domain domain db.rows) ≡ some m
    → identity (row_of_domain domain db'.rows) ≡ some m
unfolding find_by_domain next_domain_id insert_domain update_origin
Step-IsMapped x db db' domain m (found other) h = h
Step-IsMapped x db db' domain m numbered h = ground arith
Step-IsMapped x db db' domain m (inserted id other origin synthetic ttl) h =
    insert_inet-IsMapped x domain m id other ttl (x.cast origin) (x.cast synthetic) db h
Step-IsMapped x db db' domain m (updated id origin) h =
    update_inet-IsMapped x domain m id (x.cast origin) db h

-- Once a domain has its id and its synthetic address, every run of statements leaves it them.
pub mapping_persists :
    (x : Texts) (db db' : Db) (domain : Text) (id : ℕ) (synthetic : Addr)
    → Steps x db db'
    → IsMapped db domain id synthetic
    → IsMapped db' domain id synthetic
mapping_persists x db db' domain id synthetic rest h = h
mapping_persists x db db' domain id synthetic (step {b = b} one more) h =
    mapping_persists x b db' domain id synthetic more
      (Step-IsMapped x db b domain (id, synthetic) one h)
