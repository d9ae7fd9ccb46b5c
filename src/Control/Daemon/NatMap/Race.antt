-- ===== src/Control/Daemon/NatMap/Race.antt =====
-- The two writes of `resolve_all` in daemon/src/resolver.rs with an upsert of dns-server/src/db.rs in
-- between.
use prototype_net.Base.{
  ℕ, ◌<◌, ◌^◌, ◌≡◌, refl, ap, ◌∙◌, true, List, [], ◌∷◌, ◌++◌, length, some, eq_bytes, arith,
}
use prototype_net.Control.Text.{Text, Addr, Texts, IsTexts}
use prototype_net.Control.Database.{
  Row, Db, row_of_domain, row_of_id, id_in_use, refresh, refresh_domain, set_origin, update_inet,
  update_origin, insert_inet, upsert, insert_domain,
}
use prototype_net.Control.Daemon.NatMap.{
  NatMap, BpfHash, HasRoom, entry, insert_nat_entry, on_notification,
}
use prototype_net.Control.Daemon.NatMap.Delivered.{insert_nat_entry_lem, row_delivered}

domain_of_row :
    (domain : Text) (rows : List Row) (r : Row)
    → row_of_domain domain rows ≡ some r
    → eq_bytes r.domain domain ≡ true
unfolding row_of_domain
domain_of_row domain [] r h = absurd (cc)
domain_of_row domain (y ∷ rows) r h = let ih = domain_of_row domain rows r in ground arith

pub used_row :
    (id : ℕ) (rows : List Row) (r : Row) → row_of_id id rows ≡ some r → id_in_use id rows ≡ true
unfolding row_of_id id_in_use
used_row id [] r h = absurd (cc)
used_row id (y ∷ rows) r h = let ih = used_row id rows r in ground arith

-- A row that is the first of its domain and of its id, after an UPDATE of its origin and an upsert.
row_of_domain-set_origin_same :
    (domain : Text) (origin : Addr) (rows : List Row) (r : Row)
    → row_of_domain domain rows ≡ some r
    → row_of_domain domain (set_origin r.domain_id origin rows)
      ≡ some (record r { origin_ipv6 = origin })
unfolding row_of_domain set_origin
row_of_domain-set_origin_same domain origin [] r h = absurd (cc)
row_of_domain-set_origin_same domain origin (y ∷ rows) r h =
    let ih = row_of_domain-set_origin_same domain origin rows r in ground arith

pub row_of_id-set_origin_first :
    (id : ℕ) (origin : Addr) (rows : List Row) (r : Row)
    → row_of_id id rows ≡ some r
    → row_of_id id (set_origin id origin rows) ≡ some (record r { origin_ipv6 = origin })
unfolding row_of_id set_origin
row_of_id-set_origin_first id origin [] r h = absurd (cc)
row_of_id-set_origin_first id origin (y ∷ rows) r h =
    let ih = row_of_id-set_origin_first id origin rows r in ground arith

row_of_id-refresh_same :
    (domain : Text) (origin : Addr) (ttl : ℕ) (rows : List Row) (r : Row)
    → row_of_domain domain rows ≡ some r
    → row_of_id r.domain_id rows ≡ some r
    → row_of_id r.domain_id (refresh_domain domain origin ttl rows) ≡ some (refresh origin ttl r)
unfolding row_of_domain row_of_id refresh_domain
row_of_id-refresh_same domain origin ttl [] r h e = absurd (cc)
row_of_id-refresh_same domain origin ttl (y ∷ rows) r h e =
    let ih = row_of_id-refresh_same domain origin ttl rows r in
    let d = domain_of_row domain rows r in ground arith

module _ (x : Texts) where
  -- A schedule: the resolver's UPDATE of a row to `old`, and after it the upsert of a query for the
  -- same domain.
  abbrev pub raced : Db → Row → Addr → ℕ → Addr → Addr → ℕ → Db
  raced db r old other new synthetic ttl =
      (insert_domain x other r.domain (x.print new) (x.print synthetic) ttl
        (update_origin x r.domain_id (x.print old) db).1).1

  -- The map when both notifications are handled, and then the resolver writes its entry.
  abbrev pub after_race : BpfHash → Db → ℕ → Addr → NatMap → NatMap
  after_race b db id old m =
      let once = (on_notification b x db (x.int_text id) m).1 in
      let twice = (on_notification b x db (x.int_text id) once).1 in
      (insert_nat_entry b id old twice).1

  raced_lem :
      (w : IsTexts x) (db : Db) (r : Row) (old new synthetic : Addr) (other ttl : ℕ)
      → row_of_domain r.domain db.rows ≡ some r
      → row_of_id r.domain_id db.rows ≡ some r
      → length old ≡ 16
      → length new ≡ 16
      → length synthetic ≡ 16
      → raced db r old other new synthetic ttl ≡ record db {
        rows = refresh_domain r.domain new ttl (set_origin r.domain_id old db.rows);
        notified = (db.notified ++ (x.int_text r.domain_id ∷ [])) ++ (x.int_text r.domain_id ∷ []);
      }
  unfolding update_origin update_inet insert_domain insert_inet upsert
  raced_lem w db r old new synthetic other ttl by_domain by_id old_sized new_sized synthetic_sized =
      let updated : (update_origin x r.domain_id (x.print old) db).1 ≡ record db {
        rows = set_origin r.domain_id old db.rows;
        notified = db.notified ++ (x.int_text r.domain_id ∷ []);
      } =
        rw (w.cast-print old old_sized, used_row r.domain_id db.rows r by_id) refl in
      ap (λ d. (insert_domain x other r.domain (x.print new) (x.print synthetic) ttl d).1) updated
      ∙ rw
          (
            w.cast-print new new_sized,
            w.cast-print synthetic synthetic_sized,
            row_of_domain-set_origin_same r.domain old db.rows r by_domain,
          )
          refl

  module _ (b : BpfHash) (room : HasRoom b) (w : IsTexts x) where
    -- If an upsert of the same domain comes between the resolver's UPDATE of a row and its write of
    -- the entry, and both notifications are handled before that write, then the row has the newer
    -- origin of the upsert, each notification has written it to NAT_MAP, no further notification
    -- waits than before, and NAT_MAP is left with the older origin of the resolver. The row is the
    -- only one of its domain and its id, the addresses have 16 bytes, and the map has room.
    pub stale_entry :
        (db : Db) (r : Row) (old new synthetic : Addr) (other ttl : ℕ) (m : NatMap)
        → row_of_domain r.domain db.rows ≡ some r
        → row_of_id r.domain_id db.rows ≡ some r
        → r.domain_id < 2 ^ 32
        → length old ≡ 16
        → length new ≡ 16
        → length synthetic ≡ 16
        → let db' = raced db r old other new synthetic ttl in
          let t = x.int_text r.domain_id in
          (row_of_id r.domain_id db'.rows ≡ some (refresh new ttl r))
          × (db'.notified ≡ (db.notified ++ (t ∷ [])) ++ (t ∷ []))
          × ((on_notification b x db' t m).1 r.domain_id ≡ some (entry b new))
          × (after_race b db' r.domain_id old m r.domain_id ≡ some (entry b old))
    unfolding on_notification
    stale_entry db r old new synthetic other ttl m by_domain by_id small old_sized new_sized
          synthetic_sized =
        let e =
          raced_lem w db r old new synthetic other ttl by_domain by_id old_sized new_sized
            synthetic_sized in
        let row =
          ap (λ (d : Db). row_of_id r.domain_id d.rows) e
          ∙ row_of_id-refresh_same r.domain new ttl (set_origin r.domain_id old db.rows)
              (record r { origin_ipv6 = old })
              (row_of_domain-set_origin_same r.domain old db.rows r by_domain)
              (row_of_id-set_origin_first r.domain_id old db.rows r by_id) in
        (
          row,
          ap (λ (d : Db). d.notified) e,
          rw (w.parse_i32-int_text r.domain_id small)
              (row_delivered b room x w r.domain_id (refresh new ttl r) _ m row new_sized),
          (insert_nat_entry_lem b room x w r.domain_id old _).0,
        )
