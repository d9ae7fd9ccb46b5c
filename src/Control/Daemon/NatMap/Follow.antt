-- ===== src/Control/Daemon/NatMap/Follow.antt =====
-- NAT_MAP follows the table `domains`: the listener of daemon/src/db.rs in the long run.
use prototype_net.Base.{
  ℕ, arith, ◌<◌, ◌^◌, ◌≡◌, sym, ap, ◌∙◌, subst, ◌⊎◌, inl, inr, ◌==◌, ==_iff, Bool-cases, true,
  false, List, [], ◌∷◌, length, Option, none, some, eq_bytes, eq_bytes→eq,
}
use prototype_net.Control.Text.{Text, Addr, Texts, IsTexts}
use prototype_net.Control.Database.{Row, Db, row_of_id, update_origin}
use prototype_net.Control.Database.Steps.{Step, updated}
use prototype_net.Control.Daemon.NatMap.{
  bulk_load_from_db, NatMap, BpfHash, HasRoom, entry, on_notification, insert_nat_entry,
}
use prototype_net.Control.Daemon.NatMap.Bulk.{Loadable, loaded_entry, bulk_load-loaded_entry}
use prototype_net.Control.Daemon.NatMap.Sync.{
  System, Moves, still, statement, notification, resolver_updated, resolver_mapped, Undisturbed,
  update_inet-origin, waits, Step-Kept,
}
use prototype_net.Control.Daemon.NatMap.Delivered.{
  insert_nat_entry_lem, row_delivered, payload_kept,
}

no_wait : (t : Text) → ¬ (waits t [] ≡ true)
unfolding waits
no_wait t e = cc

waits_on :
    (t payload : Text) (queue : List Text)
    → eq_bytes payload t ≡ false
    → waits t (payload ∷ queue) ≡ true
    → waits t queue ≡ true
unfolding waits
waits_on t payload queue other h = ground arith

module _ (b : BpfHash) (room : HasRoom b) (x : Texts) (w : IsTexts x) where
  -- An id is in sync when its entry is the row's origin, or a notification for it waits.
  abbrev InSync : ℕ → System → Type 0
  InSync id s =
      (r : Row)
      → row_of_id id s.db.rows ≡ some r
      → length r.origin_ipv6 ≡ 16
      → (s.nat id ≡ some (entry b r.origin_ipv6)) ⊎ (waits (x.int_text id) s.db.notified ≡ true)

  -- The entry that the resolver is about to write is the row's origin.
  abbrev pub Agrees : Option (ℕ × Addr) → Db → Type 0
  Agrees none db = Unit
  Agrees (some (id, origin)) db = (r : Row) → row_of_id id db.rows ≡ some r → r.origin_ipv6 ≡ origin

  statement-InSync :
      (id : ℕ) (s : System) (db : Db)
      → Step x s.db db
      → InSync id s
      → InSync id (record s { db = db })
  statement-InSync id s db one before r h sized = elim (Step-Kept x id s.db db one) [
    | inl (same, queue) ↦ elim (before r (sym same ∙ h) sized) [
      | inl right ↦ inl right
      | inr p ↦ inr (queue p)
    ]
    | inr p ↦ inr p
  ]

  statement-Agrees :
      (pending : Option (ℕ × Addr)) (db db' : Db)
      → Undisturbed pending db db'
      → Agrees pending db
      → Agrees pending db'
  statement-Agrees none db db' same before = tt
  statement-Agrees (some (id, origin)) db db' same before = λ r h. before r (sym same ∙ h)

  after : System → Text → List Text → System
  after s payload queue = record s {
    db = record s.db { notified = queue };
    nat = (on_notification b x s.db payload s.nat).1;
  }

  notification-InSync :
      (id : ℕ) (s : System) (payload : Text) (queue : List Text)
      → id < 2 ^ 32
      → s.db.notified ≡ payload ∷ queue
      → InSync id s
      → InSync id (after s payload queue)
  unfolding after on_notification
  notification-InSync id s payload queue small head before r h sized =
      elim (Bool-cases (eq_bytes payload (x.int_text id))) [
        | inl mine ↦ inl (
            rw
              (ap x.parse_i32 (eq_bytes→eq payload (x.int_text id) mine)
                ∙ w.parse_i32-int_text id small)
              (row_delivered b room x w id r (row_of_id id s.db.rows) s.nat h sized))
        | inr other ↦ elim (before r h sized) [
          | inl right ↦
              inl (payload_kept b room x w id r (x.parse_i32 payload) s.db s.nat h sized right)
          | inr p ↦ inr (
              waits_on (x.int_text id) payload queue other
                (ap (waits (x.int_text id)) (sym head) ∙ p))
        ]
      ]

  notification-Agrees :
      (pending : Option (ℕ × Addr)) (db : Db) (queue : List Text)
      → Agrees pending db
      → Agrees pending (record db { notified = queue })
  notification-Agrees none db queue before = tt
  notification-Agrees (some (id, origin)) db queue before = before

  -- The resolver's UPDATE.
  updated-Agrees :
      (id : ℕ) (new_ip : Addr) (db : Db)
      → length new_ip ≡ 16
      → Agrees (some (id, new_ip)) (update_origin x id (x.print new_ip) db).1
  unfolding update_origin
  updated-Agrees id new_ip db sized r h =
      update_inet-origin x id new_ip db r (rw (w.cast-print new_ip sized) at h)

  -- The resolver's write to the map.
  mapped-InSync :
      (id k : ℕ) (new_ip : Addr) (s : System)
      → Agrees (some (k, new_ip)) s.db
      → InSync id s
      → InSync id (record s { nat = (insert_nat_entry b k new_ip s.nat).1; pending = none })
  mapped-InSync id k new_ip s agrees before r h sized = elim (Bool-cases (k == id)) [
    | inl same ↦ inl (mapped_here same r h)
    | inr differs ↦ elim (before r h sized) [
      | inl right ↦
          inl ((insert_nat_entry_lem b room x w k new_ip s.nat).1 id (λ e. ground arith) ∙ right)
      | inr p ↦ inr p
    ]
  ]
    where
      mapped_here :
          (k == id) ≡ true
          → (r : Row) → row_of_id id s.db.rows ≡ some r
          → (insert_nat_entry b k new_ip s.nat).1 id ≡ some (entry b r.origin_ipv6)
      mapped_here same r h =
          let e = (==_iff k id).0 same in
          subst (λ j. (insert_nat_entry b k new_ip s.nat).1 j ≡ some (entry b r.origin_ipv6)) e
            ((insert_nat_entry_lem b room x w k new_ip s.nat).0
              ∙ ap (λ o. some (entry b o))
                  (sym (agrees r (subst (λ j. row_of_id j s.db.rows ≡ some r) (sym e) h))))

  Moves-InSync :
      (id : ℕ) (s t : System)
      → id < 2 ^ 32
      → Moves b x s t
      → InSync id s
      → Agrees s.pending s.db
      → InSync id t
  unfolding after
  Moves-InSync id s t small still h agrees = h
  Moves-InSync id s t small (statement {db = db} one calm more) h agrees =
      Moves-InSync id (record s { db = db }) t small more (statement-InSync id s db one h)
        (statement-Agrees s.pending s.db db calm agrees)
  Moves-InSync id s t small (notification payload queue head more) h agrees =
      Moves-InSync id (after s payload queue) t small more
        (notification-InSync id s payload queue small head h)
        (notification-Agrees s.pending s.db queue agrees)
  Moves-InSync id s t small (resolver_updated k new_ip idle sized more) h agrees =
      Moves-InSync id _ t small more (statement-InSync id s _ (updated k (x.print new_ip)) h)
        (updated-Agrees k new_ip s.db sized)
  Moves-InSync id s t small (resolver_mapped k new_ip next more) h agrees =
      Moves-InSync id _ t small more
        (mapped-InSync id k new_ip s (subst (λ p. Agrees p s.db) next agrees) h) tt

  handled-InSync :
      (t : System) (id : ℕ) (r : Row)
      → InSync id t
      → t.db.notified ≡ []
      → row_of_id id t.db.rows ≡ some r
      → length r.origin_ipv6 ≡ 16
      → t.nat id ≡ some (entry b r.origin_ipv6)
  handled-InSync t id r sync handled here sized = elim (sync r here sized) [
    | inl right ↦ right
    | inr p ↦ absurd (no_wait (x.int_text id) (ap (waits (x.int_text id)) (sym handled) ∙ p))
  ]

  -- The state after the bulk load of a table into some map.
  abbrev pub loaded : Db → NatMap → System
  loaded db m = record { db = db; nat = (bulk_load_from_db b x db m).1; pending = none }

  loaded-InSync : (db : Db) (m : NatMap) (id : ℕ) → Loadable db.rows → InSync id (loaded db m)
  loaded-InSync db m id h r here sized =
      let l = bulk_load-loaded_entry b room x w db m h in
      inl (ap (λ (o : Option ℕ × NatMap). o.1 id) l.1 ∙ l.2 id ∙ ap (loaded_entry (m id)) here)

  -- NAT_MAP follows the database, as long as it has room and the listener stays connected. After
  -- the bulk load of a table with distinct ids and IPv6 origins let any statements of the DNS
  -- server and of the resolver run, and the resolver's own writes to the map, in any interleaving
  -- with the notifications, where no other statement changes a row between the resolver's UPDATE of
  -- it and the resolver's write of its entry. Once every notification is handled, the map has the
  -- origin of each row whose origin is an IPv6 address.
  pub nat_map_follows_database :
      (db : Db) (m : NatMap) (t : System) (id : ℕ) (r : Row)
      → Loadable db.rows
      → Moves b x (loaded db m) t
      → t.db.notified ≡ []
      → id < 2 ^ 32
      → row_of_id id t.db.rows ≡ some r
      → length r.origin_ipv6 ≡ 16
      → t.nat id ≡ some (entry b r.origin_ipv6)
  nat_map_follows_database db m t id r h run handled small here sized =
      handled-InSync t id r (Moves-InSync id (loaded db m) t small run (loaded-InSync db m id h) tt)
        handled here sized
