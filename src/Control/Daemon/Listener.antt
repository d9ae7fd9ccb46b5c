-- ===== src/Control/Daemon/Listener.antt =====
-- The connection of the listener: `listen_for_changes` of daemon/src/db.rs, which daemon/src/main.rs
-- starts after the bulk load.
use prototype_net.Base.{
  ◌^◌, ◌<◌, ◌≡◌, refl, ap, ◌∙◌, arith, Bool, true, false, List, [], ◌∷◌, ◌++◌, length, Option, none,
  some,
}
use prototype_net.Word.{u32}
use prototype_net.Common.Address.{synthetic_ipv6}
use prototype_net.Control.Text.{Text, Addr, Texts, IsTexts}
use prototype_net.Control.Database.{
  Db, row_of_domain, id_in_use, find_by_domain, next_domain_id, pg_pool,
}
use prototype_net.Control.Database.Steps.{Step}
use prototype_net.Control.Dns.{Response, Hickory, lookup_aaaa}
use prototype_net.Control.Dns.Handle.{handle_aaaa, domain_str, with_answer}
use prototype_net.Control.Dns.Fresh.{first_answer, new_row}
use prototype_net.Control.Daemon.NatMap.{NatMap, BpfHash, on_notification, bulk_load_from_db}

-- The table, NAT_MAP, and whether the listener has a connection that listens.
pub record Live : Type 0 where
  pub db : Db
  pub nat : NatMap
  pub connected : Bool

-- Postgres keeps a notification for sessions that listen, and for no others.
unfoldable pub hear : Bool → Db → Db
hear true db = db
hear false db = record db { notified = [] }

-- After the bulk load of `main`, before the listener has connected.
unfoldable pub bulk_loaded : BpfHash → Texts → Db → NatMap → Live
bulk_loaded b x db m = record {
  db = hear false db;
  nat = (bulk_load_from_db b x db m).1;
  connected = false;
}

-- `run_listener` ends: its connection is closed, and with it goes what was not received.
unfoldable pub disconnect : Live → Live
unfolding hear
disconnect s = record s { db = hear false s.db; connected = false }

-- After a notification: an error ends `run_listener`.
unfoldable pub after_notification : Option (Unit {0}) × NatMap → Live → Live
unfolding disconnect
after_notification (none, nat) s = disconnect (record s { nat = nat })
after_notification (some done, nat) s = record s { nat = nat }

unfoldable pub deliver : BpfHash → Texts → Text → List Text → Live → Live
unfolding after_notification
deliver b x payload queue s =
    after_notification (on_notification b x s.db payload s.nat)
      (record s { db = record s.db { notified = queue } })

-- Runs, in which statements write to the table only if `writes` is true.
pub data Lives (b : BpfHash) (x : Texts) (writes : Bool) : Live → Live → Type 0 where
  rest : {s : Live} → Lives b x writes s s
  found :
      {s t : Live} (domain : Text)
      → Lives b x writes (record s { db = (find_by_domain x domain s.db).1 }) t
      → Lives b x writes s t
  numbered :
      {s t : Live}
      → Lives b x writes (record s { db = (next_domain_id x s.db).1 }) t
      → Lives b x writes s t
  wrote :
      {s t : Live} {db : Db}
      → writes ≡ true
      → Step x s.db db
      → Lives b x writes (record s { db = hear s.connected db }) t
      → Lives b x writes s t
  notification :
      {s t : Live} (payload : Text) (queue : List Text)
      → s.connected ≡ true
      → s.db.notified ≡ payload ∷ queue
      → Lives b x writes (deliver b x payload queue s) t
      → Lives b x writes s t
  lost : {s t : Live} → Lives b x writes (disconnect s) t → Lives b x writes s t
  -- `connect` and `listen` of a new session.
  listening :
      {s t : Live}
      → s.connected ≡ false
      → Lives b x writes (record s { connected = true }) t
      → Lives b x writes s t

next_domain_id-rows :
    (x : Texts) (db : Db)
    → ((next_domain_id x db).1.notified ≡ db.notified) × ((next_domain_id x db).1.rows ≡ db.rows)
unfolding next_domain_id
next_domain_id-rows x db = ground arith

hear-rows : (connected : Bool) (db : Db) → (hear connected db).rows ≡ db.rows
unfolding hear
hear-rows true db = refl
hear-rows false db = refl

hear_deaf : (connected : Bool) (db : Db) → connected ≡ false → (hear connected db).notified ≡ []
unfolding hear
hear_deaf true db e = absurd (cc)
hear_deaf false db e = refl

module _ (b : BpfHash) (x : Texts) where
  -- While nothing is written and nothing waits, nothing reaches NAT_MAP.
  quiet :
      (s t : Live)
      → Lives b x false s t
      → s.db.notified ≡ []
      → (t.nat ≡ s.nat) × (t.db.rows ≡ s.db.rows)
  unfolding disconnect hear find_by_domain
  quiet s t rest e = (refl, refl)
  quiet s t (found domain run) e = quiet _ t run e
  quiet s t (numbered run) e =
      let k = next_domain_id-rows x s.db in
      let q = quiet (record s { db = (next_domain_id x s.db).1 }) t run (k.0 ∙ e) in
      (q.0, q.1 ∙ k.1)
  quiet s t (wrote w one run) e = absurd (cc)
  quiet s t (notification payload queue c head run) e = absurd (cc)
  quiet s t (lost run) e = quiet (disconnect s) t run refl
  quiet s t (listening c run) e = quiet _ t run e

  module _ (w : IsTexts x) (h : Hickory) where
    -- A domain that is asked for the first time while the listener has no connection, as it has
    -- none between the bulk load and its first LISTEN: it is stored and answered with a synthetic
    -- address, but NAT_MAP stays as it was, however long the daemon then listens and however often
    -- the table is read, until something is written to the table.
    pub missed_while_deaf :
        (name : Text) (response : Response) (s t : Live) (origin : Addr)
        → s.connected ≡ false
        → row_of_domain (domain_str h name) s.db.rows ≡ none
        → lookup_aaaa (h.ipv6_lookup (domain_str h name)) ≡ some (some origin)
        → length origin ≡ 16
        → s.db.sequence < 2 ^ 63
        → id_in_use (u32 s.db.sequence) s.db.rows ≡ false
        → Lives b x false
            (record s { db = hear s.connected (handle_aaaa (pg_pool x) x h name response s.db).1 })
            t
        → ((handle_aaaa (pg_pool x) x h name response s.db).0
            ≡ some (
                with_answer (pg_pool x) x h name 300 response (synthetic_ipv6 (u32 s.db.sequence))))
          × (t.db.rows ≡ s.db.rows ++ (new_row (domain_str h name) (u32 s.db.sequence) origin ∷ []))
          × (t.nat ≡ s.nat)
    missed_while_deaf name response s t origin deaf unknown upstream sized room free run =
        let f = (first_answer x w h name response s.db origin unknown upstream sized room free).0 in
        let db = (handle_aaaa (pg_pool x) x h name response s.db).1 in
        let q = quiet _ t run (hear_deaf s.connected db deaf) in
        (ap (λ o. o.0) f, q.1 ∙ hear-rows s.connected db ∙ ap (λ o. o.1.rows) f, q.0)
