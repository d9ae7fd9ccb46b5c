-- ===== src/Control/Daemon/NatMap/Rewritten.antt =====
-- What `resolve_all` of daemon/src/resolver.rs leaves in the table and in NAT_MAP.
use prototype_net.Base.{
  ℕ, arith, ◌≡◌, ◌≢◌, refl, sym, ap, ◌∙◌, subst, inl, inr, ◌==◌, ==_self, ==_iff, false, Bool-cases,
  if◌then◌else◌, List, [], ◌∷◌, length, Option, none, some, eq_bytes,
}
use prototype_net.Common.Types.{NatEntry}
use prototype_net.Control.Text.{Text, Addr, Texts, IsTexts}
use prototype_net.Control.Database.{
  Row, Db, row_of_id, set_origin, update_inet, update_origin, write_rows,
}
use prototype_net.Control.Dns.{Lookup, resolved, failed}
use prototype_net.Control.Daemon.NatMap.{
  NatMap, BpfHash, HasRoom, entry, insert_nat_entry, write_origin, resolve_row, resolve_rows,
  resolve_all,
}
use prototype_net.Control.Daemon.NatMap.Bulk.{Loadable, row_missing, row_found}
use prototype_net.Control.Daemon.NatMap.Race.{used_row, row_of_id-set_origin_first}
use prototype_net.Control.Daemon.NatMap.Resolve.{GivesAddresses}
use prototype_net.Control.Daemon.NatMap.Sync.{row_of_id-set_origin}

-- The address that a row has moved to: the first one upstream gives, if its text is another than
-- that of the row's origin.
abbrev pub moved_to : Texts → Row → Lookup → Option Addr
moved_to x r (resolved []) = none
moved_to x r (resolved (new_ip ∷ ips)) =
    if eq_bytes (x.print new_ip) (x.host r.origin_ipv6) then none else some new_ip
moved_to x r (failed no_records) = none

abbrev pub with_origin : Option Addr → Row → Row
with_origin none r = r
with_origin (some new_ip) r = record r { origin_ipv6 = new_ip }

abbrev pub with_entry : Option Addr → Option NatEntry → Option NatEntry
with_entry none before = before
with_entry (some new_ip) before = some (record { origin_ipv6 = new_ip })

-- What becomes of the row of an id and of its entry.
abbrev pub moved_row : Texts → (Text → Lookup) → Option Row → Option Row
moved_row x ipv6_lookup none = none
moved_row x ipv6_lookup (some r) = some (with_origin (moved_to x r (ipv6_lookup r.domain)) r)

abbrev pub moved_entry : Texts → (Text → Lookup) → Option Row → Option NatEntry → Option NatEntry
moved_entry x ipv6_lookup none before = before
moved_entry x ipv6_lookup (some r) before = with_entry (moved_to x r (ipv6_lookup r.domain)) before

-- From `s` to `t` the row `r` and its entry get a new origin, if there is one; other ids keep theirs.
record IsRewrite (r : Row) (new_ip : Option Addr) (s t : Db × NatMap) : Type 0 where
  row_of : row_of_id r.domain_id t.0.rows ≡ some (with_origin new_ip r)
  entry_of : t.1 r.domain_id ≡ with_entry new_ip (s.1 r.domain_id)
  others :
      (id : ℕ)
      → id ≢ r.domain_id
      → (row_of_id id t.0.rows ≡ row_of_id id s.0.rows) × (t.1 id ≡ s.1 id)

untouched :
    (r : Row) (s : Db × NatMap) → row_of_id r.domain_id s.0.rows ≡ some r → IsRewrite r none s s
untouched r s h = record { row_of = h; entry_of = refl; others = λ id ne. (refl, refl) }

-- A row behind another one with a different id.
later_row :
    (id : ℕ) (r r' : Row) (rows : List Row)
    → row_of_id r.domain_id rows ≡ none
    → row_of_id id rows ≡ some r'
    → (id ≢ r.domain_id) × (row_of_id id (r ∷ rows) ≡ some r')
unfolding row_of_id
later_row id r r' rows alone e = (
  ne,
  elim (Bool-cases (r.domain_id == id)) [
    | inl same ↦ absurd (ne (sym ((==_iff r.domain_id id).0 same)))
    | inr other ↦ rw other e
  ],
)
  where
    clash : (o : Option Row) → o ≡ none → ¬ (o ≡ some r')
    clash none h e = cc
    clash (some y) h e = cc

    ne : id ≢ r.domain_id
    ne same =
        clash (row_of_id r.domain_id rows) alone (subst (λ i. row_of_id i rows ≡ some r') same e)

updated_origin :
    (x : Texts) (w : IsTexts x) (r : Row) (new_ip : Addr) (db : Db)
    → row_of_id r.domain_id db.rows ≡ some r
    → length new_ip ≡ 16
    → update_origin x r.domain_id (x.print new_ip) db
      ≡ (some tt, write_rows x (set_origin r.domain_id new_ip db.rows) r.domain_id db)
unfolding update_origin update_inet
updated_origin x w r new_ip db here sized =
    rw (w.cast-print new_ip sized, used_row r.domain_id db.rows r here) refl

module _ (b : BpfHash) (room : HasRoom b) (x : Texts) (w : IsTexts x) where
  -- The two writes for a row whose address has changed.
  write_origin-changed :
      (r : Row) (new_ip : Addr) (s : Db × NatMap)
      → row_of_id r.domain_id s.0.rows ≡ some r
      → length new_ip ≡ 16
      → eq_bytes (x.print new_ip) (x.host r.origin_ipv6) ≡ false
      → (t : Db × NatMap) × (write_origin b x r new_ip s ≡ (some tt, t))
        × IsRewrite r (some new_ip) s t
  unfolding write_origin insert_nat_entry
  write_origin-changed r new_ip s here sized changed =
      let i = room.insert_in s.1 r.domain_id (entry b new_ip) in
      (
        (write_rows x (set_origin r.domain_id new_ip s.0.rows) r.domain_id s.0, i.0),
        rw (changed, updated_origin x w r new_ip s.0 here sized, i.1)
            (ap (λ (u : Option (Unit {0}) × Db). (some tt, (u.1, i.0)))
              (updated_origin x w r new_ip s.0 here sized)),
        record {
          row_of = row_of_id-set_origin_first r.domain_id new_ip s.0.rows r here;
          entry_of = i.2;
          others = λ id ne. (
            row_of_id-set_origin id r.domain_id new_ip s.0.rows (differs r.domain_id id ne),
            i.3 id ne,
          );
        },
      )
    where
      differs : (j id : ℕ) → id ≢ j → (j == id) ≡ false
      differs j id ne = ground arith

  resolve_row-IsRewrite :
      (r : Row) (found : Lookup) (s : Db × NatMap)
      → row_of_id r.domain_id s.0.rows ≡ some r
      → ((new_ip : Addr) (ips : List Addr) → found ≡ resolved (new_ip ∷ ips) → length new_ip ≡ 16)
      → (t : Db × NatMap) × (resolve_row b x r found s ≡ (some tt, t))
        × IsRewrite r (moved_to x r found) s t
  unfolding resolve_row write_origin
  resolve_row-IsRewrite r (resolved []) s here sized = (s, refl, untouched r s here)
  resolve_row-IsRewrite r (resolved (new_ip ∷ ips)) s here sized =
      elim (Bool-cases (eq_bytes (x.print new_ip) (x.host r.origin_ipv6))) [
        | inl same ↦ rw same (s, refl, untouched r s here)
        | inr changed ↦
            let c = write_origin-changed r new_ip s here (sized new_ip ips refl) changed in
            (c.0, c.1, rw changed (c.2))
      ]
  resolve_row-IsRewrite r (failed no_records) s here sized = (s, refl, untouched r s here)

  -- The loop, from a state in which the table still has the rows that were read.
  resolve_rows_lem :
      (ipv6_lookup : Text → Lookup) (rows : List Row) (s : Db × NatMap)
      → GivesAddresses ipv6_lookup
      → Loadable rows
      → ((id : ℕ) (r : Row) → row_of_id id rows ≡ some r → row_of_id id s.0.rows ≡ some r)
      → (t : Db × NatMap) × (resolve_rows b x ipv6_lookup rows s ≡ (some tt, t))
        × ((id : ℕ)
            → row_of_id id rows ≡ none
            → (row_of_id id t.0.rows ≡ row_of_id id s.0.rows) × (t.1 id ≡ s.1 id))
        × ((id : ℕ) (r : Row)
            → row_of_id id rows ≡ some r
            → (row_of_id id t.0.rows ≡ moved_row x ipv6_lookup (some r))
              × (t.1 id ≡ moved_entry x ipv6_lookup (some r) (s.1 id)))
  unfolding resolve_rows Loadable row_of_id
  resolve_rows_lem ipv6_lookup [] s gives h current =
      (s, refl, λ id e. (refl, refl), λ id r e. absurd (cc))
  resolve_rows_lem ipv6_lookup (r ∷ rows) s gives h current =
      let here : row_of_id r.domain_id s.0.rows ≡ some r =
        current r.domain_id r (rw (==_self r.domain_id) refl) in
      let one = resolve_row-IsRewrite r (ipv6_lookup r.domain) s here (gives r.domain) in
      let ih = resolve_rows_lem ipv6_lookup rows one.0 gives h.2 (λ id r' e.
        let behind = later_row id r r' rows h.1 e in
        (one.2.others id behind.0).0 ∙ current id r' behind.1) in
      (
        ih.0,
        rw (one.1, ih.1) refl,
        λ id e.
            let missing = row_missing id r rows e in
            let same = one.2.others id missing.0 in
            ((ih.2 id missing.1).0 ∙ same.0, (ih.2 id missing.1).1 ∙ same.1),
        λ id r' e. elim (row_found id r r' rows e) [
          | inl (same, first) ↦
              subst
                (λ i.
                  (row_of_id i ih.0.0.rows ≡ moved_row x ipv6_lookup (some r'))
                  × (ih.0.1 i ≡ moved_entry x ipv6_lookup (some r') (s.1 i)))
                same
                (subst
                  (λ (y : Row).
                    (row_of_id r.domain_id ih.0.0.rows ≡ moved_row x ipv6_lookup (some y))
                    × (ih.0.1 r.domain_id ≡ moved_entry x ipv6_lookup (some y) (s.1 r.domain_id)))
                  first
                  (
                    (ih.2 r.domain_id h.1).0 ∙ one.2.row_of,
                    (ih.2 r.domain_id h.1).1 ∙ one.2.entry_of,
                  ))
          | inr later ↦
              let behind = later_row id r r' rows h.1 later in
              (
                (ih.3 id r' later).0,
                (ih.3 id r' later).1
                    ∙ ap (moved_entry x ipv6_lookup (some r')) (one.2.others id behind.0).1,
              )
        ],
      )

  -- If the rows have distinct ids and IPv6 origins, upstream gives IPv6 addresses and the map has
  -- room, re-resolution of the whole table ends without an error. Each row for which the text of
  -- upstream's first address differs from that of its origin then has that address as its origin,
  -- and so has its entry in NAT_MAP; every other row, and the entry of every other id, is what it
  -- was.
  pub resolve_all-moved_row :
      (ipv6_lookup : Text → Lookup) (s : Db × NatMap)
      → GivesAddresses ipv6_lookup
      → Loadable s.0.rows
      → (t : Db × NatMap) × (resolve_all b x ipv6_lookup s ≡ (some tt, t))
        × ((id : ℕ)
            → (row_of_id id t.0.rows ≡ moved_row x ipv6_lookup (row_of_id id s.0.rows))
              × (t.1 id ≡ moved_entry x ipv6_lookup (row_of_id id s.0.rows) (s.1 id)))
  unfolding resolve_all
  resolve_all-moved_row ipv6_lookup s gives h =
      let l = resolve_rows_lem ipv6_lookup s.0.rows s gives h (λ id r e. e) in
      (l.0, l.1, λ id. by_row l.0 id (row_of_id id s.0.rows) refl (l.2 id) (l.3 id))
    where
      by_row :
          (t : Db × NatMap) (id : ℕ) (row : Option Row)
          → row_of_id id s.0.rows ≡ row
          → (row ≡ none → (row_of_id id t.0.rows ≡ row_of_id id s.0.rows) × (t.1 id ≡ s.1 id))
          → ((r : Row)
              → row ≡ some r
              → (row_of_id id t.0.rows ≡ moved_row x ipv6_lookup (some r))
                × (t.1 id ≡ moved_entry x ipv6_lookup (some r) (s.1 id)))
          → (row_of_id id t.0.rows ≡ moved_row x ipv6_lookup row)
            × (t.1 id ≡ moved_entry x ipv6_lookup row (s.1 id))
      by_row t id none e old new = ((old refl).0 ∙ e, (old refl).1)
      by_row t id (some r) e old new = new r refl
