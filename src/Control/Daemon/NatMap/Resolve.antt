-- ===== src/Control/Daemon/NatMap/Resolve.antt =====
-- Re-resolution as a whole: `resolve_all` of daemon/src/resolver.rs.
use prototype_net.Base.{
  ◌≡◌, refl, Bool-cases, inl, inr, List, [], ◌∷◌, length, Option, none, some, Option-cases,
  eq_bytes,
}
use prototype_net.Control.Run.{proceed}
use prototype_net.Control.Text.{Text, Addr, Texts}
use prototype_net.Control.Database.{Row, Db, update_origin}
use prototype_net.Control.Database.Steps.{updated}
use prototype_net.Control.Dns.{Lookup, resolved, failed}
use prototype_net.Control.Daemon.NatMap.{
  NatMap, BpfHash, write_origin, resolve_row, resolve_rows, resolve_all,
}
use prototype_net.Control.Daemon.NatMap.Sync.{
  System, Moves, still, statement, notification, resolver_updated, resolver_mapped,
}

-- Upstream gives IPv6 addresses.
abbrev pub GivesAddresses : (Text → Lookup) → Type 0
GivesAddresses ipv6_lookup =
    (name : Text) (new_ip : Addr) (ips : List Addr)
    → ipv6_lookup name ≡ resolved (new_ip ∷ ips)
    → length new_ip ≡ 16

module _ (b : BpfHash) (x : Texts) where
  trans : {s t u : System} → Moves b x s t → Moves b x t u → Moves b x s u
  trans still run = run
  trans (statement one calm more) run = statement one calm (trans more run)
  trans (notification payload queue head more) run =
      notification payload queue head (trans more run)
  trans (resolver_updated id new_ip idle sized more) run =
      resolver_updated id new_ip idle sized (trans more run)
  trans (resolver_mapped id new_ip next more) run = resolver_mapped id new_ip next (trans more run)

  -- Between two rows the resolver has nothing to write.
  abbrev idle : Db × NatMap → System
  idle s = record { db = s.0; nat = s.1; pending = none }

  write_origin-Moves :
      (r : Row) (new_ip : Addr) (s : Db × NatMap)
      → length new_ip ≡ 16
      → Moves b x (idle s) (idle (write_origin b x r new_ip s).1)
  unfolding write_origin
  write_origin-Moves r new_ip s sized =
      elim (Bool-cases (eq_bytes (x.print new_ip) (x.host r.origin_ipv6))) [
        | inl same ↦ rw same still
        | inr changed ↦
            rw changed (elim (Option-cases (update_origin x r.domain_id (x.print new_ip) s.0).0) [
              | inl refused ↦ rw refused (statement (updated r.domain_id (x.print new_ip)) tt still)
              | inr (done, e) ↦ rw e (
                  resolver_updated r.domain_id new_ip refl sized
                    (resolver_mapped r.domain_id new_ip refl still))
            ])
      ]

  resolve_row-Moves :
      (r : Row) (found : Lookup) (s : Db × NatMap)
      → ((new_ip : Addr) (ips : List Addr) → found ≡ resolved (new_ip ∷ ips) → length new_ip ≡ 16)
      → Moves b x (idle s) (idle (resolve_row b x r found s).1)
  unfolding resolve_row
  resolve_row-Moves r (resolved []) s sized = still
  resolve_row-Moves r (resolved (new_ip ∷ ips)) s sized =
      write_origin-Moves r new_ip s (sized new_ip ips refl)
  resolve_row-Moves r (failed no_records) s sized = still

  resolve_rows-Moves :
      (ipv6_lookup : Text → Lookup) (rows : List Row) (s : Db × NatMap)
      → GivesAddresses ipv6_lookup
      → Moves b x (idle s) (idle (resolve_rows b x ipv6_lookup rows s).1)
  unfolding resolve_rows
  resolve_rows-Moves ipv6_lookup [] s sized = still
  resolve_rows-Moves ipv6_lookup (r ∷ rows) s sized =
      trans (resolve_row-Moves r (ipv6_lookup r.domain) s (sized r.domain)) (
        others (λ t. resolve_rows-Moves ipv6_lookup rows t sized)
          (resolve_row b x r (ipv6_lookup r.domain) s).0
          (resolve_row b x r (ipv6_lookup r.domain) s).1)
    where
      others :
          ((t : Db × NatMap) → Moves b x (idle t) (idle (resolve_rows b x ipv6_lookup rows t).1))
          → (o : Option (Unit {0})) (s : Db × NatMap)
          → Moves b x
              (idle s)
              (idle (proceed o (λ row_done. resolve_rows b x ipv6_lookup rows) s).1)
      others later none s = still
      others later (some row_done) s = later s

  -- Re-resolution, as the code runs it over all rows and whether it ends with an error or not, is a
  -- run of the system, with nothing pending at its end.
  resolve_all-Moves :
      (ipv6_lookup : Text → Lookup) (s : Db × NatMap)
      → GivesAddresses ipv6_lookup
      → Moves b x (idle s) (idle (resolve_all b x ipv6_lookup s).1)
  unfolding resolve_all
  resolve_all-Moves ipv6_lookup s sized = resolve_rows-Moves ipv6_lookup s.0.rows s sized
