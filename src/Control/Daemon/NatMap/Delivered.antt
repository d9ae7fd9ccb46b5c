-- ===== src/Control/Daemon/NatMap/Delivered.antt =====
-- What one notification does to NAT_MAP, in daemon/src/db.rs.
use prototype_net.Base.{
  ℕ, arith, ◌≡◌, ◌≢◌, refl, sym, ap, ◌∙◌, subst, inl, inr, ◌==◌, ==_iff, Bool-cases, length, Option,
  none, some, Option-cases,
}
use mathlib.Core.Option.{some-injective}
use prototype_net.Control.Run.{proceed}
use prototype_net.Control.Text.{Addr, Texts, IsTexts}
use prototype_net.Control.Database.{Row, Db, row_of_id}
use prototype_net.Control.Daemon.NatMap.{
  NatMap, BpfHash, HasRoom, entry, update_from_row, insert_nat_entry,
}

module _ (b : BpfHash) (room : HasRoom b) (x : Texts) (w : IsTexts x) where
  pub insert_nat_entry_lem :
      (k : ℕ) (o : Addr) (m : NatMap)
      → ((insert_nat_entry b k o m).1 k ≡ some (entry b o))
        × ((j : ℕ) → j ≢ k → (insert_nat_entry b k o m).1 j ≡ m j)
  unfolding insert_nat_entry
  insert_nat_entry_lem k o m =
      let i = room.insert_in m k (entry b o) in (rw (i.1) (i.2), rw (i.1) (i.3))

  -- The text of an origin is read back.
  origin_read :
      (r r' : Row)
      → some r' ≡ some r
      → length r.origin_ipv6 ≡ 16
      → x.parse (x.host r'.origin_ipv6) ≡ some r.origin_ipv6
  origin_read r r' h sized =
      ap (λ (y : Row). x.parse (x.host y.origin_ipv6)) (some-injective r' r h)
      ∙ w.parse-host r.origin_ipv6 sized

  -- A notification for an id puts the row's origin in the map.
  pub row_delivered :
      (id : ℕ) (r : Row) (row : Option Row) (m : NatMap)
      → row ≡ some r
      → length r.origin_ipv6 ≡ 16
      → (update_from_row b x id row m).1 id ≡ some (entry b r.origin_ipv6)
  unfolding update_from_row
  row_delivered id r none m h sized = absurd (cc)
  row_delivered id r (some r') m h sized =
      rw (origin_read r r' h sized) (insert_nat_entry_lem id r.origin_ipv6 m).0

  -- A notification for another id leaves an entry as it is.
  row_elsewhere :
      (id k : ℕ) (row : Option Row) (m : NatMap)
      → id ≢ k
      → (update_from_row b x k row m).1 id ≡ m id
  unfolding update_from_row
  row_elsewhere id k none m other = refl
  row_elsewhere id k (some r) m other = elim (Option-cases (x.parse (x.host r.origin_ipv6))) [
    | inl bad ↦ rw bad refl
    | inr (o, good) ↦ rw good ((insert_nat_entry_lem k o m).1 id other)
  ]

  pub payload_kept :
      (id : ℕ) (r : Row) (number : Option ℕ) (db : Db) (m : NatMap)
      → row_of_id id db.rows ≡ some r
      → length r.origin_ipv6 ≡ 16
      → m id ≡ some (entry b r.origin_ipv6)
      → (proceed number (λ k. update_from_row b x k (row_of_id k db.rows)) m).1 id
        ≡ some (entry b r.origin_ipv6)
  payload_kept id r none db m h sized right = right
  payload_kept id r (some k) db m h sized right = elim (Bool-cases (k == id)) [
    | inl same ↦ row_delivered' k ((==_iff k id).0 same)
    | inr differs ↦ row_elsewhere id k (row_of_id k db.rows) m (λ e. ground arith) ∙ right
  ]
    where
      row_delivered' :
          (j : ℕ)
          → j ≡ id
          → (update_from_row b x j (row_of_id j db.rows) m).1 id ≡ some (entry b r.origin_ipv6)
      row_delivered' j e =
          subst
            (λ i.
              (update_from_row b x i (row_of_id i db.rows) m).1 id ≡ some (entry b r.origin_ipv6))
            (sym e) (row_delivered id r (row_of_id id db.rows) m h sized)
