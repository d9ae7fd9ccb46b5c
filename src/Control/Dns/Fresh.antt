-- ===== src/Control/Dns/Fresh.antt =====
-- The first AAAA query for a domain, in dns-server/src/handler.rs.
use prototype_net.Base.{
  ℕ, arith, ◌+◌, ◌<◌, ◌^◌, ◌≡◌, refl, length, lt→ltb, false, [], ◌∷◌, ◌++◌, none, some,
}
use prototype_net.Word.{u32}
use prototype_net.Common.Address.{synthetic_ipv6, domain_id_from_ipv6}
use prototype_net.Common.Address.Layout.{domain_id-synthetic}
use prototype_net.Control.Text.{Text, Addr, Texts, IsTexts}
use prototype_net.Control.Database.{
  Row, Db, row_of_domain, id_in_use, append_row, upsert, insert_inet, insert_domain, next_domain_id,
  find_by_domain, pg_pool,
}
use prototype_net.Control.Dns.{Response, Hickory, lookup_aaaa}
use prototype_net.Control.Dns.Handle.{
  handle_aaaa, domain_str, with_answer, answer_with, cache_miss, new_mapping,
}

-- The row that is stored for a new domain.
abbrev pub new_row : Text → ℕ → Addr → Row
new_row domain id origin = record {
  domain_id = id;
  domain = domain;
  origin_ipv6 = origin;
  synthetic_ipv6 = synthetic_ipv6 id;
  ttl_seconds = some 300;
}

length-synthetic : (d : ℕ) → length (synthetic_ipv6 d) ≡ 16
unfolding synthetic_ipv6
length-synthetic d = refl

-- The first AAAA query for a domain that upstream resolves takes the next number of the sequence,
-- stores the domain with its origin under it, sends one notification for it, and is answered with
-- the synthetic address from which the packet programs read this number.
pub first_answer :
    (x : Texts) (w : IsTexts x) (h : Hickory) (name : Text) (response : Response) (db : Db)
    (origin : Addr)
    → row_of_domain (domain_str h name) db.rows ≡ none
    → lookup_aaaa (h.ipv6_lookup (domain_str h name)) ≡ some (some origin)
    → length origin ≡ 16
    → db.sequence < 2 ^ 63
    → id_in_use (u32 db.sequence) db.rows ≡ false
    → (handle_aaaa (pg_pool x) x h name response db ≡ (
      some (with_answer (pg_pool x) x h name 300 response (synthetic_ipv6 (u32 db.sequence))),
      record {
        rows = db.rows ++ (new_row (domain_str h name) (u32 db.sequence) origin ∷ []);
        sequence = db.sequence + 1;
        notified = db.notified ++ (x.int_text (u32 db.sequence) ∷ []);
      },
    ))
      × (domain_id_from_ipv6 (synthetic_ipv6 (u32 db.sequence)) ≡ u32 db.sequence)
unfolding handle_aaaa answer_with cache_miss new_mapping pg_pool find_by_domain next_domain_id
    insert_domain insert_inet upsert append_row
first_answer x w h name response db origin unknown upstream sized room free = (
  rw
      (
        unknown,
        upstream,
        lt→ltb db.sequence (2 ^ 63) room,
        w.cast-print origin sized,
        w.cast-print (synthetic_ipv6 (u32 db.sequence)) (length-synthetic (u32 db.sequence)),
        unknown,
        free,
        w.parse-host (synthetic_ipv6 (u32 db.sequence)) (length-synthetic (u32 db.sequence)),
      )
      refl,
  (domain_id-synthetic (u32 db.sequence) (omega arith)).1,
)
