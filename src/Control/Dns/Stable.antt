-- ===== src/Control/Dns/Stable.antt =====
-- The answers of dns-server/src/handler.rs over the lifetime of the database.
use prototype_net.Base.{
  ℕ, ◌≡◌, refl, sym, ap, subst, ◌∙◌, [], ◌∷◌, ◌++◌, some, Option-cases, inl, inr,
}
use prototype_net.Control.Text.{Text, Addr, Texts}
use prototype_net.Control.Database.{Db, row_of_domain, find_by_domain, pg_pool}
use prototype_net.Control.Database.Steps.{Steps, IsMapped, mapping_persists}
use prototype_net.Control.Dns.{Response, Answer, Hickory, no_error, unwrap_or}
use prototype_net.Control.Dns.Handle.{handle_aaaa, domain_str, answer_with, cache_hit}
use prototype_net.Control.Dns.Answered.{handle_aaaa-Answered}

-- A domain that is mapped is answered with the address of its mapping.
IsMapped-answered :
    (x : Texts) (h : Hickory) (name : Text) (response : Response) (db : Db) (id : ℕ)
    (synthetic address : Addr)
    → IsMapped db (domain_str h name) id synthetic
    → x.parse (x.host synthetic) ≡ some address
    → (ttl : ℕ) × (handle_aaaa (pg_pool x) x h name response db ≡ (
      some (record response {
        response_code = no_error;
        answers = response.answers ++ (record { name = name; ttl = ttl; address = address } ∷ []);
      }),
      db,
    ))
unfolding handle_aaaa pg_pool find_by_domain answer_with cache_hit
IsMapped-answered x h name response db id synthetic address m readable =
    elim (Option-cases (row_of_domain (domain_str h name) db.rows)) [
      | inl gone ↦ absurd (cc (m, gone))
      | inr (row, here) ↦
          let same : row.synthetic_ipv6 ≡ synthetic = cc (m, here) in
          (
            unwrap_or 300 row.ttl_seconds,
            rw (here, ap (λ (t : Addr). x.parse (x.host t)) same ∙ readable) refl,
          )
    ]

-- An AAAA query that was answered with an address is answered with the same address ever after,
-- without a change of the database: whatever statements ran in between and whatever upstream
-- says by then, for every name with the same key.
pub answer_is_stable :
    (x : Texts) (h h' : Hickory) (name name' : Text) (response response' q : Response)
    (answer : Answer) (db later : Db)
    → response.answers ≡ []
    → (handle_aaaa (pg_pool x) x h name response db).0 ≡ some q
    → q.answers ≡ answer ∷ []
    → Steps x (handle_aaaa (pg_pool x) x h name response db).1 later
    → domain_str h' name' ≡ domain_str h name
    → (ttl : ℕ) × (handle_aaaa (pg_pool x) x h' name' response' later ≡ (
      some (record response' {
        response_code = no_error;
        answers =
            response'.answers
            ++ (record { name = name'; ttl = ttl; address = answer.address } ∷ []);
      }),
      later,
    ))
answer_is_stable x h h' name name' response response' q answer db later none_before e one run key =
    let now = handle_aaaa-Answered x h name response q answer db none_before one e in
    IsMapped-answered x h' name' response' later now.0 now.1 answer.address
      (subst (λ (d : Text). IsMapped later d now.0 now.1) (sym key)
        (mapping_persists x _ later (domain_str h name) now.0 now.1 run now.2))
      now.3
