-- ===== src/Control/Dns/Handle.antt =====
-- The handler of dns-server/src/handler.rs, on any implementation of `DbOps`, and what
-- dns-server/src/main.rs does with a datagram.
use prototype_net.Base.{ℕ, zero, suc, List, [], ◌∷◌, map, Option, none, some}
use prototype_net.Common.Address.{synthetic_ipv6}
use prototype_net.Control.Run.{Run, done, lift, ◌>>=◌}
use prototype_net.Control.Text.{Text, Addr, Texts}
use prototype_net.Control.Database.{DomainRow, DbOps}
use prototype_net.Control.Dns.{
  RecordType, aaaa, a, other_type, form_err, no_error, serv_fail, nx_domain, Query, Request,
  Response, Hickory, trim_dots, lowercase, lookup_aaaa, response_to, unwrap_or, add_answer,
}

-- The key of the database: `name.to_ascii().trim_end_matches('.').to_lowercase()`.
unfoldable pub domain_str : Hickory → Text → Text
unfolding trim_dots
domain_str h name = map lowercase (trim_dots (h.to_ascii name))

module _ {S : Type 0} (ops : DbOps S) (x : Texts) (h : Hickory) where
  abbrev pub with_answer : Text → ℕ → Response → Addr → Response
  with_answer name ttl response address =
      add_answer (record { name = name; ttl = ttl; address = address }) response

  -- 1. A mapping in the database.
  unfoldable pub cache_hit : Text → Response → DomainRow → Run S Response
  unfolding unwrap_or
  cache_hit name response row = do
    synthetic ← lift (x.parse row.synthetic_ipv6)
    done (with_answer name (unwrap_or 300 row.ttl_seconds) response synthetic)

  -- 3. to 5. A new mapping, and the row that is stored in the end.
  unfoldable pub new_mapping : Text → Text → Response → Addr → Run S Response
  new_mapping name domain response origin_ipv6 = do
    domain_id ← ops.next_domain_id
    stored ←
        ops.insert_domain domain_id domain (x.print origin_ipv6)
          (x.print (synthetic_ipv6 domain_id)) 300
    synthetic ← lift (x.parse stored.1)
    done (with_answer name 300 response synthetic)

  -- 2. What upstream says.
  unfoldable pub cache_miss : Text → Text → Response → Option (Option Addr) → Run S Response
  unfolding new_mapping
  cache_miss name domain response none = done (record response { response_code = serv_fail })
  cache_miss name domain response (some none) = done (record response { response_code = nx_domain })
  cache_miss name domain response (some (some ip)) = new_mapping name domain response ip

  unfoldable pub answer_with : Text → Text → Response → Option DomainRow → Run S Response
  unfolding cache_hit cache_miss lookup_aaaa
  answer_with name domain response (some row) = cache_hit name response row
  answer_with name domain response none =
      cache_miss name domain response (lookup_aaaa (h.ipv6_lookup domain))

  unfoldable pub handle_aaaa : Text → Response → Run S Response
  unfolding answer_with
  handle_aaaa name response = do
    row ← ops.find_by_domain (domain_str h name)
    answer_with name (domain_str h name) response row

  -- The `match qtype`.
  unfoldable pub answer_type : RecordType → Text → Response → Run S Response
  unfolding handle_aaaa
  answer_type aaaa name response = handle_aaaa name response
  answer_type a name response = done (record response { response_code = no_error })
  answer_type (other_type n) name response = done (record response { response_code = no_error })

  unfoldable pub answer_queries : List Query → Response → Run S Response
  unfolding answer_type
  answer_queries [] response = done (record response { response_code = form_err })
  answer_queries (query ∷ queries) response = answer_type query.query_type query.name response

  unfoldable pub handle_query : List ℕ → Run S (List ℕ)
  unfolding answer_queries response_to
  handle_query packet = do
    request ← lift (h.from_vec packet)
    response ← answer_queries request.queries (response_to request no_error)
    lift (h.to_vec response)

  unfoldable pub servfail_to : Option Request → Option (List ℕ)
  unfolding response_to
  servfail_to none = none
  servfail_to (some request) = h.to_vec (response_to request serv_fail)

  unfoldable pub servfail : List ℕ → Option (List ℕ)
  unfolding servfail_to
  servfail packet = servfail_to (h.from_vec packet)

  -- The task that is spawned for a datagram, up to its timeout.
  unfoldable pub reply : List ℕ → Option (List ℕ) → Option (List ℕ)
  unfolding servfail
  reply packet (some response) = some response
  reply packet none = servfail packet

  -- A datagram in the receive loop, with the permits that are left.
  unfoldable pub receive : ℕ → List ℕ → Run S (List ℕ)
  unfolding reply handle_query servfail
  receive zero packet s = (servfail packet, s)
  receive (suc permits) packet s =
      (reply packet (handle_query packet s).0, (handle_query packet s).1)
