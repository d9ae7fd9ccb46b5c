-- ===== src/Tests/Serving.antt =====
-- The theorems about the receive loop and the listener on concrete inputs.
use prototype_net.Base.{ℕ, ◌+◌, ◌≤◌, ◌≡◌, refl, arith, [], ◌∷◌, ◌++◌, length, true, some}
use prototype_net.Word.{u32}
use prototype_net.Common.Address.{synthetic_ipv6}
use prototype_net.Control.Database.{row_of_domain, id_in_use, pg_pool}
use prototype_net.Control.Dns.{lookup_aaaa}
use prototype_net.Control.Dns.Fresh.{new_row}
use prototype_net.Control.Dns.Handle.{
  handle_aaaa, handle_query, servfail, servfail_to, domain_str, with_answer,
}
use prototype_net.Control.Dns.Serve.{
  Datagram, Server, start, receive_from, send, count_drop, on_datagram, on_end, handled, Serves,
  idle, arrival, ended, returned,
}
use prototype_net.Control.Dns.Serve.Permits.{permits_bound}
use prototype_net.Control.Dns.Serve.Replies.{count, of_peer, queries_of, answered_once}
use prototype_net.Control.Daemon.Listener.{Live, hear, bulk_loaded, listening, missed_while_deaf}
use prototype_net.Control.Daemon.Listener
use prototype_net.Tests.Fixtures.{origin_addr}
use prototype_net.Tests.Services.{
  test_texts, test_texts-IsTexts, upstream, empty_db, empty_response, name,
}
use prototype_net.Tests.Daemon.{test_hash, empty_map}

abbrev query_from : ℕ → Datagram
query_from peer = record { peer = peer; bytes = [] }

-- One permit: the second of two queries finds none, and then the first is answered.
abbrev two_arrived : Server
two_arrived =
    on_datagram (pg_pool test_texts) test_texts upstream (query_from 2)
      (on_datagram (pg_pool test_texts) test_texts upstream (query_from 1) (start 1))

abbrev one_ended : Server
one_ended =
    on_end (pg_pool test_texts) test_texts upstream (query_from 1) []
      (handled (handle_query (pg_pool test_texts) test_texts upstream [] empty_db).0) two_arrived

one_run :
    Serves
      (pg_pool test_texts)
      test_texts
      upstream
      (start 1)
      (query_from 2 ∷ query_from 1 ∷ [])
      one_ended
unfolding on_datagram receive_from send count_drop servfail servfail_to
one_run =
    ended (query_from 1) [] []
      (handled (handle_query (pg_pool test_texts) test_texts upstream [] empty_db).0)
      (arrival (query_from 2) (arrival (query_from 1) idle)) refl (returned empty_db)

permits_bound_example :
    (one_ended.permits + length one_ended.in_flight ≡ 1) × (length one_ended.in_flight ≤ 1)
permits_bound_example =
    permits_bound (pg_pool test_texts) test_texts upstream 1 (query_from 2 ∷ query_from 1 ∷ [])
      one_ended one_run

answered_once_example :
    count (of_peer 1) one_ended.sent + count (queries_of upstream 1) one_ended.in_flight
    ≡ count (queries_of upstream 1) (query_from 2 ∷ query_from 1 ∷ [])
answered_once_example =
    answered_once (pg_pool test_texts) test_texts upstream (λ r. (r.id ∷ [], refl)) 1 1
      (query_from 2 ∷ query_from 1 ∷ []) one_ended one_run

-- The daemon has loaded an empty table; then the domain is asked for, and the listener connects.
abbrev before : Live
before = bulk_loaded test_hash test_texts empty_db empty_map

abbrev asked : Live
asked = record before {
  db =
      hear before.connected
        (handle_aaaa (pg_pool test_texts) test_texts upstream name empty_response before.db).1;
}

abbrev connected : Live
connected = record asked { connected = true }

missed_while_deaf_example :
    ((handle_aaaa (pg_pool test_texts) test_texts upstream name empty_response before.db).0
      ≡ some (
          with_answer
            (pg_pool test_texts)
            test_texts
            upstream
            name
            300
            empty_response
            (synthetic_ipv6 (u32 before.db.sequence))))
    × (connected.db.rows
        ≡ before.db.rows
          ++ (new_row (domain_str upstream name) (u32 before.db.sequence) origin_addr ∷ []))
    × (connected.nat ≡ before.nat)
unfolding bulk_loaded hear row_of_domain id_in_use lookup_aaaa
missed_while_deaf_example =
    missed_while_deaf test_hash test_texts test_texts-IsTexts upstream name empty_response before
      connected origin_addr refl refl refl refl (omega arith) refl (listening refl Listener.rest)
