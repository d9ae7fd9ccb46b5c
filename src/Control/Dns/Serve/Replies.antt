-- ===== src/Control/Dns/Serve/Replies.antt =====
-- Every query that reaches dns-server/src/main.rs gets one reply.
use prototype_net.Base.{
  ℕ, zero, suc, ◌+◌, ◌==◌, ◌&&◌, ◌≡◌, refl, ap, sym, ◌∙◌, Bool, true, false, if◌then◌else◌, List,
  [], ◌∷◌, ◌++◌, Option, none, some, Option-cases, inl, inr, arith,
}
use prototype_net.Control.Text.{Texts}
use prototype_net.Control.Database.{DbOps}
use prototype_net.Control.Dns.{Hickory, Request, Response, serv_fail, response_to}
use prototype_net.Control.Dns.Handle.{servfail, servfail_to, reply, handle_query}
use prototype_net.Control.Dns.Serve.{
  Datagram, Server, start, send, count_drop, Ending, handled, elapsed, receive_from, on_datagram,
  ending_reply, on_end, CanEnd, returned, timed_out, Serves, idle, arrival, ended,
}

abbrev is_some {ℓ} : {A : Type ℓ} → Option A → Bool
is_some none = false
is_some (some a) = true

abbrev one_if : Bool → ℕ
one_if b = if b then 1 else 0

module _ (p : Datagram → Bool) where
  -- How many datagrams have a property.
  abbrev pub count : List Datagram → ℕ
  count [] = 0
  count (d ∷ ds) = one_if (p d) + count ds

  count-append : (xs ys : List Datagram) → count (xs ++ ys) ≡ count xs + count ys
  count-append [] ys = omega arith
  count-append (d ∷ xs) ys = omega (arith, count-append xs ys)

-- Datagrams from or to a peer.
abbrev pub of_peer : ℕ → Datagram → Bool
of_peer peer d = d.peer == peer

-- Datagrams from a peer that are DNS queries.
abbrev pub queries_of : Hickory → ℕ → Datagram → Bool
queries_of h peer d = (d.peer == peer) && is_some (h.from_vec d.bytes)

send-count :
    (peer to : ℕ) (o : Option (List ℕ)) (s : Server)
    → count (of_peer peer) (send to o s).sent
      ≡ count (of_peer peer) s.sent + one_if ((to == peer) && is_some o)
unfolding send
send-count peer to none s = ground arith
send-count peer to (some bytes) s =
    count-append (of_peer peer) s.sent (record { peer = to; bytes = bytes } ∷ []) ∙ ground arith

send-in_flight : (to : ℕ) (o : Option (List ℕ)) (s : Server) → (send to o s).in_flight ≡ s.in_flight
unfolding send
send-in_flight to none s = refl
send-in_flight to (some bytes) s = refl

module _ {S : Type 0} (ops : DbOps S) (x : Texts) (h : Hickory)
    (encodes : (r : Response) → (bytes : List ℕ) × (h.to_vec r ≡ some bytes)) where
  servfail-is_some :
      (packet : List ℕ) → is_some (servfail ops x h packet) ≡ is_some (h.from_vec packet)
  unfolding servfail
  servfail-is_some packet = by_request (h.from_vec packet)
    where
      by_request : (o : Option Request) → is_some (servfail_to ops x h o) ≡ is_some o
      by_request none = refl
      by_request (some request) = ap is_some (encodes (response_to request serv_fail)).1

  -- Only what parses as a query is handled.
  unparsed :
      (packet : List ℕ) (db : S)
      → h.from_vec packet ≡ none
      → (handle_query ops x h packet db).0 ≡ none
  unfolding handle_query
  unparsed packet db e = rw e refl

  handled-is_some :
      (packet bytes : List ℕ) (db : S)
      → (handle_query ops x h packet db).0 ≡ some bytes
      → is_some (h.from_vec packet) ≡ true
  handled-is_some packet bytes db e = elim (Option-cases (h.from_vec packet)) [
    | inl bad ↦ absurd (cc (unparsed packet db bad))
    | inr (request, good) ↦ ap is_some good
  ]

  result-is_some :
      (packet : List ℕ) (r : Option (List ℕ)) (db : S)
      → (handle_query ops x h packet db).0 ≡ r
      → is_some (reply ops x h packet r) ≡ is_some (h.from_vec packet)
  unfolding reply
  result-is_some packet none db e = servfail-is_some packet
  result-is_some packet (some bytes) db e = sym (handled-is_some packet bytes db e)

  -- A task sends a reply exactly for a query.
  ending-is_some :
      (d : Datagram) (ending : Ending)
      → CanEnd ops x h d ending
      → is_some (ending_reply ops x h d ending) ≡ is_some (h.from_vec d.bytes)
  unfolding ending_reply
  ending-is_some d (handled r) (returned db) =
      result-is_some d.bytes (handle_query ops x h d.bytes db).0 db refl
  ending-is_some d elapsed timed_out = servfail-is_some d.bytes

  -- Replies to a peer, and queries of it that are being handled.
  balance : ℕ → Server → ℕ
  balance peer s = count (of_peer peer) s.sent + count (queries_of h peer) s.in_flight

  send-balance :
      (peer to : ℕ) (o : Option (List ℕ)) (s : Server)
      → balance peer (send to o s) ≡ one_if ((to == peer) && is_some o) + balance peer s
  unfolding balance
  send-balance peer to o s =
      omega (arith, send-count peer to o s, ap (count (queries_of h peer)) (send-in_flight to o s))

  receive_from-balance :
      (peer permits : ℕ) (d : Datagram) (s : Server)
      → balance peer (receive_from ops x h permits d s)
        ≡ one_if (queries_of h peer d) + balance peer s
  unfolding receive_from count_drop balance
  receive_from-balance peer zero d s =
      send-balance peer d.peer (servfail ops x h d.bytes) (count_drop s)
      ∙ ap (λ b. one_if ((d.peer == peer) && b) + balance peer s) (servfail-is_some d.bytes)
  receive_from-balance peer (suc permits) d s =
      omega (arith, count-append (queries_of h peer) s.in_flight (d ∷ []))

  -- If every response can be encoded, then at any point of the receive loop, for each peer, the
  -- replies sent to it and its parsable queries in flight are together as many as the datagrams of it
  -- that parse as queries. Datagrams that do not parse are not counted.
  pub answered_once :
      (max peer : ℕ) (ds : List Datagram) (t : Server)
      → Serves ops x h (start max) ds t
      → count (of_peer peer) t.sent + count (queries_of h peer) t.in_flight
        ≡ count (queries_of h peer) ds
  unfolding on_datagram on_end balance
  answered_once max peer ds t idle = omega arith
  answered_once max peer ds t (arrival {ds = earlier} {s = s} d run) =
      receive_from-balance peer s.permits d s
      ∙ ap (λ n. one_if (queries_of h peer d) + n) (answered_once max peer earlier s run)
  answered_once max peer ds t (ended {s = s} d before after ending run here can) =
      let o = ending_reply ops x h d ending in
      omega (
        arith,
        send-count peer d.peer o s,
        ap (λ b. one_if ((d.peer == peer) && b)) (ending-is_some d ending can),
        answered_once max peer ds s run,
        ap (count (queries_of h peer)) here,
        count-append (queries_of h peer) before (d ∷ after),
        count-append (queries_of h peer) before after,
      )
