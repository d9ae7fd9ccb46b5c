-- ===== src/Control/Dns/Receive.antt =====
-- What every datagram gets from dns-server/src/main.rs.
use prototype_net.Base.{ℕ, zero, suc, ◌≡◌, refl, ◌⊎◌, inl, inr, List, some, Option-cases}
use prototype_net.Control.Text.{Texts}
use prototype_net.Control.Database.{DbOps}
use prototype_net.Control.Dns.{Request, Response, Hickory, no_error, serv_fail, response_to}
use prototype_net.Control.Dns.Handle.{
  answer_queries, handle_query, servfail, servfail_to, reply, receive,
}

-- A datagram that is a DNS query is answered, whether there is a permit or not and whatever the
-- database and upstream do: with SERVFAIL, or with what the handler made of the query, and in
-- each case by the encoding of a response. It is assumed that every response can be encoded, and
-- that the timeout does not run out.
pub always_answered :
    {S : Type 0} (ops : DbOps S) (x : Texts) (h : Hickory) (permits : ℕ) (packet : List ℕ)
    (request : Request) (s : S)
    → h.from_vec packet ≡ some request
    → ((r : Response) → (bytes : List ℕ) × (h.to_vec r ≡ some bytes))
    → (r : Response) × (bytes : List ℕ) × (h.to_vec r ≡ some bytes)
      × ((receive ops x h permits packet s).0 ≡ some bytes)
      × ((r ≡ response_to request serv_fail)
          ⊎ ((answer_queries ops x h request.queries (response_to request no_error) s).0 ≡ some r))
unfolding receive servfail servfail_to handle_query reply
always_answered ops x h zero packet request s parsed encodes =
    let r = response_to request serv_fail in
    let e = encodes r in (r, e.0, e.1, rw parsed e.1, inl refl)
always_answered ops x h (suc permits) packet request s parsed encodes =
    elim (Option-cases
      (answer_queries ops x h request.queries (response_to request no_error) s).0) [
        | inl bad ↦
            let r = response_to request serv_fail in
            let e = encodes r in (r, e.0, e.1, rw (parsed, bad) (rw parsed e.1), inl refl)
        | inr (r, good) ↦ let e = encodes r in (r, e.0, e.1, rw (parsed, good, e.1) refl, inr good)
      ]
