-- ===== src/Control/Dns/Serve.antt =====
-- The receive loop of dns-server/src/main.rs: permits, tasks in flight, timeouts and replies, as
-- steps in any order.
pub mod Permits
pub mod Replies
use prototype_net.Base.{
  ℕ, zero, suc, ◌+◌, ◌-◌, ◌*◌, ◌/◌, ◌%◌, ◌^◌, ◌==◌, ◌≡◌, Bool, true, false, if◌then◌else◌, List, [],
  ◌∷◌, ◌++◌, length, Option, none, some,
}
use prototype_net.Word.{u64}
use prototype_net.Control.Text.{Texts}
use prototype_net.Control.Database.{DbOps}
use prototype_net.Control.Dns.{Hickory}
use prototype_net.Control.Dns.Handle.{handle_query, servfail, reply}

abbrev pub default_max_concurrent_queries : ℕ
default_max_concurrent_queries = 256

abbrev pub saturation_log_interval : ℕ
saturation_log_interval = 100

-- A datagram, or a reply, with the address that it came from or goes to.
pub record Datagram : Type 0 where
  pub peer : ℕ
  pub bytes : List ℕ

-- The semaphore's free permits, the counter of dropped queries, the warnings about it, the tasks
-- that hold a permit, and what was passed to `send_to`.
pub record Server : Type 0 where
  pub permits : ℕ
  pub dropped : ℕ
  pub warnings : ℕ
  pub in_flight : List Datagram
  pub sent : List Datagram

abbrev pub start : ℕ → Server
start max_concurrent = record {
  permits = max_concurrent;
  dropped = 0;
  warnings = 0;
  in_flight = [];
  sent = [];
}

-- `if let Some(pkt) = ... { socket.send_to(&pkt, src) }`
unfoldable pub send : ℕ → Option (List ℕ) → Server → Server
send peer none s = s
send peer (some bytes) s = record s {
  sent = s.sent ++ (record { peer = peer; bytes = bytes } ∷ []);
}

-- The counter and its rate-limited warning.
unfoldable pub count_drop : Server → Server
count_drop s =
    let n = u64 (s.dropped + 1) in
    record s {
      dropped = n;
      warnings = if n % saturation_log_interval == 1 then s.warnings + 1 else s.warnings;
    }

-- How a task ends: its handler returned, or the timeout ran out first.
pub data Ending : Type 0 where
  handled : Option (List ℕ) → Ending
  elapsed : Ending

module _ {S : Type 0} (ops : DbOps S) (x : Texts) (h : Hickory) where
  -- `recv_from` returned a datagram.
  unfoldable pub receive_from : ℕ → Datagram → Server → Server
  unfolding send count_drop
  receive_from zero d s = send d.peer (servfail ops x h d.bytes) (count_drop s)
  receive_from (suc permits) d s = record s {
    permits = permits;
    in_flight = s.in_flight ++ (d ∷ []);
  }

  unfoldable pub on_datagram : Datagram → Server → Server
  unfolding receive_from
  on_datagram d s = receive_from s.permits d s

  -- What a task sends at its end.
  unfoldable pub ending_reply : Datagram → Ending → Option (List ℕ)
  unfolding reply
  ending_reply d (handled response) = reply ops x h d.bytes response
  ending_reply d elapsed = servfail ops x h d.bytes

  -- The end of a task that stands between others: its permit is released.
  unfoldable pub on_end : Datagram → List Datagram → Ending → Server → Server
  unfolding send ending_reply
  on_end d others ending s =
      let s = send d.peer (ending_reply d ending) s in
      record s { permits = s.permits + 1; in_flight = others }

  -- A handler that returned did so on some state of the database; its statements may have run
  -- between those of others.
  pub data CanEnd (d : Datagram) : Ending → Type 0 where
    returned : (db : S) → CanEnd d (handled (handle_query ops x h d.bytes db).0)
    timed_out : CanEnd d elapsed

  -- Runs of the loop with the datagrams that arrived, the last one first.
  pub data Serves (start : Server) : List Datagram → Server → Type 0 where
    idle : Serves start [] start
    arrival :
        {ds : List Datagram} {s : Server} (d : Datagram)
        → Serves start ds s
        → Serves start (d ∷ ds) (on_datagram d s)
    ended :
        {ds : List Datagram} {s : Server} (d : Datagram) (before after : List Datagram)
        (ending : Ending)
        → Serves start ds s
        → s.in_flight ≡ before ++ (d ∷ after)
        → CanEnd d ending
        → Serves start ds (on_end d (before ++ after) ending s)
