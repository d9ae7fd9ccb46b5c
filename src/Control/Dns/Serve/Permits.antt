-- ===== src/Control/Dns/Serve/Permits.antt =====
-- Permits and warnings of the receive loop of dns-server/src/main.rs.
use prototype_net.Base.{
  ℕ, zero, suc, ◌+◌, ◌/◌, ◌≤◌, ◌<◌, ◌^◌, ◌≡◌, refl, ap, ◌∙◌, List, [], ◌∷◌, ◌++◌, length,
  length-append, Option, none, some, arith,
}
use prototype_net.Control.Text.{Texts}
use prototype_net.Control.Database.{DbOps}
use prototype_net.Control.Dns.{Hickory}
use prototype_net.Control.Dns.Handle.{servfail}
use prototype_net.Control.Dns.Serve.{
  Datagram, Server, start, send, count_drop, receive_from, on_datagram, ending_reply, on_end,
  Serves, idle, arrival, ended,
}

-- Free permits and tasks.
abbrev used : Server → ℕ
used s = s.permits + length s.in_flight

send-used : (peer : ℕ) (o : Option (List ℕ)) (s : Server) → used (send peer o s) ≡ used s
unfolding send
send-used peer none s = omega arith
send-used peer (some bytes) s = omega arith

length-split :
    (d : Datagram) (before after : List Datagram)
    → length (before ++ (d ∷ after)) ≡ length (before ++ after) + 1
length-split d before after =
    omega (arith, length-append before (d ∷ after), length-append before after)

send-in_flight :
    (peer : ℕ) (o : Option (List ℕ)) (s : Server)
    → length (send peer o s).in_flight ≡ length s.in_flight
unfolding send
send-in_flight peer none s = refl
send-in_flight peer (some bytes) s = refl

-- What a reply leaves alone.
send-IsWarned :
    (peer : ℕ) (o : Option (List ℕ)) (s : Server)
    → ((send peer o s).warnings ≡ s.warnings) × ((send peer o s).dropped ≡ s.dropped)
unfolding send
send-IsWarned peer none s = (refl, refl)
send-IsWarned peer (some bytes) s = (refl, refl)

abbrev IsWarned : Server → Type 0
IsWarned s = s.warnings ≡ (s.dropped + 99) / 100

count_drop-IsWarned :
    (s : Server)
    → s.dropped + 1 < 2 ^ 64
    → IsWarned s
    → IsWarned (count_drop s) × ((count_drop s).dropped ≡ s.dropped + 1)
unfolding count_drop
count_drop-IsWarned s small e = ground arith

module _ {S : Type 0} (ops : DbOps S) (x : Texts) (h : Hickory) where
  receive_from-used :
      (permits : ℕ) (d : Datagram) (s : Server)
      → s.permits ≡ permits
      → used (receive_from ops x h permits d s) ≡ used s
  unfolding receive_from count_drop
  receive_from-used zero d s e = send-used d.peer _ (count_drop s)
  receive_from-used (suc permits) d s e = omega (arith, length-append s.in_flight (d ∷ []))

  total :
      (max : ℕ) (ds : List Datagram) (t : Server) → Serves ops x h (start max) ds t → used t ≡ max
  unfolding on_datagram on_end
  total max ds t idle = omega arith
  total max ds t (arrival {s = s} d run) = receive_from-used s.permits d s refl ∙ total max _ s run
  total max ds t (ended {s = s} d before after ending run here can) = omega (
    arith,
    send-used d.peer (ending_reply ops x h d ending) s,
    total max ds s run,
    send-in_flight d.peer (ending_reply ops x h d ending) s,
    ap length here,
    length-split d before after,
  )

  -- Free permits and running tasks together are always the configured maximum, so no more tasks
  -- than that run at a time.
  pub permits_bound :
      (max : ℕ) (ds : List Datagram) (t : Server)
      → Serves ops x h (start max) ds t
      → (t.permits + length t.in_flight ≡ max) × (length t.in_flight ≤ max)
  permits_bound max ds t run = omega (arith, total max ds t run)

  receive_from-IsWarned :
      (permits : ℕ) (d : Datagram) (s : Server)
      → s.dropped + 1 < 2 ^ 64
      → IsWarned s
      → IsWarned (receive_from ops x h permits d s)
        × ((receive_from ops x h permits d s).dropped ≤ s.dropped + 1)
  unfolding receive_from
  receive_from-IsWarned zero d s small e =
      let c = count_drop-IsWarned s small e in
      let o = servfail ops x h d.bytes in
      let k = send-IsWarned d.peer o (count_drop s) in omega (arith, c, k)
  receive_from-IsWarned (suc permits) d s small e = (e, omega arith)

  warned :
      (max : ℕ) (ds : List Datagram) (t : Server)
      → Serves ops x h (start max) ds t
      → length ds < 2 ^ 64
      → IsWarned t × (t.dropped ≤ length ds)
  unfolding on_datagram on_end
  warned max ds t idle small = omega arith
  warned max ds t (arrival {ds = before} {s = s} d run) small =
      let ih = warned max before s run (omega arith) in
      let now = receive_from-IsWarned s.permits d s (omega arith) ih.0 in (now.0, omega arith)
  warned max ds t (ended {s = s} d before after ending run here can) small =
      let ih = warned max ds s run small in
      let k = send-IsWarned d.peer (ending_reply ops x h d ending) s in omega (arith, ih, k)

  -- After fewer than 2 ^ 64 datagrams there is one warning for each hundred dropped queries that
  -- were begun: 0 for none, 1 for 1 to 100, and so on.
  pub warnings_rate :
      (max : ℕ) (ds : List Datagram) (t : Server)
      → Serves ops x h (start max) ds t
      → length ds < 2 ^ 64
      → t.warnings ≡ (t.dropped + 99) / 100
  warnings_rate max ds t run small = (warned max ds t run small).0
