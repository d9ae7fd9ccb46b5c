-- ===== src/Control/Dns/Answered.antt =====
-- The answers of dns-server/src/handler.rs and the mapping behind each answer.
use prototype_net.Base.{ℕ, ◌≡◌, refl, sym, ap, subst, ◌∙◌, List, [], ◌∷◌, ◌++◌, Option, none, some}
use prototype_net.Common.Address.{synthetic_ipv6}
use prototype_net.Control.Run.{Run, done, lift, proceed, ◌>>=◌}
use prototype_net.Control.Text.{Text, Addr, Texts}
use prototype_net.Control.Database.{
  Row, Db, row_of_domain, insert_domain, to_domain_row?, find_by_domain, next_domain_id, pg_pool,
}
use prototype_net.Control.Database.Insert.{Stored, insert_domain-Stored}
use prototype_net.Control.Database.Steps.{IsMapped, identity}
use prototype_net.Control.Dns.{
  Response, Answer, Hickory, serv_fail, nx_domain, ResponseCode, unwrap_or, lookup_aaaa,
}
use prototype_net.Control.Dns.Handle.{
  handle_aaaa, with_answer, domain_str, answer_with, cache_hit, cache_miss, new_mapping,
}

-- What an answer of one AAAA record says about the database.
abbrev pub Answered : Texts → Text → Answer → Db → Type 0
Answered x domain answer db =
    (id : ℕ) × (synthetic : Addr) × IsMapped db domain id synthetic
    × (x.parse (x.host synthetic) ≡ some answer.address)

first_address : List Answer → Option Addr
first_address [] = none
first_address (r ∷ rs) = some r.address

response_address : Option Response → Option Addr
unfolding first_address
response_address none = none
response_address (some q) = first_address q.answers

-- A response that got a response code only has no answer.
unanswered :
    (response q : Response) (answer : Answer) (code : ResponseCode)
    → response.answers ≡ []
    → q.answers ≡ answer ∷ []
    → some (record response { response_code = code }) ≡ some q
    → none ≡ some answer.address
unfolding first_address response_address
unanswered response q answer code none_before one e =
    ap first_address (sym none_before) ∙ ap response_address e ∙ ap first_address one

-- The last step of `cache_hit` and of `new_mapping`.
respond_lem :
    (x : Texts) (h : Hickory) (name : Text) (ttl : ℕ) (response q : Response) (answer : Answer)
    (t : Option Addr) (db : Db)
    → response.answers ≡ []
    → q.answers ≡ answer ∷ []
    → (proceed t (λ a. done (with_answer (pg_pool x) x h name ttl response a)) db).0 ≡ some q
    → (t ≡ some answer.address)
      × ((proceed t (λ a. done (with_answer (pg_pool x) x h name ttl response a)) db).1 ≡ db)
unfolding first_address response_address
respond_lem x h name ttl response q answer none db none_before one e = absurd (cc)
respond_lem x h name ttl response q answer (some t) db none_before one e = (
  ap
        (λ (l : List Answer).
          first_address (l ++ (record { name = name; ttl = ttl; address = t } ∷ [])))
        (sym none_before)
      ∙ ap response_address e
      ∙ ap first_address one,
  refl,
)

Stored-Answered :
    (x : Texts) (h : Hickory) (name domain : Text) (response q : Response) (answer : Answer)
    (stored : Option (ℕ × Text)) (db : Db)
    → response.answers ≡ []
    → q.answers ≡ answer ∷ []
    → ((r : ℕ × Text) → stored ≡ some r → Stored x domain r db)
    → (proceed stored
        (λ r. lift (x.parse r.1) >>= λ a. done (with_answer (pg_pool x) x h name 300 response a))
        db).0
      ≡ some q
    → Answered x domain answer
        (proceed stored
          (λ r. lift (x.parse r.1) >>= λ a. done (with_answer (pg_pool x) x h name 300 response a))
          db).1
Stored-Answered x h name domain response q answer none db none_before one inserted e = absurd (cc)
Stored-Answered x h name domain response q answer (some r) db none_before one inserted e =
    let row = inserted r refl in
    let last = respond_lem x h name 300 response q answer (x.parse r.1) db none_before one e in
    subst (Answered x domain answer) (sym last.1)
      (r.0, row.0, row.1, ap x.parse (sym row.2) ∙ last.0)

-- `new_mapping` after the sequence has given a number, and after the row is stored.
abbrev after_row : Texts → Hickory → Text → Response → ℕ × Text → Run Db Response
after_row x h name response r =
    lift (x.parse r.1) >>= λ a. done (with_answer (pg_pool x) x h name 300 response a)

abbrev after_number : Texts → Hickory → Text → Text → Response → Addr → ℕ → Run Db Response
after_number x h name domain response origin id =
    insert_domain x id domain (x.print origin) (x.print (synthetic_ipv6 id)) 300
    >>= after_row x h name response

numbered-Answered :
    (x : Texts) (h : Hickory) (name domain : Text) (response q : Response) (origin : Addr)
    (answer : Answer) (number : Option ℕ) (db : Db)
    → response.answers ≡ []
    → q.answers ≡ answer ∷ []
    → (proceed number (after_number x h name domain response origin) db).0 ≡ some q
    → Answered x domain answer (proceed number (after_number x h name domain response origin) db).1
numbered-Answered x h name domain response q origin answer none db none_before one e = absurd (cc)
numbered-Answered x h name domain response q origin answer (some id) db none_before one e =
    Stored-Answered x h name domain response q answer _ _ none_before one
      (insert_domain-Stored x id domain (x.print origin) (x.print (synthetic_ipv6 id)) 300 db) e

-- Whether the row was there, or upstream has an address.
cache_miss-Answered :
    (x : Texts) (h : Hickory) (name domain : Text) (response q : Response) (answer : Answer)
    (upstream : Option (Option Addr)) (db : Db)
    → response.answers ≡ []
    → q.answers ≡ answer ∷ []
    → (cache_miss (pg_pool x) x h name domain response upstream db).0 ≡ some q
    → Answered x domain answer (cache_miss (pg_pool x) x h name domain response upstream db).1
unfolding cache_miss new_mapping pg_pool
cache_miss-Answered x h name domain response q answer none db none_before one e =
    let bad = unanswered response q answer serv_fail none_before one e in absurd (cc)
cache_miss-Answered x h name domain response q answer (some none) db none_before one e =
    let bad = unanswered response q answer nx_domain none_before one e in absurd (cc)
cache_miss-Answered x h name domain response q answer (some (some ip)) db none_before one e =
    numbered-Answered x h name domain response q ip answer (next_domain_id x db).0
      (next_domain_id x db).1 none_before one e

answer_with-Answered :
    (x : Texts) (h : Hickory) (name domain : Text) (response q : Response) (answer : Answer)
    (row : Option Row) (db : Db)
    → row_of_domain domain db.rows ≡ row
    → response.answers ≡ []
    → q.answers ≡ answer ∷ []
    → (answer_with (pg_pool x) x h name domain response (to_domain_row? x row) db).0 ≡ some q
    → Answered x domain answer
        (answer_with (pg_pool x) x h name domain response (to_domain_row? x row) db).1
unfolding answer_with cache_hit
answer_with-Answered x h name domain response q answer none db here none_before one e =
    cache_miss-Answered x h name domain response q answer (lookup_aaaa (h.ipv6_lookup domain)) db
      none_before one e
answer_with-Answered x h name domain response q answer (some row) db here none_before one e =
    let last =
      respond_lem x h name (unwrap_or 300 row.ttl_seconds) response q answer
        (x.parse (x.host row.synthetic_ipv6)) db none_before one e in
    subst (Answered x domain answer) (sym last.1)
      (row.domain_id, row.synthetic_ipv6, ap identity here, last.0)

pub handle_aaaa-Answered :
    (x : Texts) (h : Hickory) (name : Text) (response q : Response) (answer : Answer) (db : Db)
    → response.answers ≡ []
    → q.answers ≡ answer ∷ []
    → (handle_aaaa (pg_pool x) x h name response db).0 ≡ some q
    → Answered x (domain_str h name) answer (handle_aaaa (pg_pool x) x h name response db).1
unfolding handle_aaaa pg_pool find_by_domain
handle_aaaa-Answered x h name response q answer db none_before one e =
    answer_with-Answered x h name (domain_str h name) response q answer
      (row_of_domain (domain_str h name) db.rows) db refl none_before one e
