-- ===== src/Tests/Services.antt =====
-- The theorems about dns-server/src and daemon/src on concrete inputs.
use prototype_net.Base.{
  ℕ, eq_bytes_self, arith, ◌+◌, ◌≡◌, ◌⊎◌, refl, ap, ◌==◌, List, [], ◌∷◌, ◌++◌, length, get_or, true,
  false, if◌then◌else◌, Option, none, some,
}
use prototype_net.Word.{u32}
use prototype_net.Common.Address.{synthetic_ipv6, domain_id_from_ipv6}
use prototype_net.Control.Text.{Text, Texts, IsTexts}
use prototype_net.Control.Database.{Db, row_of_domain, id_in_use, pg_pool, next_domain_id}
use prototype_net.Control.Database.Steps.{rest, step, numbered, IsMapped, mapping_persists}
use prototype_net.Control.Dns.{
  aaaa, Request, Response, no_error, serv_fail, Hickory, resolved, failed, lookup_aaaa, response_to,
  trim_dots,
}
use prototype_net.Control.Dns.Handle.{handle_aaaa, domain_str, with_answer, answer_queries, receive}
use prototype_net.Control.Dns.Stable.{answer_is_stable}
use prototype_net.Control.Dns.Fresh.{first_answer, new_row}
use prototype_net.Control.Dns.Receive.{always_answered}
use prototype_net.Tests.Fixtures.{origin_addr}

-- Addresses printed as their bytes, and numbers as one character.
abbrev pub test_texts : Texts
test_texts = record {
  cast = λ t. if length t == 16 then some t else none;
  host = λ a. a;
  parse = λ t. some t;
  print = λ a. a;
  int_text = λ n. n ∷ [];
  parse_i32 = λ t. some (get_or t 0 0);
}

pub test_texts-IsTexts : IsTexts test_texts
test_texts-IsTexts = record {
  cast-print = λ a h. rw h refl;
  parse-host = λ a h. refl;
  parse_i32-int_text = λ n h. refl;
}

abbrev pub test_request : Request
test_request = record {
  id = 7;
  op_code = 0;
  recursion_desired = true;
  queries = record { name = 97 ∷ 46 ∷ []; query_type = aaaa } ∷ [];
}

-- Every name resolves to the origin of the fixtures.
abbrev pub upstream : Hickory
upstream = record {
  from_vec = λ packet. some test_request;
  to_vec = λ r. some (r.id ∷ []);
  to_ascii = λ t. t;
  ipv6_lookup = λ t. resolved (origin_addr ∷ []);
}

-- The same with an upstream that fails.
abbrev no_upstream : Hickory
no_upstream = record upstream { ipv6_lookup = λ t. failed false }

abbrev pub empty_db : Db
empty_db = record { rows = []; sequence = 1; notified = [] }

abbrev pub empty_response : Response
empty_response = response_to test_request no_error

abbrev pub name : Text
name = 97 ∷ 46 ∷ []

-- The database after the first query.
abbrev pub first_db : Db
first_db = record {
  rows = new_row (97 ∷ []) 1 origin_addr ∷ [];
  sequence = 2;
  notified = (1 ∷ []) ∷ [];
}

name_key : domain_str upstream name ≡ 97 ∷ []
unfolding domain_str trim_dots
name_key = refl

first_answer_example :
    (handle_aaaa (pg_pool test_texts) test_texts upstream name empty_response empty_db ≡ (
      some (
          with_answer
            (pg_pool test_texts)
            test_texts
            upstream
            name
            300
            empty_response
            (synthetic_ipv6 (u32 1))),
      record {
        rows = [] ++ (new_row (domain_str upstream name) (u32 1) origin_addr ∷ []);
        sequence = 1 + 1;
        notified = [] ++ (test_texts.int_text (u32 1) ∷ []);
      },
    ))
    × (domain_id_from_ipv6 (synthetic_ipv6 (u32 1)) ≡ u32 1)
unfolding row_of_domain id_in_use lookup_aaaa
first_answer_example =
    first_answer test_texts test_texts-IsTexts upstream name empty_response empty_db origin_addr
      refl refl refl (omega arith) refl

first_run : handle_aaaa (pg_pool test_texts) test_texts upstream name empty_response empty_db ≡ (
  some (
      with_answer
        (pg_pool test_texts)
        test_texts
        upstream
        name
        300
        empty_response
        (synthetic_ipv6 1)),
  first_db,
)
unfolding row_of_domain id_in_use lookup_aaaa domain_str trim_dots response_to
first_run =
    (first_answer test_texts test_texts-IsTexts upstream name empty_response empty_db origin_addr
      refl refl refl (omega arith) refl).0

answer_is_stable_example :
    (ttl : ℕ) × (handle_aaaa
        (pg_pool test_texts)
        test_texts
        no_upstream
        name
        empty_response
        (handle_aaaa (pg_pool test_texts) test_texts upstream name empty_response empty_db).1
      ≡ (
        some (record empty_response {
          response_code = no_error;
          answers =
              empty_response.answers
              ++ (record { name = name; ttl = ttl; address = synthetic_ipv6 1 } ∷ []);
        }),
        (handle_aaaa (pg_pool test_texts) test_texts upstream name empty_response empty_db).1,
      ))
unfolding response_to domain_str
answer_is_stable_example =
    answer_is_stable test_texts upstream no_upstream name name empty_response empty_response
      (with_answer (pg_pool test_texts) test_texts upstream name 300 empty_response
        (synthetic_ipv6 1))
      (record { name = name; ttl = 300; address = synthetic_ipv6 1 }) empty_db
      (handle_aaaa (pg_pool test_texts) test_texts upstream name empty_response empty_db).1 refl
      (ap (λ (o : Option Response × Db). o.0) first_run) refl rest refl

always_answered_example :
    (r : Response) × (bytes : List ℕ) × (upstream.to_vec r ≡ some bytes)
    × ((receive (pg_pool test_texts) test_texts upstream 0 [] empty_db).0 ≡ some bytes)
    × ((r ≡ response_to test_request serv_fail)
        ⊎ ((answer_queries
              (pg_pool test_texts)
              test_texts
              upstream
              test_request.queries
              (response_to test_request no_error)
              empty_db).0
            ≡ some r))
always_answered_example =
    always_answered (pg_pool test_texts) test_texts upstream 0 [] test_request empty_db refl
      (λ r. (r.id ∷ [], refl))

mapping_persists_example :
    IsMapped (next_domain_id test_texts first_db).1 (97 ∷ []) 1 (synthetic_ipv6 1)
unfolding row_of_domain
mapping_persists_example =
    mapping_persists test_texts first_db (next_domain_id test_texts first_db).1 (97 ∷ []) 1
      (synthetic_ipv6 1) (step numbered rest) (rw (eq_bytes_self (97 ∷ [])) refl)
