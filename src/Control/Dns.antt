-- ===== src/Control/Dns.antt =====
-- The DNS server: dns-server/src/handler.rs and dns-server/src/resolver.rs, and `servfail` of
-- dns-server/src/main.rs.
use prototype_net.Base.{
  ℕ, ◌+◌, ◌==◌, leb, ◌&&◌, Bool, true, false, if◌then◌else◌, List, [], ◌∷◌, ◌++◌, map, Option, none,
  some,
}
use prototype_net.Word.{u32}
use prototype_net.Common.Address.{synthetic_ipv6}
use prototype_net.Control.Run.{Run, done, stop, lift, proceed, ◌>>=◌}
use prototype_net.Control.Text.{Text, Addr, Texts}
use prototype_net.Control.Database.{DomainRow, DbOps}
pub mod Handle
pub mod Answered
pub mod Stable
pub mod Fresh
pub mod Receive
pub mod Serve

pub data RecordType : Type 0 where
  aaaa : RecordType
  a : RecordType
  other_type : ℕ → RecordType

pub data ResponseCode : Type 0 where
  no_error : ResponseCode
  form_err : ResponseCode
  serv_fail : ResponseCode
  nx_domain : ResponseCode

pub record Query : Type 0 where
  pub name : Text
  pub query_type : RecordType

-- What the server reads of a request, and what it sets on a response.
pub record Request : Type 0 where
  pub id : ℕ
  pub op_code : ℕ
  pub recursion_desired : Bool
  pub queries : List Query

-- An AAAA record of class IN.
pub record Answer : Type 0 where
  pub name : Text
  pub ttl : ℕ
  pub address : Addr

pub record Response : Type 0 where
  pub id : ℕ
  pub op_code : ℕ
  pub recursion_desired : Bool
  pub recursion_available : Bool
  pub queries : List Query
  pub answers : List Answer
  pub response_code : ResponseCode

-- What `ipv6_lookup` of the upstream resolver returns: the addresses, or an error with its
-- `is_no_records_found()`.
pub data Lookup : Type 0 where
  resolved : List Addr → Lookup
  failed : Bool → Lookup

-- The crate `hickory_resolver`: the codec of messages, `Name::to_ascii`, and upstream.
pub record Hickory : Type 0 where
  pub from_vec : List ℕ → Option Request
  pub to_vec : Response → Option (List ℕ)
  pub to_ascii : Text → Text
  pub ipv6_lookup : Text → Lookup

-- `trim_end_matches('.')`
unfoldable pub trim_dots : Text → Text
trim_dots [] = []
trim_dots (c ∷ cs) = elim (trim_dots cs) [
  | [] ↦ (if c == 46 then [] else c ∷ [])
  | d ∷ ds ↦ c ∷ d ∷ ds
]

-- `to_lowercase` on ASCII.
abbrev pub lowercase : ℕ → ℕ
lowercase c = if leb 65 c && leb c 90 then c + 32 else c

-- `UpstreamResolver::lookup_aaaa`; `none` is an error.
unfoldable pub lookup_aaaa : Lookup → Option (Option Addr)
lookup_aaaa (resolved []) = some none
lookup_aaaa (resolved (ip ∷ ips)) = some (some ip)
lookup_aaaa (failed true) = some none
lookup_aaaa (failed false) = none

-- `Message::new()` and the setters that `handle_query` and `servfail` start with.
unfoldable pub response_to : Request → ResponseCode → Response
response_to request code = record {
  id = request.id;
  op_code = request.op_code;
  recursion_desired = request.recursion_desired;
  recursion_available = true;
  queries = request.queries;
  answers = [];
  response_code = code;
}

unfoldable pub unwrap_or : ℕ → Option ℕ → ℕ
unwrap_or d none = d
unwrap_or d (some n) = n

-- `add_answer` and `set_response_code(NoError)`.
abbrev pub add_answer : Answer → Response → Response
add_answer answer response = record response {
  answers = response.answers ++ (answer ∷ []);
  response_code = no_error;
}
