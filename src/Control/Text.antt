-- ===== src/Control/Text.antt =====
-- Textual forms of addresses and numbers, in Postgres and in Rust.
use prototype_net.Base.{ℕ, ◌≡◌, ◌^◌, ◌<◌, List, length, Option, some}

-- A string, as the list of its bytes; an IPv6 address, as its 16 bytes.
abbrev pub Text : Type 0
Text = List ℕ

abbrev pub Addr : Type 0
Addr = List ℕ

pub record Texts : Type 0 where
  -- `$n::inet`, and `host(column)::text`
  pub cast : Text → Option Addr
  pub host : Addr → Text
  -- `str::parse::<Ipv6Addr>`, and `Ipv6Addr::to_string`
  pub parse : Text → Option Addr
  pub print : Addr → Text
  -- `domain_id::text`, and `str::parse::<i32>`; an i32 is its bit pattern
  pub int_text : ℕ → Text
  pub parse_i32 : Text → Option ℕ

-- What is printed on one side is read on the other.
pub record IsTexts (x : Texts) : Type 0 where
  pub cast-print : (a : Addr) → length a ≡ 16 → x.cast (x.print a) ≡ some a
  pub parse-host : (a : Addr) → length a ≡ 16 → x.parse (x.host a) ≡ some a
  pub parse_i32-int_text : (n : ℕ) → n < 2 ^ 32 → x.parse_i32 (x.int_text n) ≡ some n
