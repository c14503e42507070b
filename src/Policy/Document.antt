-- ===== src/Policy/Document.antt =====
-- policy/policy.go and policy/condition.go: the documents, and what they are made of.
use s3rp.Common.{ℕ, Bool, Option, List, Text, Runes}

-- What the package takes from the Go library without this development defining it: the tables of
-- `unicode.ToLower` beyond ASCII, and the parsers `netip.ParseAddr` and `netip.ParsePrefix`.
-- An address is `netip.Addr`: the zero value, an IPv4 address, or an IPv6 address with its zone.
pub data Addr : Type 0 where
  zero_addr : Addr
  v4 : ℕ → Addr
  v6 : ℕ → Text → Addr

-- `netip.Prefix`, a valid one.
pub record Prefix : Type 0 where
  pub addr : Addr
  pub bits : ℕ

pub record Platform : Type 0 where
  pub to_lower : ℕ → ℕ
  pub parse_addr : Text → Option Addr
  pub parse_prefix : Text → Option Prefix

-- `RequestContext`.
pub record RequestContext : Type 0 where
  pub source_ip : Addr

-- `Condition`: the values as written, and what `compile` makes of them.
pub record Condition : Type 0 where
  pub ip_address : List Text
  pub not_ip_address : List Text
  pub ip_prefixes : List Prefix
  pub not_ip_prefixes : List Prefix
  pub compiled : Bool
  pub invalid : Bool

pub record Principal : Type 0 where
  pub all : Bool
  pub users : List Text

pub record Statement : Type 0 where
  pub sid : Text
  pub effect : Text
  pub principal : Option Principal
  pub not_principal : Option Principal
  pub action : List Text
  pub resource : List Text
  pub condition : Option Condition
  pub action_runes : List Runes
  pub resource_runes : List Runes

-- `compile_once` tells whether `compileOnce` has run.
pub record Policy : Type 0 where
  pub version : Text
  pub statement : List Statement
  pub compile_once : Bool

pub data Effect : Type 0 where
  none_effect allow deny : Effect

-- `Decision`; `none` as the statement is the source's -1.
pub record Decision : Type 0 where
  pub effect : Effect
  pub statement : Option ℕ
