-- ===== src/Policy/Condition.antt =====
-- policy/condition.go: source address conditions, and what the code uses of `net/netip`.
use s3rp.Common.{
  ℕ, ◌-◌, ◌/◌, ◌%◌, ◌^◌, Bool, true, false, not, ◌&&◌, ◌||◌, Option, none, some, List, [], ◌∷◌,
  ◌==◌, if◌then◌else◌, is_empty, Text, text_eq, contains_byte,
}
use s3rp.Policy.Document.{Addr, zero_addr, v4, v6, Prefix, Platform, RequestContext, Condition}

-- `Addr.Unmap`: an IPv4-mapped IPv6 address becomes the IPv4 address.
unfoldable pub unmap : Addr → Addr
unmap (v6 n zone) = if n / 2 ^ 32 == 0xffff then v4 (n % 2 ^ 32) else v6 n zone
unmap a = a

-- `Addr.IsValid`.
unfoldable pub is_valid : Addr → Bool
is_valid zero_addr = false
is_valid _ = true

unfoldable pub bit_len : Addr → ℕ
bit_len zero_addr = 0
bit_len (v4 n) = 32
bit_len (v6 n zone) = 128

unfoldable pub zone : Addr → Text
zone (v6 n z) = z
zone _ = []

-- `Prefix.Contains`: one family, no zone, and the leading bits agree.
addr_contains : Addr → ℕ → Addr → Bool
addr_contains (v4 n) bits (v4 m) = n / 2 ^ (32 - bits) == m / 2 ^ (32 - bits)
addr_contains (v6 n z) bits (v6 m []) = n / 2 ^ (128 - bits) == m / 2 ^ (128 - bits)
addr_contains _ bits _ = false

unfoldable pub contains : Prefix → Addr → Bool
unfolding addr_contains
contains p a = addr_contains p.addr p.bits a

-- `prefixesContain`.
unfoldable pub prefixes_contain : List Prefix → Addr → Bool
prefixes_contain [] a = false
prefixes_contain (p ∷ prefixes) a = contains p a || prefixes_contain prefixes a

-- `Condition.match`.
unfoldable pub match : Condition → RequestContext → Bool
match c rc =
    if not (is_empty c.ip_prefixes)
      && not (is_valid rc.source_ip && prefixes_contain c.ip_prefixes rc.source_ip)
    then false
    else if not (is_empty c.not_ip_prefixes)
        && (is_valid rc.source_ip && prefixes_contain c.not_ip_prefixes rc.source_ip)
    then false
    else true

module _ (std : Platform) where
  prefix_of_addr : Addr → Option Prefix
  prefix_of_addr a =
      if text_eq (zone a) []
      then some (record { addr = unmap a; bits = bit_len (unmap a) })
      else none

  -- `parseIPValue`; `none` is its error.
  unfoldable pub parse_ip_value : Text → Option Prefix
  unfolding prefix_of_addr
  parse_ip_value v =
      if contains_byte b'/' v
      then std.parse_prefix v
      else elim (std.parse_addr v) [ none ↦ none | some a ↦ prefix_of_addr a ]

  -- `parsePrefixes`.
  unfoldable pub parse_prefixes : List Text → Option (List Prefix)
  parse_prefixes [] = some []
  parse_prefixes (v ∷ values) = elim (parse_ip_value v) [
    | none ↦ none
    | some p ↦ elim (parse_prefixes values) [ none ↦ none | some out ↦ some (p ∷ out) ]
  ]

  -- `Condition.compile`: the condition that it leaves behind, and whether it succeeded.
  compile_not_ip : Condition → Condition × Bool
  compile_not_ip c = elim (parse_prefixes c.not_ip_address) [
    | none ↦ (record c { not_ip_prefixes = []; invalid = true }, false)
    | some ps ↦ (record c { not_ip_prefixes = ps }, true)
  ]

  unfoldable pub compile : Condition → Condition × Bool
  unfolding compile_not_ip
  compile c = elim (parse_prefixes c.ip_address) [
    | none ↦ (record c { compiled = true; ip_prefixes = []; invalid = true }, false)
    | some ps ↦ compile_not_ip (record c { compiled = true; ip_prefixes = ps })
  ]
