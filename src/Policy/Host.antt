-- ===== src/Policy/Host.antt =====
-- crates/cageforge-policy/src/network.rs: host names and their normal form. Texts are code points;
-- where the source counts bytes, so does `utf8_len`.
use cageforge.Base.{
  ascii_lower, ℕ, ◌+◌, ◌-◌, ◌*◌, Bool, false, not, ◌&&◌, ◌||◌, ◌==◌, leb, ltb, Option, none, some,
  [], ◌∷◌, ◌++◌, map, Text, codes, all, is_empty, is_some, contains_char, strip_prefix,
  if◌then◌else◌,
}
use mathlib.Core.Option
use mathlib.Core.List.{reverse}
use cageforge.Policy.Address.{IpAddr}
use cageforge.Policy.IpText.{parse_ip}
use cageforge.Policy.Pattern.{is_whitespace}

-- The Unicode table behind `char::is_alphanumeric`.
pub record CharTable : Type 0 where
  pub is_alphanumeric : ℕ → Bool

-- `char::is_control`
abbrev pub is_control : ℕ → Bool
is_control c = ltb c 32 || (leb 127 c && ltb c 160)

abbrev pub utf8_width : ℕ → ℕ
utf8_width c = if ltb c 0x80 then 1 else if ltb c 0x800 then 2 else if ltb c 0x10000 then 3 else 4

-- `str::len`
abbrev pub utf8_len : Text → ℕ
utf8_len [] = 0
utf8_len (c ∷ s) = utf8_width c + utf8_len s

-- `str::split_once(char)`
unfoldable pub split_once : ℕ → Text → Option (Text × Text)
split_once sep [] = none
split_once sep (c ∷ s) =
    let rest = split_once sep s in
    if c == sep then some ([], s) else Option.map (λ (p : Text × Text). (c ∷ p.0, p.1)) rest

-- `str::trim_start_matches` of a class of characters, and `trim` at both ends.
unfoldable pub trim_start : (ℕ → Bool) → Text → Text
trim_start p [] = []
trim_start p (c ∷ s) = let rest = trim_start p s in if p c then rest else c ∷ s

unfoldable pub trim_end : (ℕ → Bool) → Text → Text
unfolding trim_start
trim_end p s = reverse (trim_start p (reverse s))

unfoldable pub trim : Text → Text
unfolding trim_end
trim s = trim_end is_whitespace (trim_start is_whitespace s)

-- `str::contains(&str)`
unfoldable pub contains_text : Text → Text → Bool
unfolding strip_prefix
contains_text needle [] = is_some (strip_prefix needle [])
contains_text needle (c ∷ s) = is_some (strip_prefix needle (c ∷ s)) || contains_text needle s

abbrev pub is_ascii_digit : ℕ → Bool
is_ascii_digit c = leb b'0' c && leb c b'9'

-- The value of a row of digits.
unfoldable pub decimal : ℕ → Text → ℕ
decimal value [] = value
decimal value (c ∷ s) = decimal (value * 10 + (c - b'0')) s

unfoldable pub valid_port : Text → Bool
unfolding decimal
valid_port port = not (is_empty port) && (all is_ascii_digit port && leb (decimal 0 port) 65535)

unfoldable pub valid_port_suffix : Text → Bool
unfolding valid_port
valid_port_suffix suffix = elim (strip_prefix (codes ":") suffix) [
  | none ↦ false
  | some port ↦ valid_port port
]

-- `str::split_once(&str)`
unfoldable pub split_once_text : Text → Text → Option (Text × Text)
split_once_text sep [] = none
split_once_text sep (c ∷ s) =
    let later = split_once_text sep s in
    elim (strip_prefix sep (c ∷ s)) [
      | some rest ↦ some ([], rest)
      | none ↦ Option.map (λ (p : Text × Text). (c ∷ p.0, p.1)) later
    ]

-- The body of the loop over "%25" and "%" in `normalize_ip_literal`.
unfoldable pub scoped_literal : Text → Text → Option Text
unfolding split_once_text
scoped_literal delimiter host = elim (split_once_text delimiter host) [
  | none ↦ none
  | some (ip, scope) ↦ if is_some (parse_ip ip) then some (ip ++ (b'%' ∷ scope)) else none
]

unfoldable pub normalize_ip_literal : Text → Option Text
unfolding scoped_literal
normalize_ip_literal host =
    if is_some (parse_ip host) then some host else elim (scoped_literal (codes "%25") host) [
      | some literal ↦ some literal
      | none ↦ scoped_literal (codes "%") host
    ]

unfoldable pub parse_ip_literal : Text → Option IpAddr
unfolding split_once
parse_ip_literal host = elim (split_once b'%' host) [
  | none ↦ parse_ip host
  | some (address, _) ↦ parse_ip address
]

unfoldable pub normalize_dns_host_or_ip_literal : Text → Text
unfolding normalize_ip_literal trim_end
normalize_dns_host_or_ip_literal raw =
    let host = trim_end (λ c. c == b'.') (map ascii_lower raw) in
    elim (normalize_ip_literal host) [ some ip ↦ ip | none ↦ host ]

-- The last match of `normalize_host`, on the number of ':' in the host.
unfoldable pub normalize_unbracketed : Text → Option Text
unfolding split_once valid_port normalize_ip_literal normalize_dns_host_or_ip_literal
normalize_unbracketed host = elim (split_once b':' host) [
  | none ↦ some (normalize_dns_host_or_ip_literal host)
  | some (name, port) ↦
      if contains_char b':' port
      then Option.map normalize_dns_host_or_ip_literal (normalize_ip_literal host)
      else if valid_port port
      then some (normalize_dns_host_or_ip_literal name)
      else none
]

-- What `normalize_host` does with "[inner]suffix"; a text in brackets that is no IP literal is
-- treated like a host without brackets.
unfoldable pub normalize_bracketed : Text → Text → Text → Option Text
unfolding normalize_ip_literal normalize_unbracketed valid_port_suffix
normalize_bracketed host inner suffix = elim (normalize_ip_literal inner) [
  | none ↦ normalize_unbracketed host
  | some ip ↦
      if not (is_empty suffix) && not (valid_port_suffix suffix)
      then none
      else some (normalize_dns_host_or_ip_literal ip)
]

unfoldable pub normalize_host : Text → Option Text
unfolding trim normalize_bracketed
normalize_host raw =
    let host = trim raw in
    elim (strip_prefix (codes "[") host) [
      | none ↦ normalize_unbracketed host
      | some bracketed ↦ elim (split_once b']' bracketed) [
        | none ↦ none
        | some (inner, suffix) ↦ normalize_bracketed host inner suffix
      ]
    ]
