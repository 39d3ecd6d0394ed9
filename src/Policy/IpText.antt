-- ===== src/Policy/IpText.antt =====
-- `FromStr` of `std::net::IpAddr`: each reader returns what it read and the rest of the text.
use cageforge.Base.{
  ℕ, zero, suc, ◌+◌, ◌-◌, ◌*◌, ◌/◌, ◌%◌, Bool, true, false, not, ◌&&◌, ◌||◌, ◌==◌, leb, ltb, Option,
  none, some, List, [], ◌∷◌, ◌++◌, Text, is_empty, length, starts_with_char, if◌then◌else◌,
}
use cageforge.Policy.Address.{IpAddr, Segments}

infixl 5 ◌>>=◌ ◌>>◌
abbrev ◌>>=◌ {ℓ κ} : {A : Type ℓ} {B : Type κ} → Option A → (A → Option B) → Option B
none >>= k = none
some a >>= k = k a

abbrev ◌>>◌ {ℓ κ} : {A : Type ℓ} {B : Type κ} → Option A → Option B → Option B
m >> k = m >>= λ _. k

-- `char::to_digit`
unfoldable pub to_digit : ℕ → ℕ → Option ℕ
to_digit radix c =
    let value : Option ℕ =
      if leb b'0' c && leb c b'9'
      then some (c - b'0')
      else if leb b'a' c && leb c b'z'
      then some (c - b'a' + 10)
      else if leb b'A' c && leb c b'Z'
      then some (c - b'A' + 10)
      else none in
    value >>= λ d. if ltb d radix then some d else none

-- The digits in front of a text: their number, their value and the rest.
unfoldable pub read_digits : ℕ → ℕ → ℕ → Text → ℕ × ℕ × Text
unfolding to_digit
read_digits radix count value [] = (count, value, [])
read_digits radix count value (c ∷ s) = elim (to_digit radix c) [
  | none ↦ (count, value, c ∷ s)
  | some d ↦ read_digits radix (count + 1) (value * radix + d) s
]

-- `read_number` with its limits on digits and value.
unfoldable pub read_number : ℕ → ℕ → ℕ → Bool → Text → Option (ℕ × Text)
unfolding read_digits
read_number radix max_digits limit allow_zero_prefix s =
    let (count, value, rest) = read_digits radix 0 0 s in
    if count == 0
      || (ltb max_digits count
          || (ltb limit value
              || (not allow_zero_prefix && (starts_with_char b'0' s && ltb 1 count))))
    then none
    else some (value, rest)

-- `read_separator`: from the second item on, a separator stands in front.
abbrev after_separator : ℕ → ℕ → Text → Option Text
after_separator sep zero s = some s
after_separator sep (suc i) [] = none
after_separator sep (suc i) (c ∷ s) = if c == sep then some s else none

unfoldable pub read_octet : ℕ → Text → Option (ℕ × Text)
unfolding read_number
read_octet i s = do rest ← after_separator b'.' i s; read_number 10 3 255 false rest

unfoldable pub read_ipv4 : Text → Option (ℕ × Text)
unfolding read_octet
read_ipv4 s = do
  (a, s1) ← read_octet 0 s
  (b, s2) ← read_octet 1 s1
  (c, s3) ← read_octet 2 s2
  (d, s4) ← read_octet 3 s3
  some (((a * 256 + b) * 256 + c) * 256 + d, s4)

-- `read_groups`: at most `room` groups from the `i`th on, whether an IPv4 address ended them, and
-- the rest of the text.
unfoldable pub read_groups : ℕ → ℕ → Text → List ℕ × Bool × Text
unfolding read_ipv4 read_number
read_groups zero i s = ([], false, s)
read_groups (suc room) i s =
    let embedded : Option (ℕ × Text) =
      if room == 0 then none else (after_separator b':' i s >>= read_ipv4) in
    elim embedded [
      | some (v, rest) ↦ ((v / 65536) ∷ (v % 65536) ∷ [], true, rest)
      | none ↦ elim (after_separator b':' i s >>= read_number 16 4 65535 true) [
        | none ↦ ([], false, s)
        | some (group, rest) ↦
            let (groups, ipv4, rest') = read_groups room (i + 1) rest in
            (group ∷ groups, ipv4, rest')
      ]
    ]

abbrev zeros : ℕ → List ℕ
zeros zero = []
zeros (suc n) = 0 ∷ zeros n

abbrev segments_of : List ℕ → Option Segments
segments_of (a ∷ b ∷ c ∷ d ∷ e ∷ f ∷ g ∷ h ∷ []) =
    some (record { s0 = a; s1 = b; s2 = c; s3 = d; s4 = e; s5 = f; s6 = g; s7 = h })
segments_of _ = none

abbrev after_char : ℕ → Text → Option Text
after_char c [] = none
after_char c (d ∷ s) = if d == c then some s else none

unfoldable pub read_ipv6 : Text → Option (Segments × Text)
unfolding read_groups
read_ipv6 s =
    let (head, ipv4, rest) = read_groups 8 0 s in
    if length head == 8
    then (segments_of head >>= λ segments. some (segments, rest))
    else if ipv4
    then none
    else do
      s1 ← after_char b':' rest
      s2 ← after_char b':' s1
      let (tail, _, s3) = read_groups (7 - length head) 0 s2
      segments ← segments_of (head ++ (zeros (8 - (length head + length tail)) ++ tail))
      some (segments, s3)

unfoldable pub parse_ip : Text → Option IpAddr
unfolding read_ipv4 read_ipv6
parse_ip s = elim (read_ipv4 s) [
  | some (v, rest) ↦ if is_empty rest then some (IpAddr.v4 v) else none
  | none ↦ elim (read_ipv6 s) [
    | some (segments, rest) ↦ if is_empty rest then some (IpAddr.v6 segments) else none
    | none ↦ none
  ]
]
