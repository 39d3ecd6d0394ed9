-- ===== src/Permissions/GrantId/RoundTrip.antt =====
-- crates/cageforge-permissions/src/lib.rs: identifiers and their texts, cursors and their
-- tokens.
use cageforge.Base.{
  ℕ, ◌*◌, ◌/◌, ◌%◌, ◌<◌, false, ◌≡◌, refl, ap, ◌∙◌, arith, length, Text, codes, split, split_first,
  text_eq, [], ◌∷◌, ◌++◌, All, some, ok, contains_char, map_err,
}
use cageforge.Policy.Host.{utf8_len}
use cageforge.Path.Components.Laws.{split-append}
use cageforge.Permissions.Error.{StoreError}
use cageforge.Permissions.GrantId.{
  GrantId, hex_nibble, hex_digit, to_hex, hex_pairs, from_hex, GrantPageCursor, to_token,
  from_token, cursor_of_parts, cursor_part,
}

-- 32 bytes.
abbrev pub IsGrantId : GrantId → Type 0
IsGrantId id = All (λ byte. byte < 256) id × (length id ≡ 32)

hex_nibble-hex_digit : (n : ℕ) → n < 16 → hex_nibble (hex_digit n) ≡ some n
unfolding hex_nibble
hex_nibble-hex_digit n h = ground arith

hex_pairs-to_hex : (id : GrantId) → All (λ byte. byte < 256) id → hex_pairs (to_hex id) ≡ some id
unfolding hex_pairs to_hex
hex_pairs-to_hex [] h = refl
hex_pairs-to_hex (b ∷ id) (p, h) =
    ground
      (arith, hex_nibble-hex_digit (b / 16), hex_nibble-hex_digit (b % 16), hex_pairs-to_hex id h)

utf8_len-to_hex :
    (id : GrantId) → All (λ byte. byte < 256) id → utf8_len (to_hex id) ≡ 2 * length id
unfolding to_hex
utf8_len-to_hex [] h = omega arith
utf8_len-to_hex (b ∷ id) (p, h) = ground (arith, utf8_len-to_hex id h)

-- An identifier of 32 bytes is read back from its text.
pub from_hex-to_hex : (id : GrantId) → IsGrantId id → from_hex (to_hex id) ≡ ok id
unfolding from_hex
from_hex-to_hex id (bytes, long) =
    let wide : utf8_len (to_hex id) ≡ 64 = omega (arith, utf8_len-to_hex id bytes) in
    rw (wide, hex_pairs-to_hex id bytes)

split_none : (sep : ℕ) (s : Text) → contains_char sep s ≡ false → split sep s ≡ s ∷ []
unfolding split split_first
split_none sep [] h = refl
split_none sep (c ∷ s) h = ground (arith, split_none sep s)

contains_char-to_hex :
    (id : GrantId) → All (λ byte. byte < 256) id → contains_char b'.' (to_hex id) ≡ false
unfolding to_hex
contains_char-to_hex [] h = refl
contains_char-to_hex (b ∷ id) (p, h) = ground (arith, contains_char-to_hex id h)

split-to_token :
    (cursor : GrantPageCursor)
    → IsGrantId cursor.snapshot
    → IsGrantId cursor.last_id
    → split b'.' (to_token cursor)
      ≡ codes "v1" ∷ to_hex cursor.snapshot ∷ to_hex cursor.last_id ∷ []
unfolding to_token
split-to_token cursor (first, _) (last, _) =
    split-append b'.' (codes "v1") (to_hex cursor.snapshot ++ (b'.' ∷ to_hex cursor.last_id))
    ∙ ap (λ parts. split b'.' (codes "v1") ++ parts)
        (split-append b'.' (to_hex cursor.snapshot) (to_hex cursor.last_id) ∙ (λ i.
          split_none b'.' (to_hex cursor.snapshot) (contains_char-to_hex cursor.snapshot first) i
          ++ split_none b'.' (to_hex cursor.last_id) (contains_char-to_hex cursor.last_id last) i))
    ∙ unfold split in refl

cursor_part-to_hex : (id : GrantId) → IsGrantId id → cursor_part (to_hex id) ≡ ok id
unfolding cursor_part
cursor_part-to_hex id h = ap (map_err (λ _. StoreError.invalid_cursor)) (from_hex-to_hex id h)

-- A cursor of two identifiers is read back from its token.
pub from_token-to_token :
    (cursor : GrantPageCursor)
    → IsGrantId cursor.snapshot
    → IsGrantId cursor.last_id
    → from_token (to_token cursor) ≡ ok cursor
unfolding from_token
from_token-to_token cursor first last =
    ap cursor_of_parts (split-to_token cursor first last)
    ∙ unfold cursor_of_parts text_eq in
      rw (cursor_part-to_hex cursor.snapshot first, cursor_part-to_hex cursor.last_id last)
