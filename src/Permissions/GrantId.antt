-- ===== src/Permissions/GrantId.antt =====
-- crates/cageforge-permissions/src/lib.rs: identifiers of grants and cursors of listings, and the
-- texts that they are written as.
pub mod RoundTrip
pub mod Order
use cageforge.Base.{
  ℕ, ◌+◌, ◌-◌, ◌*◌, ◌/◌, ◌%◌, Bool, true, false, not, ◌&&◌, ◌||◌, ◌==◌, leb, ltb, Text, codes,
  text_eq, split, List, [], ◌∷◌, ◌++◌, Option, none, some, if◌then◌else◌, Result, ok, err, ◌>>=◌,
  map_err,
}
use cageforge.Policy.Host.{utf8_len}
use cageforge.Permissions.Error.{PermissionError, StoreError}

-- `GrantId`: 32 bytes.
abbrev pub GrantId : Type 0
GrantId = List ℕ

unfoldable pub hex_nibble : ℕ → Option ℕ
hex_nibble c =
    if leb b'0' c && leb c b'9'
    then some (c - b'0')
    else if leb b'a' c && leb c b'f'
    then some (c - b'a' + 10)
    else if leb b'A' c && leb c b'F'
    then some (c - b'A' + 10)
    else none

-- A digit of `{:02x}`.
abbrev pub hex_digit : ℕ → ℕ
hex_digit n = if ltb n 10 then n + b'0' else n - 10 + b'a'

unfoldable pub to_hex : GrantId → Text
to_hex [] = []
to_hex (byte ∷ bytes) = hex_digit (byte / 16) ∷ hex_digit (byte % 16) ∷ to_hex bytes

-- The loop of `from_hex` over the pairs of bytes. `high << 4 | low` is written out; a character
-- that is not ASCII is none of the digits, and neither are its bytes.
unfoldable pub hex_pairs : Text → Option (List ℕ)
unfolding hex_nibble
hex_pairs [] = some []
hex_pairs (c ∷ []) = none
hex_pairs (c ∷ d ∷ s) =
    let rest = hex_pairs s in
    elim (hex_nibble c) [
      | none ↦ none
      | some high ↦ elim (hex_nibble d) [
        | none ↦ none
        | some low ↦ elim rest [ none ↦ none | some bytes ↦ some ((high * 16 + low) ∷ bytes) ]
      ]
    ]

unfoldable pub from_hex : Text → Result PermissionError GrantId
unfolding hex_pairs
from_hex value =
    if not (utf8_len value == 64)
    then err PermissionError.invalid_grant_id
    else elim (hex_pairs value) [
      | none ↦ err PermissionError.invalid_grant_id
      | some bytes ↦ ok bytes
    ]

pub record GrantPageCursor : Type 0 where
  pub snapshot : GrantId
  pub last_id : GrantId

unfoldable pub to_token : GrantPageCursor → Text
unfolding to_hex
to_token cursor = codes "v1." ++ (to_hex cursor.snapshot ++ (b'.' ∷ to_hex cursor.last_id))

-- `map_err` from an identifier's error to that of a cursor.
abbrev cursor_part : Text → Result StoreError GrantId
unfolding from_hex
cursor_part part = map_err (λ _. StoreError.invalid_cursor) (from_hex part)

-- The part of `from_token` behind the split.
unfoldable pub cursor_of_parts : List Text → Result StoreError GrantPageCursor
unfolding cursor_part
cursor_of_parts (version ∷ first ∷ second ∷ []) =
    if not (text_eq version (codes "v1"))
    then err StoreError.invalid_cursor
    else cursor_part first >>= λ snapshot.
        cursor_part second >>= λ last_id. ok (record { snapshot = snapshot; last_id = last_id })
cursor_of_parts _ = err StoreError.invalid_cursor

unfoldable pub from_token : Text → Result StoreError GrantPageCursor
unfolding split cursor_of_parts
from_token value = cursor_of_parts (split b'.' value)
