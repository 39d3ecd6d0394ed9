-- ===== src/Permissions/GrantId/Order.antt =====
-- crates/cageforge-permissions/src/lib.rs: the order of identifiers and of their texts.
use cageforge.Base.{
  ℕ, ◌<◌, ◌+◌, ◌*◌, ◌≡◌, refl, subst, arith, Text, text_ltb, Option, none, some, List, [], ◌∷◌, All,
  ok, Option-cases, inl, inr,
}
use cageforge.Permissions.GrantId.{GrantId, from_hex, to_hex, hex_pairs, hex_nibble}

abbrev pub IsBytes : GrantId → Type 0
IsBytes id = All (λ byte. byte < 256) id

hex_nibble_lt : (c n : ℕ) → hex_nibble c ≡ some n → n < 16
unfolding hex_nibble
hex_nibble_lt c n h = ground arith

bind_some {ℓ κ} :
    {A : Type ℓ} {B : Type κ} (o : Option A) (f : A → Option B) {b : B}
    → elim o as (λ _. Option B) [ none ↦ none | some a ↦ f a ] ≡ some b
    → (a : A) × (o ≡ some a) × (f a ≡ some b)
bind_some none f h = absurd (cc)
bind_some (some a) f h = (a, refl, h)

hex_pairs-IsBytes : (s : Text) (id : List ℕ) → hex_pairs s ≡ some id → IsBytes id
unfolding hex_pairs
hex_pairs-IsBytes [] id h = subst IsBytes {x = []} (ground arith) tt
hex_pairs-IsBytes (c ∷ []) id h = absurd (cc)
hex_pairs-IsBytes (c ∷ d ∷ s) id h =
    let (high, p, q) = bind_some (hex_nibble c) _ h in
    let (low, r, t) = bind_some (hex_nibble d) _ q in
    let (bytes, u, v) = bind_some (hex_pairs s) _ t in
    subst IsBytes {x = (high * 16 + low) ∷ bytes} (ground arith)
      (omega (arith, hex_nibble_lt c high p, hex_nibble_lt d low r), hex_pairs-IsBytes s bytes u)

-- The order of the texts of identifiers is that of the identifiers.
pub text_ltb-to_hex :
    (a b : GrantId) → IsBytes a → IsBytes b → text_ltb (to_hex a) (to_hex b) ≡ text_ltb a b
unfolding text_ltb to_hex
text_ltb-to_hex [] [] h k = refl
text_ltb-to_hex [] (y ∷ b) h k = refl
text_ltb-to_hex (x ∷ a) [] h k = refl
text_ltb-to_hex (x ∷ a) (y ∷ b) (p, h) (q, k) = ground (arith, text_ltb-to_hex a b h k)

pub from_hex-IsBytes : (s : Text) (id : GrantId) → from_hex s ≡ ok id → IsBytes id
unfolding from_hex
from_hex-IsBytes s id h = elim (Option-cases (hex_pairs s)) [
  | inl bad ↦ absurd (ground arith)
  | inr (bytes, read) ↦ subst IsBytes {x = bytes} (ground arith) (hex_pairs-IsBytes s bytes read)
]
