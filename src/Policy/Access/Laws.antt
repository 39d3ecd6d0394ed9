-- ===== src/Policy/Access/Laws.antt =====
-- `most_restrictive` is the meet of the access modes ordered by what they permit.
use cageforge.Base.{true, ◌&&◌, ◌≡◌, arith, ◌↔◌}
use cageforge.Policy.Access.{AccessMode, most_restrictive, can_read, can_write, mode_eq}

pub mode_eq_iff : (a b : AccessMode) → (mode_eq a b ≡ true) ↔ (a ≡ b)
unfolding mode_eq
mode_eq_iff a b = ground arith

pub most_restrictive_comm : (a b : AccessMode) → most_restrictive a b ≡ most_restrictive b a
unfolding most_restrictive
most_restrictive_comm a b = ground arith

pub most_restrictive_assoc :
    (a b c : AccessMode)
    → most_restrictive (most_restrictive a b) c ≡ most_restrictive a (most_restrictive b c)
unfolding most_restrictive
most_restrictive_assoc a b c = ground arith

pub most_restrictive_self : (a : AccessMode) → most_restrictive a a ≡ a
unfolding most_restrictive
most_restrictive_self a = ground arith

-- The combined mode can read, and can write, exactly where both modes can.
pub most_restrictive_capabilities :
    (a b : AccessMode)
    → (can_read (most_restrictive a b) ≡ (can_read a && can_read b))
      × (can_write (most_restrictive a b) ≡ (can_write a && can_write b))
unfolding most_restrictive can_read can_write
most_restrictive_capabilities a b = ground arith
