-- ===== src/Policy/PublicIp/Ranges.antt =====
-- The IPv4 test as a table of address ranges.
use cageforge.Base.{
  ℕ, ◌^◌, ◌<◌, Bool, false, not, ◌&&◌, ◌||◌, ◌==◌, leb, List, [], ◌∷◌, any, ◌≡◌, arith, or_cong,
  or_last,
}
use cageforge.Policy.PublicIp.{in_network, is_non_public_ipv4}

abbrev pub within_range : ℕ → ℕ × ℕ → Bool
within_range value r = leb r.0 value && leb value r.1

-- The first and the last address of each range of a registry entry that is not public.
abbrev pub non_public_entries : List (List (ℕ × ℕ))
non_public_entries =
    -- loopback
    ((0x7f00_0000, 0x7fff_ffff) ∷ [])
    -- private use
    ∷ ((0x0a00_0000, 0x0aff_ffff) ∷ (0xac10_0000, 0xac1f_ffff) ∷ (0xc0a8_0000, 0xc0a8_ffff) ∷ [])
    -- link-local
    ∷ ((0xa9fe_0000, 0xa9fe_ffff) ∷ [])
    -- unspecified
    ∷ ((0x0000_0000, 0x0000_0000) ∷ [])
    -- multicast
    ∷ ((0xe000_0000, 0xefff_ffff) ∷ [])
    -- broadcast
    ∷ ((0xffff_ffff, 0xffff_ffff) ∷ [])
    -- this network
    ∷ ((0x0000_0000, 0x00ff_ffff) ∷ [])
    -- shared address space
    ∷ ((0x6440_0000, 0x647f_ffff) ∷ [])
    -- protocol assignments, less the two anycast addresses
    ∷ ((0xc000_0000, 0xc000_0008) ∷ (0xc000_000b, 0xc000_00ff) ∷ [])
    -- documentation
    ∷ ((0xc000_0200, 0xc000_02ff) ∷ [])
    -- 6to4 relay anycast
    ∷ ((0xc058_6300, 0xc058_63ff) ∷ [])
    -- benchmarking
    ∷ ((0xc612_0000, 0xc613_ffff) ∷ [])
    -- documentation
    ∷ ((0xc633_6400, 0xc633_64ff) ∷ [])
    -- documentation
    ∷ ((0xcb00_7100, 0xcb00_71ff) ∷ [])
    -- reserved
    ∷ ((0xf000_0000, 0xffff_ffff) ∷ [])
    ∷ []

module _ (value : ℕ) (word : value < 2 ^ 32) where
  entry_0 :
      (in_network 24 0x7f00_0000 value) ≡ (within_range value (0x7f00_0000, 0x7fff_ffff) || false)
  entry_0 = ground arith

  entry_1 :
      (in_network 24 0x0a00_0000 value
        || (in_network 20 0xac10_0000 value || in_network 16 0xc0a8_0000 value))
      ≡ (within_range value (0x0a00_0000, 0x0aff_ffff)
          || (within_range value (0xac10_0000, 0xac1f_ffff)
              || (within_range value (0xc0a8_0000, 0xc0a8_ffff) || false)))
  entry_1 = ground arith

  entry_2 :
      (in_network 16 0xa9fe_0000 value) ≡ (within_range value (0xa9fe_0000, 0xa9fe_ffff) || false)
  entry_2 = ground arith

  entry_3 : (value == 0) ≡ (within_range value (0x0000_0000, 0x0000_0000) || false)
  entry_3 = ground arith

  entry_4 :
      (in_network 28 0xe000_0000 value) ≡ (within_range value (0xe000_0000, 0xefff_ffff) || false)
  entry_4 = ground arith

  entry_5 : (value == 0xffff_ffff) ≡ (within_range value (0xffff_ffff, 0xffff_ffff) || false)
  entry_5 = ground arith

  entry_6 : (in_network 24 0 value) ≡ (within_range value (0x0000_0000, 0x00ff_ffff) || false)
  entry_6 = ground arith

  entry_7 :
      (in_network 22 0x6440_0000 value) ≡ (within_range value (0x6440_0000, 0x647f_ffff) || false)
  entry_7 = ground arith

  entry_8 :
      (in_network 8 0xc000_0000 value && not (value == 0xc000_0009 || value == 0xc000_000a)) ≡ (
        within_range value (0xc000_0000, 0xc000_0008)
        || (within_range value (0xc000_000b, 0xc000_00ff) || false))
  entry_8 = ground arith

  entry_9 :
      (in_network 8 0xc000_0200 value) ≡ (within_range value (0xc000_0200, 0xc000_02ff) || false)
  entry_9 = ground arith

  entry_10 :
      (in_network 8 0xc058_6300 value) ≡ (within_range value (0xc058_6300, 0xc058_63ff) || false)
  entry_10 = ground arith

  entry_11 :
      (in_network 17 0xc612_0000 value) ≡ (within_range value (0xc612_0000, 0xc613_ffff) || false)
  entry_11 = ground arith

  entry_12 :
      (in_network 8 0xc633_6400 value) ≡ (within_range value (0xc633_6400, 0xc633_64ff) || false)
  entry_12 = ground arith

  entry_13 :
      (in_network 8 0xcb00_7100 value) ≡ (within_range value (0xcb00_7100, 0xcb00_71ff) || false)
  entry_13 = ground arith

  entry_14 :
      (in_network 28 0xf000_0000 value) ≡ (within_range value (0xf000_0000, 0xffff_ffff) || false)
  entry_14 = ground arith

  -- For every address of 32 bits, the test of the source is membership in the table.
  pub is_non_public_ipv4-eq-any_range :
      is_non_public_ipv4 value ≡ any (λ entry. any (within_range value) entry) non_public_entries
  unfolding is_non_public_ipv4
  is_non_public_ipv4-eq-any_range = or_cong entry_0 (
      or_cong entry_1 (
        or_cong entry_2 (
          or_cong entry_3 (
            or_cong entry_4 (
              or_cong entry_5 (
                or_cong entry_6 (
                  or_cong entry_7 (
                    or_cong entry_8 (
                      or_cong entry_9 (
                        or_cong entry_10 (
                          or_cong entry_11
                            (or_cong entry_12 (or_cong entry_13 (or_last entry_14))))))))))))))
