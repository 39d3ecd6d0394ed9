-- ===== src/Policy/PublicIp.antt =====
-- crates/cageforge-policy/src/network.rs: which IP addresses are not public.
pub mod Ranges
use cageforge.Base.{
  ℕ, ◌+◌, ◌*◌, ◌/◌, ◌%◌, ◌^◌, Bool, true, false, not, ◌&&◌, ◌||◌, ◌==◌, leb, ltb, Option, none,
  some,
}
use cageforge.Policy.Address.{IpAddr, Segments}

-- `(value & mask) == network`, for the mask of all bits but the lowest `k`.
abbrev pub in_network : ℕ → ℕ → ℕ → Bool
in_network k network value = value / 2 ^ k == network / 2 ^ k

-- The IPv4 arm of `is_non_public_ip`: the tests of `std::net::Ipv4Addr` (loopback, private,
-- link-local, unspecified, multicast, broadcast), then those written out in the source.
unfoldable pub is_non_public_ipv4 : ℕ → Bool
is_non_public_ipv4 value =
    in_network 24 0x7f00_0000 value
    || ((in_network 24 0x0a00_0000 value
          || (in_network 20 0xac10_0000 value || in_network 16 0xc0a8_0000 value))
        || (in_network 16 0xa9fe_0000 value
            || (value == 0
                || (in_network 28 0xe000_0000 value
                    || (value == 0xffff_ffff
                        || (in_network 24 0 value
                            || (in_network 22 0x6440_0000 value
                                || ((in_network 8 0xc000_0000 value
                                      && not (value == 0xc000_0009 || value == 0xc000_000a))
                                    || (in_network 8 0xc000_0200 value
                                        || (in_network 8 0xc058_6300 value
                                            || (in_network 17 0xc612_0000 value
                                                || (in_network 8 0xc633_6400 value
                                                    || (in_network 8 0xcb00_7100 value
                                                        || (in_network 28 0xf000_0000
                                                            value))))))))))))))

abbrev zero_between : Segments → Bool
zero_between s = s.s2 == 0 && (s.s3 == 0 && (s.s4 == 0 && s.s5 == 0))

-- `u16` pairs as the four bytes of an IPv4 address.
abbrev pub join_segments : ℕ → ℕ → ℕ
join_segments high low = high * 65536 + low

-- `Ipv6Addr::to_ipv4`
unfoldable pub to_ipv4 : Segments → Option ℕ
to_ipv4 s =
    elim (s.s0 == 0
      && (s.s1 == 0
          && (s.s2 == 0 && (s.s3 == 0 && (s.s4 == 0 && (s.s5 == 0 || s.s5 == 0xffff)))))) [
            | true ↦ some (join_segments s.s6 s.s7)
            | false ↦ none
          ]

unfoldable pub well_known_nat64_ipv4 : Segments → Option ℕ
well_known_nat64_ipv4 s = elim (s.s0 == 0x64 && (s.s1 == 0xff9b && zero_between s)) [
  | true ↦ some (join_segments s.s6 s.s7)
  | false ↦ none
]

abbrev pub embeds_non_public : Option ℕ → Bool
embeds_non_public none = false
embeds_non_public (some address) = is_non_public_ipv4 address

unfoldable pub is_non_public_ietf_protocol_assignment : Segments → Bool
is_non_public_ietf_protocol_assignment s =
    (s.s0 == 0x2001 && ltb s.s1 0x0200)
    && not (
        (s.s1 == 1 && (zero_between s && (s.s6 == 0 && (leb 1 s.s7 && leb s.s7 3))))
        || (s.s1 == 3 || ((s.s1 == 4 && s.s2 == 0x0112) || (leb 0x20 s.s1 && leb s.s1 0x3f))))

-- The tests of `std::net::Ipv6Addr`: loopback, unspecified, multicast, unique local, link-local.
abbrev is_special_ipv6 : Segments → Bool
is_special_ipv6 s =
    ((s.s0 == 0 && (s.s1 == 0 && (zero_between s && s.s6 == 0))) && leb s.s7 1)
    || (in_network 8 0xff00 s.s0 || (in_network 9 0xfc00 s.s0 || in_network 6 0xfe80 s.s0))

unfoldable pub is_non_public_ipv6 : Segments → Bool
unfolding is_non_public_ipv4 to_ipv4 well_known_nat64_ipv4 is_non_public_ietf_protocol_assignment
is_non_public_ipv6 s =
    is_special_ipv6 s
    || (embeds_non_public (to_ipv4 s)
        || (embeds_non_public (well_known_nat64_ipv4 s)
            || ((s.s0 == 0x64 && (s.s1 == 0xff9b && s.s2 == 1))
                || ((s.s0 == 0x100 && (s.s1 == 0 && (s.s2 == 0 && s.s3 == 0)))
                    || ((s.s0 == 0x100 && (s.s1 == 0 && (s.s2 == 0 && s.s3 == 1)))
                        || (is_non_public_ietf_protocol_assignment s
                            || (s.s0 == 0x2002
                                || ((s.s0 == 0x2001 && s.s1 == 0x0db8)
                                    || ((s.s0 == 0x3fff && leb s.s1 0x0fff)
                                        || (s.s0 == 0x5f00 || (in_network 6 0xfec0 s.s0)))))))))))

unfoldable pub is_non_public_ip : IpAddr → Bool
unfolding is_non_public_ipv4 is_non_public_ipv6
is_non_public_ip (IpAddr.v4 value) = is_non_public_ipv4 value
is_non_public_ip (IpAddr.v6 segments) = is_non_public_ipv6 segments

-- `IpAddr::is_loopback`
unfoldable pub is_loopback : IpAddr → Bool
is_loopback (IpAddr.v4 value) = in_network 24 0x7f00_0000 value
is_loopback (IpAddr.v6 s) = s.s0 == 0 && (s.s1 == 0 && (zero_between s && (s.s6 == 0 && s.s7 == 1)))
