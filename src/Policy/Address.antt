-- ===== src/Policy/Address.antt =====
-- `std::net`: IP addresses and socket addresses, as the policy uses them.
use cageforge.Base.{ℕ, Bool, true, false, ◌&&◌, ◌==◌, ◌≡◌, ◌↔◌, arith}

-- `Ipv6Addr::segments`
pub record Segments : Type 0 where
  pub s0 : ℕ
  pub s1 : ℕ
  pub s2 : ℕ
  pub s3 : ℕ
  pub s4 : ℕ
  pub s5 : ℕ
  pub s6 : ℕ
  pub s7 : ℕ

-- An IPv4 address is its `u32`.
pub data IpAddr : Type 0 where
  v4 : ℕ → IpAddr
  v6 : Segments → IpAddr

pub data SocketAddr : Type 0 where
  v4 : ℕ → ℕ → SocketAddr
  v6 : Segments → ℕ → ℕ → ℕ → SocketAddr

unfoldable pub segments_eq : Segments → Segments → Bool
segments_eq a b =
    a.s0 == b.s0
    && (a.s1 == b.s1
        && (a.s2 == b.s2
            && (a.s3 == b.s3
                && (a.s4 == b.s4 && (a.s5 == b.s5 && (a.s6 == b.s6 && a.s7 == b.s7))))))

unfoldable pub ip_eq : IpAddr → IpAddr → Bool
ip_eq (IpAddr.v4 a) (IpAddr.v4 b) = a == b
ip_eq (IpAddr.v6 a) (IpAddr.v6 b) = segments_eq a b
ip_eq _ _ = false

-- `SocketAddr::ip`
unfoldable pub socket_ip : SocketAddr → IpAddr
socket_ip (SocketAddr.v4 a port) = IpAddr.v4 a
socket_ip (SocketAddr.v6 a port flowinfo scope_id) = IpAddr.v6 a

unfoldable pub socket_eq : SocketAddr → SocketAddr → Bool
socket_eq (SocketAddr.v4 a port) (SocketAddr.v4 b port') = a == b && port == port'
socket_eq (SocketAddr.v6 a port flow scope) (SocketAddr.v6 b port' flow' scope') =
    segments_eq a b && (port == port' && (flow == flow' && scope == scope'))
socket_eq _ _ = false

pub segments_eq_iff : (a b : Segments) → (segments_eq a b ≡ true) ↔ (a ≡ b)
unfolding segments_eq
segments_eq_iff a b = ground arith

pub ip_eq_iff : (a b : IpAddr) → (ip_eq a b ≡ true) ↔ (a ≡ b)
unfolding ip_eq
ip_eq_iff (IpAddr.v4 a) (IpAddr.v4 b) = ground arith
ip_eq_iff (IpAddr.v6 a) (IpAddr.v6 b) = ground (arith, segments_eq_iff a b)
ip_eq_iff (IpAddr.v4 a) (IpAddr.v6 b) = ground arith
ip_eq_iff (IpAddr.v6 a) (IpAddr.v4 b) = ground arith

pub socket_eq_iff : (a b : SocketAddr) → (socket_eq a b ≡ true) ↔ (a ≡ b)
unfolding socket_eq
socket_eq_iff (SocketAddr.v4 a p) (SocketAddr.v4 b q) = ground arith
socket_eq_iff (SocketAddr.v6 a p f s) (SocketAddr.v6 b q g t) = ground (arith, segments_eq_iff a b)
socket_eq_iff (SocketAddr.v4 a p) (SocketAddr.v6 b q g t) = ground arith
socket_eq_iff (SocketAddr.v6 a p f s) (SocketAddr.v4 b q) = ground arith
