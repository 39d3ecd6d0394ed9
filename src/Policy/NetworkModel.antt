-- ===== src/Policy/NetworkModel.antt =====
-- crates/cageforge-policy/src/network/model.rs: the modes and the rules of a network policy that
-- hold no matcher.
use cageforge.Base.{Bool, true, false, List, Text}
use cageforge.Path.Components.{FilePath}
use cageforge.Policy.Address.{SocketAddr}
use cageforge.Policy.LocalIpc.{LocalIpcEndpoint}

pub data DomainAccess : Type 0 where
  allow deny : DomainAccess

pub data LocalNetworkAccess : Type 0 where
  deny allow : LocalNetworkAccess

pub data UnixSocketMode : Type 0 where
  disabled enabled restricted : UnixSocketMode

pub data DomainMode : Type 0 where
  disabled enabled restricted : DomainMode

pub data NetworkMode : Type 0 where
  disabled enabled external : NetworkMode

abbrev pub is_allow : DomainAccess → Bool
is_allow DomainAccess.allow = true
is_allow DomainAccess.deny = false

abbrev pub allows_local : LocalNetworkAccess → Bool
allows_local LocalNetworkAccess.allow = true
allows_local LocalNetworkAccess.deny = false

abbrev pub sockets_disabled : UnixSocketMode → Bool
sockets_disabled UnixSocketMode.disabled = true
sockets_disabled _ = false

abbrev pub domains_disabled : DomainMode → Bool
domains_disabled DomainMode.disabled = true
domains_disabled _ = false

abbrev pub is_external : NetworkMode → Bool
is_external NetworkMode.external = true
is_external _ = false

abbrev pub is_disabled : NetworkMode → Bool
is_disabled NetworkMode.disabled = true
is_disabled _ = false

pub record UnixSocketRule : Type 0 where
  pub path : FilePath
  pub access : DomainAccess

pub record LocalIpcRule : Type 0 where
  pub endpoint : LocalIpcEndpoint
  pub access : DomainAccess

pub record ResolvedNetworkTarget : Type 0 where
  pub domain : Text
  pub addresses : List SocketAddr
