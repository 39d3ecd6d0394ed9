-- ===== src/Tests/Merges.antt =====
-- The theorems on normalised network policies at concrete policies.
use cageforge.Base.{true, false, List, [], ◌∷◌, Text, codes, ok, Result, ◌≡◌, refl, All}
use cageforge.Path.Components.{FilePath}
use cageforge.Policy.Network.{
  DomainAccess, NetworkMode, DomainMode, UnixSocketMode, NetworkPolicy, DomainRule, UnixSocketRule,
  new_enabled, with_domain,
}
use cageforge.Policy.LocalIpc.{LocalIpcEndpoint}
use cageforge.Policy.Network.Endpoints.{IsUnrepeated, with_local_ipc-IsUnrepeated}
use cageforge.Tests.{literals, ascii}

abbrev pub socket : FilePath → DomainAccess → UnixSocketRule
socket path access = record { path = path; access = access }

abbrev open_network : NetworkPolicy
unfolding new_enabled
open_network = new_enabled

abbrev pipe : LocalIpcEndpoint
pipe = LocalIpcEndpoint.unix_socket (codes "/run/s")

-- The rule opens the sockets of the policy as well.
abbrev with_pipe : NetworkPolicy
with_pipe = record open_network {
  unix_socket_mode = UnixSocketMode.restricted;
  unix_sockets = socket (codes "/run/s") DomainAccess.allow ∷ [];
  local_ipc = record { endpoint = pipe; access = DomainAccess.allow } ∷ [];
}

with_local_ipc-IsUnrepeated_example :
    IsUnrepeated with_pipe.local_ipc
    × (with_pipe.local_ipc ≡ record { endpoint = pipe; access = DomainAccess.allow } ∷ [])
unfolding cageforge.Policy.Network.with_local_ipc open_network
    cageforge.Policy.LocalIpc.validate_endpoint cageforge.Path.Compare.contains_parent_traversal
    cageforge.Path.Components.components cageforge.Base.text_eq
with_local_ipc-IsUnrepeated_example =
    with_local_ipc-IsUnrepeated open_network with_pipe pipe DomainAccess.allow refl tt
