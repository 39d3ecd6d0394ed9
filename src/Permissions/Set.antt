-- ===== src/Permissions/Set.antt =====
-- crates/cageforge-permissions/src/lib.rs: the sets of capabilities.
pub mod Laws
use cageforge.Base.{
  Bool, true, false, not, ◌&&◌, ◌||◌, List, [], ◌∷◌, ◌++◌, any, all, keep, is_empty, if◌then◌else◌,
}
use cageforge.Permissions.Capability.{
  Ordered, FilesystemCapability, NetworkCapability, ProcessCapability, filesystem_order,
  network_order, process_order,
}

module _ {A : Type 0} ⦃o : Ordered A⦄ where
  -- `Vec::contains`
  abbrev pub contains : List A → A → Bool
  contains values value = any (λ v. o.eq v value) values

  -- `Vec::sort`, a stable sort.
  unfoldable pub insert_in_order : A → List A → List A
  insert_in_order a [] = a ∷ []
  insert_in_order a (b ∷ values) =
      let rest = insert_in_order a values in if o.leb a b then a ∷ b ∷ values else b ∷ rest

  unfoldable pub sort : List A → List A
  unfolding insert_in_order
  sort [] = []
  sort (a ∷ values) = insert_in_order a (sort values)

  -- `with_filesystem`, `with_network` and `with_child_process` on their list.
  unfoldable pub with_capability : A → List A → List A
  unfolding sort
  with_capability capability values =
      if contains values capability then values else sort (values ++ (capability ∷ []))

  -- A loop of `extend_from`, which pushes what is new.
  unfoldable pub push_missing : List A → List A → List A
  push_missing values [] = values
  push_missing values (capability ∷ capabilities) =
      push_missing (if contains values capability then values else values ++ (capability ∷ []))
        capabilities

pub record PermissionSet : Type 0 where
  pub filesystem : List FilesystemCapability
  pub network : List NetworkCapability
  pub child_processes : List ProcessCapability

unfoldable pub new_set : PermissionSet
new_set = record { filesystem = []; network = []; child_processes = [] }

unfoldable pub with_filesystem : PermissionSet → FilesystemCapability → PermissionSet
unfolding with_capability
with_filesystem set capability = record set {
  filesystem = with_capability capability set.filesystem;
}

unfoldable pub with_network : PermissionSet → NetworkCapability → PermissionSet
unfolding with_capability
with_network set capability = record set { network = with_capability capability set.network }

unfoldable pub with_child_process : PermissionSet → ProcessCapability → PermissionSet
unfolding with_capability
with_child_process set capability = record set {
  child_processes = with_capability capability set.child_processes;
}

unfoldable pub is_subset_of : PermissionSet → PermissionSet → Bool
is_subset_of set request =
    all (contains request.filesystem) set.filesystem
    && (all (contains request.network) set.network
        && all (contains request.child_processes) set.child_processes)

unfoldable pub is_empty_set : PermissionSet → Bool
is_empty_set set = is_empty set.filesystem && (is_empty set.network && is_empty set.child_processes)

unfoldable pub additional_to : PermissionSet → PermissionSet → PermissionSet
additional_to set base = record {
  filesystem = keep (λ c. not (contains base.filesystem c)) set.filesystem;
  network = keep (λ c. not (contains base.network c)) set.network;
  child_processes = keep (λ c. not (contains base.child_processes c)) set.child_processes;
}

unfoldable pub extend_from : PermissionSet → PermissionSet → PermissionSet
unfolding sort push_missing
extend_from set other = record {
  filesystem = sort (push_missing set.filesystem other.filesystem);
  network = sort (push_missing set.network other.network);
  child_processes = sort (push_missing set.child_processes other.child_processes);
}
