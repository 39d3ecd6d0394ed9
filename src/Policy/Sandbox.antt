-- ===== src/Policy/Sandbox.antt =====
-- crates/cageforge-policy/src/policy.rs: the sandbox policy of the two boundaries.
pub mod Presets
use cageforge.Base.{Result, ok, ◌>>=◌, ◌>>◌, List, [], ◌∷◌}
use cageforge.Policy.Error.{PolicyError}
use cageforge.Policy.Access.{AccessMode}
use cageforge.Policy.Selector.{PathSelector, new_workspace_root}
use cageforge.Policy.Glob.{GlobSet}
use cageforge.Policy.Rule.{FilesystemRule, new_rule}
use cageforge.Policy.Filesystem.{FilesystemPolicy, new_restricted, validate, normalized}
use cageforge.Policy.Filesystem
use cageforge.Policy.Network.{NetworkPolicy, new_disabled, validate_network, normalized_network}
use cageforge.Policy.Network

module _ ⦃g : GlobSet⦄ where
  pub record SandboxPolicy : Type 0 where
    pub filesystem : FilesystemPolicy
    pub network : NetworkPolicy

  -- The rules of the two presets, whose last three differ in their access.
  abbrev pub preset_rules : AccessMode → List FilesystemRule
  unfolding new_rule
  preset_rules access =
      new_rule PathSelector.root AccessMode.read
      ∷ new_rule PathSelector.minimal AccessMode.read
      ∷ new_rule new_workspace_root access
      ∷ new_rule PathSelector.tmpdir access
      ∷ new_rule PathSelector.slash_tmp access
      ∷ []

  unfoldable pub read_only : SandboxPolicy
  unfolding preset_rules new_restricted new_disabled
  read_only = record {
    filesystem = new_restricted (preset_rules AccessMode.read);
    network = new_disabled;
  }

  unfoldable pub workspace : SandboxPolicy
  unfolding preset_rules new_restricted new_disabled
  workspace = record {
    filesystem = new_restricted (preset_rules AccessMode.write);
    network = new_disabled;
  }

  unfoldable pub full_access : SandboxPolicy
  full_access = record {
    filesystem = Filesystem.new_unrestricted;
    network = Network.new_unrestricted;
  }

  unfoldable pub validate_sandbox : SandboxPolicy → Result PolicyError (Unit {0})
  unfolding validate validate_network
  validate_sandbox policy = do validate policy.filesystem; validate_network policy.network; ok tt

  unfoldable pub normalized_sandbox : SandboxPolicy → Result PolicyError SandboxPolicy
  unfolding normalized normalized_network
  normalized_sandbox policy = do
    filesystem ← normalized policy.filesystem
    network ← normalized_network policy.network
    ok (record { filesystem = filesystem; network = network })
