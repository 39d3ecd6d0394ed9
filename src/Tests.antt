-- ===== src/Tests.antt =====
-- Concrete inputs: the theorems applied to them, and runs of the definitions.
mod Paths
mod Files
mod Networks
mod Merges
mod Sandboxes
mod Composed
mod Grants
mod Environments
mod OsNames
mod Backends
mod Dialects
use cageforge.Base.{
  ℕ, Bool, true, false, ◌&&◌, ◌||◌, leb, List, [], ◌∷◌, Text, codes, text_eq, Result, ok, err,
}
use cageforge.Path.Components.{FilePath}
use cageforge.Policy.Access.{AccessMode}
use cageforge.Policy.Selector.{PathSelector}
use cageforge.Policy.Context.{PathResolutionContext, new_context, path_key}
use cageforge.Policy.Glob.{GlobSet, GlobOptions}
use cageforge.Policy.Rule.{FilesystemRule, new_rule}
use cageforge.Policy.Filesystem.{FilesystemPolicy, new_restricted}
use cageforge.Policy.Host.{CharTable}

-- A glob library that knows literal components and "*".
instance abbrev pub literals : GlobSet
literals = record {
  GlobMatcher = Text;
  build = λ options pattern. ok pattern;
  is_match = λ matcher part. text_eq matcher (codes "*") || text_eq matcher part;
}

-- The letters and digits of ASCII.
instance abbrev pub ascii : CharTable
ascii = record {
  is_alphanumeric =
      λ c. (leb b'0' c && leb c b'9') || ((leb b'a' c && leb c b'z') || (leb b'A' c && leb c b'Z'));
}

abbrev pub rule_on : FilePath → AccessMode → FilesystemRule
unfolding new_rule
rule_on path access = new_rule (PathSelector.absolute path) access

abbrev pub work : FilePath
work = codes "/w"

abbrev pub work_file : FilePath
work_file = codes "/w/src/f"

abbrev pub secret : FilePath
secret = codes "/w/key"

-- Writing is allowed below "/w", less one file, and reading everywhere.
abbrev pub work_policy : FilesystemPolicy
unfolding new_restricted
work_policy = new_restricted (
    rule_on work AccessMode.write
    ∷ rule_on secret AccessMode.deny
    ∷ rule_on (codes "/") AccessMode.read
    ∷ [])
