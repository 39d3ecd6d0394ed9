-- ===== src/Policy/LocalIpc.antt =====
-- crates/cageforge-policy/src/local_ipc.rs: typed local-IPC endpoints.
use cageforge.Base.{
  ascii_lower, ℕ, Bool, false, not, ◌||◌, ltb, Option, none, some, [], ◌∷◌, ◌++◌, map, Text, codes,
  all, is_empty, take, drop, starts_with_char, contains_char, text_eq, if◌then◌else◌, Result, ok,
  ◌>>=◌, ◌>>◌, fail_if, ◌+◌,
}
use cageforge.Path.Components.{FilePath, components}
use cageforge.Path.Compare.{contains_parent_traversal, equal_loop}
use cageforge.Policy.Error.{PolicyError}

-- `UnixSocket(AbsolutePath)` and `WindowsNamedPipe(NamedPipeName)`.
pub data LocalIpcEndpoint : Type 0 where
  unix_socket : FilePath → LocalIpcEndpoint
  windows_named_pipe : Text → LocalIpcEndpoint

-- `AbsolutePath::new`
unfoldable pub new_absolute_path : FilePath → Result PolicyError FilePath
new_absolute_path path = do
  fail_if (is_empty path) PolicyError.empty_path
  fail_if (contains_char 0 path) (PolicyError.path_contains_nul path)
  fail_if (not (starts_with_char b'/' path)) (PolicyError.expected_absolute path)
  fail_if (contains_parent_traversal path) (PolicyError.parent_traversal path)
  ok path

abbrev pub pipe_prefix : Text
pipe_prefix = b'\\' ∷ b'\\' ∷ b'.' ∷ b'\\' ∷ b'p' ∷ b'i' ∷ b'p' ∷ b'e' ∷ b'\\' ∷ []

-- The code units of UTF-16.
abbrev pub utf16_len : Text → ℕ
utf16_len [] = 0
utf16_len (c ∷ s) = (if ltb c 0x10000 then 1 else 2) + utf16_len s

abbrev unsafe_pipe_name : Text → Bool
unsafe_pipe_name name =
    is_empty name
    || (contains_char 0 name
        || (contains_char b'/' name
            || (contains_char b'\\' name
                || (text_eq name (codes ".")
                    || (text_eq name (codes "..")
                        || (contains_char b':' name || not (all (λ c. ltb c 128) name)))))))

-- `NamedPipeName::new`
unfoldable pub new_pipe_name : Text → Result PolicyError Text
new_pipe_name value = do
  fail_if (not (text_eq (map ascii_lower (take 9 value)) pipe_prefix)) (
      PolicyError.invalid_local_ipc_endpoint value
        "named pipe must use the local \\\\.\\pipe\\ namespace")
  fail_if (unsafe_pipe_name (drop 9 value)) (
      PolicyError.invalid_local_ipc_endpoint value
        "named pipe name is empty or contains an unsafe component")
  fail_if (ltb 256 (utf16_len value))
      (PolicyError.invalid_local_ipc_endpoint value "named pipe name exceeds the supported length")
  ok (pipe_prefix ++ map ascii_lower (drop 9 value))

unfoldable pub new_unix_socket : FilePath → Result PolicyError LocalIpcEndpoint
unfolding new_absolute_path
new_unix_socket path = do p ← new_absolute_path path; ok (LocalIpcEndpoint.unix_socket p)

unfoldable pub new_windows_named_pipe : Text → Result PolicyError LocalIpcEndpoint
unfolding new_pipe_name
new_windows_named_pipe name = do n ← new_pipe_name name; ok (LocalIpcEndpoint.windows_named_pipe n)

unfoldable pub unix_path : LocalIpcEndpoint → Option FilePath
unix_path (LocalIpcEndpoint.unix_socket path) = some path
unix_path (LocalIpcEndpoint.windows_named_pipe _) = none

unfoldable pub named_pipe : LocalIpcEndpoint → Option Text
named_pipe (LocalIpcEndpoint.unix_socket _) = none
named_pipe (LocalIpcEndpoint.windows_named_pipe name) = some name

-- `LocalIpcEndpoint::validate`
unfoldable pub validate_endpoint : LocalIpcEndpoint → Result PolicyError (Unit {0})
unfolding new_pipe_name
validate_endpoint (LocalIpcEndpoint.unix_socket path) =
    fail_if (contains_parent_traversal path)
      (PolicyError.invalid_local_ipc_endpoint path "parent traversal is not allowed")
validate_endpoint (LocalIpcEndpoint.windows_named_pipe name) = new_pipe_name name >> ok tt

-- The derived `==`, which compares paths by their components.
unfoldable pub endpoint_eq : LocalIpcEndpoint → LocalIpcEndpoint → Bool
endpoint_eq (LocalIpcEndpoint.unix_socket a) (LocalIpcEndpoint.unix_socket b) =
    equal_loop (components a) (components b)
endpoint_eq (LocalIpcEndpoint.windows_named_pipe a) (LocalIpcEndpoint.windows_named_pipe b) =
    text_eq a b
endpoint_eq _ _ = false

-- How an error names an endpoint.
unfoldable pub endpoint_text : LocalIpcEndpoint → Text
endpoint_text (LocalIpcEndpoint.unix_socket path) = codes "unix:" ++ path
endpoint_text (LocalIpcEndpoint.windows_named_pipe name) = codes "pipe:" ++ name
