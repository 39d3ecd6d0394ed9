-- ===== src/Backend/Prepared/Checked.antt =====
-- crates/cageforge-backend-api/src/lib.rs: the requests that pass the test.
use cageforge.Base.{
  true, false, not, ◌&&◌, ◌≡◌, refl, ap, subst, arith, all, is_empty, [], ◌∷◌, All, Result, ok, err,
  >>=-eq-ok, ok_injective, fail_if, map_err,
}
use cageforge.Policy.Access.{FilesystemDecision}
use cageforge.Policy.Context.{PathResolutionContext}
use cageforge.Policy.Glob.{GlobSet}
use cageforge.Policy.Host.{CharTable}
use cageforge.Command.Names.{OsText}
use cageforge.Command.Environment.{WildMatch, specs_equal}
use cageforge.Compose.{CompositionError, EffectivePathContext}
use cageforge.Compose
use cageforge.Compose.Sandbox.{is_granted, path_context}
use cageforge.Compose.Sandbox.Contexts.{path_context-IsGranted}
use cageforge.Backend.Capability.{BackendCapability, BackendCapabilities, supports, capabilities_eq}
use cageforge.Backend.Prepared.{
  BackendContractError, SandboxBackend, BackendRequest, PreparedBackendRequest, check_supported,
  resolve_working_directory, is_deny, required_capabilities, prepare_for, ensure_backend,
}

check_supported-eq-ok :
    (capabilities required : BackendCapabilities)
    → check_supported capabilities required ≡ ok tt
    → all (supports capabilities) required ≡ true
unfolding check_supported
check_supported-eq-ok capabilities [] h = refl
check_supported-eq-ok capabilities (c ∷ required) h =
    ground (arith, check_supported-eq-ok capabilities required)

map_err-eq-ok :
    {A : Type 0} (f : CompositionError → BackendContractError) (r : Result CompositionError A)
    {a : A}
    → map_err f r ≡ ok a
    → r ≡ ok a
map_err-eq-ok f (ok b) h = ap ok (ok_injective h)
map_err-eq-ok f (err e) h = absurd (cc)

capabilities_eq_refl :
    (capabilities : BackendCapabilities) → capabilities_eq capabilities capabilities ≡ true
unfolding capabilities_eq
capabilities_eq_refl [] = refl
capabilities_eq_refl (c ∷ capabilities) = ground (arith, capabilities_eq_refl capabilities)

module _ ⦃g : GlobSet⦄ ⦃t : CharTable⦄ ⦃o : OsText⦄ ⦃w : WildMatch⦄ where
  -- What a backend may rely on.
  abbrev pub IsChecked : BackendRequest → SandboxBackend → PreparedBackendRequest → Type 0
  IsChecked request backend prepared =
      (prepared.request ≡ request)
      × (ensure_backend prepared backend ≡ ok tt)
      × (specs_equal request.sandbox.environment.requested request.command.environment ≡ true)
      × (all (supports backend.capabilities) (required_capabilities request) ≡ true)
      × (All (λ root. is_granted request.sandbox.workspace_root_limit root ≡ true)
          prepared.path_context.context.workspace_roots)
      × ((decision : FilesystemDecision) × (Compose.access_for_path request.sandbox.filesystem
              prepared.working_directory prepared.path_context
            ≡ ok decision)
          × (is_deny decision ≡ false))

  -- A request that passes the test is one whose environment is that of its sandbox, for which the
  -- backend supports every capability required, whose context has its roots within the limit of the
  -- sandbox, and whose working directory the effective policy does not deny; and its queries through
  -- that backend pass the test of the backend.
  pub prepare_for-IsChecked :
      (request : BackendRequest) (backend : SandboxBackend) (base : PathResolutionContext)
      (prepared : PreparedBackendRequest)
      → prepare_for request backend base ≡ ok prepared
      → IsChecked request backend prepared
  unfolding prepare_for ensure_backend
  prepare_for-IsChecked request backend base prepared h =
      let (_, same, h1) =
        >>=-eq-ok
          (fail_if
            (not (specs_equal request.sandbox.environment.requested request.command.environment)) _)
          _ h in
      let (_, supported, h2) =
        >>=-eq-ok (check_supported backend.capabilities (required_capabilities request)) _ h1 in
      let (context, made, h3) =
        >>=-eq-ok
          (map_err BackendContractError.invalid_runtime_context (path_context request.sandbox base))
          _ h2 in
      let (_, _, h4) =
        >>=-eq-ok
          (fail_if
            (not (is_empty context.context.executable_roots)
              && not
                  (supports backend.capabilities BackendCapability.filesystem_executable_mapping))
            _)
          _ h3 in
      let (directory, _, h5) =
        >>=-eq-ok
          (resolve_working_directory request.command.working_directory base.current_directory) _
          h4 in
      let (decision, decided, h6) =
        >>=-eq-ok
          (map_err BackendContractError.filesystem_evaluation
            (Compose.access_for_path request.sandbox.filesystem directory context))
          _ h5 in
      let (_, passed, h7) = >>=-eq-ok (fail_if (is_deny decision) _) _ h6 in
      subst (IsChecked request backend) (ok_injective h7) (
        refl,
        ground (arith, capabilities_eq_refl backend.capabilities),
        ground arith,
        check_supported-eq-ok backend.capabilities (required_capabilities request) supported,
        (path_context-IsGranted request.sandbox base context (
            map_err-eq-ok BackendContractError.invalid_runtime_context
              (path_context request.sandbox base) made)).1,
        (
          decision,
          map_err-eq-ok BackendContractError.filesystem_evaluation
              (Compose.access_for_path request.sandbox.filesystem directory context) decided,
          ground arith,
        ),
      )
