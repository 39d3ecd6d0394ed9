-- ===== src/Compose/Sandbox/Contexts.antt =====
-- crates/cageforge-policy-compose/src/model.rs: the context of an effective sandbox.
use cageforge.Base.{
  true, ◌≡◌, refl, sym, ap, subst, arith, some, List, [], ◌∷◌, All, All-append, any, keep-IsKept,
  if_elim, Result, ok, err, ◌>>=◌, >>=-eq-ok, ok_injective, map_err,
}
use cageforge.Path.Components.{FilePath}
use cageforge.Policy.Error.{PolicyError}
use cageforge.Policy.Context.{
  NativePathKey, PathResolutionContext, path_key, path_key_eq, push_new, new_context, with_root,
  with_workspace_root, with_minimal_path, with_executable_root, with_tmpdir, with_slash_tmp,
  with_current_directory, validated_absolute, selector_path, option_list,
}
use cageforge.Policy.Selector.{new_absolute}
use cageforge.Policy.Glob.{GlobSet}
use cageforge.Policy.Host.{CharTable}
use cageforge.Command.Names.{OsText}
use cageforge.Command.Environment.{WildMatch}
use cageforge.Compose.{CompositionError, EffectivePathContext}
use cageforge.Compose.Sandbox.{
  EffectiveSandbox, add_paths, is_granted, unwrap_or, granted_roots, path_context,
}

push_new-All :
    (P : FilePath → Type 0) (path : FilePath) (paths : List FilePath) (keys : List NativePathKey)
    → P path
    → All P paths
    → All P (push_new path paths keys).0
unfolding push_new
push_new-All P path paths keys p h =
    if_elim (λ (r : List FilePath × List NativePathKey). All P r.0)
      (any (path_key_eq (path_key path)) keys) (λ _. h)
      (λ _. All-append P paths (path ∷ []) h (p, tt))

validated_absolute-eq-ok : (path p : FilePath) → validated_absolute path ≡ ok p → p ≡ path
unfolding validated_absolute new_absolute selector_path
validated_absolute-eq-ok path p h = ground arith

unit-All : (paths : List FilePath) → All (λ _. Unit {0}) paths
unit-All [] = tt
unit-All (path ∷ paths) = (tt, unit-All paths)

module _ (P : FilePath → Type 0) where
  abbrev HasRoots : PathResolutionContext → Type 0
  HasRoots context = All P context.workspace_roots

  with_workspace_root-HasRoots :
      (context : PathResolutionContext) (path : FilePath) (after : PathResolutionContext)
      → with_workspace_root context path ≡ ok after
      → P path
      → HasRoots context
      → HasRoots after
  unfolding with_workspace_root
  with_workspace_root-HasRoots context path after h p roots =
      let (q, valid, made) = >>=-eq-ok (validated_absolute path) _ h in
      subst HasRoots (ok_injective made) (
        push_new-All P q context.workspace_roots context.workspace_root_keys
          (subst P (sym (validated_absolute-eq-ok path q valid)) p) roots)

  -- The paths that a step takes have the first property, and it keeps the roots.
  add_paths-HasRoots :
      (Q : FilePath → Type 0)
      (add : PathResolutionContext → FilePath → Result PolicyError PathResolutionContext)
      → ((context : PathResolutionContext) (path : FilePath) (after : PathResolutionContext)
          → add context path ≡ ok after
          → Q path
          → HasRoots context
          → HasRoots after)
      → (paths : List FilePath) (context after : PathResolutionContext)
      → add_paths add paths context ≡ ok after
      → All Q paths
      → HasRoots context
      → HasRoots after
  unfolding add_paths
  add_paths-HasRoots Q add step [] context after h q roots = subst HasRoots (ok_injective h) roots
  add_paths-HasRoots Q add step (path ∷ paths) context after h (q, qs) roots =
      let (next, first, rest) =
        >>=-eq-ok (map_err CompositionError.invalid_path_context (add context path)) _ h in
      add_paths-HasRoots Q add step paths next after rest qs
        (step context path next (plain (add context path) first) q roots)
    where
      plain :
          (r : Result PolicyError PathResolutionContext) {a : PathResolutionContext}
          → map_err CompositionError.invalid_path_context r ≡ ok a
          → r ≡ ok a
      plain (ok b) e = ap ok (ok_injective e)
      plain (err b) e = absurd (cc)

  -- The other steps leave the workspace roots as they are.
  step_roots :
      (set : PathResolutionContext → FilePath → PathResolutionContext)
      → ((context : PathResolutionContext) (p : FilePath)
          → (set context p).workspace_roots ≡ context.workspace_roots)
      → (context : PathResolutionContext) (path : FilePath) (after : PathResolutionContext)
      → (validated_absolute path >>= λ p. ok (set context p)) ≡ ok after
      → Unit {0}
      → HasRoots context
      → HasRoots after
  step_roots set same context path after h _ roots =
      let (p, _, made) = >>=-eq-ok (validated_absolute path) _ h in
      subst HasRoots (ok_injective made) (subst (All P) (sym (same context p)) roots)

  with_root-HasRoots :
      (context : PathResolutionContext) (path : FilePath) (after : PathResolutionContext)
      → with_root context path ≡ ok after
      → Unit {0}
      → HasRoots context
      → HasRoots after
  unfolding with_root
  with_root-HasRoots =
      step_roots
        (λ c p.
          let (paths, keys) = push_new p c.root_paths c.root_keys in
          record c { root_paths = paths; root_keys = keys })
        (λ c p. refl)

  with_minimal_path-HasRoots :
      (context : PathResolutionContext) (path : FilePath) (after : PathResolutionContext)
      → with_minimal_path context path ≡ ok after
      → Unit {0}
      → HasRoots context
      → HasRoots after
  unfolding with_minimal_path
  with_minimal_path-HasRoots =
      step_roots
        (λ c p.
          let (paths, keys) = push_new p c.minimal_paths c.minimal_path_keys in
          record c { minimal_paths = paths; minimal_path_keys = keys })
        (λ c p. refl)

  with_executable_root-HasRoots :
      (context : PathResolutionContext) (path : FilePath) (after : PathResolutionContext)
      → with_executable_root context path ≡ ok after
      → Unit {0}
      → HasRoots context
      → HasRoots after
  unfolding with_executable_root
  with_executable_root-HasRoots =
      step_roots
        (λ c p.
          let (paths, keys) = push_new p c.executable_roots c.executable_root_keys in
          record c { executable_roots = paths; executable_root_keys = keys })
        (λ c p. refl)

  with_tmpdir-HasRoots :
      (context : PathResolutionContext) (path : FilePath) (after : PathResolutionContext)
      → with_tmpdir context path ≡ ok after
      → Unit {0}
      → HasRoots context
      → HasRoots after
  unfolding with_tmpdir
  with_tmpdir-HasRoots = step_roots (λ c p. record c { tmpdir = some p }) (λ c p. refl)

  with_slash_tmp-HasRoots :
      (context : PathResolutionContext) (path : FilePath) (after : PathResolutionContext)
      → with_slash_tmp context path ≡ ok after
      → Unit {0}
      → HasRoots context
      → HasRoots after
  unfolding with_slash_tmp
  with_slash_tmp-HasRoots = step_roots (λ c p. record c { slash_tmp = some p }) (λ c p. refl)

  with_current_directory-HasRoots :
      (context : PathResolutionContext) (path : FilePath) (after : PathResolutionContext)
      → with_current_directory context path ≡ ok after
      → Unit {0}
      → HasRoots context
      → HasRoots after
  unfolding with_current_directory
  with_current_directory-HasRoots =
      step_roots (λ c p. record c { current_directory = some p }) (λ c p. refl)

  other_paths :
      (add : PathResolutionContext → FilePath → Result PolicyError PathResolutionContext)
      → ((context : PathResolutionContext) (path : FilePath) (after : PathResolutionContext)
          → add context path ≡ ok after
          → Unit {0}
          → HasRoots context
          → HasRoots after)
      → (paths : List FilePath) (context after : PathResolutionContext)
      → add_paths add paths context ≡ ok after
      → HasRoots context
      → HasRoots after
  other_paths add step paths context after h roots =
      add_paths-HasRoots (λ _. Unit {0}) add step paths context after h (unit-All paths) roots

module _ ⦃g : GlobSet⦄ ⦃t : CharTable⦄ ⦃o : OsText⦄ ⦃w : WildMatch⦄ where
  -- A context of an effective sandbox has the identity of its composition, and every workspace root
  -- of it is within the limit, whatever roots the base brings.
  pub path_context-IsGranted :
      (sandbox : EffectiveSandbox) (base : PathResolutionContext) (context : EffectivePathContext)
      → path_context sandbox base ≡ ok context
      → (context.identity ≡ sandbox.filesystem.context_identity)
        × All
            (λ root. is_granted sandbox.workspace_root_limit root ≡ true)
            context.context.workspace_roots
  unfolding path_context granted_roots
  path_context-IsGranted sandbox base context h =
      let (a, p1, h1) = >>=-eq-ok (add_paths with_root base.root_paths new_context) _ h in
      let (b, p2, h2) =
        >>=-eq-ok (add_paths with_workspace_root (granted_roots sandbox base) a) _ h1 in
      let (c, p3, h3) = >>=-eq-ok (add_paths with_minimal_path base.minimal_paths b) _ h2 in
      let (d, p4, h4) = >>=-eq-ok (add_paths with_executable_root base.executable_roots c) _ h3 in
      let (e, p5, h5) = >>=-eq-ok (add_paths with_tmpdir (option_list base.tmpdir) d) _ h4 in
      let (f, p6, h6) = >>=-eq-ok (add_paths with_slash_tmp (option_list base.slash_tmp) e) _ h5 in
      let (k, p7, h7) =
        >>=-eq-ok (add_paths with_current_directory (option_list base.current_directory) f) _ h6 in
      let P : FilePath → Type 0 = λ root. is_granted sandbox.workspace_root_limit root ≡ true in
      let roots_a =
        other_paths P with_root (with_root-HasRoots P) base.root_paths new_context a p1 tt in
      let roots_b =
        add_paths-HasRoots P P with_workspace_root (with_workspace_root-HasRoots P)
          (granted_roots sandbox base) a b p2
          (keep-IsKept (is_granted sandbox.workspace_root_limit)
            (unwrap_or sandbox.workspace_roots base.workspace_roots))
          roots_a in
      let roots_c =
        other_paths P with_minimal_path (with_minimal_path-HasRoots P) base.minimal_paths b c p3
          roots_b in
      let roots_d =
        other_paths P with_executable_root (with_executable_root-HasRoots P) base.executable_roots c
          d p4 roots_c in
      let roots_e =
        other_paths P with_tmpdir (with_tmpdir-HasRoots P) (option_list base.tmpdir) d e p5
          roots_d in
      let roots_f =
        other_paths P with_slash_tmp (with_slash_tmp-HasRoots P) (option_list base.slash_tmp) e f p6
          roots_e in
      let roots_k =
        other_paths P with_current_directory (with_current_directory-HasRoots P)
          (option_list base.current_directory) f k p7 roots_f in
      subst
        (λ (made : EffectivePathContext).
          (made.identity ≡ sandbox.filesystem.context_identity)
          × All P made.context.workspace_roots)
        (ok_injective h7) (refl, roots_k)
