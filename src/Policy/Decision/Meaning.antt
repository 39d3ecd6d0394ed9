-- ===== src/Policy/Decision/Meaning.antt =====
-- What a restricted policy decides, without its loop: when it grants writing, when it denies.
use cageforge.Base.{
  ℕ, ◌≤◌, Bool, false, none, some, List, [], ◌∷◌, ◌≡◌, ◌≢◌, ◌⊎◌, ◌↔◌, refl, ap, sym, ◌∙◌, arith,
  Bool-cases, inl, inr, ◌>>◌, ok, All, >>-eq-ok_iff,
}
use cageforge.Path.Components.{FilePath}
use cageforge.Policy.Access.{AccessMode, mode_eq, most_restrictive, FilesystemDecision, from_access}
use cageforge.Policy.Access.Laws.{mode_eq_iff}
use cageforge.Policy.Context.{PathResolutionContext}
use cageforge.Policy.Glob.{GlobSet}
use cageforge.Policy.Rule.{RuleMatch}
use cageforge.Policy.Filesystem.{FilesystemMode, FilesystemPolicy}
use cageforge.Policy.Decision.{
  better_match, decision_in_mode, check_query, access_for_path, is_protected_path,
}
use cageforge.Policy.Decision.Order.{verdict, verdict_cons, access_loop_lem, matches}

-- Some element of the list has the property.
abbrev pub AnyOf {ℓ} : {A : Type ℓ} → (A → Type 0) → List A → Type 0
AnyOf P [] = ⊥
AnyOf P (x ∷ xs) = P x ⊎ AnyOf P xs

-- A match that lets a write at level `n` stand: it does not deny, it is no deeper than `n`, and
-- at level `n` it grants writing.
abbrev pub Allows : ℕ → RuleMatch → Type 0
Allows n m =
    (m.access ≢ AccessMode.deny)
    × (m.specificity ≤ n)
    × (m.specificity ≡ n → m.access ≡ AccessMode.write)

-- The deepest matches, and there is one, all grant writing; no match denies.
abbrev pub GrantsWrite : List RuleMatch → Type 0
GrantsWrite ms = (n : ℕ) × All (Allows n) ms × AnyOf (λ m. m.specificity ≡ n) ms

join_Allows :
    (n : ℕ) (b m : RuleMatch) → Allows n b → Allows n m → Allows n (better_match (some b) m)
unfolding better_match most_restrictive
join_Allows n b m (p, q, r) (p', q', r') = (ground arith, ground arith, λ e. ground (arith, r, r'))

Allows-join :
    (n : ℕ) (b m : RuleMatch)
    → b.access ≢ AccessMode.deny
    → m.access ≢ AccessMode.deny
    → Allows n (better_match (some b) m)
    → Allows n b × Allows n m
unfolding better_match most_restrictive
Allows-join n b m hb hm (p, q, r) =
    ((hb, ground arith, λ e. ground (arith, r)), (hm, ground arith, λ e. ground (arith, r)))

join_level :
    (n : ℕ) (b m : RuleMatch)
    → (better_match (some b) m).specificity ≡ n
    → (b.specificity ≡ n) ⊎ (m.specificity ≡ n)
unfolding better_match
join_level n b m h = ground arith

level_join :
    (n : ℕ) (b m : RuleMatch)
    → Allows n b
    → Allows n m
    → (b.specificity ≡ n) ⊎ (m.specificity ≡ n)
    → (better_match (some b) m).specificity ≡ n
unfolding better_match
level_join n b m (p, q, r) (p', q', r') h = ground arith

join_not_deny :
    (b m : RuleMatch)
    → b.access ≢ AccessMode.deny
    → m.access ≢ AccessMode.deny
    → (better_match (some b) m).access ≢ AccessMode.deny
unfolding better_match most_restrictive
join_not_deny b m hb hm = ground arith

module _ (is_protected : Bool) where
  verdict_sound :
      (b : RuleMatch) (ms : List RuleMatch)
      → b.access ≢ AccessMode.deny
      → verdict is_protected (some b) ms ≡ FilesystemDecision.write
      → (is_protected ≡ false) × GrantsWrite (b ∷ ms)
  verdict_sound b [] hb h =
      unfold verdict mode_eq from_access in
      (ground arith, (b.specificity, ((hb, omega arith, λ e. ground arith), tt), inl refl))
  verdict_sound b (m ∷ ms) hb h =
      let hm : m.access ≢ AccessMode.deny =
        ground
          (arith, verdict_cons is_protected (some b) m ms, mode_eq_iff m.access AccessMode.deny) in
      let later : verdict is_protected (some (better_match (some b) m)) ms
          ≡ FilesystemDecision.write =
        ground (arith, verdict_cons is_protected (some b) m ms) in
      let (p, (n, (all_join, all), level)) =
        verdict_sound (better_match (some b) m) ms (join_not_deny b m hb hm) later in
      let (allows_b, allows_m) = Allows-join n b m hb hm all_join in
      (p, (n, (allows_b, (allows_m, all)), ground (arith, join_level n b m)))

  verdict_complete :
      (b : RuleMatch) (ms : List RuleMatch) (n : ℕ)
      → is_protected ≡ false
      → All (Allows n) (b ∷ ms)
      → AnyOf (λ m. m.specificity ≡ n) (b ∷ ms)
      → verdict is_protected (some b) ms ≡ FilesystemDecision.write
  verdict_complete b [] n p ((q, r, s), _) (inl e) =
      unfold verdict mode_eq from_access in ground (arith, s e)
  verdict_complete b [] n p ((q, r, s), _) (inr e) = absurd e
  verdict_complete b (m ∷ ms) n p (allows_b, (allows_m, all)) level =
      let later =
        verdict_complete (better_match (some b) m) ms n p (join_Allows n b m allows_b allows_m, all)
          (ground (arith, level_join n b m allows_b allows_m)) in
      verdict_cons is_protected (some b) m ms
      ∙ ground (arith, later, allows_m.0, mode_eq_iff m.access AccessMode.deny)

  verdict_write :
      (ms : List RuleMatch)
      → verdict is_protected none ms ≡ FilesystemDecision.write
      → (is_protected ≡ false) × GrantsWrite ms
  verdict_write [] h = absurd (unfold verdict mode_eq from_access in ground arith)
  verdict_write (m ∷ ms) h =
      verdict_sound m ms
        (ground (arith, verdict_cons is_protected none m ms, mode_eq_iff m.access AccessMode.deny))
        (unfold better_match in ground (arith, verdict_cons is_protected none m ms))

  write_verdict :
      (ms : List RuleMatch) (n : ℕ)
      → is_protected ≡ false
      → All (Allows n) ms
      → AnyOf (λ m. m.specificity ≡ n) ms
      → verdict is_protected none ms ≡ FilesystemDecision.write
  write_verdict [] n p all level = absurd level
  write_verdict (m ∷ ms) n p all level =
      verdict_cons is_protected none m ms
      ∙ unfold better_match in
        ground (
          arith,
          verdict_complete m ms n p all level,
          all.0.0,
          mode_eq_iff m.access AccessMode.deny,
        )

  pub verdict-eq-write_iff :
      (ms : List RuleMatch)
      → (verdict is_protected none ms ≡ FilesystemDecision.write)
        ↔ ((is_protected ≡ false) × GrantsWrite ms)
  verdict-eq-write_iff ms = (verdict_write ms, λ h. write_verdict ms h.1.0 h.0 h.1.1 h.1.2)

  verdict-some_deny :
      (b : RuleMatch) (ms : List RuleMatch)
      → b.access ≢ AccessMode.deny
      → (verdict is_protected (some b) ms ≡ FilesystemDecision.deny)
        ↔ AnyOf (λ m. m.access ≡ AccessMode.deny) ms
  verdict-some_deny b [] hb =
      unfold verdict mode_eq from_access in (λ h. ground arith, λ h. absurd h)
  verdict-some_deny b (m ∷ ms) hb = elim (Bool-cases (mode_eq m.access AccessMode.deny)) [
    | inl denies ↦ (
      (λ h. inl ((mode_eq_iff _ _).0 denies)),
      (λ h. verdict_cons is_protected (some b) m ms ∙ rw denies),
    )
    | inr other ↦
        let hm : m.access ≢ AccessMode.deny =
          ground (arith, mode_eq_iff m.access AccessMode.deny) in
        let ih = verdict-some_deny (better_match (some b) m) ms (join_not_deny b m hb hm) in
        ground (arith, verdict_cons is_protected (some b) m ms, ih)
  ]

  pub verdict-eq-deny_iff :
      (ms : List RuleMatch)
      → (verdict is_protected none ms ≡ FilesystemDecision.deny)
        ↔ ((ms ≡ []) ⊎ AnyOf (λ m. m.access ≡ AccessMode.deny) ms)
  verdict-eq-deny_iff [] = (λ h. inl refl, λ h. unfold verdict mode_eq from_access in refl)
  verdict-eq-deny_iff (m ∷ ms) = elim (Bool-cases (mode_eq m.access AccessMode.deny)) [
    | inl denies ↦ (
      (λ h. inr (inl ((mode_eq_iff _ _).0 denies))),
      (λ h. verdict_cons is_protected none m ms ∙ rw denies),
    )
    | inr other ↦
        let hm : m.access ≢ AccessMode.deny =
          ground (arith, mode_eq_iff m.access AccessMode.deny) in
        let ih = verdict-some_deny m ms hm in
        unfold better_match in ground (arith, verdict_cons is_protected none m ms, ih)
  ]

module _ ⦃g : GlobSet⦄ where
  abbrev pub Granted :
      FilesystemPolicy → FilePath → PathResolutionContext → FilesystemDecision → Type 0
  Granted policy path context decision = access_for_path policy path context ≡ ok decision

  access_for_path_restricted :
      (policy : FilesystemPolicy) (path : FilePath) (context : PathResolutionContext)
      → policy.mode ≡ FilesystemMode.restricted
      → access_for_path policy path context ≡ (
          check_query path
          >> ok
              (verdict (is_protected_path policy path) none (matches policy.entries path context)))
  access_for_path_restricted policy path context h =
      unfold access_for_path decision_in_mode in
      rw h (
        ap (λ d. check_query path >> ok d)
          (access_loop_lem path context (is_protected_path policy path) policy.entries))

  -- A restricted policy lets a path be written exactly when the path is absolute, has no NUL and
  -- no "..", holds no protected path, and, of the rules that match it, none denies, and the
  -- deepest, of which there is one, all grant writing.
  pub access_for_path-eq-write_iff :
      (policy : FilesystemPolicy) (path : FilePath) (context : PathResolutionContext)
      → policy.mode ≡ FilesystemMode.restricted
      → Granted policy path context FilesystemDecision.write ↔ (
          (check_query path ≡ ok tt)
          × ((is_protected_path policy path ≡ false)
              × GrantsWrite (matches policy.entries path context)))
  access_for_path-eq-write_iff policy path context h =
      let q =
        >>-eq-ok_iff (check_query path)
          (verdict (is_protected_path policy path) none (matches policy.entries path context))
          FilesystemDecision.write in
      let v =
        verdict-eq-write_iff (is_protected_path policy path)
          (matches policy.entries path context) in
      let e = access_for_path_restricted policy path context h in
      ((λ a. let (c, d) = q.0 (sym e ∙ a) in (c, v.0 d)), (λ (c, d). e ∙ q.1 (c, v.1 d)))

  -- A restricted policy denies a path exactly when the path passes the tests of a query and no rule
  -- matches it or some rule that matches it denies.
  pub access_for_path-eq-deny_iff :
      (policy : FilesystemPolicy) (path : FilePath) (context : PathResolutionContext)
      → policy.mode ≡ FilesystemMode.restricted
      → Granted policy path context FilesystemDecision.deny ↔ (
          (check_query path ≡ ok tt)
          × ((matches policy.entries path context ≡ [])
              ⊎ AnyOf (λ m. m.access ≡ AccessMode.deny) (matches policy.entries path context)))
  access_for_path-eq-deny_iff policy path context h =
      let q =
        >>-eq-ok_iff (check_query path)
          (verdict (is_protected_path policy path) none (matches policy.entries path context))
          FilesystemDecision.deny in
      let v =
        verdict-eq-deny_iff (is_protected_path policy path) (matches policy.entries path context) in
      let e = access_for_path_restricted policy path context h in
      ((λ a. let (c, d) = q.0 (sym e ∙ a) in (c, v.0 d)), (λ (c, d). e ∙ q.1 (c, v.1 d)))
