-- ===== src/Permissions/Grant/Approved.antt =====
-- crates/cageforge-permissions/src/lib.rs: approved grants and their requests.
use cageforge.Base.{
  and-eq-true, ℕ, true, ◌&&◌, ◌≡◌, sym, ap, ◌∙◌, arith, Text, text_eq_iff, Option, ok,
}
use cageforge.Permissions.Set.{PermissionSet, is_subset_of, extend_from}
use cageforge.Permissions.Set.Laws.{is_subset_of_refl, is_subset_of-extend_from}
use cageforge.Permissions.Request.{
  PermissionRequest, PermissionEscalationRequest, RequestDigest, new_request, new_escalation,
}
use cageforge.Permissions.Grant.{
  PermissionScope, PermissionGrant, digest, grant_matches, approve, approve_with,
  approve_escalation,
}

is_subset_of-extend_self : (a b : PermissionSet) → is_subset_of a (extend_from a b) ≡ true
is_subset_of-extend_self a b =
    (and-eq-true _ _ (
      sym (is_subset_of-extend_from a b (extend_from a b)) ∙ is_subset_of_refl (extend_from a b))).0

module _ ⦃d : RequestDigest⦄ where
  -- A whole approval matches its request.
  approve-Matches :
      (request : PermissionRequest) (now : ℕ) → grant_matches (approve request now) request ≡ true
  unfolding grant_matches approve
  approve-Matches request now =
      ground (
        arith,
        text_eq_iff (digest request) (digest request),
        is_subset_of_refl request.capabilities,
      )

  -- An approval that is accepted matches its request, and holds what was approved.
  pub approve_with-Matches :
      (request : PermissionRequest) (approved : PermissionSet) (scope : PermissionScope)
      (expires_at : Option ℕ) (now : ℕ) (grant : PermissionGrant)
      → approve_with request approved scope expires_at now ≡ ok grant
      → (grant_matches grant request ≡ true) × (grant.approved ≡ approved)
  unfolding approve_with grant_matches
  approve_with-Matches request approved scope expires_at now grant h =
      ground (arith, text_eq_iff (digest request) (digest request))

  -- What `PermissionEscalationRequest::new` keeps of its base.
  new_escalation-capabilities :
      (base : PermissionRequest) (asked : PermissionSet) (reason : Text)
      (escalation : PermissionEscalationRequest)
      → new_escalation base asked reason ≡ ok escalation
      → (escalation.base ≡ base)
        × (escalation.request.capabilities ≡ extend_from base.capabilities escalation.additional)
  unfolding new_escalation new_request
  new_escalation-capabilities base asked reason escalation h = ground arith

  -- A grant for an escalation matches the escalated request, which asks for the capabilities of the
  -- base and the additional ones; it holds those of the base and the approved ones, and no other.
  pub approve_escalation-IsBounded :
      (base : PermissionRequest) (asked : PermissionSet) (reason : Text)
      (escalation : PermissionEscalationRequest) (approved : PermissionSet)
      (scope : PermissionScope) (expires_at : Option ℕ) (now : ℕ) (grant : PermissionGrant)
      → new_escalation base asked reason ≡ ok escalation
      → approve_escalation escalation approved scope expires_at now ≡ ok grant
      → (grant_matches grant escalation.request ≡ true)
        × (is_subset_of base.capabilities grant.approved ≡ true)
        × ((limit : PermissionSet)
            → is_subset_of grant.approved limit
              ≡ (is_subset_of base.capabilities limit && is_subset_of approved limit))
  unfolding approve_escalation
  approve_escalation-IsBounded base asked reason escalation approved scope expires_at now grant made
        h =
      let (based, extended) = new_escalation-capabilities base asked reason escalation made in
      let with_base =
        approve_with-Matches escalation.request (extend_from escalation.base.capabilities approved)
          scope expires_at now grant (ground arith) in
      let held : grant.approved ≡ extend_from base.capabilities approved =
        with_base.1 ∙ ap (λ (b : PermissionRequest). extend_from b.capabilities approved) based in
      (
        with_base.0,
        ap (is_subset_of base.capabilities) held
            ∙ is_subset_of-extend_self base.capabilities approved,
        λ limit.
            ap (λ s. is_subset_of s limit) held
            ∙ is_subset_of-extend_from base.capabilities approved limit,
      )
