-- ===== src/Permissions/Paging/Next.antt =====
-- crates/cageforge-permissions/src/lib.rs: a page and the one that its cursor asks for.
use cageforge.Base.{
  ℕ, keep-All, keep-IsKept, ltb, Bool, true, false, not, ◌≡◌, refl, sym, ap, subst, ◌∙◌, arith,
  Text, text_ltb, text_ltb_trans, text_ltb_irrefl, Option, none, some, List, [], ◌∷◌, ◌++◌,
  append_assoc, All, keep, Dict, After, IsSorted, length, take, drop, take-append-drop, if_elim,
  length-take, ok, Bool-cases, Option-cases, inl, inr,
}
use cageforge.Permissions.GrantId.{GrantId, GrantPageCursor, from_hex, to_hex}
use cageforge.Permissions.GrantId.Order.{text_ltb-to_hex, from_hex-IsBytes}
use cageforge.Permissions.Store.{
  StoredGrant, StoreDocument, Disk, Faults, read_current_document, check_entry,
}
use cageforge.Permissions.Store.WellFormed.{IsWellFormedDisk}
use cageforge.Permissions.Paging.{
  GrantSummary, GrantPageRequest, GrantPage, page_size, is_listed_before, last, next_cursor_of,
  last_listed, DocumentDigest, list_page,
}
use cageforge.Permissions.Paging.Pages.{
  remaining, remaining_skip, remaining_next, check_entry-eq-ok, list_page-listed,
}

abbrev IsAscending : List GrantSummary → Type 0
IsAscending [] = Unit
IsAscending (s ∷ l) = All (λ t. text_ltb s.id t.id ≡ true) l × IsAscending l

abbrev IsListable : Dict StoredGrant → Type 0
IsListable grants = All (λ entry. check_entry entry ≡ ok tt) grants

-- Keys behind a key are identifiers behind its identifier.
remaining-After :
    (key : Text) (id : GrantId) (grants : Dict StoredGrant)
    → from_hex key ≡ ok id
    → to_hex id ≡ key
    → IsListable grants
    → After key grants
    → All (λ t. text_ltb id t.id ≡ true) (remaining none grants)
remaining-After key id [] read text h k = unfold remaining in tt
remaining-After key id (e ∷ grants) read text (p, h) (q, k) =
    let (other, found, spelled) = check_entry-eq-ok e p in
    subst (All (λ t. text_ltb id t.id ≡ true))
      (sym (remaining_next none e grants other found (unfold is_listed_before in refl)))
      (
        sym (
              text_ltb-to_hex id other (from_hex-IsBytes key id read)
                (from_hex-IsBytes e.0 other found))
            ∙ (λ i. text_ltb (text i) (spelled i))
            ∙ q,
        remaining-After key id grants read text h k,
      )

remaining-IsAscending :
    (grants : Dict StoredGrant)
    → IsListable grants
    → IsSorted grants
    → IsAscending (remaining none grants)
remaining-IsAscending [] h k = unfold remaining in tt
remaining-IsAscending (e ∷ grants) (p, h) (q, k) =
    let (id, found, spelled) = check_entry-eq-ok e p in
    subst IsAscending
      (sym (remaining_next none e grants id found (unfold is_listed_before in refl)))
      (remaining-After e.0 id grants found spelled h q, remaining-IsAscending grants h k)

-- What is left behind an identifier is the part of the listing that is behind it.
remaining-keep :
    (after : Option GrantId) (grants : Dict StoredGrant)
    → IsListable grants
    → remaining after grants ≡ keep (λ s. not (is_listed_before after s.id)) (remaining none grants)
remaining-keep after [] h = unfold remaining in refl
remaining-keep after (e ∷ grants) (p, h) =
    let (id, found, _) = check_entry-eq-ok e p in
    let rest = remaining-keep after grants h in
    let whole = remaining_next none e grants id found (unfold is_listed_before in refl) in
    elim (Bool-cases (is_listed_before after id)) [
      | inl before ↦ rw (remaining_skip after e grants id found before, whole, before, rest)
      | inr behind ↦ rw (remaining_next after e grants id found behind, whole, behind, rest)
    ]

-- Behind an entry of an ascending list stands what follows it there.
keep-All_none :
    (k : GrantId) (l : List GrantSummary)
    → All (λ s. text_ltb k s.id ≡ true) l
    → keep (λ s. text_ltb k s.id) l ≡ l
keep-All_none k [] h = refl
keep-All_none k (s ∷ l) (p, h) = rw (p, keep-All_none k l h)

All-middle :
    (P : GrantSummary → Type 0) (xs ys : List GrantSummary) (s : GrantSummary)
    → All P (xs ++ (s ∷ ys))
    → P s
All-middle P [] ys s (p, h) = p
All-middle P (x ∷ xs) ys s (p, h) = All-middle P xs ys s h

backward : (s t : GrantSummary) → text_ltb s.id t.id ≡ true → text_ltb t.id s.id ≡ false
backward s t h = ground (arith, text_ltb_trans s.id t.id s.id h, text_ltb_irrefl s.id)

keep-IsAscending :
    (xs ys : List GrantSummary) (s : GrantSummary)
    → IsAscending (xs ++ (s ∷ ys))
    → keep (λ t. text_ltb s.id t.id) (xs ++ (s ∷ ys)) ≡ ys
keep-IsAscending [] ys s (h, _) = rw (text_ltb_irrefl s.id, keep-All_none s.id ys h)
keep-IsAscending (x ∷ xs) ys s (h, k) = rw (
  backward x s (All-middle (λ t. text_ltb x.id t.id ≡ true) xs ys s h),
  keep-IsAscending xs ys s k,
)

last-eq-some :
    (l : List GrantSummary) (s : GrantSummary)
    → last l ≡ some s
    → (xs : List GrantSummary) × (l ≡ xs ++ (s ∷ []))
last-eq-some [] s h = absurd (cc)
last-eq-some (x ∷ []) s h = ([], ground arith)
last-eq-some (x ∷ y ∷ l) s h = let (xs, p) = last-eq-some (y ∷ l) s h in (x ∷ xs, ap (λ t. x ∷ t) p)

keep_imp :
    (p q : GrantSummary → Bool) (l : List GrantSummary)
    → ((t : GrantSummary) → p t ≡ true → q t ≡ true)
    → keep p (keep q l) ≡ keep p l
keep_imp p q [] h = refl
keep_imp p q (x ∷ l) h = ground (arith, h x, keep_imp p q l h)

keep-IsAscending_of :
    (q : GrantSummary → Bool) (l : List GrantSummary) → IsAscending l → IsAscending (keep q l)
keep-IsAscending_of q [] h = tt
keep-IsAscending_of q (x ∷ l) (p, h) =
    if_elim IsAscending (q x)
      (λ _. (keep-All (λ t. text_ltb x.id t.id ≡ true) q l p, keep-IsAscending_of q l h))
      (λ _. keep-IsAscending_of q l h)

is_listed_before_trans :
    (after : Option GrantId) (a b : GrantId)
    → not (is_listed_before after a) ≡ true
    → text_ltb a b ≡ true
    → not (is_listed_before after b) ≡ true
unfolding is_listed_before
is_listed_before_trans none a b h k = refl
is_listed_before_trans (some after) a b h k = ground (arith, text_ltb_trans after a b)

keep_behind :
    (k : GrantId) (l : List GrantSummary)
    → keep (λ t. not (is_listed_before (some k) t.id)) l ≡ keep (λ t. text_ltb k t.id) l
unfolding is_listed_before
keep_behind k [] = refl
keep_behind k (x ∷ l) = ground (arith, keep_behind k l)

-- Behind the last entry of a first part is left the second part.
remaining-last :
    (after : Option GrantId) (grants : Dict StoredGrant) (n : ℕ) (s : GrantSummary)
    → IsListable grants
    → IsSorted grants
    → last (take n (remaining after grants)) ≡ some s
    → remaining (some s.id) grants ≡ drop n (remaining after grants)
remaining-last after grants n s h k final =
    let all = remaining none grants in
    let q : GrantSummary → Bool = λ t. not (is_listed_before after t.id) in
    let (xs, first) = last-eq-some (take n (remaining after grants)) s final in
    let left : remaining after grants ≡ xs ++ (s ∷ drop n (remaining after grants)) =
      sym (take-append-drop n (remaining after grants))
      ∙ ap (λ t. t ++ drop n (remaining after grants)) first
      ∙ append_assoc xs (s ∷ []) (drop n (remaining after grants)) in
    let kept : keep q all ≡ xs ++ (s ∷ drop n (remaining after grants)) =
      sym (remaining-keep after grants h) ∙ left in
    let member : q s ≡ true =
      All-middle (λ t. q t ≡ true) xs (drop n (remaining after grants)) s
        (subst (All (λ t. q t ≡ true)) kept (keep-IsKept q all)) in
    let ascending : IsAscending (xs ++ (s ∷ drop n (remaining after grants))) =
      subst IsAscending kept (keep-IsAscending_of q all (remaining-IsAscending grants h k)) in
    remaining-keep (some s.id) grants h
    ∙ keep_behind s.id all
    ∙ sym (
        keep_imp (λ t. text_ltb s.id t.id) q all
          (λ t. is_listed_before_trans after s.id t.id member))
    ∙ ap (keep (λ t. text_ltb s.id t.id)) kept
    ∙ keep-IsAscending xs (drop n (remaining after grants)) s ascending

next_cursor_of-eq-some :
    (snapshot : GrantId) (entries : List GrantSummary) (more : Bool) (cursor : GrantPageCursor)
    → next_cursor_of snapshot entries more ≡ some cursor
    → (more ≡ true) × ((s : GrantSummary) × (last entries ≡ some s) × (cursor.last_id ≡ s.id))
next_cursor_of-eq-some snapshot entries false cursor h = absurd (cc)
next_cursor_of-eq-some snapshot entries true cursor h = elim (Option-cases (last entries)) [
  | inl empty ↦ absurd (ground arith)
  | inr (s, final) ↦ (refl, (s, final, last_of (last entries) final h))
]
  where
    last_of :
        (o : Option GrantSummary) {s : GrantSummary}
        → o ≡ some s
        → elim o as (λ _. Option GrantPageCursor) [
          | none ↦ none
          | some entry ↦ some (record { snapshot = snapshot; last_id = entry.id })
        ]
          ≡ some cursor
        → cursor.last_id ≡ s.id
    last_of none final h = absurd (cc)
    last_of (some t) {s} final h = ap id_of (sym h) ∙ ground arith
      where
        id_of : Option GrantPageCursor → GrantId
        id_of none = []
        id_of (some c) = c.last_id

module _ ⦃d : DocumentDigest⦄ where
  -- Where a page of a well-formed store has a next cursor, the page is full, and it and what is left
  -- behind that cursor are together what was left before: no entry is lost, and none comes twice.
  pub list_page-next :
      (faults : Faults) (request : GrantPageRequest) (disk : Disk) (page : GrantPage)
      (cursor : GrantPageCursor)
      → IsWellFormedDisk disk
      → list_page faults request disk ≡ ok page
      → page.next_cursor ≡ some cursor
      → (document : StoreDocument) × (read_current_document faults disk ≡ ok document)
        × (length page.entries ≡ (page_size request))
        × (page.entries ++ remaining (some cursor.last_id) document.grants
            ≡ remaining (last_listed request.cursor) document.grants)
  list_page-next faults request disk page cursor wf h next =
      let (document, read, (_, (sorted, entries)), listed, following) =
        list_page-listed faults request disk page wf h in
      let left = remaining (last_listed request.cursor) document.grants in
      let (more, (s, final, named)) =
        next_cursor_of-eq-some (d.of_document document) page.entries
          (ltb (page_size request) (length left)) cursor (sym following ∙ next) in
      let second : remaining (some s.id) document.grants ≡ drop (page_size request) left =
        remaining-last (last_listed request.cursor) document.grants (page_size request) s entries
          sorted (ap last (sym listed) ∙ final) in
      (
        document,
        read,
        ap length listed ∙ length-take (page_size request) left (ground arith),
        (λ i. listed i ++ remaining (some (named i)) document.grants)
            ∙ ap (λ t. take (page_size request) left ++ t) second
            ∙ take-append-drop (page_size request) left,
      )
