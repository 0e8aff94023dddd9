-- ===== src/Identity/Links/Owners.antt =====
-- What the shared changes do to the owner of each identifier.
use open_residency.Base.{
  ◌≡◌, inl, inr, refl, sym, ap, ◌∙◌, true, false, String, none, some, if◌then◌else◌, arith, str_eq,
  eq_iff, Bool-cases, find,
}
use open_residency.Base.Dict
use open_residency.Base.Unique.{IsUnique, find-put, find_lem, found_is, without_other}
use open_residency.Identity.Links.Types.{IdentityLink, Registry, Platform, NewEvent}
use open_residency.Identity.Links.Store.{
  save_link, append_event, is_current, is_current_for, find_current_by_identifier,
}
use open_residency.Identity.Links.Changes.{write_link, move}
use open_residency.Identity.Links.Reads.{resolve_person}
use open_residency.Identity.Links.Invariant.{link_id, IsSound}

-- The current link of an identifier, as the search of the store finds it.
pub find_save :
    (m : Dict.Dict IdentityLink) (u : IdentityLink) (i : String)
    → IsUnique link_id is_current_for m
    → IsUnique link_id is_current_for (Dict.put m u.id u)
    → ((v : IdentityLink) → Dict.get m u.id ≡ some v → is_current_for i v ≡ false)
    → find (is_current_for i) (Dict.values (Dict.put m u.id u))
      ≡ (if is_current_for i u then some u else find (is_current_for i) (Dict.values m))
find_save m u i h h' n = ground (
  arith,
  find-put link_id is_current_for m u i h h',
  without_other link_id is_current_for m i u.id (find (is_current_for i) (Dict.values m))
      (find_lem link_id is_current_for m i h) n,
)

-- What stands at the place of a link that a write changes.
same_link :
    (m : Dict.Dict IdentityLink) (u l v : IdentityLink) (i : String)
    → Dict.get m u.id ≡ some v
    → Dict.get m l.id ≡ some l
    → u.id ≡ l.id
    → is_current_for i l ≡ false
    → is_current_for i v ≡ false
same_link m u l v i e g d n =
    let p : some v ≡ some l = sym e ∙ ap (Dict.get m) d ∙ g in
    ap (is_current_for i) (some_path p) ∙ n
  where
    some_path : some v ≡ some l → v ≡ l
    some_path p = cc

module _ (platform : Platform) where
  -- A change of a link that keeps its person, its identifier and whether it is current changes no
  -- owner.
  pub resolve_person-keep :
      (s : Registry) (l u : IdentityLink) (i : String)
      → IsSound platform s
      → IsSound platform (save_link s u)
      → Dict.get s.links l.id ≡ some l
      → u.id ≡ l.id
      → u.person_ref ≡ l.person_ref
      → is_current_for i u ≡ is_current_for i l
      → resolve_person (save_link s u) i ≡ resolve_person s i
  unfolding resolve_person save_link find_current_by_identifier
  resolve_person-keep s l u i h h' g d p c = elim (Bool-cases (is_current_for i u)) [
    | inl t ↦ ground (
      arith,
      find-put link_id is_current_for s.links u i h.unique h'.unique,
      found_is link_id is_current_for s.links i (some l) h.unique (g, sym c ∙ t),
    )
    | inr f ↦ ground (
      arith,
      find_save s.links u i h.unique h'.unique (λ v e. same_link s.links u l v i e g d (sym c ∙ f)),
    )
  ]

  -- A link that is closed has no owner left for its identifier, if it was the current one.
  pub resolve_person-close :
      (s : Registry) (l u : IdentityLink) (i : String)
      → IsSound platform s
      → IsSound platform (save_link s u)
      → Dict.get s.links l.id ≡ some l
      → u.id ≡ l.id
      → is_current l ≡ true
      → is_current u ≡ false
      → resolve_person (save_link s u) i
        ≡ (if str_eq l.identifier_ref i then none else resolve_person s i)
  unfolding resolve_person save_link find_current_by_identifier is_current_for
  resolve_person-close s l u i h h' g d t n = elim (Bool-cases (str_eq l.identifier_ref i)) [
    | inl e ↦ ground (
      arith,
      find-put link_id is_current_for s.links u i h.unique h'.unique,
      found_is link_id is_current_for s.links i (some l) h.unique (g, ground arith),
      eq_iff l.id u.id,
    )
    | inr f ↦ ground (
      arith,
      find_save s.links u i h.unique h'.unique
          (λ v e. same_link s.links u l v i e g d (ground arith)),
    )
  ]

  -- A new link for an identifier makes its person the owner.
  pub resolve_person-write_link :
      (s : Registry) (l : IdentityLink) (e : NewEvent) (i : String)
      → IsSound platform s
      → IsSound platform (write_link s l e)
      → l.id ≡ platform.new_id s.drawn
      → is_current l ≡ true
      → resolve_person (write_link s l e) i
        ≡ (if str_eq l.identifier_ref i then some l.person_ref else resolve_person s i)
  unfolding resolve_person save_link find_current_by_identifier is_current_for write_link
      append_event
  resolve_person-write_link s l e i h h' d t =
      ground (arith, find_save s.links l i h.unique h'.unique (λ v g. absurd (no_link g)))
    where
      no_link : {v : IdentityLink} → Dict.get s.links l.id ≡ some v → ⊥
      no_link g = cc (h.fresh s.drawn (omega arith))

  resolve_person-other :
      (s : Registry) (l u : IdentityLink) (i : String)
      → IsSound platform s
      → IsSound platform (save_link s u)
      → Dict.get s.links l.id ≡ some l
      → u.id ≡ l.id
      → is_current u ≡ false
      → str_eq l.identifier_ref i ≡ false
      → resolve_person (save_link s u) i ≡ resolve_person s i
  unfolding resolve_person save_link find_current_by_identifier is_current_for
  resolve_person-other s l u i h h' g d n f = ground (
    arith,
    find_save s.links u i h.unique h'.unique
        (λ v e. same_link s.links u l v i e g d (ground arith)),
  )

  -- Closing a link and continuing it on another person makes that person the owner.
  pub resolve_person-move :
      (s : Registry) (l from to : IdentityLink) (e : NewEvent) (i : String)
      → IsSound platform s
      → IsSound platform (save_link s from)
      → IsSound platform (move s from to e)
      → Dict.get s.links l.id ≡ some l
      → from.id ≡ l.id
      → is_current from ≡ false
      → to.id ≡ platform.new_id s.drawn
      → to.identifier_ref ≡ l.identifier_ref
      → is_current to ≡ true
      → resolve_person (move s from to e) i
        ≡ (if str_eq l.identifier_ref i then some to.person_ref else resolve_person s i)
  unfolding move
  resolve_person-move s l from to e i h h' h'' g d n f r t =
      elim (Bool-cases (str_eq l.identifier_ref i)) [
        | inl x ↦ rw x (
            resolve_person-write_link (save_link s from) to e i h' h'' (drawn_same f) t
            ∙ rw (ap (λ (y : String). str_eq y i) r ∙ x) refl)
        | inr x ↦ rw x (
            resolve_person-write_link (save_link s from) to e i h' h'' (drawn_same f) t
            ∙ rw (ap (λ (y : String). str_eq y i) r ∙ x)
                (resolve_person-other s l from i h h' g d n x))
      ]
    where
      drawn_same :
          to.id ≡ platform.new_id s.drawn → to.id ≡ platform.new_id (save_link s from).drawn
      drawn_same f = unfold save_link in f
