-- ===== src/Identity/Links/Assigning.antt =====
-- What link, unlink and relink do to the owners.
use open_residency.Base.{
  ◌≡◌, inl, inr, refl, subst, false, String, Option, none, some, arith, str_eq, eq_iff, Bool-cases,
}
use open_residency.Base.Dict
use open_residency.Base.Unique.{find_lem, Finds}
use open_residency.Identity.Links.Types
use open_residency.Identity.Links.Types.{
  IdentityLink, Registry, Platform, Outcome, ok, refused, NewEvent, unlinked, same_status, Closing,
}
use open_residency.Identity.Links.Store.{
  find_link, is_current, is_current_for, find_current_by_identifier,
}
use open_residency.Identity.Links.Changes.{Decision, write_link, closed, closing_of, rewrite}
use open_residency.Identity.Links.Single.{
  LinkRequest, Linked, new_link, link_over, link, unlink_found, unlink,
}
use open_residency.Identity.Links.Reads.{resolve_person}
use open_residency.Identity.Links.Invariant.{link_id, IsInjective, IsSound, write_link-IsSound}
use open_residency.Identity.Links.Owners.{resolve_person-write_link}
use open_residency.Identity.Links.Effects.{
  Change, keeps, assigns, removes, changed, Does, Answers, nothing-Does, closed_effect, own_stored,
}

-- The change that an answer stands for.
abbrev pub link_change : LinkRequest → Outcome Linked → Change
link_change req (ok l) = assigns req.identifier_ref req.person_ref
link_change req (refused reason) = keeps

abbrev pub unlink_change : Outcome IdentityLink → Change
unlink_change (ok l) = removes l.identifier_ref
unlink_change (refused reason) = keeps

-- The link that is answered is the one that was asked for, closed.
abbrev pub IsUnlinkOf : Registry → String → Outcome IdentityLink → Type 0
IsUnlinkOf s k (refused reason) = Unit
IsUnlinkOf s k (ok u) =
    (l : IdentityLink) × (Dict.get s.links k ≡ some l)
    × (u.id ≡ k)
    × (u.identifier_ref ≡ l.identifier_ref)
    × (is_current u ≡ false)

module _ (platform : Platform) (now : String) (inj : IsInjective platform.new_id) where
  abbrev LinkAnswers : Registry → LinkRequest → Outcome Linked × Registry → Type 0
  LinkAnswers s req r = Answers platform now (link_change req) s r

  -- Linking an identifier that the person holds already.
  link_again :
      (s : Registry) (req : LinkRequest) (l : IdentityLink)
      → IsSound platform s
      → find_current_by_identifier s req.identifier_ref ≡ some l
      → l.person_ref ≡ req.person_ref
      → Does platform now s s (assigns req.identifier_ref req.person_ref)
  link_again s req l h e p = record { sound = h; owners = λ i. same i }
    where
      same :
          (i : String)
          → resolve_person s i
            ≡ changed (assigns req.identifier_ref req.person_ref) (resolve_person s) i
      same i = unfold resolve_person in ground (arith, eq_iff req.identifier_ref i)

  link_over-Answers :
      (s : Registry) (req : LinkRequest) (o : Option IdentityLink)
      → IsSound platform s
      → find_current_by_identifier s req.identifier_ref ≡ o
      → LinkAnswers s req (link_over platform now s req o)
  unfolding link_over
  link_over-Answers s req (some l) h e = elim (Bool-cases (str_eq l.person_ref req.person_ref)) [
    | inl t ↦
        rw t (record { does = link_again s req l h e ((eq_iff l.person_ref req.person_ref).0 t) })
    | inr f ↦ rw f (record { does = nothing-Does platform now s h })
  ]
  link_over-Answers s req none h e =
      let l = new_link platform now s req in
      let h' : (x : NewEvent) → IsSound platform (write_link s l x) = λ x.
        write_link-IsSound platform s l x inj h (unfold new_link in refl)
          (λ k q g. unlinked_before k q g) in
      record {
        does = record {
          sound = h' _;
          owners =
              λ i. unfold new_link in resolve_person-write_link platform s l _ i h (h' _) refl refl;
        };
      }
    where
      unlinked_before :
          (k : String) (q : IdentityLink)
          → Dict.get s.links k ≡ some q
          → is_current_for (new_link platform now s req).identifier_ref q ≡ false
      unlinked_before k q g =
          unfold new_link find_current_by_identifier in
          subst
            (λ (o : Option IdentityLink). Finds link_id is_current_for s.links req.identifier_ref o)
            e (find_lem link_id is_current_for s.links req.identifier_ref h.unique) k q g

  -- A request to link in a sound registry, accepted or refused: the registry stays sound, and if
  -- it is accepted, the identifier then belongs to the person, and no other owner changes; if it
  -- is refused, no owner changes. Identifiers drawn are taken to be all different.
  pub link-Answers :
      (s : Registry) (req : LinkRequest)
      → IsSound platform s
      → LinkAnswers s req (link platform now req s)
  unfolding link
  link-Answers s req h =
      let no : (reason : String) → LinkAnswers s req (refused reason, s) =
        λ reason. record { does = nothing-Does platform now s h } in
      ground (
        arith,
        no "DECIDING_ACTOR_REQUIRED",
        no "IDENTIFIER_REQUIRED",
        no "EVIDENCE_REQUIRED",
        link_over-Answers s req (find_current_by_identifier s req.identifier_ref) h refl,
      )

  abbrev UnlinkAnswers : Registry → Outcome IdentityLink × Registry → Type 0
  UnlinkAnswers s r = Answers platform now unlink_change s r

  unlink_found-Answers :
      (s : Registry) (k : String) (req : Decision) (o : Option IdentityLink)
      → IsSound platform s
      → Dict.get s.links k ≡ o
      → UnlinkAnswers s (unlink_found platform now s req o)
  unfolding unlink_found rewrite
  unlink_found-Answers s k req none h g = record { does = nothing-Does platform now s h }
  unlink_found-Answers s k req (some l) h g = elim (Bool-cases (same_status l.status unlinked)) [
    | inl t ↦ rw t (record { does = nothing-Does platform now s h })
    | inr f ↦ rw f (record {
      does =
          unfold closed in
          closed_effect platform now s l (closed l (closing_of now req Types.unlink) none) _ req h
            (own_stored platform now s k l h g) refl (ground arith) refl;
    })
  ]

  unlink_found-IsUnlinkOf :
      (s : Registry) (k : String) (req : Decision) (o : Option IdentityLink)
      → IsSound platform s
      → Dict.get s.links k ≡ o
      → IsUnlinkOf s k (unlink_found platform now s req o).0
  unfolding unlink_found rewrite closed
  unlink_found-IsUnlinkOf s k req none h g = tt
  unlink_found-IsUnlinkOf s k req (some l) h g = elim (Bool-cases (same_status l.status unlinked)) [
    | inl t ↦ rw t tt
    | inr f ↦ rw f (l, g, h.unique.own k l g, refl, refl)
  ]

  unlink-IsUnlinkOf :
      (s : Registry) (k : String) (req : Decision)
      → IsSound platform s
      → IsUnlinkOf s k (unlink platform now k req s).0
  unfolding unlink find_link
  unlink-IsUnlinkOf s k req h =
      ground (arith, unlink_found-IsUnlinkOf s k req (Dict.get s.links k) h refl)

  unlink-does :
      (s : Registry) (k : String) (req : Decision)
      → IsSound platform s
      → UnlinkAnswers s (unlink platform now k req s)
  unfolding unlink find_link
  unlink-does s k req h =
      let no : (reason : String) → UnlinkAnswers s (refused reason, s) =
        λ reason. record { does = nothing-Does platform now s h } in
      ground (
        arith,
        no "DECIDING_ACTOR_REQUIRED",
        no "REASON_REQUIRED",
        unlink_found-Answers s k req (Dict.get s.links k) h refl,
      )

  -- A request to close a link in a sound registry, accepted or refused: the registry stays sound,
  -- and if it is refused, no owner changes. If it is accepted, the link answered is the one stored
  -- under the identifier asked for, now closed; the person identifier that it carries then has no
  -- owner, and no other owner changes. Identifiers drawn are taken to be all different.
  pub unlink-Answers :
      (s : Registry) (k : String) (req : Decision)
      → IsSound platform s
      → UnlinkAnswers s (unlink platform now k req s)
        × IsUnlinkOf s k (unlink platform now k req s).0
  unlink-Answers s k req h = (unlink-does s k req h, unlink-IsUnlinkOf s k req h)
