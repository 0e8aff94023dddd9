-- ===== src/Identity/Links/Reassigning.antt =====
-- What relink does to the owners.
use open_residency.Base.{
  ◌≡◌, inl, inr, refl, sym, ◌∙◌, subst, Bool, true, false, not, String, Option, none, some, arith,
  str_eq, eq_iff, Bool-cases, trim,
}
use open_residency.Base.Dict
use open_residency.Base.Unique.{find_lem, Finds}
use open_residency.Identity.Links.Types
use open_residency.Identity.Links.Types.{
  IdentityLink, Registry, Platform, Outcome, ok, refused, NewEvent, unlinked, same_status, Closing,
}
use open_residency.Identity.Links.Store.{
  find_link, is_current, is_current_for, find_current_by_identifier,
}
use open_residency.Identity.Links.Changes.{move, closed, source_of, continuing, trimmed_all, at_or}
use open_residency.Identity.Links.Relinking.{
  RelinkRequest, Relinked, relink_write, relink_found, relink, moved_on,
}
use open_residency.Identity.Links.Invariant.{
  link_id, IsInjective, IsSound, save-IsSound, move-IsSound, not_current,
}
use open_residency.Identity.Links.Owners.{resolve_person-move}
use open_residency.Identity.Links.Effects.{
  Change, keeps, assigns, Does, Answers, nothing-Does, own_stored,
}

-- The change that an answer stands for.
abbrev pub relink_change : RelinkRequest → Outcome Relinked → Change
relink_change req (ok r) = assigns r.from.identifier_ref req.to_person_ref
relink_change req (refused reason) = keeps

source_not_current :
    (l : IdentityLink) (c : Closing) (to : String) → is_current (source_of l c to) ≡ false
unfolding closed
source_not_current l c to = ground arith

source_id : (l : IdentityLink) (c : Closing) (to : String) → (source_of l c to).id ≡ l.id
unfolding closed
source_id l c to = ground arith

source_identifier :
    (l : IdentityLink) (c : Closing) (to : String)
    → (source_of l c to).identifier_ref ≡ l.identifier_ref
unfolding closed
source_identifier l c to = ground arith

-- The links that are answered are the one that was asked for and its continuation.
abbrev pub IsRelinkOf : Registry → String → RelinkRequest → Outcome Relinked → Type 0
IsRelinkOf s k req (refused reason) = Unit
IsRelinkOf s k req (ok r) =
    (l : IdentityLink) × (Dict.get s.links k ≡ some l)
    × (r.from.id ≡ k)
    × (r.from.identifier_ref ≡ l.identifier_ref)
    × (is_current r.from ≡ false)
    × (r.to.identifier_ref ≡ l.identifier_ref)
    × (r.to.person_ref ≡ req.to_person_ref)

module _ (platform : Platform) (now : String) (inj : IsInjective platform.new_id) where
  -- Closing a link, if it is the only current one of its identifier or none is, and continuing it on
  -- another person.
  pub move-Does :
      (s : Registry) (l from to : IdentityLink) (e : NewEvent)
      → IsSound platform s
      → Dict.get s.links l.id ≡ some l
      → ((k : String) (q : IdentityLink)
          → Dict.get s.links k ≡ some q
          → is_current_for l.identifier_ref q ≡ true
          → k ≡ l.id)
      → from.id ≡ l.id
      → is_current from ≡ false
      → to.id ≡ platform.new_id s.drawn
      → to.identifier_ref ≡ l.identifier_ref
      → is_current to ≡ true
      → Does platform now s (move s from to e) (assigns l.identifier_ref to.person_ref)
  move-Does s l from to e h g only i n d r t =
      let h' =
        save-IsSound platform s l from h g i (λ c x. absurd (never (not_current c from n) x)) in
      let h'' = move-IsSound platform s l from to e inj h g only i n d r in
      record {
        sound = h'';
        owners = λ j. resolve_person-move platform s l from to e j h h' h'' g i n d r t;
      }
    where
      never : {b : Bool} → b ≡ false → b ≡ true → ⊥
      never f t = cc

  -- Where no other link of the identifier was found current, none is.
  only_current :
      (s : Registry) (l : IdentityLink) (o : Option IdentityLink)
      → IsSound platform s
      → Finds link_id is_current_for s.links l.identifier_ref o
      → moved_on l o ≡ false
      → (k : String) (q : IdentityLink) → Dict.get s.links k ≡ some q
      → is_current_for l.identifier_ref q ≡ true
      → k ≡ l.id
  only_current s l none h f m k q g t = absurd (never (f k q g) t)
    where
      never : {b : Bool} → b ≡ false → b ≡ true → ⊥
      never f t = cc
  only_current s l (some c) h (f, x) m k q g t =
      h.unique.one l.identifier_ref k c.id q c g f t x ∙ same c.id m
    where
      same : (i : String) → not (str_eq i l.id) ≡ false → i ≡ l.id
      same i m = ground (arith, eq_iff i l.id)

  abbrev RelinkAnswers : Registry → RelinkRequest → Outcome Relinked × Registry → Type 0
  RelinkAnswers s req r = Answers platform now (relink_change req) s r

  relink_write-Answers :
      (s : Registry) (req : RelinkRequest) (l : IdentityLink)
      → IsSound platform s
      → Dict.get s.links l.id ≡ some l
      → moved_on l (find_current_by_identifier s l.identifier_ref) ≡ false
      → RelinkAnswers s req (relink_write platform now s req l)
  unfolding relink_write find_current_by_identifier continuing
  relink_write-Answers s req l h g m =
      let c : Closing = record {
        at = at_or req.at now;
        by = trim req.by;
        reason = trim req.reason;
        operation = Types.relink;
      } in
      let to =
        continuing platform s l req.to_person_ref (trimmed_all req.evidence_refs) c.at c.by none in
      record {
        does =
            subst
              (λ (i : String).
                Does platform now s (relink_write platform now s req l).1
                  (assigns i req.to_person_ref))
              (sym (source_identifier l c to.id))
              (move-Does s l (source_of l c to.id) to _ h g
                (only_current s l _ h
                  (find_lem link_id is_current_for s.links l.identifier_ref h.unique) m)
                (source_id l c to.id) (source_not_current l c to.id) refl refl refl);
      }

  relink_found-Answers :
      (s : Registry) (k : String) (req : RelinkRequest) (o : Option IdentityLink)
      → IsSound platform s
      → Dict.get s.links k ≡ o
      → RelinkAnswers s req (relink_found platform now s req o)
  unfolding relink_found
  relink_found-Answers s k req none h g = record { does = nothing-Does platform now s h }
  relink_found-Answers s k req (some l) h g =
      elim (Bool-cases (moved_on l (find_current_by_identifier s l.identifier_ref))) [
        | inl t ↦ rw t (record { does = nothing-Does platform now s h })
        | inr f ↦ elim (Bool-cases (str_eq l.person_ref req.to_person_ref)) [
          | inl t ↦ rw (f, t) (record { does = nothing-Does platform now s h })
          | inr n ↦ rw (f, n) (relink_write-Answers s req l h (own_stored platform now s k l h g) f)
        ]
      ]

  relink_write-IsRelinkOf :
      (s : Registry) (k : String) (req : RelinkRequest) (l : IdentityLink)
      → IsSound platform s
      → Dict.get s.links k ≡ some l
      → IsRelinkOf s k req (relink_write platform now s req l).0
  unfolding relink_write continuing
  relink_write-IsRelinkOf s k req l h g = (
    l,
    g,
    source_id l _ _ ∙ h.unique.own k l g,
    source_identifier l _ _,
    source_not_current l _ _,
    refl,
    refl,
  )

  relink_found-IsRelinkOf :
      (s : Registry) (k : String) (req : RelinkRequest) (o : Option IdentityLink)
      → IsSound platform s
      → Dict.get s.links k ≡ o
      → IsRelinkOf s k req (relink_found platform now s req o).0
  unfolding relink_found
  relink_found-IsRelinkOf s k req none h g = tt
  relink_found-IsRelinkOf s k req (some l) h g =
      elim (Bool-cases (moved_on l (find_current_by_identifier s l.identifier_ref))) [
        | inl t ↦ rw t tt
        | inr f ↦ elim (Bool-cases (str_eq l.person_ref req.to_person_ref)) [
          | inl t ↦ rw (f, t) tt
          | inr n ↦ rw (f, n) (relink_write-IsRelinkOf s k req l h g)
        ]
      ]

  relink-IsRelinkOf :
      (s : Registry) (k : String) (req : RelinkRequest)
      → IsSound platform s
      → IsRelinkOf s k req (relink platform now k req s).0
  unfolding relink find_link
  relink-IsRelinkOf s k req h =
      ground (arith, relink_found-IsRelinkOf s k req (Dict.get s.links k) h refl)

  relink-does :
      (s : Registry) (k : String) (req : RelinkRequest)
      → IsSound platform s
      → RelinkAnswers s req (relink platform now k req s)
  unfolding relink find_link
  relink-does s k req h =
      let no : (reason : String) → RelinkAnswers s req (refused reason, s) =
        λ reason. record { does = nothing-Does platform now s h } in
      ground (
        arith,
        no "DECIDING_ACTOR_REQUIRED",
        no "REASON_REQUIRED",
        no "EVIDENCE_REQUIRED",
        no "TARGET_PERSON_REQUIRED",
        relink_found-Answers s k req (Dict.get s.links k) h refl,
      )

  -- A request to move a link in a sound registry, accepted or refused: the registry stays sound,
  -- and if it is refused, no owner changes. If it is accepted, the link answered is the one stored
  -- under the identifier asked for, closed or passed on, and the new link is for the same
  -- identifier and the person asked for; that identifier then belongs to that person, and no other
  -- owner changes. Identifiers drawn are taken to be all different.
  pub relink-Answers :
      (s : Registry) (k : String) (req : RelinkRequest)
      → IsSound platform s
      → RelinkAnswers s req (relink platform now k req s)
        × IsRelinkOf s k req (relink platform now k req s).0
  relink-Answers s k req h = (relink-does s k req h, relink-IsRelinkOf s k req h)
