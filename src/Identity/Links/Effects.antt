-- ===== src/Identity/Links/Effects.antt =====
-- The abstract view of the registry, a map from identifiers to their owners, and what the operations
-- on one link do to it.
use open_residency.Base.{
  ◌≡◌, inl, inr, refl, sym, ap, ◌∙◌, Bool, true, false, String, Option, none, some, List,
  if◌then◌else◌, arith, str_eq, Bool-cases, any,
}
use open_residency.Base.Dict
use open_residency.Identity.Links.Types.{
  IdentityLink, IdentityLinkOperation, Registry, Platform, Outcome, NewEvent, unlinked, disputed,
  same_status, Dispute,
}
use open_residency.Identity.Links.Store.{
  save_link, append_event, find_link, is_current, is_current_for, find_current_by_identifier,
}
use open_residency.Identity.Links.Changes.{Decision, drawing, rewrite, attributed, attributed_then}
use open_residency.Identity.Links.Single.{
  disputing, dispute_found, dispute, resolve_with, resolve_found, resolve_dispute,
}
use open_residency.Identity.Links.Reads.{resolve_person}
use open_residency.Identity.Links.Invariant.{IsSound, save-IsSound, not_current}
use open_residency.Identity.Links.Owners.{resolve_person-keep, resolve_person-close}

-- What an operation does to the owners.
pub data Change : Type 0 where
  keeps : Change
  assigns : String → String → Change
  removes : String → Change
  transfers : String → String → Change
  assigns_all : List String → String → Change

-- The owners of identifiers.
abbrev pub OwnerMap : Type 0
OwnerMap = String → Option String

abbrev pub is_person : String → Option String → Bool
is_person p none = false
is_person p (some q) = str_eq q p

abbrev pub among : List String → String → Bool
among is i = any (λ j. str_eq j i) is

abbrev pub changed : Change → OwnerMap → OwnerMap
changed keeps m i = m i
changed (assigns j p) m i = if str_eq j i then some p else m i
changed (removes j) m i = if str_eq j i then none else m i
changed (transfers from to) m i = if is_person from (m i) then some to else m i
changed (assigns_all is p) m i = if among is i then some p else m i

module _ (platform : Platform) (now : String) where
  -- The registry stays sound, and its owners change as said.
  pub record Does (s s' : Registry) (c : Change) : Type 0 where
    pub sound : IsSound platform s'
    pub owners : (i : String) → resolve_person s' i ≡ changed c (resolve_person s) i

  pub nothing-Does : (s : Registry) → IsSound platform s → Does s s keeps
  nothing-Does s h = record { sound = h; owners = λ i. refl }

  -- The event of a change, and the identifier that it draws, leave the links.
  pub noted :
      (s t : Registry) (e : NewEvent) (c : Change)
      → Does s t c
      → Does s (drawing (append_event t e)) c
  unfolding append_event
  noted s t e c d = record {
    sound = record { unique = d.sound.unique; fresh = λ j m. d.sound.fresh j (omega (arith, m)) };
    owners = λ i. unfold resolve_person find_current_by_identifier in d.owners i;
  }

  -- Rewriting a link with its person, its identifier and its being current kept.
  rewritten :
      (s : Registry) (l u : IdentityLink) (op : IdentityLinkOperation) (req : Decision)
      → IsSound platform s
      → Dict.get s.links l.id ≡ some l
      → u.id ≡ l.id
      → u.person_ref ≡ l.person_ref
      → u.identifier_ref ≡ l.identifier_ref
      → is_current u ≡ is_current l
      → Does s (rewrite platform now s u op req).1 keeps
  unfolding rewrite
  rewritten s l u op req h g d p r c =
      let same = λ (i : String). same_current i r c in
      let h' = save-IsSound platform s l u h g d (λ i t. sym (same i) ∙ t) in
      noted s (save_link s u) _ keeps (record {
        sound = h';
        owners = λ i. resolve_person-keep platform s l u i h h' g d p (same i);
      })
    where
      same_current :
          (i : String)
          → u.identifier_ref ≡ l.identifier_ref
          → is_current u ≡ is_current l
          → is_current_for i u ≡ is_current_for i l
      same_current i r c = unfold is_current_for in ground arith

  -- Closing the current link of an identifier.
  pub closed_effect :
      (s : Registry) (l u : IdentityLink) (op : IdentityLinkOperation) (req : Decision)
      → IsSound platform s
      → Dict.get s.links l.id ≡ some l
      → u.id ≡ l.id
      → is_current l ≡ true
      → is_current u ≡ false
      → Does s (rewrite platform now s u op req).1 (removes l.identifier_ref)
  unfolding rewrite
  closed_effect s l u op req h g d t n =
      let h' = save-IsSound platform s l u h g d (λ i x. absurd (never (not_current i u n) x)) in
      noted s (save_link s u) _ (removes l.identifier_ref)
        (record { sound = h'; owners = λ i. resolve_person-close platform s l u i h h' g d t n })
    where
      never : {b : Bool} → b ≡ false → b ≡ true → ⊥
      never f t = cc

  -- A link that a lookup finds carries the key.
  pub own_stored :
      (s : Registry) (k : String) (l : IdentityLink)
      → IsSound platform s
      → Dict.get s.links k ≡ some l
      → Dict.get s.links l.id ≡ some l
  own_stored s k l h g = ap (Dict.get s.links) (h.unique.own k l g) ∙ g

  dispute_found-Does :
      (s : Registry) (k : String) (req : Decision) (o : Option IdentityLink)
      → IsSound platform s
      → Dict.get s.links k ≡ o
      → Does s (dispute_found platform now s req o).1 keeps
  unfolding dispute_found
  dispute_found-Does s k req none h g = nothing-Does s h
  dispute_found-Does s k req (some l) h g = elim (Bool-cases (same_status l.status unlinked)) [
    | inl t ↦ rw t (nothing-Does s h)
    | inr f ↦ elim (Bool-cases (same_status l.status disputed)) [
      | inl t ↦ rw (f, t) (nothing-Does s h)
      | inr n ↦
          rw (f, n)
            (rewritten s l (disputing platform now l req) _ req h (own_stored s k l h g)
              (unfold disputing in refl) (unfold disputing in refl) (unfold disputing in refl)
              (unfold disputing in ground arith))
    ]
  ]

  pub attributed_then-Does :
      (s : Registry) (o : Option String) (r : Outcome IdentityLink × Registry)
      → IsSound platform s
      → Does s r.1 keeps
      → Does s (attributed_then s o r).1 keeps
  attributed_then-Does s none r h d = d
  attributed_then-Does s (some reason) r h d = nothing-Does s h

  -- Raising a dispute changes no owner, whatever is answered.
  pub dispute-Does :
      (s : Registry) (k : String) (req : Decision)
      → IsSound platform s
      → Does s (dispute platform now k req s).1 keeps
  unfolding dispute find_link
  dispute-Does s k req h =
      attributed_then-Does s (attributed req)
        (dispute_found platform now s req (Dict.get s.links k)) h
        (dispute_found-Does s k req (Dict.get s.links k) h refl)

  resolve_with-Does :
      (s : Registry) (k : String) (req : Decision) (l : IdentityLink) (o : Option Dispute)
      → IsSound platform s
      → Dict.get s.links k ≡ some l
      → Does s (resolve_with platform now s req l o).1 keeps
  resolve_with-Does s k req l none h g = nothing-Does s h
  resolve_with-Does s k req l (some d) h g = elim (Bool-cases (same_status l.status disputed)) [
    | inr f ↦ rw f (nothing-Does s h)
    | inl t ↦ rw t (rewritten s l _ _ req h (own_stored s k l h g) refl refl refl (ground arith))
  ]

  resolve_found-Does :
      (s : Registry) (k : String) (req : Decision) (o : Option IdentityLink)
      → IsSound platform s
      → Dict.get s.links k ≡ o
      → Does s (resolve_found platform now s req o).1 keeps
  unfolding resolve_found
  resolve_found-Does s k req none h g = nothing-Does s h
  resolve_found-Does s k req (some l) h g = resolve_with-Does s k req l l.dispute_record h g

  pub resolve_dispute-Does :
      (s : Registry) (k : String) (req : Decision)
      → IsSound platform s
      → Does s (resolve_dispute platform now k req s).1 keeps
  unfolding resolve_dispute find_link
  resolve_dispute-Does s k req h =
      attributed_then-Does s (attributed req)
        (resolve_found platform now s req (Dict.get s.links k)) h
        (resolve_found-Does s k req (Dict.get s.links k) h refl)

  -- The effect of an operation, by the change that its answer stands for.
  pub record Answers {A : Type 0} (change : Outcome A → Change) (s : Registry)
      (r : Outcome A × Registry) : Type 0 where
    pub does : Does s r.1 (change r.0)
