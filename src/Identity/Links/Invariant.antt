-- ===== src/Identity/Links/Invariant.antt =====
-- The state of the registry: an identifier has at most one current link, and identifiers to be drawn
-- are not in use.
use open_residency.Base.{
  ℕ, ◌+◌, ◌≡◌, ◌≤◌, inl, inr, sym, ap, ◌∙◌, true, false, String, none, some, arith, eq_iff,
  Bool-cases,
}
use open_residency.Base.Dict
use open_residency.Base.Dict.{get-put}
use open_residency.Base.Unique.{written, Written, IsUnique, put-IsUnique, update-IsUnique}
use open_residency.Identity.Links.Types.{IdentityLink, Registry, Platform, NewEvent}
use open_residency.Identity.Links.Store.{save_link, append_event, is_current, is_current_for}
use open_residency.Identity.Links.Changes.{write_link, move}

-- The key of a link.
abbrev pub link_id : IdentityLink → String
link_id l = l.id

abbrev pub IsInjective : (ℕ → String) → Type 0
IsInjective f = (i j : ℕ) → f i ≡ f j → i ≡ j

-- A link that is not current is current for no identifier.
pub not_current :
    (i : String) (l : IdentityLink) → is_current l ≡ false → is_current_for i l ≡ false
unfolding is_current_for
not_current i l n = ground arith

module _ (platform : Platform) where
  pub record IsSound (s : Registry) : Type 0 where
    pub unique : IsUnique link_id is_current_for s.links
    pub fresh : (j : ℕ) → s.drawn ≤ j → Dict.get s.links (platform.new_id j) ≡ none

  -- A rewritten link, with one or more identifiers drawn since.
  pub save-IsSound :
      (s : Registry) (l u : IdentityLink)
      → IsSound s
      → Dict.get s.links l.id ≡ some l
      → u.id ≡ l.id
      → ((i : String) → is_current_for i u ≡ true → is_current_for i l ≡ true)
      → IsSound (save_link s u)
  unfolding save_link
  save-IsSound s l u h g i p = record {
    unique = update-IsUnique link_id is_current_for s.links l u h.unique g i p;
    fresh = λ j m. other j (h.fresh j m);
  }
    where
      other :
          (j : ℕ)
          → Dict.get s.links (platform.new_id j) ≡ none
          → Dict.get (Dict.put s.links u.id u) (platform.new_id j) ≡ none
      other j f =
          ground
            (arith, get-put s.links u.id (platform.new_id j) u, eq_iff u.id (platform.new_id j))

  -- A new link under the next identifier, for an identifier that has no current link.
  pub write_link-IsSound :
      (s : Registry) (l : IdentityLink) (e : NewEvent)
      → IsInjective platform.new_id
      → IsSound s
      → l.id ≡ platform.new_id s.drawn
      → ((k : String) (q : IdentityLink)
          → Dict.get s.links k ≡ some q
          → is_current_for l.identifier_ref q ≡ false)
      → IsSound (write_link s l e)
  unfolding write_link save_link append_event is_current_for
  write_link-IsSound s l e inj h d n = record {
    unique =
        put-IsUnique link_id is_current_for s.links l h.unique
          (λ c k q g hl hq. clash c k q (n k q g) hl hq);
    fresh = λ j m. other j (inj s.drawn j) (h.fresh j (omega arith)) m;
  }
    where
      clash :
          (c k : String) (q : IdentityLink)
          → is_current_for l.identifier_ref q ≡ false
          → is_current_for c l ≡ true
          → is_current_for c q ≡ true
          → l.id ≡ k
      clash c k q f hl hq = ground (
        arith,
        eq_iff l.identifier_ref c,
        eq_iff q.identifier_ref c,
        eq_iff q.identifier_ref l.identifier_ref,
      )

      other :
          (j : ℕ)
          → (platform.new_id s.drawn ≡ platform.new_id j → s.drawn ≡ j)
          → Dict.get s.links (platform.new_id j) ≡ none
          → s.drawn + 1 + 1 ≤ j
          → Dict.get (Dict.put s.links l.id l) (platform.new_id j) ≡ none
      other j inj f m =
          ground
            (arith, get-put s.links l.id (platform.new_id j) l, eq_iff l.id (platform.new_id j))

  -- A link that is closed, and continued by a new one for the same identifier.
  pub move-IsSound :
      (s : Registry) (l from to : IdentityLink) (e : NewEvent)
      → IsInjective platform.new_id
      → IsSound s
      → Dict.get s.links l.id ≡ some l
      → ((k : String) (q : IdentityLink)
          → Dict.get s.links k ≡ some q
          → is_current_for l.identifier_ref q ≡ true
          → k ≡ l.id)
      → from.id ≡ l.id
      → is_current from ≡ false
      → to.id ≡ platform.new_id s.drawn
      → to.identifier_ref ≡ l.identifier_ref
      → IsSound (move s from to e)
  unfolding move save_link
  move-IsSound s l from to e inj h g only i n d r =
      write_link-IsSound (save_link s from) to e inj
        (save-IsSound s l from h g i (λ c t. ground (arith, not_current c from n))) d
        (λ k q f. alone k q (written link_id is_current_for s.links from k q f))
    where
      alone :
          (k : String) (q : IdentityLink)
          → Written link_id is_current_for s.links from k q
          → is_current_for to.identifier_ref q ≡ false
      alone k q (inl (_, e)) =
          ap (is_current_for to.identifier_ref) e ∙ not_current to.identifier_ref from n
      alone k q (inr (m, f)) = elim (Bool-cases (is_current_for to.identifier_ref q)) [
        | inr x ↦ x
        | inl x ↦
            absurd (m (i ∙ sym (only k q f (ap (λ (c : String). is_current_for c q) (sym r) ∙ x))))
      ]
