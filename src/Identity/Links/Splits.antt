-- ===== src/Identity/Links/Splits.antt =====
-- What a merge created stays in place until it is split, and splitting it undoes the merge.
use open_residency.Base.{
  ℕ, ◌+◌, ◌≡◌, ◌≢◌, ◌≤◌, refl, sym, ap, ◌∙◌, subst, true, String, Option, none, some, List, [], ◌∷◌,
  arith, eq_iff, All, ◌&◌,
}
use open_residency.Base.Dict
use open_residency.Base.Dict.{get-put}
use open_residency.Base.Apart.{Apart}
use open_residency.Identity.Links.Types.{IdentityLink, Registry, Platform, Closing, Moved}
use open_residency.Identity.Links.Store.{save_link, find_link, append_event, is_current}
use open_residency.Identity.Links.Changes.{write_link, move, closed, continuing}
use open_residency.Identity.Links.Merging.{carry_over, merge_all, survivor_links}
use open_residency.Identity.Links.Invariant.{link_id, IsInjective, IsSound}
use open_residency.Identity.Links.Pending.{identifiers, IsReady}
use open_residency.Identity.Links.Rounds.{carry_over-get, carry_over-Does, carry_over-AllReady}

module _ (platform : Platform) (now : String) (inj : IsInjective platform.new_id) where
  carry_over-drawn :
      (s : Registry) (l : IdentityLink) (c : Closing) (from_ref person_ref : String)
      (evidence : List String) (merge_id event_merge_id : Option String)
      → (carry_over platform now s l c from_ref person_ref evidence merge_id event_merge_id).drawn
        ≡ s.drawn + 1 + 1
  unfolding carry_over move write_link save_link append_event
  carry_over-drawn s l c from_ref person_ref evidence merge_id event_merge_id = refl

  carry_over-new :
      (s : Registry) (l : IdentityLink) (c : Closing) (from_ref person_ref : String)
      (evidence : List String) (merge_id event_merge_id : Option String)
      → Dict.get
          (carry_over platform now s l c from_ref person_ref evidence merge_id event_merge_id).links
          (platform.new_id s.drawn)
        ≡ some (continuing platform s l person_ref evidence c.at c.by merge_id)
  unfolding carry_over move write_link save_link append_event closed continuing
  carry_over-new s l c from_ref person_ref evidence merge_id event_merge_id =
      put_found (Dict.put s.links l.id (closed l c (some (platform.new_id s.drawn))))
        (continuing platform s l person_ref evidence c.at c.by merge_id) (platform.new_id s.drawn)
        refl
    where
      put_found :
          (m : Dict.Dict IdentityLink) (a : IdentityLink) (k : String)
          → a.id ≡ k
          → Dict.get (Dict.put m a.id a) k ≡ some a
      put_found m a k e = ground (arith, get-put m a.id k a, eq_iff a.id k)

  -- A key that is none of the links moved, and not drawn from now on.
  abbrev IsElsewhere : Registry → List IdentityLink → String → Type 0
  IsElsewhere s ls k =
      All (λ (q : IdentityLink). q.id ≢ k) ls × ((j : ℕ) → s.drawn ≤ j → platform.new_id j ≢ k)

  merge_all-get :
      (s : Registry) (ls : List IdentityLink) (c : Closing)
      (duplicate_ref survivor_ref merge_id : String) (k : String)
      → IsElsewhere s ls k
      → Dict.get (merge_all platform now s ls c duplicate_ref survivor_ref merge_id).1.links k
        ≡ Dict.get s.links k
  unfolding merge_all
  merge_all-get s [] c duplicate_ref survivor_ref merge_id k e = refl
  merge_all-get s (l ∷ ls) c duplicate_ref survivor_ref merge_id k (n, f) =
      let evidence = ("merge:" & merge_id) ∷ l.evidence_refs in
      let s' =
        carry_over platform now s l c duplicate_ref survivor_ref evidence (some merge_id)
          (some merge_id) in
      let d =
        carry_over-drawn s l c duplicate_ref survivor_ref evidence (some merge_id)
          (some merge_id) in
      merge_all-get s' ls c duplicate_ref survivor_ref merge_id k
        (n.1, λ j m. f j (omega (arith, d, m)))
      ∙ carry_over-get platform now inj s l c duplicate_ref survivor_ref evidence (some merge_id)
          (some merge_id) k n.0 (f s.drawn (omega arith))

  -- A link under an identifier drawn from now on.
  abbrev DrawnFrom : ℕ → IdentityLink → Type 0
  DrawnFrom d q = (j : ℕ) × (d ≤ j) × (platform.new_id j ≡ q.id)

  earlier :
      (d d' : ℕ) (qs : List IdentityLink) → d ≤ d' → All (DrawnFrom d') qs → All (DrawnFrom d) qs
  earlier d d' [] m h = tt
  earlier d d' (q ∷ qs) m ((j, n, e), k) = ((j, omega (arith, m, n), e), earlier d d' qs m k)

  apart_later :
      (d : ℕ) (qs : List IdentityLink)
      → All (DrawnFrom (d + 1 + 1)) qs
      → All (λ (q : IdentityLink). platform.new_id d ≢ q.id) qs
  apart_later d [] h = tt
  apart_later d (q ∷ qs) ((j, n, e), k) =
      (λ x. not_self d j n (inj d j (x ∙ sym e)), apart_later d qs k)
    where
      not_self : (d j : ℕ) → d + 1 + 1 ≤ j → d ≡ j → ⊥
      not_self d j n e = omega arith

  -- What a merge of the links leaves in a registry: one current link for each of them.
  pub record Created (u : Registry) (moved : List Moved) (ls : List IdentityLink) (d : ℕ)
      : Type 0 where
    pub links : List IdentityLink
    pub found : survivor_links u moved ≡ some links
    pub same : identifiers links ≡ identifiers ls
    pub ready : All (IsReady u) links
    pub apart : Apart link_id links
    pub later : All (DrawnFrom d) links

  survivor_next :
      (u : Registry) (m : Moved) (ms : List Moved) (to : IdentityLink) (qs : List IdentityLink)
      → Dict.get u.links m.to ≡ some to
      → is_current to ≡ true
      → survivor_links u ms ≡ some qs
      → survivor_links u (m ∷ ms) ≡ some (to ∷ qs)
  unfolding survivor_links find_link
  survivor_next u m ms to qs g t f = rw (g, f) (ground arith)

  next-Created :
      (u : Registry) (m : Moved) (ms : List Moved) (l to : IdentityLink) (ls : List IdentityLink)
      (d : ℕ)
      → Dict.get u.links m.to ≡ some to
      → m.to ≡ platform.new_id d
      → to.id ≡ platform.new_id d
      → to.identifier_ref ≡ l.identifier_ref
      → is_current to ≡ true
      → Created u ms ls (d + 1 + 1)
      → Created u (m ∷ ms) (l ∷ ls) d
  unfolding survivor_links find_link
  next-Created u m ms l to ls d g e i r t c = record {
    links = to ∷ c.links;
    found = survivor_next u m ms to c.links g t c.found;
    same = ground arith;
    ready = ((ap (Dict.get u.links) (i ∙ sym e) ∙ g, t), c.ready);
    apart = (
      subst (λ (x : String). All (λ (q : IdentityLink). x ≢ q.id) c.links) (sym i)
          (apart_later d c.links c.later),
      c.apart,
    );
    later = ((d, omega arith, sym i), earlier d (d + 1 + 1) c.links (omega arith) c.later);
  }

  -- Links that are stored are apart from those drawn from now on.
  stored_elsewhere :
      (s : Registry) (l : IdentityLink) (ls : List IdentityLink)
      → IsSound platform s
      → All (IsReady s) ls
      → All (λ (q : IdentityLink). q.id ≢ platform.new_id s.drawn) ls
  stored_elsewhere s l [] h r = tt
  stored_elsewhere s l (q ∷ qs) h ((g, t), r) = (
    λ e. none_some q (sym (h.fresh s.drawn (omega arith)) ∙ ap (Dict.get s.links) (sym e) ∙ g),
    stored_elsewhere s l qs h r,
  )
    where
      none_some : (q : IdentityLink) → none ≡ some q → ⊥
      none_some q e = cc

  pub merge_all-Created :
      (s : Registry) (ls : List IdentityLink) (c : Closing)
      (duplicate_ref survivor_ref merge_id : String) (u : Registry)
      → IsSound platform s
      → All (IsReady s) ls
      → Apart link_id ls
      → ((k : String)
          → Dict.get u.links k
            ≡ Dict.get
                (merge_all platform now s ls c duplicate_ref survivor_ref merge_id).1.links
                k)
      → Created u (merge_all platform now s ls c duplicate_ref survivor_ref merge_id).0 ls s.drawn
  unfolding merge_all
  merge_all-Created s [] c duplicate_ref survivor_ref merge_id u h r a e = record {
    links = [];
    found = unfold survivor_links in refl;
    same = refl;
    ready = tt;
    apart = tt;
    later = tt;
  }
  merge_all-Created s (l ∷ ls) c duplicate_ref survivor_ref merge_id u h r a e =
      let evidence = ("merge:" & merge_id) ∷ l.evidence_refs in
      let to = continuing platform s l survivor_ref evidence c.at c.by (some merge_id) in
      let s' =
        carry_over platform now s l c duplicate_ref survivor_ref evidence (some merge_id)
          (some merge_id) in
      let d =
        carry_over-drawn s l c duplicate_ref survivor_ref evidence (some merge_id)
          (some merge_id) in
      let does =
        carry_over-Does platform now inj s l c duplicate_ref survivor_ref evidence (some merge_id)
          (some merge_id) h r.0 in
      let rest =
        merge_all-Created s' ls c duplicate_ref survivor_ref merge_id u does.sound
          (carry_over-AllReady platform now inj s l ls c duplicate_ref survivor_ref evidence
            (some merge_id) (some merge_id) h a.0 r.1)
          a.1 e in
      next-Created u _ _ l to ls s.drawn
        (e (platform.new_id s.drawn)
          ∙ merge_all-get s' ls c duplicate_ref survivor_ref merge_id (platform.new_id s.drawn) (
            stored_elsewhere s l ls h r.1,
            λ j m x. not_self s.drawn j s'.drawn m d (inj j s.drawn x),
          )
          ∙ carry_over-new s l c duplicate_ref survivor_ref evidence (some merge_id)
              (some merge_id))
        refl (unfold continuing in refl) (unfold continuing in refl) (unfold continuing in refl)
        (subst
          (λ (n : ℕ).
            Created u (merge_all platform now s' ls c duplicate_ref survivor_ref merge_id).0 ls n)
          d rest)
    where
      not_self : (d j k : ℕ) → k ≤ j → k ≡ d + 1 + 1 → j ≡ d → ⊥
      not_self d j k m e x = omega arith
