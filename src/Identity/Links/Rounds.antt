-- ===== src/Identity/Links/Rounds.antt =====
-- The rounds of merge and split, and the owners after all of them.
use open_residency.Base.{
  ◌≡◌, ◌≢◌, refl, sym, ap, ◌∙◌, true, String, Option, none, some, List, [], ◌∷◌, arith, str_eq,
  eq_iff, Bool-cases, All, str_eq_refl, ◌&◌,
}
use open_residency.Base.Dict
use open_residency.Base.Dict.{get-put}
use open_residency.Base.Apart.{Apart}
use open_residency.Identity.Links.Types.{IdentityLink, Registry, Platform, Closing}
use open_residency.Identity.Links.Store.{save_link, append_event, is_current, is_current_for}
use open_residency.Identity.Links.Changes.{write_link, move, closed, continuing}
use open_residency.Identity.Links.Merging.{
  carry_over, merge_all, restore_all, find_superseded, evidence_of,
}
use open_residency.Identity.Links.Reads.{resolve_person}
use open_residency.Identity.Links.Invariant.{link_id, IsInjective, IsSound}
use open_residency.Identity.Links.Effects.{assigns, assigns_all, changed, among, Does}
use open_residency.Identity.Links.Reassigning.{move-Does}
use open_residency.Identity.Links.Pending.{identifiers, IsReady}

module _ (platform : Platform) (now : String) (inj : IsInjective platform.new_id) where
  -- One round moves one identifier.
  pub carry_over-Does :
      (s : Registry) (l : IdentityLink) (c : Closing) (from_ref person_ref : String)
      (evidence : List String) (merge_id event_merge_id : Option String)
      → IsSound platform s
      → IsReady s l
      → Does platform now s
          (carry_over platform now s l c from_ref person_ref evidence merge_id event_merge_id)
          (assigns l.identifier_ref person_ref)
  unfolding carry_over continuing closed
  carry_over-Does s l c from_ref person_ref evidence merge_id event_merge_id h (g, t) =
      let to = continuing platform s l person_ref evidence c.at c.by merge_id in
      move-Does platform now inj s l (closed l c (some to.id)) to _ h g
        (λ k q f x. h.unique.one l.identifier_ref k l.id q l f g x (current_own l t)) refl refl refl
        refl refl
    where
      current_own :
          (l : IdentityLink) → is_current l ≡ true → is_current_for l.identifier_ref l ≡ true
      current_own l t = unfold is_current_for in ground (arith, str_eq_refl l.identifier_ref)

  -- A round leaves every key but the two that it writes.
  pub carry_over-get :
      (s : Registry) (l : IdentityLink) (c : Closing) (from_ref person_ref : String)
      (evidence : List String) (merge_id event_merge_id : Option String) (k : String)
      → l.id ≢ k
      → platform.new_id s.drawn ≢ k
      → Dict.get
          (carry_over platform now s l c from_ref person_ref evidence merge_id event_merge_id).links
          k
        ≡ Dict.get s.links k
  unfolding carry_over move write_link save_link append_event closed continuing
  carry_over-get s l c from_ref person_ref evidence merge_id event_merge_id k n f =
      two_puts s.links _ _ k n f
    where
      two_puts :
          (m : Dict.Dict IdentityLink) (a b : IdentityLink) (k : String)
          → a.id ≢ k
          → b.id ≢ k
          → Dict.get (Dict.put (Dict.put m a.id a) b.id b) k ≡ Dict.get m k
      two_puts m a b k x y = ground (
        arith,
        get-put (Dict.put m a.id a) b.id k b,
        get-put m a.id k a,
        eq_iff a.id k,
        eq_iff b.id k,
      )

  -- A round leaves the other links that are ready.
  carry_over-IsReady :
      (s : Registry) (l q : IdentityLink) (c : Closing) (from_ref person_ref : String)
      (evidence : List String) (merge_id event_merge_id : Option String)
      → IsSound platform s
      → l.id ≢ q.id
      → IsReady s q
      → IsReady
          (carry_over platform now s l c from_ref person_ref evidence merge_id event_merge_id)
          q
  carry_over-IsReady s l q c from_ref person_ref evidence merge_id event_merge_id h n (g, t) = (
    carry_over-get s l c from_ref person_ref evidence merge_id event_merge_id q.id n fresh_apart
        ∙ g,
    t,
  )
    where
      none_some : none ≡ some q → ⊥
      none_some e = cc

      fresh_apart : platform.new_id s.drawn ≢ q.id
      fresh_apart e = none_some (sym (h.fresh s.drawn (omega arith)) ∙ ap (Dict.get s.links) e ∙ g)

  abbrev AllReady : Registry → List IdentityLink → Type 0
  AllReady s ls = All (IsReady s) ls

  pub carry_over-AllReady :
      (s : Registry) (l : IdentityLink) (qs : List IdentityLink) (c : Closing)
      (from_ref person_ref : String) (evidence : List String)
      (merge_id event_merge_id : Option String)
      → IsSound platform s
      → All (λ (q : IdentityLink). l.id ≢ q.id) qs
      → AllReady s qs
      → AllReady
          (carry_over platform now s l c from_ref person_ref evidence merge_id event_merge_id)
          qs
  carry_over-AllReady s l [] c from_ref person_ref evidence merge_id event_merge_id h n r = tt
  carry_over-AllReady s l (q ∷ qs) c from_ref person_ref evidence merge_id event_merge_id h n r = (
    carry_over-IsReady s l q c from_ref person_ref evidence merge_id event_merge_id h n.0 r.0,
    carry_over-AllReady s l qs c from_ref person_ref evidence merge_id event_merge_id h n.1 r.1,
  )

  -- One round, and then the others.
  then_others :
      (s s' s'' : Registry) (l : IdentityLink) (ls : List IdentityLink) (p : String)
      → Does platform now s s' (assigns l.identifier_ref p)
      → Does platform now s' s'' (assigns_all (identifiers ls) p)
      → Does platform now s s'' (assigns_all (identifiers (l ∷ ls)) p)
  then_others s s' s'' l ls p d d' = record {
    sound = d'.sound;
    owners = λ i. both i (d.owners i) (d'.owners i);
  }
    where
      both :
          (i : String)
          → resolve_person s' i ≡ changed (assigns l.identifier_ref p) (resolve_person s) i
          → resolve_person s'' i ≡ changed (assigns_all (identifiers ls) p) (resolve_person s') i
          → resolve_person s'' i
            ≡ changed (assigns_all (identifiers (l ∷ ls)) p) (resolve_person s) i
      both i e e' =
          ground
            (arith, Bool-cases (among (identifiers ls) i), Bool-cases (str_eq l.identifier_ref i))

  pub merge_all-Does :
      (s : Registry) (ls : List IdentityLink) (c : Closing)
      (duplicate_ref survivor_ref merge_id : String)
      → IsSound platform s
      → AllReady s ls
      → Apart link_id ls
      → Does platform now s
          (merge_all platform now s ls c duplicate_ref survivor_ref merge_id).1
          (assigns_all (identifiers ls) survivor_ref)
  unfolding merge_all
  merge_all-Does s [] c duplicate_ref survivor_ref merge_id h r a = record {
    sound = h;
    owners = λ i. refl;
  }
  merge_all-Does s (l ∷ ls) c duplicate_ref survivor_ref merge_id h r a =
      let evidence = ("merge:" & merge_id) ∷ l.evidence_refs in
      let s' =
        carry_over platform now s l c duplicate_ref survivor_ref evidence (some merge_id)
          (some merge_id) in
      let d =
        carry_over-Does s l c duplicate_ref survivor_ref evidence (some merge_id) (some merge_id) h
          r.0 in
      then_others s s' _ l ls survivor_ref d (
        merge_all-Does s' ls c duplicate_ref survivor_ref merge_id d.sound
          (carry_over-AllReady s l ls c duplicate_ref survivor_ref evidence (some merge_id)
            (some merge_id) h a.0 r.1)
          a.1)

  pub restore_all-Does :
      (s : Registry) (ls : List IdentityLink) (c : Closing)
      (survivor_ref duplicate_ref merge_id : String)
      → IsSound platform s
      → AllReady s ls
      → Apart link_id ls
      → Does platform now s
          (restore_all platform now s ls c survivor_ref duplicate_ref merge_id).1
          (assigns_all (identifiers ls) duplicate_ref)
  unfolding restore_all
  restore_all-Does s [] c survivor_ref duplicate_ref merge_id h r a = record {
    sound = h;
    owners = λ i. refl;
  }
  restore_all-Does s (l ∷ ls) c survivor_ref duplicate_ref merge_id h r a =
      let evidence = ("split:" & merge_id) ∷ evidence_of (find_superseded s l.supersedes) in
      let s' =
        carry_over platform now s l c survivor_ref duplicate_ref evidence none (some merge_id) in
      let d =
        carry_over-Does s l c survivor_ref duplicate_ref evidence none (some merge_id) h r.0 in
      then_others s s' _ l ls duplicate_ref d (
        restore_all-Does s' ls c survivor_ref duplicate_ref merge_id d.sound
          (carry_over-AllReady s l ls c survivor_ref duplicate_ref evidence none (some merge_id) h
            a.0 r.1)
          a.1)
