-- ===== src/Identity/Links/Kept.antt =====
-- The links of a stored merge are different ones, and a registry that starts empty stays sound.
use open_residency.Base.{
  ◌≡◌, inl, inr, refl, sym, ap, ◌∙◌, subst, true, false, String, Option, none, some, List, [], ◌∷◌,
  map, arith, str_eq, Bool-cases, Option-cases, All, ◌&◌,
}
use open_residency.Base.Dict
use open_residency.Base.Dict.{get-put}
use open_residency.Base.Apart.{AllApart, keys_Apart, Apart}
use open_residency.Identity.Links.Types
use open_residency.Identity.Links.Types.{
  IdentityLink, Registry, Platform, Outcome, ok, refused, NewEvent, unlinked, disputed, same_status,
  Closing, MergeRecord, Moved, Split,
}
use open_residency.Identity.Links.Store.{save_link, find_link, save_merge, append_event, is_current}
use open_residency.Identity.Links.Changes.{Decision, write_link, move, rewrite, closing_of, drawing}
use open_residency.Identity.Links.Merging.{
  MergeRequest, decision_of, carry_over, merge_all, merge_write, survivor_links, cons_both,
  current_or_none, restore_all, find_superseded, evidence_of,
}
use open_residency.Identity.Links.Single.{
  LinkRequest, link_over, link, dispute_found, dispute, resolve_found, resolve_dispute,
  unlink_found, unlink,
}
use open_residency.Identity.Links.Relinking.{RelinkRequest, relink_write, relink_found, relink}
use open_residency.Identity.Links.Invariant.{link_id, IsInjective, IsSound}
use open_residency.Identity.Links.Pending.{IsReady}
use open_residency.Identity.Links.Merges.{drawing-IsSound}
use open_residency.Identity.Links.Rounds.{merge_all-Does}
use open_residency.Identity.Links.Splits.{merge_all-Created}

abbrev pub moved_to : Moved → String
moved_to m = m.to

-- The links that a merge created are those that it names, and all of them are in place.
pub record Survivors (s : Registry) (ms : List Moved) (ls : List IdentityLink) : Type 0 where
  pub keys : map moved_to ms ≡ map link_id ls
  pub ready : All (IsReady s) ls

pub survivor_keys :
    (s : Registry) (ms : List Moved) (ls : List IdentityLink)
    → ((k : String) (l : IdentityLink) → Dict.get s.links k ≡ some l → l.id ≡ k)
    → survivor_links s ms ≡ some ls
    → Survivors s ms ls
unfolding survivor_links find_link
survivor_keys s [] [] own e = record { keys = refl; ready = tt }
survivor_keys s [] (l ∷ ls) own e = cc
survivor_keys s (m ∷ ms) ls own e =
    next (λ qs f. survivor_keys s ms qs own f) ls (Dict.get s.links m.to) (survivor_links s ms) refl
      refl e
  where
    both :
        ((qs : List IdentityLink) → survivor_links s ms ≡ some qs → Survivors s ms qs)
        → (l : IdentityLink) (ls qs : List IdentityLink) → Dict.get s.links m.to ≡ some l
        → survivor_links s ms ≡ some qs
        → is_current l ≡ true
        → (l ∷ qs) ≡ ls
        → Survivors s (m ∷ ms) ls
    both after l ls qs g f t e =
        let rest = after qs f in
        let same = own m.to l g in
        subst (Survivors s (m ∷ ms)) e (record {
          keys = ground (arith, rest.keys, same);
          ready = ((ap (Dict.get s.links) same ∙ g, t), rest.ready);
        })

    next :
        ((qs : List IdentityLink) → survivor_links s ms ≡ some qs → Survivors s ms qs)
        → (ls : List IdentityLink) (o : Option IdentityLink) (os : Option (List IdentityLink))
        → Dict.get s.links m.to ≡ o
        → survivor_links s ms ≡ os
        → cons_both (current_or_none o) os ≡ some ls
        → Survivors s (m ∷ ms) ls
    next after ls none os g f e = cc
    next after ls (some l) none g f e = ground (arith, Bool-cases (same_status l.status unlinked))
    next after ls (some l) (some qs) g f e = both after l ls qs g f (ground arith) (ground arith)

-- The links of each stored merge are different ones.
abbrev pub MergesApart : Registry → Type 0
MergesApart s =
    (k : String) (m : MergeRecord) → Dict.get s.merges k ≡ some m → AllApart (map moved_to m.moved)

pub stored_merge :
    (s : Registry) (m : MergeRecord)
    → MergesApart s
    → AllApart (map moved_to m.moved)
    → MergesApart (save_merge s m)
unfolding save_merge
stored_merge s m h a = λ k n g. elim (Bool-cases (str_eq m.id k)) [
  | inl e ↦ subst (λ (x : MergeRecord). AllApart (map moved_to x.moved)) (found k n e g) a
  | inr e ↦ h k n (other k n e g)
]
  where
    found :
        (k : String) (n : MergeRecord)
        → str_eq m.id k ≡ true
        → Dict.get (Dict.put s.merges m.id m) k ≡ some n
        → m ≡ n
    found k n e g = ground (arith, get-put s.merges m.id k m)

    other :
        (k : String) (n : MergeRecord)
        → str_eq m.id k ≡ false
        → Dict.get (Dict.put s.merges m.id m) k ≡ some n
        → Dict.get s.merges k ≡ some n
    other k n e g = ground (arith, get-put s.merges m.id k m)

abbrev KeepsMerges : {A : Type 0} → Registry → A × Registry → Type 0
KeepsMerges s r = r.1.merges ≡ s.merges

pub with_merges : (s t : Registry) → MergesApart s → t.merges ≡ s.merges → MergesApart t
with_merges s t h e = λ k m g. h k m (sym (ap (λ (d : Dict.Dict MergeRecord). Dict.get d k) e) ∙ g)

module _ (platform : Platform) where
  -- The registry is sound, and the links of each merge are different ones.
  pub record IsKept (s : Registry) : Type 0 where
    pub sound : IsSound platform s
    pub apart : MergesApart s

module _ (platform : Platform) (now : String) (inj : IsInjective platform.new_id) where
  pub link_merges : (s : Registry) (req : LinkRequest) → KeepsMerges s (link platform now req s)
  unfolding link link_over write_link save_link append_event
  link_merges s req = ground arith

  pub dispute_merges :
      (s : Registry) (k : String) (req : Decision) → KeepsMerges s (dispute platform now k req s)
  unfolding dispute dispute_found rewrite save_link append_event
  dispute_merges s k req = ground (arith, Option-cases (find_link s k))

  pub resolve_dispute_merges :
      (s : Registry) (k : String) (req : Decision)
      → KeepsMerges s (resolve_dispute platform now k req s)
  unfolding resolve_dispute resolve_found rewrite save_link append_event
  resolve_dispute_merges s k req = ground (arith, Option-cases (find_link s k))

  pub unlink_merges :
      (s : Registry) (k : String) (req : Decision) → KeepsMerges s (unlink platform now k req s)
  unfolding unlink unlink_found rewrite save_link append_event
  unlink_merges s k req = ground (arith, Option-cases (find_link s k))

  pub relink_merges :
      (s : Registry) (k : String) (req : RelinkRequest)
      → KeepsMerges s (relink platform now k req s)
  unfolding relink relink_found relink_write move write_link save_link append_event
  relink_merges s k req = ground (arith, Option-cases (find_link s k))

  carry_over-merges :
      (s : Registry) (l : IdentityLink) (c : Closing) (from_ref person_ref : String)
      (evidence : List String) (merge_id event_merge_id : Option String)
      → (carry_over platform now s l c from_ref person_ref evidence merge_id event_merge_id).merges
        ≡ s.merges
  unfolding carry_over move write_link save_link append_event
  carry_over-merges s l c from_ref person_ref evidence merge_id event_merge_id = refl

  merge_all-merges :
      (s : Registry) (ls : List IdentityLink) (c : Closing)
      (duplicate_ref survivor_ref merge_id : String)
      → (merge_all platform now s ls c duplicate_ref survivor_ref merge_id).1.merges ≡ s.merges
  unfolding merge_all
  merge_all-merges s [] c duplicate_ref survivor_ref merge_id = refl
  merge_all-merges s (l ∷ ls) c duplicate_ref survivor_ref merge_id =
      merge_all-merges
        (carry_over platform now s l c duplicate_ref survivor_ref
          (("merge:" & merge_id) ∷ l.evidence_refs) (some merge_id) (some merge_id))
        ls c duplicate_ref survivor_ref merge_id
      ∙ carry_over-merges s l c duplicate_ref survivor_ref _ (some merge_id) (some merge_id)

  pub restore_all-merges :
      (s : Registry) (ls : List IdentityLink) (c : Closing)
      (survivor_ref duplicate_ref merge_id : String)
      → (restore_all platform now s ls c survivor_ref duplicate_ref merge_id).1.merges ≡ s.merges
  unfolding restore_all
  restore_all-merges s [] c survivor_ref duplicate_ref merge_id = refl
  restore_all-merges s (l ∷ ls) c survivor_ref duplicate_ref merge_id =
      restore_all-merges
        (carry_over platform now s l c survivor_ref duplicate_ref
          (("split:" & merge_id) ∷ evidence_of (find_superseded s l.supersedes)) none
          (some merge_id))
        ls c survivor_ref duplicate_ref merge_id
      ∙ carry_over-merges s l c survivor_ref duplicate_ref _ none (some merge_id)

  pub merge_write-MergesApart :
      (s : Registry) (req : MergeRequest) (ls : List IdentityLink)
      → IsKept platform s
      → All (IsReady s) ls
      → Apart link_id ls
      → MergesApart (merge_write platform now s req ls).1
  unfolding merge_write
  merge_write-MergesApart s req ls h r a =
      let c = closing_of now (decision_of req) Types.merge in
      let all =
        merge_all platform now (drawing s) ls c req.duplicate_ref req.survivor_ref
          (platform.new_id s.drawn) in
      let made =
        merge_all-Created platform now inj (drawing s) ls c req.duplicate_ref req.survivor_ref
          (platform.new_id s.drawn) all.1 (drawing-IsSound platform now inj s h.sound) r a
          (λ k. refl) in
      let does =
        merge_all-Does platform now inj (drawing s) ls c req.duplicate_ref req.survivor_ref
          (platform.new_id s.drawn) (drawing-IsSound platform now inj s h.sound) r a in
      stored_merge all.1 _
        (with_merges s all.1 h.apart (
          merge_all-merges (drawing s) ls c req.duplicate_ref req.survivor_ref
            (platform.new_id s.drawn)))
        (subst AllApart
          (sym (survivor_keys all.1 all.0 made.links does.sound.unique.own made.found).keys)
          (keys_Apart link_id made.links made.apart))
