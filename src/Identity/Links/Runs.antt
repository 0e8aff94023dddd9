-- ===== src/Identity/Links/Runs.antt =====
-- Sequences of calls on the registry.
use open_residency.Base.{
  ◌≡◌, inl, inr, refl, subst, true, String, Option, none, some, List, [], ◌∷◌, map, arith,
  Bool-cases, any, All, filter,
}
use open_residency.Base.Dict
use open_residency.Base.Dict.{get-put}
use open_residency.Base.Apart.{AllApart, of_keys_Apart, Apart}
use open_residency.Identity.Links.Types
use open_residency.Identity.Links.Types.{
  IdentityLink, Registry, Platform, Outcome, ok, refused, NewEvent, unlinked, disputed, same_status,
  Closing, MergeRecord, Moved, Split,
}
use open_residency.Identity.Links.Store.{find_merge, is_current, is_current_for, list_by_person}
use open_residency.Identity.Links.Changes.{Decision, closing_of}
use open_residency.Identity.Links.Merging.{
  MergeRequest, merge_found, merge, survivor_links, restore_all, split_write, split_links,
  split_found, split,
}
use open_residency.Identity.Links.Single.{LinkRequest, link, dispute, resolve_dispute, unlink}
use open_residency.Identity.Links.Relinking.{RelinkRequest, relink}
use open_residency.Identity.Links.Invariant.{link_id, IsInjective, IsSound}
use open_residency.Identity.Links.Pending.{
  IsReady, current_of_person-Apart, current_of_person-IsReady,
}
use open_residency.Identity.Links.Kept.{
  moved_to, survivor_keys, MergesApart, stored_merge, IsKept, with_merges, merge_write-MergesApart,
  link_merges, dispute_merges, resolve_dispute_merges, unlink_merges, relink_merges,
  restore_all-merges,
}
use open_residency.Identity.Links.Undoing.{split_write-Does}
use open_residency.Identity.Links.Assigning.{link-Answers, unlink-Answers}
use open_residency.Identity.Links.Reassigning.{relink-Answers}
use open_residency.Identity.Links.Merges.{merge-Answers}
use open_residency.Identity.Links.Effects.{dispute-Does, resolve_dispute-Does}

-- The store as it is made.
abbrev pub no_links : Registry
no_links = record { links = []; events = []; merges = []; drawn = 0 }

-- A call of an operation, with the moment it is made.
pub data Call : Type 0 where
  link_call : String → LinkRequest → Call
  dispute_call : String → String → Decision → Call
  resolve_dispute_call : String → String → Decision → Call
  unlink_call : String → String → Decision → Call
  relink_call : String → String → RelinkRequest → Call
  merge_call : String → MergeRequest → Call
  split_call : String → String → Decision → Call

module _ (platform : Platform) where
  -- The registry after a call, whatever is answered.
  unfoldable pub step : Call → Registry → Registry
  step (link_call now req) s = (link platform now req s).1
  step (dispute_call now id req) s = (dispute platform now id req s).1
  step (resolve_dispute_call now id req) s = (resolve_dispute platform now id req s).1
  step (unlink_call now id req) s = (unlink platform now id req s).1
  step (relink_call now id req) s = (relink platform now id req s).1
  step (merge_call now req) s = (merge platform now req s).1
  step (split_call now id req) s = (split platform now id req s).1

  unfoldable pub run : List Call → Registry → Registry
  run [] s = s
  run (c ∷ cs) s = run cs (step c s)

module _ (platform : Platform) (now : String) (inj : IsInjective platform.new_id) where
  merge_found-MergesApart :
      (s : Registry) (req : MergeRequest) (ls : List IdentityLink)
      → IsKept platform s
      → All (IsReady s) ls
      → Apart link_id ls
      → MergesApart (merge_found platform now s req ls).1
  unfolding merge_found
  merge_found-MergesApart s req [] h r a = h.apart
  merge_found-MergesApart s req (l ∷ ls) h r a =
      elim (Bool-cases (any (λ (q : IdentityLink). same_status q.status disputed) (l ∷ ls))) [
        | inl t ↦ rw t h.apart
        | inr f ↦ rw f (merge_write-MergesApart platform now inj s req (l ∷ ls) h r a)
      ]

  merge-MergesApart :
      (s : Registry) (req : MergeRequest)
      → IsKept platform s
      → MergesApart (merge platform now req s).1
  unfolding merge
  merge-MergesApart s req h = ground (
    arith,
    h.apart,
    merge_found-MergesApart s req (filter is_current (list_by_person s req.duplicate_ref)) h
        (current_of_person-IsReady platform s req.duplicate_ref h.sound)
        (current_of_person-Apart platform s req.duplicate_ref h.sound),
  )

  split_write-IsKept :
      (s : Registry) (m : MergeRecord) (req : Decision) (ls : List IdentityLink)
      → IsKept platform s
      → AllApart (map moved_to m.moved)
      → survivor_links s m.moved ≡ some ls
      → IsKept platform (split_write platform now s m req ls).1
  unfolding split_write
  split_write-IsKept s m req ls h a e =
      let found = survivor_keys s m.moved ls h.sound.unique.own e in
      let does =
        split_write-Does platform now now inj s m req ls h.sound found.ready
          (of_keys_Apart link_id ls (subst AllApart found.keys a)) in
      let t : Registry =
        (restore_all platform now s ls (closing_of now req Types.split) m.survivor_ref
          m.duplicate_ref m.id).1 in
      let same =
        restore_all-merges platform now inj s ls (closing_of now req Types.split) m.survivor_ref
          m.duplicate_ref m.id in
      record { sound = does.sound; apart = stored_merge t _ (with_merges s t h.apart same) a }

  split_links-IsKept :
      (s : Registry) (m : MergeRecord) (req : Decision) (o : Option (List IdentityLink))
      → IsKept platform s
      → AllApart (map moved_to m.moved)
      → survivor_links s m.moved ≡ o
      → IsKept platform (split_links platform now s m req o).1
  split_links-IsKept s m req none h a e = h
  split_links-IsKept s m req (some ls) h a e = split_write-IsKept s m req ls h a e

  split_found-IsKept :
      (s : Registry) (k : String) (req : Decision) (o : Option MergeRecord)
      → IsKept platform s
      → Dict.get s.merges k ≡ o
      → IsKept platform (split_found platform now s req o).1
  unfolding split_found
  split_found-IsKept s k req none h g = h
  split_found-IsKept s k req (some m) h g =
      ground
        (arith, h, split_links-IsKept s m req (survivor_links s m.moved) h (h.apart k m g) refl)

  split-IsKept :
      (s : Registry) (k : String) (req : Decision)
      → IsKept platform s
      → IsKept platform (split platform now k req s).1
  unfolding split find_merge
  split-IsKept s k req h =
      ground (arith, h, split_found-IsKept s k req (Dict.get s.merges k) h refl)

module _ (platform : Platform) (inj : IsInjective platform.new_id) where
  kept :
      (s t : Registry)
      → IsKept platform s
      → IsSound platform t
      → t.merges ≡ s.merges
      → IsKept platform t
  kept s t h d e = record { sound = d; apart = with_merges s t h.apart e }

  step-IsKept : (c : Call) (s : Registry) → IsKept platform s → IsKept platform (step platform c s)
  unfolding step
  step-IsKept (link_call now req) s h =
      kept s _ h (link-Answers platform now inj s req h.sound).does.sound
        (link_merges platform now inj s req)
  step-IsKept (dispute_call now id req) s h =
      kept s _ h (dispute-Does platform now s id req h.sound).sound
        (dispute_merges platform now inj s id req)
  step-IsKept (resolve_dispute_call now id req) s h =
      kept s _ h (resolve_dispute-Does platform now s id req h.sound).sound
        (resolve_dispute_merges platform now inj s id req)
  step-IsKept (unlink_call now id req) s h =
      kept s _ h (unlink-Answers platform now inj s id req h.sound).0.does.sound
        (unlink_merges platform now inj s id req)
  step-IsKept (relink_call now id req) s h =
      kept s _ h (relink-Answers platform now inj s id req h.sound).0.does.sound
        (relink_merges platform now inj s id req)
  step-IsKept (merge_call now req) s h = record {
    sound = (merge-Answers platform now inj s req h.sound).does.sound;
    apart = merge-MergesApart platform now inj s req h;
  }
  step-IsKept (split_call now id req) s h = split-IsKept platform now inj s id req h

  pub run-IsKept :
      (cs : List Call) (s : Registry) → IsKept platform s → IsKept platform (run platform cs s)
  unfolding run
  run-IsKept [] s h = h
  run-IsKept (c ∷ cs) s h = run-IsKept cs (step platform c s) (step-IsKept c s h)

  pub no_links-IsKept : IsKept platform no_links
  unfolding Dict.get
  no_links-IsKept = record {
    sound = record {
      unique = record {
        distinct = tt;
        own = λ k v g. absurd (nothing k v g);
        one = λ c j k v w g. absurd (nothing j v g);
      };
      fresh = λ j m. refl;
    };
    apart = λ k m g. absurd (no_merge k m g);
  }
    where
      nothing : (k : String) (l : IdentityLink) → Dict.get no_links.links k ≡ some l → ⊥
      nothing k l g = cc

      no_merge : (k : String) (m : MergeRecord) → Dict.get no_links.merges k ≡ some m → ⊥
      no_merge k m g = cc

  -- After any sequence of calls on an empty registry, whatever the answers were, two current links
  -- of one identifier are the same link. Identifiers drawn are taken to be all different.
  pub one_current_link :
      (cs : List Call) (identifier j k : String) (l q : IdentityLink)
      → Dict.get (run platform cs no_links).links j ≡ some l
      → Dict.get (run platform cs no_links).links k ≡ some q
      → is_current_for identifier l ≡ true
      → is_current_for identifier q ≡ true
      → j ≡ k
  one_current_link cs identifier j k l q g g' t t' =
      (run-IsKept cs no_links no_links-IsKept).sound.unique.one identifier j k l q g g' t t'
