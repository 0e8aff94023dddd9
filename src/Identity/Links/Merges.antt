-- ===== src/Identity/Links/Merges.antt =====
-- What merge does to the owners.
use open_residency.Base.{
  ◌≡◌, inl, inr, ap, ◌∙◌, Bool, String, some, List, [], ◌∷◌, if◌then◌else◌, arith, Bool-cases, any,
  All, filter,
}
use open_residency.Base.Apart.{Apart}
use open_residency.Identity.Links.Types.{
  IdentityLink, Registry, Platform, Outcome, ok, refused, disputed, same_status, MergeRecord,
}
use open_residency.Identity.Links.Store.{
  save_merge, is_current, list_by_person, find_current_by_identifier,
}
use open_residency.Identity.Links.Changes.{drawing}
use open_residency.Identity.Links.Merging.{MergeRequest, merge_write, merge_found, merge}
use open_residency.Identity.Links.Reads.{resolve_person}
use open_residency.Identity.Links.Invariant.{link_id, IsInjective, IsSound}
use open_residency.Identity.Links.Effects.{
  Change, keeps, assigns_all, transfers, among, is_person, Does, Answers, nothing-Does,
}
use open_residency.Identity.Links.Pending.{
  identifiers, IsReady, current_of_person-Apart, current_of_person-IsReady, owned_identifiers,
}
use open_residency.Identity.Links.Rounds.{merge_all-Does}

module _ (platform : Platform) (now : String) (inj : IsInjective platform.new_id) where
  pub drawing-IsSound : (s : Registry) → IsSound platform s → IsSound platform (drawing s)
  drawing-IsSound s h = record { unique = h.unique; fresh = λ j m. h.fresh j (omega (arith, m)) }

  pub save_merge-Does :
      (s t : Registry) (m : MergeRecord) (c : Change)
      → Does platform now s t c
      → Does platform now s (save_merge t m) c
  unfolding save_merge
  save_merge-Does s t m c d = record {
    sound = record { unique = d.sound.unique; fresh = d.sound.fresh };
    owners = λ i. unfold resolve_person find_current_by_identifier in d.owners i;
  }

  -- The change that an answer stands for.
  abbrev pub merge_change : MergeRequest → Outcome MergeRecord → Change
  merge_change req (ok m) = transfers req.duplicate_ref req.survivor_ref
  merge_change req (refused reason) = keeps

  abbrev MergeAnswers : Registry → MergeRequest → Outcome MergeRecord × Registry → Type 0
  MergeAnswers s req r = Answers platform now (merge_change req) s r

  abbrev Owned : Registry → String → List IdentityLink → Type 0
  Owned s p ls = (i : String) → among (identifiers ls) i ≡ is_person p (resolve_person s i)

  as_transfer :
      (s t : Registry) (ls : List IdentityLink) (from to : String)
      → Owned s from ls
      → Does platform now s t (assigns_all (identifiers ls) to)
      → Does platform now s t (transfers from to)
  as_transfer s t ls from to o d = record {
    sound = d.sound;
    owners = λ i. d.owners i ∙ ap (λ (b : Bool). if b then some to else resolve_person s i) (o i);
  }

  pub merge_write-Answers :
      (s : Registry) (req : MergeRequest) (ls : List IdentityLink)
      → IsSound platform s
      → All (IsReady s) ls
      → Apart link_id ls
      → Owned s req.duplicate_ref ls
      → MergeAnswers s req (merge_write platform now s req ls)
  unfolding merge_write
  merge_write-Answers s req ls h r a o = record {
    does = save_merge-Does s _ _ (transfers req.duplicate_ref req.survivor_ref) (
        as_transfer s _ ls req.duplicate_ref req.survivor_ref o (
          from_drawing (
            merge_all-Does platform now inj (drawing s) ls _ req.duplicate_ref req.survivor_ref
              (platform.new_id s.drawn) (drawing-IsSound s h) r a)));
  }
    where
      from_drawing :
          {t : Registry}
          → Does platform now (drawing s) t (assigns_all (identifiers ls) req.survivor_ref)
          → Does platform now s t (assigns_all (identifiers ls) req.survivor_ref)
      from_drawing d = record {
        sound = d.sound;
        owners = λ i. unfold resolve_person find_current_by_identifier in d.owners i;
      }

  merge_found-Answers :
      (s : Registry) (req : MergeRequest) (ls : List IdentityLink)
      → IsSound platform s
      → All (IsReady s) ls
      → Apart link_id ls
      → Owned s req.duplicate_ref ls
      → MergeAnswers s req (merge_found platform now s req ls)
  unfolding merge_found
  merge_found-Answers s req [] h r a o = record { does = nothing-Does platform now s h }
  merge_found-Answers s req (l ∷ ls) h r a o =
      elim (Bool-cases (any (λ (q : IdentityLink). same_status q.status disputed) (l ∷ ls))) [
        | inl t ↦ rw t (record { does = nothing-Does platform now s h })
        | inr f ↦ rw f (merge_write-Answers s req (l ∷ ls) h r a o)
      ]

  -- A request to merge in a sound registry, accepted or refused: the registry stays sound, and if
  -- it is accepted, the survivor owns every identifier that the duplicate owned, and no other
  -- owner changes; if it is refused, no owner changes. Identifiers drawn are taken to be all
  -- different.
  pub merge-Answers :
      (s : Registry) (req : MergeRequest)
      → IsSound platform s
      → MergeAnswers s req (merge platform now req s)
  unfolding merge
  merge-Answers s req h =
      let no : (reason : String) → MergeAnswers s req (refused reason, s) =
        λ reason. record { does = nothing-Does platform now s h } in
      ground (
        arith,
        no "DECIDING_ACTOR_REQUIRED",
        no "REASON_REQUIRED",
        no "CANNOT_MERGE_PERSON_WITH_SELF",
        merge_found-Answers s req (filter is_current (list_by_person s req.duplicate_ref)) h
            (current_of_person-IsReady platform s req.duplicate_ref h)
            (current_of_person-Apart platform s req.duplicate_ref h)
            (owned_identifiers platform s req.duplicate_ref h),
      )
