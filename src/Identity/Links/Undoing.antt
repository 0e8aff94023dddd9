-- ===== src/Identity/Links/Undoing.antt =====
-- Splitting what was merged gives every identifier back to its owner.
use open_residency.Base.{
  ℕ, ◌+◌, ◌≡◌, inl, inr, refl, sym, ap, ◌∙◌, subst, Bool, true, false, String, Option, none, some,
  List, [], ◌∷◌, if◌then◌else◌, arith, eq_iff, Bool-cases, any, All, truthy, trim, filter,
  str_eq_refl,
}
use open_residency.Base.Dict
use open_residency.Base.Dict.{get-put}
use open_residency.Base.Apart.{Apart}
use open_residency.Identity.Links.Types
use open_residency.Identity.Links.Types.{
  IdentityLink, Registry, Platform, Outcome, ok, refused, NewEvent, unlinked, disputed, same_status,
  Closing, MergeRecord, Moved, Split,
}
use open_residency.Identity.Links.Store.{find_merge, save_merge, is_current, list_by_person}
use open_residency.Identity.Links.Changes.{Decision, closing_of, drawing}
use open_residency.Identity.Links.Merging.{
  MergeRequest, decision_of, merge_all, merge_write, merge_found, merge, survivor_links,
  split_write, split_found, split,
}
use open_residency.Identity.Links.Reads.{resolve_person}
use open_residency.Identity.Links.Invariant.{link_id, IsInjective, IsSound}
use open_residency.Identity.Links.Effects.{assigns_all, transfers, changed, among, is_person, Does}
use open_residency.Identity.Links.Pending.{
  identifiers, IsReady, current_of_person-Apart, current_of_person-IsReady, owned_identifiers,
}
use open_residency.Identity.Links.Merges.{save_merge-Does, drawing-IsSound, merge_write-Answers}
use open_residency.Identity.Links.Rounds.{restore_all-Does}
use open_residency.Identity.Links.Splits.{Created, merge_all-Created}

abbrev pub is_ok : {A : Type 0} → Outcome A → Bool
is_ok (ok a) = true
is_ok (refused reason) = false

module _ (platform : Platform) (now later : String) (inj : IsInjective platform.new_id) where
  -- Splitting the merge that was answered, if one was.
  abbrev pub split_after :
      Decision → Outcome MergeRecord × Registry → Outcome MergeRecord × Registry
  split_after req (refused reason, s) = (refused reason, s)
  split_after req (ok m, s) = split platform later m.id req s

  -- The owners are those of the first registry, and the split is accepted if the merge was.
  pub record Undone (s : Registry) (req : Decision) (r : Outcome MergeRecord × Registry)
      : Type 0 where
    pub accepted : is_ok (split_after req r).0 ≡ is_ok r.0
    pub sound : IsSound platform (split_after req r).1
    pub owners : (i : String) → resolve_person (split_after req r).1 i ≡ resolve_person s i

  nothing-Undone :
      (s : Registry) (req : Decision) (reason : String)
      → IsSound platform s
      → Undone s req (refused reason, s)
  nothing-Undone s req reason h = record { accepted = refl; sound = h; owners = λ i. refl }

  -- Splitting a stored merge whose links are all in place.
  split_is :
      (t : Registry) (m : MergeRecord) (req : Decision) (ls : List IdentityLink)
      → truthy (trim req.by) ≡ true
      → truthy (trim req.reason) ≡ true
      → Dict.get t.merges m.id ≡ some m
      → m.split_record ≡ none
      → survivor_links t m.moved ≡ some ls
      → split platform later m.id req t ≡ split_write platform later t m req ls
  unfolding split split_found find_merge
  split_is t m req ls b r g n f = rw (b, r, g, n, f) refl

  pub split_write-Does :
      (t : Registry) (m : MergeRecord) (req : Decision) (ls : List IdentityLink)
      → IsSound platform t
      → All (IsReady t) ls
      → Apart link_id ls
      → Does platform later t
          (split_write platform later t m req ls).1
          (assigns_all (identifiers ls) m.duplicate_ref)
  unfolding split_write
  split_write-Does t m req ls h r a =
      save_merge-Does platform later inj t _ _ (assigns_all (identifiers ls) m.duplicate_ref)
        (restore_all-Does platform later inj t ls _ m.survivor_ref m.duplicate_ref m.id h r a)

  split_write-ok :
      (t : Registry) (m : MergeRecord) (req : Decision) (ls : List IdentityLink)
      → is_ok (split_write platform later t m req ls).0 ≡ true
  unfolding split_write
  split_write-ok t m req ls = refl

  -- Giving back what was transferred.
  back_again :
      (m : String → Option String) (is : List String) (from to : String) (i : String)
      → among is i ≡ is_person from (m i)
      → changed (assigns_all is from) (changed (transfers from to) m) i ≡ m i
  back_again m is from to i e = given (m i) (among is i) e
    where
      given :
          (o : Option String) (b : Bool)
          → b ≡ is_person from o
          → (if b then some from else if is_person from o then some to else o) ≡ o
      given none b e = ground arith
      given (some p) b e = ground (arith, eq_iff p from)

  abbrev Owned : Registry → String → List IdentityLink → Type 0
  Owned s p ls = (i : String) → among (identifiers ls) i ≡ is_person p (resolve_person s i)

  of-Undone :
      (s t : Registry) (m : MergeRecord) (again : Decision) (survivor_ref : String)
      (ls : List IdentityLink) (d : ℕ)
      → truthy (trim again.by) ≡ true
      → truthy (trim again.reason) ≡ true
      → Dict.get t.merges m.id ≡ some m
      → m.split_record ≡ none
      → Owned s m.duplicate_ref ls
      → Does platform now s t (transfers m.duplicate_ref survivor_ref)
      → Created platform now inj t m.moved ls d
      → Undone s again (ok m, t)
  of-Undone s t m again survivor_ref ls d b r g n o does c =
      let e = split_is t m again c.links b r g n c.found in
      let back = split_write-Does t m again c.links does.sound c.ready c.apart in
      record {
        accepted =
            ap (λ (x : Outcome MergeRecord × Registry). is_ok x.0) e
            ∙ split_write-ok t m again c.links;
        sound =
            subst (λ (x : Outcome MergeRecord × Registry). IsSound platform x.1) (sym e) back.sound;
        owners = λ i.
            ap (λ (x : Outcome MergeRecord × Registry). resolve_person x.1 i) e
            ∙ back.owners i
            ∙ ap
                (λ (is : List String).
                  if among is i then some m.duplicate_ref else resolve_person t i)
                c.same
            ∙ ap
                (λ (w : Option String).
                  if among (identifiers ls) i then some m.duplicate_ref else w)
                (does.owners i)
            ∙ back_again (resolve_person s) (identifiers ls) m.duplicate_ref survivor_ref i (o i);
      }

  merge_write-Undone :
      (s : Registry) (req : MergeRequest) (again : Decision) (ls : List IdentityLink)
      → truthy (trim again.by) ≡ true
      → truthy (trim again.reason) ≡ true
      → IsSound platform s
      → All (IsReady s) ls
      → Apart link_id ls
      → Owned s req.duplicate_ref ls
      → Undone s again (merge_write platform now s req ls)
  unfolding merge_write save_merge
  merge_write-Undone s req again ls b r h ready a o =
      let c = closing_of now (decision_of req) Types.merge in
      let all =
        merge_all platform now (drawing s) ls c req.duplicate_ref req.survivor_ref
          (platform.new_id s.drawn) in
      of-Undone s _ _ again req.survivor_ref ls (s.drawn + 1) b r (put_get all.1.merges _) refl o
        (merge_write-Answers platform now inj s req ls h ready a o).does
        (merge_all-Created platform now inj (drawing s) ls c req.duplicate_ref req.survivor_ref
          (platform.new_id s.drawn) _ (drawing-IsSound platform now inj s h) ready a (λ k. refl))
    where
      put_get :
          (d : Dict.Dict MergeRecord) (m : MergeRecord) → Dict.get (Dict.put d m.id m) m.id ≡ some m
      put_get d m = ground (arith, get-put d m.id m.id m, str_eq_refl m.id)

  merge_found-Undone :
      (s : Registry) (req : MergeRequest) (again : Decision) (ls : List IdentityLink)
      → truthy (trim again.by) ≡ true
      → truthy (trim again.reason) ≡ true
      → IsSound platform s
      → All (IsReady s) ls
      → Apart link_id ls
      → Owned s req.duplicate_ref ls
      → Undone s again (merge_found platform now s req ls)
  unfolding merge_found
  merge_found-Undone s req again [] b r h k a o = nothing-Undone s again _ h
  merge_found-Undone s req again (l ∷ ls) b r h k a o =
      elim (Bool-cases (any (λ (q : IdentityLink). same_status q.status disputed) (l ∷ ls))) [
        | inl t ↦ rw t (nothing-Undone s again _ h)
        | inr f ↦ rw f (merge_write-Undone s req again (l ∷ ls) b r h k a o)
      ]

  -- In a sound registry, for a split that names who decided and why: a merge that is split right
  -- after leaves every owner as it was before the merge, and the split is accepted if the merge
  -- was; the registry stays sound. Identifiers drawn are taken to be all different.
  pub split-merge :
      (s : Registry) (req : MergeRequest) (again : Decision)
      → IsSound platform s
      → truthy (trim again.by) ≡ true
      → truthy (trim again.reason) ≡ true
      → Undone s again (merge platform now req s)
  unfolding merge
  split-merge s req again h b r =
      let no : (reason : String) → Undone s again (refused reason, s) =
        λ reason. nothing-Undone s again reason h in
      ground (
        arith,
        no "DECIDING_ACTOR_REQUIRED",
        no "REASON_REQUIRED",
        no "CANNOT_MERGE_PERSON_WITH_SELF",
        merge_found-Undone s req again (filter is_current (list_by_person s req.duplicate_ref)) b r
            h (current_of_person-IsReady platform s req.duplicate_ref h)
            (current_of_person-Apart platform s req.duplicate_ref h)
            (owned_identifiers platform s req.duplicate_ref h),
      )
