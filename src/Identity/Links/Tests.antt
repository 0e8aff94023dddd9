-- ===== src/Identity/Links/Tests.antt =====
-- Runs of the registry of identity links on concrete requests.
use open_residency.Base.{
  ℕ, zero, suc, arith, ◌≡◌, refl, ap, true, String, Option, none, some, [], ◌∷◌, trim, trim_start,
  trim_end, is_space,
}
use open_residency.Base.Dict
use open_residency.Identity.Links.Types.{IdentityLink, active, Registry, Platform}
use open_residency.Identity.Links.Store.{
  is_current_for, save_link, append_event, find_current_by_identifier,
}
use open_residency.Identity.Links.Changes.{Decision, write_link}
use open_residency.Identity.Links.Single.{LinkRequest, link, link_over, new_link, unlink}
use open_residency.Identity.Links.Relinking.{RelinkRequest, relink}
use open_residency.Identity.Links.Merging.{MergeRequest, merge}
use open_residency.Identity.Links.Reads.{resolve_person}
use open_residency.Identity.Links.Invariant.{IsInjective}
use open_residency.Identity.Links.Effects.{Answers}
use open_residency.Identity.Links.Assigning.{
  link_change, unlink_change, IsUnlinkOf, link-Answers, unlink-Answers,
}
use open_residency.Identity.Links.Reassigning.{relink_change, IsRelinkOf, relink-Answers}
use open_residency.Identity.Links.Merges.{merge_change, merge-Answers}
use open_residency.Identity.Links.Kept.{IsKept}
use open_residency.Identity.Links.Undoing.{Undone, split-merge}
use open_residency.Identity.Links.Runs.{
  link_call, step, run, no_links, run-IsKept, no_links-IsKept, one_current_link,
}

-- Identifiers of one character more each.
abbrev unary : ℕ → String
unary zero = "i"
unary (suc n) = String.◌∷◌ "i" (unary n)

abbrev size : String → ℕ
size String.[] = 0
size (String.◌∷◌ c s) = suc (size s)

size-unary : (n : ℕ) → size (unary n) ≡ suc n
size-unary zero = refl
size-unary (suc n) = ap suc (size-unary n)

abbrev toy : Platform
toy = record { new_id = unary; lower = λ s. s }

unary-IsInjective : IsInjective unary
unary-IsInjective i j e = omega (arith, ap size e, size-unary i, size-unary j)

abbrev of_national_id : LinkRequest
of_national_id = record {
  person_ref = "p1";
  identifier_type = "NIN";
  identifier_ref = "nin-1";
  evidence_refs = "doc" ∷ [];
  by = "clerk";
  foundational = true;
  reason = none;
  at = none;
}

abbrev one_linked : Registry
one_linked = run toy (link_call "2025-01-01" of_national_id ∷ []) no_links

one_linked-IsKept : IsKept toy one_linked
one_linked-IsKept =
    run-IsKept toy unary-IsInjective (link_call "2025-01-01" of_national_id ∷ []) no_links
      (no_links-IsKept toy unary-IsInjective)

abbrev to_another : RelinkRequest
to_another = record {
  to_person_ref = "p2";
  by = "clerk";
  reason = "wrong person";
  evidence_refs = "doc" ∷ [];
  at = none;
}

abbrev decided : Decision
decided = record { by = "clerk"; reason = "reviewed"; at = none }

abbrev same_human : MergeRequest
same_human = record {
  survivor_ref = "p2";
  duplicate_ref = "p1";
  by = "clerk";
  reason = "same human";
  at = none;
}

abbrev merged_owner : Option String
merged_owner = resolve_person (merge toy "2025-01-02" same_human one_linked).1 "nin-1"

link_again_example :
    Answers toy "2025-01-02"
      (link_change of_national_id)
      one_linked
      (link toy "2025-01-02" of_national_id one_linked)
link_again_example =
    link-Answers toy "2025-01-02" unary-IsInjective one_linked of_national_id
      one_linked-IsKept.sound

unlink_example :
    Answers toy "2025-01-02" unlink_change one_linked
      (unlink toy "2025-01-02" "i" decided one_linked)
    × IsUnlinkOf one_linked "i" (unlink toy "2025-01-02" "i" decided one_linked).0
unlink_example =
    unlink-Answers toy "2025-01-02" unary-IsInjective one_linked "i" decided one_linked-IsKept.sound

relink_example :
    Answers toy "2025-01-02"
      (relink_change to_another)
      one_linked
      (relink toy "2025-01-02" "i" to_another one_linked)
    × IsRelinkOf one_linked "i" to_another (relink toy "2025-01-02" "i" to_another one_linked).0
relink_example =
    relink-Answers toy "2025-01-02" unary-IsInjective one_linked "i" to_another
      one_linked-IsKept.sound

merge_example :
    Answers toy "2025-01-02"
      (merge_change toy "2025-01-02" unary-IsInjective same_human)
      one_linked
      (merge toy "2025-01-02" same_human one_linked)
merge_example =
    merge-Answers toy "2025-01-02" unary-IsInjective one_linked same_human one_linked-IsKept.sound

split-merge_example :
    Undone toy "2025-01-02" "2025-01-03" unary-IsInjective one_linked decided
      (merge toy "2025-01-02" same_human one_linked)
unfolding trim trim_start trim_end is_space
split-merge_example =
    split-merge toy "2025-01-02" "2025-01-03" unary-IsInjective one_linked same_human decided
      one_linked-IsKept.sound refl refl

abbrev first_link : IdentityLink
first_link = record {
  id = "i";
  person_ref = "p1";
  identifier_type = "NIN";
  identifier_ref = "nin-1";
  status = active;
  foundational = true;
  evidence_refs = "doc" ∷ [];
  linked_at = "2025-01-01";
  linked_by = "clerk";
  dispute_record = none;
  unlinked_record = none;
  supersedes = none;
  superseded_by = none;
  merge_id = none;
}

-- The link is stored under the first identifier drawn.
one_linked_links : one_linked.links ≡ (("i", first_link) ∷ [])
unfolding run step link link_over new_link find_current_by_identifier write_link save_link
    append_event trim trim_start trim_end is_space Dict.put
one_linked_links = refl

first_found : Dict.get one_linked.links "i" ≡ some first_link
unfolding Dict.get
first_found = ap (λ (d : Dict.Dict IdentityLink). Dict.get d "i") one_linked_links

first_is_current : is_current_for "nin-1" first_link ≡ true
unfolding is_current_for
first_is_current = refl

one_current_link_example : ◌≡◌ {A = String} "i" "i"
one_current_link_example =
    one_current_link toy unary-IsInjective (link_call "2025-01-01" of_national_id ∷ []) "nin-1" "i"
      "i" first_link first_link first_found first_found first_is_current first_is_current
