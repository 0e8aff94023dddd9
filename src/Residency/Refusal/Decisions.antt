-- ===== src/Residency/Refusal/Decisions.antt =====
-- A refusal keeps its decision, whatever reviews and other refusals follow.
use open_residency.Base.{
  ◌≡◌, ◌≢◌, inl, inr, refl, sym, ap, ◌∙◌, arith, String, Option, none, some, List, [], ◌∷◌,
  if◌then◌else◌, str_eq, eq_iff, Bool-cases, All,
}
use open_residency.Base.Dict
use open_residency.Base.Dict.{get-put}
use open_residency.Residency.Refusal.{
  RefusalDecision, RefusalRecord, Review, RefusalStore, save, find_by_reference, reviewed,
  review_found, record_review,
}

-- A call on the store.
pub data Call : Type 0 where
  save_call : RefusalRecord → Call
  review_call : String → Review → Call

unfoldable pub step : Call → RefusalStore → RefusalStore
step (save_call r) s = (save s r).1
step (review_call reference review) s = (record_review s reference review).1

unfoldable pub run : List Call → RefusalStore → RefusalStore
run [] s = s
run (c ∷ cs) s = run cs (step c s)

-- What was decided in a case that is there.
abbrev pub decision_of : Option RefusalRecord → Option RefusalDecision
decision_of none = none
decision_of (some r) = some r.decision

-- A call that does not save a refusal under the reference again.
abbrev pub IsApart : String → Call → Type 0
IsApart reference (save_call r) = r.reference ≢ reference
IsApart reference (review_call k review) = Unit

review_found-decision :
    (s : RefusalStore) (k reference : String) (review : Review) (o : Option RefusalRecord)
    → find_by_reference s k ≡ o
    → decision_of (find_by_reference (review_found s k review o).1 reference)
      ≡ decision_of (find_by_reference s reference)
unfolding find_by_reference
review_found-decision s k reference review none e = refl
review_found-decision s k reference review (some r) e =
    ap decision_of (get-put s.by_reference k reference (reviewed r review)) ∙ same
  where
    same :
        decision_of (
          if str_eq k reference
          then some (reviewed r review)
          else Dict.get s.by_reference reference)
        ≡ decision_of (Dict.get s.by_reference reference)
    same = elim (Bool-cases (str_eq k reference)) [
      | inl t ↦
          rw t (
            sym
              (ap decision_of (ap (Dict.get s.by_reference) (sym ((eq_iff k reference).0 t)) ∙ e)))
      | inr f ↦ rw f refl
    ]

step-decision :
    (c : Call) (s : RefusalStore) (reference : String)
    → IsApart reference c
    → decision_of (find_by_reference (step c s) reference)
      ≡ decision_of (find_by_reference s reference)
unfolding step save record_review find_by_reference
step-decision (save_call r) s reference n =
    ground (arith, get-put s.by_reference r.reference reference r, eq_iff r.reference reference, n)
step-decision (review_call k review) s reference n =
    review_found-decision s k reference review (find_by_reference s k) refl

-- Whatever reviews are recorded and whatever refusals are saved under other references, the
-- decision that is found under a reference stays as it was: its reason, who took it, the person
-- and unit concerned, the ways to contest it and its time.
pub run-decision :
    (cs : List Call) (s : RefusalStore) (reference : String)
    → All (IsApart reference) cs
    → decision_of (find_by_reference (run cs s) reference)
      ≡ decision_of (find_by_reference s reference)
unfolding run
run-decision [] s reference h = refl
run-decision (c ∷ cs) s reference h =
    run-decision cs (step c s) reference h.1 ∙ step-decision c s reference h.0
