-- ===== src/Residency/Refusal/Tests.antt =====
-- A refusal that is reviewed and overturned.
use open_residency.Base.Dict
use open_residency.Base.{
  Option, ap, true, eq_iff, false, refl, ◌≡◌, String, none, some, List, [], ◌∷◌,
}
use open_residency.Residency.Refusal.{
  RefusalDecision, RefusalRecord, Review, RefusalStore, unreviewed, overturned, no_refusals, save,
  find_by_reference, record_review,
}
use open_residency.Residency.Refusal.Reviews.{shown, renewed, latest, run-shown}
use open_residency.Residency.Refusal.Decisions.{
  Call, save_call, review_call, run, decision_of, run-decision,
}

abbrev refused_for_proof : RefusalDecision
refused_for_proof = record {
  country_code = "NG";
  subnational_unit = "KT";
  subject_ref = none;
  reason = "PROOF_OF_RESIDENCE_REQUIRED";
  decided_by = "automated:1";
  submitted_by = some "clerk";
  appeal_path = "/appeals";
  human_review_path = some "/reviews";
  refused_at = "2025-01-01";
}

abbrev refusal : String → RefusalRecord
refusal reference = record {
  reference = reference;
  decision = refused_for_proof;
  review_status = unreviewed;
  reviewed_by = none;
  reviewed_at = none;
  review_note = none;
}

abbrev in_favour : Review
in_favour = record { status = overturned; by = "reviewer"; at = "2025-01-05"; note = none }

abbrev one_refusal : RefusalStore
one_refusal = (save no_refusals (refusal "REF-1")).1

-- The case is there.
one_refusal_found : find_by_reference one_refusal "REF-1" ≡ some (refusal "REF-1")
unfolding save find_by_reference Dict.get Dict.put
one_refusal_found = refl

abbrev later_calls : List Call
later_calls =
    review_call "REF-1" in_favour ∷ save_call (refusal "REF-2") ∷ review_call "REF-2" in_favour ∷ []

run-decision_example :
    decision_of (find_by_reference (run later_calls one_refusal) "REF-1")
    ≡ decision_of (find_by_reference one_refusal "REF-1")
run-decision_example = run-decision later_calls one_refusal "REF-1" (tt, ((λ e. apart e), (tt, tt)))
  where
    never : false ≡ true → ⊥
    never e = cc

    apart : ◌≡◌ {A = String} "REF-2" "REF-1" → ⊥
    apart e = never ((eq_iff "REF-2" "REF-1").1 e)

run-shown_example :
    (shown (find_by_reference (run later_calls one_refusal) "REF-1")
      ≡ latest "REF-1" later_calls (shown (find_by_reference one_refusal "REF-1")))
    × (shown (record_review (run later_calls one_refusal) "REF-1" in_favour).0
        ≡ renewed in_favour
            (latest "REF-1" later_calls (shown (find_by_reference one_refusal "REF-1"))))
run-shown_example = run-shown later_calls one_refusal "REF-1" in_favour

-- The review shows.
overturned_in_the_end :
    latest "REF-1" later_calls (shown (find_by_reference one_refusal "REF-1"))
    ≡ some
        (record { status = overturned; by = some "reviewer"; at = some "2025-01-05"; note = none })
overturned_in_the_end =
    ap (λ (o : Option RefusalRecord). latest "REF-1" later_calls (shown o)) one_refusal_found
