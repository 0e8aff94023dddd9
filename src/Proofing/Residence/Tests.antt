-- ===== src/Proofing/Residence/Tests.antt =====
-- Runs of evaluateResidence on concrete evidence.
use open_residency.Base.{
  ℕ, ◌≤◌, ◌≡◌, ◌↔◌, ◌⊎◌, refl, String, Option, some, none, List, [], ◌∷◌, true, false, Bool, truthy,
  trim,
}
use open_residency.Proofing.Residence.Types.{
  ResidenceEvidence, ResidencePolicy, ResidenceOutcome, ral0, ral2, self_declared, document,
  dwelling, rank,
}
use open_residency.Proofing.Residence.Evaluate.{
  Platform, mode_admitted, admissible, grade, evaluate_residence, duration_reason,
  default_residence_policy, best_of, strongest, better, from_evidence, judge, meets_target, younger,
  attester_accepted,
}
use open_residency.Proofing.Residence.Strongest.{Among, IsFrom, evaluate_residence-strongest}
use open_residency.Proofing.Residence.Excluded.{declared_by_self, evaluate_residence-excluded}
use open_residency.Proofing.Residence.Judged.{
  IsProved, evaluate_residence-satisfied_iff, duration_reason-none_iff, intends, Accepted,
}

-- A platform for texts that are upper case already and dates written as one letter.
abbrev date_of : String → Option ℕ
date_of String.[] = none
date_of (String.◌∷◌ c String.[]) = some 100000000000
date_of (String.◌∷◌ c (String.◌∷◌ d s)) = none

abbrev platform : Platform
platform = record {
  upper = λ s. s;
  address_key = λ a. "";
  date_parse = date_of;
  decimal = λ n. "N";
}

abbrev policy : ResidencePolicy
policy = record default_residence_policy {
  required = true;
  target_level = ral2;
  minimum_duration_days = some 30;
}

abbrev tenancy : ResidenceEvidence
tenancy = record {
  method = document;
  admin_unit = some " KD ";
  reported_unit = none;
  as_of = some "a";
  ref = none;
  address = none;
  since = some "not a date";
  attester_type = none;
}

abbrev claim_only : ResidenceEvidence
claim_only = record tenancy { method = self_declared }

abbrev evidence : List ResidenceEvidence
evidence = claim_only ∷ tenancy ∷ []

abbrev outcome : ResidenceOutcome
outcome = evaluate_residence platform policy "KD" "n" none none evidence

unreadable_since_passes : (outcome.level ≡ ral2) × (outcome.satisfied ≡ true)
unfolding evaluate_residence judge best_of strongest better from_evidence admissible grade
    mode_admitted meets_target duration_reason younger default_residence_policy attester_accepted
    trim
unreadable_since_passes = (refl, refl)

abbrev counted : ResidenceEvidence → Bool
counted = admissible platform policy "KD" "n" none none

evaluate_residence-strongest_example :
    (mode_admitted policy dwelling ≡ true
      → ((ev : ResidenceEvidence)
          → Among counted ev evidence
          → rank (grade platform policy "KD" "n" none none ev) ≤ rank outcome.level)
        × (((outcome.level ≡ ral0) × (outcome.method ≡ self_declared))
            ⊎ ((ev : ResidenceEvidence) × IsFrom platform policy "KD" "n" none none evidence outcome
                  ev)))
    × (mode_admitted policy dwelling ≡ false → outcome.level ≡ ral0)
evaluate_residence-strongest_example =
    evaluate_residence-strongest platform policy "KD" "n" none none evidence

evaluate_residence-excluded_example :
    outcome ≡ evaluate_residence platform policy "KD" "n" none none (tenancy ∷ [])
evaluate_residence-excluded_example =
    evaluate_residence-excluded platform policy "KD" "n" none none [] (tenancy ∷ []) claim_only
      (declared_by_self refl)

evaluate_residence-satisfied_iff_example :
    ((outcome.satisfied ≡ true)
      ↔ (true ≡ true → IsProved platform policy "KD" "n" none none evidence))
    × ((outcome.reason ≡ none) ↔ (outcome.satisfied ≡ true))
unfolding default_residence_policy
evaluate_residence-satisfied_iff_example =
    evaluate_residence-satisfied_iff platform policy "KD" "n" none none evidence

duration_reason-none_iff_example :
    (duration_reason platform policy "KD" "n" none none (some "not a date") ≡ none) ↔ (
      (intends platform policy "KD" "n" none none ≡ true)
      ⊎ ((s : String) × (some "not a date" ≡ some s)
          × (truthy s ≡ true)
          × Accepted platform policy "KD" "n" none none s 30))
unfolding default_residence_policy
duration_reason-none_iff_example =
    duration_reason-none_iff platform policy "KD" "n" none none (some "not a date") 30 refl
