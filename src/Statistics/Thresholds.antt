-- ===== src/Statistics/Thresholds.antt =====
-- What the report publishes is above the threshold.
use open_residency.Base.{
  ℕ, ◌≡◌, ◌≤◌, inl, inr, subst, arith, Bool, true, false, ◌||◌, not, String, List, [], ◌∷◌, map,
  length, if◌then◌else◌, str_eq, str_eq_refl, eq_iff, leb, Bool-cases, All, is_some,
}
use open_residency.Statistics.Aggregate.{
  StatisticsInput, ResidencyCell, AggregateOptions, Order, count_or_zero, of_country,
  suppress_small, suppress_country, suppress_all, countries_of, withheld, aggregate_residency,
  counted_cells, or_default,
}
use open_residency.Statistics.Marking.{All-complement, All-suppress_all}
use open_residency.Statistics.Suppression.{group}
use open_residency.Statistics.Disclosure.{named, countries_of-named, group-suppress_all}

-- A cell of the country is suppressed or large enough.
abbrev is_large_for : ℕ → String → ResidencyCell → Bool
is_large_for t k c = not (of_country k c) || (c.suppressed || leb t (count_or_zero c))

abbrev Large : ℕ → String → List ResidencyCell → Type 0
Large t k cs = All (λ (c : ResidencyCell). is_large_for t k c ≡ true) cs

small-Large :
    (t : ℕ) (k : String) (cs : List ResidencyCell) → Large t k (map (suppress_small t k) cs)
unfolding suppress_small
small-Large t k [] = tt
small-Large t k (c ∷ cs) = (ground arith, small-Large t k cs)

Large-marked :
    (t : ℕ) (k : String) (c : ResidencyCell)
    → is_large_for t k c ≡ true
    → is_large_for t k (record c { suppressed = true }) ≡ true
Large-marked t k c h = ground (arith, h)

suppress_all-Large :
    (t : ℕ) (k : String) (cs : List ResidencyCell) (js : List String)
    → named k js ≡ true
    → Large t k (suppress_all t cs js)
unfolding suppress_all suppress_country
suppress_all-Large t k cs [] m = cc
suppress_all-Large t k cs (j ∷ js) m = elim (Bool-cases (str_eq j k)) [
  | inl e ↦
      subst (λ (i : String). Large t i (suppress_all t (suppress_country t cs j) js))
        ((eq_iff j k).0 e)
        (All-suppress_all _ (Large-marked t j) t (suppress_country t cs j) js (
          All-complement _ (Large-marked t j) j (map (suppress_small t j) cs) (small-Large t j cs)))
  | inr e ↦ suppress_all-Large t k (suppress_country t cs j) js (tail e m)
]
  where
    tail : str_eq j k ≡ false → named k (j ∷ js) ≡ true → named k js ≡ true
    tail e m = ground arith

-- What holds of each country that has a cell holds of each cell and its own country.
each_own :
    (t : ℕ) (cs : List ResidencyCell)
    → ((k : String) → 1 ≤ length (group k cs) → Large t k cs)
    → All (λ (c : ResidencyCell). is_large_for t c.dims.country_code c ≡ true) cs
each_own t [] f = tt
each_own t (c ∷ cs) f =
    ((f c.dims.country_code (own c)).0, each_own t cs (λ k m. (f k (more k m)).1))
  where
    own : (c : ResidencyCell) → 1 ≤ length (group c.dims.country_code (c ∷ cs))
    own c = ground (arith, str_eq_refl c.dims.country_code)

    more : (k : String) → 1 ≤ length (group k cs) → 1 ≤ length (group k (c ∷ cs))
    more k m = ground arith

-- A cell that says as much as the report may say.
abbrev pub is_published_well : ℕ → ResidencyCell → Bool
is_published_well t c = if c.suppressed then not (is_some c.count) else leb t (count_or_zero c)

All-withheld :
    (t : ℕ) (cs : List ResidencyCell)
    → All (λ (c : ResidencyCell). is_large_for t c.dims.country_code c ≡ true) cs
    → All (λ (c : ResidencyCell). is_published_well t c ≡ true) (map withheld cs)
All-withheld t [] h = tt
All-withheld t (c ∷ cs) h =
    (ground (arith, h.0, str_eq_refl c.dims.country_code), All-withheld t cs h.1)

-- In every report, a suppressed cell carries no count, and a cell that is not suppressed does not
-- count below the threshold, which is 5 unless the options say otherwise.
pub counts-published_well :
    (locale_compare : String → String → Order) (residents : List StatisticsInput)
    (opts : AggregateOptions) (now : String)
    → All
        (λ (c : ResidencyCell).
          is_published_well (or_default opts.suppression_threshold 5) c ≡ true)
        (aggregate_residency locale_compare residents opts now).cells
unfolding aggregate_residency
counts-published_well locale_compare residents opts now =
    let t = or_default opts.suppression_threshold 5 in
    let cells = counted_cells locale_compare residents in
    let js = countries_of [] cells in
    All-withheld t (suppress_all t cells js) (
      each_own t (suppress_all t cells js) (λ k m.
        suppress_all-Large t k cells js
          (countries_of-named k [] cells (omega (arith, m, group-suppress_all t k cells js)))))
