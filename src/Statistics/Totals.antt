-- ===== src/Statistics/Totals.antt =====
-- The totals of the report.
use open_residency.Base.{
  ℕ, ◌+◌, ◌≡◌, refl, ap, ◌∙◌, arith, String, Option, none, some, List, [], ◌∷◌, map, length,
  if◌then◌else◌, ltb,
}
use open_residency.Base.Dict
use open_residency.Base.Dict.{Dict}
use open_residency.Statistics.Aggregate.{
  StatisticsInput, ResidencyCell, AggregateOptions, Order, Counted, cell_key, one_more, count_all,
  cell_of, count_or_zero, suppress_small, smallest, suppress_first, suppress_one, complement,
  suppress_country, suppress_all, countries_of, sum_counts, place_cell, sort_cells, counted_cells,
  aggregate_residency, or_default,
}

-- The counts of the entries, together.
abbrev entries_total : Dict Counted → ℕ
entries_total m = sum_counts (map cell_of (Dict.values m))

put_total :
    (m : Dict Counted) (k : String) (r : StatisticsInput)
    → entries_total (Dict.put m k (one_more r (Dict.get m k))) ≡ entries_total m + 1
unfolding Dict.put Dict.get sum_counts
put_total [] k r = refl
put_total ((j, c) ∷ m) k r = ground (arith, put_total m k r)

total-count_all :
    (m : Dict Counted) (rs : List StatisticsInput)
    → entries_total (count_all m rs) ≡ entries_total m + length rs
unfolding count_all
total-count_all m [] = omega arith
total-count_all m (r ∷ rs) = omega (
  arith,
  total-count_all (Dict.put m (cell_key r) (one_more r (Dict.get m (cell_key r)))) rs,
  put_total m (cell_key r) r,
)

module _ (locale_compare : String → String → Order) where
  total-place_cell :
      (c : ResidencyCell) (ds : List ResidencyCell)
      → sum_counts (place_cell locale_compare c ds) ≡ count_or_zero c + sum_counts ds
  unfolding place_cell sum_counts
  total-place_cell c [] = refl
  total-place_cell c (d ∷ ds) = ground (arith, total-place_cell c ds)

  total-sort_cells :
      (sorted cs : List ResidencyCell)
      → sum_counts (sort_cells locale_compare sorted cs) ≡ sum_counts sorted + sum_counts cs
  unfolding sort_cells sum_counts
  total-sort_cells sorted [] = omega arith
  total-sort_cells sorted (c ∷ cs) =
      omega
        (arith, total-sort_cells (place_cell locale_compare c sorted) cs, total-place_cell c sorted)

total-suppress_small :
    (t : ℕ) (k : String) (cs : List ResidencyCell)
    → sum_counts (map (suppress_small t k) cs) ≡ sum_counts cs
unfolding sum_counts suppress_small
total-suppress_small t k [] = refl
total-suppress_small t k (c ∷ cs) = ground (arith, total-suppress_small t k cs)

total-suppress_first :
    (k : String) (n : ℕ) (cs : List ResidencyCell)
    → sum_counts (suppress_first k n cs) ≡ sum_counts cs
unfolding sum_counts suppress_first
total-suppress_first k n [] = refl
total-suppress_first k n (c ∷ cs) = ground (arith, total-suppress_first k n cs)

total-suppress_one :
    (k : String) (o : Option ℕ) (cs : List ResidencyCell)
    → sum_counts (suppress_one k o cs) ≡ sum_counts cs
total-suppress_one k none cs = refl
total-suppress_one k (some n) cs = total-suppress_first k n cs

total-suppress_country :
    (t : ℕ) (cs : List ResidencyCell) (k : String)
    → sum_counts (suppress_country t cs k) ≡ sum_counts cs
unfolding suppress_country complement
total-suppress_country t cs k = ground (
  arith,
  total-suppress_one k (smallest k (map (suppress_small t k) cs)) (map (suppress_small t k) cs),
  total-suppress_small t k cs,
)

total-suppress_all :
    (t : ℕ) (cs : List ResidencyCell) (ks : List String)
    → sum_counts (suppress_all t cs ks) ≡ sum_counts cs
unfolding suppress_all
total-suppress_all t cs [] = refl
total-suppress_all t cs (k ∷ ks) =
    total-suppress_all t (suppress_country t cs k) ks ∙ total-suppress_country t cs k

total-counted_cells :
    (locale_compare : String → String → Order) (residents : List StatisticsInput)
    → sum_counts (counted_cells locale_compare residents) ≡ length residents
unfolding counted_cells sum_counts
total-counted_cells locale_compare residents = omega (
  arith,
  total-sort_cells locale_compare [] (map cell_of (Dict.values (count_all [] residents))),
  total-count_all [] residents,
)

-- The total of a report is the number of residents, and it is withheld exactly when it is below
-- the threshold.
pub total_residents-aggregate :
    (locale_compare : String → String → Order) (residents : List StatisticsInput)
    (opts : AggregateOptions) (now : String)
    → (aggregate_residency locale_compare residents opts now).total_residents ≡ (
        if ltb (length residents) (or_default opts.suppression_threshold 5)
        then none
        else some (length residents))
unfolding aggregate_residency
total_residents-aggregate locale_compare residents opts now =
    let t = or_default opts.suppression_threshold 5 in
    let cells = counted_cells locale_compare residents in
    ap (λ (n : ℕ). if ltb n t then none else some n)
      (total-suppress_all t cells (countries_of [] cells)
        ∙ total-counted_cells locale_compare residents)
