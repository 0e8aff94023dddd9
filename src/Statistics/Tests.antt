-- ===== src/Statistics/Tests.antt =====
-- Reports of small registers.
use open_residency.Base.{
  ◌≡◌, refl, true, false, String, none, some, List, [], ◌∷◌, ◌++◌, map, length, if◌then◌else◌, All,
  replicate, ltb,
}
use open_residency.Base.Dict
use open_residency.Statistics.Aggregate.{
  StatisticsInput, ResidencyCell, ResidencyStatistics, AggregateOptions, Order, same,
  aggregate_residency, suppressed_of, or_default, count_all, sort_cells, place_cell, compare_cells,
  counted_cells, cell_key, countries_of, suppress_all, suppress_country, suppress_small, complement,
  smallest, suppress_first,
}
use open_residency.Statistics.Suppression.{group}
use open_residency.Statistics.Totals.{total_residents-aggregate}
use open_residency.Statistics.Disclosure.{lone_suppressed_cell}
use open_residency.Statistics.Thresholds.{is_published_well, counts-published_well}
use open_residency.Statistics.Dimensions.{is_clean}
use open_residency.Statistics.Counts.{IsPublished, cells-IsPublished}

-- Texts that all sort alike: the sort keeps the order of the cells.
abbrev unordered : String → String → Order
unordered a b = same

abbrev living_in : String → String → StatisticsInput
living_in country unit = record {
  country_code = country;
  subnational_unit = unit;
  provider_code = "nin";
  assurance_level = "high";
  provisional = false;
}

abbrev usual : AggregateOptions
usual = record { suppression_threshold = none; generated_at = none }

-- One country with cells of two, six and seven residents.
abbrev one_country : List StatisticsInput
one_country =
    replicate 2 (living_in "NG" "KT")
    ++ replicate 6 (living_in "NG" "LA")
    ++ replicate 7 (living_in "NG" "KN")

-- A country with a single small cell beside one with a large cell.
abbrev two_countries : List StatisticsInput
two_countries = replicate 2 (living_in "GH" "AA") ++ replicate 6 (living_in "NG" "LA")

abbrev report_two : ResidencyStatistics
report_two = aggregate_residency unordered two_countries usual "2025-01-01"

abbrev report_one : ResidencyStatistics
report_one = aggregate_residency unordered one_country usual "2025-01-01"

-- The two smaller cells are withheld.
counts_one : map (λ (c : ResidencyCell). c.count) report_one.cells ≡ (none ∷ none ∷ some 7 ∷ [])
unfolding Dict.get Dict.put aggregate_residency counted_cells count_all cell_key sort_cells
    place_cell compare_cells countries_of suppress_all suppress_country suppress_small complement
    smallest suppress_first
counts_one = refl

-- The only cell of the first country is withheld, and the total and the other cell are published.
counts_two : map (λ (c : ResidencyCell). c.count) report_two.cells ≡ (none ∷ some 6 ∷ [])
unfolding Dict.get Dict.put aggregate_residency counted_cells count_all cell_key sort_cells
    place_cell compare_cells countries_of suppress_all suppress_country suppress_small complement
    smallest suppress_first
counts_two = refl

lone_in_two : length (suppressed_of "GH" report_two.cells) ≡ 1
unfolding Dict.get Dict.put aggregate_residency counted_cells count_all cell_key sort_cells
    place_cell compare_cells countries_of suppress_all suppress_country suppress_small complement
    smallest suppress_first
lone_in_two = refl

lone_suppressed_cell_example : length (group "GH" report_two.cells) ≡ 1
lone_suppressed_cell_example =
    lone_suppressed_cell unordered two_countries usual "2025-01-01" "GH" lone_in_two

total_residents_example : report_two.total_residents ≡ (
    if ltb (length two_countries) (or_default usual.suppression_threshold 5)
    then none
    else some (length two_countries))
total_residents_example = total_residents-aggregate unordered two_countries usual "2025-01-01"

counts-published_well_example :
    All
      (λ (c : ResidencyCell). is_published_well (or_default usual.suppression_threshold 5) c ≡ true)
      report_one.cells
counts-published_well_example = counts-published_well unordered one_country usual "2025-01-01"

one_country_clean : All (λ (r : StatisticsInput). is_clean r ≡ true) one_country
one_country_clean = (
  refl,
  (
    refl,
    (
      refl,
      (
        refl,
        (refl, (refl, (refl, (refl, (refl, (refl, (refl, (refl, (refl, (refl, (refl, tt))))))))))),
      ),
    ),
  ),
)

cells-IsPublished_example : All (IsPublished one_country) report_one.cells
cells-IsPublished_example =
    cells-IsPublished unordered one_country usual "2025-01-01" one_country_clean
