-- ===== src/Statistics/Aggregate.antt =====
-- The aggregation of aggregate.ts. `localeCompare` is an argument. The cells that a country's group
-- shares with the list of all cells are the cells of the list with that country: a change to the
-- group is made in the list.
use open_residency.Base.{
  ℕ, ◌+◌, ◌==◌, Bool, true, false, ◌&&◌, not, String, Option, none, some, List, [], ◌∷◌, map,
  filter, length, if◌then◌else◌, str_eq, ◌&◌, ltb, leb, any,
}
use open_residency.Base.Dict
use open_residency.Base.Dict.{Dict}

pub record StatisticsInput : Type 0 where
  pub country_code : String
  pub subnational_unit : String
  pub provider_code : String
  pub assurance_level : String
  pub provisional : Bool

pub record ResidencyCell : Type 0 where
  pub dims : StatisticsInput
  pub count : Option ℕ
  pub suppressed : Bool

pub record ResidencyStatistics : Type 0 where
  pub generated_at : String
  pub suppression_threshold : ℕ
  pub total_residents : Option ℕ
  pub countries : ℕ
  pub cells : List ResidencyCell

pub record AggregateOptions : Type 0 where
  pub suppression_threshold : Option ℕ
  pub generated_at : Option String

abbrev pub or_default : {A : Type 0} → Option A → A → A
or_default none a = a
or_default (some b) a = b

-- The result of `localeCompare`, below, at or above 0.
pub data Order : Type 0 where
  before same after : Order

pub record Counted : Type 0 where
  pub dims : StatisticsInput
  pub count : ℕ

abbrev pub bool_word : Bool → String
bool_word true = "true"
bool_word false = "false"

unfoldable pub cell_key : StatisticsInput → String
cell_key r =
    r.country_code
    & "\0"
    & r.subnational_unit
    & "\0"
    & r.provider_code
    & "\0"
    & r.assurance_level
    & "\0"
    & bool_word r.provisional

abbrev pub one_more : StatisticsInput → Option Counted → Counted
one_more r none = record { dims = r; count = 1 }
one_more r (some c) = record { dims = c.dims; count = c.count + 1 }

-- The loop over the residents.
unfoldable pub count_all : Dict Counted → List StatisticsInput → Dict Counted
count_all counts [] = counts
count_all counts (r ∷ rs) =
    count_all (Dict.put counts (cell_key r) (one_more r (Dict.get counts (cell_key r)))) rs

abbrev pub cell_of : Counted → ResidencyCell
cell_of c = record { dims = c.dims; count = some c.count; suppressed = false }

-- `a || b`, of comparisons
abbrev or_then : Order → Order → Order
or_then before o = before
or_then same o = o
or_then after o = after

abbrev compare_bool : Bool → Bool → Order
compare_bool false false = same
compare_bool true true = same
compare_bool false true = before
compare_bool true false = after

abbrev is_after : Order → Bool
is_after before = false
is_after same = false
is_after after = true

-- `count ?? 0`
abbrev pub count_or_zero : ResidencyCell → ℕ
count_or_zero c = or_default c.count 0

abbrev pub of_country : String → ResidencyCell → Bool
of_country country c = str_eq c.dims.country_code country

-- Is the cell one of the country that is not suppressed?
abbrev pub survives : String → ResidencyCell → Bool
survives country c = of_country country c && not c.suppressed

unfoldable pub suppress_small : ℕ → String → ResidencyCell → ResidencyCell
suppress_small threshold country c =
    if of_country country c && ltb (count_or_zero c) threshold
    then record c { suppressed = true }
    else c

-- The first of the least counts: the head of the stable sort of the survivors.
abbrev pub smaller : ResidencyCell → Option ℕ → Option ℕ
smaller c none = some (count_or_zero c)
smaller c (some n) = if leb (count_or_zero c) n then some (count_or_zero c) else some n

unfoldable pub smallest : String → List ResidencyCell → Option ℕ
smallest country [] = none
smallest country (c ∷ cs) =
    let rest = smallest country cs in if survives country c then smaller c rest else rest

-- Suppressing the first survivor with that count.
unfoldable pub suppress_first : String → ℕ → List ResidencyCell → List ResidencyCell
suppress_first country n [] = []
suppress_first country n (c ∷ cs) =
    let rest = suppress_first country n cs in
    if survives country c && count_or_zero c == n
    then record c { suppressed = true } ∷ cs
    else c ∷ rest

abbrev pub suppress_one : String → Option ℕ → List ResidencyCell → List ResidencyCell
suppress_one country none cs = cs
suppress_one country (some n) cs = suppress_first country n cs

abbrev pub suppressed_of : String → List ResidencyCell → List ResidencyCell
suppressed_of country cs = filter (λ c. of_country country c && c.suppressed) cs

-- The complementary suppression of one country.
unfoldable pub complement : String → List ResidencyCell → List ResidencyCell
complement country cs =
    if length (suppressed_of country cs) == 1 && ltb 1 (length (filter (of_country country) cs))
    then suppress_one country (smallest country cs) cs
    else cs

-- One round of the loop over the countries.
unfoldable pub suppress_country : ℕ → List ResidencyCell → String → List ResidencyCell
suppress_country threshold cs country =
    complement country (map (suppress_small threshold country) cs)

unfoldable pub suppress_all : ℕ → List ResidencyCell → List String → List ResidencyCell
suppress_all threshold cs [] = cs
suppress_all threshold cs (country ∷ rest) =
    suppress_all threshold (suppress_country threshold cs country) rest

-- The keys of `byCountry`, in the order of their insertion.
unfoldable pub countries_of : List String → List ResidencyCell → List String
countries_of seen [] = []
countries_of seen (c ∷ cs) =
    let old = countries_of seen cs in
    let new = countries_of (c.dims.country_code ∷ seen) cs in
    if any (λ k. str_eq k c.dims.country_code) seen then old else c.dims.country_code ∷ new

unfoldable pub sum_counts : List ResidencyCell → ℕ
sum_counts [] = 0
sum_counts (c ∷ cs) = count_or_zero c + sum_counts cs

abbrev pub withheld : ResidencyCell → ResidencyCell
withheld c = if c.suppressed then record c { count = none } else c

module _ (locale_compare : String → String → Order) where
  -- The comparator of the sort.
  unfoldable pub compare_cells : ResidencyCell → ResidencyCell → Order
  compare_cells a b = or_then (locale_compare a.dims.country_code b.dims.country_code) (
      or_then (locale_compare a.dims.subnational_unit b.dims.subnational_unit) (
        or_then (locale_compare a.dims.provider_code b.dims.provider_code) (
          or_then (locale_compare a.dims.assurance_level b.dims.assurance_level)
            (compare_bool a.dims.provisional b.dims.provisional))))

  -- One insertion of the stable sort.
  unfoldable pub place_cell : ResidencyCell → List ResidencyCell → List ResidencyCell
  place_cell c [] = c ∷ []
  place_cell c (d ∷ ds) =
      let rest = place_cell c ds in if is_after (compare_cells d c) then c ∷ d ∷ ds else d ∷ rest

  unfoldable pub sort_cells : List ResidencyCell → List ResidencyCell → List ResidencyCell
  sort_cells sorted [] = sorted
  sort_cells sorted (c ∷ cs) = sort_cells (place_cell c sorted) cs

  -- The cells before anything is withheld.
  unfoldable pub counted_cells : List StatisticsInput → List ResidencyCell
  counted_cells residents = sort_cells [] (map cell_of (Dict.values (count_all [] residents)))

  -- `aggregateResidency`, at the instant `now`.
  unfoldable pub aggregate_residency :
      List StatisticsInput → AggregateOptions → String → ResidencyStatistics
  aggregate_residency residents opts now =
      let threshold = or_default opts.suppression_threshold 5 in
      let cells = counted_cells residents in
      let countries = countries_of [] cells in
      let marked = suppress_all threshold cells countries in
      let total = sum_counts marked in
      record {
        generated_at = or_default opts.generated_at now;
        suppression_threshold = threshold;
        total_residents = if ltb total threshold then none else some total;
        countries = length countries;
        cells = map withheld marked;
      }
