-- ===== src/Statistics/Disclosure.antt =====
-- What the report withholds.
use open_residency.Base.{
  ℕ, ◌≡◌, ◌≤◌, refl, sym, ◌∙◌, arith, Bool, true, ◌||◌, String, Option, none, some, List, [], ◌∷◌,
  map, length, str_eq, eq_iff, any,
}
use open_residency.Statistics.Aggregate.{
  StatisticsInput, ResidencyCell, AggregateOptions, Order, suppress_small, smallest, suppress_one,
  suppressed_of, complement, suppress_country, suppress_all, countries_of, withheld,
  aggregate_residency, counted_cells, or_default,
}
use open_residency.Statistics.Suppression.{
  group, length-group, suppress_all-IsCovered, group-suppress_first, IsCovered, Agrees,
}

-- A country that has a cell is gone through, or was seen before.
abbrev pub named : String → List String → Bool
named k js = any (λ (j : String). str_eq j k) js

pub countries_of-named :
    (k : String) (seen : List String) (cs : List ResidencyCell)
    → 1 ≤ length (group k cs)
    → (named k seen || named k (countries_of seen cs)) ≡ true
unfolding countries_of
countries_of-named k seen [] m = absurd (no_cell m)
  where
    no_cell : 1 ≤ 0 → ⊥
    no_cell m = omega arith
countries_of-named k seen (c ∷ cs) m = ground (
  arith,
  countries_of-named k seen cs,
  countries_of-named k (c.dims.country_code ∷ seen) cs,
  eq_iff c.dims.country_code k,
)

suppressed-withheld : (k : String) (cs : List ResidencyCell) → Agrees k cs (map withheld cs)
suppressed-withheld k [] = record { suppressed = refl; all = refl }
suppressed-withheld k (c ∷ cs) =
    let rest = suppressed-withheld k cs in
    record { suppressed = ground (arith, rest.suppressed); all = ground (arith, rest.all) }

group-suppress_small :
    (t : ℕ) (k j : String) (cs : List ResidencyCell)
    → length (group k (map (suppress_small t j) cs)) ≡ length (group k cs)
unfolding suppress_small
group-suppress_small t k j [] = refl
group-suppress_small t k j (c ∷ cs) = ground (arith, group-suppress_small t k j cs)

group-suppress_one :
    (k j : String) (o : Option ℕ) (cs : List ResidencyCell)
    → length (group k (suppress_one j o cs)) ≡ length (group k cs)
group-suppress_one k j none cs = refl
group-suppress_one k j (some n) cs = group-suppress_first k j n cs

group-suppress_country :
    (t : ℕ) (k j : String) (cs : List ResidencyCell)
    → length (group k (suppress_country t cs j)) ≡ length (group k cs)
unfolding suppress_country complement
group-suppress_country t k j cs =
    let marked = map (suppress_small t j) cs in
    ground (arith, group-suppress_one k j (smallest j marked) marked, group-suppress_small t k j cs)

pub group-suppress_all :
    (t : ℕ) (k : String) (cs : List ResidencyCell) (js : List String)
    → length (group k (suppress_all t cs js)) ≡ length (group k cs)
unfolding suppress_all
group-suppress_all t k cs [] = refl
group-suppress_all t k cs (j ∷ js) =
    group-suppress_all t k (suppress_country t cs j) js ∙ group-suppress_country t k j cs

marked-IsCovered :
    (t : ℕ) (k : String) (cs : List ResidencyCell)
    → IsCovered k (suppress_all t cs (countries_of [] cs))
marked-IsCovered t k cs one =
    let marked = suppress_all t cs (countries_of [] cs) in
    suppress_all-IsCovered t k cs (countries_of [] cs)
      (countries_of-named k [] cs
        (omega (arith, one, length-group k marked, group-suppress_all t k cs (countries_of [] cs))))
      one

-- If a report withholds exactly one cell of a country, that country has no other cell.
pub lone_suppressed_cell :
    (locale_compare : String → String → Order) (residents : List StatisticsInput)
    (opts : AggregateOptions) (now country : String)
    → length (suppressed_of country (aggregate_residency locale_compare residents opts now).cells)
      ≡ 1
    → length (group country (aggregate_residency locale_compare residents opts now).cells) ≡ 1
unfolding aggregate_residency
lone_suppressed_cell locale_compare residents opts now country one =
    let cells = counted_cells locale_compare residents in
    let t = or_default opts.suppression_threshold 5 in
    let marked = suppress_all t cells (countries_of [] cells) in
    let a = suppressed-withheld country marked in
    a.all ∙ marked-IsCovered t country cells (sym a.suppressed ∙ one)
