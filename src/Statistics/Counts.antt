-- ===== src/Statistics/Counts.antt =====
-- The counts of the report.
use open_residency.Base.{
  ℕ, suc, ◌+◌, ◌≡◌, refl, sym, ap, ◌∙◌, arith, Bool, true, String, Option, none, some, List, [],
  ◌∷◌, map, if◌then◌else◌, str_eq, eq_iff, Option-cases, All,
}
use open_residency.Base.Dict
use open_residency.Base.Dict.{Dict, Distinct, Distinct-put, get-put}
use open_residency.Base.Apart.{values_stored}
use open_residency.Statistics.Aggregate.{
  StatisticsInput, ResidencyCell, AggregateOptions, Order, Counted, cell_key, one_more, count_all,
  cell_of, countries_of, withheld, place_cell, sort_cells, aggregate_residency, counted_cells,
  or_default,
}
use open_residency.Statistics.Dimensions.{is_clean, number_like, str_eq-cell_key}
use open_residency.Statistics.Marking.{All-suppress_all}

-- How many residents have the key.
abbrev pub tally : String → List StatisticsInput → ℕ
tally k [] = 0
tally k (r ∷ rs) = if str_eq (cell_key r) k then suc (tally k rs) else tally k rs

abbrev count_of : Option Counted → ℕ
count_of none = 0
count_of (some c) = c.count

abbrev key_of : Counted → String
key_of c = cell_key c.dims

abbrev key_or : String → Option Counted → String
key_or k none = k
key_or k (some c) = key_of c

abbrev clean_or : Bool → Option Counted → Bool
clean_or b none = b
clean_or b (some c) = is_clean c.dims

-- The entries stand under their own keys.
record IsKeyed (m : Dict Counted) : Type 0 where
  distinct : Distinct m
  own : (k : String) (c : Counted) → Dict.get m k ≡ some c → key_of c ≡ k

put-IsKeyed :
    (m : Dict Counted) (r : StatisticsInput)
    → IsKeyed m
    → IsKeyed (Dict.put m (cell_key r) (one_more r (Dict.get m (cell_key r))))
put-IsKeyed m r h = record {
  distinct = Distinct-put m (cell_key r) _ h.distinct;
  own = λ k c g. owned k c (Dict.get m (cell_key r)) refl g;
}
  where
    whose :
        (o : Option Counted) (c : Counted)
        → Dict.get m (cell_key r) ≡ o
        → some (one_more r o) ≡ some c
        → key_of c ≡ cell_key r
    whose none c e g = sym (ap (λ (w : Option Counted). key_or (cell_key r) w) g)
    whose (some d) c e g =
        sym (ap (λ (w : Option Counted). key_or (cell_key r) w) g) ∙ h.own (cell_key r) d e

    owned :
        (k : String) (c : Counted) (o : Option Counted)
        → Dict.get m (cell_key r) ≡ o
        → Dict.get (Dict.put m (cell_key r) (one_more r o)) k ≡ some c
        → key_of c ≡ k
    owned k c o e g = ground (
      arith,
      get-put m (cell_key r) k (one_more r o),
      eq_iff (cell_key r) k,
      whose o c e,
      h.own k c,
    )

count-count_all :
    (m : Dict Counted) (rs : List StatisticsInput) (k : String)
    → count_of (Dict.get (count_all m rs) k) ≡ count_of (Dict.get m k) + tally k rs
unfolding count_all
count-count_all m [] k = omega arith
count-count_all m (r ∷ rs) k =
    let m' = Dict.put m (cell_key r) (one_more r (Dict.get m (cell_key r))) in
    let written = get-put m (cell_key r) k (one_more r (Dict.get m (cell_key r))) in
    ground
      (arith, count-count_all m' rs k, written, eq_iff (cell_key r) k, Option-cases (Dict.get m k))

count_all-IsKeyed :
    (m : Dict Counted) (rs : List StatisticsInput) → IsKeyed m → IsKeyed (count_all m rs)
unfolding count_all
count_all-IsKeyed m [] h = h
count_all-IsKeyed m (r ∷ rs) h =
    count_all-IsKeyed (Dict.put m (cell_key r) (one_more r (Dict.get m (cell_key r)))) rs
      (put-IsKeyed m r h)

abbrev AllClean : List StatisticsInput → Type 0
AllClean rs = All (λ (r : StatisticsInput). is_clean r ≡ true) rs

-- The dimensions of every entry are those of a resident, so they are clean with the residents.
abbrev EntriesClean : Dict Counted → Type 0
EntriesClean m = (k : String) (c : Counted) → Dict.get m k ≡ some c → is_clean c.dims ≡ true

put-EntriesClean :
    (m : Dict Counted) (r : StatisticsInput)
    → EntriesClean m
    → is_clean r ≡ true
    → EntriesClean (Dict.put m (cell_key r) (one_more r (Dict.get m (cell_key r))))
put-EntriesClean m r h n = λ k c g. clean k c (Dict.get m (cell_key r)) refl g
  where
    whose :
        (o : Option Counted) (c : Counted)
        → Dict.get m (cell_key r) ≡ o
        → some (one_more r o) ≡ some c
        → is_clean c.dims ≡ true
    whose none c e g = sym (ap (λ (w : Option Counted). clean_or (is_clean r) w) g) ∙ n
    whose (some d) c e g =
        sym (ap (λ (w : Option Counted). clean_or (is_clean r) w) g) ∙ h (cell_key r) d e

    clean :
        (k : String) (c : Counted) (o : Option Counted)
        → Dict.get m (cell_key r) ≡ o
        → Dict.get (Dict.put m (cell_key r) (one_more r o)) k ≡ some c
        → is_clean c.dims ≡ true
    clean k c o e g = ground (arith, get-put m (cell_key r) k (one_more r o), whose o c e, h k c)

count_all-EntriesClean :
    (m : Dict Counted) (rs : List StatisticsInput)
    → EntriesClean m
    → AllClean rs
    → EntriesClean (count_all m rs)
unfolding count_all
count_all-EntriesClean m [] h n = h
count_all-EntriesClean m (r ∷ rs) h n =
    count_all-EntriesClean (Dict.put m (cell_key r) (one_more r (Dict.get m (cell_key r)))) rs
      (put-EntriesClean m r h n.0) n.1

-- Counting by the key is counting by the dimensions.
tally-number_like :
    (d : StatisticsInput) (rs : List StatisticsInput)
    → is_clean d ≡ true
    → AllClean rs
    → tally (cell_key d) rs ≡ number_like d rs
tally-number_like d [] h n = refl
tally-number_like d (r ∷ rs) h n = rw (str_eq-cell_key r d n.0 h, tally-number_like d rs h n.1) refl

-- The count of a cell is the number of residents with its dimensions.
abbrev IsExact : List StatisticsInput → ResidencyCell → Type 0
IsExact rs c = c.count ≡ some (number_like c.dims rs)

entries-IsExact :
    (rs : List StatisticsInput)
    → AllClean rs
    → All (IsExact rs) (map cell_of (Dict.values (count_all [] rs)))
unfolding Dict.get
entries-IsExact rs n =
    let m = count_all [] rs in
    let h =
      count_all-IsKeyed [] rs (record { distinct = tt; own = λ k c g. absurd (nothing c g) }) in
    each (Dict.values m) (values_stored key_of m h.distinct h.own)
  where
    nothing : (c : Counted) → none ≡ some c → ⊥
    nothing c g = cc

    exact :
        (c : Counted)
        → Dict.get (count_all [] rs) (key_of c) ≡ some c
        → c.count ≡ number_like c.dims rs
    exact c g = omega (
      arith,
      ap count_of g,
      count-count_all [] rs (key_of c),
      tally-number_like c.dims rs
          (count_all-EntriesClean [] rs (λ k d x. absurd (nothing d x)) n (key_of c) c g) n,
    )

    each :
        (cs : List Counted)
        → All (λ (c : Counted). Dict.get (count_all [] rs) (key_of c) ≡ some c) cs
        → All (IsExact rs) (map cell_of cs)
    each [] h = tt
    each (c ∷ cs) h = (ap some (exact c h.0), each cs h.1)

module _ (locale_compare : String → String → Order) (P : ResidencyCell → Type 0) where
  All-place_cell :
      (c : ResidencyCell) (ds : List ResidencyCell)
      → P c
      → All P ds
      → All P (place_cell locale_compare c ds)
  unfolding place_cell
  All-place_cell c [] h k = (h, tt)
  All-place_cell c (d ∷ ds) h k = ground (arith, h, k.0, k.1, All-place_cell c ds h k.1)

  All-sort_cells :
      (sorted cs : List ResidencyCell)
      → All P sorted
      → All P cs
      → All P (sort_cells locale_compare sorted cs)
  unfolding sort_cells
  All-sort_cells sorted [] h k = h
  All-sort_cells sorted (c ∷ cs) h k =
      All-sort_cells (place_cell locale_compare c sorted) cs (All-place_cell c sorted k.0 h) k.1

-- A cell of the report: what it publishes is exact.
abbrev pub IsPublished : List StatisticsInput → ResidencyCell → Type 0
IsPublished rs c = c.count ≡ (if c.suppressed then none else some (number_like c.dims rs))

withheld-IsPublished :
    (rs : List StatisticsInput) (cs : List ResidencyCell)
    → All (IsExact rs) cs
    → All (IsPublished rs) (map withheld cs)
withheld-IsPublished rs [] h = tt
withheld-IsPublished rs (c ∷ cs) h = (ground (arith, h.0), withheld-IsPublished rs cs h.1)

-- For residents whose fields do not contain the null character that separates the parts of a key:
-- in every report, the count of a cell is the number of the residents with the same country, unit,
-- provider, assurance level and provisional mark as the cell, or none if the cell is suppressed.
pub cells-IsPublished :
    (locale_compare : String → String → Order) (residents : List StatisticsInput)
    (opts : AggregateOptions) (now : String)
    → All (λ (r : StatisticsInput). is_clean r ≡ true) residents
    → All (IsPublished residents) (aggregate_residency locale_compare residents opts now).cells
unfolding aggregate_residency counted_cells
cells-IsPublished locale_compare residents opts now n =
    let cells = counted_cells locale_compare residents in
    withheld-IsPublished residents _ (
      All-suppress_all (IsExact residents) (λ c h. h) (or_default opts.suppression_threshold 5)
        cells (countries_of [] cells)
        (All-sort_cells locale_compare (IsExact residents) []
          (map cell_of (Dict.values (count_all [] residents))) tt (entries-IsExact residents n)))
