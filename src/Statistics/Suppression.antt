-- ===== src/Statistics/Suppression.antt =====
-- The suppression of cells, country by country.
use open_residency.Base.{
  ℕ, ◌+◌, ◌≡◌, ◌≤◌, inl, inr, refl, sym, subst, ◌∙◌, arith, true, false, String, Option, none, some,
  List, [], ◌∷◌, map, filter, length, str_eq, eq_iff, any, Bool-cases, Option-cases,
}
use open_residency.Statistics.Aggregate.{
  ResidencyCell, of_country, survives, suppress_small, smallest, suppress_first, suppress_one,
  suppressed_of, complement, suppress_country, suppress_all,
}

-- The group of a country in a list of cells.
abbrev pub group : String → List ResidencyCell → List ResidencyCell
group k cs = filter (of_country k) cs

abbrev pub survivors : String → List ResidencyCell → List ResidencyCell
survivors k cs = filter (survives k) cs

pub length-group :
    (k : String) (cs : List ResidencyCell)
    → length (group k cs) ≡ length (suppressed_of k cs) + length (survivors k cs)
length-group k [] = refl
length-group k (c ∷ cs) = ground (arith, length-group k cs)

survivors-none :
    (k : String) (cs : List ResidencyCell) → smallest k cs ≡ none → length (survivors k cs) ≡ 0
unfolding smallest
survivors-none k [] e = refl
survivors-none k (c ∷ cs) e = ground (arith, survivors-none k cs, Option-cases (smallest k cs))

-- Suppressing the smallest survivor suppresses one cell more.
suppressed-smallest :
    (k : String) (n : ℕ) (cs : List ResidencyCell)
    → smallest k cs ≡ some n
    → length (suppressed_of k (suppress_first k n cs)) ≡ length (suppressed_of k cs) + 1
unfolding smallest suppress_first
suppressed-smallest k n [] e = cc
suppressed-smallest k n (c ∷ cs) e =
    ground (arith, suppressed-smallest k n cs, Option-cases (smallest k cs))

pub group-suppress_first :
    (k j : String) (n : ℕ) (cs : List ResidencyCell)
    → length (group k (suppress_first j n cs)) ≡ length (group k cs)
unfolding suppress_first
group-suppress_first k j n [] = refl
group-suppress_first k j n (c ∷ cs) = ground (arith, group-suppress_first k j n cs)

-- Another country's cells stay as they are.
suppressed-other :
    (k j : String) (n : ℕ) (cs : List ResidencyCell)
    → str_eq j k ≡ false
    → length (suppressed_of k (suppress_first j n cs)) ≡ length (suppressed_of k cs)
unfolding suppress_first
suppressed-other k j n [] e = refl
suppressed-other k j n (c ∷ cs) e = ground (
  arith,
  suppressed-other k j n cs e,
  eq_iff c.dims.country_code k,
  eq_iff c.dims.country_code j,
  eq_iff j k,
)

-- No cell of the country is suppressed alone, unless it is alone.
abbrev pub IsCovered : String → List ResidencyCell → Type 0
IsCovered k cs = length (suppressed_of k cs) ≡ 1 → length (group k cs) ≡ 1

suppressed-suppress_one :
    (k : String) (cs : List ResidencyCell) (o : Option ℕ)
    → smallest k cs ≡ o
    → length (suppressed_of k cs) ≡ 1
    → 1 + 1 ≤ length (group k cs)
    → length (suppressed_of k (suppress_one k o cs)) ≡ 1 + 1
suppressed-suppress_one k cs none e one many =
    absurd (few (length-group k cs) (survivors-none k cs e))
  where
    few :
        length (group k cs) ≡ length (suppressed_of k cs) + length (survivors k cs)
        → length (survivors k cs) ≡ 0
        → ⊥
    few e z = omega arith
suppressed-suppress_one k cs (some n) e one many = omega (arith, suppressed-smallest k n cs e)

-- The complementary suppression of a country covers it.
complement-IsCovered : (k : String) (cs : List ResidencyCell) → IsCovered k (complement k cs)
unfolding complement
complement-IsCovered k cs =
    ground (arith, length-group k cs, suppressed-suppress_one k cs (smallest k cs) refl)

-- A list in which a country has the same cells, as many of them suppressed.
pub record Agrees (k : String) (cs ds : List ResidencyCell) : Type 0 where
  pub suppressed : length (suppressed_of k ds) ≡ length (suppressed_of k cs)
  pub all : length (group k ds) ≡ length (group k cs)

Agrees-suppress_one :
    (k j : String) (o : Option ℕ) (cs : List ResidencyCell)
    → str_eq j k ≡ false
    → Agrees k cs (suppress_one j o cs)
Agrees-suppress_one k j none cs e = record { suppressed = refl; all = refl }
Agrees-suppress_one k j (some n) cs e = record {
  suppressed = suppressed-other k j n cs e;
  all = group-suppress_first k j n cs;
}

Agrees-small :
    (t : ℕ) (k j : String) (cs : List ResidencyCell)
    → str_eq j k ≡ false
    → Agrees k cs (map (suppress_small t j) cs)
unfolding suppress_small
Agrees-small t k j [] e = record { suppressed = refl; all = refl }
Agrees-small t k j (c ∷ cs) e =
    let rest = Agrees-small t k j cs e in
    record {
      suppressed = ground (
        arith,
        rest.suppressed,
        eq_iff c.dims.country_code k,
        eq_iff c.dims.country_code j,
        eq_iff j k,
      );
      all =
          ground (
            arith,
            rest.all,
            eq_iff c.dims.country_code k,
            eq_iff c.dims.country_code j,
            eq_iff j k,
          );
    }

Agrees-complement :
    (k j : String) (cs : List ResidencyCell) → str_eq j k ≡ false → Agrees k cs (complement j cs)
unfolding complement
Agrees-complement k j cs e =
    let same : Agrees k cs cs = record { suppressed = refl; all = refl } in
    ground (arith, same, Agrees-suppress_one k j (smallest j cs) cs e)

IsCovered-suppress_country :
    (t : ℕ) (k j : String) (cs : List ResidencyCell)
    → IsCovered k cs
    → IsCovered k (suppress_country t cs j)
unfolding suppress_country
IsCovered-suppress_country t k j cs h = elim (Bool-cases (str_eq j k)) [
  | inl e ↦
      subst (λ (i : String). IsCovered i (complement j (map (suppress_small t j) cs)))
        ((eq_iff j k).0 e) (complement-IsCovered j (map (suppress_small t j) cs))
  | inr e ↦
      let a = Agrees-small t k j cs e in
      let b = Agrees-complement k j (map (suppress_small t j) cs) e in
      λ one. b.all ∙ a.all ∙ h (sym a.suppressed ∙ sym b.suppressed ∙ one)
]

suppress_country-IsCovered :
    (t : ℕ) (k j : String) (cs : List ResidencyCell)
    → str_eq j k ≡ true
    → IsCovered k (suppress_country t cs j)
unfolding suppress_country
suppress_country-IsCovered t k j cs e =
    subst (λ (i : String). IsCovered i (complement j (map (suppress_small t j) cs)))
      ((eq_iff j k).0 e) (complement-IsCovered j (map (suppress_small t j) cs))

IsCovered-suppress_all :
    (t : ℕ) (k : String) (cs : List ResidencyCell) (js : List String)
    → IsCovered k cs
    → IsCovered k (suppress_all t cs js)
unfolding suppress_all
IsCovered-suppress_all t k cs [] h = h
IsCovered-suppress_all t k cs (j ∷ js) h =
    IsCovered-suppress_all t k (suppress_country t cs j) js (IsCovered-suppress_country t k j cs h)

pub suppress_all-IsCovered :
    (t : ℕ) (k : String) (cs : List ResidencyCell) (js : List String)
    → any (λ (j : String). str_eq j k) js ≡ true
    → IsCovered k (suppress_all t cs js)
unfolding suppress_all
suppress_all-IsCovered t k cs [] m = cc
suppress_all-IsCovered t k cs (j ∷ js) m = elim (Bool-cases (str_eq j k)) [
  | inl e ↦
      IsCovered-suppress_all t k (suppress_country t cs j) js
        (suppress_country-IsCovered t k j cs e)
  | inr e ↦ suppress_all-IsCovered t k (suppress_country t cs j) js (tail e m)
]
  where
    tail :
        str_eq j k ≡ false
        → any (λ (i : String). str_eq i k) (j ∷ js) ≡ true
        → any (λ (i : String). str_eq i k) js ≡ true
    tail e m = ground arith
