-- ===== src/Statistics/Dimensions.antt =====
-- The key of a cell and the dimensions that it stands for.
use Prim.Native.Char.{Char}
use text.Mathlib.TextLemmas.{nil-append, cons-append}
use open_residency.Base.{
  ℕ, suc, ◌≡◌, refl, sym, ap, ◌∙◌, arith, Bool, true, false, ◌&&◌, not, String, List, [], ◌∷◌, ◌&◌,
  if◌then◌else◌, str_eq, eq_iff, Bool-cases, inl, inr,
}
use open_residency.Base.Separated.{lacks, cut_unique}
use open_residency.Statistics.Aggregate.{StatisticsInput, cell_key, bool_word}

abbrev nul : Char
nul = "\0"

-- Does no field contain the separator of keys?
abbrev pub is_clean : StatisticsInput → Bool
is_clean r =
    lacks nul r.country_code
    && lacks nul r.subnational_unit
    && lacks nul r.provider_code
    && lacks nul r.assurance_level

abbrev same_bool : Bool → Bool → Bool
same_bool true b = b
same_bool false b = not b

-- Do the five dimensions agree?
abbrev pub same_dims : StatisticsInput → StatisticsInput → Bool
same_dims r d =
    str_eq r.country_code d.country_code
    && str_eq r.subnational_unit d.subnational_unit
    && str_eq r.provider_code d.provider_code
    && str_eq r.assurance_level d.assurance_level
    && same_bool r.provisional d.provisional

-- How many residents have the dimensions.
abbrev pub number_like : StatisticsInput → List StatisticsInput → ℕ
number_like d [] = 0
number_like d (r ∷ rs) = if same_dims r d then suc (number_like d rs) else number_like d rs

sep_append : (x : String) → ("\0" & x) ≡ String.◌∷◌ nul x
sep_append x = cons-append nul String.[] x ∙ ap (String.◌∷◌ nul) (nil-append x)

field_cut :
    (a a' x x' : String)
    → lacks nul a ≡ true
    → lacks nul a' ≡ true
    → (a & "\0" & x) ≡ (a' & "\0" & x')
    → (a ≡ a') × (x ≡ x')
field_cut a a' x x' h h' e =
    cut_unique nul a a' x x' h h'
      (sym (ap (◌&◌ a) (sep_append x)) ∙ e ∙ ap (◌&◌ a') (sep_append x'))

bool_word_unique : (a b : Bool) → bool_word a ≡ bool_word b → same_bool a b ≡ true
bool_word_unique true true e = refl
bool_word_unique false false e = refl
bool_word_unique true false e = (eq_iff "true" "false").1 e
bool_word_unique false true e = (eq_iff "false" "true").1 e

same_bool_eq : (a b : Bool) → same_bool a b ≡ true → a ≡ b
same_bool_eq true b e = sym e
same_bool_eq false b e = ground (arith, e)

key_same :
    (r d : StatisticsInput)
    → is_clean r ≡ true
    → is_clean d ≡ true
    → cell_key r ≡ cell_key d
    → same_dims r d ≡ true
unfolding cell_key
key_same r d h k e =
    let (p1, e1) =
      field_cut r.country_code d.country_code _ _ (ground (arith, h)) (ground (arith, k)) e in
    let (p2, e2) =
      field_cut r.subnational_unit d.subnational_unit _ _ (ground (arith, h)) (ground (arith, k))
        e1 in
    let (p3, e3) =
      field_cut r.provider_code d.provider_code _ _ (ground (arith, h)) (ground (arith, k)) e2 in
    let (p4, e4) =
      field_cut r.assurance_level d.assurance_level _ _ (ground (arith, h)) (ground (arith, k))
        e3 in
    rw ((eq_iff _ _).1 p1, (eq_iff _ _).1 p2, (eq_iff _ _).1 p3, (eq_iff _ _).1 p4)
      (bool_word_unique r.provisional d.provisional e4)

same_key : (r d : StatisticsInput) → same_dims r d ≡ true → cell_key r ≡ cell_key d
unfolding cell_key
same_key r d h =
    let p1 : r.country_code ≡ d.country_code =
      ground (arith, eq_iff r.country_code d.country_code, h) in
    let p2 : r.subnational_unit ≡ d.subnational_unit =
      ground (arith, eq_iff r.subnational_unit d.subnational_unit, h) in
    let p3 : r.provider_code ≡ d.provider_code =
      ground (arith, eq_iff r.provider_code d.provider_code, h) in
    let p4 : r.assurance_level ≡ d.assurance_level =
      ground (arith, eq_iff r.assurance_level d.assurance_level, h) in
    let p5 : r.provisional ≡ d.provisional =
      same_bool_eq r.provisional d.provisional (ground (arith, h)) in
    rw (p1, p2, p3, p4, p5) refl

-- Where no field contains the separator, keys agree exactly when the dimensions do.
pub str_eq-cell_key :
    (r d : StatisticsInput)
    → is_clean r ≡ true
    → is_clean d ≡ true
    → str_eq (cell_key r) (cell_key d) ≡ same_dims r d
str_eq-cell_key r d h k = elim (Bool-cases (same_dims r d)) [
  | inl t ↦ rw t ((eq_iff (cell_key r) (cell_key d)).1 (same_key r d t))
  | inr f ↦ elim (Bool-cases (str_eq (cell_key r) (cell_key d))) [
    | inl t ↦ absurd (never (key_same r d h k ((eq_iff (cell_key r) (cell_key d)).0 t)) f)
    | inr g ↦ g ∙ sym f
  ]
]
  where
    never : {b : Bool} → b ≡ true → b ≡ false → ⊥
    never t f = cc
