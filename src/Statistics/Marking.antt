-- ===== src/Statistics/Marking.antt =====
-- What stays true of every cell, however cells are suppressed.
use open_residency.Base.{
  ℕ, ◌==◌, inl, inr, arith, true, ◌&&◌, String, Option, none, some, List, [], ◌∷◌, map, ltb,
  Bool-cases, All,
}
use open_residency.Statistics.Aggregate.{
  ResidencyCell, count_or_zero, of_country, survives, suppress_small, smallest, suppress_first,
  suppress_one, complement, suppress_country, suppress_all,
}

abbrev marked : ResidencyCell → ResidencyCell
marked c = record c { suppressed = true }

module _ (P : ResidencyCell → Type 0) (keep : (c : ResidencyCell) → P c → P (marked c)) where
  pub All-suppress_small :
      (t : ℕ) (j : String) (cs : List ResidencyCell)
      → All P cs
      → All P (map (suppress_small t j) cs)
  unfolding suppress_small
  All-suppress_small t j [] h = tt
  All-suppress_small t j (c ∷ cs) h =
      elim (Bool-cases (of_country j c && ltb (count_or_zero c) t)) [
        | inl e ↦ rw e (keep c h.0, All-suppress_small t j cs h.1)
        | inr e ↦ rw e (h.0, All-suppress_small t j cs h.1)
      ]

  All-suppress_first :
      (j : String) (n : ℕ) (cs : List ResidencyCell) → All P cs → All P (suppress_first j n cs)
  unfolding suppress_first
  All-suppress_first j n [] h = tt
  All-suppress_first j n (c ∷ cs) h = elim (Bool-cases (survives j c && count_or_zero c == n)) [
    | inl e ↦ rw e (keep c h.0, h.1)
    | inr e ↦ rw e (h.0, All-suppress_first j n cs h.1)
  ]

  All-suppress_one :
      (j : String) (o : Option ℕ) (cs : List ResidencyCell) → All P cs → All P (suppress_one j o cs)
  All-suppress_one j none cs h = h
  All-suppress_one j (some n) cs h = All-suppress_first j n cs h

  pub All-complement : (j : String) (cs : List ResidencyCell) → All P cs → All P (complement j cs)
  unfolding complement
  All-complement j cs h = ground (arith, h, All-suppress_one j (smallest j cs) cs h)

  pub All-suppress_all :
      (t : ℕ) (cs : List ResidencyCell) (js : List String) → All P cs → All P (suppress_all t cs js)
  unfolding suppress_all suppress_country
  All-suppress_all t cs [] h = h
  All-suppress_all t cs (j ∷ js) h =
      All-suppress_all t (suppress_country t cs j) js
        (All-complement j (map (suppress_small t j) cs) (All-suppress_small t j cs h))
