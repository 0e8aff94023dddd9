-- ===== src/Base/Dict.antt =====
-- A `Map` with string keys, in the order of insertion: a write to a key that is there keeps its place.
use mathlib.Core.Path.{◌≡◌, refl, sym, ap, ◌∙◌}
use mathlib.Core.Bool.{Bool, true, false}
use mathlib.Core.Logic.{inl, inr}
use mathlib.Core.Option.{Option, none, some}
use mathlib.Core.List.{List, [], ◌∷◌}
use native.Mathlib.Omega.{arith}
use text.Mathlib.TextEquality.{eq_iff}
use Prim.Native.String.{String}
use open_residency.Base.Tests.{if◌then◌else◌, Bool-cases}
use open_residency.Base.Lists.{find}
use open_residency.Base.Text.{str_eq}

abbrev pub Dict {ℓ} : Type ℓ → Type ℓ
Dict V = List (String × V)

pub str_eq_refl : (s : String) → str_eq s s ≡ true
str_eq_refl s = (eq_iff s s).1 refl

module _ {ℓ} {V : Type ℓ} where
  -- `m.get(k)`
  unfoldable pub get : Dict V → String → Option V
  get [] k = none
  get ((j, v) ∷ m) k = let rest = get m k in if str_eq j k then some v else rest

  -- `m.set(k, v)`
  unfoldable pub put : Dict V → String → V → Dict V
  put [] k v = (k, v) ∷ []
  put ((j, w) ∷ m) k v = let rest = put m k v in if str_eq j k then (k, v) ∷ m else (j, w) ∷ rest

  -- `m.delete(k)`
  unfoldable pub delete : Dict V → String → Dict V
  delete [] k = []
  delete ((j, v) ∷ m) k = let rest = delete m k in if str_eq j k then rest else (j, v) ∷ rest

  -- `[...m.values()]`
  abbrev pub values : Dict V → List V
  values [] = []
  values ((j, v) ∷ m) = v ∷ values m

  pub get-put :
      (m : Dict V) (k j : String) (v : V)
      → get (put m k v) j ≡ (if str_eq k j then some v else get m j)
  unfolding get put
  get-put [] k j v = refl
  get-put ((i, w) ∷ m) k j v = ground (arith, eq_iff k j, eq_iff i k, eq_iff i j, get-put m k j v)

  pub get-delete :
      (m : Dict V) (k j : String) → get (delete m k) j ≡ (if str_eq k j then none else get m j)
  unfolding get delete
  get-delete [] k j = ground arith
  get-delete ((i, w) ∷ m) k j = ground (arith, eq_iff k j, eq_iff i k, eq_iff i j, get-delete m k j)

module _ {ℓ} {V : Type ℓ} where
  -- No key stands twice: what `put` keeps, and what lets an entry be looked up again.
  abbrev pub Distinct : Dict V → Type ℓ
  Distinct [] = Unit
  Distinct ((k, v) ∷ m) = (get m k ≡ none) × Distinct m

  pub Distinct-put : (m : Dict V) (k : String) (v : V) → Distinct m → Distinct (put m k v)
  unfolding put get
  Distinct-put [] k v d = (refl, tt)
  Distinct-put ((j, w) ∷ m) k v d = elim (Bool-cases (str_eq j k)) [
    | inl e ↦ rw e (ap (get m) (sym ((eq_iff j k).0 e)) ∙ d.0, d.1)
    | inr n ↦ rw n (get-put m k j v ∙ other j k m n d.0, Distinct-put m k v d.1)
  ]
    where
      other :
          (j k : String) (m : Dict V)
          → str_eq j k ≡ false
          → get m j ≡ none
          → (if str_eq k j then some v else get m j) ≡ none
      other j k m n e = ground (arith, eq_iff j k, eq_iff k j)

  -- What a search through the values finds stands under some key.
  pub find-values-some :
      (p : V → Bool) (m : Dict V) (v : V)
      → Distinct m
      → find p (values m) ≡ some v
      → (k : String) × (get m k ≡ some v) × (p v ≡ true)
  unfolding get
  find-values-some p [] v d e = cc
  find-values-some p ((j, w) ∷ m) v d e = elim (Bool-cases (p w)) [
    | inl t ↦ (j, ground (arith, str_eq_refl j), ground arith)
    | inr f ↦
        let (k, g, h) = find-values-some p m v d.1 (rw f at e) in
        (k, ground (arith, eq_iff j k, d), h)
  ]

  pub find-values-none :
      (p : V → Bool) (m : Dict V) (k : String) (v : V)
      → find p (values m) ≡ none
      → get m k ≡ some v
      → p v ≡ false
  unfolding get
  find-values-none p [] k v e g = cc
  find-values-none p ((j, w) ∷ m) k v e g = ground (arith, find-values-none p m k v)
