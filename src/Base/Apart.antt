-- ===== src/Base/Apart.antt =====
-- Lists of values under different keys.
use mathlib.Core.Path.{◌≡◌, sym, ap, ◌∙◌}
use mathlib.Core.Logic.{◌≢◌, inl, inr}
use mathlib.Core.Bool.{Bool, true}
use mathlib.Core.Option.{none, some}
use native.Mathlib.Omega.{arith}
use text.Mathlib.TextEquality.{eq_iff}
use Prim.Native.String.{String}
use open_residency.Base.Tests.{Bool-cases}
use open_residency.Base.Lists.{filter, any, All, All-map, All-filter}
use mathlib.Core.List.{List, [], ◌∷◌, map}
use open_residency.Base.Dict
use open_residency.Base.Dict.{
  Dict, Distinct, Distinct-put, get-put, find-values-some, find-values-none, str_eq_refl,
}

-- No string twice.
abbrev pub AllApart : List String → Type 0
AllApart [] = Unit
AllApart (k ∷ ks) = All (λ j. k ≢ j) ks × AllApart ks

-- The values as a list: each stands under its own key, and no key twice.
module _ {V : Type 0} (key : V → String) where
  abbrev pub Apart : List V → Type 0
  Apart [] = Unit
  Apart (v ∷ vs) = All (λ w. key v ≢ key w) vs × Apart vs

  weaken :
      (m : Dict V) (j k : String) (v w : V)
      → Dict.get m j ≡ none
      → Dict.get m k ≡ some w
      → (Dict.get ((j, v) ∷ m) k ≡ some w) × (j ≢ k)
  unfolding Dict.get
  weaken m j k v w n g = (ground (arith, eq_iff j k), λ e. clash (sym n ∙ ap (Dict.get m) e ∙ g))
    where
      clash : (none ≡ some w) → ⊥
      clash e = cc

  head_get : (m : Dict V) (j : String) (v : V) → Dict.get ((j, v) ∷ m) j ≡ some v
  unfolding Dict.get
  head_get m j v = ground (arith, str_eq_refl j)

  abbrev UnderKey : Dict V → V → Type 0
  UnderKey m w = (k : String) × (Dict.get m k ≡ some w)

  under_keys : (m : Dict V) → Distinct m → All (UnderKey m) (Dict.values m)
  under_keys [] d = tt
  under_keys ((j, v) ∷ m) d = (
    (j, head_get m j v),
    All-map (UnderKey m) (UnderKey ((j, v) ∷ m)) (Dict.values m)
        (λ w (k, g). (k, (weaken m j k v w d.0 g).0)) (under_keys m d.1),
  )

  pub values-Apart :
      (m : Dict V)
      → Distinct m
      → ((k : String) (v : V) → Dict.get m k ≡ some v → key v ≡ k)
      → Apart (Dict.values m)
  values-Apart [] d own = tt
  values-Apart ((j, v) ∷ m) d own = (
    All-map (UnderKey m) (λ w. key v ≢ key w) (Dict.values m)
        (λ w (k, g) e.
          let (g', n) = weaken m j k v w d.0 g in
          n (sym (own j v (head_get m j v)) ∙ e ∙ own k w g'))
        (under_keys m d.1),
    values-Apart m d.1 (λ k w g. own k w (weaken m j k v w d.0 g).0),
  )

  pub values_stored :
      (m : Dict V)
      → Distinct m
      → ((k : String) (v : V) → Dict.get m k ≡ some v → key v ≡ k)
      → All (λ v. Dict.get m (key v) ≡ some v) (Dict.values m)
  values_stored m d own =
      All-map (UnderKey m) (λ v. Dict.get m (key v) ≡ some v) (Dict.values m)
        (λ v (k, g). ap (Dict.get m) (own k v g) ∙ g) (under_keys m d)

  pub Apart-filter : (p : V → Bool) (vs : List V) → Apart vs → Apart (filter p vs)
  Apart-filter p [] h = tt
  Apart-filter p (v ∷ vs) h = elim (Bool-cases (p v)) [
    | inl t ↦ rw t (All-filter (λ w. key v ≢ key w) p vs h.0, Apart-filter p vs h.1)
    | inr f ↦ rw f (Apart-filter p vs h.1)
  ]

  pub any-values :
      (p : V → Bool) (m : Dict V)
      → any p (Dict.values m) ≡ true
      → Distinct m
      → (k : String) × (v : V) × (Dict.get m k ≡ some v) × (p v ≡ true)
  any-values p [] e d = cc
  any-values p ((j, v) ∷ m) e d = elim (Bool-cases (p v)) [
    | inl t ↦ (j, v, head_get m j v, t)
    | inr f ↦
        let (k, w, g, t) = any-values p m (rw f at e) d.1 in (k, w, (weaken m j k v w d.0 g).0, t)
  ]

  pub values-any :
      (p : V → Bool) (m : Dict V) (k : String) (v : V)
      → Dict.get m k ≡ some v
      → p v ≡ true
      → any p (Dict.values m) ≡ true
  unfolding Dict.get
  values-any p [] k v g t = cc
  values-any p ((j, w) ∷ m) k v g t = ground (arith, values-any p m k v)

  -- The same, of the list of keys.
  key_apart :
      (k : String) (vs : List V)
      → All (λ (w : V). k ≢ key w) vs
      → All (λ (j : String). k ≢ j) (map key vs)
  key_apart k [] h = tt
  key_apart k (v ∷ vs) h = (h.0, key_apart k vs h.1)

  apart_key :
      (k : String) (vs : List V)
      → All (λ (j : String). k ≢ j) (map key vs)
      → All (λ (w : V). k ≢ key w) vs
  apart_key k [] h = tt
  apart_key k (v ∷ vs) h = (h.0, apart_key k vs h.1)

  pub keys_Apart : (vs : List V) → Apart vs → AllApart (map key vs)
  keys_Apart [] h = tt
  keys_Apart (v ∷ vs) h = (key_apart (key v) vs h.0, keys_Apart vs h.1)

  pub of_keys_Apart : (vs : List V) → AllApart (map key vs) → Apart vs
  of_keys_Apart [] h = tt
  of_keys_Apart (v ∷ vs) h = (apart_key (key v) vs h.0, of_keys_Apart vs h.1)
