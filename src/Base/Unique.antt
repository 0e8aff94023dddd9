-- ===== src/Base/Unique.antt =====
-- A `Map` of values that carry their own key, where for each class of a family of tests at most one
-- value passes: the current link of an identifier, the active consent of a pair.
use mathlib.Core.Path.{◌≡◌, refl, sym, ap, ◌∙◌}
use mathlib.Core.Logic.{◌≢◌, ◌⊎◌, inl, inr}
use mathlib.Core.Bool.{Bool, true, false}
use mathlib.Core.Option.{Option, none, some}
use native.Mathlib.Omega.{arith}
use text.Mathlib.TextEquality.{eq_iff}
use Prim.Native.String.{String}
use open_residency.Base.Tests.{if◌then◌else◌, Bool-cases}
use open_residency.Base.Lists.{find}
use open_residency.Base.Text.{str_eq}
use open_residency.Base.Dict
use open_residency.Base.Dict.{
  Dict, Distinct, Distinct-put, get-put, find-values-some, find-values-none, str_eq_refl,
}

module _ {V C : Type 0} (key : V → String) (holds : C → V → Bool) where
  pub record IsUnique (m : Dict V) : Type 0 where
    pub distinct : Distinct m
    pub own : (k : String) (v : V) → Dict.get m k ≡ some v → key v ≡ k
    pub one :
        (c : C) (k j : String) (v w : V)
        → Dict.get m k ≡ some v
        → Dict.get m j ≡ some w
        → holds c v ≡ true
        → holds c w ≡ true
        → k ≡ j

  -- What a lookup gives after a write of `u` under its key.
  abbrev pub Written : Dict V → V → String → V → Type 0
  Written m u k v = ((key u ≡ k) × (v ≡ u)) ⊎ ((key u ≢ k) × (Dict.get m k ≡ some v))

  pub written :
      (m : Dict V) (u : V) (k : String) (v : V)
      → Dict.get (Dict.put m (key u) u) k ≡ some v
      → Written m u k v
  written m u k v e = ground (arith, get-put m (key u) k u, eq_iff (key u) k)

  module _ (m : Dict V) (u : V) (h : IsUnique m)
      (alone : (c : C) (k : String) (v : V)
        → Dict.get m k ≡ some v
        → holds c u ≡ true
        → holds c v ≡ true
        → key u ≡ k) where
    one_after :
        (c : C) (k j : String) (v w : V)
        → Written m u k v
        → Written m u j w
        → holds c v ≡ true
        → holds c w ≡ true
        → k ≡ j
    one_after c k j v w (inl (a, _)) (inl (b, _)) hv hw = sym a ∙ b
    one_after c k j v w (inl (a, e)) (inr (_, g)) hv hw =
        sym a ∙ alone c j w g (ap (holds c) (sym e) ∙ hv) hw
    one_after c k j v w (inr (_, g)) (inl (b, e)) hv hw =
        sym (alone c k v g (ap (holds c) (sym e) ∙ hw) hv) ∙ b
    one_after c k j v w (inr (_, f)) (inr (_, g)) hv hw = h.one c k j v w f g hv hw

    own_after : (k : String) (v : V) → Written m u k v → key v ≡ k
    own_after k v (inl (a, e)) = ap key e ∙ a
    own_after k v (inr (_, g)) = h.own k v g

    -- Writing a value beside which no other passes a test that it passes.
    pub put-IsUnique : IsUnique (Dict.put m (key u) u)
    put-IsUnique = record {
      distinct = Distinct-put m (key u) u h.distinct;
      own = λ k v e. own_after k v (written m u k v e);
      one = λ c k j v w e f. one_after c k j v w (written m u k v e) (written m u j w f);
    }

  -- Rewriting a value that is there, with no test passed that was not before.
  pub update-IsUnique :
      (m : Dict V) (v u : V)
      → IsUnique m
      → Dict.get m (key v) ≡ some v
      → key u ≡ key v
      → ((c : C) → holds c u ≡ true → holds c v ≡ true)
      → IsUnique (Dict.put m (key u) u)
  update-IsUnique m v u h g i p =
      put-IsUnique m u h (λ c k w f hu hw. i ∙ h.one c (key v) k v w g f (p c hu) hw)

  -- What a search for the one value of a class finds: it is stored under its key and passes, or
  -- nothing passes.
  abbrev pub Finds : Dict V → C → Option V → Type 0
  Finds m c none = (k : String) (v : V) → Dict.get m k ≡ some v → holds c v ≡ false
  Finds m c (some v) = (Dict.get m (key v) ≡ some v) × (holds c v ≡ true)

  find-Finds :
      (m : Dict V) (c : C) (o : Option V)
      → IsUnique m
      → find (holds c) (Dict.values m) ≡ o
      → Finds m c o
  find-Finds m c none h e = λ k v g. find-values-none (holds c) m k v e g
  find-Finds m c (some v) h e =
      let (k, g, t) = find-values-some (holds c) m v h.distinct e in
      (ap (Dict.get m) (h.own k v g) ∙ g, t)

  pub find_lem : (m : Dict V) (c : C) → IsUnique m → Finds m c (find (holds c) (Dict.values m))
  find_lem m c h = find-Finds m c (find (holds c) (Dict.values m)) h refl

  -- A search has one answer.
  pub Finds-unique :
      (m : Dict V) (c : C) (o p : Option V) → IsUnique m → Finds m c o → Finds m c p → o ≡ p
  Finds-unique m c none none h f g = refl
  Finds-unique m c none (some w) h f (g, t) = absurd (false_true (sym (f (key w) w g) ∙ t))
    where
      false_true : (false ≡ true) → ⊥
      false_true e = cc
  Finds-unique m c (some v) none h (f, t) g = absurd (false_true (sym (g (key v) v f) ∙ t))
    where
      false_true : (false ≡ true) → ⊥
      false_true e = cc
  Finds-unique m c (some v) (some w) h (f, s) (g, t) =
      sym f ∙ ap (Dict.get m) (h.one c (key v) (key w) v w f g s t) ∙ g

  pub found_is :
      (m : Dict V) (c : C) (o : Option V)
      → IsUnique m
      → Finds m c o
      → find (holds c) (Dict.values m) ≡ o
  found_is m c o h f = Finds-unique m c (find (holds c) (Dict.values m)) o h (find_lem m c h) f

  abbrev pub without : String → Option V → Option V
  without k none = none
  without k (some v) = if str_eq (key v) k then none else some v

  without-Finds :
      (m : Dict V) (u : V) (c : C) (o : Option V)
      → IsUnique m
      → Finds m c o
      → holds c u ≡ false
      → Finds (Dict.put m (key u) u) c (without (key u) o)
  without-Finds m u c none h f n = λ k v g. nothing k v (f k v) g
    where
      nothing :
          (k : String) (v : V)
          → (Dict.get m k ≡ some v → holds c v ≡ false)
          → Dict.get (Dict.put m (key u) u) k ≡ some v
          → holds c v ≡ false
      nothing k v f g = ground (arith, get-put m (key u) k u)
  without-Finds m u c (some v) h (g, t) n = elim (Bool-cases (str_eq (key v) (key u))) [
    | inl e ↦ rw e (λ k w f. gone k w (h.one c (key v) k v w g) f ((eq_iff (key v) (key u)).0 e))
    | inr e ↦ rw e (
      ground (arith, get-put m (key u) (key v) u, eq_iff (key u) (key v), eq_iff (key v) (key u)),
      t,
    )
  ]
    where
      gone :
          (k : String) (w : V)
          → (Dict.get m k ≡ some w → holds c v ≡ true → holds c w ≡ true → key v ≡ k)
          → Dict.get (Dict.put m (key u) u) k ≡ some w
          → key v ≡ key u
          → holds c w ≡ false
      gone k w same f e =
          ground (arith, get-put m (key u) k u, eq_iff (key u) k, Bool-cases (holds c w))

  -- The search after a write: the value written, if it passes, or else what was found before, unless
  -- that was overwritten.
  pub find-put :
      (m : Dict V) (u : V) (c : C)
      → IsUnique m
      → IsUnique (Dict.put m (key u) u)
      → find (holds c) (Dict.values (Dict.put m (key u) u))
        ≡ (if holds c u then some u else without (key u) (find (holds c) (Dict.values m)))
  find-put m u c h h' = elim (Bool-cases (holds c u)) [
    | inl t ↦ rw t (found_is (Dict.put m (key u) u) c (some u) h' (stored, t))
    | inr n ↦ rw n (
        found_is (Dict.put m (key u) u) c (without (key u) (find (holds c) (Dict.values m))) h'
          (without-Finds m u c (find (holds c) (Dict.values m)) h (find_lem m c h) n))
  ]
    where
      stored : Dict.get (Dict.put m (key u) u) (key u) ≡ some u
      stored = ground (arith, get-put m (key u) (key u) u, str_eq_refl (key u))

  -- Leaving out a key whose value does not pass leaves the answer of a search.
  pub without_other :
      (m : Dict V) (c : C) (k : String) (o : Option V)
      → Finds m c o
      → ((v : V) → Dict.get m k ≡ some v → holds c v ≡ false)
      → without k o ≡ o
  without_other m c k none f n = refl
  without_other m c k (some v) (g, t) n = elim (Bool-cases (str_eq (key v) k)) [
    | inr e ↦ rw e refl
    | inl e ↦
        absurd (false_true (sym (n v (ap (Dict.get m) (sym ((eq_iff (key v) k).0 e)) ∙ g)) ∙ t))
  ]
    where
      false_true : (false ≡ true) → ⊥
      false_true e = cc
