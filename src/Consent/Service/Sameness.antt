-- ===== src/Consent/Service/Sameness.antt =====
-- What `sameScopes` tells of two lists: it compares their items sorted and joined by spaces.
use Prim.Native.Char.{Char}
use text.Mathlib.TextLemmas.{nil-append, cons-append}
use open_residency.Base.{
  ℕ, suc, ◌≡◌, refl, sym, ap, ◌∙◌, arith, ◌⊎◌, inl, inr, Bool, true, false, ◌&&◌, ◌||◌, not, String,
  List, [], ◌∷◌, ◌&◌, if◌then◌else◌, str_eq, eq_iff, Bool-cases, any, truthy,
}
use open_residency.Base.Separated.{lacks, cut_unique, lacks-cut}
use open_residency.Consent.Service.Types.{insert, sort, join, same_scopes}

abbrev space : Char
space = " "

-- Is the item empty, or does it contain a space?
abbrev pub spaced : String → Bool
spaced x = not (truthy x && lacks space x)

-- How often an item occurs.
abbrev pub occurrences : String → List String → ℕ
occurrences x [] = 0
occurrences x (y ∷ ys) = if str_eq y x then suc (occurrences x ys) else occurrences x ys

occurrences-insert :
    (x y : String) (ys : List String) → occurrences x (insert y ys) ≡ occurrences x (y ∷ ys)
unfolding insert
occurrences-insert x y [] = refl
occurrences-insert x y (z ∷ zs) = ground (arith, occurrences-insert x y zs)

occurrences-sort : (x : String) (ys : List String) → occurrences x (sort ys) ≡ occurrences x ys
unfolding sort
occurrences-sort x [] = refl
occurrences-sort x (y ∷ ys) =
    occurrences-insert x y (sort ys) ∙ ground (arith, occurrences-sort x ys)

any-insert :
    (p : String → Bool) (y : String) (ys : List String) → any p (insert y ys) ≡ (p y || any p ys)
unfolding insert
any-insert p y [] = refl
any-insert p y (z ∷ zs) = ground (arith, any-insert p y zs)

any-sort : (p : String → Bool) (ys : List String) → any p (sort ys) ≡ any p ys
unfolding sort
any-sort p [] = refl
any-sort p (y ∷ ys) = any-insert p y (sort ys) ∙ ap (λ b. p y || b) (any-sort p ys)

space_append : (t : String) → (" " & t) ≡ String.◌∷◌ space t
space_append t = cons-append space String.[] t ∙ ap (String.◌∷◌ space) (nil-append t)

truthy-append : (s t : String) → truthy s ≡ true → truthy (s & t) ≡ true
truthy-append String.[] t h = absurd (never h)
  where
    never : false ≡ true → ⊥
    never e = cc
truthy-append (String.◌∷◌ c s) t h = ap truthy (cons-append c s t)

truthy-join : (y : String) (ys : List String) → spaced y ≡ false → truthy (join (y ∷ ys)) ≡ true
unfolding join
truthy-join y [] h = ground (arith, h)
truthy-join y (z ∷ zs) h = truthy-append y (" " & join (z ∷ zs)) (ground (arith, h))

-- An item without a space is not several items joined.
not_joined : (x y t : String) → spaced x ≡ false → x ≡ (y & " " & t) → ⊥
not_joined x y t h e =
    clash (ap (lacks space) (e ∙ ap (◌&◌ y) (space_append t)) ∙ lacks-cut space y t)
  where
    clash : lacks space x ≡ false → ⊥
    clash f = ground (arith, h, f)

not_blank : (y : String) (ys : List String) → spaced y ≡ false → truthy (join (y ∷ ys)) ≡ false → ⊥
not_blank y ys h e = ground (arith, truthy-join y ys h, e)

join_unique :
    (xs ys : List String)
    → any spaced xs ≡ false
    → any spaced ys ≡ false
    → join xs ≡ join ys
    → xs ≡ ys
unfolding join
join_unique [] [] h k e = refl
join_unique [] (y ∷ ys) h k e = absurd (not_blank y ys (ground (arith, k)) (sym (ap truthy e)))
join_unique (x ∷ xs) [] h k e = absurd (not_blank x xs (ground (arith, h)) (ap truthy e))
join_unique (x ∷ []) (y ∷ []) h k e = ap (λ z. z ∷ []) e
join_unique (x ∷ []) (y ∷ z ∷ zs) h k e =
    absurd (not_joined x y (join (z ∷ zs)) (ground (arith, h)) e)
join_unique (x ∷ w ∷ ws) (y ∷ []) h k e =
    absurd (not_joined y x (join (w ∷ ws)) (ground (arith, k)) (sym e))
join_unique (x ∷ w ∷ ws) (y ∷ z ∷ zs) h k e =
    let (p, q) =
      cut_unique space x y (join (w ∷ ws)) (join (z ∷ zs)) (ground (arith, h)) (ground (arith, k)) (
        sym (ap (◌&◌ x) (space_append (join (w ∷ ws))))
        ∙ e
        ∙ ap (◌&◌ y) (space_append (join (z ∷ zs)))) in
    cc (p, join_unique (w ∷ ws) (z ∷ zs) (ground (arith, h)) (ground (arith, k)) q)

-- Two lists have the same items, each as often, or an item is empty or contains a space.
abbrev pub SameItems : List String → List String → Type 0
SameItems xs ys =
    ((any spaced xs || any spaced ys) ≡ true) ⊎ ((x : String) → occurrences x xs ≡ occurrences x ys)

pub same_scopes-joined :
    (xs ys : List String) → same_scopes xs ys ≡ true → join (sort xs) ≡ join (sort ys)
unfolding same_scopes
same_scopes-joined xs ys h = ground (arith, h, eq_iff (join (sort xs)) (join (sort ys)))

occurs_alike :
    (xs ys : List String)
    → any spaced xs ≡ false
    → any spaced ys ≡ false
    → join (sort xs) ≡ join (sort ys)
    → (x : String) → occurrences x xs ≡ occurrences x ys
occurs_alike xs ys h k e x =
    sym (occurrences-sort x xs)
    ∙ ap (occurrences x)
        (join_unique (sort xs) (sort ys) (any-sort spaced xs ∙ h) (any-sort spaced ys ∙ k) e)
    ∙ occurrences-sort x ys

pub same_scopes-SameItems : (xs ys : List String) → same_scopes xs ys ≡ true → SameItems xs ys
same_scopes-SameItems xs ys h = elim (Bool-cases (any spaced xs || any spaced ys)) [
  | inl t ↦ inl t
  | inr f ↦
      inr (occurs_alike xs ys (ground (arith, f)) (ground (arith, f)) (same_scopes-joined xs ys h))
]
