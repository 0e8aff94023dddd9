-- ===== src/Identity/Links/Pending.antt =====
-- The list of a person's current links, as `merge` goes through it.
use Prim.Native.String.{compare}
use text.Mathlib.Text.{is_le}
use open_residency.Base.{
  ◌≡◌, ◌≢◌, inl, inr, refl, sym, ap, ◌∙◌, subst, Bool, true, false, ◌&&◌, ◌||◌, String, Option,
  none, some, List, [], ◌∷◌, map, arith, str_eq, Bool-cases, any, All, All-filter, filter-All,
  any-filter, filter, find,
}
use open_residency.Base.Dict
use open_residency.Base.Unique.{Finds, find_lem, found_is}
use open_residency.Base.Apart.{
  Apart, values-Apart, values_stored, Apart-filter, any-values, values-any,
}
use open_residency.Identity.Links.Types.{IdentityLink, Registry, Platform}
use open_residency.Identity.Links.Store.{
  place, oldest_first, list_by_person, is_current, is_current_for, find_current_by_identifier,
}
use open_residency.Identity.Links.Reads.{resolve_person, person_of}
use open_residency.Identity.Links.Invariant.{link_id, IsSound}
use open_residency.Identity.Links.Effects.{is_person, among}

-- The identifiers of links.
abbrev pub identifiers : List IdentityLink → List String
identifiers ls = map (λ (l : IdentityLink). l.identifier_ref) ls

All-place :
    (P : IdentityLink → Type 0) (l : IdentityLink) (qs : List IdentityLink)
    → P l
    → All P qs
    → All P (place l qs)
unfolding place
All-place P l [] h k = (h, tt)
All-place P l (q ∷ qs) h k = elim (Bool-cases (is_le (compare q.linked_at l.linked_at))) [
  | inl t ↦ rw t (k.0, All-place P l qs h k.1)
  | inr f ↦ rw f (h, k)
]

All-oldest_first :
    (P : IdentityLink → Type 0) (sorted ls : List IdentityLink)
    → All P sorted
    → All P ls
    → All P (oldest_first sorted ls)
unfolding oldest_first
All-oldest_first P sorted [] h k = h
All-oldest_first P sorted (l ∷ ls) h k =
    All-oldest_first P (place l sorted) ls (All-place P l sorted k.0 h) k.1

Apart-place :
    (l : IdentityLink) (qs : List IdentityLink)
    → All (λ (q : IdentityLink). l.id ≢ q.id) qs
    → Apart link_id qs
    → Apart link_id (place l qs)
unfolding place
Apart-place l [] h k = (tt, tt)
Apart-place l (q ∷ qs) h k = elim (Bool-cases (is_le (compare q.linked_at l.linked_at))) [
  | inl t ↦ rw t (
    All-place (λ (w : IdentityLink). q.id ≢ w.id) l qs (λ e. h.0 (sym e)) k.0,
    Apart-place l qs h.1 k.1,
  )
  | inr f ↦ rw f (h, k)
]

-- Every entry of the second list stands apart from all of the first.
abbrev Between : List IdentityLink → List IdentityLink → Type 0
Between sorted ls = All (λ (l : IdentityLink). All (λ (q : IdentityLink). l.id ≢ q.id) sorted) ls

Between-place :
    (l : IdentityLink) (sorted ls : List IdentityLink)
    → All (λ (q : IdentityLink). l.id ≢ q.id) ls
    → Between sorted ls
    → Between (place l sorted) ls
Between-place l sorted [] h k = tt
Between-place l sorted (q ∷ ls) h k = (
  All-place (λ (w : IdentityLink). q.id ≢ w.id) l sorted (λ e. h.0 (sym e)) k.0,
  Between-place l sorted ls h.1 k.1,
)

Apart-oldest_first :
    (sorted ls : List IdentityLink)
    → Apart link_id sorted
    → Apart link_id ls
    → Between sorted ls
    → Apart link_id (oldest_first sorted ls)
unfolding oldest_first
Apart-oldest_first sorted [] h k b = h
Apart-oldest_first sorted (l ∷ ls) h k b =
    Apart-oldest_first (place l sorted) ls (Apart-place l sorted b.0 h) k.1
      (Between-place l sorted ls k.0 b.1)

any-place :
    (p : IdentityLink → Bool) (l : IdentityLink) (qs : List IdentityLink)
    → any p (place l qs) ≡ (p l || any p qs)
unfolding place
any-place p l [] = refl
any-place p l (q ∷ qs) = elim (Bool-cases (is_le (compare q.linked_at l.linked_at))) [
  | inl t ↦ rw t (ground (arith, any-place p l qs))
  | inr f ↦ rw f refl
]

any-oldest_first :
    (p : IdentityLink → Bool) (sorted ls : List IdentityLink)
    → any p (oldest_first sorted ls) ≡ (any p sorted || any p ls)
unfolding oldest_first
any-oldest_first p sorted [] = ground arith
any-oldest_first p sorted (l ∷ ls) =
    ground (arith, any-oldest_first p (place l sorted) ls, any-place p l sorted)

-- The links that are ready to be moved: stored as they are, current, and no two the same.
abbrev pub IsReady : Registry → IdentityLink → Type 0
IsReady s l = (Dict.get s.links l.id ≡ some l) × (is_current l ≡ true)

nothing-Between : (ls : List IdentityLink) → Between [] ls
nothing-Between [] = tt
nothing-Between (l ∷ ls) = (tt, nothing-Between ls)

abbrev of_person : String → IdentityLink → Bool
of_person p l = str_eq l.person_ref p

any-identifiers :
    (i : String) (ls : List IdentityLink)
    → among (identifiers ls) i ≡ any (λ (l : IdentityLink). str_eq l.identifier_ref i) ls
any-identifiers i [] = refl
any-identifiers i (l ∷ ls) = ap (λ b. str_eq l.identifier_ref i || b) (any-identifiers i ls)

Bool_ext : (a b : Bool) → (a ≡ true → b ≡ true) → (b ≡ true → a ≡ true) → a ≡ b
Bool_ext true b f g = sym (f refl)
Bool_ext false true f g = g refl
Bool_ext false false f g = refl

module _ (platform : Platform) (s : Registry) (p : String) (h : IsSound platform s) where
  pub current_of_person-Apart : Apart link_id (filter is_current (list_by_person s p))
  unfolding list_by_person
  current_of_person-Apart = Apart-filter link_id is_current _ (
      Apart-oldest_first [] (filter (of_person p) (Dict.values s.links)) tt
        (Apart-filter link_id (of_person p) (Dict.values s.links)
          (values-Apart link_id s.links h.unique.distinct h.unique.own))
        (nothing-Between (filter (of_person p) (Dict.values s.links))))

  zip-IsReady :
      (ls : List IdentityLink)
      → All (λ (l : IdentityLink). Dict.get s.links l.id ≡ some l) ls
      → All (λ (l : IdentityLink). is_current l ≡ true) ls
      → All (IsReady s) ls
  zip-IsReady [] a b = tt
  zip-IsReady (l ∷ ls) a b = ((a.0, b.0), zip-IsReady ls a.1 b.1)

  pub current_of_person-IsReady : All (IsReady s) (filter is_current (list_by_person s p))
  unfolding list_by_person
  current_of_person-IsReady =
      zip-IsReady _
        (All-filter (λ (l : IdentityLink). Dict.get s.links l.id ≡ some l) is_current _
          (All-oldest_first (λ (l : IdentityLink). Dict.get s.links l.id ≡ some l) []
            (filter (of_person p) (Dict.values s.links)) tt
            (All-filter (λ (l : IdentityLink). Dict.get s.links l.id ≡ some l) (of_person p)
              (Dict.values s.links)
              (values_stored link_id s.links h.unique.distinct h.unique.own))))
        (filter-All is_current (oldest_first [] (filter (of_person p) (Dict.values s.links))))

  -- A current link of the person, for the identifier.
  abbrev wanted : String → IdentityLink → Bool
  wanted i l = of_person p l && (is_current l && str_eq l.identifier_ref i)

  values-wanted :
      (i : String)
      → among (identifiers (filter is_current (list_by_person s p))) i
        ≡ any (wanted i) (Dict.values s.links)
  unfolding list_by_person
  values-wanted i =
      any-identifiers i
        (filter is_current (oldest_first [] (filter (of_person p) (Dict.values s.links))))
      ∙ any-filter (λ (l : IdentityLink). str_eq l.identifier_ref i) is_current
          (oldest_first [] (filter (of_person p) (Dict.values s.links)))
      ∙ any-oldest_first (λ (l : IdentityLink). is_current l && str_eq l.identifier_ref i) []
          (filter (of_person p) (Dict.values s.links))
      ∙ any-filter (λ (l : IdentityLink). is_current l && str_eq l.identifier_ref i) (of_person p)
          (Dict.values s.links)

  wanted_current : (i : String) (l : IdentityLink) → wanted i l ≡ true → is_current_for i l ≡ true
  unfolding is_current_for
  wanted_current i l t = ground arith

  wanted_person : (i : String) (l : IdentityLink) → wanted i l ≡ true → str_eq l.person_ref p ≡ true
  wanted_person i l t = ground arith

  wanted_of :
      (i : String) (l : IdentityLink)
      → str_eq l.person_ref p ≡ true
      → is_current_for i l ≡ true
      → wanted i l ≡ true
  unfolding is_current_for
  wanted_of i l e t = ground arith

  -- The identifiers of a person's current links are those that the person owns.
  pub owned_identifiers :
      (i : String)
      → among (identifiers (filter is_current (list_by_person s p))) i
        ≡ is_person p (resolve_person s i)
  unfolding resolve_person find_current_by_identifier
  owned_identifiers i =
      values-wanted i
      ∙ Bool_ext (any (wanted i) (Dict.values s.links)) _ there_is (
          owned (find (is_current_for i) (Dict.values s.links))
            (find_lem link_id is_current_for s.links i h.unique))
    where
      there_is :
          any (wanted i) (Dict.values s.links) ≡ true
          → is_person p (person_of (find (is_current_for i) (Dict.values s.links))) ≡ true
      there_is e =
          let (k, l, g, t) = any-values link_id (wanted i) s.links e h.unique.distinct in
          let stored = ap (Dict.get s.links) (h.unique.own k l g) ∙ g in
          let e' =
            found_is link_id is_current_for s.links i (some l) h.unique
              (stored, wanted_current i l t) in
          subst (λ (o : Option IdentityLink). is_person p (person_of o) ≡ true) (sym e')
            (wanted_person i l t)

      owned :
          (o : Option IdentityLink)
          → Finds link_id is_current_for s.links i o
          → is_person p (person_of o) ≡ true
          → any (wanted i) (Dict.values s.links) ≡ true
      owned none f e = cc
      owned (some l) (g, t) e = values-any link_id (wanted i) s.links l.id l g (wanted_of i l e t)
