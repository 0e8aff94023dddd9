-- ===== src/Consent/Service/Invariant/Writes.antt =====
-- Writes that keep the invariant: changing a record that is there, and adding one.
use open_residency.Base.{◌≡◌, ◌≢◌, ◌⊎◌, inl, inr, sym, ◌∙◌, ap, String, some, arith, eq_iff}
use open_residency.Base.Dict
use open_residency.Base.Dict.{Distinct, Distinct-put, get-put}
use open_residency.Consent.Service.Types.{ConsentRecord, Store, update}
use open_residency.Consent.Service.Invariant.Defs.{IsActive, SamePair, Inv}

-- What a lookup gives after a write of `u`.
pub written :
    (s : Store) (u : ConsentRecord) (k : String) (q : ConsentRecord)
    → Dict.get (Dict.put s u.id u) k ≡ some q
    → ((u.id ≡ k) × (q ≡ u)) ⊎ ((u.id ≢ k) × (Dict.get s k ≡ some q))
written s u k q e = ground (arith, get-put s u.id k u, eq_iff u.id k)

module _ (s : Store) (u : ConsentRecord) (h : Inv s)
    (alone : (k : String) (q : ConsentRecord)
      → Dict.get s k ≡ some q
      → IsActive u
      → IsActive q
      → SamePair u q
      → u.id ≡ k) where
  one_after :
      (k j : String) (r q : ConsentRecord)
      → ((u.id ≡ k) × (r ≡ u)) ⊎ ((u.id ≢ k) × (Dict.get s k ≡ some r))
      → ((u.id ≡ j) × (q ≡ u)) ⊎ ((u.id ≢ j) × (Dict.get s j ≡ some q))
      → IsActive r
      → IsActive q
      → SamePair r q
      → k ≡ j
  one_after k j r q (inl (a, _)) (inl (b, _)) ar aq p = sym a ∙ b
  one_after k j r q (inl (a, e)) (inr (_, g)) ar aq p =
      sym a ∙ alone j q g (rw e at ar) aq (cc (e, p.0), cc (e, p.1))
  one_after k j r q (inr (_, g)) (inl (b, e)) ar aq p =
      sym (alone k r g (rw e at aq) ar (cc (e, p.0), cc (e, p.1))) ∙ b
  one_after k j r q (inr (_, g)) (inr (_, f)) ar aq p = h.one k j r q g f ar aq p

  own_after :
      (k : String) (q : ConsentRecord)
      → ((u.id ≡ k) × (q ≡ u)) ⊎ ((u.id ≢ k) × (Dict.get s k ≡ some q))
      → q.id ≡ k
  own_after k q (inl (a, e)) = ap (λ (x : ConsentRecord). x.id) e ∙ a
  own_after k q (inr (_, g)) = h.own k q g

  -- Writing a record that is not active, or whose pair has no other active record, keeps the
  -- invariant.
  pub put-Inv : Inv (Dict.put s u.id u)
  put-Inv = record {
    distinct = Distinct-put s u.id u h.distinct;
    own = λ k q e. own_after k q (written s u k q e);
    one = λ k j r q e f. one_after k j r q (written s u k r e) (written s u j q f);
  }

-- Rewriting a record, with its pair kept, and active only if it was.
pub update-Inv :
    (s : Store) (r u : ConsentRecord)
    → Inv s
    → Dict.get s r.id ≡ some r
    → u.id ≡ r.id
    → SamePair u r
    → (IsActive u → IsActive r)
    → Inv (update s u)
unfolding update
update-Inv s r u h g i p a =
    put-Inv s u h
      (λ k q f au aq m. i ∙ h.one r.id k r q g f (a au) aq (sym p.0 ∙ m.0, sym p.1 ∙ m.1))
