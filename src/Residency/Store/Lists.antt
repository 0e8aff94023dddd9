-- ===== src/Residency/Store/Lists.antt =====
-- The published bits of the store: what a verifier reads in the list of a country and a purpose.
use text.Mathlib.TextLemmas.{append_cancel_left}
use open_residency.Base.{
  ℕ, ◌≡◌, ◌≢◌, refl, sym, ap, inl, inr, Bool, true, false, String, Option, some, arith, eq_iff,
  str_eq, if◌then◌else◌, Bool-cases, str_eq_refl, ◌==◌, ◌&&◌,
}
use open_residency.Base.Dict
use open_residency.Base.Dict.{Dict, get-put}
use open_residency.Credentials.Status.{StatusPurpose, revocation, suspension}
use open_residency.Credentials.StatusList.{StatusList, set_bit, is_revoked}
use open_residency.Credentials.StatusList.Laws.{IsValid, is_revoked-set_bit}
use open_residency.Residency.Store.{Store, list_key, or_new, load_status_list, save_status_list}

unfoldable pub list_at : Store → String → StatusPurpose → StatusList
list_at s country purpose = or_new (Dict.get s.status_lists (list_key country purpose))

-- The bit at an index, `none` beyond the list.
unfoldable pub bit : Store → String → StatusPurpose → ℕ → Option Bool
bit s country purpose i = is_revoked (list_at s country purpose) i

pub record ListsValid (s : Store) : Type 0 where
  pub at : (country : String) (purpose : StatusPurpose) → IsValid (list_at s country purpose)

abbrev pub same_purpose : StatusPurpose → StatusPurpose → Bool
same_purpose revocation revocation = true
same_purpose suspension suspension = true
same_purpose _ _ = false

revocation_ne_suspension : ◌≢◌ {A = String} ":revocation" ":suspension"
revocation_ne_suspension e = cc ((eq_iff ":revocation" ":suspension").1 e)

not_eq : (a b : String) → a ≢ b → str_eq a b ≡ false
not_eq a b n = ground (arith, eq_iff a b)

str_eq-list_key :
    (c : String) (p q : StatusPurpose) → str_eq (list_key c p) (list_key c q) ≡ same_purpose p q
str_eq-list_key c revocation revocation = str_eq_refl (list_key c revocation)
str_eq-list_key c suspension suspension = str_eq_refl (list_key c suspension)
str_eq-list_key c revocation suspension =
    not_eq _ _ (λ e. revocation_ne_suspension (append_cancel_left c ":revocation" ":suspension" e))
str_eq-list_key c suspension revocation =
    not_eq _ _
      (λ e. revocation_ne_suspension (append_cancel_left c ":revocation" ":suspension" (sym e)))

-- Loading a list changes none.
pub list_at-load :
    (s : Store) (c d : String) (p q : StatusPurpose)
    → list_at (load_status_list s c p).1 d q ≡ list_at s d q
unfolding list_at load_status_list
list_at-load s c d p q = ground (
  arith,
  get-put s.status_lists (list_key c p) (list_key d q)
      (or_new (Dict.get s.status_lists (list_key c p))),
  eq_iff (list_key c p) (list_key d q),
)

pub list_at-save :
    (s : Store) (c d : String) (l : StatusList) (p q : StatusPurpose)
    → list_at (save_status_list s c l p) d q
      ≡ (if str_eq (list_key c p) (list_key d q) then l else list_at s d q)
unfolding list_at save_status_list
list_at-save s c d l p q = ground (arith, get-put s.status_lists (list_key c p) (list_key d q) l)

-- Loading a list, writing a bit and saving it: the bits of that country afterwards.
pub bit_after_save :
    (s : Store) (c : String) (p q : StatusPurpose) (i j : ℕ) (v : Bool) (l' : StatusList)
    → ListsValid s
    → set_bit (list_at s c p) i v ≡ some l'
    → bit (save_status_list (load_status_list s c p).1 c l' p) c q j
      ≡ (if same_purpose p q && i == j then some v else bit s c q j)
unfolding bit
bit_after_save s c p q i j v l' w e =
    rw
      (
        list_at-save (load_status_list s c p).1 c c l' p q,
        list_at-load s c c p q,
        str_eq-list_key c p q,
      )
      (by_purpose p q w e)
  where
    by_purpose :
        (p q : StatusPurpose)
        → ListsValid s
        → set_bit (list_at s c p) i v ≡ some l'
        → is_revoked (if same_purpose p q then l' else list_at s c q) j
          ≡ (if same_purpose p q && i == j then some v else is_revoked (list_at s c q) j)
    by_purpose revocation revocation w e =
        ((is_revoked-set_bit (list_at s c revocation) i j v (w.at c revocation)).1 l' e).2
    by_purpose suspension suspension w e =
        ((is_revoked-set_bit (list_at s c suspension) i j v (w.at c suspension)).1 l' e).2
    by_purpose revocation suspension w e = refl
    by_purpose suspension revocation w e = refl

pub save_list-ListsValid :
    (s : Store) (c : String) (p : StatusPurpose) (i : ℕ) (v : Bool) (l' : StatusList)
    → ListsValid s
    → set_bit (list_at s c p) i v ≡ some l'
    → ListsValid (save_status_list (load_status_list s c p).1 c l' p)
save_list-ListsValid s c p i v l' w e = record {
  at = λ d q.
      rw (list_at-save (load_status_list s c p).1 c d l' p q, list_at-load s c d p q)
        (elim (Bool-cases (str_eq (list_key c p) (list_key d q))) [
          | inl t ↦ rw t ((is_revoked-set_bit (list_at s c p) i i v (w.at c p)).1 l' e).0
          | inr f ↦ rw f (w.at d q)
        ]);
}

pub load-ListsValid :
    (s : Store) (c : String) (p : StatusPurpose)
    → ListsValid s
    → ListsValid (load_status_list s c p).1
load-ListsValid s c p w = record { at = λ d q. rw (list_at-load s c d p q) (w.at d q) }

pub bit-load :
    (s : Store) (c d : String) (p q : StatusPurpose) (j : ℕ)
    → bit (load_status_list s c p).1 d q j ≡ bit s d q j
unfolding bit
bit-load s c d p q j = ap (λ l. is_revoked l j) (list_at-load s c d p q)
