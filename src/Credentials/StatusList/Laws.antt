-- ===== src/Credentials/StatusList/Laws.antt =====
-- A status list as a map from indices to bits.
use open_residency.Base.{
  ℕ, ◌+◌, ◌-◌, ◌*◌, ◌/◌, ◌%◌, ◌<◌, ◌≤◌, ◌≡◌, ◌↔◌, refl, ap, ◌∙◌, Bool, true, false, none, some,
  if◌then◌else◌, ◌==◌, length, get_or, set, All, All-get_or, All-set, All-replicate, get_or-set,
  length-set, length-replicate, arith, Bool-cases, inl, inr,
}
use open_residency.Credentials.StatusList.{
  StatusList, new, mask, byte_with, byte_has, set_bit, is_revoked,
}
use open_residency.Credentials.StatusList.Bit.{byte_has-byte_with, byte_with-lt}

abbrev pub IsByte : ℕ → Type 0
IsByte b = b < 256

-- Every entry is a byte, and the bytes hold the indices below `size_bits`.
pub record IsValid (l : StatusList) : Type 0 where
  pub bytes : All IsByte l.bits
  pub room : l.size_bits ≤ 8 * length l.bits

pub new-IsValid : (n : ℕ) → IsValid (new n)
unfolding new
new-IsValid n = record {
  bytes = All-replicate IsByte ((n + 7) / 8) 0 (omega arith);
  room = omega (arith, length-replicate {A = ℕ} ((n + 7) / 8) 0);
}

IsByte-at : (l : StatusList) (i : ℕ) → IsValid l → IsByte (get_or l.bits (i / 8) 0)
IsByte-at l i w = All-get_or IsByte l.bits (i / 8) 0 (omega arith) w.bytes

written :
    (l : StatusList) (i : ℕ) (v : Bool)
    → i < l.size_bits
    → set_bit l i v
      ≡ some
          (record l { bits = set l.bits (i / 8) (byte_with (get_or l.bits (i / 8) 0) (mask i) v) })
unfolding set_bit
written l i v h = ground arith

same_bit : (i j : ℕ) → (i / 8 == j / 8) ≡ true → (7 - i % 8 == 7 - j % 8) ≡ (i == j)
same_bit i j h = ground arith

other_byte : (i j : ℕ) → (i / 8 == j / 8) ≡ false → (i == j) ≡ false
other_byte i j h = ground arith

same_byte : (i j : ℕ) → (i / 8 == j / 8) ≡ true → i / 8 ≡ j / 8
same_byte i j h = ground arith

in_range : (l l' : StatusList) (i : ℕ) (v : Bool) → set_bit l i v ≡ some l' → i < l.size_bits
unfolding set_bit
in_range l l' i v e = ground arith

set_to :
    (l l' : StatusList) (i : ℕ) (v : Bool)
    → set_bit l i v ≡ some l'
    → l' ≡ record l { bits = set l.bits (i / 8) (byte_with (get_or l.bits (i / 8) 0) (mask i) v) }
unfolding set_bit
set_to l l' i v e = ground arith

set_bit-IsValid :
    (l l' : StatusList) (i : ℕ) (v : Bool) → IsValid l → set_bit l i v ≡ some l' → IsValid l'
set_bit-IsValid l l' i v w e = rw (set_to l l' i v e) (record {
  bytes =
      All-set IsByte l.bits (i / 8) _
        (byte_with-lt (get_or l.bits (i / 8) 0) (7 - i % 8) v (IsByte-at l i w) (omega arith))
        w.bytes;
  room =
      omega
        (arith, w.room, length-set l.bits (i / 8) (byte_with (get_or l.bits (i / 8) 0) (mask i) v));
})

bit_after :
    (l : StatusList) (i j : ℕ) (v : Bool)
    → IsValid l
    → i < l.size_bits
    → byte_has
        (get_or (set l.bits (i / 8) (byte_with (get_or l.bits (i / 8) 0) (mask i) v)) (j / 8) 0)
        (mask j)
      ≡ (if i == j then v else byte_has (get_or l.bits (j / 8) 0) (mask j))
bit_after l i j v w h =
    rw
      (get_or-set l.bits (i / 8) (j / 8) (byte_with (get_or l.bits (i / 8) 0) (mask i) v) 0
        (omega (arith, w.room)))
      (elim (Bool-cases (i / 8 == j / 8)) [
        | inl e ↦ rw e (
            byte_has-byte_with (get_or l.bits (i / 8) 0) (7 - i % 8) (7 - j % 8) v (IsByte-at l i w)
              (omega arith) (omega arith)
            ∙ ground (arith, same_bit i j e, same_byte i j e))
        | inr n ↦ rw (n, other_byte i j n) refl
      ])

out_of_range : (l : StatusList) (i : ℕ) (v : Bool) → (set_bit l i v ≡ none) ↔ (l.size_bits ≤ i)
unfolding set_bit
out_of_range l i v = (λ e. ground arith, λ h. ground arith)

read_back :
    (l : StatusList) (i j : ℕ) (v : Bool)
    → IsValid l
    → i < l.size_bits
    → is_revoked
        (record l { bits = set l.bits (i / 8) (byte_with (get_or l.bits (i / 8) 0) (mask i) v) })
        j
      ≡ (if i == j then some v else is_revoked l j)
unfolding is_revoked
read_back l i j v w h = rw (bit_after l i j v w h) (ground arith)

-- A write at an index within the list succeeds, and a write beyond it throws. After a write that
-- succeeded, reading any index gives the value written there, and at every other index what it gave
-- before; reading beyond the list throws before and after.
pub is_revoked-set_bit :
    (l : StatusList) (i j : ℕ) (v : Bool)
    → IsValid l
    → ((set_bit l i v ≡ none) ↔ (l.size_bits ≤ i))
      × ((l' : StatusList)
          → set_bit l i v ≡ some l'
          → IsValid l'
            × (l'.size_bits ≡ l.size_bits)
            × (is_revoked l' j ≡ (if i == j then some v else is_revoked l j)))
is_revoked-set_bit l i j v w = (
  out_of_range l i v,
  λ l' e. (
    set_bit-IsValid l l' i v w e,
    ap (λ k. k.size_bits) (set_to l l' i v e),
    rw (set_to l l' i v e) (read_back l i j v w (in_range l l' i v e)),
  ),
)
