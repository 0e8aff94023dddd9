-- ===== src/Credentials/StatusList.antt =====
-- src/core/credentials/status-list.ts: the bit string that verifiers read. A method that throws
-- returns `none`. An index is a natural number below 2 ^ 31, so that `>> 3` is a division; a negative
-- one, which the source refuses, has no counterpart. The bytes are those of the `Uint8Array`.
pub mod Bit
pub mod Laws
pub mod Encoding
mod Tests
use Prim.Native.Nat.{bit_and, bit_or}
use open_residency.Base.{
  ℕ, ◌+◌, ◌-◌, ◌*◌, ◌/◌, ◌%◌, ◌^◌, Bool, not, String, Option, none, some, List, if◌then◌else◌, ◌==◌,
  leb, ltb, length, get_or, set, replicate,
}

pub record StatusList : Type 0 where
  pub size_bits : ℕ
  pub bits : List ℕ

-- `new StatusList(sizeBits)`
unfoldable pub new : ℕ → StatusList
new size_bits = record { size_bits = size_bits; bits = replicate ((size_bits + 7) / 8) 0 }

abbrev pub default_size_bits : ℕ
default_size_bits = 131072

-- `1 << bit` for `bit = 7 - (index & 7)`
abbrev pub mask : ℕ → ℕ
mask index = 2 ^ (7 - index % 8)

-- `b | m` and `b & ~m` on one byte
unfoldable pub byte_with : ℕ → ℕ → Bool → ℕ
byte_with b m v = if v then bit_or b m else bit_and b (255 - m)

unfoldable pub byte_has : ℕ → ℕ → Bool
byte_has b m = not (bit_and b m == 0)

unfoldable pub set_bit : StatusList → ℕ → Bool → Option StatusList
set_bit l index revoked =
    if leb l.size_bits index
    then none
    else some (record l {
      bits = set l.bits (index / 8) (byte_with (get_or l.bits (index / 8) 0) (mask index) revoked);
    })

unfoldable pub is_revoked : StatusList → ℕ → Option Bool
is_revoked l index =
    if leb l.size_bits index
    then none
    else some (byte_has (get_or l.bits (index / 8) 0) (mask index))
