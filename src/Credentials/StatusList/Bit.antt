-- ===== src/Credentials/StatusList/Bit.antt =====
-- One bit of one byte, checked over all bytes and bits.
use open_residency.Base.{
  ℕ, zero, suc, ◌^◌, ◌<◌, ◌≡◌, refl, Bool, true, false, ◌&&◌, not, if◌then◌else◌, ◌==◌, ltb, arith,
  ltb→lt,
}
use open_residency.Credentials.StatusList.{byte_with, byte_has}

-- Does a test hold of the numbers up to a bound?
holds_under : (ℕ → Bool) → ℕ → Bool
holds_under test zero = true
holds_under test (suc top) = let below = holds_under test top in if test top then below else false

holds_at :
    (test : ℕ → Bool) (bound i : ℕ) → i < bound → holds_under test bound ≡ true → test i ≡ true
unfolding holds_under
holds_at test zero i l e = absurd (omega (arith, l))
holds_at test (suc top) i l e = ground (arith, holds_at test top i)

abbrev iff : Bool → Bool → Bool
iff true b = b
iff false b = not b

-- Setting or clearing bit `j` of `b` and reading bit `k` gives the value written or the old bit, and
-- the result is a byte.
abbrev reads : ℕ → ℕ → ℕ → Bool → Bool
reads b j k v =
    iff (byte_has (byte_with b (2 ^ j) v) (2 ^ k)) (if j == k then v else byte_has b (2 ^ k))
    && ltb (byte_with b (2 ^ j) v) 256

abbrev reads_all : ℕ → Bool
reads_all b = holds_under (λ j. holds_under (λ k. reads b j k true && reads b j k false) 8) 8

table : holds_under reads_all 256 ≡ true
unfolding holds_under byte_with byte_has
table = refl

and_split : (a b : Bool) → (a && b) ≡ true → (a ≡ true) × (b ≡ true)
and_split a b h = ground arith

iff_sound : (a b : Bool) → iff a b ≡ true → a ≡ b
iff_sound a b h = ground arith

reads_both : (b j k : ℕ) → b < 256 → j < 8 → k < 8 → (reads b j k true && reads b j k false) ≡ true
reads_both b j k hb hj hk =
    holds_at _ 8 k hk (holds_at _ 8 j hj (holds_at reads_all 256 b hb table))

reads_one : (b j k : ℕ) (v : Bool) → b < 256 → j < 8 → k < 8 → reads b j k v ≡ true
reads_one b j k true hb hj hk = (and_split _ _ (reads_both b j k hb hj hk)).0
reads_one b j k false hb hj hk = (and_split _ _ (reads_both b j k hb hj hk)).1

pub byte_has-byte_with :
    (b j k : ℕ) (v : Bool)
    → b < 256
    → j < 8
    → k < 8
    → byte_has (byte_with b (2 ^ j) v) (2 ^ k) ≡ (if j == k then v else byte_has b (2 ^ k))
byte_has-byte_with b j k v hb hj hk = iff_sound _ _ (and_split _ _ (reads_one b j k v hb hj hk)).0

pub byte_with-lt : (b j : ℕ) (v : Bool) → b < 256 → j < 8 → byte_with b (2 ^ j) v < 256
byte_with-lt b j v hb hj = ltb→lt _ _ (and_split _ _ (reads_one b j j v hb hj hj)).1
