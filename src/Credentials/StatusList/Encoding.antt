-- ===== src/Credentials/StatusList/Encoding.antt =====
-- `encode` and `fromEncoded`. Compression and base64url are not in the repository: `pack` stands for
-- `gzipSync` followed by base64url, `unpack` for the inverse, which throws on a text it cannot read.
use text.Mathlib.TextLemmas.{cons-append, nil-append}
use open_residency.Base.{
  ◌∙◌, sym, ℕ, ◌*◌, ◌≡◌, refl, ap, String, Option, none, some, List, Bool, false, if◌then◌else◌,
  str_eq, length, ◌&◌,
}
use open_residency.Credentials.StatusList.{StatusList}

-- `encoded.startsWith('u')`, and `encoded.slice(1)` for a text that does
abbrev pub is_multibase : String → Bool
is_multibase String.[] = false
is_multibase (String.◌∷◌ c s) = str_eq (String.◌∷◌ c String.[]) "u"

abbrev pub after_first : String → String
after_first String.[] = String.[]
after_first (String.◌∷◌ c s) = s

unfoldable pub body_of : String → String
body_of encoded = if is_multibase encoded then after_first encoded else encoded

u_then : (s : String) → "u" & s ≡ String.◌∷◌ "u" s
u_then s = cons-append "u" String.[] s ∙ ap (String.◌∷◌ "u") (nil-append s)

body_of-u : (s : String) → body_of ("u" & s) ≡ s
unfolding body_of
body_of-u s = rw (u_then s) refl

-- `sizeBits ?? raw.length * 8`
abbrev pub sized : Option ℕ → Option (List ℕ) → Option StatusList
sized size none = none
sized none (some raw) = some (record { size_bits = length raw * 8; bits = raw })
sized (some n) (some raw) = some (record { size_bits = n; bits = raw })

body_plain : (s : String) → is_multibase s ≡ false → body_of s ≡ s
unfolding body_of
body_plain s h = rw h refl

module _ (pack : List ℕ → String) (unpack : String → Option (List ℕ)) where
  unfoldable pub encode : StatusList → String
  encode l = "u" & pack l.bits

  unfoldable pub from_encoded : String → Option ℕ → Option StatusList
  from_encoded encoded size_bits = sized size_bits (unpack (body_of encoded))

  -- What the program relies on: unpacking undoes packing, and packed data never begins with the
  -- letter `u` (it begins with the base64url form of the gzip header).
  pub record IsCodec : Type 0 where
    pub unpack-pack : (raw : List ℕ) → unpack (pack raw) ≡ some raw
    pub no_prefix : (raw : List ℕ) → is_multibase (pack raw) ≡ false

  -- A published list decodes to itself, given its size; without the size, to the whole bytes. The
  -- older form without the prefix decodes to the same.
  pub from_encoded-encode :
      (l : StatusList)
      → IsCodec
      → (from_encoded (encode l) (some l.size_bits) ≡ some l)
        × (from_encoded (encode l) none ≡ some (record l { size_bits = length l.bits * 8 }))
        × ((size : Option ℕ) → from_encoded (pack l.bits) size ≡ from_encoded (encode l) size)
  unfolding from_encoded encode
  from_encoded-encode l c = (
    ap (sized (some l.size_bits)) read,
    ap (sized none) read,
    λ size.
        ap (λ (b : String). sized size (unpack b))
          (body_plain (pack l.bits) (c.no_prefix l.bits) ∙ sym (body_of-u (pack l.bits))),
  )
    where
      read : unpack (body_of ("u" & pack l.bits)) ≡ some l.bits
      read = ap unpack (body_of-u (pack l.bits)) ∙ c.unpack-pack l.bits
