-- ===== src/Base/Separated.antt =====
-- Texts that are put together with a separator, and taken apart again.
use Prim.Native.Char.{Char, code}
use Prim.Native.String.{String, ◌++◌}
use text.Mathlib.TextLemmas.{nil-append, cons-append}
use mathlib.Core.Path.{◌≡◌, refl, sym, ap, ◌∙◌}
use mathlib.Core.Bool.{Bool, true, false, ◌&&◌, not}
use Prim.Native.Nat.{ℕ}
use native.Mathlib.Omega.{arith}
use open_residency.Base.Tests.{◌==◌}

-- Does the character not occur in the text?
abbrev pub lacks : Char → String → Bool
lacks c String.[] = true
lacks c (String.◌∷◌ d s) = not (code d == code c) && lacks c s

abbrev tail_of : String → String
tail_of String.[] = String.[]
tail_of (String.◌∷◌ c s) = s

abbrev head_code : String → ℕ
head_code String.[] = 0
head_code (String.◌∷◌ c s) = code c

abbrev head_or : Char → String → Char
head_or d String.[] = d
head_or d (String.◌∷◌ c s) = c

-- A text up to the first separator, and what follows it.
pub cut_unique :
    (c : Char) (s s' t t' : String)
    → lacks c s ≡ true
    → lacks c s' ≡ true
    → (s ++ String.◌∷◌ c t) ≡ (s' ++ String.◌∷◌ c t')
    → (s ≡ s') × (t ≡ t')
cut_unique c String.[] String.[] t t' h h' e =
    (refl, ap tail_of (sym (nil-append (String.◌∷◌ c t)) ∙ e ∙ nil-append (String.◌∷◌ c t')))
cut_unique c String.[] (String.◌∷◌ d s') t t' h h' e = absurd (
    clash
      (ap head_code (sym (nil-append (String.◌∷◌ c t)) ∙ e ∙ cons-append d s' (String.◌∷◌ c t'))))
  where
    clash : code c ≡ code d → ⊥
    clash q = ground (arith, q, h')
cut_unique c (String.◌∷◌ d s) String.[] t t' h h' e = absurd (
    clash
      (ap head_code (sym (cons-append d s (String.◌∷◌ c t)) ∙ e ∙ nil-append (String.◌∷◌ c t'))))
  where
    clash : code d ≡ code c → ⊥
    clash q = ground (arith, q, h)
cut_unique c (String.◌∷◌ d s) (String.◌∷◌ d' s') t t' h h' e =
    let e' : String.◌∷◌ d (s ++ String.◌∷◌ c t) ≡ String.◌∷◌ d' (s' ++ String.◌∷◌ c t') =
      sym (cons-append d s (String.◌∷◌ c t)) ∙ e ∙ cons-append d' s' (String.◌∷◌ c t') in
    both (cut_unique c s s' t t' (rest d s h) (rest d' s' h') (ap tail_of e')) (ap (head_or d) e')
  where
    rest : (d : Char) (s : String) → lacks c (String.◌∷◌ d s) ≡ true → lacks c s ≡ true
    rest d s h = ground (arith, h)

    both : (s ≡ s') × (t ≡ t') → d ≡ d' → (String.◌∷◌ d s ≡ String.◌∷◌ d' s') × (t ≡ t')
    both (p, q) r = (cc (p, r), q)

-- A text with the separator in it does not lack it.
pub lacks-cut : (c : Char) (s t : String) → lacks c (s ++ String.◌∷◌ c t) ≡ false
lacks-cut c String.[] t = ap (lacks c) (nil-append (String.◌∷◌ c t)) ∙ ground arith
lacks-cut c (String.◌∷◌ d s) t =
    ap (lacks c) (cons-append d s (String.◌∷◌ c t)) ∙ ground (arith, lacks-cut c s t)
