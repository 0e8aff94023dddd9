-- ===== src/RateLimit/CallerKey.antt =====
-- src/core/ratelimit/caller-key.ts: the bucket that a request counts against. The number of trusted
-- hops is natural: a fraction is cut and a negative or infinite number counts as 0 before.
pub mod Spoofing
mod Tests
use Prim.Native.Char.{Char, code}
use Prim.Native.String
use open_residency.Base.{
  ℕ, ◌+◌, ◌-◌, Bool, true, false, ◌&&◌, not, String, Option, none, some, List, [], ◌∷◌, ◌++◌, map,
  filter, length, if◌then◌else◌, ltb, ◌==◌, ◌&◌, truthy, trim, zero, suc, is_some,
}

pub record CallerKeyInput : Type 0 where
  pub forwarded_for : Option String
  pub remote_address : Option String
  pub trusted_hops : ℕ

pub data Source : Type 0 where
  address unattributable : Source

pub record CallerKey : Type 0 where
  pub key : String
  pub source : Source
  pub proxy_mismatch : Bool

-- `s.split(',')`
abbrev push : Char → List String → List String
push c [] = String.◌∷◌ c String.[] ∷ []
push c (s ∷ ss) = String.◌∷◌ c s ∷ ss

unfoldable pub split : String → List String
split String.[] = String.[] ∷ []
split (String.◌∷◌ c s) =
    let rest = split s in if code c == 0x2c then String.[] ∷ rest else push c rest

-- The entries of the header, trimmed, without the blank ones.
unfoldable pub entries : String → List String
entries header = filter truthy (map trim (split header))

abbrev pub present : Option String → Bool
present none = false
present (some s) = truthy s

abbrev pub peer : Option String → List String
peer none = []
peer (some s) = if truthy s then s ∷ [] else []

-- `chain[i]`
abbrev pub at : List String → ℕ → Option String
at [] i = none
at (x ∷ xs) zero = some x
at (x ∷ xs) (suc i) = at xs i

abbrev pub or_peer : Option String → Option String → Option String
or_peer none r = r
or_peer (some s) r = some s

unfoldable pub from_chain : List String → Option String → ℕ → Option String
from_chain chain remote hops =
    if ltb hops (length chain) then or_peer (at chain (length chain - 1 - hops)) remote else remote

abbrev pub from_header : Option String → Option String → ℕ → Option String
from_header none remote hops = remote
from_header (some f) remote hops =
    if truthy f then from_chain (entries f ++ peer remote) remote hops else remote

unfoldable pub address_from_chain : Option String → Option String → ℕ → Option String
address_from_chain forwarded remote hops =
    if hops == 0 then remote else from_header forwarded remote hops

abbrev pub key_of : Option String → Bool → CallerKey
key_of none mismatch = record {
  key = "anon:unattributable";
  source = unattributable;
  proxy_mismatch = mismatch;
}
key_of (some a) mismatch =
    if truthy a
    then record { key = "ip:" & a; source = address; proxy_mismatch = mismatch }
    else record { key = "anon:unattributable"; source = unattributable; proxy_mismatch = mismatch }

unfoldable pub caller_key : CallerKeyInput → CallerKey
caller_key input =
    key_of (address_from_chain input.forwarded_for input.remote_address input.trusted_hops)
      (input.trusted_hops == 0 && present input.forwarded_for)
