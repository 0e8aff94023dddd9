-- ===== src/RateLimit/CallerKey/Spoofing.antt =====
-- What a caller writes into the forwarding header does not choose the bucket.
use open_residency.Base.{
  ℕ, ◌+◌, ◌-◌, ◌≡◌, refl, ap, ◌∙◌, true, false, String, Option, some, List, [], ◌∷◌, ◌++◌, length,
  truthy, arith, length-append, suc, subst, ◌&◌,
}
use open_residency.RateLimit.CallerKey.{
  entries, at, from_chain, address_from_chain, caller_key, address,
}

at_append :
    (xs : List String) (y : String) (ys : List String) → at (xs ++ y ∷ ys) (length xs) ≡ some y
at_append [] y ys = refl
at_append (x ∷ xs) y ys = at_append xs y ys

-- The entry that stands just before `hops` others is the one that is read.
from_chain_at :
    (xs : List String) (y : String) (ys : List String) (remote : Option String)
    → from_chain (xs ++ y ∷ ys) remote (length ys) ≡ some y
unfolding from_chain
from_chain_at xs y ys remote = ground (arith, at_append xs y ys, length-append xs (y ∷ ys), index)
  where
    index : length xs + length (y ∷ ys) - 1 - length ys ≡ length xs
    index = omega arith

append_assoc : (xs ys zs : List String) → (xs ++ ys) ++ zs ≡ xs ++ (ys ++ zs)
append_assoc [] ys zs = refl
append_assoc (x ∷ xs) ys zs = ap (λ l. x ∷ l) (append_assoc xs ys zs)

-- The chain of a request: what the caller wrote, the caller's address, the proxies, the peer.
chain_read :
    (spoof proxies : List String) (caller r : String)
    → from_chain ((spoof ++ caller ∷ proxies) ++ r ∷ []) (some r) (suc (length proxies))
      ≡ some caller
chain_read spoof proxies caller r =
    subst (λ (h : ℕ). from_chain ((spoof ++ caller ∷ proxies) ++ r ∷ []) (some r) h ≡ some caller)
      (length-append proxies (r ∷ []) ∙ omega arith)
      (ap (λ l. from_chain l (some r) (length (proxies ++ r ∷ [])))
          (append_assoc spoof (caller ∷ proxies) (r ∷ []))
        ∙ from_chain_at spoof caller (proxies ++ r ∷ []) (some r))

-- Let the declared number of proxies stand in front: the first appended the address of the caller
-- to whatever the caller had written in the header, each other one the address before it, and the
-- last is the peer of the socket. Then the bucket is that of the caller's address, whatever the
-- caller wrote.
pub caller_key-spoof :
    (header r caller : String) (spoof proxies : List String)
    → truthy header ≡ true
    → entries header ≡ spoof ++ caller ∷ proxies
    → truthy r ≡ true
    → truthy caller ≡ true
    → caller_key (record {
      forwarded_for = some header;
      remote_address = some r;
      trusted_hops = suc (length proxies);
    })
      ≡ record { key = "ip:" & caller; source = address; proxy_mismatch = false }
unfolding caller_key address_from_chain
caller_key-spoof header r caller spoof proxies h e p c =
    ground (arith, chain_read spoof proxies caller r)
