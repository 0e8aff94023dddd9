-- ===== src/RateLimit/CallerKey/Tests.antt =====
-- A caller behind two proxies, who wrote an address of their own into the header.
use open_residency.Base.{◌≡◌, refl, String, some, [], ◌∷◌, false, trim}
use open_residency.RateLimit.CallerKey.{address, split, entries, caller_key}
use open_residency.RateLimit.CallerKey.Spoofing.{caller_key-spoof}

abbrev header : String
header = "6.6.6.6, 10.1.1.1 ,10.2.2.2"

entries-header : entries header ≡ "6.6.6.6" ∷ "10.1.1.1" ∷ "10.2.2.2" ∷ []
unfolding entries split trim
entries-header = refl

caller_key-spoof_example :
    caller_key
      (record { forwarded_for = some header; remote_address = some "10.3.3.3"; trusted_hops = 2 })
    ≡ record { key = "ip:10.1.1.1"; source = address; proxy_mismatch = false }
caller_key-spoof_example =
    caller_key-spoof header "10.3.3.3" "10.1.1.1" ("6.6.6.6" ∷ []) ("10.2.2.2" ∷ []) refl
      entries-header refl refl
