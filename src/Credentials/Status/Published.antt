-- ===== src/Credentials/Status/Published.antt =====
-- The bits that verifiers read, against the status that the register holds.
use open_residency.Base.{◌≡◌, String, Bool, true, false, arith, List, [], ◌∷◌}
use open_residency.Credentials.Status.{
  CredentialStatus, issued, active, suspended, revoked, expired, replaced, CredentialStatusRecord,
  CredentialTransitionRequest, Change, StatusPurpose, revocation, suspension, ok,
  can_transition_credential, publish, recorded, apply_credential_transition,
}
use open_residency.Credentials.Status.Decisions.{accepted_needs}

-- The two bits of one credential.
pub record Bits : Type 0 where
  pub revocation_bit : Bool
  pub suspension_bit : Bool

abbrev pub change_one : Change → StatusPurpose → Bits → Bits
change_one c revocation b = record b { revocation_bit = c.set }
change_one c suspension b = record b { suspension_bit = c.set }

abbrev pub change_all : List Change → Bits → Bits
change_all [] b = b
change_all (c ∷ cs) b = change_all cs (change_one c c.purpose b)

-- What the two bits must be for a status.
unfoldable pub bits_of : CredentialStatus → Bits
bits_of revoked = record { revocation_bit = true; suspension_bit = false }
bits_of expired = record { revocation_bit = true; suspension_bit = false }
bits_of replaced = record { revocation_bit = true; suspension_bit = false }
bits_of suspended = record { revocation_bit = false; suspension_bit = true }
bits_of active = record { revocation_bit = false; suspension_bit = false }
bits_of issued = record { revocation_bit = false; suspension_bit = false }

change_all-publish :
    (s t : CredentialStatus)
    → can_transition_credential s t ≡ true
    → change_all (publish t) (bits_of s) ≡ bits_of t
unfolding can_transition_credential publish bits_of
change_all-publish s t h = ground arith

-- Whenever a request is accepted, making the changes that it returns, in their order, takes bits that
-- tell the old status to bits that tell the new one.
pub publish-bits_of :
    (now : String) (c next : CredentialStatusRecord) (req : CredentialTransitionRequest)
    (changes : List Change)
    → apply_credential_transition now c req ≡ ok next changes
    → change_all changes (bits_of c.status) ≡ bits_of next.status
unfolding recorded
publish-bits_of now c next req changes e =
    let (p, a, n, ch) = accepted_needs now c req next changes e in
    rw (n, ch) (change_all-publish c.status req.to p)
