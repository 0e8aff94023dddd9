-- ===== src/Credentials/StatusList/Tests.antt =====
-- Runs of status-list.ts on a list of sixteen bits.
use open_residency.Base.{◌≡◌, ◌↔◌, ◌≤◌, refl, some, none, [], ◌∷◌, true, false, if◌then◌else◌, ◌==◌}
use open_residency.Credentials.StatusList.{
  StatusList, new, set_bit, is_revoked, byte_with, byte_has,
}
use open_residency.Credentials.StatusList.Laws.{IsValid, new-IsValid, is_revoked-set_bit}

abbrev sixteen : StatusList
sixteen = new 16

set_then_cleared :
    (l : StatusList) × (set_bit (record { size_bits = 16; bits = 0 ∷ 255 ∷ [] }) 9 false ≡ some l)
    × (is_revoked l 9 ≡ some false)
    × (is_revoked l 8 ≡ some true)
unfolding set_bit is_revoked byte_with byte_has
set_then_cleared = (record { size_bits = 16; bits = 0 ∷ 191 ∷ [] }, refl, refl, refl)

is_revoked-set_bit_example :
    ((set_bit sixteen 3 true ≡ none) ↔ (sixteen.size_bits ≤ 3))
    × ((l' : StatusList)
        → set_bit sixteen 3 true ≡ some l'
        → IsValid l'
          × (l'.size_bits ≡ sixteen.size_bits)
          × (is_revoked l' 5 ≡ (if 3 == 5 then some true else is_revoked sixteen 5)))
is_revoked-set_bit_example = is_revoked-set_bit sixteen 3 5 true (new-IsValid 16)
