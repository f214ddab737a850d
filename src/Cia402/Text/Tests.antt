-- ===== src/Cia402/Text/Tests.antt =====
-- Names on examples.
use ether_cat_master.Prelude.{◌≡◌, refl}
use ether_cat_master.Prelude.Int.{pos, negsuc}
use ether_cat_master.Cia402.Text.{mode_text, profile_type_text}

modes : (mode_text (pos 8) ≡ "CSP") × (mode_text (pos 2) ≡ "-") × (mode_text (negsuc 0) ≡ "-")
unfolding mode_text
modes = (refl, refl, refl)

profiles :
    (profile_type_text (pos 0) ≡ "LMS")
    × (profile_type_text (pos 1) ≡ "Trapezoidal")
    × (profile_type_text (pos 9) ≡ "Trapezoidal")
unfolding profile_type_text
profiles = (refl, refl, refl)
