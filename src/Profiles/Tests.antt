-- ===== src/Profiles/Tests.antt =====
-- Profiles in the order that the owner wants.
use vidvnc.Base.{◌≡◌, refl, some, none, List, [], ◌∷◌, Text, codes, dec_text}
use vidvnc.Profiles.Order.{is_distinct, profile_of, named, apply_profile_order}

runs : Unit {0}
unfolding dec_text is_distinct profile_of named apply_profile_order
runs = tt

abbrev plain : Text → Text
plain t = t

abbrev profiles : List Text
profiles = codes "mobile" ∷ codes "balanced" ∷ codes "desktop" ∷ []

ordered :
    apply_profile_order plain (some (codes "desktop" ∷ codes "gone" ∷ codes "mobile" ∷ [])) profiles
    ≡ codes "desktop" ∷ codes "mobile" ∷ codes "balanced" ∷ []
unfolding runs
ordered = refl

twice :
    apply_profile_order plain (some (codes "desktop" ∷ codes "desktop" ∷ [])) profiles ≡ profiles
unfolding runs
twice = refl

missing : apply_profile_order plain none profiles ≡ profiles
unfolding runs
missing = refl
