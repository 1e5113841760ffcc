-- ===== src/Core/ProfileTrust/Examples.antt =====
-- A saved profile, its rotation, and a substitute that claims to be a root.
use cemp_mobile.Prelude.{◌≡◌, refl, ◌↔◌, false, [], ◌∷◌, none, some}
use cemp_mobile.Core.ProfileTrust.{
  ProfileTrustView, SavedContactProfile, trusted, rotation_verified, key_changed_blocking,
  evaluate_contact_profile,
}
use cemp_mobile.Core.ProfileTrust.Verdicts.{
  IsUnchanged, LinksTo, evaluate_contact_profile_iff, root_clears_itself,
}

abbrev root_view : ProfileTrustView
root_view = record {
  profile_id = 1 ∷ [];
  ml_dsa_public_key = 2 ∷ [];
  ml_kem_public_key = 3 ∷ [];
  rotation_sequence = 0;
  previous_profile_id = none;
  revoked = false;
}

abbrev rotated_view : ProfileTrustView
rotated_view = record {
  profile_id = 4 ∷ [];
  ml_dsa_public_key = 5 ∷ [];
  ml_kem_public_key = 6 ∷ [];
  rotation_sequence = 1;
  previous_profile_id = some (1 ∷ []);
  revoked = false;
}

abbrev saved_contact : SavedContactProfile
saved_contact = record {
  profile_id = 1 ∷ [];
  ml_dsa_public_key = 2 ∷ [];
  ml_kem_public_key = 3 ∷ [];
}

evaluate_contact_profile_iff_example :
    ((evaluate_contact_profile (some saved_contact) rotated_view (root_view ∷ rotated_view ∷ [])
        ≡ trusted)
      ↔ IsUnchanged saved_contact rotated_view)
    × ((evaluate_contact_profile (some saved_contact) rotated_view (root_view ∷ rotated_view ∷ [])
          ≡ rotation_verified)
        ↔ ((¬ IsUnchanged saved_contact rotated_view)
            × LinksTo saved_contact rotated_view (root_view ∷ rotated_view ∷ [])))
    × ((evaluate_contact_profile (some saved_contact) rotated_view (root_view ∷ rotated_view ∷ [])
          ≡ key_changed_blocking)
        ↔ ((¬ IsUnchanged saved_contact rotated_view)
            × (¬ LinksTo saved_contact rotated_view (root_view ∷ rotated_view ∷ []))))
evaluate_contact_profile_iff_example =
    evaluate_contact_profile_iff saved_contact rotated_view (root_view ∷ rotated_view ∷ [])

abbrev substitute_view : ProfileTrustView
substitute_view = record root_view { ml_dsa_public_key = 8 ∷ []; ml_kem_public_key = 9 ∷ [] }

keys_apart : ¬ IsUnchanged saved_contact substitute_view
keys_apart same = absurd (cc same.1)

substitute_verified :
    evaluate_contact_profile (some saved_contact) substitute_view (substitute_view ∷ [])
    ≡ rotation_verified
substitute_verified = root_clears_itself saved_contact substitute_view refl refl refl keys_apart
