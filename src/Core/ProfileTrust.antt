-- ===== src/Core/ProfileTrust.antt =====
-- packages/cemp-core/src/profile-trust.ts: rotation chains and the verdict on a fetched profile.
-- Its private `bytesEqual` is the function of Core/Bytes.antt.
pub mod Verdicts
pub mod Examples
use cemp_mobile.Prelude.{
  ℕ, zero, suc, ◌+◌, ◌≡◌, Bool, true, false, not, ◌&&◌, List, [], ◌∷◌, Option, none, some,
  if◌then◌else◌, ◌==◌,
}
use cemp_mobile.Core.Bytes.{bytes_equal}
use cemp_mobile.Core.Codec.{Bytes}

pub record ProfileTrustView : Type 0 where
  pub profile_id : Bytes
  pub ml_dsa_public_key : Bytes
  pub ml_kem_public_key : Bytes
  pub rotation_sequence : ℕ
  pub previous_profile_id : Option Bytes
  pub revoked : Bool

pub record SavedContactProfile : Type 0 where
  pub profile_id : Bytes
  pub ml_dsa_public_key : Bytes
  pub ml_kem_public_key : Bytes

-- Why a chain is not valid.
pub data ChainFault : Type 0 where
  empty_chain root_names_previous : ChainFault
  wrong_sequence : ℕ → ℕ → ChainFault
  wrong_predecessor : ℕ → ChainFault

-- link.previousProfileId !== null && bytesEqual(link.previousProfileId, previous.profileId)
abbrev pub names : Option Bytes → Bytes → Bool
names none id = false
names (some p) id = bytes_equal p id

abbrev is_null : Option Bytes → Bool
is_null none = true
is_null (some p) = false

-- The test of one link by its predecessor, `none` at position 0.
abbrev pub continues : Option ProfileTrustView → ProfileTrustView → Bool
continues none link = is_null link.previous_profile_id
continues (some previous) link = names link.previous_profile_id previous.profile_id

abbrev pub predecessor_fault : Option ProfileTrustView → ℕ → ChainFault
predecessor_fault none i = root_names_previous
predecessor_fault (some previous) i = wrong_predecessor i

-- The loop of `validateRotationChain` from position `i`, behind the link `previous`.
pub check_links : ℕ → Option ProfileTrustView → List ProfileTrustView → Option ChainFault
check_links i previous [] = none
check_links i previous (link ∷ links) =
    let rest = check_links (i + 1) (some link) links in
    if not (link.rotation_sequence == i)
    then some (wrong_sequence link.rotation_sequence i)
    else if not (continues previous link)
    then some (predecessor_fault previous i)
    else rest

-- `none` for { valid: true }.
pub validate_rotation_chain : List ProfileTrustView → Option ChainFault
unfolding check_links
validate_rotation_chain [] = some empty_chain
validate_rotation_chain (link ∷ links) = check_links 0 none (link ∷ links)

pub data ContactTrustVerdict : Type 0 where
  first_use trusted rotation_verified key_changed_blocking : ContactTrustVerdict

-- chain[chain.length - 1]
abbrev pub last_link : ProfileTrustView → List ProfileTrustView → ProfileTrustView
last_link link [] = link
last_link link (next ∷ links) = last_link next links

abbrev pub keys_unchanged : SavedContactProfile → ProfileTrustView → Bool
keys_unchanged saved fetched =
    bytes_equal saved.ml_dsa_public_key fetched.ml_dsa_public_key
    && bytes_equal saved.ml_kem_public_key fetched.ml_kem_public_key
    && bytes_equal saved.profile_id fetched.profile_id

-- The chain is valid, its root is the saved profile and its tip the fetched one, by profile id.
chain_clears : SavedContactProfile → ProfileTrustView → List ProfileTrustView → Bool
chain_clears saved fetched [] = false
chain_clears saved fetched (root ∷ links) = elim (validate_rotation_chain (root ∷ links)) [
  | some fault ↦ false
  | none ↦
      bytes_equal root.profile_id saved.profile_id
      && bytes_equal (last_link root links).profile_id fetched.profile_id
]

pub evaluate_contact_profile :
    Option SavedContactProfile → ProfileTrustView → List ProfileTrustView → ContactTrustVerdict
unfolding chain_clears
evaluate_contact_profile none fetched chain = first_use
evaluate_contact_profile (some saved) fetched chain =
    if keys_unchanged saved fetched
    then trusted
    else if chain_clears saved fetched chain
    then rotation_verified
    else key_changed_blocking
