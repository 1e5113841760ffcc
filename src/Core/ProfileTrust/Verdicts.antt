-- ===== src/Core/ProfileTrust/Verdicts.antt =====
-- Valid chains against a description of the lineage, and what each verdict means.
use cemp_mobile.Prelude.{
  ℕ, ◌+◌, ◌≡◌, refl, ◌↔◌, inl, inr, true, List, [], ◌∷◌, Option, none, some, arith, Bool-cases,
}
use cemp_mobile.Core.Bytes.{bytes_equal_iff}
use cemp_mobile.Core.Codec.{Bytes}
use cemp_mobile.Core.ProfileTrust.{
  ProfileTrustView, SavedContactProfile, check_links, validate_rotation_chain,
  evaluate_contact_profile, chain_clears, keys_unchanged, last_link, names, trusted,
  rotation_verified, key_changed_blocking,
}

-- The links behind `link` each name it as their predecessor and count one up.
abbrev pub Follow : ProfileTrustView → List ProfileTrustView → Type 0
Follow link [] = Unit {0}
Follow link (next ∷ links) =
    (next.rotation_sequence ≡ link.rotation_sequence + 1)
    × (next.previous_profile_id ≡ some link.profile_id)
    × Follow next links

-- A lineage: a root at sequence 0 that names no predecessor, and its followers.
abbrev pub IsLineage : List ProfileTrustView → Type 0
IsLineage [] = ⊥
IsLineage (root ∷ links) =
    (root.rotation_sequence ≡ 0) × (root.previous_profile_id ≡ none) × Follow root links

names_iff : (p : Option Bytes) (id : Bytes) → (names p id ≡ true) ↔ (p ≡ some id)
names_iff none id = ((λ h. cc), λ h. cc)
names_iff (some p) id =
    ((λ h. ground (arith, bytes_equal_iff p id)), λ h. ground (arith, bytes_equal_iff p id))

check_links_iff :
    (i : ℕ) (previous : ProfileTrustView) (links : List ProfileTrustView)
    → previous.rotation_sequence + 1 ≡ i
    → (check_links i (some previous) links ≡ none) ↔ Follow previous links
unfolding check_links
check_links_iff i previous [] e = ((λ h. tt), λ h. refl)
check_links_iff i previous (link ∷ links) e =
    let name = names_iff link.previous_profile_id previous.profile_id in
    (
      (λ h.
          let seq : link.rotation_sequence ≡ i = ground arith in
          let rest : check_links (i + 1) (some link) links ≡ none = ground arith in
          (
            omega arith,
            name.0 (ground arith),
            (check_links_iff (i + 1) link links (omega arith)).0 rest,
          )),
      (λ (seq, named, follow).
          let rest = (check_links_iff (i + 1) link links (omega arith)).1 follow in
          ground (arith, name.1 named, rest, seq)),
    )

-- `validateRotationChain` accepts exactly the lineages.
pub validate_rotation_chain_iff :
    (chain : List ProfileTrustView) → (validate_rotation_chain chain ≡ none) ↔ IsLineage chain
unfolding validate_rotation_chain
validate_rotation_chain_iff [] = ((λ h. cc), λ h. absurd h)
validate_rotation_chain_iff (root ∷ links) = (
  (λ h.
      let rest : check_links 1 (some root) links ≡ none = ground arith in
      let first : root.rotation_sequence ≡ 0 = ground arith in
      (first, ground arith, (check_links_iff 1 root links (omega arith)).0 rest)),
  (λ (seq, first, follow).
      let rest = (check_links_iff 1 root links (omega arith)).1 follow in
      ground (arith, rest, seq, first)),
)

-- Both keys and the profile id are those that were saved.
abbrev pub IsUnchanged : SavedContactProfile → ProfileTrustView → Type 0
IsUnchanged saved fetched =
    (saved.ml_dsa_public_key ≡ fetched.ml_dsa_public_key)
    × (saved.ml_kem_public_key ≡ fetched.ml_kem_public_key)
    × (saved.profile_id ≡ fetched.profile_id)

keys_unchanged_iff :
    (saved : SavedContactProfile) (fetched : ProfileTrustView)
    → (keys_unchanged saved fetched ≡ true) ↔ IsUnchanged saved fetched
keys_unchanged_iff saved fetched =
    let dsa = bytes_equal_iff saved.ml_dsa_public_key fetched.ml_dsa_public_key in
    let kem = bytes_equal_iff saved.ml_kem_public_key fetched.ml_kem_public_key in
    let id = bytes_equal_iff saved.profile_id fetched.profile_id in
    (
      (λ h. (dsa.0 (ground arith), kem.0 (ground arith), id.0 (ground arith))),
      (λ (d, k, i).
          let a = dsa.1 d in let b = kem.1 k in let c = id.1 i in ground (arith, a, b, c)),
    )

-- A lineage from the saved profile id to the fetched one.
abbrev pub LinksTo : SavedContactProfile → ProfileTrustView → List ProfileTrustView → Type 0
LinksTo saved fetched [] = ⊥
LinksTo saved fetched (root ∷ links) =
    IsLineage (root ∷ links)
    × (root.profile_id ≡ saved.profile_id)
    × ((last_link root links).profile_id ≡ fetched.profile_id)

chain_clears_iff :
    (saved : SavedContactProfile) (fetched : ProfileTrustView) (chain : List ProfileTrustView)
    → (chain_clears saved fetched chain ≡ true) ↔ LinksTo saved fetched chain
unfolding chain_clears
chain_clears_iff saved fetched [] = ((λ h. cc), λ h. absurd h)
chain_clears_iff saved fetched (root ∷ links) =
    let valid = validate_rotation_chain_iff (root ∷ links) in
    let start = bytes_equal_iff root.profile_id saved.profile_id in
    let tip = bytes_equal_iff (last_link root links).profile_id fetched.profile_id in
    (
      (λ h.
          let lineage : validate_rotation_chain (root ∷ links) ≡ none = ground arith in
          (valid.0 lineage, start.0 (ground (arith, lineage)), tip.0 (ground (arith, lineage)))),
      (λ (lineage, from, to).
          let a = valid.1 lineage in
          let b = start.1 from in let c = tip.1 to in ground (arith, a, b, c)),
    )

-- For a contact that was saved: `trusted` exactly on unchanged keys and id, `rotation_verified`
-- exactly on a change with a lineage from the saved id to the fetched one, and the blocking verdict
-- exactly on a change without one.
pub evaluate_contact_profile_iff :
    (saved : SavedContactProfile) (fetched : ProfileTrustView) (chain : List ProfileTrustView)
    → ((evaluate_contact_profile (some saved) fetched chain ≡ trusted) ↔ IsUnchanged saved fetched)
      × ((evaluate_contact_profile (some saved) fetched chain ≡ rotation_verified)
          ↔ ((¬ IsUnchanged saved fetched) × LinksTo saved fetched chain))
      × ((evaluate_contact_profile (some saved) fetched chain ≡ key_changed_blocking)
          ↔ ((¬ IsUnchanged saved fetched) × (¬ LinksTo saved fetched chain)))
unfolding evaluate_contact_profile
evaluate_contact_profile_iff saved fetched chain =
    elim (Bool-cases (keys_unchanged saved fetched)) [
      | inl same ↦
          let unchanged = (keys_unchanged_iff saved fetched).0 same in
          rw same (
            ((λ _. unchanged), λ _. refl),
            ((λ h. cc), λ h. absurd (h.0 unchanged)),
            ((λ h. cc), λ h. absurd (h.0 unchanged)),
          )
      | inr changed ↦
          let no_match : ¬ IsUnchanged saved fetched =
            λ u. cc (changed, (keys_unchanged_iff saved fetched).1 u) in
          rw changed (elim (Bool-cases (chain_clears saved fetched chain)) [
            | inl clears ↦
                let linked = (chain_clears_iff saved fetched chain).0 clears in
                rw clears (
                  ((λ h. cc), λ h. absurd (no_match h)),
                  ((λ _. (no_match, linked)), λ _. refl),
                  ((λ h. cc), λ h. absurd (h.1 linked)),
                )
            | inr blocks ↦
                let unlinked : ¬ LinksTo saved fetched chain =
                  λ u. cc (blocks, (chain_clears_iff saved fetched chain).1 u) in
                rw blocks (
                  ((λ h. cc), λ h. absurd (no_match h)),
                  ((λ h. cc), λ h. absurd (unlinked h.1)),
                  ((λ _. (no_match, unlinked)), λ _. refl),
                )
          ])
    ]

-- A fetched profile that claims to be a root under the saved id clears itself: with the chain of its
-- own view alone, keys of which either differs are `rotation_verified`, never blocked.
pub root_clears_itself :
    (saved : SavedContactProfile) (fetched : ProfileTrustView)
    → fetched.rotation_sequence ≡ 0
    → fetched.previous_profile_id ≡ none
    → fetched.profile_id ≡ saved.profile_id
    → ¬ IsUnchanged saved fetched
    → evaluate_contact_profile (some saved) fetched (fetched ∷ []) ≡ rotation_verified
root_clears_itself saved fetched seq first id changed =
    (evaluate_contact_profile_iff saved fetched (fetched ∷ [])).1.1
      (changed, ((seq, first, tt), id, refl))
