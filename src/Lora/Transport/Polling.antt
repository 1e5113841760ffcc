-- ===== src/Lora/Transport/Polling.antt =====
-- What a poll hands to the incoming pipeline, whatever the gateway answers.
use cemp_mobile.Prelude.{
  ℕ, ◌≤◌, ◌≡◌, refl, sym, subst, ◌↔◌, ◌∙◌, Bool, true, false, not, ◌||◌, List, [], ◌∷◌, ◌++◌,
  Option, none, some, ok, arith, length, all, any, All, All-append, length-append, map, leb, ◌==◌,
  Bool-cases, Result-cases, inl, inr,
}
use cemp_mobile.Core.Bytes.{bytes_equal, bytes_equal_iff}
use cemp_mobile.Core.Codec.{Bytes}
use cemp_mobile.Lora.Transport.{
  Text, Field, whole, text, Entry, object, LoraObject, Response, Page, LoraPollResult,
  parse_response, is_hex, lower, hex_to_bytes, max_envelope_bytes, Checks, is_finite,
  sanitize_bytes, sanitize_object, has_id, take_object, take_page, merge_cursor, poll_from, poll,
}

-- An object that passed every check.
abbrev pub IsChecked : Checks → LoraObject → Type 0
IsChecked checks o =
    (length o.id ≡ 32)
    × (length o.cell_data ≤ max_envelope_bytes)
    × (checks.crc32 o.cell_data ≡ o.crc32)
    × (checks.valid_envelope o.cell_data ≡ true)
    × (is_finite o.received_at ≡ true)

-- No two objects of the list have one id.
abbrev pub Distinct : List LoraObject → Type 0
Distinct [] = Unit {0}
Distinct (o ∷ os) = (any (has_id o.id) os ≡ false) × Distinct os

length-map : (f : ℕ → ℕ) (xs : List ℕ) → length (map f xs) ≡ length xs
length-map f [] = refl
length-map f (x ∷ xs) = omega (arith, length-map f xs)

sanitize_bytes-IsChecked :
    (checks : Checks) (id : Text) (crc received_at : Field) (cell_data : Option Bytes)
    (o : LoraObject)
    → length id ≡ 32
    → sanitize_bytes checks id crc received_at cell_data ≡ some o
    → IsChecked checks o
unfolding sanitize_bytes
sanitize_bytes-IsChecked checks id (whole crc) received_at (some cell_data) o l h =
    ground (arith, length-map lower id)
sanitize_bytes-IsChecked checks id (whole crc) received_at none o l h = cc
sanitize_bytes-IsChecked checks id _ received_at cell_data o l h = cc

sanitize_object-IsChecked :
    (checks : Checks) (entry : Entry) (o : LoraObject)
    → sanitize_object checks entry ≡ some o
    → IsChecked checks o
unfolding sanitize_object
sanitize_object-IsChecked checks (object (text id) (text bytes_hex) crc received_at) o h =
    elim (Bool-cases (not (length id == 32) || not (all is_hex id))) [
      | inl bad ↦ absurd (ground (arith, bad, h))
      | inr good ↦
          sanitize_bytes-IsChecked checks id crc received_at (hex_to_bytes bytes_hex) o
            (ground (arith, good)) (ground (arith, good, h))
    ]
sanitize_object-IsChecked checks _ o h = cc

any-append :
    (p : LoraObject → Bool) (os : List LoraObject) (o : LoraObject)
    → any p (os ++ o ∷ []) ≡ (any p os || p o)
any-append p [] o = ground arith
any-append p (x ∷ os) o = ground (arith, any-append p os o)

bytes_equal-false : (a b : Text) → bytes_equal a b ≡ false → bytes_equal b a ≡ false
bytes_equal-false a b h = elim (Bool-cases (bytes_equal b a)) [
  | inl e ↦ cc (h, (bytes_equal_iff a b).1 (sym ((bytes_equal_iff b a).0 e)))
  | inr e ↦ e
]

Distinct-append :
    (os : List LoraObject) (o : LoraObject)
    → Distinct os
    → any (has_id o.id) os ≡ false
    → Distinct (os ++ o ∷ [])
Distinct-append [] o d h = (refl, tt)
Distinct-append (x ∷ os) o d h =
    let apart : (bytes_equal x.id o.id ≡ false) × (any (has_id o.id) os ≡ false) =
      ground (arith, h) in
    (
      any-append (has_id x.id) os o ∙ (ground (arith, d.0, bytes_equal-false x.id o.id apart.0)),
      Distinct-append os o d.1 apart.1,
    )

-- The objects so far: checked, within the cap, and of distinct ids.
abbrev pub IsPolled : Checks → ℕ → List LoraObject → Type 0
IsPolled checks cap os = All (IsChecked checks) os × (length os ≤ cap) × Distinct os

take_object-IsPolled :
    (checks : Checks) (cap : ℕ) (os : List LoraObject) (found : Option LoraObject)
    → IsPolled checks cap os
    → ((o : LoraObject) → found ≡ some o → IsChecked checks o)
    → IsPolled checks cap (take_object cap os found)
unfolding take_object
take_object-IsPolled checks cap os none p h = p
take_object-IsPolled checks cap os (some o) p h = elim (Bool-cases (any (has_id o.id) os)) [
  | inl met ↦ rw met p
  | inr new ↦ rw new (elim (Bool-cases (leb cap (length os))) [
    | inl full ↦ rw full p
    | inr room ↦ rw room (
        (
          All-append (IsChecked checks) os (o ∷ []) p.0 (h o refl, tt),
          ground (arith, room, length-append os (o ∷ [])),
          Distinct-append os o p.2 new,
        ))
  ])
]

take_page-IsPolled :
    (checks : Checks) (cap : ℕ) (os : List LoraObject) (entries : List Entry)
    → IsPolled checks cap os
    → IsPolled checks cap (take_page checks cap os entries)
unfolding take_page
take_page-IsPolled checks cap os [] p = p
take_page-IsPolled checks cap os (entry ∷ entries) p =
    take_page-IsPolled checks cap (take_object cap os (sanitize_object checks entry)) entries (
      take_object-IsPolled checks cap os (sanitize_object checks entry) p
        (sanitize_object-IsChecked checks entry))

poll_from-IsPolled :
    (checks : Checks) (cap : ℕ) (so_far result : LoraPollResult) (responses : List Response)
    → IsPolled checks cap so_far.objects
    → poll_from checks cap so_far responses ≡ ok result
    → IsPolled checks cap result.objects
unfolding poll_from
poll_from-IsPolled checks cap so_far result [] p h =
    let same : so_far ≡ result = ground (arith, h) in
    subst (λ (r : LoraPollResult). IsPolled checks cap r.objects) same p
poll_from-IsPolled checks cap so_far result (response ∷ responses) p h =
    elim (Result-cases (parse_response response)) [
      | inl (page, e) ↦
          poll_from-IsPolled checks cap (next page) result responses
            (take_page-IsPolled checks cap so_far.objects page.objects p) (ground (arith, e, h))
      | inr (x, e) ↦ absurd (ground (arith, e, h))
    ]
  where
    next : Page → LoraPollResult
    next page = record {
      objects = take_page checks cap so_far.objects page.objects;
      cursor = merge_cursor so_far.cursor page.cursor;
    }

-- Whatever the gateway answers, a poll that returns gives at most `cap` objects, of distinct ids, each
-- with a 32-character id, bytes within the envelope limit, the checksum of those bytes, and an
-- envelope that the codec's validation accepts.
pub poll-IsPolled :
    (checks : Checks) (cap : ℕ) (responses : List Response) (result : LoraPollResult)
    → poll checks cap responses ≡ ok result
    → IsPolled checks cap result.objects
unfolding poll
poll-IsPolled checks cap responses result h =
    poll_from-IsPolled checks cap _ result responses (tt, omega arith, tt) h

abbrev pub IsPage : Response → Type 0
IsPage response = (page : Page) × (parse_response response ≡ ok page)

poll_from-pages :
    (checks : Checks) (cap : ℕ) (so_far result : LoraPollResult) (responses : List Response)
    → poll_from checks cap so_far responses ≡ ok result
    → All IsPage responses
unfolding poll_from
poll_from-pages checks cap so_far result [] h = tt
poll_from-pages checks cap so_far result (response ∷ responses) h =
    elim (Result-cases (parse_response response)) [
      | inl (page, e) ↦ (
        (page, e),
        poll_from-pages checks cap (next page) result responses (ground (arith, e, h)),
      )
      | inr (x, e) ↦ absurd (ground (arith, e, h))
    ]
  where
    next : Page → LoraPollResult
    next page = record {
      objects = take_page checks cap so_far.objects page.objects;
      cursor = merge_cursor so_far.cursor page.cursor;
    }

poll_from-returns :
    (checks : Checks) (cap : ℕ) (so_far : LoraPollResult) (responses : List Response)
    → All IsPage responses
    → (result : LoraPollResult) × (poll_from checks cap so_far responses ≡ ok result)
unfolding poll_from
poll_from-returns checks cap so_far [] h = (so_far, refl)
poll_from-returns checks cap so_far (response ∷ responses) ((page, e), h) = rw e (
    poll_from-returns checks cap
      (record {
        objects = take_page checks cap so_far.objects page.objects;
        cursor = merge_cursor so_far.cursor page.cursor;
      })
      responses h)

-- A poll returns exactly when every answer is a page with objects and a cursor: what the entries of
-- a page hold never fails it.
pub poll_returns_iff :
    (checks : Checks) (cap : ℕ) (responses : List Response)
    → ((result : LoraPollResult) × (poll checks cap responses ≡ ok result)) ↔ All IsPage responses
unfolding poll
poll_returns_iff checks cap responses = (
  (λ (result, h).
      poll_from-pages checks cap (record { objects = []; cursor = none }) result responses h),
  (λ h. poll_from-returns checks cap (record { objects = []; cursor = none }) responses h),
)
