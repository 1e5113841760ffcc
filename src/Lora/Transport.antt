-- ===== src/Lora/Transport.antt =====
-- packages/cemp-lora/src/transport.ts: one poll of the gateway, whose answers are hostile. Text is the
-- list of its character codes.
pub mod Polling
pub mod Examples
use cemp_mobile.Prelude.{
  ℕ, ◌+◌, ◌-◌, ◌*◌, ◌%◌, Bool, true, false, not, ◌&&◌, ◌||◌, List, [], ◌∷◌, ◌++◌, Option, none,
  some, Result, ok, err, if◌then◌else◌, ◌==◌, ltb, leb, length, all, any, ◌>>=◌, map,
}
use cemp_mobile.Core.Bytes.{bytes_equal}
use cemp_mobile.Core.Codec.{Bytes}

abbrev pub Text : Type 0
Text = List ℕ

-- A JSON value as the checks see it: a whole number from 0, another finite number, text, or the rest.
pub data Field : Type 0 where
  whole : ℕ → Field
  other_finite : Field
  text : Text → Field
  other : Field

-- An entry of `objects`: its four fields (`other` for one that is missing), or no object.
pub data Entry : Type 0 where
  not_object : Entry
  object : Field → Field → Field → Field → Entry

pub record LoraObject : Type 0 where
  pub id : Text
  pub cell_data : Bytes
  pub crc32 : ℕ
  pub received_at : Field

-- The answer to one request: the request failed, another status, no JSON, or a body with its
-- `objects` where they are an array and its `cursor` where it is text.
pub data Response : Type 0 where
  request_failed not_ok not_json not_object_body : Response
  body : Option (List Entry) → Option Text → Response

pub data LoraTransportError : Type 0 where
  failed_request http_status non_json non_object no_objects no_cursor : LoraTransportError

pub record Page : Type 0 where
  pub objects : List Entry
  pub cursor : Text

pub record LoraPollResult : Type 0 where
  pub objects : List LoraObject
  pub cursor : Option Text

-- `fetchJson` and `parseObjectsResponse`.
pub parse_response : Response → Result LoraTransportError Page
parse_response request_failed = err failed_request
parse_response not_ok = err http_status
parse_response not_json = err non_json
parse_response not_object_body = err non_object
parse_response (body none cursor) = err no_objects
parse_response (body (some objects) none) = err no_cursor
parse_response (body (some objects) (some cursor)) =
    ok (record { objects = objects; cursor = cursor })

-- /[0-9a-fA-F]/
abbrev pub is_hex : ℕ → Bool
is_hex c = (leb b'0' c && leb c b'9') || (leb b'a' c && leb c b'f') || (leb b'A' c && leb c b'F')

abbrev pub lower : ℕ → ℕ
lower c = if leb b'A' c && leb c b'Z' then c + 32 else c

hex_value : ℕ → ℕ
hex_value c = if leb c b'9' then c - b'0' else lower c - b'a' + 10

hex_pairs : Text → Bytes
unfolding hex_value
hex_pairs [] = []
hex_pairs (a ∷ []) = []
hex_pairs (a ∷ b ∷ cs) = (16 * hex_value a + hex_value b) ∷ hex_pairs cs

pub hex_to_bytes : Text → Option Bytes
unfolding hex_pairs
hex_to_bytes hex =
    if (length hex == 0) || not (length hex % 2 == 0) || not (all is_hex hex)
    then none
    else some (hex_pairs hex)

abbrev pub max_envelope_bytes : ℕ
max_envelope_bytes = 82000

-- The checks of the other modules that a poll calls: `crc32`, and `validateEnvelope(...).ok`.
pub record Checks : Type 0 where
  pub crc32 : Bytes → ℕ
  pub valid_envelope : Bytes → Bool

abbrev pub is_finite : Field → Bool
is_finite (whole n) = true
is_finite other_finite = true
is_finite _ = false

pub sanitize_bytes : Checks → Text → Field → Field → Option Bytes → Option LoraObject
sanitize_bytes checks id (whole crc) received_at (some cell_data) =
    if ltb max_envelope_bytes (length cell_data)
    then none
    else if ltb 4294967295 crc
    then none
    else if not (is_finite received_at)
    then none
    else if not (checks.crc32 cell_data == crc)
    then none
    else if not (checks.valid_envelope cell_data)
    then none
    else some (record {
      id = map lower id;
      cell_data = cell_data;
      crc32 = crc;
      received_at = received_at;
    })
sanitize_bytes checks id crc received_at cell_data = none

pub sanitize_object : Checks → Entry → Option LoraObject
unfolding sanitize_bytes
sanitize_object checks (object (text id) (text bytes_hex) crc received_at) =
    if not (length id == 32) || not (all is_hex id)
    then none
    else sanitize_bytes checks id crc received_at (hex_to_bytes bytes_hex)
sanitize_object checks entry = none

abbrev pub has_id : Text → LoraObject → Bool
has_id id o = bytes_equal o.id id

-- The body of the inner loop on the map, which keeps the order of its insertions.
pub take_object : ℕ → List LoraObject → Option LoraObject → List LoraObject
take_object cap by_id none = by_id
take_object cap by_id (some o) =
    if any (has_id o.id) by_id
    then by_id
    else if leb cap (length by_id)
    then by_id
    else by_id ++ o ∷ []

pub take_page : Checks → ℕ → List LoraObject → List Entry → List LoraObject
unfolding take_object
take_page checks cap by_id [] = by_id
take_page checks cap by_id (entry ∷ entries) =
    take_page checks cap (take_object cap by_id (sanitize_object checks entry)) entries

-- `a > b` on text.
unfoldable pub text_after : Text → Text → Bool
text_after [] b = false
text_after (x ∷ a) [] = true
text_after (x ∷ a) (y ∷ b) = ltb y x || ((x == y) && text_after a b)

pub merge_cursor : Option Text → Text → Option Text
merge_cursor none [] = none
merge_cursor none (c ∷ cs) = some (c ∷ cs)
merge_cursor (some cursor) page = if text_after page cursor then some page else some cursor

-- The loop over the route tags, from the answer to each one's request.
pub poll_from :
    Checks → ℕ → LoraPollResult → List Response → Result LoraTransportError LoraPollResult
unfolding take_page merge_cursor
poll_from checks cap so_far [] = ok so_far
poll_from checks cap so_far (response ∷ responses) = parse_response response >>= λ page.
    poll_from checks cap
      (record {
        objects = take_page checks cap so_far.objects page.objects;
        cursor = merge_cursor so_far.cursor page.cursor;
      })
      responses

pub poll : Checks → ℕ → List Response → Result LoraTransportError LoraPollResult
unfolding poll_from
poll checks cap responses = poll_from checks cap (record { objects = []; cursor = none }) responses
