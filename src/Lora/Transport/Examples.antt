-- ===== src/Lora/Transport/Examples.antt =====
-- A page with one good entry, one that is no object, and the good one again.
use cemp_mobile.Prelude.{refl, true, List, [], ◌∷◌, some, length}
use cemp_mobile.Core.Bytes.{bytes_equal, bytes_match}
use cemp_mobile.Lora.Transport.{
  Text, Entry, not_object, object, whole, text, Response, body, LoraPollResult, Checks, poll,
  poll_from, parse_response, take_page, take_object, sanitize_object, sanitize_bytes, hex_to_bytes,
  hex_pairs, hex_value, merge_cursor,
}
use cemp_mobile.Lora.Transport.Polling.{IsPolled, poll-IsPolled}

abbrev length_checks : Checks
length_checks = record { crc32 = λ bytes. length bytes; valid_envelope = λ bytes. true }

-- Thirty-two times the digit 0.
abbrev zero_id : Text
zero_id =
    48 ∷ 48 ∷ 48 ∷ 48 ∷ 48 ∷ 48 ∷ 48 ∷ 48 ∷ 48 ∷ 48 ∷ 48 ∷ 48 ∷ 48 ∷ 48 ∷ 48 ∷ 48 ∷ 48 ∷ 48 ∷ 48
    ∷ 48 ∷ 48 ∷ 48 ∷ 48 ∷ 48 ∷ 48 ∷ 48 ∷ 48 ∷ 48 ∷ 48 ∷ 48 ∷ 48 ∷ 48 ∷ []

abbrev good_entry : Entry
good_entry = object (text zero_id) (text (97 ∷ 98 ∷ [])) (whole 1) (whole 9)

abbrev gateway_responses : List Response
gateway_responses = body (some (good_entry ∷ not_object ∷ good_entry ∷ [])) (some (49 ∷ [])) ∷ []

abbrev one_object : LoraPollResult
one_object = record {
  objects = record { id = zero_id; cell_data = 171 ∷ []; crc32 = 1; received_at = whole 9 } ∷ [];
  cursor = some (49 ∷ []);
}

poll-IsPolled_example : IsPolled length_checks 64 one_object.objects
unfolding poll poll_from parse_response take_page take_object sanitize_object sanitize_bytes
    hex_to_bytes hex_pairs hex_value merge_cursor bytes_equal bytes_match
poll-IsPolled_example = poll-IsPolled length_checks 64 gateway_responses one_object refl
