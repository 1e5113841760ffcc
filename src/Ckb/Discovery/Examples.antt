-- ===== src/Ckb/Discovery/Examples.antt =====
-- A page with a message of the recipient and a cell of a stranger.
use cemp_mobile.Prelude.{
  ℕ, zero, suc, ◌≡◌, refl, true, false, [], ◌∷◌, ◌++◌, Option, none, some, Result, ok, String,
  str_eq, if◌then◌else◌,
}
use cemp_mobile.Core.Codec.{Bytes}
use cemp_mobile.Ckb.Discovery.{
  Script, Cell, CellPage, CellQuery, MessageCellQuery, find_message_cells,
  watch_outpoint_until_spent, spent, timeout,
}
use cemp_mobile.Ckb.Discovery.Pages.{Selection, IsMessageOf, find_message_cells-Selection}

abbrev repeat : ℕ → ℕ → Bytes
repeat zero byte = []
repeat (suc n) byte = byte ∷ repeat n byte

-- Three strings that decode.
abbrev bytes_from : String → Option Bytes
bytes_from text =
    if str_eq text "0xmine"
    then some (1 ∷ repeat 32 7 ++ repeat 48 0)
    else if str_eq text "0xother"
    then some (1 ∷ repeat 32 8 ++ repeat 48 0)
    else if str_eq text "0x00"
    then some (0 ∷ [])
    else none

abbrev script_of : String → Script
script_of args = record { code_hash = "0xc0"; hash_type = "type"; args = args }

abbrev cell_of : String → Cell
cell_of args = record {
  out_point = record { tx_hash = "0xaa"; index = "0x0" };
  output = record {
    capacity = "0x1";
    lock = script_of "0x00";
    type_script = some (script_of args);
  };
  data_hex = "0x00";
  block_number = none;
}

abbrev answered : CellPage
answered = record { cells = cell_of "0xother" ∷ cell_of "0xmine" ∷ []; last_cursor = "0xff" }

abbrev indexer : CellQuery → Result String CellPage
indexer query = ok answered

abbrev message_script : MessageCellQuery
message_script = record { code_hash = "0xc0"; hash_type = "type" }

find_message_cells-Selection_example :
    (found : CellPage) × (find_message_cells bytes_from
        (λ _. "0xprefix")
        indexer
        message_script
        (repeat 32 7)
        none
      ≡ ok found)
    × (found.last_cursor ≡ answered.last_cursor)
    × Selection (IsMessageOf bytes_from (repeat 32 7)) answered.cells found.cells
find_message_cells-Selection_example =
    find_message_cells-Selection bytes_from (λ _. "0xprefix") indexer message_script (repeat 32 7)
      none answered refl refl
      (
        ((λ s t. (1 ∷ repeat 32 8 ++ repeat 48 0, cc t)), 0 ∷ [], refl),
        (((λ s t. (1 ∷ repeat 32 7 ++ repeat 48 0, cc t)), 0 ∷ [], refl), tt),
      )

-- The stranger's cell is dropped.
finds_mine :
    find_message_cells bytes_from (λ _. "0xprefix") indexer message_script (repeat 32 7) none
    ≡ ok (record { cells = cell_of "0xmine" ∷ []; last_cursor = "0xff" })
unfolding find_message_cells
finds_mine = refl

watch_spent : watch_outpoint_until_spent 5000 600000 0 ((true, 10) ∷ (false, 5010) ∷ []) ≡ ok spent
unfolding watch_outpoint_until_spent
watch_spent = refl

watch_timeout :
    watch_outpoint_until_spent 5000 600000 0 ((true, 10) ∷ (true, 600000) ∷ (false, 600001) ∷ [])
    ≡ ok timeout
unfolding watch_outpoint_until_spent
watch_timeout = refl
