-- ===== src/Ckb/Discovery.antt =====
-- packages/cemp-ckb/src/discovery.ts: the message cells of a route tag, and waiting for a spend.
-- The indexer's `findCells` and the hex conversions of @ckb-ccc/core are parameters; a conversion
-- that throws is `none`. A poll of a watched cell is one element of a list.
pub mod Pages
pub mod Examples
use cemp_mobile.Prelude.{
  ℕ, suc, ◌+◌, ◌-◌, Bool, true, false, not, ◌&&◌, ◌||◌, List, [], ◌∷◌, Option, none, some, Result,
  ok, err, String, if◌then◌else◌, ◌==◌, leb, length, ◌>>=◌,
}
use cemp_mobile.Core.Codec.{Bytes}

pub record Script : Type 0 where
  pub code_hash : String
  pub hash_type : String
  pub args : String

pub record OutPoint : Type 0 where
  pub tx_hash : String
  pub index : String

pub record CellOutput : Type 0 where
  pub capacity : String
  pub lock : Script
  pub type_script : Option Script

pub record Cell : Type 0 where
  pub out_point : OutPoint
  pub output : CellOutput
  pub data_hex : String
  pub block_number : Option String

pub record CellPage : Type 0 where
  pub cells : List Cell
  pub last_cursor : String

-- The members of `CellQuery` that the query sets.
pub record CellQuery : Type 0 where
  pub script : Script
  pub script_type : String
  pub args_search_mode : String
  pub order : String
  pub after : Option String

pub record MessageCellQuery : Type 0 where
  pub code_hash : String
  pub hash_type : String

-- CempCkbError of `buildRouteTagPrefix` or `watchOutpointUntilSpent`, what the indexer threw, or what
-- `bytesFrom` throws on malformed hex.
pub data DiscoveryError : Type 0 where
  wrong_route_tag : ℕ → DiscoveryError
  wrong_interval : DiscoveryError
  indexer_failed : String → DiscoveryError
  malformed_hex : DiscoveryError
  -- The list of answers ended: no call of the source.
  still_watching : DiscoveryError

abbrev pub version : ℕ
version = 1

abbrev pub route_tag_bytes : ℕ
route_tag_bytes = 32

abbrev pub total_bytes : ℕ
total_bytes = 81

abbrev pub max_envelope_bytes : ℕ
max_envelope_bytes = 82000

unfoldable pub build_route_tag_prefix : Bytes → Result DiscoveryError Bytes
build_route_tag_prefix route_tag =
    if not (length route_tag == route_tag_bytes)
    then err (wrong_route_tag (length route_tag))
    else ok (version ∷ route_tag)

-- The loop that compares the prefix byte by byte.
unfoldable pub starts_with : Bytes → Bytes → Bool
starts_with [] args = true
starts_with (x ∷ prefix) [] = false
starts_with (x ∷ prefix) (y ∷ args) = (y == x) && starts_with prefix args

-- `bytesFrom` as a call that returns or throws.
unfoldable pub read : Option Bytes → Result DiscoveryError Bytes
read none = err malformed_hex
read (some bytes) = ok bytes

abbrev pub message_query : (Bytes → String) → MessageCellQuery → Bytes → Option String → CellQuery
message_query hex_from script prefix cursor = record {
  script = record {
    code_hash = script.code_hash;
    hash_type = script.hash_type;
    args = hex_from prefix;
  };
  script_type = "type";
  args_search_mode = "prefix";
  order = "asc";
  after = cursor;
}

module _ (bytes_from : String → Option Bytes) where
  -- The test of the filter on one cell.
  unfoldable pub is_message : Bytes → Cell → Option Script → Result DiscoveryError Bool
  unfolding starts_with read
  is_message prefix cell none = ok false
  is_message prefix cell (some script) = read (bytes_from script.args) >>= λ args.
      if not (length args == total_bytes) || not (starts_with prefix args)
      then ok false
      else read (bytes_from cell.data_hex) >>= λ bytes. ok (leb (length bytes) max_envelope_bytes)

  unfoldable pub filter_cells : Bytes → List Cell → Result DiscoveryError (List Cell)
  unfolding is_message
  filter_cells prefix [] = ok []
  filter_cells prefix (cell ∷ cells) = is_message prefix cell cell.output.type_script >>= λ keep.
      filter_cells prefix cells >>= λ rest. ok (if keep then cell ∷ rest else rest)

  module _ (hex_from : Bytes → String) (find_cells : CellQuery → Result String CellPage) where
    unfoldable pub filter_page : Bytes → Result String CellPage → Result DiscoveryError CellPage
    unfolding filter_cells
    filter_page prefix (err message) = err (indexer_failed message)
    filter_page prefix (ok page) = filter_cells prefix page.cells >>= λ cells.
        ok (record { cells = cells; last_cursor = page.last_cursor })

    unfoldable pub find_message_cells :
        MessageCellQuery → Bytes → Option String → Result DiscoveryError CellPage
    unfolding build_route_tag_prefix filter_page
    find_message_cells script route_tag cursor = build_route_tag_prefix route_tag >>= λ prefix.
        filter_page prefix (find_cells (message_query hex_from script prefix cursor))

pub data WatchOutpointResult : Type 0 where
  spent timeout : WatchOutpointResult

-- Each poll: whether the cell is live, and `Date.now()` after the answer.
unfoldable pub watch_until : ℕ → List (Bool × ℕ) → Result DiscoveryError WatchOutpointResult
watch_until deadline [] = err still_watching
watch_until deadline ((false, now) ∷ polls) = ok spent
watch_until deadline ((true, now) ∷ polls) =
    let rest = watch_until deadline polls in if leb deadline now then ok timeout else rest

unfoldable pub watch_outpoint_until_spent :
    ℕ → ℕ → ℕ → List (Bool × ℕ) → Result DiscoveryError WatchOutpointResult
unfolding watch_until
watch_outpoint_until_spent poll_interval_ms timeout_ms started polls =
    if (poll_interval_ms == 0) || (timeout_ms == 0)
    then err wrong_interval
    else watch_until (started + timeout_ms) polls
