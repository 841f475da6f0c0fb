-- ===== src/Board/Choice.antt =====
-- Which board the device runs: the catalog, the update of the selection and its resolution at boot
-- (firmware/streamline/src/board/mod.rs, board/catalog.rs, board/update.rs, board/selection.rs), the checks of
-- the codec (codec/mod.rs, codec/es8388.rs) and what adapters/nvs.rs stores. The JSON of serde and
-- `str::trim` are parameters.
pub mod Boot
mod Tests
use esp32_streamline.Prelude.{
  ℕ, ◌+◌, Bool, true, false, not, ◌||◌, Option, none, some, Result, ok, err, List, [], ◌∷◌, ◌++◌,
  length, ltb, ◌==◌, if◌then◌else◌, ◌>>◌, ◌>>=◌, refuse_if, map_err, is_some, is_none, is_some_and,
  unwrap_or,
}
use esp32_streamline.Prelude.Bytes.{Text, bytes, text_eq}
use esp32_streamline.Board.{Board, BoardError, InputOption, is_empty, validate}

abbrev pub max_descriptor_bytes : ℕ
max_descriptor_bytes = 3072

abbrev default_board_id : Text
default_board_id = bytes "ai-thinker-esp32-audio-kit-v2-2-es8388"

abbrev es8388_driver : Text
es8388_driver = bytes "es8388"

pub data CodecError : Type 0 where
  unsupported_driver unsupported_address unsupported_input_line unsupported_input_gain : CodecError
  unsupported_adc_attenuation unsupported_analog_passthrough_route : CodecError

pub data BoardLoadError : Type 0 where
  json_error : Text → BoardLoadError
  invalid_board : Text → BoardError → BoardLoadError
  unsupported_codec : Text → CodecError → BoardLoadError
  duplicate_id missing_default : Text → BoardLoadError

-- `!matches!(line, 1 | 2)`.
abbrev is_other_line : ℕ → Bool
is_other_line line = not (line == 1 || line == 2)

any_other_line : List InputOption → Bool
any_other_line [] = false
any_other_line (input ∷ inputs) = is_other_line input.line || any_other_line inputs

-- The check of the ES8388 driver.
validate_es8388 : Board → Result CodecError (Unit {0})
unfolding any_other_line
validate_es8388 board = do
  refuse_if (not (board.codec.i2c_address == 16)) unsupported_address
  refuse_if (any_other_line board.input_lines) unsupported_input_line
  refuse_if (ltb 100 board.input_gain_max) unsupported_input_gain
  refuse_if (ltb 48 board.adc_atten_max_db) unsupported_adc_attenuation
  refuse_if (is_some_and board.analog_passthrough (λ a. is_other_line a.output_line))
      unsupported_analog_passthrough_route
  ok tt

-- `Driver::resolve` knows one driver.
validate_codec : Board → Result CodecError (Unit {0})
unfolding validate_es8388 text_eq
validate_codec board =
    if text_eq board.codec.driver es8388_driver
    then validate_es8388 board
    else err unsupported_driver

pub validate_board : Board → Result BoardLoadError (Unit {0})
unfolding validate_codec validate
validate_board board = do
  map_err (invalid_board board.id) (validate board)
  map_err (unsupported_codec board.id) (validate_codec board)

pub validate_descriptor : Board → Result BoardLoadError Board
unfolding validate_board
validate_descriptor board = do validate_board board; ok board

unfoldable pub find : List Board → Text → Option Board
unfolding text_eq
find [] id = none
find (board ∷ boards) id =
    let rest = find boards id in if text_eq board.id id then some board else rest

pub resolve : List Board → Option Text → Option Board
unfolding find
resolve catalog id = find catalog (unwrap_or id default_board_id)

-- `validate_catalog`: every board, then the ids pairwise.
validate_boards : List Board → Result BoardLoadError (Unit {0})
unfolding validate_board
validate_boards [] = ok tt
validate_boards (board ∷ boards) = do validate_board board; validate_boards boards

check_ids : List Board → Result BoardLoadError (Unit {0})
unfolding find
check_ids [] = ok tt
check_ids (board ∷ boards) = do
  refuse_if (is_some (find boards board.id)) (duplicate_id board.id)
  check_ids boards

unfoldable validate_catalog : List Board → Result BoardLoadError (Unit {0})
unfolding validate_boards check_ids
validate_catalog catalog = do validate_boards catalog; check_ids catalog

pub data BoardUpdate : Type 0 where
  built_in custom : Board → BoardUpdate

abbrev pub updated_board : BoardUpdate → Board
updated_board (built_in board) = board
updated_board (custom board) = board

abbrev pub is_custom : BoardUpdate → Bool
is_custom (built_in board) = false
is_custom (custom board) = true

pub data BoardUpdateError : Type 0 where
  conflicting_selection missing_selection : BoardUpdateError
  unknown_board built_in_id : Text → BoardUpdateError
  descriptor_too_large : ℕ → ℕ → BoardUpdateError
  invalid_descriptor : BoardLoadError → BoardUpdateError

-- Why nothing resolved, with what its message is made of.
pub data Reason : Type 0 where
  mismatched : Text → Option Text → Reason
  unreadable : BoardLoadError → Reason
  unavailable : Option Text → Reason

pub data BoardSelection : Type 0 where
  chosen_built_in chosen_custom : Board → BoardSelection
  unknown : Board → Reason → BoardSelection

abbrev selected_board : BoardSelection → Board
selected_board (chosen_built_in board) = board
selected_board (chosen_custom board) = board
selected_board (unknown fallback reason) = fallback

abbrev pub found_or {ℓ} : {A E : Type ℓ} → Option A → E → Result E A
found_or none e = err e
found_or (some a) e = ok a

-- The part of the persistent state that names the board.
pub record Stored : Type 0 where
  pub board_id : Option Text
  pub board_descriptor : Option Text

abbrev pub filled : Option Text → Option Text
filled none = none
filled (some text) = if is_empty text then none else some text

abbrev pub stored_with : Board → Option (Option Text) → Option Stored
stored_with board none = none
stored_with board (some descriptor) =
    some (record { board_id = some board.id; board_descriptor = descriptor })

abbrev pub if_valid : {A : Type 0} → Result BoardLoadError Board → Option A → Option A
if_valid (err e) stored = none
if_valid (ok board) stored = stored

module _ (from_str : Text → Result Text Board) (to_string : Board → Text) (trim : Text → Text) where
  pub parse_descriptor : Text → Result BoardLoadError Board
  unfolding validate_descriptor
  parse_descriptor json = do board ← map_err json_error (from_str json); validate_descriptor board

  pub accept_custom : List Board → Board → Result BoardUpdateError BoardUpdate
  unfolding find
  accept_custom catalog board = do
    refuse_if (is_some (find catalog board.id)) (built_in_id board.id)
    ok (custom board)

  pub resolve_choice : List Board → Option Text → Option Text → Result BoardUpdateError BoardUpdate
  unfolding accept_custom parse_descriptor find
  resolve_choice catalog (some id) (some json) = err conflicting_selection
  resolve_choice catalog (some id) none = do
    board ← found_or (find catalog id) (unknown_board id)
    ok (built_in board)
  resolve_choice catalog none (some json) = do
    refuse_if (ltb max_descriptor_bytes (length json))
        (descriptor_too_large (length json) max_descriptor_bytes)
    board ← map_err invalid_descriptor (parse_descriptor json)
    accept_custom catalog board
  resolve_choice catalog none none = err missing_selection

  abbrev pub trimmed : Option Text → Option Text
  trimmed none = none
  trimmed (some text) = some (trim text)

  pub resolve_update : List Board → Option Text → Option Text → Result BoardUpdateError BoardUpdate
  unfolding resolve_choice
  resolve_update catalog board_id descriptor_json =
      resolve_choice catalog (filled board_id) (filled (trimmed descriptor_json))

  -- The board's part of `save_board_state`: what it stores, or `none` where it refuses.
  pub descriptor_of : Board → Bool → Option (Option Text)
  descriptor_of board false = some none
  descriptor_of board true =
      if ltb max_descriptor_bytes (length (to_string board))
      then none
      else some (some (to_string board))

  pub save_board_state : Board → Bool → Option Stored
  unfolding descriptor_of validate_descriptor
  save_board_state board is_custom =
      if_valid (validate_descriptor board) (stored_with board (descriptor_of board is_custom))

  -- Nothing stored resolves: the fallback, with the reason.
  fall_back : List Board → Reason → Result BoardLoadError BoardSelection
  unfolding resolve
  fall_back catalog reason = do
    board ← found_or (resolve catalog none) (missing_default default_board_id)
    ok (unknown board reason)

  pub select_custom :
      List Board → Option Text → Result BoardLoadError Board → Result BoardLoadError BoardSelection
  unfolding find fall_back text_eq
  select_custom catalog stored_id (ok board) =
      if is_some_and stored_id (λ id. text_eq id board.id)
      then (if is_none (find catalog board.id)
          then ok (chosen_custom board)
          else fall_back catalog (mismatched board.id stored_id))
      else fall_back catalog (mismatched board.id stored_id)
  select_custom catalog stored_id (err e) = fall_back catalog (unreadable e)

  pub select_built_in :
      List Board → Option Text → Option Board → Result BoardLoadError BoardSelection
  unfolding fall_back
  select_built_in catalog stored_id (some board) = ok (chosen_built_in board)
  select_built_in catalog stored_id none = fall_back catalog (unavailable stored_id)

  pub select : List Board → Option Text → Option Text → Result BoardLoadError BoardSelection
  unfolding select_custom select_built_in parse_descriptor resolve
  select catalog stored_id (some json) = select_custom catalog stored_id (parse_descriptor json)
  select catalog stored_id none = select_built_in catalog stored_id (resolve catalog stored_id)
