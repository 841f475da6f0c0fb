-- ===== src/Board/Choice/Tests.antt =====
-- A custom board that is uploaded, stored and selected at the next boot.
use esp32_streamline.Prelude.{◌≡◌, refl, true, none, some, Result, ok, [], ◌∷◌}
use esp32_streamline.Prelude.Bytes.{Text, bytes}
use esp32_streamline.Board.{Board}
use esp32_streamline.Board.Tests.{old_board, new_board, new_board_valid}
use esp32_streamline.Board.Choice.{
  custom, chosen_custom, select, resolve_update, save_board_state, validate_descriptor,
}
use esp32_streamline.Board.Choice.Boot.{resolve_update-select}

-- One descriptor, and its text.
abbrev read_board : Text → Result Text Board
read_board json = ok new_board

abbrev board_text : Board → Text
board_text board = bytes "{}"

abbrev untrimmed : Text → Text
untrimmed text = text

codec_valid : validate_descriptor new_board ≡ ok new_board
unfolding validate_descriptor
codec_valid = rw (new_board_valid) refl

accepted :
    resolve_update read_board board_text untrimmed (old_board ∷ []) none (some (bytes "{}"))
    ≡ ok (custom new_board)
unfolding resolve_update
accepted = rw (codec_valid) refl

saved :
    save_board_state read_board board_text untrimmed new_board true
    ≡ some (record { board_id = some (bytes "new"); board_descriptor = some (bytes "{}") })
unfolding save_board_state
saved = rw (codec_valid) refl

resolve_update-select_example :
    select read_board board_text untrimmed (old_board ∷ []) (some (bytes "new")) (some (bytes "{}"))
    ≡ ok (chosen_custom new_board)
resolve_update-select_example =
    resolve_update-select read_board board_text untrimmed (old_board ∷ []) none (some (bytes "{}"))
      (custom new_board) accepted refl saved
