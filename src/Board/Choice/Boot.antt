-- ===== src/Board/Choice/Boot.antt =====
-- The next boot runs the board that was chosen.
use esp32_streamline.Prelude.{
  if◌then◌else◌, ok-injective, refuse_if-passes, >>-eq-ok, ◌≡◌, refl, ap, sym, ◌∙◌, Bool, true,
  false, Bool-cases, Option, none, some, Result, ok, err, List, [], ◌∷◌, length, ltb, >>=-eq-ok,
  inl, inr, arith, is_some, map_err,
}
use mathlib.Core.Path.{subst}
use mathlib.Core.Option.{some-injective}
use esp32_streamline.Prelude.Bytes.{Text, text_eq, text_eq_refl, eq_of_text_eq}
use esp32_streamline.Board.{Board}
use esp32_streamline.Board.Choice.{
  BoardLoadError, invalid_descriptor, BoardUpdate, built_in, custom, updated_board, is_custom,
  BoardSelection, chosen_built_in, chosen_custom, find, resolve, found_or, Stored, stored_with,
  descriptor_of, if_valid, save_board_state, validate_descriptor, validate_board, parse_descriptor,
  accept_custom, resolve_choice, resolve_update, filled, trimmed, select_custom, select_built_in,
  select, max_descriptor_bytes,
}

find-id :
    (catalog : List Board) (id : Text) {board : Board}
    → find catalog id ≡ some board
    → board.id ≡ id
unfolding find
find-id [] id e = cc
find-id (first ∷ rest) id {board} e = elim (Bool-cases (text_eq first.id id)) [
  | inl same ↦
      let f : first ≡ board = ground (arith, same, e) in
      ap (λ (b : Board). b.id) (sym f) ∙ eq_of_text_eq first.id id same
  | inr other ↦ find-id rest id {board = board} (ground (arith, other, e))
]

-- A board that was found is the one that its own id finds.
find-again :
    (catalog : List Board) (id : Text) {board : Board}
    → find catalog id ≡ some board
    → find catalog board.id ≡ some board
find-again catalog id {board} e = ap (λ i. find catalog i) (find-id catalog id e) ∙ e

-- What is chosen at boot for an accepted update.
abbrev chosen : BoardUpdate → BoardSelection
chosen (built_in board) = chosen_built_in board
chosen (custom board) = chosen_custom board

-- An update that `resolve_update` can give.
abbrev IsResolved : List Board → BoardUpdate → Type 0
IsResolved catalog (built_in board) = find catalog board.id ≡ some board
IsResolved catalog (custom board) = find catalog board.id ≡ none

found_or-eq :
    {E : Type 0} (found : Option Board) (e : E) {board : Board}
    → found_or found e ≡ ok board
    → found ≡ some board
found_or-eq none e h = cc
found_or-eq (some b) e h = cc

absent : (found : Option Board) → is_some found ≡ false → found ≡ none
absent none h = refl
absent (some board) h = cc

module _ (from_str : Text → Result Text Board) (to_string : Board → Text) (trim : Text → Text) where
  resolve_choice-IsResolved :
      (catalog : List Board) (id json : Option Text) (update : BoardUpdate)
      → resolve_choice from_str to_string trim catalog id json ≡ ok update
      → IsResolved catalog update
  unfolding resolve_choice accept_custom
  resolve_choice-IsResolved catalog (some id) (some json) update e = cc
  resolve_choice-IsResolved catalog none none update e = cc
  resolve_choice-IsResolved catalog (some id) none update e =
      let (board, f, g) = >>=-eq-ok (found_or (find catalog id) _) _ e in
      subst (IsResolved catalog) (ok-injective g)
        (find-again catalog id {board = board} (found_or-eq (find catalog id) _ f))
  resolve_choice-IsResolved catalog none (some json) update e =
      let (fits, e1) = refuse_if-passes (ltb max_descriptor_bytes (length json)) _ _ e in
      let (board, parsed, e2) =
        >>=-eq-ok (map_err invalid_descriptor (parse_descriptor from_str to_string trim json)) _
          e1 in
      let (new, e3) = refuse_if-passes (is_some (find catalog board.id)) _ _ e2 in
      subst (IsResolved catalog) (ok-injective e3) (absent (find catalog board.id) new)

  if_valid-eq :
      (checked : Result BoardLoadError Board) (saved : Option Stored) {stored : Stored}
      → if_valid checked saved ≡ some stored
      → ((board : Board) × (checked ≡ ok board)) × (saved ≡ some stored)
  if_valid-eq (ok board) saved e = ((board, refl), e)
  if_valid-eq (err failure) saved e = cc

  validate_descriptor-same :
      (board : Board) {valid : Board}
      → validate_descriptor board ≡ ok valid
      → validate_descriptor board ≡ ok board
  unfolding validate_descriptor
  validate_descriptor-same board e =
      let (passes, same) = >>-eq-ok (validate_board board) _ e in e ∙ sym same

  custom-chosen :
      (catalog : List Board) (board : Board)
      → from_str (to_string board) ≡ ok board
      → find catalog board.id ≡ none
      → validate_descriptor board ≡ ok board
      → select from_str to_string trim catalog (some board.id) (some (to_string board))
        ≡ ok (chosen_custom board)
  unfolding select select_custom parse_descriptor
  custom-chosen catalog board reads_back new valid =
      rw (reads_back, valid, text_eq_refl board.id, new) refl

  custom-stored :
      (board : Board) (large : Bool) {stored : Stored}
      → stored_with board (if large then none else some (some (to_string board))) ≡ some stored
      → record { board_id = some board.id; board_descriptor = some (to_string board) } ≡ stored
  custom-stored board true e = cc
  custom-stored board false e = some-injective _ _ e

  -- What is stored for an accepted update is chosen at the next boot.
  saved-chosen :
      (catalog : List Board) (update : BoardUpdate) {stored : Stored}
      → IsResolved catalog update
      → from_str (to_string (updated_board update)) ≡ ok (updated_board update)
      → save_board_state from_str to_string trim (updated_board update) (is_custom update)
        ≡ some stored
      → select from_str to_string trim catalog stored.board_id stored.board_descriptor
        ≡ ok (chosen update)
  unfolding save_board_state descriptor_of select select_built_in resolve
  saved-chosen catalog (built_in board) found reads_back e =
      let (valid, saved) = if_valid-eq (validate_descriptor board) _ e in
      subst
        (λ (s : Stored).
          select from_str to_string trim catalog s.board_id s.board_descriptor
          ≡ ok (chosen_built_in board))
        (some-injective _ _ saved) (rw (found, select) refl)
  saved-chosen catalog (custom board) found reads_back e =
      let (valid, saved) = if_valid-eq (validate_descriptor board) _ e in
      let c =
        custom-chosen catalog board reads_back found (validate_descriptor-same board valid.1) in
      subst
        (λ (s : Stored).
          select from_str to_string trim catalog s.board_id s.board_descriptor
          ≡ ok (chosen_custom board))
        (custom-stored board (ltb max_descriptor_bytes (length (to_string board))) saved) c

  -- Where `resolve_update` accepts a choice of board and `save_board_state` stores it, the next boot with the
  -- same catalog selects that board, built-in or custom. (The stored descriptor reads back as the board.)
  pub resolve_update-select :
      (catalog : List Board) (id json : Option Text) (update : BoardUpdate) {stored : Stored}
      → resolve_update from_str to_string trim catalog id json ≡ ok update
      → from_str (to_string (updated_board update)) ≡ ok (updated_board update)
      → save_board_state from_str to_string trim (updated_board update) (is_custom update)
        ≡ some stored
      → select from_str to_string trim catalog stored.board_id stored.board_descriptor
        ≡ ok (chosen update)
  unfolding resolve_update
  resolve_update-select catalog id json update e reads_back saved =
      saved-chosen catalog update
        (resolve_choice-IsResolved catalog (filled id)
          (filled (trimmed from_str to_string trim json)) update e)
        reads_back saved
