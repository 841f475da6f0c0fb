-- ===== src/Profiles.antt =====
-- The catalog of audio profiles (firmware/streamline/src/profiles.rs). `str::trim` is a parameter; the
-- characters of a name are counted as in Config. The set of ids is the list of those before.
pub mod Active
mod Tests
use esp32_streamline.Prelude.{
  ℕ, Bool, true, false, not, ◌&&◌, ◌||◌, Option, none, some, Result, ok, err, List, [], ◌∷◌, length,
  ltb, leb, ◌==◌, if◌then◌else◌, ◌>>◌, refuse_if, map_err, is_some_and,
}
use esp32_streamline.Prelude.Bytes.{Text, text_eq, all_bytes}
use esp32_streamline.Board.{Board, is_empty}
use esp32_streamline.Config.{AudioSettings, ConfigError, validate_audio, char_count}

abbrev audio_profile_schema_version : ℕ
audio_profile_schema_version = 1

abbrev max_audio_profiles : ℕ
max_audio_profiles = 8

abbrev max_audio_profile_id_chars : ℕ
max_audio_profile_id_chars = 32

abbrev max_audio_profile_name_chars : ℕ
max_audio_profile_name_chars = 32

pub record AudioProfile : Type 0 where
  pub id : Text
  pub name : Text
  pub audio : AudioSettings

pub record AudioProfileCatalog : Type 0 where
  pub schema_version : ℕ
  pub board_id : Text
  pub active_profile_id : Option Text
  pub profiles : List AudioProfile

pub data AudioProfileError : Type 0 where
  unsupported_schema wrong_board too_many_profiles duplicate_id invalid_id : AudioProfileError
  invalid_name unknown_active_profile : AudioProfileError
  invalid_audio : ConfigError → AudioProfileError

unfoldable pub empty : Board → AudioProfileCatalog
empty board = record {
  schema_version = audio_profile_schema_version;
  board_id = board.id;
  active_profile_id = none;
  profiles = [];
}

-- `PartialEq` of the settings.
pub audio_eq : AudioSettings → AudioSettings → Bool
audio_eq a b =
    (a.input_line == b.input_line)
    && (a.input_gain == b.input_gain)
    && (a.adc_attenuation_db == b.adc_attenuation_db)

abbrev is_lower_or_digit : ℕ → Bool
is_lower_or_digit c = (leb b'a' c && leb c b'z') || (leb b'0' c && leb c b'9')

-- The first byte may not be a hyphen.
valid_id : Text → Bool
unfolding all_bytes
valid_id [] = false
valid_id (c ∷ cs) =
    leb (length (c ∷ cs)) max_audio_profile_id_chars
    && is_lower_or_digit c
    && all_bytes (λ b. is_lower_or_digit b || (b == b'-')) cs

abbrev pub done : {A : Type 0} → Result ConfigError A → Result ConfigError (Unit {0})
done (ok a) = ok tt
done (err e) = err e

pub has_id : Text → List AudioProfile → Bool
unfolding text_eq
has_id id [] = false
has_id id (p ∷ ps) = text_eq p.id id || has_id id ps

unfoldable pub find : List AudioProfile → Text → Option AudioProfile
unfolding text_eq
find [] id = none
find (p ∷ ps) id = let rest = find ps id in if text_eq p.id id then some p else rest

abbrev audio_of : Option AudioProfile → Option AudioSettings
audio_of none = none
audio_of (some p) = some p.audio

abbrev find_active : List AudioProfile → Option Text → Option AudioProfile
find_active ps none = none
find_active ps (some id) = find ps id

pub active_audio : AudioProfileCatalog → Option AudioSettings
unfolding find
active_audio c = audio_of (find_active c.profiles c.active_profile_id)

-- The catalog after the call, and what it returns.
abbrev pub activate_found :
    AudioProfileCatalog
    → Option AudioProfile
    → AudioProfileCatalog × Result AudioProfileError (Option AudioSettings)
activate_found c none = (c, err unknown_active_profile)
activate_found c (some p) = (record c { active_profile_id = some p.id }, ok (some p.audio))

pub activate_id :
    AudioProfileCatalog
    → Text
    → AudioProfileCatalog × Result AudioProfileError (Option AudioSettings)
unfolding find
activate_id c [] = (record c { active_profile_id = none }, ok none)
activate_id c (x ∷ xs) = activate_found c (find c.profiles (x ∷ xs))

unfoldable pub activate :
    AudioProfileCatalog
    → Option Text
    → AudioProfileCatalog × Result AudioProfileError (Option AudioSettings)
unfolding activate_id
activate c none = (record c { active_profile_id = none }, ok none)
activate c (some id) = activate_id c id

unfoldable pub reconcile_active_audio : AudioProfileCatalog → AudioSettings → AudioProfileCatalog
unfolding active_audio audio_eq
reconcile_active_audio c current =
    if is_some_and (active_audio c) (λ audio. not (audio_eq audio current))
    then record c { active_profile_id = none }
    else c

module _ (trim : Text → Text) where
  validate_profile : AudioProfile → Board → Result AudioProfileError (Unit {0})
  unfolding valid_id validate_audio text_eq char_count
  validate_profile p board = do
    refuse_if (not (valid_id p.id)) invalid_id
    refuse_if
        (is_empty (trim p.name)
          || not (text_eq (trim p.name) p.name)
          || ltb max_audio_profile_name_chars (char_count p.name))
        invalid_name
    map_err invalid_audio (done (validate_audio p.audio board))

  pub validate_profiles :
      List AudioProfile → List AudioProfile → Board → Result AudioProfileError (Unit {0})
  unfolding validate_profile has_id
  validate_profiles seen [] board = ok tt
  validate_profiles seen (p ∷ ps) board = do
    validate_profile p board
    refuse_if (has_id p.id seen) duplicate_id
    validate_profiles (p ∷ seen) ps board

  unfoldable pub validate : AudioProfileCatalog → Board → Result AudioProfileError (Unit {0})
  unfolding validate_profiles has_id text_eq
  validate c board = do
    refuse_if (not (c.schema_version == audio_profile_schema_version)) unsupported_schema
    refuse_if (not (text_eq c.board_id board.id)) wrong_board
    refuse_if (ltb max_audio_profiles (length c.profiles)) too_many_profiles
    validate_profiles [] c.profiles board
    refuse_if (is_some_and c.active_profile_id (λ id. not (has_id id c.profiles)))
        unknown_active_profile
