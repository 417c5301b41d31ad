-- ===== src/AvOutput/Tests.antt =====
-- A television with two picture modes, one source and two formats.
use entservices_inputoutput.Base.{
  ℤ, pos, ◌↔◌, ◌⊎◌, ◌≡◌, refl, true, Option, none, some, List, [], ◌∷◌, arith, if◌then◌else◌,
  String,
}
use entservices_inputoutput.HdmiInput.{number}
use entservices_inputoutput.HdmiCecSink.Routing.{codes}
use entservices_inputoutput.AvOutput.Text.{
  join_onto, stoi, Name, same_name, split, strtok, convert_to_string, append_names,
}
use entservices_inputoutput.AvOutput.Text.Lists.{names_survive}
use entservices_inputoutput.AvOutput.State.{TvConstants, Env, IsLawful}
use entservices_inputoutput.AvOutput.Capabilities.{
  CapDetails, no_details, get_params_caps, read_capablities_from_conf, fetch_capablities, member,
  is_capablity_check_passed,
}
use entservices_inputoutput.AvOutput.Indices.{name_of, index_of}
use entservices_inputoutput.AvOutput.Update.{
  get_save_config, get_available_capability_modes, without_all,
}
use entservices_inputoutput.AvOutput.Storage.{
  get_localparam, dolby_mode_string, to_store, read_stored,
}
use entservices_inputoutput.AvOutput.Request.{SetRequest, value_or, validate_input_parameter}
use entservices_inputoutput.AvOutput.Levels.{
  pq_index, brightness, set_level, reset_level, get_level, value,
}
use entservices_inputoutput.AvOutput.Levels.Plain.{IsPlain, get_request}
use entservices_inputoutput.AvOutput.Levels.Stored.{
  named_index, set_level_is_read, reset_level_is_default,
}
use entservices_inputoutput.AvOutput.Levels.Refused.{
  IsUntouched, IsChecked, IsInRange, acts_only_after_checks, unknown_mode_is_answered,
}
use entservices_inputoutput.AvOutput.Capabilities.Included.{AreListed, check_is_inclusion}
use entservices_inputoutput.AvOutput.Storage.Names.{
  stored_names_are_read, hdr_mode_is_read_as_game, dolby,
}
use entservices_inputoutput.AvOutput.PictureMode.{get_picture_mode, set_picture_mode}
use entservices_inputoutput.AvOutput.PictureMode.Reset.{
  reset_picture_mode, reset_picture_mode_is_default,
}
use entservices_inputoutput.AvOutput.PictureMode.Kept.{set_picture_mode_is_read}

abbrev constants : TvConstants
constants = record {
  color_standard = pos 0;
  color_warm = pos 1;
  color_cold = pos 2;
  color_user = pos 3;
  dimming_fixed = pos 0;
  dimming_local = pos 1;
  dimming_global = pos 2;
  dolby_dark = pos 0;
  dolby_bright = pos 1;
  dolby_game = pos 2;
  hdr10_dark = pos 3;
  hdr10_bright = pos 4;
  hdr10_game = pos 5;
  hlg_dark = pos 6;
  hlg_bright = pos 7;
  hlg_game = pos 8;
}

-- A table of texts, the newest first; an entry without a value is one that was cleared.
abbrev Table : Type 0
Table = List (Name × Option Name)

abbrev find : Table → Name → Option Name
find [] key = none
find ((k, v) ∷ rest) key = let other = find rest key in if same_name key k then v else other

-- The capability file.
abbrev entries : List (String × String)
entries =
    ("Brightness.range_from", "0")
    ∷ ("Brightness.range_to", "100")
    ∷ ("Brightness.pqmode", "standard,game")
    ∷ ("Brightness.format", "SDR,HDR10")
    ∷ ("Brightness.source", "HDMI1")
    ∷ ("PictureMode.range", "standard,game")
    ∷ ("PictureMode.index", "0,1")
    ∷ ("PictureMode.pqmode", "standard,game")
    ∷ ("PictureMode.format", "SDR,HDR10")
    ∷ ("PictureMode.source", "HDMI1")
    ∷ []

abbrev file : List (String × String) → Table
file [] = []
file ((k, v) ∷ rest) = (codes k, some (codes v)) ∷ file rest

abbrev env : Env Table
env = record {
  get_local = find;
  set_local = λ key v s. ((key, some v) ∷ s, true);
  clear_local = λ key s. ((key, none) ∷ s, true);
  default_local = λ key. none;
  ini = find (file entries);
  sources = (codes "HDMI1", pos 1) ∷ [];
  modes = (codes "game", pos 1) ∷ (codes "standard", pos 0) ∷ [];
  formats = (codes "HDR10", pos 2) ∷ (codes "SDR", pos 1) ∷ [];
  video_source_ip = pos 0;
  video_format_none = pos 0;
  video_format_sdr = pos 1;
  current_source = some (pos 1);
  current_format = pos 2;
  default_pq = λ pq i. some (pos 50);
  accepts = λ c. true;
  constants = constants;
}

env-IsLawful : IsLawful env
env-IsLawful = record { get-set = λ s k v j h. refl; get-clear = λ s k j h. refl }

abbrev two_names : List Name
two_names = codes "standard" ∷ codes "game" ∷ []

names_survive_example :
    (split (convert_to_string two_names) ≡ two_names)
    × ((strtok (convert_to_string two_names) ≡ two_names)
        × ((split (append_names [] two_names) ≡ two_names)
            × (strtok (append_names [] two_names) ≡ two_names)))
names_survive_example = names_survive two_names (
  (refl, (refl, (refl, (refl, (refl, (refl, (refl, (refl, (refl, tt))))))))),
  ((refl, (refl, (refl, (refl, (refl, tt))))), tt),
)

abbrev game_request : SetRequest
game_request = record { picture_modes = codes "game" ∷ []; video_sources = []; video_formats = [] }

abbrev game_shown : CapDetails
game_shown = record no_details {
  pqmode = codes "game";
  source = codes "HDMI1";
  format = codes "SDR,HDR10";
}

hdmi1-IsPlain : IsPlain (codes "HDMI1")
hdmi1-IsPlain = (refl, refl)

game-IsPlain : IsPlain (codes "game")
game-IsPlain = (refl, refl)

standard-IsPlain : IsPlain (codes "standard")
standard-IsPlain = (refl, refl)

hdr10-IsPlain : IsPlain (codes "HDR10")
hdr10-IsPlain = (refl, refl)

sdr-IsPlain : IsPlain (codes "SDR")
sdr-IsPlain = (refl, refl)

set_level_is_read_example :
    get_level env brightness
      (get_request env (codes "HDMI1") (codes "game") (codes "SDR"))
      7
      (set_level env brightness (number (pos 40)) game_request [] []).store
    ≡ value (pos 40)
unfolding set_level get_params_caps read_capablities_from_conf split stoi fetch_capablities
    join_onto name_of get_available_capability_modes without_all strtok member get_localparam
set_level_is_read_example =
    set_level_is_read env env-IsLawful brightness (pos 40) (omega arith) game_request [] []
      game_shown (codes "HDMI1") (codes "game") (codes "SDR") 7 refl refl refl refl refl
      hdmi1-IsPlain game-IsPlain sdr-IsPlain

reset_level_is_default_example :
    get_level env brightness
      (get_request env (codes "HDMI1") (codes "game") (codes "SDR"))
      7
      (reset_level env brightness game_request 7 [] []).store
    ≡ value (pos 50)
unfolding reset_level index_of get_params_caps read_capablities_from_conf split stoi
    fetch_capablities join_onto name_of get_available_capability_modes without_all strtok member
    get_localparam
reset_level_is_default_example =
    reset_level_is_default env env-IsLawful brightness game_request [] [] game_shown (codes "HDMI1")
      (codes "game") (codes "SDR") 7 refl refl refl refl refl hdmi1-IsPlain game-IsPlain sdr-IsPlain
      refl

set_picture_mode_is_read_example :
    get_picture_mode env
      (get_request env (codes "HDMI1") (codes "standard") (codes "HDR10"))
      7
      (set_picture_mode env
        (λ m. true)
        (some (codes "game"))
        (codes "standard")
        true
        game_request
        []
        []).store
    ≡ some (codes "game")
unfolding set_picture_mode validate_input_parameter get_params_caps read_capablities_from_conf split
    stoi fetch_capablities join_onto name_of get_available_capability_modes without_all strtok
    member index_of is_capablity_check_passed get_save_config
set_picture_mode_is_read_example =
    set_picture_mode_is_read env env-IsLawful (λ m. true) (codes "game") (codes "standard") true
      game_request [] [] (record game_shown { pqmode = codes "Current" }) (codes "HDMI1")
      (codes "standard") (codes "HDR10") 7 1 2 refl refl refl refl hdmi1-IsPlain standard-IsPlain
      hdr10-IsPlain refl refl (omega arith) (omega arith)

abbrev brightness_caps : CapDetails
brightness_caps = record no_details {
  range = codes "0,100";
  pqmode = codes "standard,game";
  format = codes "SDR,HDR10";
  source = codes "HDMI1";
}

check_is_inclusion_example :
    (is_capablity_check_passed env (codes "Brightness") game_shown ≡ true) ↔ (
      AreListed (split brightness_caps.pqmode) (split game_shown.pqmode)
      × (AreListed (split brightness_caps.format) (split game_shown.format)
          × AreListed (split brightness_caps.source) (split game_shown.source)))
unfolding read_capablities_from_conf
check_is_inclusion_example =
    check_is_inclusion env (codes "Brightness") brightness_caps game_shown refl refl refl

acts_only_after_checks_example :
    (IsUntouched env (set_level env brightness (number (pos 400)) game_request [] []) [] []
      ⊎ ((n : ℤ) × ((number (pos 400) ≡ number n)
            × (IsInRange env brightness n × IsChecked env brightness game_request []))))
    × (IsUntouched env (reset_level env brightness game_request 7 [] []) [] []
        ⊎ IsChecked env brightness game_request [])
acts_only_after_checks_example =
    acts_only_after_checks env brightness (number (pos 400)) game_request 7 [] []

stored_names_are_read_example :
    (read_stored constants (codes "ColorTemp") [] (codes "Cold") (pos 0) ≡ some (pos 2))
    × (read_stored constants (codes "DimmingMode") [] (codes "Global") (pos 0) ≡ some (pos 2))
unfolding to_store
stored_names_are_read_example =
    stored_names_are_read constants [] (codes "Cold") (codes "Global") (pos 2) (pos 2) (pos 0) refl
      refl

hdr_mode_is_read_as_game_example :
    (read_stored constants
        (codes "HDRMode")
        (codes "Format.DV.HDRMode")
        (dolby_mode_string constants (pos 0))
        (pos 0)
      ≡ some (pos 0))
    × (read_stored constants
          (codes "HDRMode")
          (codes "Format.DV.HDRMode")
          (dolby_mode_string constants (pos 1))
          (pos 0)
        ≡ some (pos 2))
    × (read_stored constants
          (codes "HDRMode")
          (codes "Format.DV.HDRMode")
          (dolby_mode_string constants (pos 2))
          (pos 0)
        ≡ some (pos 2))
hdr_mode_is_read_as_game_example =
    hdr_mode_is_read_as_game constants dolby (codes "Format.DV.HDRMode") (pos 0) refl refl refl refl

abbrev brightness_listed : CapDetails
brightness_listed = record brightness_caps { range = [] }

unknown_mode_is_answered_example :
    get_level env brightness (get_request env (codes "HDMI1") (codes "movie") (codes "SDR")) 7 []
    ≡ value (
        value_or
          (env.default_pq
            (pq_index brightness)
            (record (named_index env (codes "HDMI1") (codes "movie") (codes "SDR")) {
              pqmode_index = 255;
            }))
          (pos 0))
unfolding fetch_capablities get_params_caps read_capablities_from_conf split join_onto index_of
unknown_mode_is_answered_example =
    unknown_mode_is_answered env brightness (codes "HDMI1") (codes "movie") (codes "SDR") 7 []
      brightness_listed refl refl hdmi1-IsPlain (refl, refl) sdr-IsPlain refl refl

-- The same television with a settings file that has the mode "standard" for every key.
abbrev env_with_file : Env Table
env_with_file = record env {
  clear_local = λ key s. ((key, some (codes "standard")) ∷ s, true);
  default_local = λ key. some (codes "standard");
}

env_with_file-IsLawful : IsLawful env_with_file
env_with_file-IsLawful = record { get-set = λ s k v j h. refl; get-clear = λ s k j h. refl }

reset_picture_mode_is_default_example :
    get_picture_mode env_with_file
      (get_request env_with_file (codes "HDMI1") (codes "standard") (codes "HDR10"))
      7
      (reset_picture_mode env_with_file (λ m. true) game_request [] []).store
    ≡ some (codes "standard")
unfolding reset_picture_mode get_params_caps read_capablities_from_conf split stoi fetch_capablities
    join_onto name_of get_available_capability_modes without_all strtok member index_of
    is_capablity_check_passed get_save_config
reset_picture_mode_is_default_example =
    reset_picture_mode_is_default env_with_file (λ m. true) env_with_file-IsLawful game_request []
      [] (record game_shown { pqmode = codes "Current" }) (codes "HDMI1") (codes "standard")
      (codes "HDR10") 7 1 2 refl refl refl refl hdmi1-IsPlain standard-IsPlain hdr10-IsPlain refl
      refl (omega arith) (omega arith)
