-- ===== src/AvOutput/PictureMode.antt =====
-- setPictureMode and getPictureMode: the picture mode of each source and format.
mod Answered
pub mod Kept
pub mod Reset
use entservices_inputoutput.Base.{
  ℤ, pos, Bool, true, false, not, ◌&&◌, Option, none, some, List, [], ◌∷◌, if◌then◌else◌, ℕ,
}
use entservices_inputoutput.HdmiCecSink.Routing.{codes, starts_with}
use entservices_inputoutput.AvOutput.Text.{Name}
use entservices_inputoutput.AvOutput.State.{Env, ParamIndex}
use entservices_inputoutput.AvOutput.Indices.{get_picture_mode_index}
use entservices_inputoutput.AvOutput.Capabilities.{
  CapDetails, no_details, is_capablity_check_passed,
}
use entservices_inputoutput.AvOutput.Update.{Values, each, get_save_config}
use entservices_inputoutput.AvOutput.Request.{
  SetRequest, GetRequest, picture_mode_key, parsing_set_input_argument, parsing_get_input_argument,
  get_param_index, is_set_required, validate_input_parameter,
}

-- What leaves the plugin.
pub data ModeCall : Type 0 where
  set_tv_picture_mode : Name → ModeCall
  save_source_picture_mode : (source format index : ℤ) → ModeCall
  low_latency_mode_changed : Bool → ModeCall

pub record ModeOutcome (S : Type 0) : Type 0 where
  pub answer : Bool
  pub store : S
  pub log : List ModeCall

-- The loops' state: `is_stopped` after a return inside of them.
pub record ModeRun (S : Type 0) : Type 0 where
  pub store : S
  pub log : List ModeCall
  pub is_stopped : Bool

abbrev no_values : Values
no_values = record { source_values = []; pqmode_values = []; format_values = [] }

abbrev values_or_none : Option Values → Values
values_or_none none = no_values
values_or_none (some v) = v

-- The event of a change into the game mode, or out of it: `strncmp` with the length of the mode.
abbrev is_game : Name → Bool
is_game mode = starts_with mode (codes "game")

abbrev game_event : (mode previous : Name) → (dals : Bool) → List ModeCall → List ModeCall
game_event mode previous false log = log
game_event mode previous true log =
    if is_game mode && not (is_game previous)
    then low_latency_mode_changed true ∷ log
    else if is_game previous && not (is_game mode)
    then low_latency_mode_changed false ∷ log
    else log

module _ {S : Type 0} (e : Env S) where
  abbrev pub picture_mode : Name
  picture_mode = codes "PictureMode"

  abbrev saved_mode : Name → (source format : ℤ) → S × Bool → ModeRun S → ModeRun S
  saved_mode mode source format p r =
      if p.1
      then record r {
        store = p.0;
        log = save_source_picture_mode source format (get_picture_mode_index e mode) ∷ r.log;
      }
      else record r { store = p.0; is_stopped = true }

  -- One source and format.
  unfoldable pub keep_mode : Name → (source format : ℤ) → ModeRun S → ModeRun S
  keep_mode mode source format r =
      if r.is_stopped
      then r
      else saved_mode mode source format
          (e.set_local (picture_mode_key e source format) mode r.store) r

  unfoldable pub keep_modes : Name → Values → ModeRun S → ModeRun S
  unfolding each keep_mode
  keep_modes mode v r =
      each (λ source. each (λ format. keep_mode mode source format) v.format_values) v.source_values
        r

  abbrev pub ended_mode : Bool → S → List ModeCall → ModeOutcome S
  ended_mode b s log = record { answer = b; store = s; log = log }

  abbrev pub kept_outcome : (mode previous : Name) → (dals : Bool) → ModeRun S → ModeOutcome S
  kept_outcome mode previous dals r =
      if r.is_stopped
      then ended_mode false r.store r.log
      else ended_mode true r.store (game_event mode previous dals r.log)

  abbrev pub mode_values : CapDetails → Values
  mode_values info = values_or_none (get_save_config e (record info { pqmode = codes "Current" }))

  -- setPictureMode from the loops on.
  unfoldable pub keep_request :
      (mode previous : Name) → (dals : Bool) → CapDetails → S → List ModeCall → ModeOutcome S
  unfolding keep_modes
  keep_request mode previous dals info s log =
      kept_outcome mode previous dals
        (keep_modes mode (mode_values info) record { store = s; log = log; is_stopped = false })

  -- `accepts`: does SetTVPictureMode succeed?
  unfoldable pub apply_mode :
      (accepts : Name → Bool)
      → (mode previous : Name) → (dals : Bool) → CapDetails
      → S
      → List ModeCall
      → ModeOutcome S
  unfolding keep_request is_set_required
  apply_mode accepts mode previous dals info s log =
      if is_set_required e (codes "Current") info.source info.format s
      then (if accepts mode
          then keep_request mode previous dals info s (set_tv_picture_mode mode ∷ log)
          else ended_mode false s (set_tv_picture_mode mode ∷ log))
      else keep_request mode previous dals info s log

  abbrev pub mode_parsed :
      (accepts : Name → Bool)
      → (mode previous : Name) → (dals : Bool) → S
      → List ModeCall
      → Option CapDetails
      → ModeOutcome S
  mode_parsed accepts mode previous dals s log none = ended_mode false s log
  mode_parsed accepts mode previous dals s log (some info) =
      if validate_input_parameter e picture_mode mode
        && is_capablity_check_passed e picture_mode info
      then apply_mode accepts mode previous dals info s log
      else ended_mode false s log

  -- setPictureMode: `mode` is the text of the label "pictureMode", if it is there, `previous` what
  -- GetTVPictureMode gives, and `dals` m_isDalsEnabled; the request's picture modes are what
  -- `Array()` gives for the same label.
  unfoldable pub set_picture_mode :
      (accepts : Name → Bool)
      → (mode : Option Name) → (previous : Name) → (dals : Bool) → SetRequest
      → S
      → List ModeCall
      → ModeOutcome S
  unfolding apply_mode parsing_set_input_argument
  set_picture_mode accepts none previous dals req s log = ended_mode false s log
  set_picture_mode accepts (some mode) previous dals req s log =
      mode_parsed accepts mode previous dals s log
        (parsing_set_input_argument e req picture_mode no_details s)

  abbrev pub mode_at : S → ParamIndex × Bool → Option Name
  mode_at s (i, ok) =
      if ok
      then e.get_local s (picture_mode_key e (pos i.source_index) (pos i.format_index))
      else none

  abbrev pub mode_of : (before : ℕ) → S → Option CapDetails → Option Name
  mode_of before s none = none
  mode_of before s (some info) = mode_at s (get_param_index e info before s)

  -- getPictureMode: the mode, unless false is returned.
  unfoldable pub get_picture_mode : GetRequest → (before : ℕ) → S → Option Name
  unfolding parsing_get_input_argument get_param_index
  get_picture_mode req before s =
      mode_of before s (parsing_get_input_argument e req picture_mode no_details s)
