-- ===== src/AvOutput/Levels.antt =====
-- The API of the settings that are one number: brightness, contrast, saturation, sharpness, hue and
-- backlight have the same get, set, reset and capability methods, up to the check of the platform's
-- support that only the backlight has.
mod Answered
pub mod Methods
pub mod Plain
pub mod Stored
pub mod Refused
use entservices_inputoutput.Base.{
  ℕ, ℤ, pos, String, Bool, true, false, Option, none, some, List, [], ◌∷◌, if◌then◌else◌, get_elem?,
}
use entservices_inputoutput.HdmiInput.{Param, absent, malformed, number}
use entservices_inputoutput.HdmiCecSink.Routing.{codes}
use entservices_inputoutput.AvOutput.Text.{◌>>=◌, Name, same_name}
use entservices_inputoutput.AvOutput.State.{
  PqParam, pq_brightness, pq_contrast, pq_saturation, pq_sharpness, pq_hue, pq_backlight, Call,
  apply, Env, Run,
}
use entservices_inputoutput.AvOutput.Storage.{
  is_param, Local, found, no_key, not_stored, local_thrown, get_localparam,
}
use entservices_inputoutput.AvOutput.Capabilities.{
  CapDetails, no_details, CapVectors, get_params_caps, is_platform_support,
  is_capablity_check_passed,
}
use entservices_inputoutput.AvOutput.Update.{set_action, reset_action, update_av_output_tv_param}
use entservices_inputoutput.AvOutput.Request.{
  SetRequest, GetRequest, parsing_set_input_argument, parsing_get_input_argument, get_param_index,
  is_set_required, validate_integer_input_parameter, stoi_at,
}

pub data Level : Type 0 where
  brightness contrast saturation sharpness hue backlight : Level

abbrev pub level_name : Level → Name
level_name brightness = codes "Brightness"
level_name contrast = codes "Contrast"
level_name saturation = codes "Saturation"
level_name sharpness = codes "Sharpness"
level_name hue = codes "Hue"
level_name backlight = codes "Backlight"

abbrev pub pq_index : Level → PqParam
pq_index brightness = pq_brightness
pq_index contrast = pq_contrast
pq_index saturation = pq_saturation
pq_index sharpness = pq_sharpness
pq_index hue = pq_hue
pq_index backlight = pq_backlight

-- How a method ends, and what it leaves behind.
pub data Answer : Type 0 where
  answered : Bool → Answer
  thrown : Answer

pub record Outcome (S : Type 0) : Type 0 where
  pub answer : Answer
  pub store : S
  pub log : List Call

pub data Got : Type 0 where
  value : ℤ → Got
  refused get_thrown : Got

-- The capabilities of a level, as they are answered; a part is left out where its list begins with
-- "none".
pub record LevelCaps : Type 0 where
  platform_support : Option Bool
  pub range_from : ℤ
  pub range_to : ℤ
  picture_mode_info : Option (List Name)
  video_source_info : Option (List Name)
  video_format_info : Option (List Name)

pub data CapsAnswer : Type 0 where
  caps : LevelCaps → CapsAnswer
  caps_refused caps_thrown : CapsAnswer

-- The list of a part, and no list where it begins with "none"; `none` is `front()` of an empty vector.
abbrev info_of : List Name → Option (Option (List Name))
info_of [] = none
info_of (n ∷ ns) = some (if is_param "none" n then none else some (n ∷ ns))

abbrev platform_of : Level → List Name → Option (Option Bool)
platform_of backlight [] = none
platform_of backlight (p ∷ ps) = some (some (same_name p (codes "true")))
platform_of _ ps = some none

abbrev caps_of : Level → CapVectors → Option LevelCaps
caps_of p info = do
  platform ← platform_of p info.is_platform_support_vector
  from ← stoi_at info.range_vector 0
  to ← stoi_at info.range_vector 1
  pqmodes ← info_of info.pqmode_vector
  sources ← info_of info.source_vector
  formats ← info_of info.format_vector
  some record {
    platform_support = platform;
    range_from = from;
    range_to = to;
    picture_mode_info = pqmodes;
    video_source_info = sources;
    video_format_info = formats;
  }

module _ {S : Type 0} (e : Env S) where
  -- The check of the platform, which only the backlight has.
  abbrev pub platform_check : Level → Option Bool
  platform_check backlight = is_platform_support e (codes "Backlight")
  platform_check _ = some true

  abbrev pub ended : Bool → S → List Call → Outcome S
  ended b s log = record { answer = answered b; store = s; log = log }

  abbrev pub throws : S → List Call → Outcome S
  throws s log = record { answer = thrown; store = s; log = log }

  abbrev pub start_run : ℤ → S → List Call → Run S
  start_run v s log = record {
    store = s;
    log = log;
    level = v;
    is_failed = false;
    is_thrown = false;
  }

  -- The end of a set request: the loops' result.
  abbrev pub run_outcome : Run S → Outcome S
  run_outcome r =
      if r.is_thrown
      then throws r.store r.log
      else if r.is_failed
      then ended false r.store r.log
      else ended true r.store r.log

  unfoldable pub save_request : Level → ℤ → CapDetails → S → List Call → Outcome S
  unfolding update_av_output_tv_param
  save_request p v info s log =
      run_outcome (
        update_av_output_tv_param e set_action (level_name p) (pq_index p) info (start_run v s log))

  -- setBrightness from the check of the current video on.
  unfoldable pub apply_request : Level → ℤ → CapDetails → S → List Call → Outcome S
  unfolding save_request is_set_required
  apply_request p v info s log =
      if is_set_required e info.pqmode info.source info.format s
      then (if e.accepts (apply (pq_index p) v)
          then save_request p v info s (apply (pq_index p) v ∷ log)
          else ended false s (apply (pq_index p) v ∷ log))
      else save_request p v info s log

  -- A check that refuses the request, or throws.
  abbrev pub on_check : Option Bool → S → List Call → Outcome S → Outcome S
  on_check none s log next = throws s log
  on_check (some false) s log next = ended false s log
  on_check (some true) s log next = next

  abbrev pub check_capability :
      Level → (CapDetails → Outcome S) → S → List Call → CapDetails → Outcome S
  check_capability p next s log info =
      if is_capablity_check_passed e (level_name p) info then next info else ended false s log

  abbrev pub on_parsed :
      Level → (CapDetails → Outcome S) → S → List Call → Option CapDetails → Outcome S
  on_parsed p next s log none = ended false s log
  on_parsed p next s log (some info) =
      on_check (platform_check p) s log (check_capability p next s log info)

  -- The checks that the set and the reset method share.
  unfoldable pub checked : Level → SetRequest → (CapDetails → Outcome S) → S → List Call → Outcome S
  unfolding parsing_set_input_argument is_capablity_check_passed
  checked p req next s log =
      on_parsed p next s log (parsing_set_input_argument e req (level_name p) no_details s)

  -- setBrightness, setContrast, setSaturation, setSharpness, setHue, setBacklight. `malformed` is a
  -- text that stoi throws at.
  unfoldable pub set_level : Level → Param → SetRequest → S → List Call → Outcome S
  unfolding checked apply_request validate_integer_input_parameter
  set_level p absent req s log = ended false s log
  set_level p malformed req s log = throws s log
  set_level p (number v) req s log =
      on_check (validate_integer_input_parameter e (level_name p) v) s log
        (checked p req (λ info. apply_request p v info s log) s log)

  abbrev current_details : CapDetails → CapDetails
  current_details info = record info {
    pqmode = codes "Current";
    source = codes "Current";
    format = codes "Current";
  }

  -- The driver gets the value for the current video.
  abbrev apply_local : Level → Local → S → List Call → Outcome S
  apply_local p (found v) s log =
      ended (e.accepts (apply (pq_index p) v)) s (apply (pq_index p) v ∷ log)
  apply_local p local_thrown s log = throws s log
  apply_local p no_key s log = ended false s log
  apply_local p not_stored s log = ended false s log

  abbrev apply_current : Level → CapDetails → (before : ℕ) → S → List Call → Outcome S
  apply_current p info before s log =
      apply_local p
        (get_localparam e (level_name p) (get_param_index e (current_details info) before s).0
          (pos 0) (pq_index p) false s)
        s log

  abbrev pub after_reset : Level → CapDetails → (before : ℕ) → Run S → Outcome S
  after_reset p info before r =
      if r.is_thrown
      then throws r.store r.log
      else if r.is_failed
      then ended false r.store r.log
      else if is_set_required e info.pqmode info.source info.format r.store
      then apply_current p info before r.store r.log
      else ended true r.store r.log

  unfoldable pub reset_request : Level → (before : ℕ) → CapDetails → S → List Call → Outcome S
  unfolding update_av_output_tv_param is_set_required get_param_index get_localparam
  reset_request p before info s log = after_reset p info before (
      update_av_output_tv_param e reset_action (level_name p) (pq_index p) info
        (start_run (pos 0) s log))

  -- resetBrightness and its siblings.
  unfoldable pub reset_level : Level → SetRequest → (before : ℕ) → S → List Call → Outcome S
  unfolding checked reset_request
  reset_level p req before s log = checked p req (λ info. reset_request p before info s log) s log

  abbrev pub got : Local → Got
  got (found v) = value v
  got local_thrown = get_thrown
  got _ = refused

  abbrev get_at : Level → CapDetails → (before : ℕ) → S → Got
  get_at p info before s =
      let i = get_param_index e info before s in
      if i.1
      then got (get_localparam e (level_name p) i.0 (pos 0) (pq_index p) false s)
      else refused

  abbrev pub get_checked : Level → CapDetails → (before : ℕ) → S → Option Bool → Got
  get_checked p info before s none = get_thrown
  get_checked p info before s (some false) = refused
  get_checked p info before s (some true) = get_at p info before s

  abbrev pub get_parsed : Level → (before : ℕ) → S → Option CapDetails → Got
  get_parsed p before s none = refused
  get_parsed p before s (some info) = get_checked p info before s (platform_check p)

  -- getBrightness and its siblings.
  unfoldable pub get_level : Level → GetRequest → (before : ℕ) → S → Got
  unfolding parsing_get_input_argument get_param_index get_localparam
  get_level p req before s =
      get_parsed p before s (parsing_get_input_argument e req (level_name p) no_details s)

  abbrev caps_answer : Option LevelCaps → CapsAnswer
  caps_answer none = caps_thrown
  caps_answer (some c) = caps c

  -- getBrightnessCaps and its siblings.
  unfoldable pub get_level_caps : Level → CapsAnswer
  get_level_caps p = elim (get_params_caps e (level_name p)) [
    | none ↦ caps_refused
    | some info ↦ caps_answer (caps_of p info)
  ]
