-- ===== src/AvOutput/Levels/Methods.antt =====
-- The methods of the API, one for each level.
use entservices_inputoutput.Base.{ℕ, List}
use entservices_inputoutput.HdmiInput.{Param}
use entservices_inputoutput.AvOutput.State.{Call, Env}
use entservices_inputoutput.AvOutput.Request.{SetRequest, GetRequest}
use entservices_inputoutput.AvOutput.Levels.{
  brightness, contrast, saturation, sharpness, hue, backlight, Outcome, Got, CapsAnswer, set_level,
  reset_level, get_level, get_level_caps,
}

module _ {S : Type 0} (e : Env S) where
  abbrev get_brightness : GetRequest → (before : ℕ) → S → Got
  get_brightness = get_level e brightness

  abbrev set_brightness : Param → SetRequest → S → List Call → Outcome S
  set_brightness = set_level e brightness

  abbrev reset_brightness : SetRequest → (before : ℕ) → S → List Call → Outcome S
  reset_brightness = reset_level e brightness

  abbrev get_brightness_caps : CapsAnswer
  get_brightness_caps = get_level_caps e brightness

  abbrev get_contrast : GetRequest → (before : ℕ) → S → Got
  get_contrast = get_level e contrast

  abbrev set_contrast : Param → SetRequest → S → List Call → Outcome S
  set_contrast = set_level e contrast

  abbrev reset_contrast : SetRequest → (before : ℕ) → S → List Call → Outcome S
  reset_contrast = reset_level e contrast

  abbrev get_contrast_caps : CapsAnswer
  get_contrast_caps = get_level_caps e contrast

  abbrev get_saturation : GetRequest → (before : ℕ) → S → Got
  get_saturation = get_level e saturation

  abbrev set_saturation : Param → SetRequest → S → List Call → Outcome S
  set_saturation = set_level e saturation

  abbrev reset_saturation : SetRequest → (before : ℕ) → S → List Call → Outcome S
  reset_saturation = reset_level e saturation

  abbrev get_saturation_caps : CapsAnswer
  get_saturation_caps = get_level_caps e saturation

  abbrev get_sharpness : GetRequest → (before : ℕ) → S → Got
  get_sharpness = get_level e sharpness

  abbrev set_sharpness : Param → SetRequest → S → List Call → Outcome S
  set_sharpness = set_level e sharpness

  abbrev reset_sharpness : SetRequest → (before : ℕ) → S → List Call → Outcome S
  reset_sharpness = reset_level e sharpness

  abbrev get_sharpness_caps : CapsAnswer
  get_sharpness_caps = get_level_caps e sharpness

  abbrev get_hue : GetRequest → (before : ℕ) → S → Got
  get_hue = get_level e hue

  abbrev set_hue : Param → SetRequest → S → List Call → Outcome S
  set_hue = set_level e hue

  abbrev reset_hue : SetRequest → (before : ℕ) → S → List Call → Outcome S
  reset_hue = reset_level e hue

  abbrev get_hue_caps : CapsAnswer
  get_hue_caps = get_level_caps e hue

  abbrev get_backlight : GetRequest → (before : ℕ) → S → Got
  get_backlight = get_level e backlight

  abbrev set_backlight : Param → SetRequest → S → List Call → Outcome S
  set_backlight = set_level e backlight

  abbrev reset_backlight : SetRequest → (before : ℕ) → S → List Call → Outcome S
  reset_backlight = reset_level e backlight

  abbrev get_backlight_caps : CapsAnswer
  get_backlight_caps = get_level_caps e backlight
