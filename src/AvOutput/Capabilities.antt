-- ===== src/AvOutput/Capabilities.antt =====
-- The capability file, and the checks of a request against it.
pub mod Included
use entservices_inputoutput.Base.{
  String, Bool, true, false, ◌&&◌, ◌||◌, Option, none, some, List, [], ◌∷◌, ◌++◌, if◌then◌else◌,
}
use entservices_inputoutput.HdmiCecSink.Routing.{codes, contains}
use entservices_inputoutput.AvOutput.Text.{◌>>=◌, Name, same_name, comma, split, convert_to_string}
use entservices_inputoutput.AvOutput.State.{Env}
use entservices_inputoutput.AvOutput.Storage.{is_param}

-- capDetails_t.
pub record CapDetails : Type 0 where
  pub range : Name
  pub pqmode : Name
  pub format : Name
  pub source : Name
  pub is_platform_support : Name
  pub index : Name
  pub color : Name
  pub component : Name
  pub color_temperature : Name
  pub control : Name

abbrev pub no_details : CapDetails
no_details = record {
  range = [];
  pqmode = [];
  format = [];
  source = [];
  is_platform_support = [];
  index = [];
  color = [];
  component = [];
  color_temperature = [];
  control = [];
}

-- capVectors_t.
pub record CapVectors : Type 0 where
  pub range_vector : List Name
  pub pqmode_vector : List Name
  pub format_vector : List Name
  pub source_vector : List Name
  pub is_platform_support_vector : List Name
  index_vector : List Name
  color_vector : List Name
  component_vector : List Name
  color_temp_vector : List Name
  control_vector : List Name

-- Is the name one of the list?
abbrev pub is_one_of : List String → Name → Bool
is_one_of [] p = false
is_one_of (s ∷ rest) p = is_param s p || is_one_of rest p

unfoldable pub member : Name → List Name → Bool
member n [] = false
member n (m ∷ ms) = same_name m n || member n ms

module _ {S : Type 0} (e : Env S) where
  -- `inFile.Get` of a key of the section.
  abbrev get_key : Name → String → Option Name
  get_key param key = e.ini (param ++ codes "." ++ codes key)

  -- The values of the keys with commas between them.
  abbrev get_keys : Name → Name → List String → Option Name
  get_keys param text [] = some text
  get_keys param text (key ∷ keys) = do
    more ← get_key param key
    get_keys param (text ++ comma ∷ more) keys

  abbrev get_range : Name → String → List String → Option Name
  get_range param key keys = do first ← get_key param key; get_keys param first keys

  abbrev read_if : Bool → Name → String → Option Name
  read_if false param key = some []
  read_if true param key = get_key param key

  abbrev read_range : Name → Option Name
  read_range param =
      if is_one_of
        ("ColorTemperature" ∷ "DimmingMode" ∷ "BacklightControl" ∷ "DolbyVisionMode" ∷ "HDR10Mode"
          ∷ "HLGMode" ∷ "AspectRatio" ∷ "PictureMode" ∷ "VideoSource" ∷ "VideoFormat"
          ∷ "VideoFrameRate" ∷ "HDRMode" ∷ [])
        param
      then get_key param "range"
      else if is_param "CMS" param
      then get_range param "range_Saturation_from" (
          "range_Saturation_to" ∷ "range_Hue_from" ∷ "range_Hue_to" ∷ "range_Luma_from"
          ∷ "range_Luma_to" ∷ [])
      else if is_param "CustomWhiteBalance" param
      then get_range param "range_Gain_from"
          ("range_Gain_to" ∷ "range_Offset_from" ∷ "range_Offset_to" ∷ [])
      else get_range param "range_from" ("range_to" ∷ [])

  abbrev section_name : Name → Name
  section_name param =
      if is_param "WhiteBalance" param
      then codes "CustomWhiteBalance"
      else if is_param "AutoBacklightMode" param
      then codes "BacklightControl"
      else param

  -- ReadCapablitiesFromConf: `none` where a key is missing.
  unfoldable pub read_capablities_from_conf : Name → Option CapDetails
  read_capablities_from_conf name = do
    param ← some (section_name name)
    color ← read_if (is_one_of ("CMS" ∷ "CustomWhiteBalance" ∷ []) param) param "color"
    component ← read_if (is_param "CMS" param) param "component"
    control ← read_if (is_param "CustomWhiteBalance" param) param "control"
    platform ←
        read_if
          (is_one_of
            ("DolbyVisionMode" ∷ "Backlight" ∷ "CMS" ∷ "CustomWhiteBalance" ∷ "HDRMode"
              ∷ "BacklightControl" ∷ [])
            param)
          param "platformsupport"
    range ← read_range param
    index ←
        read_if (is_one_of ("VideoSource" ∷ "PictureMode" ∷ "VideoFormat" ∷ []) param) param "index"
    pqmode ← get_key param "pqmode"
    format ← get_key param "format"
    source ← get_key param "source"
    some record {
      range = range;
      pqmode = pqmode;
      format = format;
      source = source;
      is_platform_support = platform;
      index = index;
      color = color;
      component = component;
      color_temperature = [];
      control = control;
    }

  -- spliltCapablities.
  abbrev splilt_capablities : CapDetails → CapVectors
  splilt_capablities d = record {
    range_vector = split d.range;
    pqmode_vector = split d.pqmode;
    format_vector = split d.format;
    source_vector = split d.source;
    is_platform_support_vector = split d.is_platform_support;
    index_vector = split d.index;
    color_vector = split d.color;
    component_vector = split d.component;
    color_temp_vector = split d.color_temperature;
    control_vector = split d.control;
  }

  unfoldable pub get_params_caps : Name → Option CapVectors
  get_params_caps param = do
    details ← read_capablities_from_conf param
    some (splilt_capablities details)

  -- Did the call return 0?
  abbrev supported : List Name → Option Bool
  supported [] = none
  supported (p ∷ ps) = some (same_name p (codes "true"))

  -- isPlatformSupport: does it return 0? `none` is a read from an empty vector.
  unfoldable pub is_platform_support : Name → Option Bool
  is_platform_support pqparam = elim (get_params_caps pqparam) [
    | none ↦ some false
    | some info ↦ supported info.is_platform_support_vector
  ]

  -- fetchCapablities. A vector that is empty leaves the text, which is empty.
  unfoldable pub fetch_capablities : Name → Option CapDetails
  fetch_capablities pqparam = do
    info ← get_params_caps pqparam
    some (record no_details {
      source = convert_to_string info.source_vector;
      pqmode = convert_to_string info.pqmode_vector;
      format = convert_to_string info.format_vector;
      color = convert_to_string info.color_vector;
      component = convert_to_string info.component_vector;
      control = convert_to_string info.control_vector;
      color_temperature = convert_to_string info.color_temp_vector;
    })

-- isIncluded, of the sets that spliltStringsAndConvertToSet makes of two texts.
unfoldable pub is_included : List Name → List Name → Bool
unfolding member
is_included set1 [] = true
is_included set1 (n ∷ ns) = let rest = is_included set1 ns in member n set1 && rest

-- checkCMSColorAndComponentCapability.
unfoldable pub check_cms_capability : Name → Name → Bool
check_cms_capability cap_value input_value = is_included (split cap_value) (split input_value)

abbrev pub check_cms : CapDetails → CapDetails → Bool
check_cms cap input =
    check_cms_capability cap.color input.color && check_cms_capability cap.component input.component

-- `find` of the whole text in the capability's.
abbrev pub check_white_balance : CapDetails → CapDetails → Bool
check_white_balance cap input = contains input.color cap.color && contains input.control cap.control

abbrev check_param : Name → CapDetails → CapDetails → Bool
check_param param cap input =
    if is_param "CMS" param
    then check_cms cap input
    else if is_param "WhiteBalance" param
    then check_white_balance cap input
    else true

abbrev pub check_modes : CapDetails → CapDetails → Bool
check_modes cap input =
    is_included (split cap.pqmode) (split input.pqmode)
    && (is_included (split cap.format) (split input.format)
        && is_included (split cap.source) (split input.source))

abbrev pub passes : Name → CapDetails → Option CapDetails → Bool
passes param input none = false
passes param input (some cap) = check_param param cap input && check_modes cap input

module _ {S : Type 0} (e : Env S) where
  unfoldable pub is_capablity_check_passed : Name → CapDetails → Bool
  unfolding is_included check_cms_capability
  is_capablity_check_passed param input = passes param input (read_capablities_from_conf e param)
