-- ===== src/AvOutput/Request.antt =====
-- The arguments of a request: parsingSetInputArgument and parsingGetInputArgument, the current video,
-- and the checks of a request against it.
use entservices_inputoutput.Base.{
  ℕ, ℤ, pos, negsuc, String, Bool, true, false, not, ◌&&◌, ◌||◌, Option, none, some, List, [], ◌∷◌,
  ◌++◌, if◌then◌else◌, ltb, get_elem?,
}
use entservices_inputoutput.HdmiCecSink.Routing.{codes, contains}
use entservices_inputoutput.AvOutput.Text.{◌>>=◌, Name, is_empty, append_names, stoi}
use entservices_inputoutput.AvOutput.State.{ParamIndex, Env, same_int, to_byte}
use entservices_inputoutput.AvOutput.Indices.{
  get_picture_mode_index, get_source_index, get_format_index, convert_source_index_to_string,
  convert_video_format_to_string,
}
use entservices_inputoutput.AvOutput.Storage.{is_param}
use entservices_inputoutput.AvOutput.Capabilities.{
  CapDetails, is_one_of, member, get_params_caps, fetch_capablities,
}

-- The arrays of a set or reset request, empty without their labels.
pub record SetRequest : Type 0 where
  pub picture_modes : List Name
  pub video_sources : List Name
  pub video_formats : List Name

-- The texts of a get request, empty without their labels.
pub record GetRequest : Type 0 where
  pub picture_mode : Name
  pub video_source : Name
  pub video_format : Name

abbrev pub value_or {ℓ} : {A : Type ℓ} → Option A → A → A
value_or none d = d
value_or (some a) d = a

abbrev pub or_text : Name → String → Name
or_text text s = if is_empty text then codes s else text

-- The name "Global" stands for what the capability file lists.
abbrev global_or : Name → Name → Name
global_or text listed = if is_param "Global" text then listed else text

abbrev pub less : ℤ → ℤ → Bool
less (pos a) (pos b) = ltb a b
less (pos a) (negsuc b) = false
less (negsuc a) (pos b) = true
less (negsuc a) (negsuc b) = ltb b a

-- `stoi(vector[i])`; `none` is its exception, or a read from behind the vector.
abbrev pub stoi_at : List Name → ℕ → Option ℤ
stoi_at v i = do text ← get_elem? v i; stoi text

module _ {S : Type 0} (e : Env S) where
  -- The current format, SDR where there is none.
  abbrev pub format_or_sdr : ℤ
  format_or_sdr =
      if same_int e.current_format e.video_format_none then e.video_format_sdr else e.current_format

  abbrev pub picture_mode_key : (source format : ℤ) → Name
  picture_mode_key source format =
      codes "Device.DeviceInfo.X_RDKCENTRAL-COM_RFC.AVOutput.Source"
      ++ codes "."
      ++ convert_source_index_to_string e source
      ++ codes "."
      ++ codes "Format."
      ++ convert_video_format_to_string e format
      ++ codes "."
      ++ codes "PictureModeString"

  unfoldable pub get_current_picture_mode : S → Option Name
  get_current_picture_mode s = do
    source ← e.current_source
    e.get_local s (picture_mode_key source format_or_sdr)

  abbrev pqmode_of : Name → Name → S → Option Name
  pqmode_of listed text s =
      if is_param "Global" text
      then some listed
      else if is_param "Current" text
      then get_current_picture_mode s
      else some text

  abbrev pub current_source_name : Option ℤ → Option Name
  current_source_name none = none
  current_source_name (some source) = some (convert_source_index_to_string e source)

  abbrev pub source_of : Name → Name → Option Name
  source_of listed text =
      if is_param "Global" text
      then some listed
      else if is_param "Current" text
      then current_source_name e.current_source
      else some text

  abbrev pub format_of : Name → Name → Name
  format_of listed text =
      if is_param "Global" text
      then listed
      else if is_param "Current" text
      then convert_video_format_to_string e format_or_sdr
      else text

  abbrev pub colors_of : Name → CapDetails → CapDetails → CapDetails
  colors_of pqparam listed info =
      if is_param "WhiteBalance" pqparam
      then record info {
        control = global_or info.control listed.control;
        color = global_or info.color listed.color;
        color_temperature = global_or info.color_temperature listed.color_temperature;
      }
      else if is_param "CMS" pqparam
      then record info {
        component = global_or info.component listed.component;
        color = global_or info.color listed.color;
      }
      else info

  abbrev pub converted : Name → CapDetails → S → (listed : CapDetails) → Option CapDetails
  converted pqparam info s listed = do
    pqmode ← pqmode_of listed.pqmode info.pqmode s
    source ← source_of listed.source info.source
    some (
        colors_of pqparam listed (record info {
          pqmode = pqmode;
          source = source;
          format = format_of listed.format info.format;
        }))

  unfoldable pub convert_to_valid_input_parameter : Name → CapDetails → S → Option CapDetails
  unfolding get_current_picture_mode
  convert_to_valid_input_parameter pqparam info s = do
    listed ← fetch_capablities e pqparam
    converted pqparam info s listed

  abbrev default_colors : Name → CapDetails → CapDetails
  default_colors pqparam info =
      if is_param "WhiteBalance" pqparam
      then record info {
        color = or_text info.color "Global";
        control = or_text info.control "Global";
        color_temperature = or_text info.color_temperature "Global";
      }
      else if is_param "CMS" pqparam
      then record info {
        color = or_text info.color "Global";
        component = or_text info.component "Global";
      }
      else info

  unfoldable pub parsing_set_input_argument : SetRequest → Name → CapDetails → S → Option CapDetails
  unfolding append_names convert_to_valid_input_parameter
  parsing_set_input_argument req pqparam info s =
      convert_to_valid_input_parameter pqparam
        (default_colors pqparam (record info {
          pqmode = or_text (append_names info.pqmode req.picture_modes) "Global";
          source = or_text (append_names info.source req.video_sources) "Global";
          format = or_text (append_names info.format req.video_formats) "Global";
        }))
        s

  unfoldable pub parsing_get_input_argument : GetRequest → Name → CapDetails → S → Option CapDetails
  unfolding convert_to_valid_input_parameter
  parsing_get_input_argument req pqparam info s =
      if is_param "Global" req.video_source
        || is_param "Global" req.picture_mode
        || is_param "Global" req.video_format
      then none
      else convert_to_valid_input_parameter pqparam
          (record info {
            source = or_text req.video_source "Current";
            pqmode = or_text req.picture_mode "Current";
            format = or_text req.video_format "Current";
          })
          s

  abbrev pub is_current : Name → Bool
  is_current text = is_one_of ("none" ∷ "Current" ∷ []) text

  abbrev pub current_mode_index : Option Name → ℕ → ℕ
  current_mode_index none before = before
  current_mode_index (some mode) before = to_byte (get_picture_mode_index e mode)

  -- The index that getParamIndex gives without the colours; `before` is the byte of the picture mode
  -- that the caller's variable holds, and keeps where the current mode cannot be read.
  unfoldable pub index_of_request : CapDetails → (before : ℕ) → S → ParamIndex
  unfolding get_current_picture_mode
  index_of_request info before s = record {
    source_index = to_byte (
        if is_current info.source
        then value_or e.current_source e.video_source_ip
        else get_source_index e info.source);
    pqmode_index =
        if is_current info.pqmode
        then current_mode_index (get_current_picture_mode s) before
        else to_byte (get_picture_mode_index e info.pqmode);
    format_index =
        to_byte (if is_current info.format then format_or_sdr else get_format_index e info.format);
  }

  -- `index == -1`, of a byte.
  abbrev is_minus_one : ℕ → Bool
  is_minus_one i = same_int (pos i) (negsuc 0)

  -- getParamIndex: the index, and whether 0 is returned.
  unfoldable pub get_param_index : CapDetails → (before : ℕ) → S → ParamIndex × Bool
  unfolding index_of_request
  get_param_index info before s =
      let i = index_of_request info before s in
      (
        i,
        not (
            is_minus_one i.source_index
            || is_minus_one i.pqmode_index
            || is_minus_one i.format_index),
      )

  abbrev pub is_any : (current text : Name) → Bool
  is_any current text = contains current text || is_one_of ("Global" ∷ "Current" ∷ "none" ∷ []) text

  abbrev pub is_for_current : (pqmode source format : Name) → S → Option ℤ → Bool
  is_for_current pqmode source format s none = false
  is_for_current pqmode source format s (some current) =
      is_any (value_or (get_current_picture_mode s) []) pqmode
      && (is_any (convert_source_index_to_string e current) source
          && is_any (convert_video_format_to_string e format_or_sdr) format)

  -- isSetRequired: is the request one for the current video?
  unfoldable pub is_set_required : (pqmode source format : Name) → S → Bool
  unfolding get_current_picture_mode
  is_set_required pqmode source format s = is_for_current pqmode source format s e.current_source

  abbrev pub below : ℤ → Option ℤ → Option Bool
  below value none = none
  below value (some to) = some (not (less to value))

  abbrev pub in_range : ℤ → List Name → Option Bool
  in_range value range = elim (stoi_at range 0) [
    | none ↦ none
    | some from ↦ if less value from then some false else below value (stoi_at range 1)
  ]

  -- validateIntegerInputParameter: is 0 returned? `none` is an exception.
  unfoldable pub validate_integer_input_parameter : Name → ℤ → Option Bool
  validate_integer_input_parameter param value = elim (get_params_caps e param) [
    | none ↦ some false
    | some info ↦
        if is_one_of
          ("Brightness" ∷ "Contrast" ∷ "Sharpness" ∷ "Saturation" ∷ "Hue" ∷ "WhiteBalance" ∷ "CMS"
            ∷ "Backlight" ∷ "LowLatencyState" ∷ [])
          param
        then in_range value info.range_vector
        else some true
  ]

  -- validateInputParameter: is 0 returned?
  unfoldable pub validate_input_parameter : Name → Name → Bool
  validate_input_parameter param value = elim (get_params_caps e param) [
    | none ↦ false
    | some info ↦
        if is_one_of
          ("ColorTemperature" ∷ "DimmingMode" ∷ "AutoBacklightMode" ∷ "DolbyVisionMode"
            ∷ "HDR10Mode" ∷ "HLGMode" ∷ "AspectRatio" ∷ "PictureMode" ∷ [])
          param
        then member value info.range_vector
        else true
  ]
