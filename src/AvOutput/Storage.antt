-- ===== src/AvOutput/Storage.antt =====
-- The stored value of a setting: its key, how it is written, and how it is read.
pub mod Names
use entservices_inputoutput.Base.{
  ℤ, pos, String, Bool, true, false, not, ◌&&◌, ◌||◌, Option, none, some, List, [], ◌∷◌, ◌++◌,
  if◌then◌else◌,
}
use entservices_inputoutput.HdmiCecSink.Routing.{codes, starts_with, contains}
use entservices_inputoutput.AvOutput.Text.{Name, same_name, is_empty, to_string, stoi}
use entservices_inputoutput.AvOutput.State.{PqParam, ParamIndex, TvConstants, Env, Run, same_int}
use entservices_inputoutput.AvOutput.Indices.{
  convert_source_index_to_string, convert_video_format_to_string, convert_picture_index_to_string,
}

abbrev generic_string_rfc_param : Name
generic_string_rfc_param = codes "Device.DeviceInfo.X_RDKCENTRAL-COM_RFC.AVOutput."

-- `s` ? `x` for `forParam.compare("...") == 0`, and for `strncmp(text, "...", strlen(text)) == 0`.
abbrev pub is_param : String → Name → Bool
is_param s p = same_name p (codes s)

abbrev is_start_of : String → Name → Bool
is_start_of s text = starts_with text (codes s)

module _ (t : TvConstants) where
  -- The table of the names, by the constant; `none` is a read outside of it.
  unfoldable pub color_temp_string : ℤ → Option Name
  color_temp_string v =
      if same_int v t.color_standard
      then some (codes "Standard")
      else if same_int v t.color_warm
      then some (codes "Warm")
      else if same_int v t.color_cold
      then some (codes "Cold")
      else if same_int v t.color_user
      then some (codes "UserDefined")
      else none

  unfoldable pub dimming_mode_string : ℤ → Option Name
  dimming_mode_string v =
      if same_int v t.dimming_fixed
      then some (codes "Fixed")
      else if same_int v t.dimming_local
      then some (codes "Local")
      else if same_int v t.dimming_global
      then some (codes "Global")
      else none

  unfoldable pub dolby_mode_string : ℤ → Name
  dolby_mode_string v =
      if same_int v t.dolby_dark || same_int v t.hdr10_dark || same_int v t.hlg_dark
      then codes "Dark"
      else if same_int v t.dolby_bright || same_int v t.hdr10_bright || same_int v t.hlg_bright
      then codes "Bright"
      else if same_int v t.dolby_game || same_int v t.hdr10_game || same_int v t.hlg_game
      then codes "Game"
      else []

  -- The text that is stored for the value.
  unfoldable pub to_store : Name → ℤ → Option Name
  unfolding color_temp_string dimming_mode_string dolby_mode_string
  to_store for_param v =
      if is_param "ColorTemp" for_param
      then color_temp_string v
      else if is_param "DimmingMode" for_param
      then dimming_mode_string v
      else if is_param "DolbyVisionMode" for_param || is_param "HDRMode" for_param
      then some (dolby_mode_string v)
      else some (to_string v)

  abbrev pub read_color_temp : Name → ℤ
  read_color_temp text =
      if is_start_of "Standard" text
      then t.color_standard
      else if is_start_of "Warm" text
      then t.color_warm
      else if is_start_of "Cold" text
      then t.color_cold
      else if is_start_of "UserDefined" text
      then t.color_user
      else t.color_standard

  -- A text that is none of the three leaves the value.
  abbrev pub read_dimming_mode : Name → ℤ → ℤ
  read_dimming_mode text value =
      if is_start_of "Fixed" text
      then t.dimming_fixed
      else if is_start_of "Local" text
      then t.dimming_local
      else if is_start_of "Global" text
      then t.dimming_global
      else value

  abbrev read_dolby_mode : Name → ℤ
  read_dolby_mode text =
      if is_start_of "Dark" text
      then t.dolby_dark
      else if is_start_of "Game" text
      then t.dolby_game
      else t.dolby_bright

  abbrev read_hdr_mode : (key text : Name) → ℤ
  read_hdr_mode key text =
      if is_start_of "Dark" text && contains (codes "DV") key
      then t.dolby_dark
      else if is_start_of "Bright" text && contains (codes "DV") key
      then t.dolby_game
      else if is_start_of "Dark" text && contains (codes "HDR10") key
      then t.hdr10_dark
      else if is_start_of "Bright" text && contains (codes "HDR10") key
      then t.hdr10_bright
      else if is_start_of "Dark" text && contains (codes "HLG") key
      then t.hlg_dark
      else if is_start_of "Bright" text && contains (codes "HLG") key
      then t.hlg_bright
      else t.dolby_game

  -- A stored text as a value, from the value that the variable has; `none` is stoi's exception.
  unfoldable pub read_stored : (for_param key text : Name) → ℤ → Option ℤ
  read_stored for_param key text value =
      if is_param "ColorTemp" for_param
      then some (read_color_temp text)
      else if is_param "DimmingMode" for_param
      then some (read_dimming_mode text value)
      else if is_param "DolbyVisionMode" for_param
      then some (read_dolby_mode text)
      else if is_param "HDRMode" for_param
      then some (read_hdr_mode key text)
      else stoi text

-- What getLocalparam returns: 0 with the value, -1, 1, or an exception.
pub data Local : Type 0 where
  found : ℤ → Local
  no_key not_stored local_thrown : Local

abbrev pub read_result : Option ℤ → Local
read_result none = local_thrown
read_result (some v) = found v

abbrev pub default_result : Option ℤ → ℤ → Local
default_result none value = found value
default_result (some v) value = found v

module _ {S : Type 0} (e : Env S) where
  unfoldable pub generate_storage_identifier : Name → ParamIndex → Name
  generate_storage_identifier for_param i =
      generic_string_rfc_param
      ++ codes "Source."
      ++ convert_source_index_to_string e (pos i.source_index)
      ++ codes "."
      ++ codes "PicMode."
      ++ convert_picture_index_to_string e (pos i.pqmode_index)
      ++ codes "."
      ++ codes "Format."
      ++ convert_video_format_to_string e (pos i.format_index)
      ++ codes "."
      ++ for_param

  abbrev pub read_local :
      (for_param key : Name) → ParamIndex → ℤ → PqParam → (sync : Bool) → Option Name → Local
  read_local for_param key i value pq sync none =
      if sync then not_stored else default_result (e.default_pq pq i) value
  read_local for_param key i value pq sync (some text) =
      read_result (read_stored e.constants for_param key text value)

  -- getLocalparam, of a setting that is one value; `value` is what the variable holds before.
  unfoldable pub get_localparam : Name → ParamIndex → ℤ → PqParam → (sync : Bool) → S → Local
  unfolding generate_storage_identifier read_stored
  get_localparam for_param i value pq sync s =
      let key = generate_storage_identifier for_param i in
      if is_empty key then no_key else read_local for_param key i value pq sync (e.get_local s key)

  -- A write of the local parameters that may fail.
  abbrev pub written : S × Bool → Run S → Run S
  written p r = record r { store = p.0; is_failed = r.is_failed || not p.1 }

  abbrev pub stored : Name → Option Name → Run S → Run S
  stored key none r = record r { is_thrown = true }
  stored key (some text) r = written (e.set_local key text r.store) r

  -- updateAVoutputTVParamToHAL with `setNotDelete`, and without. A value outside of a table of names
  -- stops the model as an exception does: the code reads a pointer from behind the table.
  unfoldable pub set_to_hal : Name → ParamIndex → ℤ → Run S → Run S
  unfolding generate_storage_identifier to_store
  set_to_hal for_param i value r =
      let key = generate_storage_identifier for_param i in
      if is_empty key
      then record r { is_failed = true }
      else stored key (to_store e.constants for_param value) r

  unfoldable pub delete_from_hal : Name → ParamIndex → Run S → Run S
  unfolding generate_storage_identifier
  delete_from_hal for_param i r =
      let key = generate_storage_identifier for_param i in
      if is_empty key then record r { is_failed = true } else written (e.clear_local key r.store) r
