-- ===== src/AvOutput/State.antt =====
-- The state of the picture settings, and the code that AVOutput calls: the driver of the panel, the
-- local parameters (tr181api), the capability file and the current video.
use entservices_inputoutput.Base.{
  ℕ, ◌-◌, ◌%◌, ℤ, pos, negsuc, ◌≡◌, Bool, true, false, Option, some, List, ◌==◌, if◌then◌else◌,
}
use entservices_inputoutput.AvOutput.Text.{Name, same_name}

-- The tvPQParameterIndex_t of the settings that are one value.
pub data PqParam : Type 0 where
  pq_brightness pq_contrast pq_saturation pq_sharpness pq_hue pq_backlight : PqParam
  pq_color_temperature pq_dimming_mode pq_low_latency pq_dolby_mode : PqParam

-- paramIndex_t: each index is a byte.
pub record ParamIndex : Type 0 where
  pub source_index : ℕ
  pub pqmode_index : ℕ
  pub format_index : ℕ

-- A call of the driver: a Save function, or the Set function of the setting.
pub data Call : Type 0 where
  save : PqParam → ParamIndex → (value : ℤ) → Call
  apply : PqParam → (value : ℤ) → Call

-- The values of tvColorTemp_t, tvDimmingMode_t and tvDolbyMode_t, from a header of the driver.
pub record TvConstants : Type 0 where
  pub color_standard : ℤ
  pub color_warm : ℤ
  pub color_cold : ℤ
  pub color_user : ℤ
  pub dimming_fixed : ℤ
  pub dimming_local : ℤ
  pub dimming_global : ℤ
  pub dolby_dark : ℤ
  pub dolby_bright : ℤ
  pub dolby_game : ℤ
  pub hdr10_dark : ℤ
  pub hdr10_bright : ℤ
  pub hdr10_game : ℤ
  pub hlg_dark : ℤ
  pub hlg_bright : ℤ
  pub hlg_game : ℤ

-- supportedSourcemap, supportedPictureModemap or supportedFormatmap, in the order of its names.
abbrev pub IndexMap : Type 0
IndexMap = List (Name × ℤ)

-- What stands around the plugin, for a store `S` of local parameters:
-- - `get_local`, `set_local` and `clear_local`: getLocalParam, setLocalParam and clearLocalParam, which
--   say whether they succeeded; `default_local`: the entries of the caller's settings file, which
--   locatePQSettingsFile chooses;
-- - `ini`: a key of the capability file, `none` where `Get` throws;
-- - the three maps that getPqParamIndex has filled;
-- - `current_source`: GetCurrentVideoSource, `none` on an error; `current_format`:
--   GetCurrentVideoFormat;
-- - `default_pq`: GetDefaultPQParams, `none` where it writes nothing;
-- - `accepts`: does the driver's call succeed?
pub record Env (S : Type 0) : Type 0 where
  pub get_local : S → Name → Option Name
  pub set_local : Name → Name → S → S × Bool
  pub clear_local : Name → S → S × Bool
  pub default_local : Name → Option Name
  pub ini : Name → Option Name
  pub sources : IndexMap
  pub modes : IndexMap
  pub formats : IndexMap
  pub video_source_ip : ℤ
  pub video_format_none : ℤ
  pub video_format_sdr : ℤ
  pub current_source : Option ℤ
  pub current_format : ℤ
  pub default_pq : PqParam → ParamIndex → Option ℤ
  pub accepts : Call → Bool
  pub constants : TvConstants

-- The documented behaviour of the local parameters: what is set is read, until it is cleared, what is
-- cleared is read as the settings file's entry, and the other keys stay.
pub record IsLawful {S : Type 0} (e : Env S) : Type 0 where
  pub get-set :
      (s : S) (k v j : Name)
      → (e.set_local k v s).1 ≡ true
      → e.get_local (e.set_local k v s).0 j ≡ (if same_name j k then some v else e.get_local s j)
  pub get-clear :
      (s : S) (k j : Name)
      → (e.clear_local k s).1 ≡ true
      → e.get_local (e.clear_local k s).0 j
        ≡ (if same_name j k then e.default_local j else e.get_local s j)

-- The state while settings are updated: `level` is the argument of that name, `is_failed` says that
-- `ret` is not 0, and `is_thrown` that an exception has left the loops.
pub record Run (S : Type 0) : Type 0 where
  pub store : S
  pub log : List Call
  pub level : ℤ
  pub is_failed : Bool
  pub is_thrown : Bool

abbrev pub same_int : ℤ → ℤ → Bool
same_int (pos a) (pos b) = a == b
same_int (pos a) (negsuc b) = false
same_int (negsuc a) (pos b) = false
same_int (negsuc a) (negsuc b) = a == b

-- An int that is assigned to a `uint8_t`.
abbrev pub to_byte : ℤ → ℕ
to_byte (pos n) = n % 256
to_byte (negsuc n) = 255 - n % 256
