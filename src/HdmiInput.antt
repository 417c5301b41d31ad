-- ===== src/HdmiInput.antt =====
-- HdmiInput (HdmiInput/HdmiInput.cpp): starting and stopping an input, the mixer, the events of the
-- inputs and the latencies that are reported to the CEC sink. Whether a call of Device Settings
-- returns is an argument; a call that throws does nothing. `_instance` is set.
pub mod Devices
pub mod Mode
pub mod Mixer
pub mod Latency
mod Tests
use entservices_inputoutput.Base.{
  ℕ, zero, suc, ◌+◌, ◌-◌, ◌%◌, ℤ, pos, negsuc, String, Bool, true, false, not, ◌&&◌, ◌||◌, Option,
  none, some, List, [], ◌∷◌, ◌==◌, if◌then◌else◌, leb, ltb,
}

-- A parameter of a call: without its label, with a text that is not a number, or a number.
pub data Param : Type 0 where
  absent malformed : Param
  number : ℤ → Param

pub data AudioInput : Type 0 where
  input_primary input_system : AudioInput

pub data SignalStatus : Type 0 where
  no_signal unstable_signal not_supported_signal stable_signal other_signal : SignalStatus

pub data PixelResolution : Type 0 where
  res_720x480 res_720x576 res_1280x720 res_1920x1080 res_3840x2160 res_4096x2160 : PixelResolution
  res_other : PixelResolution

pub data FrameRate : Type 0 where
  rate_24 rate_25 rate_30 rate_50 rate_60 rate_23dot98 rate_29dot97 rate_59dot94 : FrameRate
  rate_100 rate_119dot88 rate_120 rate_200 rate_239dot76 rate_240 rate_other : FrameRate

-- The video mode of `videoStreamInfoUpdate`.
pub record VideoMode : Type 0 where
  pub width : ℕ
  pub height : ℕ
  pub progressive : Bool
  pub frame_rate_n : ℕ
  pub frame_rate_d : ℕ

pub record InputDevice : Type 0 where
  pub id : ℕ
  pub is_connected : Bool

-- The notifications, the port first; the locator is made of the port.
pub data Notification : Type 0 where
  devices_changed : List InputDevice → Notification
  signal_changed : ℕ → String → Notification
  status_changed : ℕ → String → (plane : ℤ) → Notification
  video_mode_updated : ℕ → VideoMode → Notification
  game_feature_status_changed : ℕ → (allm : Bool) → Notification
  avi_content_type_changed : ℕ → ℕ → Notification

-- What leaves the plugin: the calls of Device Settings, `deselect_port` with -1 for the port, and
-- `setLatencyInfo` of the CEC sink.
pub data Call : Type 0 where
  select_port : ℤ → (audio_mix : Bool) → (plane : ℤ) → (top_most : Bool) → Call
  deselect_port : Call
  set_audio_mixer_levels : AudioInput → ℕ → Call
  scale_video : ℤ → ℤ → ℤ → ℤ → Call
  notified : Notification → Call
  set_latency_info :
      (audio_output_delay video_latency : ℕ) → (low : Bool) → (compensated : ℕ) → Call

pub record Input : Type 0 where
  pub plane_type : ℤ
  pub is_audio_balance_set : Bool
  pub prim_volume : ℕ
  pub input_volume : ℕ
  pub audio_output_delay : ℕ
  pub video_latency : ℕ
  pub low_latency_mode : Bool
  pub log : List Call

-- DEFAULT_PRIM_VOL_LEVEL, MAX_PRIM_VOL_LEVEL and DEFAULT_INPUT_VOL_LEVEL.
abbrev pub default_prim_vol_level : ℕ
default_prim_vol_level = 25

abbrev pub max_prim_vol_level : ℕ
max_prim_vol_level = 100

abbrev pub default_input_vol_level : ℕ
default_input_vol_level = 100

abbrev pub init_input : Input
init_input = record {
  plane_type = pos 0;
  is_audio_balance_set = false;
  prim_volume = default_prim_vol_level;
  input_volume = default_input_vol_level;
  audio_output_delay = 100;
  video_latency = 20;
  low_latency_mode = false;
  log = [];
}

abbrev pub call : Call → Input → Input
call c s = record s { log = c ∷ s.log }

abbrev pub is_plane : ℤ → Bool
is_plane (pos n) = n == 0 || n == 1
is_plane (negsuc n) = false

-- The call of selectPort that ends startHdmiInput.
unfoldable pub select : ℤ → (audio_mix top_most selects : Bool) → Input → Input × Bool
select port audio_mix top_most selects s =
    if selects
    then (call (select_port port audio_mix s.plane_type top_most) s, true)
    else (s, false)

-- startHdmiInput, with its success. The plane is 0 from before the numbers are read.
unfoldable pub start_hdmi_input :
    (port : Param)
    → (audio_mix top_most : Bool) → (plane : Param) → (selects : Bool) → Input
    → Input × Bool
unfolding select
start_hdmi_input absent audio_mix top_most plane selects s = (s, false)
start_hdmi_input malformed audio_mix top_most plane selects s =
    (record s { plane_type = pos 0 }, false)
start_hdmi_input (number p) audio_mix top_most absent selects s =
    select p audio_mix top_most selects (record s { plane_type = pos 0 })
start_hdmi_input (number p) audio_mix top_most malformed selects s =
    (record s { plane_type = pos 0 }, false)
start_hdmi_input (number p) audio_mix top_most (number q) selects s =
    let t = record s { plane_type = q } in
    if not (is_plane q) then (t, false) else select p audio_mix top_most selects t

-- The end of stopHdmiInput.
unfoldable pub deselect : (selects : Bool) → Input → Input × Bool
deselect selects s =
    let t = record s { plane_type = negsuc 0 } in
    if selects then (call deselect_port t, true) else (t, false)

-- stopHdmiInput: `mixes` tells of its two calls of the mixer whether they return.
unfoldable pub stop_hdmi_input : (mixes : ℕ → Bool) → (selects : Bool) → Input → Input × Bool
unfolding deselect
stop_hdmi_input mixes selects s =
    if not s.is_audio_balance_set
    then deselect selects s
    else (if not (mixes 0)
        then (s, false)
        else let t = call (set_audio_mixer_levels input_primary max_prim_vol_level) s in
          (if not (mixes 1)
            then (t, false)
            else deselect selects
                (record (call (set_audio_mixer_levels input_system default_input_vol_level) t) {
                  is_audio_balance_set = false;
                })))

abbrev pub at_most : ℕ → ℕ → ℕ
at_most limit n = if ltb limit n then limit else n

-- setMixerLevels from its calls of the mixer on.
unfoldable pub mix : (prim input : ℕ) → (mixes : ℕ → Bool) → Input → Input × Bool
mix prim input mixes s =
    if not (mixes 0)
    then (s, false)
    else let t = call (set_audio_mixer_levels input_primary prim) s in
      (if not (mixes 1) then (t, false) else (
        record (call (set_audio_mixer_levels input_system input) t) { is_audio_balance_set = true },
        true,
      ))

-- setMixerLevels from its test of the two numbers on.
unfoldable pub take_levels : (prim input : ℤ) → (mixes : ℕ → Bool) → Input → Input × Bool
unfolding mix
take_levels (pos p) (pos i) mixes s = mix p i mixes (record s {
  prim_volume = at_most max_prim_vol_level p;
  input_volume = at_most default_input_vol_level i;
})
take_levels _ _ mixes s = (s, false)

-- The 32-bit int that a number of 64 bits is stored in, by its lower half.
abbrev int_of_bits : ℕ → ℤ
int_of_bits n = if ltb n 2147483648 then pos n else negsuc (4294967295 - n)

unfoldable pub to_int : ℤ → ℤ
to_int (pos n) = int_of_bits (n % 4294967296)
to_int (negsuc n) = int_of_bits (4294967295 - n % 4294967296)

-- setMixerLevels.
unfoldable pub set_mixer_levels :
    (primary_volume input_volume : Param) → (mixes : ℕ → Bool) → Input → Input × Bool
unfolding take_levels to_int
set_mixer_levels (number p) (number i) mixes s = take_levels (to_int p) (to_int i) mixes s
set_mixer_levels _ _ mixes s = (s, false)

-- setVideoRectangleWrapper: a coordinate that is not given is 0.
abbrev pub has_label : Param → Bool
has_label absent = false
has_label _ = true

abbrev pub coordinate : Param → Option ℤ
coordinate absent = some (pos 0)
coordinate malformed = none
coordinate (number n) = some n

abbrev pub with_coordinates :
    Option ℤ → Option ℤ → Option ℤ → Option ℤ → (scales : Bool) → Input → Input × Bool
with_coordinates (some x) (some y) (some w) (some h) scales s =
    if scales then (call (scale_video x y w h) s, true) else (s, false)
with_coordinates _ _ _ _ scales s = (s, false)

unfoldable pub set_video_rectangle : (x y w h : Param) → (scales : Bool) → Input → Input × Bool
set_video_rectangle x y w h scales s =
    if (has_label x || has_label y) && (has_label w || has_label h)
    then with_coordinates (coordinate x) (coordinate y) (coordinate w) (coordinate h) scales s
    else (s, false)

-- getHDMIInputDevices: the inputs from `i` on, `k` of them, up to the first call that throws.
unfoldable pub devices_from : (connected : ℕ → Option Bool) → (i k : ℕ) → List InputDevice
devices_from connected i zero = []
devices_from connected i (suc k) =
    let rest = devices_from connected (suc i) k in
    elim (connected i) [ none ↦ [] | some b ↦ record { id = i; is_connected = b } ∷ rest ]

unfoldable pub get_hdmi_input_devices :
    (inputs : Option ℕ) → (connected : ℕ → Option Bool) → List InputDevice
unfolding devices_from
get_hdmi_input_devices none connected = []
get_hdmi_input_devices (some n) connected = devices_from connected 0 n
