-- ===== src/AvInput.antt =====
-- AVInput (AVInput/AVInput.cpp): starting and stopping an HDMI or composite input, the list of the
-- inputs, and the game features of an HDMI input. Whether a call of Device Settings returns is an
-- argument; a call that throws does nothing. `_instance` is set.
pub mod Vrr
mod Tests
use entservices_inputoutput.Base.{
  ℕ, zero, suc, ◌+◌, ℤ, pos, negsuc, String, Bool, true, false, not, Option, none, some, List, [],
  ◌∷◌, ◌++◌, if◌then◌else◌,
}
use entservices_inputoutput.HdmiInput.{
  Param, absent, malformed, number, AudioInput, input_primary, input_system, is_plane,
}

-- getTypeOfInput, of a parameter with its label: `none` is the exception.
pub data InputType : Type 0 where
  hdmi composite : InputType

pub data TypeParam : Type 0 where
  no_type : TypeParam
  type_of_input : Option InputType → TypeParam

-- dsVRRType_t; the last stands for a value that the switch of AVInputVRRChange does not name.
pub data VrrType : Type 0 where
  vrr_none hdmi_vrr amd_freesync amd_freesync_premium amd_freesync_premium_pro : VrrType
  other_vrr : VrrType

-- A notification of a game feature; without its parameters where the switch names no type.
pub data Notification : Type 0 where
  game_feature_status_changed : (id : ℕ) → (game_feature : String) → (mode : Bool) → Notification
  empty_notification : Notification

-- What leaves the plugin; `deselect_hdmi_port` is selectPort with -1 for the port alone.
pub data Call : Type 0 where
  select_hdmi_port : ℤ → (audio_mix : Bool) → (plane : ℤ) → (top_most : Bool) → Call
  select_composite_port : ℤ → Call
  deselect_hdmi_port : Call
  set_audio_mixer_levels : AudioInput → ℕ → Call
  notified : Notification → Call

pub record Input : Type 0 where
  pub plane_type : ℤ
  pub is_audio_balance_set : Bool
  pub current_vrr_type : VrrType
  pub log : List Call

abbrev pub init_input : Input
init_input = record {
  plane_type = pos 0;
  is_audio_balance_set = false;
  current_vrr_type = vrr_none;
  log = [];
}

abbrev pub call : Call → Input → Input
call c s = record s { log = c ∷ s.log }

-- The selectPort of an input of the type.
unfoldable pub select : InputType → ℤ → (audio_mix top_most selects : Bool) → Input → Input × Bool
select hdmi port audio_mix top_most selects s =
    if selects
    then (call (select_hdmi_port port audio_mix s.plane_type top_most) s, true)
    else (s, false)
select composite port audio_mix top_most selects s =
    if selects then (call (select_composite_port port) s, true) else (s, false)

-- startInput from the plane on.
unfoldable pub start_on_plane :
    InputType
    → ℤ
    → (audio_mix top_most : Bool) → (plane : Param) → (selects : Bool) → Input
    → Input × Bool
unfolding select
start_on_plane k p audio_mix top_most absent selects s = select k p audio_mix top_most selects s
start_on_plane k p audio_mix top_most malformed selects s = (s, false)
start_on_plane k p audio_mix top_most (number q) selects s =
    let t = record s { plane_type = q } in
    if not (is_plane q) then (t, false) else select k p audio_mix top_most selects t

-- startInput.
unfoldable pub start_input :
    (port : Param)
    → TypeParam
    → (audio_mix top_most : Bool) → (plane : Param) → (selects : Bool) → Input
    → Input × Bool
unfolding start_on_plane
start_input (number p) (type_of_input (some k)) audio_mix top_most plane selects s =
    start_on_plane k p audio_mix top_most plane selects (record s { plane_type = pos 0 })
start_input _ _ audio_mix top_most plane selects s = (record s { plane_type = pos 0 }, false)

-- The end of stopInput.
unfoldable pub deselect : InputType → (selects : Bool) → Input → Input × Bool
deselect hdmi selects s = if selects then (call deselect_hdmi_port s, true) else (s, false)
deselect composite selects s =
    if selects then (call (select_composite_port (negsuc 0)) s, true) else (s, false)

-- stopInput from the plane on: `mixes` tells of the two calls of the mixer whether they return.
unfoldable pub stop_type : InputType → (mixes : ℕ → Bool) → (selects : Bool) → Input → Input × Bool
unfolding deselect
stop_type k mixes selects s =
    if not s.is_audio_balance_set
    then deselect k selects s
    else (if not (mixes 0)
        then (s, false)
        else let t = call (set_audio_mixer_levels input_primary 100) s in
          (if not (mixes 1)
            then (t, false)
            else deselect k selects (record (call (set_audio_mixer_levels input_system 100) t) {
              is_audio_balance_set = false;
            })))

unfoldable pub stop_input : TypeParam → (mixes : ℕ → Bool) → (selects : Bool) → Input → Input × Bool
unfolding stop_type
stop_input (type_of_input (some k)) mixes selects s =
    stop_type k mixes selects (record s { plane_type = negsuc 0 })
stop_input _ mixes selects s = (s, false)

pub record InputDevice : Type 0 where
  pub input_type : InputType
  pub id : ℕ
  pub is_connected : Bool

-- The inputs of one type from `i` on, `k` of them, up to the first call that throws.
unfoldable pub devices_from : InputType → (ℕ → Option Bool) → (i k : ℕ) → List InputDevice
devices_from t connected i zero = []
devices_from t connected i (suc k) =
    let rest = devices_from t connected (suc i) k in
    elim (connected i) [
      | none ↦ []
      | some b ↦ record { input_type = t; id = i; is_connected = b } ∷ rest
    ]

-- getInputDevices: `inputs` and `connected` are the answers for the type.
unfoldable pub get_input_devices :
    (inputs : InputType → Option ℕ)
    → (connected : InputType → ℕ → Option Bool) → InputType
    → List InputDevice
unfolding devices_from
get_input_devices inputs connected t = elim (inputs t) [
  | none ↦ []
  | some n ↦ devices_from t (connected t) 0 n
]

-- The answer of getInputDevicesWrapper, `none` for a failure.
unfoldable pub get_input_devices_api :
    (inputs : InputType → Option ℕ)
    → (connected : InputType → ℕ → Option Bool) → TypeParam
    → Option (List InputDevice)
unfolding get_input_devices
get_input_devices_api inputs connected no_type =
    some (get_input_devices inputs connected hdmi ++ get_input_devices inputs connected composite)
get_input_devices_api inputs connected (type_of_input none) = none
get_input_devices_api inputs connected (type_of_input (some t)) =
    some (get_input_devices inputs connected t)

unfoldable pub avinput_allm_change : ℕ → (allm_mode : Bool) → Input → Input
avinput_allm_change port allm_mode s =
    call (notified (game_feature_status_changed port "ALLM" allm_mode)) s

-- The notification of AVInputVRRChange.
unfoldable pub vrr_notification : ℕ → VrrType → (vrr_mode : Bool) → Notification
vrr_notification port hdmi_vrr on = game_feature_status_changed port "VRR-HDMI" on
vrr_notification port amd_freesync on = game_feature_status_changed port "VRR-FREESYNC" on
vrr_notification port amd_freesync_premium on =
    game_feature_status_changed port "VRR-FREESYNC-PREMIUM" on
vrr_notification port amd_freesync_premium_pro on =
    game_feature_status_changed port "VRR-FREESYNC-PREMIUM-PRO" on
vrr_notification port _ on = empty_notification

unfoldable pub avinput_vrr_change : ℕ → VrrType → (vrr_mode : Bool) → Input → Input
unfolding vrr_notification
avinput_vrr_change port t on s = call (notified (vrr_notification port t on)) s

abbrev pub is_vrr : VrrType → Bool
is_vrr vrr_none = false
is_vrr _ = true

-- dsAVGameFeatureStatusEventHandler for IARM_BUS_DSMGR_EVENT_HDMI_IN_VRR_STATUS.
unfoldable pub vrr_status_event : ℕ → VrrType → Input → Input
unfolding avinput_vrr_change
vrr_status_event port new s =
    let t =
      if is_vrr s.current_vrr_type then avinput_vrr_change port s.current_vrr_type false s else s in
    record (if is_vrr new then avinput_vrr_change port new true t else t) { current_vrr_type = new }
