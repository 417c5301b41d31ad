-- ===== src/HdmiCecSource/Control.antt =====
-- The addresses, CECEnable and CECDisable, the hot plug, the panel's power, and the API of
-- IHdmiCecSource. What the CEC library and the Device Settings answer are arguments; an exception
-- outside a try block is not modelled. The threads that CECDisable joins have ended.
pub mod Shown
use entservices_inputoutput.Base.{
  ℕ, zero, suc, ◌+◌, Bool, true, false, not, ◌&&◌, ◌||◌, Option, none, some, String, List, [], ◌∷◌,
  ◌++◌, ◌==◌, if◌then◌else◌, ltb, get_elem?, increment, decrement, ℤ, pos, negsuc,
}
use entservices_inputoutput.HdmiCecSink.Types.{PhysicalAddress, unregistered, broadcast, tv_address}
use entservices_inputoutput.HdmiCecSource.State.{
  Source, DeviceInfo, Keys, send_to, is_present, standby, image_view_on, active_source,
  give_device_power_status, request_active_source, device_vendor_id, report_physical_address,
}
use entservices_inputoutput.HdmiCecSource.Devices.{remove_all_cec_devices}
use entservices_inputoutput.HdmiCecSource.Messages.{Message, process, reported_vendor_id}
use entservices_inputoutput.HdmiCecSource.Settings.{load_settings, set_enabled_setting}

-- getPhysicalAddress: `none` is an exception.
abbrev pub get_physical_address : Option PhysicalAddress → Source → Source
get_physical_address none s = s
get_physical_address (some a) s = record s { physical_addr = a }

abbrev pub same_type : Option ℕ → ℕ → Bool
same_type none t = false
same_type (some u) t = u == t

-- getLogicalAddress: an address and its device type, or `none` on an exception.
unfoldable pub get_logical_address : Option (ℕ × ℕ) → Source → Source
get_logical_address none s = s
get_logical_address (some (a, t)) s =
    if s.logical_address == a && same_type s.device_type t
    then s
    else record s { logical_address = a; device_type = some t }

-- `edidVec.at(8) == 0x1E && edidVec.at(9) == 0x6D`; a short vector throws.
abbrev pub is_byte : Option ℕ → ℕ → Bool
is_byte none b = false
is_byte (some c) b = c == b

abbrev pub is_lg_edid : List ℕ → Bool
is_lg_edid e = is_byte (get_elem? e 8) 0x1E && is_byte (get_elem? e 9) 0x6D

-- The look at the EDID: `none` if no display is connected or the call fails.
unfoldable pub read_edid : Option (List ℕ) → Source → Source
read_edid none s = s
read_edid (some e) s = if is_lg_edid e then record s { is_lg_tv = true } else s

-- What a source says of itself: its vendor id.
abbrev pub send_vendor_id : Source → Source
send_vendor_id s = send_to broadcast (device_vendor_id (reported_vendor_id s)) s

-- The frames that the listener processes while a call of CECEnable or CECDisable is under way, by the
-- points of the call at which they come: nothing keeps them out.
abbrev pub Frames : Type 0
Frames = ℕ → List (Message × ℕ)

unfoldable pub receive_all : List (Message × ℕ) → Source → Source
receive_all [] s = s
receive_all ((m, from) ∷ ms) s = receive_all ms (process m from s)

-- The frames that CECEnable sends.
unfoldable pub announce : Frames → Source → Source
unfolding receive_all
announce frames s =
    let t = receive_all (frames 2) (send_to tv_address give_device_power_status s) in
    let u =
      receive_all (frames 3)
        (record (send_to broadcast request_active_source t) { is_active_source = false }) in
    receive_all (frames 4) (send_vendor_id u)

-- CECEnable from the frame listener on: the number of devices is set to 0 at its end.
unfoldable pub open_connection : Frames → Source → Source
unfolding announce
open_connection frames s =
    let t = receive_all (frames 0) (record s { connected = true }) in
    let u = receive_all (frames 1) (record t { cec_enable_status = true }) in
    record (announce frames u) { update_exit = false; poll_exit = false; number_of_devices = pos 0 }

unfoldable pub cec_enable : Frames → Option PhysicalAddress → Option (ℕ × ℕ) → Source → Source
unfolding get_logical_address open_connection
cec_enable frames own addr s =
    if s.cec_enable_status
    then s
    else open_connection frames (
        get_logical_address addr (
          get_physical_address own (record s {
            libcec_init_status = increment s.libcec_init_status;
            keys = record (s.keys) { thread_exit = false };
          })))

-- The part of CECDisable that a connection has: frames come before and after the removal of the
-- devices, until the connection is closed.
unfoldable pub close_connection : Frames → Source → Source
unfolding receive_all
close_connection frames s =
    if s.connected
    then record (receive_all (frames 1) (
        remove_all_cec_devices
          (receive_all (frames 0) (record s { update_exit = true; poll_exit = true })))) {
            connected = false;
          }
    else s

-- CECDisable: `run` is `m_sendKeyEventThreadRun` as the key thread leaves it, true if that left by
-- the condition of its loop.
unfoldable pub cec_disable : Frames → (run : Bool) → Source → Source
unfolding close_connection
cec_disable frames run s =
    if not s.cec_enable_status
    then s
    else let t =
        close_connection frames
          (record s { keys = record (s.keys) { thread_exit = true; thread_run = run } }) in
      record t { cec_enable_status = false; libcec_init_status = decrement t.libcec_init_status }

unfoldable pub set_enabled :
    Frames → Bool → (run : Bool) → Option PhysicalAddress → Option (ℕ × ℕ) → Source → Source
unfolding cec_enable cec_disable set_enabled_setting
set_enabled frames b run own addr s =
    let t = set_enabled_setting b s in
    if b then cec_enable frames own addr t else cec_disable frames run t

-- Configure, from the settings on, for a bus that is there: `on` is the power state, if it is known.
unfoldable pub take_power : Option Bool → Source → Source
take_power none s = s
take_power (some on) s = record s { power_state = if on then 0 else 1 }

unfoldable pub configure :
    Frames
    → Option (List ℕ)
    → Option Bool
    → Option PhysicalAddress
    → Option (ℕ × ℕ)
    → Source
    → Source
unfolding read_edid take_power cec_enable load_settings
configure frames edid on own addr s =
    let t = take_power on (read_edid edid (load_settings s)) in
    if t.cec_setting_enabled then cec_enable frames own addr t else t

-- onPowerModeChanged; the flag is `newState == POWER_STATE_ON`.
unfoldable pub on_power_mode_changed : Bool → Option (ℕ × ℕ) → Source → Source
unfolding get_logical_address
on_power_mode_changed on addr s =
    if on
    then get_logical_address addr (record s { power_state = 0 })
    else record s { power_state = 1 }

-- onHdmiHotPlug for HDMI_HOT_PLUG_EVENT_CONNECTED.
unfoldable pub on_connected :
    Option PhysicalAddress → Option (ℕ × ℕ) → Option (List ℕ) → Source → Source
unfolding get_logical_address read_edid
on_connected own addr edid s =
    let t = read_edid edid (get_logical_address addr (get_physical_address own s)) in
    if t.connected
    then send_vendor_id
        (send_to broadcast (report_physical_address t.physical_addr t.logical_address) t)
    else t

-- dsHdmiEventHandler and the thread that it starts; `event` is 0 for a connection.
unfoldable pub on_hdmi_hot_plug :
    (event : ℕ) → Option PhysicalAddress → Option (ℕ × ℕ) → Option (List ℕ) → Source → Source
unfolding on_connected
on_hdmi_hot_plug event own addr edid s =
    if not s.cec_enable_status then s else (if event == 0 then on_connected own addr edid s else s)

-- SendStandbyMessage: `sends` is false where the send throws. The flag is `success.success`.
unfoldable pub send_standby_message : (sends : Bool) → Source → Source × Bool
send_standby_message sends s =
    if s.cec_enable_status && (s.connected && sends)
    then (send_to broadcast standby s, true)
    else (s, false)

-- PerformOTPAction: `sends` tells of each of its three sends whether it returns.
unfoldable pub one_touch_play : (ℕ → Bool) → Source → Source × Bool
one_touch_play sends s =
    if not (sends 0)
    then (s, false)
    else let t = send_to tv_address image_view_on s in
      (if not (sends 1)
        then (t, false)
        else let u = record (send_to broadcast (active_source t.physical_addr) t) {
          is_active_source = true;
        } in
          (if not (sends 2)
            then (u, false)
            else (send_to tv_address give_device_power_status u, true)))

unfoldable pub perform_otp_action : (ℕ → Bool) → Source → Source × Bool
unfolding one_touch_play
perform_otp_action sends s =
    if s.cec_enable_status && (s.otp_setting_enabled && s.connected)
    then one_touch_play sends s
    else (s, false)

-- GetDeviceList: the entries of the devices from `i` on, for `k` addresses.
pub record DeviceEntry : Type 0 where
  pub logical_address : ℕ
  pub osd_name : String
  pub vendor_id : List ℕ

abbrev pub entry_of : DeviceInfo → DeviceEntry
entry_of d = record {
  logical_address = d.logical_address;
  osd_name = d.osd_name;
  vendor_id = d.vendor_id;
}

unfoldable pub devices_from : Source → (i k : ℕ) → List DeviceEntry
devices_from s i zero = []
devices_from s i (suc k) =
    let rest = devices_from s (suc i) k in
    if is_present s i then entry_of (s.device_list i) ∷ rest else rest

unfoldable pub get_device_list : Source → List DeviceEntry
unfolding devices_from
get_device_list s = devices_from s 0 unregistered

-- Register and Unregister.
abbrev pub is_registered : ℕ → List ℕ → Bool
is_registered c [] = false
is_registered c (d ∷ ds) = d == c || is_registered c ds

unfoldable pub register : ℕ → Source → Source
register c s = if is_registered c s.clients then s else record s { clients = s.clients ++ c ∷ [] }

abbrev pub erase_client : ℕ → List ℕ → List ℕ
erase_client c [] = []
erase_client c (d ∷ ds) = if d == c then ds else d ∷ erase_client c ds

unfoldable pub unregister : ℕ → Source → Source
unregister c s = record s { clients = erase_client c s.clients }
