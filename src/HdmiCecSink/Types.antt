-- ===== src/HdmiCecSink/Types.antt =====
-- The values that HdmiCecSinkImplementation.h and the CEC frames are made of.
use entservices_inputoutput.Base.{ℕ, String, Bool, true, false, ◌&&◌, List, ◌==◌}

-- Logical addresses are the nibbles of a frame's header.
abbrev pub tv_address : ℕ
tv_address = 0

abbrev pub audio_system : ℕ
audio_system = 5

abbrev pub specific_use : ℕ
specific_use = 14

-- 15 is `UNREGISTERED` of a device and `BROADCAST` of a destination.
abbrev pub unregistered : ℕ
unregistered = 15

abbrev pub broadcast : ℕ
broadcast = 15

pub record PhysicalAddress : Type 0 where
  pub byte0 : ℕ
  pub byte1 : ℕ
  pub byte2 : ℕ
  pub byte3 : ℕ

-- The comparison of two addresses, which the source also makes through their texts.
abbrev pub same_address : PhysicalAddress → PhysicalAddress → Bool
same_address a b =
    a.byte0 == b.byte0 && (a.byte1 == b.byte1 && (a.byte2 == b.byte2 && a.byte3 == b.byte3))

abbrev pub invalid_address : PhysicalAddress
invalid_address = record { byte0 = 15; byte1 = 15; byte2 = 15; byte3 = 15 }

-- `code n` is a value as it stands in a frame; the last two are the CEC library's own.
pub data PowerStatus : Type 0 where
  code : ℕ → PowerStatus
  not_known feature_abort_status : PowerStatus

-- The code of `PowerStatus::STANDBY`.
abbrev pub standby_code : ℕ
standby_code = 1

abbrev pub is_standby : PowerStatus → Bool
is_standby (code n) = n == standby_code
is_standby not_known = false
is_standby feature_abort_status = false

-- `toInt() == toInt()`.
abbrev pub same_status : PowerStatus → PowerStatus → Bool
same_status (code m) (code n) = m == n
same_status not_known not_known = true
same_status feature_abort_status feature_abort_status = true
same_status _ _ = false

-- The power state of the panel, `powerState`.
pub data PanelPower : Type 0 where
  device_power_state_on device_power_state_off : PanelPower

-- `PowerStatus(powerState)`.
abbrev pub panel_status : PanelPower → PowerStatus
panel_status device_power_state_on = code 0
panel_status device_power_state_off = code 1

pub data Version : Type 0 where
  raw : ℕ → Version
  v_1_4 v_2_0 : Version

-- `DeviceType::TV` and `DeviceType::RESERVED`.
abbrev pub tv_type : ℕ
tv_type = 0

abbrev pub reserved_type : ℕ
reserved_type = 2

pub data UiCommand : Type 0 where
  volume_up volume_down mute up down left right select home back : UiCommand
  num : ℕ → UiCommand

-- The features that a FeatureAbort is read for.
pub data OpCode : Type 0 where
  get_cec_version_op give_device_vendor_id_op give_osd_name_op : OpCode
  give_device_power_status_op request_short_audio_descriptor_op abort_op : OpCode
  other_op : ℕ → OpCode

pub data AbortReason : Type 0 where
  unrecognized_opcode : AbortReason
  other_reason : ℕ → AbortReason

-- The frames that the sink sends.
pub data Frame : Type 0 where
  standby request_active_source give_physical_address get_cec_version : Frame
  give_device_vendor_id give_osd_name give_device_power_status give_audio_status : Frame
  user_control_released report_features request_short_audio_descriptor : Frame
  request_arc_initiation report_arc_initiation : Frame
  request_arc_termination report_arc_termination : Frame
  active_source set_stream_path system_audio_mode_request : PhysicalAddress → Frame
  set_menu_language set_osd_name : String → Frame
  user_control_pressed : UiCommand → Frame
  feature_abort : OpCode → AbortReason → Frame
  routing_change : PhysicalAddress → PhysicalAddress → Frame
  cec_version : Version → Frame
  report_physical_address : PhysicalAddress → (device_type : ℕ) → Frame
  device_vendor_id : List ℕ → Frame
  report_power_status : PowerStatus → Frame
  report_current_latency : PhysicalAddress → (video flags audio : ℕ) → Frame

pub data Outcome : Type 0 where
  success failure : Outcome

-- The events of IHdmiCecSink::INotification.
pub data Event : Type 0 where
  on_device_added on_device_removed on_device_info_updated : ℕ → Event
  on_wakeup_from_standby on_image_view_on_msg on_text_view_on_msg : ℕ → Event
  standby_message_received : ℕ → Event
  on_active_source_change on_in_active_source : ℕ → PhysicalAddress → Event
  arc_initiation_event arc_termination_event : Outcome → Event
  report_audio_device_connected_status report_cec_enabled_event : Bool → Event
  set_system_audio_mode_event : Bool → Event
  report_audio_status_event : (muted volume : ℕ) → Event
  report_audio_device_power_status : PowerStatus → Event
  report_feature_abort_event : ℕ → OpCode → AbortReason → Event
  short_audiodescriptor_event : List ℕ → Event

-- What leaves the sink: a frame to a logical address, or an event to a registered client.
pub data Output : Type 0 where
  sent : ℕ → Frame → Output
  notified : ℕ → Event → Output
