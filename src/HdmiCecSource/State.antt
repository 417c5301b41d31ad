-- ===== src/HdmiCecSource/State.antt =====
-- CECDeviceInfo_2 (HdmiCecSource/HdmiCecSourceImplementation.h), the members and file statics of
-- HdmiCecSourceImplementation, and what the plugin sends. `_instance` is set; `connected` is
-- `smConnection`; the mutexes, which make each of the functions one step, have no field.
use entservices_inputoutput.Base.{
  ℕ, ℤ, pos, String, Bool, false, List, [], ◌∷◌, Option, none, update,
}
use entservices_inputoutput.HdmiCecSink.Types.{
  PhysicalAddress, invalid_address, PowerStatus, code, Version, UiCommand, OpCode,
}

-- `m_deviceInfoStatus` has one bit in use, `is_present`.
pub record DeviceInfo : Type 0 where
  pub logical_address : ℕ
  pub vendor_id : List ℕ
  pub osd_name : String
  pub is_present : Bool
  pub is_osd_name_updated : Bool
  pub is_vendor_id_updated : Bool

-- The constructor, and what `clear` leaves.
abbrev pub cleared : DeviceInfo
cleared = record {
  logical_address = 0;
  vendor_id = 0 ∷ 0 ∷ 0 ∷ [];
  osd_name = "NA";
  is_present = false;
  is_osd_name_updated = false;
  is_vendor_id_updated = false;
}

-- The frames that the source sends.
pub data Frame : Type 0 where
  active_source : PhysicalAddress → Frame
  cec_version : Version → Frame
  set_osd_name : String → Frame
  report_physical_address : PhysicalAddress → (device_type : ℕ) → Frame
  device_vendor_id : List ℕ → Frame
  report_power_status : ℕ → Frame
  feature_abort : OpCode → (reason : ℕ) → Frame
  user_control_pressed : UiCommand → Frame
  user_control_released standby image_view_on give_device_power_status : Frame
  request_active_source : Frame

-- The events of IHdmiCecSource::INotification.
pub data Event : Type 0 where
  on_device_added on_device_removed on_device_info_updated : ℕ → Event
  on_active_source_status_updated : Bool → Event
  standby_message_received on_key_release_event : ℕ → Event
  on_key_press_event : (address key : ℕ) → Event

-- What leaves the plugin: a frame to an address, the bytes of a frame, or an event to a client.
pub data Output : Type 0 where
  sent : ℕ → Frame → Output
  sent_bytes : List ℕ → Output
  notified : ℕ → Event → Output

pub record SendKeyInfo : Type 0 where
  pub logical_addr : ℕ
  pub key_code : ℕ

pub record Keys : Type 0 where
  pub queue : List SendKeyInfo
  pub thread_run : Bool
  pub thread_exit : Bool

-- The labels of CEC_SETTING_ENABLED_FILE; `none` is a label that is not there.
pub record Settings : Type 0 where
  pub enabled : Option Bool
  pub otp_enabled : Option Bool
  pub osd_name : Option String
  pub vendor_id : Option ℕ

-- `power_state` is 0 for on and 1 for off. `device_type` is `logicalAddressDeviceType`, `none` for
-- "None". `file` is what is stored, `none` if there is no file.
pub record Source : Type 0 where
  pub device_list : ℕ → DeviceInfo
  pub number_of_devices : ℤ
  pub connected : Bool
  pub cec_enable_status : Bool
  pub cec_setting_enabled : Bool
  pub otp_setting_enabled : Bool
  pub physical_addr : PhysicalAddress
  pub logical_address : ℕ
  pub device_type : Option ℕ
  pub app_vendor_id : List ℕ
  pub own_osd_name : String
  pub power_state : ℕ
  pub tv_power_state : PowerStatus
  pub is_active_source : Bool
  pub is_lg_tv : Bool
  pub libcec_init_status : ℤ
  pub poll_exit : Bool
  pub update_exit : Bool
  pub keys : Keys
  pub file : Option Settings
  pub clients : List ℕ
  pub log : List Output

abbrev pub send_to : ℕ → Frame → Source → Source
send_to to f s = record s { log = sent to f ∷ s.log }

-- The loop over `_hdmiCecSourceNotifications`.
abbrev pub notify_each : List ℕ → Event → List Output → List Output
notify_each [] e out = out
notify_each (c ∷ cs) e out = notify_each cs e (notified c e ∷ out)

abbrev pub notify : Event → Source → Source
notify e s = record s { log = notify_each s.clients e s.log }

abbrev pub update_info : ℕ → (DeviceInfo → DeviceInfo) → Source → Source
update_info a f s = record s { device_list = update s.device_list a (f (s.device_list a)) }

-- `BIT_CHECK(deviceList[a].m_deviceInfoStatus, BIT_DEVICE_PRESENT)`.
abbrev pub is_present : Source → ℕ → Bool
is_present s a = (s.device_list a).is_present

abbrev pub default_vendor_id : List ℕ
default_vendor_id = 0x00 ∷ 0x19 ∷ 0xFB ∷ []

abbrev pub lg_vendor_id : List ℕ
lg_vendor_id = 0x00 ∷ 0xE0 ∷ 0x91 ∷ []

-- The statics, the constructor, and Configure up to loadSettings, with the file that is there.
abbrev pub init_source : Option Settings → List ℕ → Source
init_source file clients = record {
  device_list = λ a. cleared;
  number_of_devices = pos 0;
  connected = false;
  cec_enable_status = false;
  cec_setting_enabled = false;
  otp_setting_enabled = false;
  physical_addr = invalid_address;
  logical_address = 0xFF;
  device_type = none;
  app_vendor_id = default_vendor_id;
  own_osd_name = "TV Box";
  power_state = 1;
  tv_power_state = code 1;
  is_active_source = false;
  is_lg_tv = false;
  libcec_init_status = pos 0;
  poll_exit = false;
  update_exit = false;
  keys = record { queue = []; thread_run = false; thread_exit = false };
  file = file;
  clients = clients;
  log = [];
}
