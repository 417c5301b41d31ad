-- ===== src/HdmiCecSink/Device.antt =====
-- CECDeviceParams (HdmiCecSink/HdmiCecSinkImplementation.h): what the sink knows of one device.
-- Times are milliseconds. `init` leaves `is_requested` at `request_none`; the constructor leaves it
-- unset, and nothing reads it before `request` has written it.
use entservices_inputoutput.Base.{ℕ, String, Bool, true, false, ◌&&◌, List, [], ◌∷◌}
use entservices_inputoutput.HdmiCecSink.Types.{
  PhysicalAddress, invalid_address, PowerStatus, code, Version, raw, OpCode,
}

-- The kinds of information that are asked of a device.
pub data Request : Type 0 where
  request_none request_physical_address request_cec_version : Request
  request_device_vendor_id request_power_status request_osd_name : Request

pub record Device : Type 0 where
  pub device_type : ℕ
  pub logical_address : ℕ
  pub physical_addr : PhysicalAddress
  pub cec_version : Version
  pub vendor_id : List ℕ
  pub osd_name : String
  pub power_status : PowerStatus
  pub current_language : String
  pub is_device_present : Bool
  pub is_device_disconnected : Bool
  pub is_active_source : Bool
  pub is_device_type_updated : Bool
  pub is_pa_updated : Bool
  pub is_version_updated : Bool
  pub is_osd_name_updated : Bool
  pub is_vendor_id_updated : Bool
  pub is_power_status_updated : Bool
  pub is_requested : Request
  pub is_request_retry : ℕ
  pub request_time : ℕ
  pub feature_aborts : List OpCode
  pub last_power_update_time : ℕ

-- The constructor.
abbrev pub init : Device
init = record {
  device_type = 0;
  logical_address = 0;
  physical_addr = invalid_address;
  cec_version = raw 0;
  vendor_id = 0 ∷ 0 ∷ 0 ∷ [];
  osd_name = "";
  power_status = code 0;
  current_language = "";
  is_device_present = false;
  is_device_disconnected = false;
  is_active_source = false;
  is_device_type_updated = false;
  is_pa_updated = false;
  is_version_updated = false;
  is_osd_name_updated = false;
  is_vendor_id_updated = false;
  is_power_status_updated = false;
  is_requested = request_none;
  is_request_retry = 0;
  request_time = 0;
  feature_aborts = [];
  last_power_update_time = 0;
}

-- `clear`: the request, its retries and times, and the recorded aborts stay.
unfoldable pub clear : Device → Device
clear d = record init {
  is_requested = d.is_requested;
  is_request_retry = d.is_request_retry;
  request_time = d.request_time;
  feature_aborts = d.feature_aborts;
  last_power_update_time = d.last_power_update_time;
}

unfoldable pub is_all_updated : Device → Bool
is_all_updated d =
    d.is_pa_updated
    && (d.is_version_updated
        && (d.is_osd_name_updated
            && (d.is_vendor_id_updated && (d.is_power_status_updated && d.is_device_type_updated))))

-- The overloads of `update`.
abbrev pub update_device_type : ℕ → Device → Device
update_device_type t d = record d { device_type = t; is_device_type_updated = true }

abbrev pub update_physical_addr : PhysicalAddress → Device → Device
update_physical_addr a d = record d { physical_addr = a; is_pa_updated = true }

abbrev pub update_vendor_id : List ℕ → Device → Device
update_vendor_id v d = record d { vendor_id = v; is_vendor_id_updated = true }

abbrev pub update_version : Version → Device → Device
update_version v d = record d { cec_version = v; is_version_updated = true }

abbrev pub update_osd_name : String → Device → Device
update_osd_name n d = record d { osd_name = n; is_osd_name_updated = true }

abbrev pub update_power_status : ℕ → PowerStatus → Device → Device
update_power_status now p d = record d {
  power_status = p;
  is_power_status_updated = true;
  last_power_update_time = now;
}
