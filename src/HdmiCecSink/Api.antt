-- ===== src/HdmiCecSink/Api.antt =====
-- The queries of the JSON-RPC interface that read the list of devices: GetDeviceList,
-- GetActiveSource and GetActiveRoute. `Texts` holds the CEC library's conversions to text.
pub mod DeviceList
use Prim.Native.Char.{Char}
use entservices_inputoutput.Base.{
  ℕ, zero, suc, ◌+◌, ◌-◌, ◌*◌, ◌%◌, ◌<◌, String, Bool, true, false, not, ◌&&◌, ◌||◌, Option, none,
  some, List, [], ◌∷◌, ◌++◌, map, ◌==◌, if◌then◌else◌, ltb, leb, length, ◌≡◌,
}
use entservices_inputoutput.HdmiCecSink.Types.{PhysicalAddress, Version, PowerStatus, unregistered}
use entservices_inputoutput.HdmiCecSink.Device.{Device}
use entservices_inputoutput.HdmiCecSink.Port.{HdmiPortMap}
use entservices_inputoutput.HdmiCecSink.State.{Sink}
use entservices_inputoutput.HdmiCecSink.Devices.{is_present}
use entservices_inputoutput.HdmiCecSink.ActiveSource.{get_active_route}

-- What GetDeviceList tells of one device. The source assigns `powerStatus` twice: first the status,
-- then the number of the port, which a string takes as a character.
pub record DeviceInfo : Type 0 where
  pub logical_address : ℕ
  pub physical_address : PhysicalAddress
  pub device_type : ℕ
  pub cec_version : Version
  pub osd_name : String
  pub vendor_id : List ℕ
  pub power_status : List ℕ

-- `hdmiPortNumber = -1` as the character 0xFF, which `std::string = int` stores.
abbrev pub no_port : ℕ
no_port = 255

-- The loop that looks for the connected port of a logical address.
unfoldable pub find_port : ℕ → List HdmiPortMap → ℕ
find_port la [] = no_port
find_port la (p ∷ ps) =
    if p.is_connected && p.logical_addr == la then p.port_id else find_port la ps

unfoldable pub device_info : Sink → Device → DeviceInfo
unfolding find_port
device_info s d = record {
  logical_address = d.logical_address;
  physical_address = d.physical_addr;
  device_type = d.device_type;
  cec_version = d.cec_version;
  osd_name = d.osd_name;
  vendor_id = d.vendor_id;
  power_status = find_port d.logical_address s.hdmi_inputs ∷ [];
}

abbrev pub is_listed : Sink → ℕ → Bool
is_listed s n = not (n == s.logical_address_allocated) && is_present s n

-- The devices from `n` on, for `k` more addresses.
unfoldable pub devices_from : Sink → (n k : ℕ) → List DeviceInfo
unfolding device_info
devices_from s n zero = []
devices_from s n (suc k) =
    let rest = devices_from s (suc n) k in
    if is_listed s n then device_info s (s.device_list n) ∷ rest else rest

-- `for (n = 0; n <= LogicalAddress::UNREGISTERED; n++)`.
unfoldable pub get_device_list : Sink → List DeviceInfo
unfolding devices_from
get_device_list s = devices_from s 0 16

pub data Port : Type 0 where
  hdmi_port : ℕ → Port
  tv_port : Port

-- What GetActiveSource answers, or `none` if it is not available.
pub record ActiveInfo : Type 0 where
  pub device : Device
  pub port : Port

unfoldable pub get_active_source : Sink → Option ActiveInfo
get_active_source s = elim s.current_active_source [
  | none ↦ none
  | some n ↦
      (let d = s.device_list n in
        some (record {
          device = d;
          port =
              if d.physical_addr.byte0 == 0 then tv_port else hdmi_port (d.physical_addr.byte0 - 1);
        }))
]
