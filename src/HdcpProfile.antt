-- ===== src/HdcpProfile.antt =====
-- HdcpProfileImplementation (HdcpProfile/HdcpProfileImplementation.cpp). What Device Settings and
-- the power manager answer are arguments, as are the constants of the enumerations of Device
-- Settings; its exceptions are those that derive from std::exception.
pub mod Clients
pub mod Status
pub mod Delivery
mod Tests
use entservices_inputoutput.Base.{
  ℕ, Bool, true, false, not, ◌||◌, Option, none, some, String, List, [], ◌∷◌, ◌++◌, ◌==◌,
  if◌then◌else◌,
}

-- The constants of dsHdcpStatus_t and dsHdcpProtocolVersion_t that the code names.
pub record DsConstants : Type 0 where
  pub status_unpowered : ℕ
  pub status_authenticated : ℕ
  pub version_2x : ℕ
  pub version_max : ℕ

-- The answers of the default video port; `none` is an exception.
pub record VideoOutputPort : Type 0 where
  pub is_display_connected : Option Bool
  pub hdcp_protocol : Option ℕ
  pub hdcp_status : Option ℕ
  pub is_content_protected : Option Bool
  pub hdcp_receiver_protocol : Option ℕ
  pub hdcp_current_protocol : Option ℕ

pub record HdcpStatus : Type 0 where
  pub is_connected : Bool
  pub is_hdcp_compliant : Bool
  pub is_hdcp_enabled : Bool
  pub hdcp_reason : ℕ
  pub supported_hdcp_version : String
  pub receiver_hdcp_version : String
  pub current_hdcp_version : String

-- The local variables of GetHDCPStatusInternal.
pub record Reading : Type 0 where
  pub connected : Bool
  pub compliant : Bool
  pub enabled : Bool
  pub enabled_status : ℕ
  pub protocol : ℕ
  pub receiver_protocol : ℕ
  pub current_protocol : ℕ

-- A call of Device Settings whose answer is stored: an exception leaves the try block with the
-- variables as they are.
abbrev pub read {ℓ} :
    {A : Type ℓ} → Option A → (A → Reading → Reading) → (Reading → Reading) → Reading → Reading
read none store next r = r
read (some a) store next r = next (store a r)

unfoldable pub initial_reading : DsConstants → Reading
initial_reading k = record {
  connected = false;
  compliant = false;
  enabled = true;
  enabled_status = k.status_unpowered;
  protocol = k.version_max;
  receiver_protocol = k.version_max;
  current_protocol = k.version_max;
}

-- The two branches on isConnected.
unfoldable pub read_connection : DsConstants → VideoOutputPort → Reading → Reading
read_connection k v r =
    if r.connected
    then read v.is_content_protected (λ b q. record q { enabled = b })
        (read v.hdcp_receiver_protocol (λ n q. record q { receiver_protocol = n })
          (read v.hdcp_current_protocol (λ n q. record q { current_protocol = n }) (λ q. q)))
        (record r { compliant = r.enabled_status == k.status_authenticated })
    else record r { compliant = false; enabled = false }

-- The try block, for the default video port: `none` if getting the port throws.
unfoldable pub read_port : DsConstants → Option VideoOutputPort → Reading → Reading
unfolding read_connection
read_port k none r = r
read_port k (some v) r =
    read v.is_display_connected (λ b q. record q { connected = b })
      (read v.hdcp_protocol (λ n q. record q { protocol = n })
        (read v.hdcp_status (λ n q. record q { enabled_status = n }) (read_connection k v)))
      r

unfoldable pub version_text : DsConstants → ℕ → String
version_text k v = if v == k.version_2x then "2.2" else "1.4"

unfoldable pub status_of : DsConstants → Reading → HdcpStatus
unfolding version_text
status_of k r = record {
  is_connected = r.connected;
  is_hdcp_compliant = r.compliant;
  is_hdcp_enabled = r.enabled;
  hdcp_reason = r.enabled_status;
  supported_hdcp_version = version_text k r.protocol;
  receiver_hdcp_version = version_text k r.receiver_protocol;
  current_hdcp_version = version_text k r.current_protocol;
}

-- GetHDCPStatus, with its `success`.
unfoldable pub get_hdcp_status : DsConstants → Option VideoOutputPort → HdcpStatus × Bool
unfolding read_port initial_reading status_of
get_hdcp_status k port = (status_of k (read_port k port (initial_reading k)), true)

-- GetSettopHDCPSupport: the version, isHDCPSupported and success.
unfoldable pub get_settop_hdcp_support :
    DsConstants → Option VideoOutputPort → String × (Bool × Bool)
unfolding version_text
get_settop_hdcp_support k none = (version_text k k.version_max, (true, true))
get_settop_hdcp_support k (some v) = elim v.hdcp_protocol [
  | none ↦ (version_text k k.version_max, (true, true))
  | some n ↦ (version_text k n, (true, true))
]

-- `clients` are the registered notifications, `jobs` what is submitted to the worker pool and has
-- not run, `log` the calls of OnDisplayConnectionChanged.
pub record Profile : Type 0 where
  pub clients : List ℕ
  pub jobs : List HdcpStatus
  pub log : List (ℕ × HdcpStatus)

unfoldable pub init_profile : Profile
init_profile = record { clients = []; jobs = []; log = [] }

abbrev pub is_registered : ℕ → List ℕ → Bool
is_registered c [] = false
is_registered c (d ∷ ds) = d == c || is_registered c ds

unfoldable pub register : ℕ → Profile → Profile
register c s = if is_registered c s.clients then s else record s { clients = s.clients ++ c ∷ [] }

abbrev pub erase_client : ℕ → List ℕ → List ℕ
erase_client c [] = []
erase_client c (d ∷ ds) = if d == c then ds else d ∷ erase_client c ds

-- Unregister: true for ERROR_NONE, false for ERROR_GENERAL.
unfoldable pub unregister : ℕ → Profile → Profile × Bool
unregister c s =
    if is_registered c s.clients
    then (record s { clients = erase_client c s.clients }, true)
    else (s, false)

-- onHdcpProfileDisplayConnectionChanged, with dispatchEvent.
unfoldable pub display_connection_changed : DsConstants → Option VideoOutputPort → Profile → Profile
unfolding get_hdcp_status
display_connection_changed k port s = record s { jobs = s.jobs ++ (get_hdcp_status k port).0 ∷ [] }

pub data DsEvent : Type 0 where
  hdmi_hotplug hdcp_status other_event : DsEvent

-- dsHdmiEventHandler: an HDCP status is passed on if there is a power manager and it answers.
unfoldable pub ds_hdmi_event_handler :
    DsConstants → DsEvent → (power_answers : Bool) → Option VideoOutputPort → Profile → Profile
unfolding display_connection_changed
ds_hdmi_event_handler k hdmi_hotplug power_answers port s = display_connection_changed k port s
ds_hdmi_event_handler k hdcp_status power_answers port s =
    if power_answers then display_connection_changed k port s else s
ds_hdmi_event_handler k other_event power_answers port s = s

unfoldable pub tell : HdcpStatus → List ℕ → List (ℕ × HdcpStatus)
tell h [] = []
tell h (c ∷ cs) = (c, h) ∷ tell h cs

-- Dispatch, which the worker pool runs for a job.
unfoldable pub dispatch : HdcpStatus → Profile → Profile
unfolding tell
dispatch h s = record s { log = s.log ++ tell h s.clients }
