-- ===== src/HdmiCecSink/State.antt =====
-- The members and file statics of HdmiCecSinkImplementation, and what the sink sends.
-- `_instance` is set: the model starts where Configure has run. `connected` is `smConnection`; the
-- frames and events are kept in `log`, the newest first, and the mutexes, which make each of these
-- functions one step, have no field.
use entservices_inputoutput.Base.{
  ℕ, ℤ, pos, String, Bool, false, List, [], ◌∷◌, Option, none, ◌==◌, update,
}
use entservices_inputoutput.HdmiCecSink.Types.{
  PhysicalAddress, invalid_address, unregistered, PanelPower, device_power_state_off, Frame, Event,
  Output, sent, notified,
}
use entservices_inputoutput.HdmiCecSink.Device.{Device}
use entservices_inputoutput.HdmiCecSink.Device
use entservices_inputoutput.HdmiCecSink.Port.{HdmiPortMap}

pub data ArcRoutingState : Type 0 where
  request_arc_initiation_state arc_initiated request_arc_termination_state : ArcRoutingState
  arc_terminated arc_exit : ArcRoutingState

-- `m_currentArcRoutingState`, `m_arcstarting`, `m_arcStartStopTimer` and the semaphore's count.
pub record Arc : Type 0 where
  pub routing_state : ArcRoutingState
  pub starting : Bool
  pub timer_active : Bool
  pub signalled : Bool

pub record AudioStatus : Type 0 where
  pub info_updated : Bool
  pub received : Bool
  pub timer_started : Bool
  pub timer_active : Bool

pub data PollState : Type 0 where
  state_none state_idle state_poll state_ping state_info state_wait state_clean : PollState
  state_update state_exit : PollState

pub record Poll : Type 0 where
  pub thread_state : PollState
  pub next_state : PollState
  pub thread_exit : Bool
  pub sleep_time : ℕ

pub data UserControl : Type 0 where
  key_press_event user_control_pressed_event user_control_released_event : UserControl

pub record SendKeyInfo : Type 0 where
  pub logical_addr : ℕ
  pub key_code : ℕ
  pub user_control : UserControl

pub record Keys : Type 0 where
  pub queue : List SendKeyInfo
  pub thread_run : Bool
  pub thread_exit : Bool

pub record Latency : Type 0 where
  pub video_latency : ℕ
  pub latency_flags : ℕ
  pub audio_output_delay : ℕ

-- The file statics. `hdmi_arc_port_id` is `none` for -1, and `cec_2_0` is `cecVersion == 2.0`.
pub record Statics : Type 0 where
  pub power_state : PanelPower
  pub own_physical_addr : PhysicalAddress
  pub own_logical_address : ℕ
  pub app_vendor_id : List ℕ
  pub own_osd_name : String
  pub hdmi_arc_port_id : Option ℕ
  pub cec_2_0 : Bool
  pub libcec_init_status : ℕ

-- `current_active_source` is `none` for -1.
pub record Sink : Type 0 where
  pub device_list : ℕ → Device
  pub hdmi_inputs : List HdmiPortMap
  pub current_active_source : Option ℕ
  pub number_of_devices : ℤ
  pub logical_address_allocated : ℕ
  pub connected : Bool
  pub cec_setting_enabled : Bool
  pub cec_enable_status : Bool
  pub audio_device_connected : Bool
  pub is_hdmi_in_connected : Bool
  pub audio_power_status_requested : Bool
  pub latency : Latency
  pub statics : Statics
  pub arc : Arc
  pub audio : AudioStatus
  pub poll : Poll
  pub keys : Keys
  pub clients : List ℕ
  pub log : List Output

-- `smConnection->sendTo`; the caller has tested the pointer.
abbrev pub send_to : ℕ → Frame → Sink → Sink
send_to to f s = record s { log = sent to f ∷ s.log }

-- The loop over `_hdmiCecSinkNotifications`.
abbrev pub notify_each : List ℕ → Event → List Output → List Output
notify_each [] e out = out
notify_each (c ∷ cs) e out = notify_each cs e (notified c e ∷ out)

abbrev pub notify : Event → Sink → Sink
notify e s = record s { log = notify_each s.clients e s.log }

-- `deviceList[a]` given anew.
abbrev pub update_device : ℕ → (Device → Device) → Sink → Sink
update_device a f s = record s { device_list = update s.device_list a (f (s.device_list a)) }

-- `m_logicalAddressAllocated == LogicalAddress::UNREGISTERED`.
abbrev pub not_allocated : Sink → Bool
not_allocated s = s.logical_address_allocated == unregistered

-- The members as Configure leaves them, before the settings are read.
abbrev pub init_sink : List HdmiPortMap → List ℕ → Sink
init_sink inputs clients = record {
  device_list = λ a. Device.init;
  hdmi_inputs = inputs;
  current_active_source = none;
  number_of_devices = pos 0;
  logical_address_allocated = unregistered;
  connected = false;
  cec_setting_enabled = false;
  cec_enable_status = false;
  audio_device_connected = false;
  is_hdmi_in_connected = false;
  audio_power_status_requested = false;
  latency = record { video_latency = 100; latency_flags = 3; audio_output_delay = 100 };
  statics = record {
    power_state = device_power_state_off;
    own_physical_addr = invalid_address;
    own_logical_address = 0xFF;
    app_vendor_id = 0x00 ∷ 0x19 ∷ 0xFB ∷ [];
    own_osd_name = "TV Box";
    hdmi_arc_port_id = none;
    cec_2_0 = false;
    libcec_init_status = 0;
  };
  arc = record {
    routing_state = arc_terminated;
    starting = false;
    timer_active = false;
    signalled = false;
  };
  audio = record {
    info_updated = false;
    received = false;
    timer_started = false;
    timer_active = false;
  };
  poll = record {
    thread_state = state_none;
    next_state = state_none;
    thread_exit = false;
    sleep_time = 0;
  };
  keys = record { queue = []; thread_run = false; thread_exit = false };
  clients = clients;
  log = [];
}
