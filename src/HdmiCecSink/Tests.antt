-- ===== src/HdmiCecSink/Tests.antt =====
-- The sink on small concrete buses: the buses, and the runs of ports and of the list of devices.
pub mod Bus
pub mod Api
pub mod Runs
use entservices_inputoutput.Base.{
  ℕ, ◌≡◌, ◌≢◌, refl, Bool, true, false, Option, none, some, List, [], ◌∷◌, arith, length, pos, ◌<◌,
  ◌≤◌, All, update,
}
use entservices_inputoutput.HdmiCecSink.Types.{
  PhysicalAddress, standby_code, code, unregistered, invalid_address, device_power_state_on,
  broadcast, sent, routing_change, not_known,
}
use entservices_inputoutput.HdmiCecSink.Types
use entservices_inputoutput.HdmiCecSink.Device.{Device, init, is_all_updated, request_none}
use entservices_inputoutput.HdmiCecSink.Port.{
  HdmiPortMap, hdmi_port_map, add_child, remove_child, get_route, is_below, set_child,
}
use entservices_inputoutput.HdmiCecSink.Port.Route.{
  IsPort, IsAddress, IsLogical, hdmi_port_map-IsPort, get_route_bounds, target, get_route-add_child,
  add_child-IsPort, remove_child-IsPort,
}
use entservices_inputoutput.HdmiCecSink.State.{
  Sink, SendKeyInfo, init_sink, not_allocated, key_press_event, user_control_pressed_event,
  user_control_released_event, request_arc_termination_state, arc_terminated, arc_initiated,
  state_ping,
}
use entservices_inputoutput.HdmiCecSink.Devices.{is_present, add_device, remove_device}
use entservices_inputoutput.HdmiCecSink.Devices.Count.{
  IsCounted, others_below, add_device-IsCounted, remove_device-IsCounted,
}

abbrev pub address : (a b c d : ℕ) → PhysicalAddress
address a b c d = record { byte0 = a; byte1 = b; byte2 = c; byte3 = d }

-- A playback device behind the second port, shown.
abbrev pub player : Device
player = record init {
  logical_address = 4;
  physical_addr = address 2 1 0 0;
  is_device_present = true;
  is_active_source = true;
}

-- A device of which only the physical address and the type are known.
abbrev pub recorder : Device
recorder = record init {
  logical_address = 1;
  physical_addr = address 2 0 0 0;
  is_device_present = true;
  is_pa_updated = true;
  is_device_type_updated = true;
}

abbrev pub bus_devices : ℕ → Device
bus_devices = update (update (λ a. init) 1 recorder) 4 player

abbrev pub own_address : PhysicalAddress
own_address = address 0 0 0 0

-- The second port, with the recorder at its root.
abbrev pub second_port : HdmiPortMap
second_port = record {
  port_id = 1;
  is_connected = true;
  logical_addr = 1;
  physical_addr = address 2 0 0 0;
  chain0 = 15 ∷ 15 ∷ 15 ∷ 15 ∷ 15 ∷ 15 ∷ 15 ∷ 15 ∷ 15 ∷ 15 ∷ 15 ∷ 15 ∷ 15 ∷ 15 ∷ 15 ∷ [];
  chain1 = 15 ∷ 15 ∷ 15 ∷ 15 ∷ 15 ∷ 15 ∷ 15 ∷ 15 ∷ 15 ∷ 15 ∷ 15 ∷ 15 ∷ 15 ∷ 15 ∷ 15 ∷ [];
  chain2 = 15 ∷ 15 ∷ 15 ∷ 15 ∷ 15 ∷ 15 ∷ 15 ∷ 15 ∷ 15 ∷ 15 ∷ 15 ∷ 15 ∷ 15 ∷ 15 ∷ 15 ∷ [];
}

pub second_port-IsPort : IsPort second_port
second_port-IsPort = omega arith

-- Two devices on the bus, one client, CEC enabled, the panel on.
abbrev pub bus_sink : Sink
bus_sink =
    let s = init_sink (hdmi_port_map 0 ∷ second_port ∷ []) (7 ∷ []) in
    record s {
      device_list = bus_devices;
      number_of_devices = pos 2;
      current_active_source = some 4;
      logical_address_allocated = 0;
      connected = true;
      cec_setting_enabled = true;
      cec_enable_status = true;
      statics = record (s.statics) { power_state = device_power_state_on };
    }

pub bus_sink-IsCounted : IsCounted bus_sink
unfolding others_below
bus_sink-IsCounted = record { counted = refl }

-- A chain of three devices behind the second port, and the route to its end.
chain_route :
    get_route
      (add_child (add_child second_port 4 (address 2 1 0 0)) 8 (address 2 1 3 0))
      (address 2 1 3 0)
    ≡ 8 ∷ 4 ∷ 1 ∷ []
unfolding get_route add_child is_below set_child
chain_route = refl

get_route-add_child_example :
    target (get_route (add_child second_port 8 (address 2 1 3 0)) (address 2 1 3 0)) ≡ 8
unfolding is_below
get_route-add_child_example =
    get_route-add_child second_port 8 (address 2 1 3 0) second_port-IsPort (omega arith)
      (omega arith) (omega arith) refl

get_route_bounds_example :
    (length (get_route second_port (address 2 1 3 0)) ≤ 4)
    × All IsLogical (get_route second_port (address 2 1 3 0))
get_route_bounds_example = get_route_bounds second_port (address 2 1 3 0) second_port-IsPort
