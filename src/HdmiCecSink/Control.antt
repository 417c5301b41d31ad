-- ===== src/HdmiCecSink/Control.antt =====
-- What switches the sink: the panel's power, the HDMI cables, CECEnable and CECDisable, and the
-- clients that register. What the Device Settings and the CEC library answer are arguments; an
-- exception of the CEC library in CECEnable, outside its try block, is not modelled.
pub mod Closing
use entservices_inputoutput.Base.{
  ℕ, zero, suc, ◌+◌, Bool, true, false, not, ◌&&◌, ◌||◌, Option, none, some, List, [], ◌∷◌, ◌++◌,
  ◌==◌, if◌then◌else◌, ltb, get_elem?, ◌-◌,
}
use entservices_inputoutput.HdmiCecSink.Types.{
  PhysicalAddress, unregistered, device_power_state_on, device_power_state_off, panel_status,
  report_cec_enabled_event,
}
use entservices_inputoutput.HdmiCecSink.Device.{Device, clear}
use entservices_inputoutput.HdmiCecSink.Port.{HdmiPortMap}
use entservices_inputoutput.HdmiCecSink.State.{
  Sink, ArcRoutingState, request_arc_initiation_state, arc_initiated, arc_terminated, state_none,
  state_poll, state_ping, notify, update_device, not_allocated,
}
use entservices_inputoutput.HdmiCecSink.Devices.{is_present, remove_device, reset_audio}
use entservices_inputoutput.HdmiCecSink.Arc.{stop_arc, update_arc_state, is_terminated}
use entservices_inputoutput.HdmiCecSink.Arc.Timed.{ArcEvent, arc_step}
use entservices_inputoutput.HdmiCecSink.Ping.{Answer, allocate_logical_address}

abbrev pub set_next_state_ping : Sink → Sink
set_next_state_ping s = record s { poll = record (s.poll) { next_state = state_ping } }

abbrev pub is_starting_or_on : ArcRoutingState → Bool
is_starting_or_on request_arc_initiation_state = true
is_starting_or_on arc_initiated = true
is_starting_or_on _ = false

-- The first half of `onPowerModeChanged`; the flag is `newState == POWER_STATE_ON`.
unfoldable pub set_panel_power : Bool → Sink → Sink
set_panel_power panel_on s =
    if panel_on
    then record s { statics = record (s.statics) { power_state = device_power_state_on } }
    else (let t = record s {
      statics = record (s.statics) { power_state = device_power_state_off };
    } in
        if is_starting_or_on s.arc.routing_state then stop_arc t else t)

abbrev pub own_power_status : Sink → Sink
own_power_status s =
    update_device s.logical_address_allocated
      (λ d. record d { power_status = panel_status s.statics.power_state }) s

unfoldable pub on_power_mode_changed : Bool → Sink → Sink
unfolding set_panel_power
on_power_mode_changed panel_on s =
    let t = set_panel_power panel_on s in
    if not t.cec_enable_status || not_allocated t
    then t
    else set_next_state_ping (
        if panel_on
        then own_power_status t
        else record (own_power_status t) { current_active_source = none })

-- The loop of `CheckHdmiInState`, from port `i` on.
abbrev pub update_ports : (ℕ → Bool) → ℕ → List HdmiPortMap → List HdmiPortMap
update_ports status i [] = []
update_ports status i (p ∷ ps) =
    record p { is_connected = status i } ∷ update_ports status (suc i) ps

abbrev pub any_connected : (ℕ → Bool) → ℕ → List HdmiPortMap → Bool
any_connected status i [] = false
any_connected status i (p ∷ ps) = status i || any_connected status (suc i) ps

-- CheckHdmiInState; `none` is a call that failed.
unfoldable pub check_hdmi_in_state : Option (ℕ → Bool) → Sink → Sink
check_hdmi_in_state none s = record s { is_hdmi_in_connected = false }
check_hdmi_in_state (some status) s = record s {
  hdmi_inputs = update_ports status 0 s.hdmi_inputs;
  is_hdmi_in_connected = any_connected status 0 s.hdmi_inputs;
}

-- The device at the root of the port that lost its cable.
unfoldable pub unplug : Option HdmiPortMap → Sink → Sink
unplug none s = s
unplug (some p) s = remove_device p.logical_addr s

abbrev pub ask_for_ping : Sink → Sink
ask_for_ping s = if s.cec_enable_status then set_next_state_ping s else s

abbrev pub update_arc_port : Option ℕ → Sink → Sink
update_arc_port none s = s
update_arc_port (some arc_port) s = update_arc_state arc_port s

-- onHdmiHotPlug, for a port of the vector.
unfoldable pub on_hdmi_hot_plug : ℕ → Bool → Option (ℕ → Bool) → Sink → Sink
on_hdmi_hot_plug port is_in status s =
    let t = if is_in then s else unplug (get_elem? s.hdmi_inputs port) s in
    let u = ask_for_ping (check_hdmi_in_state status t) in
    update_arc_port u.statics.hdmi_arc_port_id u

abbrev pub address_or : Option PhysicalAddress → PhysicalAddress → PhysicalAddress
address_or none a = a
address_or (some b) a = b

-- CECEnable: `own` is what getPhysicalAddress gets, `none` on an exception.
unfoldable pub cec_enable : Option PhysicalAddress → (ℕ → ℕ → Answer) → Sink → Sink
cec_enable own polled s =
    if s.cec_enable_status
    then s
    else let t = allocate_logical_address polled (record s {
      connected = true;
      statics = record (s.statics) {
        own_physical_addr = address_or own s.statics.own_physical_addr;
        libcec_init_status = suc s.statics.libcec_init_status;
      };
    }) in
      let u = if not_allocated t then t else record t {
        statics = record (t.statics) { own_logical_address = t.logical_address_allocated };
      } in
      notify (report_cec_enabled_event true) (record u {
        cec_enable_status = true;
        poll = record (u.poll) {
          thread_state = state_poll;
          next_state = state_none;
          thread_exit = false;
        };
      })

-- The wait of CECDisable for the terminated state, while the given events happen; `none` if it is
-- still waiting after them.
unfoldable pub wait_terminated : List ArcEvent → Sink → Option Sink
wait_terminated [] s = if is_terminated s.arc.routing_state then some s else none
wait_terminated (e ∷ es) s =
    let rest = wait_terminated es (arc_step e s) in
    if is_terminated s.arc.routing_state then some s else rest

abbrev pub cleared_if_present : (ℕ → Device) → ℕ → Device
cleared_if_present f a = if ltb a 16 && (f a).is_device_present then clear (f a) else f a

abbrev pub close_connection : Sink → Sink
close_connection s =
    if s.connected
    then record s {
      connected = false;
      poll = record (s.poll) {
        thread_state = state_none;
        next_state = state_none;
        thread_exit = true;
      };
    }
    else s

-- The rest of CECDisable, behind the wait.
unfoldable pub finish_disable : Sink → Sink
unfolding clear
finish_disable s =
    let t = reset_audio (record (close_connection (record s { cec_enable_status = false })) {
      logical_address_allocated = unregistered;
      arc = record (s.arc) { routing_state = arc_terminated };
      device_list = cleared_if_present s.device_list;
    }) in
    if t.statics.libcec_init_status == 1
    then notify (report_cec_enabled_event false)
        (record t { statics = record (t.statics) { libcec_init_status = 0 } })
    else t

unfoldable pub cec_disable : List ArcEvent → Sink → Option Sink
unfolding wait_terminated
cec_disable es s =
    if not s.cec_enable_status
    then some s
    else elim (wait_terminated es (if is_terminated s.arc.routing_state then s else stop_arc s)) [
      | none ↦ none
      | some t ↦ some (finish_disable t)
    ]

-- Register and Unregister.
abbrev pub is_registered : ℕ → List ℕ → Bool
is_registered c [] = false
is_registered c (d ∷ ds) = d == c || is_registered c ds

unfoldable pub register : ℕ → Sink → Sink
register c s = if is_registered c s.clients then s else record s { clients = s.clients ++ c ∷ [] }

abbrev pub erase_client : ℕ → List ℕ → List ℕ
erase_client c [] = []
erase_client c (d ∷ ds) = if d == c then ds else d ∷ erase_client c ds

unfoldable pub unregister : ℕ → Sink → Sink
unregister c s = record s { clients = erase_client c s.clients }
