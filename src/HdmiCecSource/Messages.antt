-- ===== src/HdmiCecSource/Messages.antt =====
-- HdmiCecSourceProcessor::process, one handler to each CEC message. The exceptions that a handler
-- catches come from the send that ends it.
use entservices_inputoutput.Base.{ℕ, String, List, ◌==◌, if◌then◌else◌}
use entservices_inputoutput.HdmiCecSink.Types.{
  PhysicalAddress, same_address, PowerStatus, Version, v_1_4, OpCode, abort_op, AbortReason,
  unregistered, broadcast, tv_address,
}
use entservices_inputoutput.HdmiCecSource.State.{
  Source, send_to, notify, update_info, lg_vendor_id, on_device_info_updated,
  on_active_source_status_updated, on_key_press_event, on_key_release_event,
}
use entservices_inputoutput.HdmiCecSource.State
use entservices_inputoutput.HdmiCecSource.Devices.{add_device, is_new_vendor_id, is_new_osd_name}
use entservices_inputoutput.HdmiCecSource.Devices

-- `code` of UserControlPressed is `uiCommand.toInt()`.
pub data Message : Type 0 where
  active_source in_active_source : PhysicalAddress → Message
  image_view_on text_view_on request_active_source standby get_cec_version : Message
  cec_version : Version → Message
  set_menu_language set_osd_string set_osd_name : String → Message
  give_osd_name give_physical_address give_device_vendor_id get_menu_language : Message
  routing_change : (from to : PhysicalAddress) → Message
  routing_information set_stream_path : PhysicalAddress → Message
  report_physical_address : PhysicalAddress → (device_type : ℕ) → Message
  device_vendor_id : List ℕ → Message
  give_device_power_status : Message
  report_power_status : PowerStatus → Message
  user_control_pressed : (code : ℕ) → Message
  user_control_released : Message
  feature_abort : OpCode → AbortReason → Message
  abort polling : Message

unfoldable pub send_device_update_info : ℕ → Source → Source
send_device_update_info a s = notify (on_device_info_updated a) s

-- sendActiveSourceEvent.
unfoldable pub send_active_source_event : Source → Source
send_active_source_event s = notify (on_active_source_status_updated s.is_active_source) s

unfoldable pub send_standby_msg_event : ℕ → Source → Source
send_standby_msg_event a s = notify (State.standby_message_received a) s

unfoldable pub send_key_press_msg_event : ℕ → ℕ → Source → Source
send_key_press_msg_event a k s = notify (on_key_press_event a k) s

unfoldable pub send_key_release_msg_event : ℕ → Source → Source
send_key_release_msg_event a s = notify (on_key_release_event a) s

-- What ActiveSource, RoutingChange, RoutingInformation and SetStreamPath do with their address.
unfoldable pub take_active_address : PhysicalAddress → Source → Source
unfolding send_active_source_event
take_active_address a s =
    send_active_source_event (record s { is_active_source = same_address a s.physical_addr })

unfoldable pub on_set_osd_name : ℕ → String → Source → Source
unfolding send_device_update_info
on_set_osd_name a n s =
    let t = update_info a (Devices.set_osd_name n) s in
    if is_new_osd_name n (s.device_list a) then send_device_update_info a t else t

unfoldable pub on_device_vendor_id : ℕ → List ℕ → Source → Source
unfolding send_device_update_info
on_device_vendor_id a v s =
    let t = update_info a (Devices.set_vendor_id v) s in
    if is_new_vendor_id v (s.device_list a) then send_device_update_info a t else t

-- The vendor id that the box reports.
abbrev pub reported_vendor_id : Source → List ℕ
reported_vendor_id s = if s.is_lg_tv then lg_vendor_id else s.app_vendor_id

-- ABORT_REASON_ID.
abbrev pub abort_reason_id : ℕ
abort_reason_id = 4

unfoldable pub take_tv_power : ℕ → PowerStatus → Source → Source
take_tv_power a p s = if a == tv_address then record s { tv_power_state = p } else s

-- `from` is the initiator in the frame's header.
unfoldable pub process : Message → ℕ → Source → Source
unfolding send_standby_msg_event send_key_press_msg_event send_key_release_msg_event
    take_active_address on_set_osd_name on_device_vendor_id take_tv_power
process (active_source pa) from s = add_device from (take_active_address pa s)
process (in_active_source pa) from s = s
process image_view_on from s = add_device from s
process text_view_on from s = add_device from s
process request_active_source from s =
    if s.is_active_source then send_to broadcast (State.active_source s.physical_addr) s else s
process standby from s = send_standby_msg_event from s
process get_cec_version from s = send_to from (State.cec_version v_1_4) s
process (cec_version v) from s = add_device from s
process (set_menu_language l) from s = s
process give_osd_name from s =
    if from == unregistered then s else send_to from (State.set_osd_name s.own_osd_name) s
process give_physical_address from s =
    send_to broadcast (State.report_physical_address s.physical_addr s.logical_address) s
process give_device_vendor_id from s =
    send_to broadcast (State.device_vendor_id (reported_vendor_id s)) s
process (set_osd_string t) from s = s
process (set_osd_name n) from s = on_set_osd_name from n s
process (routing_change a b) from s = take_active_address b s
process (routing_information a) from s = take_active_address a s
process (set_stream_path a) from s = take_active_address a s
process get_menu_language from s = s
process (report_physical_address pa t) from s = add_device from s
process (device_vendor_id v) from s = on_device_vendor_id from v s
process give_device_power_status from s = send_to from (State.report_power_status s.power_state) s
process (report_power_status p) from s = add_device from (take_tv_power from p s)
process (user_control_pressed k) from s = send_key_press_msg_event from k s
process user_control_released from s = send_key_release_msg_event from s
process (feature_abort op reason) from s = s
process abort from s =
    if from == broadcast then s else send_to from (State.feature_abort abort_op abort_reason_id) s
process polling from s = s
