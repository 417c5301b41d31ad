-- ===== src/HdmiCecSink/Messages.antt =====
-- HdmiCecSinkProcessor::process, one handler to each CEC message. The exceptions that a handler
-- catches come from the send that ends it. `now` is the clock, in milliseconds.
pub mod Tracking
use entservices_inputoutput.Base.{
  ℕ, ◌+◌, String, Bool, true, false, not, ◌&&◌, ◌||◌, Option, none, some, List, [], ◌∷◌, ◌++◌, ◌==◌,
  if◌then◌else◌, ltb,
}
use entservices_inputoutput.HdmiCecSink.Types.{
  PhysicalAddress, same_address, invalid_address, PowerStatus, code, same_status,
  feature_abort_status, panel_status, Version, v_1_4, v_2_0, OpCode, get_cec_version_op,
  give_device_vendor_id_op, give_osd_name_op, give_device_power_status_op,
  request_short_audio_descriptor_op, abort_op, AbortReason, unrecognized_opcode, other_reason,
  unregistered, broadcast, audio_system,
}
use entservices_inputoutput.HdmiCecSink.Types
use entservices_inputoutput.HdmiCecSink.Device.{
  Device, Request, request_physical_address, request_osd_name, update_device_type,
  update_physical_addr, update_vendor_id, update_version, update_osd_name, update_power_status,
}
use entservices_inputoutput.HdmiCecSink.State.{Sink, send_to, update_device}
use entservices_inputoutput.HdmiCecSink.Devices.{add_device, update_device_chain}
use entservices_inputoutput.HdmiCecSink.ActiveSource.{
  update_active_source, update_in_active_source, update_image_view_on, update_text_view_on,
  set_active_source, send_menu_language,
}
use entservices_inputoutput.HdmiCecSink.Arc.{initiate_arc, terminate_arc, set_system_audio_mode}
use entservices_inputoutput.HdmiCecSink.Audio.{
  set_latency_info, short_audio_descriptor, report_audio_status, report_audio_power_status,
  standby_message_event, send_device_update_info, report_feature_abort, send_feature_abort,
}

pub record Header : Type 0 where
  pub from : ℕ
  pub to : ℕ

pub data Message : Type 0 where
  active_source in_active_source : PhysicalAddress → Message
  image_view_on text_view_on request_active_source standby get_cec_version : Message
  cec_version : Version → Message
  set_menu_language set_osd_string set_osd_name : String → Message
  give_osd_name give_physical_address give_device_vendor_id get_menu_language : Message
  routing_change : PhysicalAddress → PhysicalAddress → Message
  routing_information set_stream_path : PhysicalAddress → Message
  report_physical_address : PhysicalAddress → (device_type : ℕ) → Message
  device_vendor_id : List ℕ → Message
  give_device_power_status : Message
  report_power_status : PowerStatus → Message
  feature_abort : OpCode → AbortReason → Message
  abort polling initiate_arc_message terminate_arc_message : Message
  report_short_audio_descriptor : List ℕ → Message
  set_system_audio_mode_message : Bool → Message
  report_audio_status_message : (muted volume : ℕ) → Message
  give_features : Message
  request_current_latency : PhysicalAddress → Message

abbrev pub is_broadcast : Header → Bool
is_broadcast h = h.to == broadcast

-- The guards at the head of the handlers.
abbrev pub if_direct : Header → Sink → Sink → Sink
if_direct h s t = if is_broadcast h then s else t

abbrev pub if_broadcast : Header → Sink → Sink → Sink
if_broadcast h s t = if is_broadcast h then t else s

-- The client is told unless the information was there before.
abbrev pub tell_unless : Bool → ℕ → Sink → Sink
tell_unless known a s = if known then s else send_device_update_info a s

unfoldable pub on_cec_version : Version → ℕ → Sink → Sink
on_cec_version v a s =
    let t = add_device a s in
    tell_unless (t.device_list a).is_version_updated a (update_device a (update_version v) t)

abbrev pub is_request : Request → Request → Bool
is_request request_physical_address request_physical_address = true
is_request request_osd_name request_osd_name = true
is_request _ _ = false

-- An answer to the request that is being retried ends the retries.
abbrev pub answer_retry : Request → Device → Device
answer_retry r d =
    if ltb 0 d.is_request_retry && is_request d.is_requested r
    then record d { is_request_retry = 0 }
    else d

unfoldable pub on_set_osd_name : String → ℕ → Sink → Sink
on_set_osd_name name a s =
    let t = add_device a s in
    tell_unless (t.device_list a).is_osd_name_updated a
      (update_device a (λ d. answer_retry request_osd_name (update_osd_name name d)) t)

unfoldable pub on_report_physical_address : PhysicalAddress → ℕ → ℕ → Sink → Sink
on_report_physical_address pa device_type a s =
    let t = add_device a s in
    let d = t.device_list a in
    let known = d.is_device_type_updated && (d.is_pa_updated && same_address d.physical_addr pa) in
    tell_unless known a (
      update_device_chain a pa (
        update_device a
          (λ e.
            answer_retry request_physical_address
              (update_device_type device_type (update_physical_addr pa e)))
          t))

unfoldable pub on_device_vendor_id : List ℕ → ℕ → Sink → Sink
on_device_vendor_id v a s =
    let t = add_device a s in
    tell_unless (t.device_list a).is_vendor_id_updated a (update_device a (update_vendor_id v) t)

unfoldable pub on_report_power_status : ℕ → PowerStatus → ℕ → Sink → Sink
on_report_power_status now p a s =
    let old = (s.device_list a).power_status in
    let t =
      tell_unless (same_status old p) a
        (update_device a (update_power_status now p) (add_device a s)) in
    if a == audio_system && t.audio_power_status_requested then report_audio_power_status p t else t

-- The switch of the FeatureAbort handler: a default for what the device does not know.
abbrev pub default_for : ℕ → OpCode → Device → Device
default_for now get_cec_version_op d = update_version v_1_4 d
default_for now give_device_vendor_id_op d = update_vendor_id (b'F' ∷ b'A' ∷ []) d
default_for now give_osd_name_op d = update_osd_name "" d
default_for now give_device_power_status_op d = update_power_status now feature_abort_status d
default_for now _ d = d

abbrev pub record_abort : OpCode → Device → Device
record_abort op d = record d { feature_aborts = d.feature_aborts ++ op ∷ [] }

abbrev pub is_unrecognized : AbortReason → Bool
is_unrecognized unrecognized_opcode = true
is_unrecognized (other_reason n) = false

abbrev pub is_short_audio_request : OpCode → Bool
is_short_audio_request request_short_audio_descriptor_op = true
is_short_audio_request _ = false

unfoldable pub on_feature_abort : ℕ → OpCode → AbortReason → ℕ → Sink → Sink
on_feature_abort now op reason a s =
    let t =
      if ltb a unregistered && is_unrecognized reason
      then update_device a (λ d. record_abort op (default_for now op d)) s
      else s in
    let u = report_feature_abort a op reason t in
    if is_short_audio_request op then short_audio_descriptor [] u else u

-- The physical address of the port with the audio return channel.
abbrev pub arc_port_address : ℕ → PhysicalAddress
arc_port_address port =
    if ltb port 3
    then record { byte0 = port + 1; byte1 = 0; byte2 = 0; byte3 = 0 }
    else invalid_address

unfoldable pub on_initiate_arc : Sink → Sink
on_initiate_arc s = elim s.statics.hdmi_arc_port_id [
  | none ↦ s
  | some port ↦
      (let audio_addr = (s.device_list audio_system).physical_addr in
        if same_address audio_addr (arc_port_address port)
          || same_address audio_addr invalid_address
        then initiate_arc s
        else s)
]

unfoldable pub process : ℕ → Message → Header → Sink → Sink
unfolding on_cec_version on_set_osd_name on_report_physical_address on_device_vendor_id
    on_report_power_status on_feature_abort on_initiate_arc
process now (active_source pa) h s =
    if_broadcast h s (update_active_source h.from pa (add_device h.from s))
process now (in_active_source pa) h s = if_direct h s (update_in_active_source h.from pa s)
process now image_view_on h s = if_direct h s (update_image_view_on h.from (add_device h.from s))
process now text_view_on h s = if_direct h s (update_text_view_on h.from (add_device h.from s))
process now request_active_source h s = if_broadcast h s (set_active_source true s)
process now standby h s = standby_message_event h.from s
process now get_cec_version h s =
    if_direct h s
      (send_to h.from (Types.cec_version (if s.statics.cec_2_0 then v_2_0 else v_1_4)) s)
process now (cec_version v) h s = on_cec_version v h.from s
process now (set_menu_language l) h s = s
process now give_osd_name h s =
    if_direct h s (send_to h.from (Types.set_osd_name s.statics.own_osd_name) s)
process now give_physical_address h s = if_direct h s (
    send_to broadcast
      (Types.report_physical_address s.statics.own_physical_addr s.statics.own_logical_address) s)
process now give_device_vendor_id h s =
    if_direct h s (send_to broadcast (Types.device_vendor_id s.statics.app_vendor_id) s)
process now (set_osd_string t) h s = s
process now (set_osd_name n) h s = if_direct h s (on_set_osd_name n h.from s)
process now (routing_change a b) h s = s
process now (routing_information a) h s = s
process now (set_stream_path a) h s = s
process now get_menu_language h s = if_direct h s (send_menu_language s)
process now (report_physical_address pa t) h s =
    if_broadcast h s (on_report_physical_address pa t h.from s)
process now (device_vendor_id v) h s = if_broadcast h s (on_device_vendor_id v h.from s)
process now give_device_power_status h s =
    if_direct h s
      (send_to h.from (Types.report_power_status (panel_status s.statics.power_state)) s)
process now (report_power_status p) h s = if_direct h s (on_report_power_status now p h.from s)
process now (feature_abort op reason) h s = if_direct h s (on_feature_abort now op reason h.from s)
process now abort h s = if_direct h s (send_feature_abort h.from abort_op unrecognized_opcode s)
process now polling h s = s
process now initiate_arc_message h s =
    if h.from == audio_system then if_direct h s (on_initiate_arc s) else s
process now terminate_arc_message h s =
    if h.from == audio_system then if_direct h s (terminate_arc s) else s
process now (report_short_audio_descriptor ds) h s = short_audio_descriptor ds s
process now (set_system_audio_mode_message m) h s = set_system_audio_mode m s
process now (report_audio_status_message m v) h s = if_direct h s (report_audio_status m v s)
process now give_features h s =
    if s.statics.cec_2_0 then send_to broadcast Types.report_features s else s
process now (request_current_latency pa) h s =
    if same_address pa s.statics.own_physical_addr then set_latency_info s else s
