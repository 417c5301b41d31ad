-- ===== src/HdmiCecSink/Messages/Tracking.antt =====
-- The count of devices through every message.
use mathlib.Core.Path.{fun_ext}
use entservices_inputoutput.Base.{
  ℕ, ◌==◌, ◌<◌, ◌≡◌, ◌≢◌, Bool, true, false, arith, List, String, if◌then◌else◌,
}
use entservices_inputoutput.HdmiCecSink.Types.{
  audio_system, same_address, PhysicalAddress, PowerStatus, Version, OpCode, AbortReason,
}
use entservices_inputoutput.HdmiCecSink.State.{Sink}
use entservices_inputoutput.HdmiCecSink.Devices.{is_present, add_device, update_device_chain}
use entservices_inputoutput.HdmiCecSink.Devices.Count.{IsCounted, add_device-IsCounted}
use entservices_inputoutput.HdmiCecSink.ActiveSource.{
  update_active_source, update_in_active_source, update_image_view_on, update_text_view_on,
  set_active_source, send_menu_language,
}
use entservices_inputoutput.HdmiCecSink.Audio.{
  report_audio_power_status, report_audio_status, set_latency_info, send_feature_abort,
}
use entservices_inputoutput.HdmiCecSink.Arc.{initiate_arc, terminate_arc, set_system_audio_mode}
use entservices_inputoutput.HdmiCecSink.Messages.{
  Header, Message, is_broadcast, process, on_cec_version, on_set_osd_name,
  on_report_physical_address, on_device_vendor_id, on_report_power_status, on_feature_abort,
  on_initiate_arc,
}
use entservices_inputoutput.HdmiCecSink.Messages

-- The same devices are there, for the same TV.
record IsSame (s t : Sink) : Type 0 where
  number : t.number_of_devices ≡ s.number_of_devices
  own : t.logical_address_allocated ≡ s.logical_address_allocated
  present : is_present t ≡ is_present s

IsSame-IsCounted : (s t : Sink) → IsSame s t → IsCounted s → IsCounted t
IsSame-IsCounted s t e c = record { counted = rw (e.number, e.own, e.present) c.counted }

update_active_source-IsSame :
    (a : ℕ) (pa : PhysicalAddress) (s : Sink) → IsSame s (update_active_source a pa s)
unfolding update_active_source
update_active_source-IsSame a pa s = record {
  number = ground arith;
  own = ground arith;
  present = fun_ext (λ i. ground arith);
}

update_in_active_source-IsSame :
    (a : ℕ) (pa : PhysicalAddress) (s : Sink) → IsSame s (update_in_active_source a pa s)
unfolding update_in_active_source
update_in_active_source-IsSame a pa s = record {
  number = ground arith;
  own = ground arith;
  present = fun_ext (λ i. ground arith);
}

update_image_view_on-IsSame : (a : ℕ) (s : Sink) → IsSame s (update_image_view_on a s)
unfolding update_image_view_on
update_image_view_on-IsSame a s = record {
  number = ground arith;
  own = ground arith;
  present = fun_ext (λ i. ground arith);
}

update_text_view_on-IsSame : (a : ℕ) (s : Sink) → IsSame s (update_text_view_on a s)
unfolding update_text_view_on
update_text_view_on-IsSame a s = record {
  number = ground arith;
  own = ground arith;
  present = fun_ext (λ i. ground arith);
}

set_active_source-IsSame : (b : Bool) (s : Sink) → IsSame s (set_active_source b s)
unfolding set_active_source
set_active_source-IsSame b s = record {
  number = ground arith;
  own = ground arith;
  present = fun_ext (λ i. ground arith);
}

on_initiate_arc-IsSame : (s : Sink) → IsSame s (on_initiate_arc s)
unfolding on_initiate_arc initiate_arc
on_initiate_arc-IsSame s = record {
  number = ground arith;
  own = ground arith;
  present = fun_ext (λ i. ground arith);
}

set_system_audio_mode-IsSame : (m : Bool) (s : Sink) → IsSame s (set_system_audio_mode m s)
unfolding set_system_audio_mode
set_system_audio_mode-IsSame m s = record {
  number = ground arith;
  own = ground arith;
  present = fun_ext (λ i. ground arith);
}

on_feature_abort-IsSame :
    (now : ℕ) (op : OpCode) (reason : AbortReason) (a : ℕ) (s : Sink)
    → IsSame s (on_feature_abort now op reason a s)
unfolding on_feature_abort
on_feature_abort-IsSame now op reason a s = record {
  number = ground arith;
  own = ground arith;
  present = fun_ext (λ i. ground arith);
}

on_cec_version-IsSame :
    (v : Version) (a : ℕ) (s : Sink) → IsSame (add_device a s) (on_cec_version v a s)
unfolding on_cec_version
on_cec_version-IsSame v a s = record {
  number = ground arith;
  own = ground arith;
  present = fun_ext (λ i. ground arith);
}

on_set_osd_name-IsSame :
    (n : String) (a : ℕ) (s : Sink) → IsSame (add_device a s) (on_set_osd_name n a s)
unfolding on_set_osd_name
on_set_osd_name-IsSame n a s = record {
  number = ground arith;
  own = ground arith;
  present = fun_ext (λ i. ground arith);
}

on_report_physical_address-IsSame :
    (pa : PhysicalAddress) (t a : ℕ) (s : Sink)
    → IsSame (add_device a s) (on_report_physical_address pa t a s)
unfolding on_report_physical_address update_device_chain
on_report_physical_address-IsSame pa t a s = record {
  number = ground arith;
  own = ground arith;
  present = fun_ext (λ i. ground arith);
}

on_device_vendor_id-IsSame :
    (v : List ℕ) (a : ℕ) (s : Sink) → IsSame (add_device a s) (on_device_vendor_id v a s)
unfolding on_device_vendor_id
on_device_vendor_id-IsSame v a s = record {
  number = ground arith;
  own = ground arith;
  present = fun_ext (λ i. ground arith);
}

on_report_power_status-IsSame :
    (now : ℕ) (p : PowerStatus) (a : ℕ) (s : Sink)
    → IsSame (add_device a s) (on_report_power_status now p a s)
unfolding on_report_power_status report_audio_power_status
on_report_power_status-IsSame now p a s = record {
  number = ground arith;
  own = ground arith;
  present = fun_ext (λ i. ground arith);
}

send_menu_language-IsSame : (s : Sink) → IsSame s (send_menu_language s)
unfolding send_menu_language
send_menu_language-IsSame s = record {
  number = ground arith;
  own = ground arith;
  present = fun_ext (λ i. ground arith);
}

set_latency_info-IsSame : (s : Sink) → IsSame s (set_latency_info s)
unfolding set_latency_info
set_latency_info-IsSame s = record {
  number = ground arith;
  own = ground arith;
  present = fun_ext (λ i. ground arith);
}

report_audio_status-IsSame : (m v : ℕ) (s : Sink) → IsSame s (report_audio_status m v s)
unfolding report_audio_status
report_audio_status-IsSame m v s = record {
  number = ground arith;
  own = ground arith;
  present = fun_ext (λ i. ground arith);
}

send_feature_abort-IsSame :
    (a : ℕ) (op : OpCode) (r : AbortReason) (s : Sink) → IsSame s (send_feature_abort a op r s)
unfolding send_feature_abort
send_feature_abort-IsSame a op r s = record {
  number = ground arith;
  own = ground arith;
  present = fun_ext (λ i. ground arith);
}

terminate_arc-IsSame : (s : Sink) → IsSame s (terminate_arc s)
unfolding terminate_arc
terminate_arc-IsSame s = record {
  number = ground arith;
  own = ground arith;
  present = fun_ext (λ i. ground arith);
}

if-IsCounted : (b : Bool) (s t : Sink) → IsCounted s → IsCounted t → IsCounted (if b then s else t)
if-IsCounted true s t c d = c
if-IsCounted false s t c d = d

-- A message, of any kind, whose sender is a nibble other than the TV's own address keeps the counter
-- equal to the number of devices that are present, the TV left out.
pub process-IsCounted :
    (now : ℕ) (m : Message) (h : Header) (s : Sink)
    → h.from < 16
    → h.from ≢ s.logical_address_allocated
    → IsCounted s
    → IsCounted (process now m h s)
unfolding process
process-IsCounted now m h s lt n c = go m
  where
    added : IsCounted (add_device h.from s)
    added = add_device-IsCounted s h.from lt n c

    here : (t : Sink) → IsSame s t → IsCounted t
    here t e = IsSame-IsCounted s t e c

    after : (t : Sink) → IsSame (add_device h.from s) t → IsCounted t
    after t e = IsSame-IsCounted (add_device h.from s) t e added

    direct : (t : Sink) → IsCounted t → IsCounted (if is_broadcast h then s else t)
    direct t d = if-IsCounted (is_broadcast h) s t c d

    by_broadcast : (t : Sink) → IsCounted t → IsCounted (if is_broadcast h then t else s)
    by_broadcast t d = if-IsCounted (is_broadcast h) t s d c

    go : (m : Message) → IsCounted (process now m h s)
    go (Messages.active_source pa) =
        by_broadcast _ (after _ (update_active_source-IsSame h.from pa (add_device h.from s)))
    go (Messages.in_active_source pa) =
        direct _ (here _ (update_in_active_source-IsSame h.from pa s))
    go Messages.image_view_on =
        direct _ (after _ (update_image_view_on-IsSame h.from (add_device h.from s)))
    go Messages.text_view_on =
        direct _ (after _ (update_text_view_on-IsSame h.from (add_device h.from s)))
    go Messages.request_active_source = by_broadcast _ (here _ (set_active_source-IsSame true s))
    go (Messages.cec_version v) = after _ (on_cec_version-IsSame v h.from s)
    go (Messages.set_osd_name n) = direct _ (after _ (on_set_osd_name-IsSame n h.from s))
    go (Messages.report_physical_address pa t) =
        by_broadcast _ (after _ (on_report_physical_address-IsSame pa t h.from s))
    go (Messages.device_vendor_id v) =
        by_broadcast _ (after _ (on_device_vendor_id-IsSame v h.from s))
    go (Messages.report_power_status p) =
        direct _ (after _ (on_report_power_status-IsSame now p h.from s))
    go (Messages.feature_abort op reason) =
        direct _ (here _ (on_feature_abort-IsSame now op reason h.from s))
    go Messages.initiate_arc_message =
        if-IsCounted (h.from == audio_system) _ s (direct _ (here _ (on_initiate_arc-IsSame s))) c
    go (Messages.set_system_audio_mode_message m) = here _ (set_system_audio_mode-IsSame m s)
    go Messages.get_menu_language = direct _ (here _ (send_menu_language-IsSame s))
    go Messages.abort = direct _ (here _ (send_feature_abort-IsSame _ _ _ s))
    go (Messages.report_audio_status_message m v) =
        direct _ (here _ (report_audio_status-IsSame m v s))
    go Messages.terminate_arc_message =
        if-IsCounted (h.from == audio_system) _ s (direct _ (here _ (terminate_arc-IsSame s))) c
    go (Messages.request_current_latency pa) =
        if-IsCounted (same_address pa s.statics.own_physical_addr) _ s
          (here _ (set_latency_info-IsSame s)) c
    go Messages.get_cec_version = direct _ (ground arith)
    go Messages.give_osd_name = direct _ (ground arith)
    go Messages.give_physical_address = direct _ (ground arith)
    go Messages.give_device_vendor_id = direct _ (ground arith)
    go Messages.give_device_power_status = direct _ (ground arith)
    go Messages.give_features = if-IsCounted s.statics.cec_2_0 _ s (ground arith) c
    go _ = ground arith
