-- ===== src/HdmiCecSink/Reach/Handlers.antt =====
-- The message handlers keep the sink sound.
use mathlib.Core.Path.{fun_ext}
use entservices_inputoutput.Base.{
  ℕ, ◌<◌, ◌≡◌, ◌≢◌, refl, Bool, true, false, arith, inl, inr, Bool-cases, ◌∙◌,
}
use entservices_inputoutput.HdmiCecSink.Types.{PhysicalAddress}
use entservices_inputoutput.HdmiCecSink.State.{Sink, update_device}
use entservices_inputoutput.HdmiCecSink.Devices.{add_device, update_device_chain}
use entservices_inputoutput.HdmiCecSink.ActiveSource.{
  update_active_source, update_in_active_source, update_image_view_on, update_text_view_on,
  set_active_source, send_menu_language,
}
use entservices_inputoutput.HdmiCecSink.Audio.{
  report_audio_power_status, report_audio_status, set_latency_info, send_feature_abort,
}
use entservices_inputoutput.HdmiCecSink.Arc.{initiate_arc, terminate_arc, set_system_audio_mode}
use entservices_inputoutput.HdmiCecSink.Messages.{
  Header, Message, is_broadcast, process, on_report_physical_address, tell_unless, answer_retry,
}
use entservices_inputoutput.HdmiCecSink.Messages
use entservices_inputoutput.HdmiCecSink.Device.{
  Device, update_device_type, update_physical_addr, request_physical_address,
}
use entservices_inputoutput.HdmiCecSink.Messages.Tracking.{process-IsCounted}
use entservices_inputoutput.HdmiCecSink.Reach.Sound.{
  IsSound, IsFramed-IsSound, add_device-IsSound, update_device_chain-IsSound,
}

abbrev answered : PhysicalAddress → ℕ → Device → Device
answered pa t e =
    answer_retry request_physical_address (update_device_type t (update_physical_addr pa e))

add_device-own :
    (a : ℕ) (s : Sink) → (add_device a s).logical_address_allocated ≡ s.logical_address_allocated
unfolding add_device
add_device-own a s = ground arith

update_device_chain-own :
    (a : ℕ) (pa : PhysicalAddress) (s : Sink)
    → (update_device_chain a pa s).logical_address_allocated ≡ s.logical_address_allocated
unfolding update_device_chain
update_device_chain-own a pa s = ground arith

tell_unless-own :
    (b : Bool) (a : ℕ) (s : Sink)
    → (tell_unless b a s).logical_address_allocated ≡ s.logical_address_allocated
tell_unless-own b a s = ground arith

on_report_physical_address-own :
    (pa : PhysicalAddress) (t a : ℕ) (s : Sink)
    → (on_report_physical_address pa t a s).logical_address_allocated ≡ s.logical_address_allocated
unfolding on_report_physical_address
on_report_physical_address-own pa t a s =
    tell_unless-own _ a _ ∙ update_device_chain-own a pa _ ∙ add_device-own a s

process-own :
    (now : ℕ) (m : Message) (h : Header) (s : Sink)
    → (process now m h s).logical_address_allocated ≡ s.logical_address_allocated
unfolding process add_device update_active_source update_in_active_source update_image_view_on
    update_text_view_on set_active_source send_menu_language report_audio_power_status
    report_audio_status set_latency_info send_feature_abort initiate_arc terminate_arc
    set_system_audio_mode
process-own now (Messages.active_source pa) h s = ground arith
process-own now (Messages.report_physical_address pa t) h s = elim (Bool-cases (is_broadcast h)) [
  | inl e ↦ rw e (on_report_physical_address-own pa t h.from s)
  | inr e ↦ rw e refl
]
process-own now _ h s = ground arith

abbrev is_report : Message → Bool
is_report (Messages.report_physical_address pa t) = true
is_report _ = false

process-inputs :
    (now : ℕ) (m : Message) (h : Header) (s : Sink)
    → is_report m ≡ false
    → (process now m h s).hdmi_inputs ≡ s.hdmi_inputs
unfolding process add_device update_active_source update_in_active_source update_image_view_on
    update_text_view_on set_active_source send_menu_language report_audio_power_status
    report_audio_status set_latency_info send_feature_abort initiate_arc terminate_arc
    set_system_audio_mode
process-inputs now (Messages.active_source pa) h s e = ground arith
process-inputs now (Messages.report_physical_address pa t) h s e = cc
process-inputs now _ h s e = ground arith

tell_unless-IsSound : (b : Bool) (a : ℕ) (s : Sink) → IsSound s → IsSound (tell_unless b a s)
tell_unless-IsSound b a s k = elim (Bool-cases b) [
  | inl e ↦ rw e k
  | inr e ↦
      rw e (
        IsFramed-IsSound s _ (record { number = refl; own = refl; present = refl; inputs = refl })
          k)
]

answered-IsSound :
    (pa : PhysicalAddress) (t a : ℕ) (s : Sink)
    → IsSound s
    → IsSound (update_device a (answered pa t) s)
answered-IsSound pa t a s k =
    IsFramed-IsSound s _
      (record { number = refl; own = refl; present = fun_ext (λ i. ground arith); inputs = refl }) k

on_report_physical_address-IsSound :
    (pa : PhysicalAddress) (t a : ℕ) (s : Sink)
    → a < 16
    → a ≢ s.logical_address_allocated
    → IsSound s
    → IsSound (on_report_physical_address pa t a s)
unfolding on_report_physical_address
on_report_physical_address-IsSound pa t a s h n k =
    let (added, own) = add_device-IsSound a s h n k in
    tell_unless-IsSound _ a _ (
      update_device_chain-IsSound a pa _ h (rw own n)
        (answered-IsSound pa t a (add_device a s) added))

pub process-IsSound :
    (now : ℕ) (m : Message) (h : Header) (s : Sink)
    → h.from < 16
    → h.from ≢ s.logical_address_allocated
    → IsSound s
    → IsSound (process now m h s)
unfolding process
process-IsSound now (Messages.report_physical_address pa t) h s lt n k =
    elim (Bool-cases (is_broadcast h)) [
      | inl e ↦ rw e (on_report_physical_address-IsSound pa t h.from s lt n k)
      | inr e ↦ rw e k
    ]
process-IsSound now m h s lt n k = record {
  allocated = rw (process-own now m h s) k.allocated;
  counted = process-IsCounted now m h s lt n k.counted;
  ports = rw (process-own now m h s, process-inputs now m h s refl) k.ports;
}
