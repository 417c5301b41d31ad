-- ===== src/HdmiCecSink/Audio.antt =====
-- What passes between the TV and the audio system besides the return channel: latency, short audio
-- descriptors, the audio status and its timer, and the power status.
pub mod Values
use entservices_inputoutput.Base.{
  ℕ, ◌+◌, ◌/◌, ◌%◌, Bool, true, false, not, ◌&&◌, ◌||◌, List, [], ◌∷◌, if◌then◌else◌,
}
use entservices_inputoutput.HdmiCecSink.Types.{
  PowerStatus, same_status, code, audio_system, broadcast, report_current_latency,
  request_short_audio_descriptor, give_device_power_status, give_audio_status,
  short_audiodescriptor_event, report_audio_status_event, report_audio_device_power_status,
  standby_message_received, on_device_info_updated, report_feature_abort_event, OpCode, AbortReason,
  standby, feature_abort,
}
use entservices_inputoutput.HdmiCecSink.State.{Sink, Latency, send_to, notify, not_allocated}
use entservices_inputoutput.HdmiCecSink.Arc.{is_panel_on}

-- setLatencyInfo.
unfoldable pub set_latency_info : Sink → Sink
set_latency_info s =
    if s.connected
    then send_to broadcast
        (report_current_latency s.statics.own_physical_addr s.latency.video_latency
          s.latency.latency_flags s.latency.audio_output_delay)
        s
    else s

abbrev pub low_latency_bit : Bool → ℕ
low_latency_bit true = 4
low_latency_bit false = 0

-- The values that updateCurrentLatency stores in its three bytes, for arguments that are not
-- negative: `((low & 1) << 2) | (compensated & 3)` has no common bits, so it is a sum.
unfoldable pub latency_values : ℕ → Bool → ℕ → ℕ → Latency
latency_values video low compensated delay = record {
  video_latency = (video / 2 + 1) % 256;
  latency_flags = low_latency_bit low + compensated % 4;
  audio_output_delay = (delay / 2 + 1) % 256;
}

unfoldable pub update_current_latency : ℕ → Bool → ℕ → ℕ → Sink → Sink
unfolding latency_values set_latency_info
update_current_latency video low compensated delay s =
    set_latency_info (record s { latency = latency_values video low compensated delay })

-- Process_ShortAudioDescriptor_msg, with the descriptors of the message.
abbrev pub descriptors_or_zero : List ℕ → List ℕ
descriptors_or_zero [] = 0 ∷ []
descriptors_or_zero (d ∷ ds) = d ∷ ds

abbrev pub short_audio_descriptor : List ℕ → Sink → Sink
short_audio_descriptor ds s = notify (short_audiodescriptor_event (descriptors_or_zero ds)) s

unfoldable pub request_short_audio : Sink → Sink
request_short_audio s =
    if not s.cec_enable_status || (not s.connected || not_allocated s)
    then s
    else send_to audio_system request_short_audio_descriptor s

unfoldable pub request_audio_power_status : Sink → Sink
request_audio_power_status s =
    if not s.cec_enable_status || (not s.connected || not_allocated s)
    then s
    else record (send_to audio_system give_device_power_status s) {
      audio_power_status_requested = true;
    }

-- Process_ReportAudioStatus_msg: the answer that the timer waited for stops it.
unfoldable pub report_audio_status : ℕ → ℕ → Sink → Sink
report_audio_status muted volume s = notify (report_audio_status_event muted volume) (
    if s.audio.timer_started
    then record s {
      audio = record {
        info_updated = true;
        received = true;
        timer_started = false;
        timer_active = false;
      };
    }
    else s)

-- sendGiveAudioStatusMsg.
unfoldable pub send_give_audio_status : Sink → Sink
send_give_audio_status s = if s.connected then send_to audio_system give_audio_status s else s

-- TpTimer::Timed of this single-shot timer, with audioStatusTimerFunction as its callback.
unfoldable pub audio_status_timer_fires : Sink → Sink
unfolding send_give_audio_status
audio_status_timer_fires s =
    if s.audio.timer_active
    then (let t = record s {
      audio = record (s.audio) { timer_started = false; info_updated = true };
    } in
        let u = send_give_audio_status t in
        record u { audio = record (u.audio) { timer_active = false } })
    else s

-- reportAudioDevicePowerStatusInfo: `AUDIO_DEVICE_POWERSTATE_OFF` is told always, any other status
-- only while the panel is on.
unfoldable pub report_audio_power_status : PowerStatus → Sink → Sink
report_audio_power_status p s =
    if not (same_status p (code 1)) && not (is_panel_on s.statics.power_state)
    then s
    else notify (report_audio_device_power_status p) s

abbrev pub standby_message_event : ℕ → Sink → Sink
standby_message_event a s = notify (standby_message_received a) s

abbrev pub send_device_update_info : ℕ → Sink → Sink
send_device_update_info a s = notify (on_device_info_updated a) s

abbrev pub report_feature_abort : ℕ → OpCode → AbortReason → Sink → Sink
report_feature_abort a op reason s = notify (report_feature_abort_event a op reason) s

unfoldable pub send_feature_abort : ℕ → OpCode → AbortReason → Sink → Sink
send_feature_abort a op reason s = if s.connected then send_to a (feature_abort op reason) s else s

unfoldable pub send_standby_message : Sink → Sink
send_standby_message s =
    if not s.connected || not_allocated s then s else send_to broadcast standby s
