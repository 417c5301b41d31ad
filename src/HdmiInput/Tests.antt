-- ===== src/HdmiInput/Tests.antt =====
-- A television with three inputs, of which the last does not answer.
use entservices_inputoutput.Base.{
  ℕ, ◌<◌, ◌≤◌, ◌≡◌, refl, pos, Bool, true, false, Option, none, some, List, [], ◌∷◌, arith, length,
  get_elem?, inr, ◌==◌, if◌then◌else◌, ltb,
}
use entservices_inputoutput.HdmiCecSink.Types.{broadcast, sent, report_current_latency}
use entservices_inputoutput.HdmiCecSink.Tests.{bus_sink}
use entservices_inputoutput.HdmiInput.{
  Input, number, absent, init_input, start_hdmi_input, stop_hdmi_input, set_mixer_levels, notified,
  devices_changed, get_hdmi_input_devices,
}
use entservices_inputoutput.HdmiInput.Mode.{hdmi_input_hotplug}
use entservices_inputoutput.HdmiInput.Devices.{listed_until_exception}
use entservices_inputoutput.HdmiInput.Mixer.{
  mixer_levels, start, and_then, starts, stop_restores_mixer,
}
use entservices_inputoutput.HdmiInput.Latency.{
  LatencyEvent, latency_changes, game_mode_changes, happen, Reports, latency_reaches_the_bus,
}

abbrev started_input : Input
started_input = (start_hdmi_input (number (pos 1)) false true absent true init_input).0

abbrev both_mix : ℕ → Bool
both_mix n = true

stop_restores_mixer_example :
    let (t, success) =
      set_mixer_levels (number (pos 30)) (number (pos 70)) both_mix started_input in
    let u = (stop_hdmi_input both_mix true t).0 in
    (started_input.prim_volume ≤ 100)
    × (started_input.input_volume ≤ 100)
    × (success ≡ true)
    × (mixer_levels (100, 100) t.log ≡ (30, 70))
    × (mixer_levels (100, 100) u.log ≡ (100, 100))
    × (u.is_audio_balance_set ≡ false)
stop_restores_mixer_example =
    stop_restores_mixer (100, 100) 30 70 both_mix started_input
      (and_then start (starts (number (pos 1)) absent false true true init_input)) refl refl
      (omega arith) (omega arith)

abbrev first_connected : ℕ → Bool
first_connected i = i == 0

abbrev two_answer : ℕ → Option Bool
two_answer i = if ltb i 2 then some (first_connected i) else none

two_answer-answers : (i : ℕ) → i < 2 → two_answer i ≡ some (first_connected i)
two_answer-answers i h = ground arith

listed_until_exception_example :
    let devices = get_hdmi_input_devices (some 3) two_answer in
    ((hdmi_input_hotplug (some 3) two_answer started_input).log
      ≡ notified (devices_changed devices) ∷ started_input.log)
    × (length devices ≡ 2)
    × ((i : ℕ)
        → i < 2
        → get_elem? devices i ≡ some (record { id = i; is_connected = first_connected i }))
listed_until_exception_example =
    listed_until_exception two_answer first_connected 3 2 started_input (omega arith)
      two_answer-answers (inr refl)

abbrev earlier_events : List LatencyEvent
earlier_events = latency_changes 80 33 ∷ []

latency_reaches_the_bus_example :
    let before = (happen earlier_events (started_input, bus_sink)).1 in
    let after = (happen (game_mode_changes true ∷ earlier_events) (started_input, bus_sink)).1 in
    Reports after.latency 33 80 true
    × (after.log
        ≡ sent broadcast (
            report_current_latency before.statics.own_physical_addr after.latency.video_latency
              after.latency.latency_flags after.latency.audio_output_delay)
          ∷ before.log)
latency_reaches_the_bus_example =
    latency_reaches_the_bus (game_mode_changes true) earlier_events started_input bus_sink refl
      (omega arith) (omega arith)
