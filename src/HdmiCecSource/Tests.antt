-- ===== src/HdmiCecSource/Tests.antt =====
-- A source whose bus has a TV and an audio system, from its start on.
use entservices_inputoutput.Base.{
  ℕ, ◌≡◌, refl, Bool, true, false, not, ◌&&◌, none, some, pos, List, [], ◌∷◌, arith, length, ◌==◌,
  if◌then◌else◌,
}
use entservices_inputoutput.HdmiCecSink.Types.{
  PhysicalAddress, code, broadcast, tv_address, same_address,
}
use entservices_inputoutput.HdmiCecSource.State.{
  Source, Settings, init_source, is_present, sent, image_view_on, give_device_power_status,
  report_physical_address, device_vendor_id, lg_vendor_id,
}
use entservices_inputoutput.HdmiCecSource.State
use entservices_inputoutput.HdmiCecSource.Messages.{process}
use entservices_inputoutput.HdmiCecSource.Messages
use entservices_inputoutput.HdmiCecSource.Devices.{add_device}
use entservices_inputoutput.HdmiCecSource.Poll.{
  is_offline, ping_device, Ping, acknowledged, no_ack_exception, io_exception, poll_round,
}
use entservices_inputoutput.HdmiCecSource.Poll.Answers.{after_ping, polled_as_answered}
use entservices_inputoutput.HdmiCecSource.Settings.{load_settings}
use entservices_inputoutput.HdmiCecSource.Settings.Restart.{
  Change, change_enabled, change_otp, change_osd_name, change_vendor_id, apply_all,
  settings_survive_restart,
}
use entservices_inputoutput.HdmiCecSource.Control.{
  cec_enable, cec_disable, Frames, set_enabled, get_device_list, perform_otp_action,
}
use entservices_inputoutput.HdmiCecSource.Control.Shown.{answers_if_shown, one_touch_play_succeeds}
use entservices_inputoutput.HdmiCecSource.Runs.{start, and_then, sets_enabled, polls, receives}
use entservices_inputoutput.HdmiCecSource.Runs.Races.{reply, frames_in_calls_are_missed}
use entservices_inputoutput.HdmiCecSource.Runs.View.{view}
use entservices_inputoutput.HdmiCecSource.Runs.Invariant.{clients_know_devices}

abbrev box_address : PhysicalAddress
box_address = record { byte0 = 1; byte1 = 0; byte2 = 0; byte3 = 0 }

abbrev no_frames : Frames
no_frames i = []

-- One client is registered and CEC is enabled: the box has the address 4 of a playback device.
abbrev enabled_source : Source
enabled_source =
    set_enabled no_frames true true (some box_address) (some (4, 4)) (init_source none (7 ∷ []))

-- The TV and the audio system answer; a ping of 8 fails.
abbrev bus_answer : ℕ → Ping
bus_answer i =
    if i == 0
    then acknowledged
    else (if i == 5 then acknowledged else (if i == 8 then io_exception else no_ack_exception))

abbrev polled_source : Source
polled_source = (poll_round bus_answer enabled_source).0

abbrev shown_source : Source
shown_source = process (Messages.active_source box_address) 0 polled_source

clients_know_devices_example :
    ((a : ℕ) → view 7 shown_source.log a ≡ is_present shown_source a)
    × (true ≡ true → shown_source.number_of_devices ≡ pos (length (get_device_list shown_source)))
    × (true ≡ true
        → shown_source.cec_enable_status ≡ false
        → (a : ℕ) → is_present shown_source a ≡ false)
unfolding poll_round ping_device set_enabled add_device
clients_know_devices_example = clients_know_devices 7 true none (7 ∷ []) shown_source refl (
    and_then
      (and_then
        (and_then start (
          sets_enabled no_frames true true (some box_address) (some (4, 4))
            (init_source none (7 ∷ [])) (λ q i. refl)))
        (polls bus_answer enabled_source))
      (receives (Messages.active_source box_address) 0 polled_source (λ q. refl)))

polled_as_answered_example :
    is_present (poll_round bus_answer enabled_source).0 5
    ≡ after_ping (bus_answer 5) (is_present enabled_source 5)
unfolding is_offline set_enabled
polled_as_answered_example =
    polled_as_answered bus_answer 5 enabled_source refl (omega arith) (omega arith)

abbrev some_changes : List Change
some_changes =
    change_osd_name "Box"
    ∷ change_vendor_id (some 0x1234)
    ∷ change_otp false
    ∷ change_enabled false
    ∷ []

settings_survive_restart_example :
    let s = apply_all some_changes (load_settings (init_source none [])) in
    let t = load_settings (init_source s.file (7 ∷ [])) in
    (t.cec_setting_enabled ≡ s.cec_setting_enabled)
    × (t.otp_setting_enabled ≡ s.otp_setting_enabled)
    × (t.own_osd_name ≡ s.own_osd_name)
    × (t.app_vendor_id ≡ s.app_vendor_id)
    × (t.file ≡ s.file)
settings_survive_restart_example = settings_survive_restart none some_changes [] (7 ∷ [])

answers_if_shown_example :
    let t = process (Messages.set_stream_path box_address) 0 enabled_source in
    (process Messages.request_active_source 5 t).log ≡ (
      if same_address box_address enabled_source.physical_addr
      then sent broadcast (State.active_source enabled_source.physical_addr) ∷ t.log
      else t.log)
answers_if_shown_example =
    answers_if_shown (Messages.set_stream_path box_address) box_address 0 5 enabled_source refl

-- Enabled, with one touch play on.
abbrev playing_source : Source
playing_source = record enabled_source { otp_setting_enabled = true }

abbrev all_send : ℕ → Bool
all_send n = true

one_touch_play_succeeds_example :
    let (t, success) = perform_otp_action all_send playing_source in
    (success ≡ (
      (playing_source.cec_enable_status
        && (playing_source.otp_setting_enabled && playing_source.connected))
      && (all_send 0 && (all_send 1 && all_send 2))))
    × (t ≡ (
        if success
        then record playing_source {
          is_active_source = true;
          log =
              sent tv_address give_device_power_status
              ∷ sent broadcast (State.active_source playing_source.physical_addr)
              ∷ sent tv_address image_view_on
              ∷ playing_source.log;
        }
        else t))
one_touch_play_succeeds_example = one_touch_play_succeeds all_send playing_source

abbrev first_two_send : ℕ → Bool
first_two_send n = not (n == 2)

abbrev lg_source : Source
lg_source = record enabled_source { is_lg_tv = true }

frames_in_calls_are_missed_example :
    let enabled =
      cec_enable
        (reply 2 (code 0) 5)
        (some box_address)
        (some (4, 4))
        (init_source none (7 ∷ [])) in
    let disabled = cec_disable (reply 1 (code 0) 5) true enabled_source in
    (is_present enabled 5 ≡ true)
    × (enabled.number_of_devices ≡ pos 0)
    × (is_present disabled 5 ≡ true)
    × (disabled.cec_enable_status ≡ false)
unfolding set_enabled
frames_in_calls_are_missed_example =
    frames_in_calls_are_missed (some box_address) (some (4, 4)) (code 0) true 5
      (init_source none (7 ∷ [])) enabled_source refl refl refl (omega arith)
