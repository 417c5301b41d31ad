-- ===== src/HdmiCecSink/Devices.antt =====
-- addDevice, removeDevice and updateDeviceChain: the list of devices on the bus.
-- `deviceList` has 16 entries; `a` is a nibble in every call.
pub mod Count
use entservices_inputoutput.Base.{
  ℕ, ◌+◌, Bool, true, false, not, ◌&&◌, List, map, ◌==◌, if◌then◌else◌, increment, decrement,
}
use entservices_inputoutput.HdmiCecSink.Types.{
  PhysicalAddress, unregistered, audio_system, on_device_added, on_device_removed,
  report_audio_device_connected_status,
}
use entservices_inputoutput.HdmiCecSink.Device.{Device, clear}
use entservices_inputoutput.HdmiCecSink.Port.{HdmiPortMap, add_child, remove_child}
use entservices_inputoutput.HdmiCecSink.State.{
  Sink, Poll, state_info, notify, update_device, not_allocated,
}

abbrev pub is_present : Sink → ℕ → Bool
is_present s a = (s.device_list a).is_device_present

abbrev pub set_next_state_info : Sink → Sink
set_next_state_info s = record s { poll = record (s.poll) { next_state = state_info } }

-- The branch for the audio device, which is told to Device Settings.
unfoldable pub audio_device_added : ℕ → Sink → Sink
audio_device_added a s =
    if a == audio_system
    then notify (report_audio_device_connected_status true)
        (record s { audio_device_connected = true })
    else s

unfoldable pub add_device : ℕ → Sink → Sink
unfolding audio_device_added
add_device a s =
    if not_allocated s
    then s
    else (if is_present s a
        then s
        else notify (on_device_added a) (
            audio_device_added a (
              set_next_state_info
                (record (update_device a
                  (λ d. record d { is_device_present = true; logical_address = a }) s) {
                    number_of_devices = increment s.number_of_devices;
                  }))))

-- What the loop of `removeDevice` does to one port.
unfoldable pub detach : PhysicalAddress → HdmiPortMap → HdmiPortMap
detach a p =
    if a.byte0 == p.port_id + 1
    then record (remove_child p a) { logical_addr = unregistered }
    else p

-- `m_audioStatusDetectionTimer.stop()` and the three flags.
abbrev pub reset_audio : Sink → Sink
reset_audio s = record s {
  audio = record {
    info_updated = false;
    received = false;
    timer_started = false;
    timer_active = false;
  };
}

unfoldable pub audio_device_removed : ℕ → Sink → Sink
audio_device_removed a s =
    if a == audio_system
    then notify (report_audio_device_connected_status false)
        (reset_audio (record s { audio_device_connected = false }))
    else s

unfoldable pub remove_device : ℕ → Sink → Sink
unfolding audio_device_removed clear
remove_device a s =
    if not_allocated s
    then s
    else (if is_present s a
        then notify (on_device_removed a) (
            update_device a (λ d. clear (record d { is_request_retry = 0 }))
              (audio_device_removed a (record s {
                number_of_devices = decrement s.number_of_devices;
                hdmi_inputs = map (detach (s.device_list a).physical_addr) s.hdmi_inputs;
              })))
        else s)

-- What the loop of `updateDeviceChain` does to one port.
unfoldable pub attach : ℕ → PhysicalAddress → HdmiPortMap → HdmiPortMap
attach la a p = if a.byte0 == p.port_id + 1 then add_child p la a else p

unfoldable pub update_device_chain : ℕ → PhysicalAddress → Sink → Sink
update_device_chain la a s =
    if not_allocated s
    then s
    else (if is_present s la && not (la == s.logical_address_allocated)
        then record s { hdmi_inputs = map (attach la a) s.hdmi_inputs }
        else s)
