-- ===== src/HdmiCecSink/Tests/Bus.antt =====
-- What the sink does on the bus, on small concrete buses.
use entservices_inputoutput.Base.{
  ℕ, ◌≡◌, refl, true, false, none, some, List, [], ◌∷◌, arith, length, ◌≤◌, if◌then◌else◌, ◌==◌,
}
use entservices_inputoutput.HdmiCecSink.Types.{
  v_1_4, sent, device_power_state_off, user_control_pressed, user_control_released, volume_up, mute,
}
use entservices_inputoutput.HdmiCecSink.Device.{is_all_updated}
use entservices_inputoutput.HdmiCecSink.State.{
  Sink, SendKeyInfo, key_press_event, user_control_pressed_event, arc_initiated,
  request_arc_termination_state, arc_terminated, state_info,
}
use entservices_inputoutput.HdmiCecSink.Devices.{is_present}
use entservices_inputoutput.HdmiCecSink.Devices.Count.{IsCounted}
use entservices_inputoutput.HdmiCecSink.Messages.{process, Header, cec_version}
use entservices_inputoutput.HdmiCecSink.Messages.Tracking.{process-IsCounted}
use entservices_inputoutput.HdmiCecSink.Ping.{Answer, acknowledged, no_acknowledge, failed}
use entservices_inputoutput.HdmiCecSink.Ping.Presence.{present_as_answered, after_ping}
use entservices_inputoutput.HdmiCecSink.Query.Silent.{
  ask_rounds, silent_device_is_asked_eleven_times, requests_left,
}
use entservices_inputoutput.HdmiCecSink.Arc.{is_terminated, stop_arc}
use entservices_inputoutput.HdmiCecSink.Arc.Timed.{
  arc_step-IsTimed, arc_always_closes, initiate_arc_strands, run_arc, arc_step, IsTimed,
  timer_fires, stops, starts, initiates, hot_plug, audio_mode, ArcEvent,
}
use entservices_inputoutput.HdmiCecSink.PollThread.{Bus, PollThread, switch_round}
use entservices_inputoutput.HdmiCecSink.PollThread.Diagram.{Next, switch_round-Next}
use entservices_inputoutput.HdmiCecSink.KeyThread.{key_command}
use entservices_inputoutput.HdmiCecSink.KeyThread.Order.{
  keys_are_sent_in_order, key_rounds, key_frames, frames_of_all,
}
use entservices_inputoutput.HdmiCecSink.Control.{cec_disable, finish_disable}
use entservices_inputoutput.HdmiCecSink.Control.Closing.{cec_disable_returns, cec_disable_hangs}
use entservices_inputoutput.HdmiCecSink.Tests.{bus_sink, bus_sink-IsCounted}

abbrev from_amplifier : Header
from_amplifier = record { from = 5; to = 0 }

process-IsCounted_example : IsCounted (process 100 (cec_version v_1_4) from_amplifier bus_sink)
process-IsCounted_example =
    process-IsCounted 100 (cec_version v_1_4) from_amplifier bus_sink (omega arith) (omega arith)
      bus_sink-IsCounted

-- The player has gone, an amplifier has come, and the ping of the recorder fails.
abbrev answers : ℕ → Answer
answers a = if a == 5 then acknowledged else (if a == 1 then failed else no_acknowledge)

present_as_answered_example : is_present (after_ping answers bus_sink) 5 ≡ elim (answers 5) [
  | acknowledged ↦ true
  | no_acknowledge ↦ false
  | failed ↦ is_present bus_sink 5
]
present_as_answered_example =
    present_as_answered answers bus_sink 5 refl refl (omega arith) (omega arith)

-- The name after four requests, and one request for each of the rest.
abbrev seven_times : List (ℕ × ℕ)
seven_times =
    (0, 0) ∷ (3000, 7) ∷ (6000, 0) ∷ (9000, 500) ∷ (12000, 0) ∷ (15000, 900) ∷ (18000, 0) ∷ []

silent_device_is_asked_eleven_times_example :
    (is_all_updated ((ask_rounds seven_times 1 bus_sink).device_list 1) ≡ true)
    × (length seven_times ≤ 11)
unfolding requests_left
silent_device_is_asked_eleven_times_example =
    silent_device_is_asked_eleven_times seven_times 1 bus_sink refl refl (omega arith) (omega arith)
      refl

abbrev arc_sink : Sink
arc_sink = record bus_sink { arc = record (bus_sink.arc) { routing_state = arc_initiated } }

arc_sink-IsTimed : IsTimed arc_sink
arc_sink-IsTimed h = ground arith

abbrev arc_events : List ArcEvent
arc_events = stops ∷ starts ∷ hot_plug 1 ∷ audio_mode true ∷ []

arc_always_closes_example :
    (arc_step timer_fires (arc_step stops (run_arc arc_events arc_sink))).arc.routing_state
    ≡ arc_terminated
arc_always_closes_example = arc_always_closes arc_events arc_sink refl refl arc_sink-IsTimed

arc_step-IsTimed_example : IsTimed (arc_step starts arc_sink)
arc_step-IsTimed_example = arc_step-IsTimed starts arc_sink refl arc_sink-IsTimed

-- The panel has gone off while the audio system had not yet ended the channel.
abbrev sleeping_sink : Sink
sleeping_sink = record bus_sink {
  statics = record (bus_sink.statics) { power_state = device_power_state_off };
  arc = record (bus_sink.arc) { routing_state = request_arc_termination_state };
}

initiate_arc_strands_example :
    (run_arc (timer_fires ∷ stops ∷ []) (arc_step initiates sleeping_sink)).arc.routing_state
    ≡ request_arc_termination_state
initiate_arc_strands_example =
    initiate_arc_strands (timer_fires ∷ stops ∷ []) sleeping_sink refl refl refl (refl, (refl, tt))

cec_disable_returns_example :
    cec_disable (timer_fires ∷ []) arc_sink
    ≡ some (
        finish_disable (
          if is_terminated arc_sink.arc.routing_state
          then arc_sink
          else arc_step timer_fires (stop_arc arc_sink)))
cec_disable_returns_example = cec_disable_returns arc_sink refl arc_sink-IsTimed

cec_disable_hangs_example : cec_disable (timer_fires ∷ stops ∷ []) sleeping_sink ≡ none
cec_disable_hangs_example =
    cec_disable_hangs (timer_fires ∷ stops ∷ []) sleeping_sink refl (refl, (refl, tt))
      (record { asleep = refl; requested = refl; untimed = refl })

-- Nothing is left to ask, and the thread rests.
abbrev quiet_bus : Bus
quiet_bus = record {
  now = 100;
  polled = λ a j. no_acknowledge;
  pinged = answers;
  throws = λ c. false;
}

abbrev asking_thread : PollThread
asking_thread = record {
  sink = record bus_sink { poll = record (bus_sink.poll) { thread_state = state_info } };
  requested = 15;
  is_exit = false;
}

abbrev two_keys : List SendKeyInfo
two_keys =
    record { logical_addr = 5; key_code = 0x41; user_control = key_press_event }
    ∷ record { logical_addr = 5; key_code = 0x43; user_control = user_control_pressed_event }
    ∷ []

abbrev key_sink : Sink
key_sink = record bus_sink {
  keys = record { queue = two_keys; thread_run = true; thread_exit = false };
}

two_keys_sent :
    frames_of_all two_keys []
    ≡ sent 5 (user_control_pressed mute)
      ∷ sent 5 user_control_released
      ∷ sent 5 (user_control_pressed volume_up)
      ∷ []
unfolding frames_of_all key_command
two_keys_sent = refl

keys_are_sent_in_order_example :
    (key_frames (key_rounds (length two_keys) key_sink).log
      ≡ frames_of_all two_keys (key_frames key_sink.log))
    × ((key_rounds (length two_keys) key_sink).keys.queue ≡ [])
keys_are_sent_in_order_example = keys_are_sent_in_order two_keys key_sink refl refl refl refl

switch_round-Next_example :
    Next quiet_bus asking_thread state_info
      (switch_round state_info quiet_bus asking_thread).sink.poll.thread_state
switch_round-Next_example = switch_round-Next state_info quiet_bus asking_thread refl
