-- ===== src/HdmiCecSink/Arc.antt =====
-- The audio return channel: the state machine of requests, the messages of the audio system, the
-- timer of 4 s that gives up on it, and the thread that answers.
pub mod Timed
use entservices_inputoutput.Base.{
  ℕ, Bool, true, false, not, ◌&&◌, ◌||◌, Option, none, some, List, [], ◌∷◌, ◌==◌, if◌then◌else◌,
  get_elem?,
}
use entservices_inputoutput.HdmiCecSink.Types.{
  PanelPower, device_power_state_on, device_power_state_off, audio_system, Frame,
  system_audio_mode_request, request_arc_initiation, report_arc_initiation, request_arc_termination,
  report_arc_termination, success, failure, arc_initiation_event, arc_termination_event,
  set_system_audio_mode_event,
}
use entservices_inputoutput.HdmiCecSink.Port.{HdmiPortMap}
use entservices_inputoutput.HdmiCecSink.State.{
  Sink, Arc, ArcRoutingState, request_arc_initiation_state, arc_initiated,
  request_arc_termination_state, arc_terminated, arc_exit, send_to, notify,
}

abbrev pub is_panel_on : PanelPower → Bool
is_panel_on device_power_state_on = true
is_panel_on device_power_state_off = false

abbrev pub set_arc_state : ArcRoutingState → Sink → Sink
set_arc_state r s = record s { arc = record (s.arc) { routing_state = r } }

-- `m_semSignaltoArcRoutingThread.release()`: the count stays at 1.
abbrev pub release : Sink → Sink
release s = record s { arc = record (s.arc) { signalled = true } }

-- `m_arcStartStopTimer`: stopped, if active, and started.
abbrev pub restart_timer : Bool → Sink → Sink
restart_timer starting s = record s {
  arc = record (s.arc) { starting = starting; timer_active = true };
}

abbrev pub stop_timer : Sink → Sink
stop_timer s = record s { arc = record (s.arc) { timer_active = false } }

unfoldable pub start_arc : Sink → Sink
start_arc s =
    if not s.cec_enable_status
    then s
    else restart_timer true (release (set_arc_state request_arc_initiation_state s))

-- The early return of `stopArc`: termination is requested, or done.
abbrev pub is_stopping : ArcRoutingState → Bool
is_stopping request_arc_termination_state = true
is_stopping arc_terminated = true
is_stopping _ = false

unfoldable pub stop_arc : Sink → Sink
stop_arc s =
    if not s.cec_enable_status || is_stopping s.arc.routing_state
    then s
    else restart_timer false (release (set_arc_state request_arc_termination_state s))

-- Process_InitiateArc.
unfoldable pub initiate_arc : Sink → Sink
initiate_arc s =
    if not s.cec_setting_enabled
    then s
    else (if is_panel_on s.statics.power_state
        then notify (arc_initiation_event success)
            (release (set_arc_state arc_initiated (stop_timer s)))
        else stop_timer s)

-- Process_TerminateArc.
unfoldable pub terminate_arc : Sink → Sink
terminate_arc s =
    notify (arc_termination_event success) (release (set_arc_state arc_terminated (stop_timer s)))

-- TpTimer::Timed of this single-shot timer, with arcStartStopTimerFunction as its callback. A timer
-- that is not active has no job scheduled.
unfoldable pub arc_timer_fires : Sink → Sink
arc_timer_fires s =
    if s.arc.timer_active
    then stop_timer (
        set_arc_state arc_terminated (
          notify
            (if s.arc.starting then arc_initiation_event failure else arc_termination_event failure)
            s))
    else s

abbrev pub is_terminated : ArcRoutingState → Bool
is_terminated arc_terminated = true
is_terminated _ = false

-- updateArcState, for a port of the vector: the channel is closed when its cable is pulled.
unfoldable pub update_arc_state : ℕ → Sink → Sink
update_arc_state port s =
    if is_terminated s.arc.routing_state then s else elim (get_elem? s.hdmi_inputs port) [
      | none ↦ s
      | some p ↦ if p.is_connected then s else set_arc_state arc_terminated s
    ]

abbrev pub is_initiated : ArcRoutingState → Bool
is_initiated arc_initiated = true
is_initiated _ = false

-- Process_SetSystemAudioMode_msg; the flag is `SYSTEM_AUDIO_MODE_ON`.
unfoldable pub set_system_audio_mode : Bool → Sink → Sink
unfolding stop_arc
set_system_audio_mode mode_on s =
    if not s.cec_setting_enabled
    then s
    else let t = if not mode_on && is_initiated s.arc.routing_state then stop_arc s else s in
      (if mode_on && not (is_panel_on s.statics.power_state)
        then t
        else notify (set_system_audio_mode_event mode_on) t)

-- systemAudioModeRequest.
unfoldable pub system_audio_mode : Sink → Sink
system_audio_mode s =
    if not s.cec_enable_status || not s.connected
    then s
    else send_to audio_system (system_audio_mode_request s.statics.own_physical_addr) s

-- The four Send_…_Message functions.
abbrev pub send_if_connected : Frame → Sink → Sink
send_if_connected f s = if s.connected then send_to audio_system f s else s

-- The switch of `threadArcRouting` on the state that it reads.
abbrev pub answer_arc : ArcRoutingState → Sink → Sink
answer_arc request_arc_initiation_state s =
    send_if_connected request_arc_initiation (system_audio_mode s)
answer_arc arc_initiated s = send_if_connected report_arc_initiation s
answer_arc request_arc_termination_state s = send_if_connected request_arc_termination s
answer_arc arc_terminated s = send_if_connected report_arc_termination s
answer_arc arc_exit s = s

pub data ThreadStep : Type 0 where
  blocked : ThreadStep
  goes_on : Sink → ThreadStep
  exits : Sink → ThreadStep

-- One round of `threadArcRouting`: it waits for the semaphore, and leaves the loop at `arc_exit`.
unfoldable pub arc_thread_step : Sink → ThreadStep
unfolding system_audio_mode
arc_thread_step s =
    if s.arc.signalled
    then (let t = record s { arc = record (s.arc) { signalled = false } } in
        elim s.arc.routing_state [
          | arc_exit ↦ exits (answer_arc arc_exit t)
          | r ↦ goes_on (answer_arc r t)
        ])
    else blocked
