-- ===== src/HdmiCecSink/Arc/Timed.antt =====
-- While the sink waits for the audio system, the timer that ends the wait is running.
use entservices_inputoutput.Base.{ℕ, All, ◌≡◌, Bool, true, false, arith, List, [], ◌∷◌}
use entservices_inputoutput.HdmiCecSink.State.{
  Sink, ArcRoutingState, request_arc_initiation_state, request_arc_termination_state,
  arc_terminated,
}
use entservices_inputoutput.HdmiCecSink.Arc.{
  is_panel_on, start_arc, stop_arc, initiate_arc, terminate_arc, arc_timer_fires, update_arc_state,
  set_system_audio_mode,
}

abbrev pub is_requesting : ArcRoutingState → Bool
is_requesting request_arc_initiation_state = true
is_requesting request_arc_termination_state = true
is_requesting _ = false

-- What happens to the channel: the calls of the API, the messages, the cable and the timer.
pub data ArcEvent : Type 0 where
  starts stops initiates terminates timer_fires : ArcEvent
  hot_plug : ℕ → ArcEvent
  audio_mode : Bool → ArcEvent

unfoldable pub arc_step : ArcEvent → Sink → Sink
unfolding start_arc stop_arc initiate_arc terminate_arc arc_timer_fires update_arc_state
    set_system_audio_mode
arc_step starts s = start_arc s
arc_step stops s = stop_arc s
arc_step initiates s = initiate_arc s
arc_step terminates s = terminate_arc s
arc_step timer_fires s = arc_timer_fires s
arc_step (hot_plug port) s = update_arc_state port s
arc_step (audio_mode mode_on) s = set_system_audio_mode mode_on s

abbrev pub IsTimed : Sink → Type 0
IsTimed s = is_requesting s.arc.routing_state ≡ true → s.arc.timer_active ≡ true

-- Every event of the return channel keeps the timer running during a requested initiation or
-- termination, if the panel is on.
pub arc_step-IsTimed :
    (e : ArcEvent) (s : Sink)
    → is_panel_on s.statics.power_state ≡ true
    → IsTimed s
    → IsTimed (arc_step e s)
unfolding arc_step
arc_step-IsTimed starts s p t = ground arith
arc_step-IsTimed stops s p t = ground arith
arc_step-IsTimed initiates s p t = ground arith
arc_step-IsTimed terminates s p t = ground arith
arc_step-IsTimed timer_fires s p t = ground arith
arc_step-IsTimed (hot_plug port) s p t = ground arith
arc_step-IsTimed (audio_mode m) s p t = ground arith

unfoldable pub run_arc : List ArcEvent → Sink → Sink
run_arc [] s = s
run_arc (e ∷ es) s = run_arc es (arc_step e s)

arc_step-keeps :
    (e : ArcEvent) (s : Sink)
    → ((arc_step e s).statics ≡ s.statics)
      × ((arc_step e s).cec_enable_status ≡ s.cec_enable_status)
unfolding arc_step
arc_step-keeps starts s = ground arith
arc_step-keeps stops s = ground arith
arc_step-keeps initiates s = ground arith
arc_step-keeps terminates s = ground arith
arc_step-keeps timer_fires s = ground arith
arc_step-keeps (hot_plug port) s = ground arith
arc_step-keeps (audio_mode m) s = ground arith

-- A channel that is being waited for, or is closed, is closed after `stopArc` and the timer.
stop_and_fire :
    (s : Sink)
    → s.cec_enable_status ≡ true
    → IsTimed s
    → (arc_step timer_fires (arc_step stops s)).arc.routing_state ≡ arc_terminated
unfolding arc_step
stop_and_fire s c t = ground arith

-- After any events with the panel on and CEC enabled, `stopArc` and the expiry of the timer close
-- the channel, if at the start the timer was running during a request: the wait of CECDisable for
-- the terminated state ends.
pub arc_always_closes :
    (es : List ArcEvent) (s : Sink)
    → is_panel_on s.statics.power_state ≡ true
    → s.cec_enable_status ≡ true
    → IsTimed s
    → (arc_step timer_fires (arc_step stops (run_arc es s))).arc.routing_state ≡ arc_terminated
unfolding run_arc
arc_always_closes [] s p c t = stop_and_fire s c t
arc_always_closes (e ∷ es) s p c t =
    arc_always_closes es (arc_step e s) (ground (arith, arc_step-keeps e s))
      (ground (arith, arc_step-keeps e s)) (arc_step-IsTimed e s p t)

-- The panel is off, termination is requested, and the timer is not running.
pub record IsStuck (s : Sink) : Type 0 where
  pub asleep : is_panel_on s.statics.power_state ≡ false
  pub requested : s.arc.routing_state ≡ request_arc_termination_state
  pub untimed : s.arc.timer_active ≡ false

-- An event that does not come from the sink's own ways of ending a wait.
abbrev pub is_outside : ArcEvent → Bool
is_outside starts = true
is_outside terminates = true
is_outside (hot_plug port) = true
is_outside _ = false

pub arc_step-IsStuck :
    (e : ArcEvent) (s : Sink) → is_outside e ≡ false → IsStuck s → IsStuck (arc_step e s)
unfolding arc_step
arc_step-IsStuck starts s o k = cc
arc_step-IsStuck stops s o k = ground arith
arc_step-IsStuck initiates s o k = ground arith
arc_step-IsStuck terminates s o k = cc
arc_step-IsStuck timer_fires s o k = ground arith
arc_step-IsStuck (hot_plug port) s o k = cc
arc_step-IsStuck (audio_mode m) s o k = ground arith

run_arc-IsStuck :
    (es : List ArcEvent) (s : Sink)
    → All (λ e. is_outside e ≡ false) es
    → IsStuck s
    → IsStuck (run_arc es s)
unfolding run_arc
run_arc-IsStuck [] s o k = k
run_arc-IsStuck (e ∷ es) s o k = run_arc-IsStuck es (arc_step e s) o.1 (arc_step-IsStuck e s o.0 k)

-- With CEC set enabled and the panel off, an INITIATE_ARC during a requested termination stops the
-- timer and leaves the request: from then on neither `stopArc`, nor the timer, nor the audio
-- system's modes and INITIATE_ARC messages bring the channel to its terminated state.
pub initiate_arc_strands :
    (es : List ArcEvent) (s : Sink)
    → s.cec_setting_enabled ≡ true
    → is_panel_on s.statics.power_state ≡ false
    → s.arc.routing_state ≡ request_arc_termination_state
    → All (λ e. is_outside e ≡ false) es
    → (run_arc es (arc_step initiates s)).arc.routing_state ≡ request_arc_termination_state
unfolding arc_step
initiate_arc_strands es s c p r o = (run_arc-IsStuck es (initiate_arc s) o (ground arith)).requested
