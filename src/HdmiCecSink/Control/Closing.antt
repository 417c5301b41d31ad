-- ===== src/HdmiCecSink/Control/Closing.antt =====
-- CECDisable: when its wait ends, and what it leaves.
use entservices_inputoutput.Base.{
  ℕ, zero, suc, ◌+◌, ◌≡◌, refl, true, false, none, some, List, [], ◌∷◌, arith, All, if◌then◌else◌,
  ◌<◌, ◌++◌, Bool-cases, inl, inr,
}
use entservices_inputoutput.HdmiCecSink.State.{Sink, not_allocated}
use entservices_inputoutput.HdmiCecSink.Devices.{is_present}
use entservices_inputoutput.HdmiCecSink.Arc.{is_terminated, stop_arc}
use entservices_inputoutput.HdmiCecSink.Arc.Timed.{
  ArcEvent, arc_step, timer_fires, is_outside, IsTimed, IsStuck, arc_step-IsStuck,
}
use entservices_inputoutput.HdmiCecSink.Api.{get_device_list, devices_from}
use entservices_inputoutput.HdmiCecSink.Control.{
  cec_disable, wait_terminated, finish_disable, register, unregister, is_registered, erase_client,
}

timer_ends_wait :
    (s : Sink)
    → s.cec_enable_status ≡ true
    → IsTimed s
    → is_terminated s.arc.routing_state ≡ false
    → (is_terminated (stop_arc s).arc.routing_state ≡ false)
      × (is_terminated (arc_step timer_fires (stop_arc s)).arc.routing_state ≡ true)
unfolding stop_arc arc_step
timer_ends_wait s c t n = (ground arith, ground arith)

-- With CEC enabled, CECDisable returns once the timer has fired, or at once if the channel is
-- closed, provided that the timer runs whenever something has been requested.
pub cec_disable_returns :
    (s : Sink)
    → s.cec_enable_status ≡ true
    → IsTimed s
    → cec_disable (timer_fires ∷ []) s
      ≡ some (
          finish_disable
            (if is_terminated s.arc.routing_state then s else arc_step timer_fires (stop_arc s)))
unfolding cec_disable
cec_disable_returns s c t = elim (Bool-cases (is_terminated s.arc.routing_state)) [
  | inl e ↦ ground arith
  | inr e ↦ ground (arith, timer_ends_wait s c t e)
]

wait_terminated-IsStuck :
    (es : List ArcEvent) (s : Sink)
    → All (λ e. is_outside e ≡ false) es
    → IsStuck s
    → wait_terminated es s ≡ none
unfolding wait_terminated
wait_terminated-IsStuck [] s o k = ground arith
wait_terminated-IsStuck (e ∷ es) s o k =
    ground (arith, wait_terminated-IsStuck es (arc_step e s) o.1 (arc_step-IsStuck e s o.0 k))

stop_arc-IsStuck : (s : Sink) → IsStuck s → stop_arc s ≡ s
unfolding stop_arc
stop_arc-IsStuck s k = ground arith

-- With CEC enabled, a termination requested, the panel off and the timer not running, CECDisable
-- goes on waiting whatever the sink itself, its timer and the audio system's modes and INITIATE_ARC
-- messages do.
pub cec_disable_hangs :
    (es : List ArcEvent) (s : Sink)
    → s.cec_enable_status ≡ true
    → All (λ e. is_outside e ≡ false) es
    → IsStuck s
    → cec_disable es s ≡ none
unfolding cec_disable
cec_disable_hangs es s c o k =
    ground (arith, stop_arc-IsStuck s k, wait_terminated-IsStuck es s o k)

-- With a connection, CECDisable leaves no connection, no address, no device among the 16, and the
-- poll thread told to stop.
finish_disable_clears :
    (s : Sink) (a : ℕ)
    → a < 16
    → s.connected ≡ true
    → (not_allocated (finish_disable s) ≡ true)
      × ((finish_disable s).connected ≡ false)
      × ((finish_disable s).poll.thread_exit ≡ true)
      × (is_present (finish_disable s) a ≡ false)
unfolding finish_disable
finish_disable_clears s a h c = (ground arith, ground arith, ground arith, ground arith)

devices_from-absent :
    (s : Sink) (n k : ℕ) → ((a : ℕ) → a < n + k → is_present s a ≡ false) → devices_from s n k ≡ []
unfolding devices_from
devices_from-absent s n zero h = refl
devices_from-absent s n (suc k) h =
    ground (arith, h n (omega arith), devices_from-absent s (suc n) k (λ a l. h a (omega arith)))

finish_disable-absent : (s : Sink) (a : ℕ) → a < 16 → is_present (finish_disable s) a ≡ false
unfolding finish_disable
finish_disable-absent s a h = ground arith

-- CECDisable resets neither the count of devices nor the active source: GetDeviceList tells of the
-- old number and of no device.
finish_disable_keeps_count :
    (s : Sink)
    → ((finish_disable s).number_of_devices ≡ s.number_of_devices)
      × ((finish_disable s).current_active_source ≡ s.current_active_source)
      × (get_device_list (finish_disable s) ≡ [])
unfolding finish_disable get_device_list
finish_disable_keeps_count s = (
  ground arith,
  ground arith,
  devices_from-absent (finish_disable s) 0 16 (λ a h. finish_disable-absent s a h),
)

erase_client-append :
    (c : ℕ) (cs : List ℕ) → is_registered c cs ≡ false → erase_client c (cs ++ c ∷ []) ≡ cs
erase_client-append c [] h = ground arith
erase_client-append c (d ∷ ds) h = ground (arith, erase_client-append c ds)

registered_last : (c : ℕ) (cs : List ℕ) → is_registered c (cs ++ c ∷ []) ≡ true
registered_last c [] = ground arith
registered_last c (d ∷ ds) = ground (arith, registered_last c ds)

-- Unregister undoes the Register of a client that was not registered; a second Register of the same
-- client changes nothing.
unregister-register :
    (c : ℕ) (s : Sink)
    → is_registered c s.clients ≡ false
    → (unregister c (register c s) ≡ s) × (register c (register c s) ≡ register c s)
unfolding register unregister
unregister-register c s h =
    (ground (arith, erase_client-append c s.clients h), ground (arith, registered_last c s.clients))
