-- ===== src/HdmiInput/Latency.antt =====
-- The latencies on their way from the events to the CEC bus: dsHdmiAVLatencyEventHandler,
-- onGameModeEventHandler and reportLatencyInfoToHdmiCecSink, and SetLatencyInfo of the sink
-- (HdmiCecSink/HdmiCecSinkImplementation.cpp). The numbers travel as decimal texts, which `stoi` reads
-- back; a latency is not negative.
use entservices_inputoutput.Base.{
  ℕ, ◌-◌, ◌*◌, ◌+◌, ◌/◌, ◌%◌, ◌≤◌, ◌≡◌, refl, Bool, true, List, [], ◌∷◌, arith,
}
use entservices_inputoutput.HdmiCecSink.Types.{broadcast, sent, report_current_latency}
use entservices_inputoutput.HdmiCecSink.State.{Sink, Latency}
use entservices_inputoutput.HdmiCecSink.Audio.{
  latency_values, update_current_latency, low_latency_bit,
}
use entservices_inputoutput.HdmiCecSink.Audio.Values.{latency_values_decode}
use entservices_inputoutput.HdmiInput.{Input, Call, set_latency_info, call}

-- reportLatencyInfoToHdmiCecSink, for a sink that is active and can be called. The compensation is
-- "3".
unfoldable pub report_latency_info : Input → Input
report_latency_info s =
    call (set_latency_info s.audio_output_delay s.video_latency s.low_latency_mode 3) s

pub data LatencyEvent : Type 0 where
  latency_changes : (audio_output_delay video_latency : ℕ) → LatencyEvent
  game_mode_changes : (low : Bool) → LatencyEvent

-- The two event handlers.
unfoldable pub handle : LatencyEvent → Input → Input
unfolding report_latency_info
handle (latency_changes delay video) s =
    report_latency_info (record s { audio_output_delay = delay; video_latency = video })
handle (game_mode_changes low) s = report_latency_info (record s { low_latency_mode = low })

-- SetLatencyInfo of the sink.
unfoldable pub set_latency_info_api : (delay video : ℕ) → Bool → (compensated : ℕ) → Sink → Sink
set_latency_info_api delay video low compensated s =
    update_current_latency video low compensated delay s

-- What the newest call does to the sink.
abbrev pub invoke : List Call → Sink → Sink
invoke (set_latency_info delay video low compensated ∷ rest) s =
    set_latency_info_api delay video low compensated s
invoke _ s = s

-- The two plugins over events, the newest first.
unfoldable pub happen : List LatencyEvent → Input × Sink → Input × Sink
unfolding handle
happen [] both = both
happen (e ∷ es) both =
    let (input, sink) = happen es both in let next = handle e input in (next, invoke next.log sink)

-- What the events say: the latest of each of the three values.
abbrev pub latest_delay : List LatencyEvent → ℕ → ℕ
latest_delay [] old = old
latest_delay (latency_changes delay video ∷ es) old = delay
latest_delay (game_mode_changes low ∷ es) old = latest_delay es old

abbrev pub latest_video : List LatencyEvent → ℕ → ℕ
latest_video [] old = old
latest_video (latency_changes delay video ∷ es) old = video
latest_video (game_mode_changes low ∷ es) old = latest_video es old

abbrev pub latest_low : List LatencyEvent → Bool → Bool
latest_low [] old = old
latest_low (latency_changes delay video ∷ es) old = latest_low es old
latest_low (game_mode_changes low ∷ es) old = low

happen-input :
    (es : List LatencyEvent) (input : Input) (sink : Sink)
    → let h = (happen es (input, sink)).0 in
      (h.audio_output_delay ≡ latest_delay es input.audio_output_delay)
      × (h.video_latency ≡ latest_video es input.video_latency)
      × (h.low_latency_mode ≡ latest_low es input.low_latency_mode)
unfolding happen
happen-input [] input sink = (refl, refl, refl)
happen-input (latency_changes delay video ∷ es) input sink =
    (refl, refl, (happen-input es input sink).2)
happen-input (game_mode_changes low ∷ es) input sink =
    let k = happen-input es input sink in (k.0, k.1, refl)

handle-log :
    (e : LatencyEvent) (s : Input)
    → let t = handle e s in
      t.log ≡ set_latency_info t.audio_output_delay t.video_latency t.low_latency_mode 3 ∷ s.log
unfolding handle
handle-log (latency_changes delay video) s = refl
handle-log (game_mode_changes low) s = refl

happen-connected :
    (es : List LatencyEvent) (input : Input) (sink : Sink)
    → sink.connected ≡ true
    → (happen es (input, sink)).1.connected ≡ true
unfolding happen set_latency_info_api update_current_latency
happen-connected [] input sink h = h
happen-connected (e ∷ es) input sink h =
    ground (arith, handle-log e (happen es (input, sink)).0, happen-connected es input sink h)

-- One event: what the sink broadcasts, and what it stores.
happen-broadcasts :
    (e : LatencyEvent) (es : List LatencyEvent) (input : Input) (sink : Sink)
    → sink.connected ≡ true
    → let before = (happen es (input, sink)).1 in
      let (h, after) = happen (e ∷ es) (input, sink) in
      (after.latency ≡ latency_values h.video_latency h.low_latency_mode 3 h.audio_output_delay)
      × (after.log
          ≡ sent broadcast (
              report_current_latency before.statics.own_physical_addr after.latency.video_latency
                after.latency.latency_flags after.latency.audio_output_delay)
            ∷ before.log)
unfolding happen set_latency_info_api update_current_latency
happen-broadcasts e es input sink h = (
  ground (arith, handle-log e (happen es (input, sink)).0),
  ground (arith, handle-log e (happen es (input, sink)).0, happen-connected es input sink h),
)

-- The bytes of a ReportCurrentLatency stand for these values: the latencies up to a millisecond, the
-- low latency mode in bit 2, and the compensation 3.
pub record Reports (l : Latency) (video delay : ℕ) (low : Bool) : Type 0 where
  pub video_above : (l.video_latency - 1) * 2 ≤ video
  pub video_below : video ≤ (l.video_latency - 1) * 2 + 1
  pub delay_above : (l.audio_output_delay - 1) * 2 ≤ delay
  pub delay_below : delay ≤ (l.audio_output_delay - 1) * 2 + 1
  pub mode : l.latency_flags / 4 * 4 ≡ low_latency_bit low
  pub compensated : l.latency_flags % 4 ≡ 3

latency_values-Reports :
    (video : ℕ) (low : Bool) (delay : ℕ)
    → video ≤ 509
    → delay ≤ 509
    → Reports (latency_values video low 3 delay) video delay low
latency_values-Reports video low delay h k =
    let (va, vb, da, db, fits, mode, comp) = latency_values_decode video low 3 delay h k in
    record {
      video_above = va;
      video_below = vb;
      delay_above = da;
      delay_below = db;
      mode = mode;
      compensated = comp;
    }

-- After any latency and game mode events of the input, with the sink active and connected, the sink
-- has broadcast for the last of them one ReportCurrentLatency, from its own address, whose bytes
-- stand for the latest latencies and the latest mode of the events, each as it was at first if no
-- event has changed it, if these latencies are at most 509 ms.
pub latency_reaches_the_bus :
    (e : LatencyEvent) (es : List LatencyEvent) (input : Input) (sink : Sink)
    → sink.connected ≡ true
    → latest_video (e ∷ es) input.video_latency ≤ 509
    → latest_delay (e ∷ es) input.audio_output_delay ≤ 509
    → let before = (happen es (input, sink)).1 in
      let after = (happen (e ∷ es) (input, sink)).1 in
      Reports after.latency
        (latest_video (e ∷ es) input.video_latency)
        (latest_delay (e ∷ es) input.audio_output_delay)
        (latest_low (e ∷ es) input.low_latency_mode)
      × (after.log
          ≡ sent broadcast (
              report_current_latency before.statics.own_physical_addr after.latency.video_latency
                after.latency.latency_flags after.latency.audio_output_delay)
            ∷ before.log)
latency_reaches_the_bus e es input sink h v d =
    let (stored, logged) = happen-broadcasts e es input sink h in
    let (delays, videos, lows) = happen-input (e ∷ es) input sink in
    (rw (stored, delays, videos, lows) (latency_values-Reports _ _ _ v d), logged)
