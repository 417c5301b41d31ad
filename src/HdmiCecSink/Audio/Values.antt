-- ===== src/HdmiCecSink/Audio/Values.antt =====
-- The latency bytes of ReportCurrentLatency.
use entservices_inputoutput.Base.{ℕ, ◌+◌, ◌*◌, ◌-◌, ◌/◌, ◌%◌, ◌≤◌, ◌<◌, ◌≡◌, Bool, arith}
use entservices_inputoutput.HdmiCecSink.Audio.{latency_values, low_latency_bit}

-- The bytes give back the latencies, up to a millisecond, where these fit (509 ms at most); the
-- flags fit three bits and give back the mode and the compensation.
pub latency_values_decode :
    (video : ℕ) (low : Bool) (compensated delay : ℕ)
    → video ≤ 509
    → delay ≤ 509
    → let l = latency_values video low compensated delay in
      ((l.video_latency - 1) * 2 ≤ video)
      × (video ≤ (l.video_latency - 1) * 2 + 1)
      × ((l.audio_output_delay - 1) * 2 ≤ delay)
      × (delay ≤ (l.audio_output_delay - 1) * 2 + 1)
      × (l.latency_flags < 8)
      × (l.latency_flags / 4 * 4 ≡ low_latency_bit low)
      × (l.latency_flags % 4 ≡ compensated % 4)
unfolding latency_values
latency_values_decode video low compensated delay h k = ground arith
