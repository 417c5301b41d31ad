-- ===== src/HdmiCecSink/Reach.antt =====
-- What happens to the sink while it has its address on the bus: the messages, the rounds of the
-- threads, the events of the hardware and the calls of the API, in any order.
pub mod Ports
pub mod Sound
pub mod Handlers
pub mod Rounds
pub mod Invariant
use entservices_inputoutput.Base.{ℕ, Bool, false, Option, List, ◌<◌, ◌≢◌}
use entservices_inputoutput.HdmiCecSink.Types.{PhysicalAddress}
use entservices_inputoutput.HdmiCecSink.State.{Sink, SendKeyInfo}
use entservices_inputoutput.HdmiCecSink.Messages.{Message, Header, process}
use entservices_inputoutput.HdmiCecSink.PollThread.{Bus, ping_round, info_round, update_round}
use entservices_inputoutput.HdmiCecSink.Arc.Timed.{ArcEvent, arc_step}
use entservices_inputoutput.HdmiCecSink.Control.{on_hdmi_hot_plug, on_power_mode_changed}
use entservices_inputoutput.HdmiCecSink.ActiveSource.{set_active_source}
use entservices_inputoutput.HdmiCecSink.Audio.{audio_status_timer_fires, update_current_latency}
use entservices_inputoutput.HdmiCecSink.KeyThread.{post_key}

pub data BusStep : Sink → Sink → Type 0 where
  -- A frame of another device.
  receives :
      (now : ℕ) (m : Message) (h : Header) (s : Sink)
      → h.from < 16
      → h.from ≢ s.logical_address_allocated
      → BusStep s (process now m h s)
  pings : (bus : Bus) (s : Sink) → BusStep s (ping_round bus s)
  asks : (now requested : ℕ) (s : Sink) → BusStep s (info_round now requested s).0
  refreshes : (now : ℕ) (s : Sink) → BusStep s (update_round now s)
  arc_happens : (e : ArcEvent) (s : Sink) → BusStep s (arc_step e s)
  plugs :
      (port : ℕ) (is_in : Bool) (status : Option (ℕ → Bool)) (s : Sink)
      → BusStep s (on_hdmi_hot_plug port is_in status s)
  powers : (panel_on : Bool) (s : Sink) → BusStep s (on_power_mode_changed panel_on s)
  shows_tv : (s : Sink) → BusStep s (set_active_source false s)
  posts : (k : SendKeyInfo) (s : Sink) → BusStep s (post_key k s)
  audio_times_out : (s : Sink) → BusStep s (audio_status_timer_fires s)
  sets_latency :
      (video : ℕ) (low : Bool) (compensated delay : ℕ) (s : Sink)
      → BusStep s (update_current_latency video low compensated delay s)

pub data Reaches (s : Sink) : Sink → Type 0 where
  start : Reaches s s
  and_then : {t u : Sink} → Reaches s t → BusStep t u → Reaches s u
