-- ===== src/HdmiCecSink/Reach/Invariant.antt =====
-- The events of the hardware and of the return channel keep the sink sound, and with them every run.
use mathlib.Core.Path.{fun_ext}
use entservices_inputoutput.Base.{
  ℕ, zero, suc, ◌≡◌, refl, Bool, true, false, arith, inl, inr, Option-cases, All, List, [], ◌∷◌,
  Option, none, some, get_elem?,
}
use entservices_inputoutput.HdmiCecSink.Port.{HdmiPortMap}
use entservices_inputoutput.HdmiCecSink.State.{Sink, SendKeyInfo}
use entservices_inputoutput.HdmiCecSink.ActiveSource.{set_active_source}
use entservices_inputoutput.HdmiCecSink.Arc.{stop_arc, update_arc_state}
use entservices_inputoutput.HdmiCecSink.Arc.Timed.{
  ArcEvent, arc_step, starts, stops, initiates, terminates, timer_fires, hot_plug, audio_mode,
}
use entservices_inputoutput.HdmiCecSink.Audio.{audio_status_timer_fires, update_current_latency}
use entservices_inputoutput.HdmiCecSink.KeyThread.{post_key}
use entservices_inputoutput.HdmiCecSink.Control.{
  check_hdmi_in_state, on_hdmi_hot_plug, on_power_mode_changed, unplug, ask_for_ping,
  update_arc_port,
}
use entservices_inputoutput.HdmiCecSink.Reach.{
  BusStep, Reaches, receives, pings, asks, refreshes, arc_happens, plugs, powers, shows_tv, posts,
  audio_times_out, sets_latency, start, and_then,
}
use entservices_inputoutput.HdmiCecSink.Reach.Ports.{IsOthersPort, All-update_ports}
use entservices_inputoutput.HdmiCecSink.Reach.Sound.{IsSound, framed-IsSound, remove_device-IsSound}
use entservices_inputoutput.HdmiCecSink.Reach.Handlers.{process-IsSound}
use entservices_inputoutput.HdmiCecSink.Reach.Rounds.{
  ping_round-IsSound, info_round-IsSound, update_round-IsSound,
}

arc_step-IsSound : (e : ArcEvent) (s : Sink) → IsSound s → IsSound (arc_step e s)
unfolding arc_step
arc_step-IsSound starts s k =
    framed-IsSound s _ (ground arith) (ground arith) (fun_ext (λ j. ground arith)) (ground arith) k
arc_step-IsSound stops s k =
    framed-IsSound s _ (ground arith) (ground arith) (fun_ext (λ j. ground arith)) (ground arith) k
arc_step-IsSound initiates s k =
    framed-IsSound s _ (ground arith) (ground arith) (fun_ext (λ j. ground arith)) (ground arith) k
arc_step-IsSound terminates s k =
    framed-IsSound s _ (ground arith) (ground arith) (fun_ext (λ j. ground arith)) (ground arith) k
arc_step-IsSound timer_fires s k =
    framed-IsSound s _ (ground arith) (ground arith) (fun_ext (λ j. ground arith)) (ground arith) k
arc_step-IsSound (hot_plug port) s k =
    framed-IsSound s _ (ground arith) (ground arith) (fun_ext (λ j. ground arith)) (ground arith) k
arc_step-IsSound (audio_mode m) s k =
    framed-IsSound s _ (ground arith) (ground arith) (fun_ext (λ j. ground arith)) (ground arith) k

All-get_elem? :
    (own : ℕ) (ps : List HdmiPortMap) (i : ℕ) (p : HdmiPortMap)
    → All (IsOthersPort own) ps
    → get_elem? ps i ≡ some p
    → IsOthersPort own p
All-get_elem? own [] i p o e = cc
All-get_elem? own (q ∷ ps) zero p o e = ground (arith, o.0)
All-get_elem? own (q ∷ ps) (suc i) p o e = All-get_elem? own ps i p o.1 e

check_hdmi_in_state-IsSound :
    (status : Option (ℕ → Bool)) (s : Sink) → IsSound s → IsSound (check_hdmi_in_state status s)
unfolding check_hdmi_in_state
check_hdmi_in_state-IsSound none s k = framed-IsSound s _ refl refl refl refl k
check_hdmi_in_state-IsSound (some status) s k = record {
  allocated = k.allocated;
  counted = record { counted = k.counted.counted };
  ports = All-update_ports s.logical_address_allocated status 0 s.hdmi_inputs k.ports;
}

unplug-IsSound :
    (port : ℕ) (s : Sink) → IsSound s → IsSound (unplug (get_elem? s.hdmi_inputs port) s)
unfolding unplug
unplug-IsSound port s k = elim (Option-cases (get_elem? s.hdmi_inputs port)) [
  | inl e ↦ rw e k
  | inr (p, e) ↦
      (let o = All-get_elem? s.logical_address_allocated s.hdmi_inputs port p k.ports e in
        rw e (remove_device-IsSound p.logical_addr s o.port.address_lt o.other k).0)
]

ask_for_ping-IsSound : (s : Sink) → IsSound s → IsSound (ask_for_ping s)
ask_for_ping-IsSound s k =
    framed-IsSound s _ (ground arith) (ground arith) (fun_ext (λ j. ground arith)) (ground arith) k

update_arc_port-IsSound : (o : Option ℕ) (s : Sink) → IsSound s → IsSound (update_arc_port o s)
unfolding update_arc_state arc_step
update_arc_port-IsSound none s k = k
update_arc_port-IsSound (some port) s k = arc_step-IsSound (hot_plug port) s k

on_hdmi_hot_plug-IsSound :
    (port : ℕ) (is_in : Bool) (status : Option (ℕ → Bool)) (s : Sink)
    → IsSound s
    → IsSound (on_hdmi_hot_plug port is_in status s)
unfolding on_hdmi_hot_plug
on_hdmi_hot_plug-IsSound port true status s k =
    update_arc_port-IsSound _ _ (ask_for_ping-IsSound _ (check_hdmi_in_state-IsSound status s k))
on_hdmi_hot_plug-IsSound port false status s k =
    update_arc_port-IsSound _ _
      (ask_for_ping-IsSound _ (check_hdmi_in_state-IsSound status _ (unplug-IsSound port s k)))

on_power_mode_changed-IsSound :
    (b : Bool) (s : Sink) → IsSound s → IsSound (on_power_mode_changed b s)
unfolding on_power_mode_changed stop_arc
on_power_mode_changed-IsSound b s k =
    framed-IsSound s _ (ground arith) (ground arith) (fun_ext (λ j. ground arith)) (ground arith) k

set_active_source-IsSound : (b : Bool) (s : Sink) → IsSound s → IsSound (set_active_source b s)
unfolding set_active_source
set_active_source-IsSound b s k =
    framed-IsSound s _ (ground arith) (ground arith) (fun_ext (λ j. ground arith)) (ground arith) k

audio_status_timer_fires-IsSound : (s : Sink) → IsSound s → IsSound (audio_status_timer_fires s)
unfolding audio_status_timer_fires
audio_status_timer_fires-IsSound s k =
    framed-IsSound s _ (ground arith) (ground arith) (fun_ext (λ j. ground arith)) (ground arith) k

update_current_latency-IsSound :
    (v : ℕ) (low : Bool) (c d : ℕ) (s : Sink)
    → IsSound s
    → IsSound (update_current_latency v low c d s)
unfolding update_current_latency
update_current_latency-IsSound v low c d s k =
    framed-IsSound s _ (ground arith) (ground arith) (fun_ext (λ j. ground arith)) (ground arith) k

post_key-IsSound : (key : SendKeyInfo) (s : Sink) → IsSound s → IsSound (post_key key s)
unfolding post_key
post_key-IsSound key s k = framed-IsSound s _ refl refl refl refl k

BusStep-IsSound : {s t : Sink} → BusStep s t → IsSound s → IsSound t
BusStep-IsSound (receives now m h s lt n) k = process-IsSound now m h s lt n k
BusStep-IsSound (pings bus s) k = ping_round-IsSound bus s k
BusStep-IsSound (asks now requested s) k = info_round-IsSound now requested s k
BusStep-IsSound (refreshes now s) k = update_round-IsSound now s k
BusStep-IsSound (arc_happens e s) k = arc_step-IsSound e s k
BusStep-IsSound (plugs port is_in status s) k = on_hdmi_hot_plug-IsSound port is_in status s k
BusStep-IsSound (powers b s) k = on_power_mode_changed-IsSound b s k
BusStep-IsSound (shows_tv s) k = set_active_source-IsSound false s k
BusStep-IsSound (posts key s) k = post_key-IsSound key s k
BusStep-IsSound (audio_times_out s) k = audio_status_timer_fires-IsSound s k
BusStep-IsSound (sets_latency v low c d s) k = update_current_latency-IsSound v low c d s k

-- Whatever happens on the bus, and in whatever order (frames of other devices, rounds of the poll
-- thread behind POLL, events of the return channel, the cables and the panel, keys, the audio timer,
-- latencies), a sound sink stays sound: it keeps its address, its counter agrees with its list of
-- devices, and the tables of its ports keep their 15 entries, each of them a logical address.
pub Reaches-IsSound : {s t : Sink} → Reaches s t → IsSound s → IsSound t
Reaches-IsSound start k = k
Reaches-IsSound (and_then r step) k = BusStep-IsSound step (Reaches-IsSound r k)
