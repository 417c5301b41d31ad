-- ===== src/HdmiCecSink/Tests/Runs.antt =====
-- A run of the sink on a small concrete bus.
use entservices_inputoutput.Base.{false, some, arith}
use entservices_inputoutput.HdmiCecSink.Port.Route.{hdmi_port_map-IsPort}
use entservices_inputoutput.HdmiCecSink.State.{Sink}
use entservices_inputoutput.HdmiCecSink.Messages.{process, Header, report_physical_address}
use entservices_inputoutput.HdmiCecSink.Ping.{acknowledged, no_acknowledge}
use entservices_inputoutput.HdmiCecSink.PollThread.{Bus, ping_round}
use entservices_inputoutput.HdmiCecSink.Control.{on_hdmi_hot_plug}
use entservices_inputoutput.HdmiCecSink.Reach.{Reaches, start, and_then, receives, pings, plugs}
use entservices_inputoutput.HdmiCecSink.Reach.Sound.{IsSound}
use entservices_inputoutput.HdmiCecSink.Reach.Invariant.{Reaches-IsSound}
use entservices_inputoutput.HdmiCecSink.Port.{hdmi_port_map}
use entservices_inputoutput.HdmiCecSink.Tests.{
  bus_sink, bus_sink-IsCounted, address, second_port-IsPort,
}

bus_sink-IsSound : IsSound bus_sink
unfolding hdmi_port_map
bus_sink-IsSound = record {
  allocated = omega arith;
  counted = bus_sink-IsCounted;
  ports = (
    record { port = hdmi_port_map-IsPort 0; other = omega arith },
    (record { port = second_port-IsPort; other = omega arith }, tt),
  );
}

abbrev bus : Bus
bus = record {
  now = 100;
  polled = λ a j. no_acknowledge;
  pinged = λ a. acknowledged;
  throws = λ c. false;
}

abbrev header : Header
header = record { from = 8; to = 15 }

-- A device tells its address, all addresses acknowledge their pings, and a cable is pulled.
abbrev heard : Sink
heard = process 100 (report_physical_address (address 2 1 0 0) 4) header bus_sink

abbrev pinged : Sink
pinged = ping_round bus heard

abbrev unplugged : Sink
unplugged = on_hdmi_hot_plug 1 false (some (λ i. false)) pinged

run : Reaches bus_sink unplugged
run =
    and_then
      (and_then
        (and_then start (
          receives 100 (report_physical_address (address 2 1 0 0) 4) header bus_sink (omega arith)
            (omega arith)))
        (pings bus heard))
      (plugs 1 false (some (λ i. false)) pinged)

Reaches-IsSound_example : IsSound unplugged
Reaches-IsSound_example = Reaches-IsSound run bus_sink-IsSound
