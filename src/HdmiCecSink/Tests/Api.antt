-- ===== src/HdmiCecSink/Tests/Api.antt =====
-- What the sink answers and tells its clients, on small concrete buses.
use entservices_inputoutput.Base.{ℕ, ◌≡◌, List, [], ◌∷◌, arith, length, ◌+◌}
use entservices_inputoutput.HdmiCecSink.ActiveSource.{update_active_source, update_in_active_source}
use entservices_inputoutput.HdmiCecSink.ActiveSource.Flags.{IsSingle, update_active_source-IsSingle}
use entservices_inputoutput.HdmiCecSink.Routing.{codes}
use entservices_inputoutput.HdmiCecSink.ActiveRoute.{
  Texts, answer_route, route_answer, print_route, first_print,
}
use entservices_inputoutput.HdmiCecSink.ActiveRoute.Text.{active_route_text_is_lost, route_width}
use entservices_inputoutput.HdmiCecSink.Tests.{bus_sink, address}

bus_sink-IsSingle : IsSingle bus_sink
bus_sink-IsSingle i h = ground arith

update_active_source-IsSingle_example :
    IsSingle (update_active_source 1 (address 2 0 0 0) bus_sink)
    × IsSingle (update_in_active_source 1 (address 2 0 0 0) bus_sink)
update_active_source-IsSingle_example =
    update_active_source-IsSingle 1 (address 2 0 0 0) bus_sink bus_sink-IsSingle

abbrev first_name : List ℕ
first_name = codes "HDMI0"

abbrev second_name : List ℕ
second_name = codes "HDMI1"

abbrev missing_name : List ℕ
missing_name = codes "HDMI7"

abbrev route : List ℕ
route = 4 ∷ 1 ∷ []

abbrev texts : Texts
texts = record { address_text = λ a. (b'0' + a) ∷ []; name_text = λ n. b'x' ∷ [] }

active_route_text_is_lost_example :
    answer_route texts bus_sink route
    ≡ route_answer
        (print_route texts bus_sink route (first_print texts route)).paths
        (length route + route_width texts bus_sink route)
        []
unfolding route_width
active_route_text_is_lost_example =
    active_route_text_is_lost texts bus_sink 4 (1 ∷ []) (omega arith)
