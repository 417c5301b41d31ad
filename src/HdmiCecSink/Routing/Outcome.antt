-- ===== src/HdmiCecSink/Routing/Outcome.antt =====
-- What SetRoutingChange sends, and what it reports.
use entservices_inputoutput.Base.{ℕ, ◌≡◌, true, false, none, some, List, ◌∷◌, arith}
use entservices_inputoutput.HdmiCecSink.Types.{
  PhysicalAddress, broadcast, sent, routing_change, Output,
}
use entservices_inputoutput.HdmiCecSink.State.{Sink, not_allocated}
use entservices_inputoutput.HdmiCecSink.Routing.{
  Call, returned, thrown, contains, tv, is_port_name, port_address, own_address, route_to,
  set_routing_change, set_routing_change_api,
}

abbrev pub state_of : Call → Sink
state_of (returned b s) = s
state_of (thrown s) = s

-- The address that a name stands for: the TV's own, or that of the port that it names.
pub data IsAddressOf (name : List ℕ) (s : Sink) : PhysicalAddress → Type 0 where
  of_tv : contains tv name ≡ true → IsAddressOf name s (own_address s)
  of_port :
      (a : PhysicalAddress)
      → contains tv name ≡ false
      → port_address name s ≡ some (some a)
      → IsAddressOf name s a

-- The log of the sink has grown by nothing, or by one RoutingChange that is broadcast, from the
-- address of the one name to that of the other.
pub data GrewByRouting (from to : List ℕ) (s : Sink) : List Output → Type 0 where
  nothing_sent : {after : List Output} → after ≡ s.log → GrewByRouting from to s after
  change_sent :
      {after : List Output} {old new : PhysicalAddress}
      → IsAddressOf from s old
      → IsAddressOf to s new
      → after ≡ sent broadcast (routing_change old new) ∷ s.log
      → GrewByRouting from to s after

-- From the TV to a port that does not exist, with an address: SetRoutingChange reports success and
-- sends nothing, but the active source is forgotten.
missing_port_is_success :
    (old new : List ℕ) (s : Sink)
    → not_allocated s ≡ false
    → is_port_name old ≡ true
    → is_port_name new ≡ true
    → contains tv old ≡ true
    → contains tv new ≡ false
    → port_address new s ≡ some none
    → set_routing_change_api old new s ≡ returned true (record s { current_active_source = none })
unfolding set_routing_change_api set_routing_change route_to port_address
missing_port_is_success old new s n o k f t m = ground arith
