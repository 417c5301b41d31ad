-- ===== src/HdmiCecSink/Routing.antt =====
-- setRoutingChange and SetRoutingChange. Port names are lists of character codes. A C++ exception
-- that leaves the function is `thrown`, with the state that it leaves behind.
pub mod Outcome
use entservices_inputoutput.Base.{
  ℕ, ◌+◌, ◌-◌, Bool, true, false, ◌&&◌, ◌||◌, Option, none, some, List, [], ◌∷◌, ◌==◌,
  if◌then◌else◌, get_elem?, leb, String,
}
use Prim.Native.Char.{code}
use entservices_inputoutput.HdmiCecSink.Types.{PhysicalAddress, broadcast, routing_change}
use entservices_inputoutput.HdmiCecSink.State.{Sink, send_to, not_allocated}

pub data Call : Type 0 where
  returned : Bool → Sink → Call
  thrown : Sink → Call

abbrev pub codes : String → List ℕ
codes String.[] = []
codes (String.◌∷◌ c s) = code c ∷ codes s

-- `starts_with sub s`, and `s.find(sub, 0) != npos`.
abbrev pub starts_with : List ℕ → List ℕ → Bool
starts_with [] s = true
starts_with (c ∷ cs) [] = false
starts_with (c ∷ cs) (d ∷ ds) = c == d && starts_with cs ds

abbrev pub contains : List ℕ → List ℕ → Bool
contains sub [] = starts_with sub []
contains sub (c ∷ cs) = starts_with sub (c ∷ cs) || contains sub cs

abbrev pub tv : List ℕ
tv = b'T' ∷ b'V' ∷ []

abbrev pub hdmi : List ℕ
hdmi = b'H' ∷ b'D' ∷ b'M' ∷ b'I' ∷ []

-- `stoi` of one character in base 16; `none` is its exception.
unfoldable pub hex_digit : ℕ → Option ℕ
hex_digit c =
    if leb b'0' c && leb c b'9'
    then some (c - b'0')
    else (if leb b'A' c && leb c b'F'
        then some (c - b'A' + 10)
        else (if leb b'a' c && leb c b'f' then some (c - b'a' + 10) else none))

-- `stoi(name.substr(4, 1), NULL, 16)`.
unfoldable pub port_number : List ℕ → Option ℕ
unfolding hex_digit
port_number name = elim (get_elem? name 4) [ none ↦ none | some c ↦ hex_digit c ]

-- The physical address of one side: `none` is an exception, `some none` an invalid port.
unfoldable pub port_address : List ℕ → Sink → Option (Option PhysicalAddress)
unfolding port_number
port_address name s = elim (port_number name) [
  | none ↦ none
  | some n ↦ elim (get_elem? s.hdmi_inputs n) [
    | none ↦ some none
    | some p ↦ some (some p.physical_addr)
  ]
]

abbrev pub own_address : Sink → PhysicalAddress
own_address s = (s.device_list s.logical_address_allocated).physical_addr

-- The last part: the frame goes out if there is a connection.
unfoldable pub announce_change : PhysicalAddress → PhysicalAddress → Sink → Call
announce_change old new s =
    if s.connected
    then returned true (send_to broadcast (routing_change old new) s)
    else returned true s

-- The branch on a port `to`, for what its name stands for.
abbrev pub route_to_port : PhysicalAddress → Option (Option PhysicalAddress) → Sink → Call
route_to_port old none s = thrown s
route_to_port old (some none) s = returned true s
route_to_port old (some (some new)) s = announce_change old new s

-- The branches on `to`.
unfoldable pub route_to : PhysicalAddress → List ℕ → Sink → Call
unfolding port_address announce_change
route_to old to s =
    if contains tv to
    then announce_change old (own_address s)
        (record s { current_active_source = some s.logical_address_allocated })
    else route_to_port old (port_address to s) s

-- The branch on a port `from`.
abbrev pub route_from_port : Option (Option PhysicalAddress) → List ℕ → Sink → Call
route_from_port none to s = thrown s
route_from_port (some none) to s = returned true s
route_from_port (some (some old)) to s = route_to old to s

unfoldable pub set_routing_change : List ℕ → List ℕ → Sink → Call
unfolding route_to
set_routing_change from to s =
    if not_allocated s
    then returned true s
    else (if contains tv from
        then route_to (own_address s) to (record s { current_active_source = none })
        else route_from_port (port_address from s) to s)

abbrev pub is_port_name : List ℕ → Bool
is_port_name name = contains hdmi name || contains tv name

-- SetRoutingChange: the flag is `success.success`.
unfoldable pub set_routing_change_api : List ℕ → List ℕ → Sink → Call
unfolding set_routing_change
set_routing_change_api old new s =
    if is_port_name old && is_port_name new then set_routing_change old new s else returned false s
