-- ===== src/HdmiCecSink/Port.antt =====
-- HdmiPortMap and DeviceNode (HdmiCecSink/HdmiCecSinkImplementation.h): the devices behind one HDMI
-- input, by their place in the tree of physical addresses.
pub mod Route
use entservices_inputoutput.Base.{
  ℕ, suc, ◌+◌, ◌-◌, Bool, true, false, not, ◌&&◌, ◌||◌, List, [], ◌∷◌, ◌++◌, ◌==◌, if◌then◌else◌,
  get_or, set, replicate,
}
use entservices_inputoutput.HdmiCecSink.Types.{PhysicalAddress, same_address, unregistered}

-- `m_deviceChain[0..2].m_childsLogicalAddr`, 15 entries each.
pub record HdmiPortMap : Type 0 where
  pub port_id : ℕ
  pub is_connected : Bool
  pub logical_addr : ℕ
  pub physical_addr : PhysicalAddress
  pub chain0 : List ℕ
  pub chain1 : List ℕ
  pub chain2 : List ℕ

-- A `DeviceNode`.
abbrev pub device_node : List ℕ
device_node = replicate 15 unregistered

unfoldable pub hdmi_port_map : ℕ → HdmiPortMap
hdmi_port_map port_id = record {
  port_id = port_id;
  is_connected = false;
  logical_addr = unregistered;
  physical_addr = record { byte0 = port_id + 1; byte1 = 0; byte2 = 0; byte3 = 0 };
  chain0 = device_node;
  chain1 = device_node;
  chain2 = device_node;
}

abbrev pub is_set : ℕ → Bool
is_set n = not (n == 0)

-- The test of all three operations: the address lies below this port.
unfoldable pub is_below : HdmiPortMap → PhysicalAddress → Bool
is_below p a = a.byte0 == p.physical_addr.byte0 && is_set a.byte1

-- The ladder by which `addChild` and `removeChild` choose the entry of an address.
unfoldable pub set_child : HdmiPortMap → PhysicalAddress → ℕ → HdmiPortMap
set_child p a v =
    if is_set a.byte3
    then record p { chain2 = set p.chain2 (a.byte3 - 1) v }
    else (if is_set a.byte2
        then record p { chain1 = set p.chain1 (a.byte2 - 1) v }
        else (if is_set a.byte1 then record p { chain0 = set p.chain0 (a.byte1 - 1) v } else p))

unfoldable pub add_child : HdmiPortMap → ℕ → PhysicalAddress → HdmiPortMap
unfolding set_child is_below
add_child p la a =
    if not (p.logical_addr == unregistered) && not (p.logical_addr == la)
    then (if is_below p a then set_child p a la else p)
    else (if same_address a p.physical_addr then record p { logical_addr = la } else p)

unfoldable pub remove_child : HdmiPortMap → PhysicalAddress → HdmiPortMap
unfolding set_child is_below
remove_child p a =
    if not (p.logical_addr == unregistered)
    then (if is_below p a then set_child p a unregistered else p)
    else p

-- What `getRoute` appends for one byte of the address.
abbrev pub hop : List ℕ → ℕ → List ℕ
hop chain b = if is_set b then get_or chain (b - 1) unregistered ∷ [] else []

-- What `getRoute` appends to the route.
unfoldable pub get_route : HdmiPortMap → PhysicalAddress → List ℕ
unfolding is_below
get_route p a =
    if not (p.logical_addr == unregistered)
    then (if is_below p a
        then hop p.chain2 a.byte3
          ++ (hop p.chain1 a.byte2 ++ (hop p.chain0 a.byte1 ++ p.logical_addr ∷ []))
        else p.logical_addr ∷ [])
    else []
