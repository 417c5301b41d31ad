-- ===== src/HdmiCecSink/Port/Route.antt =====
-- The table of a port: its shape, and what a route finds in it.
use entservices_inputoutput.Base.{
  ℕ, ◌-◌, ◌≤◌, ◌<◌, ◌≡◌, ◌≢◌, Bool, true, false, not, List, [], ◌∷◌, ◌++◌, ◌==◌, if◌then◌else◌,
  length, length-append, length-set, get_or-set_self, All, All-set, All-get_or, arith,
}
use entservices_inputoutput.HdmiCecSink.Types.{PhysicalAddress, unregistered}
use entservices_inputoutput.HdmiCecSink.Port.{
  HdmiPortMap, hdmi_port_map, is_below, set_child, add_child, remove_child, get_route, hop,
}

-- The bytes of an address are nibbles.
pub record IsAddress (a : PhysicalAddress) : Type 0 where
  pub byte0_lt : a.byte0 < 16
  pub byte1_lt : a.byte1 < 16
  pub byte2_lt : a.byte2 < 16
  pub byte3_lt : a.byte3 < 16

abbrev pub IsLogical : ℕ → Type 0
IsLogical n = n < 16

-- The tables keep their 15 entries, and every entry indexes the list of 16 devices.
pub record IsPort (p : HdmiPortMap) : Type 0 where
  pub address_lt : IsLogical p.logical_addr
  pub length0 : length p.chain0 ≡ 15
  pub length1 : length p.chain1 ≡ 15
  pub length2 : length p.chain2 ≡ 15
  pub entries0 : All IsLogical p.chain0
  pub entries1 : All IsLogical p.chain1
  pub entries2 : All IsLogical p.chain2

set_child-IsPort :
    (p : HdmiPortMap) (a : PhysicalAddress) (v : ℕ)
    → IsLogical v
    → IsPort p
    → IsPort (set_child p a v)
unfolding set_child
set_child-IsPort p a v h w = ground (
  arith,
  length-set p.chain0 (a.byte1 - 1) v,
  length-set p.chain1 (a.byte2 - 1) v,
  length-set p.chain2 (a.byte3 - 1) v,
  All-set IsLogical p.chain0 (a.byte1 - 1) v h w.entries0,
  All-set IsLogical p.chain1 (a.byte2 - 1) v h w.entries1,
  All-set IsLogical p.chain2 (a.byte3 - 1) v h w.entries2,
)

-- `addChild` of a logical address keeps the port's tables at 15 entries, all of them logical
-- addresses.
pub add_child-IsPort :
    (p : HdmiPortMap) (la : ℕ) (a : PhysicalAddress)
    → IsLogical la
    → IsPort p
    → IsPort (add_child p la a)
unfolding add_child
add_child-IsPort p la a h w = ground (arith, set_child-IsPort p a la h w)

-- `removeChild` keeps the tables.
pub remove_child-IsPort :
    (p : HdmiPortMap) (a : PhysicalAddress) → IsPort p → IsPort (remove_child p a)
unfolding remove_child
remove_child-IsPort p a w = ground (arith, set_child-IsPort p a unregistered (omega arith) w)

pub hdmi_port_map-IsPort : (n : ℕ) → IsPort (hdmi_port_map n)
unfolding hdmi_port_map
hdmi_port_map-IsPort n = omega arith

All-append {ℓ κ} :
    {A : Type ℓ} (P : A → Type κ) (xs ys : List A) → All P xs → All P ys → All P (xs ++ ys)
All-append P [] ys hx hy = hy
All-append P (x ∷ xs) ys hx hy = (hx.0, All-append P xs ys hx.1 hy)

All-hop : (chain : List ℕ) (b : ℕ) → All IsLogical chain → All IsLogical (hop chain b)
All-hop chain b h = ground (arith, All-get_or IsLogical chain (b - 1) unregistered (omega arith) h)

length-hop : (chain : List ℕ) (b : ℕ) → length (hop chain b) ≤ 1
length-hop chain b = ground arith

length-get_route : (p : HdmiPortMap) (a : PhysicalAddress) → length (get_route p a) ≤ 4
unfolding get_route
length-get_route p a = ground (
  arith,
  length-append (hop p.chain2 a.byte3)
      (hop p.chain1 a.byte2 ++ (hop p.chain0 a.byte1 ++ p.logical_addr ∷ [])),
  length-append (hop p.chain1 a.byte2) (hop p.chain0 a.byte1 ++ p.logical_addr ∷ []),
  length-append (hop p.chain0 a.byte1) (p.logical_addr ∷ []),
  length-hop p.chain0 a.byte1,
  length-hop p.chain1 a.byte2,
  length-hop p.chain2 a.byte3,
)

All-if {ℓ κ} :
    {A : Type ℓ} (P : A → Type κ) (b : Bool) (xs ys : List A)
    → All P xs
    → All P ys
    → All P (if b then xs else ys)
All-if P true xs ys hx hy = hx
All-if P false xs ys hx hy = hy

All-get_route : (p : HdmiPortMap) (a : PhysicalAddress) → IsPort p → All IsLogical (get_route p a)
unfolding get_route
All-get_route p a w =
    let last : All IsLogical (p.logical_addr ∷ []) = (w.address_lt, tt) in
    All-if IsLogical (not (p.logical_addr == unregistered)) _ []
      (All-if IsLogical (is_below p a) _ (p.logical_addr ∷ [])
        (All-append IsLogical (hop p.chain2 a.byte3) _ (All-hop p.chain2 a.byte3 w.entries2) (
          All-append IsLogical (hop p.chain1 a.byte2) _ (All-hop p.chain1 a.byte2 w.entries1) (
            All-append IsLogical (hop p.chain0 a.byte1) _ (All-hop p.chain0 a.byte1 w.entries0)
              last)))
        last)
      tt

-- A route has at most four steps, and each of them indexes the list of 16 devices, whatever the
-- address that is asked for.
pub get_route_bounds :
    (p : HdmiPortMap) (a : PhysicalAddress)
    → IsPort p
    → (length (get_route p a) ≤ 4) × All IsLogical (get_route p a)
get_route_bounds p a w = (length-get_route p a, All-get_route p a w)

-- The head of a route, or `unregistered` of an empty one.
abbrev pub target : List ℕ → ℕ
target [] = unregistered
target (x ∷ xs) = x

-- After `addChild` of a device behind a registered port, at an address that lies below the port and
-- under a logical address other than the port's own, the route to its address begins with it.
pub get_route-add_child :
    (p : HdmiPortMap) (la : ℕ) (a : PhysicalAddress)
    → IsPort p
    → IsAddress a
    → p.logical_addr ≢ unregistered
    → p.logical_addr ≢ la
    → is_below p a ≡ true
    → target (get_route (add_child p la a) a) ≡ la
unfolding get_route add_child
get_route-add_child p la a w v r n b = ground (
  arith,
  get_or-set_self p.chain0 (a.byte1 - 1) la unregistered,
  get_or-set_self p.chain1 (a.byte2 - 1) la unregistered,
  get_or-set_self p.chain2 (a.byte3 - 1) la unregistered,
)

-- After `removeChild` of an address that lies below the port the route to the address begins with no
-- device.
get_route-remove_child :
    (p : HdmiPortMap) (a : PhysicalAddress)
    → IsPort p
    → IsAddress a
    → is_below p a ≡ true
    → target (get_route (remove_child p a) a) ≡ unregistered
unfolding get_route remove_child
get_route-remove_child p a w v b = ground (
  arith,
  get_or-set_self p.chain0 (a.byte1 - 1) unregistered unregistered,
  get_or-set_self p.chain1 (a.byte2 - 1) unregistered unregistered,
  get_or-set_self p.chain2 (a.byte3 - 1) unregistered unregistered,
)
