-- ===== src/HdmiCecSink/ActiveRoute.antt =====
-- GetActiveRoute: the path to the active source, and the text that is printed of it.
-- The text buffer is a table of 1024 bytes, all 0 at first. `Texts` holds the CEC library's
-- conversions of a logical address and of an OSD name to text.
pub mod Text
use entservices_inputoutput.Base.{
  ℕ, zero, suc, ◌+◌, ◌-◌, ◌/◌, ◌%◌, String, Bool, true, false, not, ◌&&◌, ◌||◌, Option, none, some,
  List, [], ◌∷◌, ◌++◌, ◌==◌, if◌then◌else◌, ltb, leb, length, get_or,
}
use entservices_inputoutput.HdmiCecSink.Types.{PhysicalAddress, unregistered}
use entservices_inputoutput.HdmiCecSink.Device.{Device}
use entservices_inputoutput.HdmiCecSink.State.{Sink}
use entservices_inputoutput.HdmiCecSink.ActiveSource.{get_active_route, is_current}

pub record Texts : Type 0 where
  pub address_text : ℕ → List ℕ
  pub name_text : String → List ℕ

-- One step of the path. The source stores the name as the vendor and the vendor as the name.
pub record PathStep : Type 0 where
  pub logical_address : ℕ
  pub physical_address : PhysicalAddress
  pub device_type : ℕ
  pub vendor_id : String
  pub osd_name : List ℕ

abbrev pub path_step : Device → PathStep
path_step d = record {
  logical_address = d.logical_address;
  physical_address = d.physical_addr;
  device_type = d.device_type;
  vendor_id = d.osd_name;
  osd_name = d.vendor_id;
}

abbrev pub buffer_size : ℕ
buffer_size = 1024

-- `snprintf(&buf[off], sizeof(buf) - off, "%s", text)`: what fits, and a 0 behind it.
unfoldable pub print_at : ℕ → List ℕ → (ℕ → ℕ) → ℕ → ℕ
print_at off text buf i =
    if ltb i off || leb buffer_size i
    then buf i
    else (if ltb i (off + length text) && ltb i (buffer_size - 1)
        then get_or text (i - off) 0
        else (if i == off + length text || i == buffer_size - 1 then 0 else buf i))

-- The C string at the start of the buffer.
unfoldable pub read_from : (ℕ → ℕ) → (i fuel : ℕ) → List ℕ
read_from buf i zero = []
read_from buf i (suc fuel) =
    let rest = read_from buf (suc i) fuel in if buf i == 0 then [] else buf i ∷ rest

abbrev pub digits_of : ℕ → List ℕ
digits_of n = if ltb n 10 then (b'0' + n) ∷ [] else (b'0' + n / 10) ∷ (b'0' + n % 10) ∷ []

-- `"%s%d", "HDMI", byte - 1`, for a byte of an address.
abbrev pub hdmi_text : ℕ → List ℕ
hdmi_text byte =
    b'H' ∷ b'D' ∷ b'M' ∷ b'I' ∷ (if byte == 0 then b'-' ∷ b'1' ∷ [] else digits_of (byte - 1))

abbrev pub arrow : List ℕ
arrow = b')' ∷ b'-' ∷ b'-' ∷ b'>' ∷ []

-- `length`, a uint8_t, is the number of steps at first and then the offset of the next print.
pub record Printed : Type 0 where
  pub buffer : ℕ → ℕ
  pub offset : ℕ
  pub paths : List PathStep

module _ (t : Texts) where
  -- The body of the loop for a device; `is_last` is `i + 1 == route.size()`.
  unfoldable pub print_device : Device → (is_last : Bool) → Printed → Printed
  unfolding print_at
  print_device d is_last p =
      let a = t.address_text d.logical_address in
      let n = t.name_text d.osd_name in
      let off1 = (p.offset + length a) % 256 in
      let off2 = (off1 + length n) % 256 in
      let off3 = (off2 + length arrow) % 256 in
      let buf3 = print_at off2 arrow (print_at off1 (b'(' ∷ n) (print_at p.offset a p.buffer)) in
      record {
        buffer = if is_last then print_at off3 (hdmi_text d.physical_addr.byte0) buf3 else buf3;
        offset = off3;
        paths = p.paths ++ path_step d ∷ [];
      }

  abbrev pub is_last_step : List ℕ → Bool
  is_last_step [] = true
  is_last_step (x ∷ xs) = false

  unfoldable pub print_route : Sink → List ℕ → Printed → Printed
  unfolding print_device
  print_route s [] p = p
  print_route s (a ∷ route) p =
      print_route s route
        (if a == unregistered then p else print_device (s.device_list a) (is_last_step route) p)

  -- The answer: `none` is `available = false`; the last two are `length` and `ActiveRoute`.
  pub data RouteAnswer : Type 0 where
    unavailable tv_is_active : RouteAnswer
    route_answer : List PathStep → ℕ → List ℕ → RouteAnswer

  abbrev pub first_print : List ℕ → Printed
  first_print route = record { buffer = λ i. 0; offset = length route % 256; paths = [] }

  abbrev pub answer_of : Printed → RouteAnswer
  answer_of p = route_answer p.paths p.offset (read_from p.buffer 0 buffer_size)

  unfoldable pub answer_route : Sink → List ℕ → RouteAnswer
  answer_route s [] = unavailable
  answer_route s (a ∷ route) = answer_of (print_route s (a ∷ route) (first_print (a ∷ route)))

  unfoldable pub get_active_route_api : Sink → RouteAnswer
  unfolding answer_route print_route read_from
  get_active_route_api s = elim s.current_active_source [
    | none ↦ unavailable
    | some c ↦
        if c == s.logical_address_allocated
        then tv_is_active
        else answer_route s (get_active_route c s)
  ]
