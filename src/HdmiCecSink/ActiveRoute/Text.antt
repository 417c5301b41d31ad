-- ===== src/HdmiCecSink/ActiveRoute/Text.antt =====
-- The text that GetActiveRoute prints is lost.
use entservices_inputoutput.Base.{
  ℕ, ◌+◌, ◌<◌, ◌≡◌, refl, ap, ◌∙◌, Bool, List, [], ◌∷◌, length, arith, ◌==◌, Bool-cases,
  if◌then◌else◌, inl, inr,
}
use entservices_inputoutput.HdmiCecSink.Types.{unregistered}
use entservices_inputoutput.HdmiCecSink.Device.{Device}
use entservices_inputoutput.HdmiCecSink.State.{Sink}
use entservices_inputoutput.HdmiCecSink.ActiveRoute.{
  Texts, Printed, print_at, read_from, print_device, print_route, answer_route, route_answer,
  is_last_step, first_print, answer_of,
}

print_at_zero : (off : ℕ) (text : List ℕ) (buf : ℕ → ℕ) → 0 < off → print_at off text buf 0 ≡ buf 0
unfolding print_at
print_at_zero off text buf h = ground arith

module _ (t : Texts) where
  -- What one device adds to the offset.
  abbrev pub width : Device → ℕ
  width d = length (t.address_text d.logical_address) + length (t.name_text d.osd_name) + 4

  print_device-offset :
      (d : Device) (b : Bool) (p : Printed)
      → p.offset + width d < 256
      → (print_device t d b p).offset ≡ p.offset + width d
  unfolding print_device
  print_device-offset d b p h = omega arith

  print_device-buffer :
      (d : Device) (b : Bool) (p : Printed)
      → 0 < p.offset
      → p.offset + width d < 256
      → p.buffer 0 ≡ 0
      → (print_device t d b p).buffer 0 ≡ 0
  unfolding print_device
  print_device-buffer d b p o h z =
      ground (arith, print_at_zero p.offset (t.address_text d.logical_address) p.buffer)

  -- The printed width of a route.
  unfoldable pub route_width : Sink → List ℕ → ℕ
  route_width s [] = 0
  route_width s (a ∷ route) =
      (if a == unregistered then 0 else width (s.device_list a)) + route_width s route

  print_route-blank :
      (s : Sink) (route : List ℕ) (p : Printed)
      → 0 < p.offset
      → p.offset + route_width s route < 256
      → p.buffer 0 ≡ 0
      → ((print_route t s route p).buffer 0 ≡ 0)
        × ((print_route t s route p).offset ≡ p.offset + route_width s route)
  unfolding print_route route_width
  print_route-blank s [] p o h z = (z, omega arith)
  print_route-blank s (a ∷ route) p o h z = elim (Bool-cases (a == unregistered)) [
    | inl e ↦ ground (arith, print_route-blank s route p o)
    | inr e ↦
        (let d = s.device_list a in
          let b = is_last_step t route in
          ground (
            arith,
            print_device-offset d b p,
            print_device-buffer d b p o,
            print_route-blank s route (print_device t d b p),
          ))
  ]

  answer_of_blank :
      (p : Printed) → p.buffer 0 ≡ 0 → answer_of t p ≡ route_answer p.paths p.offset []
  unfolding read_from
  answer_of_blank p z = ground arith

  -- `ActiveRoute` is empty for every route whose text fits the offset's byte, and `length` is the
  -- number of steps plus the width of that text.
  pub active_route_text_is_lost :
      (s : Sink) (a : ℕ) (route : List ℕ)
      → length (a ∷ route) + route_width s (a ∷ route) < 256
      → answer_route t s (a ∷ route)
        ≡ route_answer
            (print_route t s (a ∷ route) (first_print t (a ∷ route))).paths
            (length (a ∷ route) + route_width s (a ∷ route))
            []
  unfolding answer_route
  active_route_text_is_lost s a route h =
      let p = print_route t s (a ∷ route) (first_print t (a ∷ route)) in
      let (blank, offset) =
        print_route-blank s (a ∷ route) (first_print t (a ∷ route)) (omega arith) (omega arith)
          refl in
      answer_of_blank p blank ∙ ap (λ n. route_answer p.paths n []) (offset ∙ omega arith)
