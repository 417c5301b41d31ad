-- ===== src/HdmiCecSink/Query/Silent.antt =====
-- A device that never answers is given up on after eleven requests.
use entservices_inputoutput.Base.{
  ℕ, suc, ◌+◌, ◌-◌, ◌≤◌, ◌<◌, ◌≡◌, ◌↔◌, Bool, true, false, ◌&&◌, arith, List, [], ◌∷◌, length, sym,
  ap, refl, ◌∙◌,
}
use entservices_inputoutput.HdmiCecSink.Device.{Device, request_none, is_all_updated}
use entservices_inputoutput.HdmiCecSink.State.{Sink, not_allocated}
use entservices_inputoutput.HdmiCecSink.Types.{unregistered}
use entservices_inputoutput.HdmiCecSink.Query.{
  request, request_status, request_type, mark_requested, poll_request, max_wait_time,
}

-- Nothing is left to ask exactly when every piece of information is there.
request_type_none : (d : Device) → (request_type d ≡ request_none) ↔ (is_all_updated d ≡ true)
unfolding request_type is_all_updated
request_type_none d = (ground arith, ground arith)

-- A round of the poll thread on a device that stays silent: a request, then the status after more
-- than the longest wait.
abbrev pub silent_round : ℕ → ℕ → Device → Device
silent_round now late d = poll_request (now + max_wait_time + 1 + late) (mark_requested now d)

-- How many more requests a silent device gets.
abbrev cost : Bool → ℕ → ℕ
cost true k = 0
cost false k = k

-- The retries count for the physical address and the name only.
abbrev retries_made : Bool → Device → ℕ
retries_made true d = 0
retries_made false d = d.is_request_retry

unfoldable pub requests_left : Device → ℕ
requests_left d =
    cost (d.is_pa_updated && d.is_device_type_updated) 4
    + cost d.is_osd_name_updated 4
    + cost d.is_version_updated 1
    + cost d.is_vendor_id_updated 1
    + cost d.is_power_status_updated 1
    - retries_made ((d.is_pa_updated && d.is_device_type_updated) && d.is_osd_name_updated) d

silent_round-requests_left :
    (now late : ℕ) (d : Device)
    → d.is_request_retry ≤ 3
    → is_all_updated d ≡ false
    → (suc (requests_left (silent_round now late d)) ≡ requests_left d)
      × ((silent_round now late d).is_request_retry ≤ 3)
unfolding poll_request request_type is_all_updated requests_left
silent_round-requests_left now late d r h = (ground arith, ground arith)

requests_left_zero :
    (d : Device) → d.is_request_retry ≤ 3 → requests_left d ≡ 0 → is_all_updated d ≡ true
unfolding is_all_updated requests_left
requests_left_zero d r h = ground arith

requests_left-suc : (d : Device) {n : ℕ} → requests_left d ≡ suc n → is_all_updated d ≡ false
unfolding is_all_updated requests_left
requests_left-suc d h = ground arith

requests_left-le : (d : Device) → requests_left d ≤ 11
unfolding requests_left
requests_left-le d = ground arith

-- Rounds with the times of their requests, and by how much their status is later than it need be.
unfoldable pub silent_rounds : List (ℕ × ℕ) → Device → Device
silent_rounds [] d = d
silent_rounds ((now, late) ∷ times) d = silent_rounds times (silent_round now late d)

silent_rounds_done :
    (times : List (ℕ × ℕ)) (d : Device)
    → d.is_request_retry ≤ 3
    → length times ≡ requests_left d
    → is_all_updated (silent_rounds times d) ≡ true
unfolding silent_rounds
silent_rounds_done [] d r e = requests_left_zero d r (sym e)
silent_rounds_done ((now, late) ∷ times) d r e =
    let (left, retry) = silent_round-requests_left now late d r (requests_left-suc d (sym e)) in
    silent_rounds_done times (silent_round now late d) retry (omega (arith, left))

silent_device_is_completed :
    (times : List (ℕ × ℕ)) (d : Device)
    → d.is_request_retry ≤ 3
    → length times ≡ requests_left d
    → (is_all_updated (silent_rounds times d) ≡ true) × (length times ≤ 11)
silent_device_is_completed times d r e =
    (silent_rounds_done times d r e, omega (arith, requests_left-le d))

-- The same rounds made by the sink: `request`, then `requestStatus` after more than the longest wait.
unfoldable pub ask_rounds : List (ℕ × ℕ) → ℕ → Sink → Sink
ask_rounds [] a s = s
ask_rounds ((now, late) ∷ times) a s =
    ask_rounds times a (request_status (now + max_wait_time + 1 + late) a (request now a s)).0

round-device :
    (now late a : ℕ) (s : Sink)
    → s.connected ≡ true
    → not_allocated s ≡ false
    → a < unregistered
    → ((request_status (now + max_wait_time + 1 + late) a (request now a s)).0.device_list a
        ≡ silent_round now late (s.device_list a))
      × ((request_status (now + max_wait_time + 1 + late) a (request now a s)).0.connected ≡ true)
      × (not_allocated (request_status (now + max_wait_time + 1 + late) a (request now a s)).0
          ≡ false)
unfolding request request_status
round-device now late a s c n h = ground arith

ask_rounds-device :
    (times : List (ℕ × ℕ)) (a : ℕ) (s : Sink)
    → s.connected ≡ true
    → not_allocated s ≡ false
    → a < unregistered
    → (ask_rounds times a s).device_list a ≡ silent_rounds times (s.device_list a)
unfolding ask_rounds silent_rounds
ask_rounds-device [] a s c n h = refl
ask_rounds-device ((now, late) ∷ times) a s c n h =
    let (same, c', n') = round-device now late a s c n h in
    ask_rounds-device times a _ c' n' h ∙ ap (silent_rounds times) same

-- A device that answers nothing, and whose count of retries is at most 3, is complete, every piece of
-- information being known or given a default, after `requests_left` rounds of `request` and
-- `requestStatus`, which are at most eleven: the requests may be made at any times, and each status is
-- asked for 2001 ms after its request or any time later. The bus is connected and the sink has an
-- address.
pub silent_device_is_asked_eleven_times :
    (times : List (ℕ × ℕ)) (a : ℕ) (s : Sink)
    → s.connected ≡ true
    → not_allocated s ≡ false
    → a < unregistered
    → (s.device_list a).is_request_retry ≤ 3
    → length times ≡ requests_left (s.device_list a)
    → (is_all_updated ((ask_rounds times a s).device_list a) ≡ true) × (length times ≤ 11)
silent_device_is_asked_eleven_times times a s c n h r e =
    rw (ask_rounds-device times a s c n h) (silent_device_is_completed times (s.device_list a) r e)
