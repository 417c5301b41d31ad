-- ===== src/HdmiCecSink/Reach/Rounds.antt =====
-- The rounds of the poll thread keep the sink sound.
use mathlib.Core.Path.{fun_ext}
use entservices_inputoutput.Base.{
  ℕ, zero, suc, ◌+◌, ◌<◌, ◌≡◌, ◌≢◌, refl, Bool, arith, inl, inr, Bool-cases, All, ◌∙◌, List, [],
  ◌∷◌, ◌==◌, ltb,
}
use entservices_inputoutput.HdmiCecSink.Types.{unregistered}
use entservices_inputoutput.HdmiCecSink.State.{Sink, state_info}
use entservices_inputoutput.HdmiCecSink.Device.{Device}
use entservices_inputoutput.HdmiCecSink.Devices.{add_device, remove_device}
use entservices_inputoutput.HdmiCecSink.Query.{request, request_status, poll_request}
use entservices_inputoutput.HdmiCecSink.Ping.{
  Answer, Pinged, ping_one, ping_from, ping_devices, remove_devices, add_devices,
}
use entservices_inputoutput.HdmiCecSink.PollThread.{
  Bus, after_pings, ping_round, start_request, check_request, info_round, refresh_one, refresh_from,
  update_round, first_incomplete, set_thread_state,
}
use entservices_inputoutput.HdmiCecSink.Reach.Sound.{
  IsSound, IsFramed-IsSound, framed-IsSound, add_device-IsSound, remove_device-IsSound,
}

-- An address of a device that is not the TV.
abbrev IsOther : ℕ → ℕ → Type 0
IsOther own a = (a < 16) × (a ≢ own)

ping_one-others :
    (answer : ℕ → Answer) (s : Sink) (i : ℕ) (rest : Pinged)
    → i < 16
    → All (IsOther s.logical_address_allocated) rest.arrived
      × All (IsOther s.logical_address_allocated) rest.left
    → All (IsOther s.logical_address_allocated) (ping_one answer s i rest).arrived
      × All (IsOther s.logical_address_allocated) (ping_one answer s i rest).left
unfolding ping_one
ping_one-others answer s i rest h r = ground arith

ping_from-others :
    (answer : ℕ → Answer) (s : Sink) (i k : ℕ)
    → i + k < 17
    → All (IsOther s.logical_address_allocated) (ping_from answer s i k).arrived
      × All (IsOther s.logical_address_allocated) (ping_from answer s i k).left
unfolding ping_from
ping_from-others answer s i zero h = (tt, tt)
ping_from-others answer s i (suc k) h =
    ping_one-others answer s i (ping_from answer s (suc i) k) (omega arith)
      (ping_from-others answer s (suc i) k (omega arith))

ping_devices-others :
    (answer : ℕ → Answer) (s : Sink)
    → All (IsOther s.logical_address_allocated) (ping_devices answer s).arrived
      × All (IsOther s.logical_address_allocated) (ping_devices answer s).left
unfolding ping_devices
ping_devices-others answer s =
    ground (arith, ping_from-others answer s 0 unregistered (omega arith))

add_devices-IsSound :
    (as_ : List ℕ) (s : Sink)
    → All (IsOther s.logical_address_allocated) as_
    → IsSound s
    → IsSound (add_devices as_ s)
add_devices-IsSound [] s o k = k
add_devices-IsSound (a ∷ as_) s o k =
    let (added, own) = add_device-IsSound a s o.0.0 o.0.1 k in
    add_devices-IsSound as_ (add_device a s) (rw own o.1) added

remove_devices-IsSound :
    (as_ : List ℕ) (s : Sink)
    → All (IsOther s.logical_address_allocated) as_
    → IsSound s
    → IsSound (remove_devices as_ s)
      × ((remove_devices as_ s).logical_address_allocated ≡ s.logical_address_allocated)
remove_devices-IsSound [] s o k = (k, refl)
remove_devices-IsSound (a ∷ as_) s o k =
    let (gone, own) = remove_device-IsSound a s o.0.0 o.0.1 k in
    let (all_gone, same) = remove_devices-IsSound as_ (remove_device a s) (rw own o.1) gone in
    (all_gone, same ∙ own)

after_pings-IsSound : (b : Bool) (s : Sink) → IsSound s → IsSound (after_pings b s)
unfolding after_pings
after_pings-IsSound b s k =
    IsFramed-IsSound s _
      (record {
        number = ground arith;
        own = ground arith;
        present = fun_ext (λ i. ground arith);
        inputs = ground arith;
      })
      k

pub ping_round-IsSound : (bus : Bus) (s : Sink) → IsSound s → IsSound (ping_round bus s)
unfolding ping_round
ping_round-IsSound bus s k =
    let (arrived, left) = ping_devices-others bus.pinged s in
    let t : Sink = set_thread_state state_info s.poll.sleep_time s in
    let (gone, own) = remove_devices-IsSound (ping_devices bus.pinged s).left t left (
      IsFramed-IsSound s t (record { number = refl; own = refl; present = refl; inputs = refl })
        k) in
    after_pings-IsSound _ _
      (add_devices-IsSound (ping_devices bus.pinged s).arrived _ (rw own arrived) gone)

poll_request-present :
    (now : ℕ) (d : Device) → (poll_request now d).is_device_present ≡ d.is_device_present
unfolding poll_request
poll_request-present now d = ground arith

request-IsSound : (now a : ℕ) (s : Sink) → IsSound s → IsSound (request now a s)
unfolding request
request-IsSound now a s k =
    IsFramed-IsSound s _
      (record {
        number = ground arith;
        own = ground arith;
        present = fun_ext (λ i. ground arith);
        inputs = ground arith;
      })
      k

request_status-IsSound : (now a : ℕ) (s : Sink) → IsSound s → IsSound (request_status now a s).0
unfolding request_status
request_status-IsSound now a s k =
    IsFramed-IsSound s _
      (record {
        number = ground arith;
        own = ground arith;
        present = fun_ext (λ i. ground (arith, poll_request-present now (s.device_list a)));
        inputs = ground arith;
      })
      k

start_request-IsSound : (now : ℕ) (s : Sink) → IsSound s → IsSound (start_request now s).0
unfolding start_request
start_request-IsSound now s k =
    elim (Bool-cases (ltb (first_incomplete s 0 unregistered) unregistered)) [
      | inl e ↦ rw e (
          framed-IsSound _ _ refl refl refl refl
            (request-IsSound now (first_incomplete s 0 unregistered) s k))
      | inr e ↦ rw e (framed-IsSound s _ refl refl refl refl k)
    ]

check_request-IsSound :
    (now requested : ℕ) (s : Sink) → IsSound s → IsSound (check_request now requested s).0
unfolding check_request
check_request-IsSound now requested s k =
    let t : Sink = (request_status now requested s).0 in
    framed-IsSound t _ (ground arith) (ground arith) (fun_ext (λ i. ground arith)) (ground arith)
      (request_status-IsSound now requested s k)

pub info_round-IsSound :
    (now requested : ℕ) (s : Sink) → IsSound s → IsSound (info_round now requested s).0
unfolding info_round
info_round-IsSound now requested s k = elim (Bool-cases (requested == unregistered)) [
  | inl e ↦ rw e (start_request-IsSound now s k)
  | inr e ↦ rw e (check_request-IsSound now requested s k)
]

refresh_one-IsSound : (now i : ℕ) (s : Sink) → IsSound s → IsSound (refresh_one now i s)
unfolding refresh_one
refresh_one-IsSound now i s k =
    framed-IsSound s _ (ground arith) (ground arith) (fun_ext (λ j. ground arith)) (ground arith) k

refresh_from-IsSound : (now i n : ℕ) (s : Sink) → IsSound s → IsSound (refresh_from now i n s)
unfolding refresh_from
refresh_from-IsSound now i zero s k = k
refresh_from-IsSound now i (suc n) s k =
    refresh_from-IsSound now (suc i) n (refresh_one now i s) (refresh_one-IsSound now i s k)

pub update_round-IsSound : (now : ℕ) (s : Sink) → IsSound s → IsSound (update_round now s)
unfolding update_round
update_round-IsSound now s k =
    framed-IsSound _ _ refl refl refl refl (refresh_from-IsSound now 0 unregistered s k)
