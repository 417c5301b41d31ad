-- ===== src/HdmiCecSink/Ping/Presence.antt =====
-- After a round of pings the list of devices is what the bus answered.
use entservices_inputoutput.Base.{
  ℕ, zero, suc, ◌+◌, ◌≤◌, ◌<◌, ◌≡◌, refl, ◌≢◌, Bool, true, false, List, [], ◌∷◌, arith, ◌==◌, inl,
  inr, ◌||◌, if◌then◌else◌, Bool-cases, not,
}
use entservices_inputoutput.HdmiCecSink.Types.{unregistered}
use entservices_inputoutput.HdmiCecSink.State.{Sink, not_allocated}
use entservices_inputoutput.HdmiCecSink.Devices.{is_present, add_device, remove_device}
use entservices_inputoutput.HdmiCecSink.Ping.{
  Answer, acknowledged, no_acknowledge, failed, ping_from, ping_devices, remove_devices,
  add_devices,
}

-- Is the address in the list?
abbrev pub is_in : ℕ → List ℕ → Bool
is_in a [] = false
is_in a (b ∷ bs) = b == a || is_in a bs

add_device-present :
    (a b : ℕ) (s : Sink)
    → not_allocated s ≡ false
    → (is_present (add_device b s) a ≡ (b == a || is_present s a))
      × (not_allocated (add_device b s) ≡ false)
unfolding add_device
add_device-present a b s n = (ground arith, ground arith)

remove_device-present :
    (a b : ℕ) (s : Sink)
    → not_allocated s ≡ false
    → (is_present (remove_device b s) a ≡ (if b == a then false else is_present s a))
      × (not_allocated (remove_device b s) ≡ false)
unfolding remove_device
remove_device-present a b s n = (ground arith, ground arith)

add_devices-present :
    (a : ℕ) (bs : List ℕ) (s : Sink)
    → not_allocated s ≡ false
    → is_present (add_devices bs s) a ≡ (is_in a bs || is_present s a)
add_devices-present a [] s n = refl
add_devices-present a (b ∷ bs) s n =
    let (here, still) = add_device-present a b s n in
    ground (arith, here, add_devices-present a bs (add_device b s) still)

remove_devices-present :
    (a : ℕ) (bs : List ℕ) (s : Sink)
    → not_allocated s ≡ false
    → (is_present (remove_devices bs s) a ≡ (if is_in a bs then false else is_present s a))
      × (not_allocated (remove_devices bs s) ≡ false)
remove_devices-present a [] s n = (refl, n)
remove_devices-present a (b ∷ bs) s n =
    let (here, still) = remove_device-present a b s n in
    ground (arith, here, remove_devices-present a bs (remove_device b s) still)

ping_from-not_in :
    (answer : ℕ → Answer) (s : Sink) (a i k : ℕ)
    → a < i
    → (is_in a (ping_from answer s i k).arrived ≡ false)
      × (is_in a (ping_from answer s i k).left ≡ false)
unfolding ping_from
ping_from-not_in answer s a i zero h = (refl, refl)
ping_from-not_in answer s a i (suc k) h = ground (arith, ping_from-not_in answer s a (suc i) k)

-- Which addresses a round of pings finds to have come or gone.
ping_from-in :
    (answer : ℕ → Answer) (s : Sink) (a i k : ℕ)
    → i ≤ a
    → a < i + k
    → a ≢ s.logical_address_allocated
    → (is_in a (ping_from answer s i k).arrived
        ≡ elim (answer a) [ acknowledged ↦ not (is_present s a) | _ ↦ false ])
      × (is_in a (ping_from answer s i k).left
          ≡ elim (answer a) [ no_acknowledge ↦ is_present s a | _ ↦ false ])
unfolding ping_from
ping_from-in answer s a i zero l h o = absurd (omega arith)
ping_from-in answer s a i (suc k) l h o = elim (Bool-cases (i == a)) [
  | inl e ↦ ground (arith, ping_from-not_in answer s a (suc i) k)
  | inr e ↦ ground (arith, ping_from-in answer s a (suc i) k)
]

abbrev pub after_ping : (ℕ → Answer) → Sink → Sink
after_ping answer s =
    add_devices (ping_devices answer s).arrived (remove_devices (ping_devices answer s).left s)

-- After a round of pings has been acted on, with a connection and an address, every address below 15
-- other than the TV's is present if it acknowledged, absent if nobody acknowledged, and as before if
-- the ping failed.
pub present_as_answered :
    (answer : ℕ → Answer) (s : Sink) (a : ℕ)
    → s.connected ≡ true
    → not_allocated s ≡ false
    → a < unregistered
    → a ≢ s.logical_address_allocated
    → is_present (after_ping answer s) a
      ≡ elim (answer a) [ acknowledged ↦ true | no_acknowledge ↦ false | failed ↦ is_present s a ]
unfolding ping_devices
present_as_answered answer s a c n h o =
    let pinged = ping_devices answer s in
    let (gone, still) = remove_devices-present a pinged.left s n in
    ground (
      arith,
      gone,
      add_devices-present a pinged.arrived (remove_devices pinged.left s) still,
      ping_from-in answer s a 0 unregistered,
    )
