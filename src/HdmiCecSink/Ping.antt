-- ===== src/HdmiCecSink/Ping.antt =====
-- pingDevices and allocateLAforTV. What the bus answers to a ping or a poll is an argument: the
-- Connection throws CECNoAckException where nobody answers, and another Exception where it fails.
pub mod Presence
use entservices_inputoutput.Base.{
  ℕ, zero, suc, Bool, true, false, not, ◌&&◌, ◌||◌, List, [], ◌∷◌, ◌++◌, ◌==◌, if◌then◌else◌,
}
use entservices_inputoutput.HdmiCecSink.Types.{unregistered, tv_address, specific_use}
use entservices_inputoutput.HdmiCecSink.State.{Sink, not_allocated}
use entservices_inputoutput.HdmiCecSink.Devices.{is_present, add_device, remove_device}

pub data Answer : Type 0 where
  acknowledged no_acknowledge failed : Answer

-- `connected` and `disconnected`.
pub record Pinged : Type 0 where
  pub arrived : List ℕ
  pub left : List ℕ

abbrev pub nobody : Pinged
nobody = record { arrived = []; left = [] }

-- The body of the loop, for the address `i` and what the rest of the loop finds.
unfoldable pub ping_one : (ℕ → Answer) → Sink → ℕ → Pinged → Pinged
ping_one answer s i rest = if i == s.logical_address_allocated then rest else elim (answer i) [
  | acknowledged ↦ if is_present s i then rest else record rest { arrived = i ∷ rest.arrived }
  | no_acknowledge ↦ if is_present s i then record rest { left = i ∷ rest.left } else rest
  | failed ↦ rest
]

-- The addresses from `i` on, `k` of them.
unfoldable pub ping_from : (ℕ → Answer) → Sink → (i k : ℕ) → Pinged
unfolding ping_one
ping_from answer s i zero = nobody
ping_from answer s i (suc k) = ping_one answer s i (ping_from answer s (suc i) k)

-- pingDevices: the addresses 0 to 14.
unfoldable pub ping_devices : (ℕ → Answer) → Sink → Pinged
ping_devices answer s =
    if not s.connected || not_allocated s then nobody else ping_from answer s 0 unregistered

abbrev pub remove_devices : List ℕ → Sink → Sink
remove_devices [] s = s
remove_devices (a ∷ as_) s = remove_devices as_ (remove_device a s)

abbrev pub add_devices : List ℕ → Sink → Sink
add_devices [] s = s
add_devices (a ∷ as_) s = add_devices as_ (add_device a s)

-- allocateLAforTV polls an address up to five times: `rounds` are the polls left, and an address is
-- free when nobody acknowledges it.
unfoldable pub is_free : (ℕ → Answer) → (round rounds : ℕ) → Bool
is_free answer j zero = false
is_free answer j (suc k) =
    let rest = is_free answer (suc j) k in elim (answer j) [ no_acknowledge ↦ true | _ ↦ rest ]

-- The answers are given by address and round.
unfoldable pub free_address : (ℕ → ℕ → Answer) → ℕ
unfolding is_free
free_address answer =
    if is_free (answer tv_address) 0 5
    then tv_address
    else (if is_free (answer specific_use) 0 5 then specific_use else unregistered)

unfoldable pub allocate_logical_address : (ℕ → ℕ → Answer) → Sink → Sink
unfolding free_address
allocate_logical_address answer s =
    if s.connected then record s { logical_address_allocated = free_address answer } else s
