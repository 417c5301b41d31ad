-- ===== src/HdmiCecSink/Devices/Count.antt =====
-- `m_numberOfDevices` counts the devices on the bus but the TV itself.
use entservices_inputoutput.Base.{
  ℕ, zero, suc, ◌+◌, ◌≤◌, ◌<◌, ◌≡◌, refl, ◌≢◌, inl, inr, Bool, true, false, not, ◌&&◌, ◌==◌, pos,
  arith, Bool-cases,
}
use entservices_inputoutput.HdmiCecSink.State.{Sink}
use entservices_inputoutput.HdmiCecSink.Types.{PhysicalAddress, unregistered}
use entservices_inputoutput.HdmiCecSink.Devices.{
  is_present, add_device, remove_device, update_device_chain,
}

abbrev pub one_if : Bool → ℕ
one_if true = 1
one_if false = 0

-- How many of the addresses below `n` are present, `own` left out.
unfoldable pub others_below : ℕ → ℕ → (ℕ → Bool) → ℕ
others_below zero own p = 0
others_below (suc n) own p = one_if (not (n == own) && p n) + others_below n own p

-- The counter agrees with the list of 16.
pub record IsCounted (s : Sink) : Type 0 where
  pub counted :
      s.number_of_devices ≡ pos (others_below 16 s.logical_address_allocated (is_present s))

module _ (own a : ℕ) (p q : ℕ → Bool) (same : (i : ℕ) → i ≢ a → p i ≡ q i) where
  others_below-above : (n : ℕ) → n ≤ a → others_below n own p ≡ others_below n own q
  unfolding others_below
  others_below-above zero h = refl
  others_below-above (suc n) h =
      ground (arith, same n (omega arith), others_below-above n (omega arith))

  -- One entry given anew counts for what it now holds.
  pub others_below-change :
      (n : ℕ)
      → a < n
      → others_below n own p + one_if (not (a == own) && q a)
        ≡ others_below n own q + one_if (not (a == own) && p a)
  unfolding others_below
  others_below-change zero h = elim h [ ]
  others_below-change (suc n) h = elim (Bool-cases (n == a)) [
    | inl e ↦ ground (arith, others_below-above n)
    | inr e ↦ ground (arith, same n, others_below-change n)
  ]

-- `addDevice` of an address other than the TV's own keeps the counter equal to the number of devices
-- that are present, the TV left out.
pub add_device-IsCounted :
    (s : Sink) (a : ℕ)
    → a < 16
    → a ≢ s.logical_address_allocated
    → IsCounted s
    → IsCounted (add_device a s)
unfolding add_device
add_device-IsCounted s a h n c = elim (Bool-cases (is_present s a)) [
  | inl e ↦ ground arith
  | inr e ↦ ground (
    arith,
    others_below-change s.logical_address_allocated a (is_present s) (is_present (add_device a s))
        (λ i m. ground arith) 16 h,
  )
]

-- `removeDevice` of an address other than the TV's own keeps the counter equal to the number of
-- devices that are present, the TV left out; so it never goes below 0.
pub remove_device-IsCounted :
    (s : Sink) (a : ℕ)
    → a < 16
    → a ≢ s.logical_address_allocated
    → IsCounted s
    → IsCounted (remove_device a s)
unfolding remove_device
remove_device-IsCounted s a h n c = elim (Bool-cases (is_present s a)) [
  | inl e ↦ ground (
    arith,
    others_below-change s.logical_address_allocated a (is_present s)
        (is_present (remove_device a s)) (λ i m. ground arith) 16 h,
  )
  | inr e ↦ ground arith
]

pub update_device_chain-IsCounted :
    (s : Sink) (la : ℕ) (a : PhysicalAddress) → IsCounted s → IsCounted (update_device_chain la a s)
unfolding update_device_chain
update_device_chain-IsCounted s la a c = ground arith

-- Only the first frame of a device has an effect: adding it once more changes nothing.
add_device_idem : (s : Sink) (a : ℕ) → add_device a (add_device a s) ≡ add_device a s
unfolding add_device
add_device_idem s a = ground arith

-- Whatever the list held, after `addDevice` the device is present, after `removeDevice` it is not,
-- and neither touches the entry of another device, if the TV has an address.
presence :
    (s : Sink) (a : ℕ)
    → s.logical_address_allocated ≢ unregistered
    → (is_present (add_device a s) a ≡ true)
      × (is_present (remove_device a s) a ≡ false)
      × ((b : ℕ)
          → b ≢ a
          → ((add_device a s).device_list b ≡ s.device_list b)
            × ((remove_device a s).device_list b ≡ s.device_list b))
unfolding add_device remove_device
presence s a h = (ground arith, ground arith, λ b n. (ground arith, ground arith))
