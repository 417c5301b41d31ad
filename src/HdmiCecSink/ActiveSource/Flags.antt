-- ===== src/HdmiCecSink/ActiveSource/Flags.antt =====
-- `m_currentActiveSource` and the flags `m_isActiveSource` of the devices.
use entservices_inputoutput.Base.{ℕ, ◌≡◌, ◌≢◌, Bool, true, false, some, arith}
use entservices_inputoutput.HdmiCecSink.Types.{PhysicalAddress}
use entservices_inputoutput.HdmiCecSink.State.{Sink, not_allocated}
use entservices_inputoutput.HdmiCecSink.Devices.{add_device, remove_device}
use entservices_inputoutput.HdmiCecSink.ActiveSource.{
  update_active_source, update_in_active_source, set_active_source,
}

abbrev pub is_flagged : Sink → ℕ → Bool
is_flagged s a = (s.device_list a).is_active_source

-- Only the current source is flagged.
abbrev pub IsSingle : Sink → Type 0
IsSingle s = (i : ℕ) → is_flagged s i ≡ true → s.current_active_source ≡ some i

-- An ActiveSource of a device that is not the TV makes it the current source, flagged, under its new
-- address, if the TV has an address.
update_active_source_selects :
    (a : ℕ) (pa : PhysicalAddress) (s : Sink)
    → not_allocated s ≡ false
    → a ≢ s.logical_address_allocated
    → ((update_active_source a pa s).current_active_source ≡ some a)
      × (is_flagged (update_active_source a pa s) a ≡ true)
      × (((update_active_source a pa s).device_list a).physical_addr ≡ pa)
unfolding update_active_source
update_active_source_selects a pa s n o = (ground arith, ground arith, ground arith)

-- ActiveSource and InActiveSource messages keep the flag single.
pub update_active_source-IsSingle :
    (a : ℕ) (pa : PhysicalAddress) (s : Sink)
    → IsSingle s
    → IsSingle (update_active_source a pa s) × IsSingle (update_in_active_source a pa s)
unfolding update_active_source update_in_active_source
update_active_source-IsSingle a pa s h = (λ i. ground (arith, h i), λ i. ground (arith, h i))

add_device-IsSingle : (a : ℕ) (s : Sink) → IsSingle s → IsSingle (add_device a s)
unfolding add_device
add_device-IsSingle a s h i = ground (arith, h i)

remove_device-IsSingle : (a : ℕ) (s : Sink) → IsSingle s → IsSingle (remove_device a s)
unfolding remove_device
remove_device-IsSingle a s h i = ground (arith, h i)

-- When the TV, with a connection and an address, makes itself the source, the flag of the device
-- shown until then stays: the next device that becomes active is the second one flagged. Neither
-- device is the TV.
set_active_source_leaves_flag :
    (c a : ℕ) (pa : PhysicalAddress) (s : Sink)
    → s.connected ≡ true
    → not_allocated s ≡ false
    → c ≢ s.logical_address_allocated
    → a ≢ s.logical_address_allocated
    → is_flagged s c ≡ true
    → (is_flagged (update_active_source a pa (set_active_source false s)) c ≡ true)
      × (is_flagged (update_active_source a pa (set_active_source false s)) a ≡ true)
unfolding update_active_source set_active_source
set_active_source_leaves_flag c a pa s k n o p f = (ground arith, ground arith)

-- A device that is removed while it is shown stays the current source.
pub remove_device_keeps_current :
    (a : ℕ) (s : Sink) → (remove_device a s).current_active_source ≡ s.current_active_source
unfolding remove_device
remove_device_keeps_current a s = ground arith
