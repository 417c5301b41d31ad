-- ===== src/HdmiCecSink/Api/DeviceList.antt =====
-- GetDeviceList against the count of devices, and the power status that it loses.
use entservices_inputoutput.Base.{
  ℕ, zero, suc, ◌+◌, ◌≡◌, refl, sym, ap, ◌∙◌, true, false, length, pos, arith, some, All,
}
use entservices_inputoutput.HdmiCecSink.Types.{invalid_address, PowerStatus}
use entservices_inputoutput.HdmiCecSink.State.{Sink, not_allocated, update_device}
use entservices_inputoutput.HdmiCecSink.Devices.{is_present, remove_device}
use entservices_inputoutput.HdmiCecSink.Devices.Count.{IsCounted, others_below, one_if}
use entservices_inputoutput.HdmiCecSink.Api.{
  is_listed, devices_from, get_device_list, get_active_source, hdmi_port,
}

-- How many of `k` addresses from `n` on are listed.
listed_from : Sink → (n k : ℕ) → ℕ
listed_from s n zero = 0
listed_from s n (suc k) = one_if (is_listed s n) + listed_from s (suc n) k

length-devices_from : (s : Sink) (n k : ℕ) → length (devices_from s n k) ≡ listed_from s n k
unfolding devices_from listed_from
length-devices_from s n zero = refl
length-devices_from s n (suc k) = ground (arith, length-devices_from s (suc n) k)

listed-others :
    (s : Sink) → listed_from s 0 16 ≡ others_below 16 s.logical_address_allocated (is_present s)
unfolding listed_from others_below
listed-others s = omega arith

-- GetDeviceList tells of as many devices as `numberofdevices` says, if the counter agrees with the
-- list of devices.
length-get_device_list :
    (s : Sink) → IsCounted s → s.number_of_devices ≡ pos (length (get_device_list s))
unfolding get_device_list
length-get_device_list s c = c.counted ∙ ap pos (sym (length-devices_from s 0 16 ∙ listed-others s))

devices_from-present :
    (s : Sink) (n k : ℕ)
    → ((a : ℕ) → is_present s a ≡ true → (s.device_list a).logical_address ≡ a)
    → All (λ i. is_listed s i.logical_address ≡ true) (devices_from s n k)
unfolding devices_from
devices_from-present s n zero own = tt
devices_from-present s n (suc k) own = ground (arith, own n, devices_from-present s (suc n) k own)

-- Every device that GetDeviceList tells of is present and is not the TV, by its address, if every
-- present entry of the list holds its own address.
get_device_list_present :
    (s : Sink)
    → ((a : ℕ) → is_present s a ≡ true → (s.device_list a).logical_address ≡ a)
    → All (λ i. is_listed s i.logical_address ≡ true) (get_device_list s)
unfolding get_device_list
get_device_list_present s own = devices_from-present s 0 16 own

abbrev pub set_power_status : ℕ → PowerStatus → Sink → Sink
set_power_status a p s = update_device a (λ d. record d { power_status = p }) s

devices_from-power_status :
    (s : Sink) (a : ℕ) (p : PowerStatus) (n k : ℕ)
    → devices_from (set_power_status a p s) n k ≡ devices_from s n k
unfolding devices_from
devices_from-power_status s a p n zero = refl
devices_from-power_status s a p n (suc k) =
    ground (arith, devices_from-power_status s a p (suc n) k)

-- The answer does not depend on the power status of any device: it is overwritten.
get_device_list_loses_power_status :
    (s : Sink) (a : ℕ) (p : PowerStatus)
    → get_device_list (set_power_status a p s) ≡ get_device_list s
unfolding get_device_list
get_device_list_loses_power_status s a p = devices_from-power_status s a p 0 16

-- After the device that is shown has been removed (it was present, and the TV has an address),
-- GetActiveSource still answers, with the cleared entry: logical address 0, the invalid physical
-- address and the port HDMI14.
removed_source_is_reported :
    (s : Sink) (a : ℕ)
    → not_allocated s ≡ false
    → is_present s a ≡ true
    → s.current_active_source ≡ some a
    → (get_active_source (remove_device a s)
        ≡ some (record { device = (remove_device a s).device_list a; port = hdmi_port 14 }))
      × (((remove_device a s).device_list a).logical_address ≡ 0)
      × (((remove_device a s).device_list a).physical_addr ≡ invalid_address)
      × (is_present (remove_device a s) a ≡ false)
unfolding get_active_source remove_device
removed_source_is_reported s a n h c = (ground arith, ground arith, ground arith, ground arith)
