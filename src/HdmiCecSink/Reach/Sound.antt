-- ===== src/HdmiCecSink/Reach/Sound.antt =====
-- The sink stays sound through everything that happens to it.
use entservices_inputoutput.Base.{ℕ, ◌<◌, ◌≡◌, ◌≢◌, All, arith}
use entservices_inputoutput.HdmiCecSink.Types.{PhysicalAddress, unregistered}
use entservices_inputoutput.HdmiCecSink.State.{Sink}
use entservices_inputoutput.HdmiCecSink.Devices.{
  is_present, add_device, remove_device, update_device_chain,
}
use entservices_inputoutput.HdmiCecSink.Devices.Count.{
  IsCounted, add_device-IsCounted, remove_device-IsCounted,
}
use entservices_inputoutput.HdmiCecSink.Reach.Ports.{IsOthersPort, All-attach, All-detach}

-- The TV has an address, the counter agrees with the list of devices, and the tables of every port
-- are well formed and do not name the TV.
pub record IsSound (s : Sink) : Type 0 where
  pub allocated : s.logical_address_allocated ≢ unregistered
  pub counted : IsCounted s
  pub ports : All (IsOthersPort s.logical_address_allocated) s.hdmi_inputs

-- An operation that touches nothing of this.
pub record IsFramed (s t : Sink) : Type 0 where
  pub number : t.number_of_devices ≡ s.number_of_devices
  pub own : t.logical_address_allocated ≡ s.logical_address_allocated
  pub present : is_present t ≡ is_present s
  pub inputs : t.hdmi_inputs ≡ s.hdmi_inputs

pub IsFramed-IsSound : (s t : Sink) → IsFramed s t → IsSound s → IsSound t
IsFramed-IsSound s t f k = record {
  allocated = rw f.own k.allocated;
  counted = record { counted = rw (f.number, f.own, f.present) k.counted.counted };
  ports = rw (f.own, f.inputs) k.ports;
}

pub add_device-IsSound :
    (a : ℕ) (s : Sink)
    → a < 16
    → a ≢ s.logical_address_allocated
    → IsSound s
    → IsSound (add_device a s)
      × ((add_device a s).logical_address_allocated ≡ s.logical_address_allocated)
unfolding add_device
add_device-IsSound a s h n k = (
  record {
    allocated = ground (arith, k.allocated);
    counted = add_device-IsCounted s a h n k.counted;
    ports = ground (arith, k.ports);
  },
  ground arith,
)

pub remove_device-IsSound :
    (a : ℕ) (s : Sink)
    → a < 16
    → a ≢ s.logical_address_allocated
    → IsSound s
    → IsSound (remove_device a s)
      × ((remove_device a s).logical_address_allocated ≡ s.logical_address_allocated)
unfolding remove_device
remove_device-IsSound a s h n k = (
  record {
    allocated = ground (arith, k.allocated);
    counted = remove_device-IsCounted s a h n k.counted;
    ports = ground (
      arith,
      k.ports,
      All-detach s.logical_address_allocated (s.device_list a).physical_addr s.hdmi_inputs
          k.allocated k.ports,
    );
  },
  ground arith,
)

pub update_device_chain-IsSound :
    (la : ℕ) (a : PhysicalAddress) (s : Sink)
    → la < 16
    → la ≢ s.logical_address_allocated
    → IsSound s
    → IsSound (update_device_chain la a s)
unfolding update_device_chain
update_device_chain-IsSound la a s h n k = record {
  allocated = ground (arith, k.allocated);
  counted = ground (arith, k.counted);
  ports =
      ground
        (arith, k.ports, All-attach s.logical_address_allocated la a s.hdmi_inputs h n k.ports);
}

pub framed-IsSound :
    (s t : Sink)
    → t.number_of_devices ≡ s.number_of_devices
    → t.logical_address_allocated ≡ s.logical_address_allocated
    → is_present t ≡ is_present s
    → t.hdmi_inputs ≡ s.hdmi_inputs
    → IsSound s
    → IsSound t
framed-IsSound s t n o p i k =
    IsFramed-IsSound s t (record { number = n; own = o; present = p; inputs = i }) k
