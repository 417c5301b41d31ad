-- ===== src/HdmiCecSource/Runs/Races.antt =====
-- What a frame does that the listener processes while CECEnable or CECDisable is under way.
use entservices_inputoutput.Base.{
  ℕ, ◌<◌, ◌≡◌, refl, Bool, true, false, Option, [], ◌∷◌, ◌==◌, if◌then◌else◌, pos, arith,
}
use entservices_inputoutput.HdmiCecSink.Types.{PhysicalAddress, PowerStatus}
use entservices_inputoutput.HdmiCecSource.State.{Source, is_present}
use entservices_inputoutput.HdmiCecSource.Devices.{add_device, add_new}
use entservices_inputoutput.HdmiCecSource.Messages.{process, report_power_status}
use entservices_inputoutput.HdmiCecSource.Control.{
  Frames, receive_all, announce, open_connection, cec_enable, close_connection, cec_disable,
}

-- One frame at the given point: the device's answer to GiveDevicePowerStatus.
abbrev pub reply : (point : ℕ) → PowerStatus → (from : ℕ) → Frames
reply point p from i = if i == point then (report_power_status p, from) ∷ [] else []

process-present :
    (p : PowerStatus) (a : ℕ) (s : Source)
    → a < 15
    → is_present (process (report_power_status p) a s) a ≡ true
unfolding process add_device add_new
process-present p a s h = ground arith

-- A device that answers the GiveDevicePowerStatus of CECEnable before that sets the number of devices
-- to 0 is in the list of devices afterwards, and not counted; and a device whose frame comes while
-- CECDisable has removed the devices and has not closed the connection is in the list while CEC is
-- disabled.
pub frames_in_calls_are_missed :
    (own : Option PhysicalAddress) (addr : Option (ℕ × ℕ)) (p : PowerStatus) (run : Bool) (a : ℕ)
    (off on : Source)
    → off.cec_enable_status ≡ false
    → on.cec_enable_status ≡ true
    → on.connected ≡ true
    → a < 15
    → let enabled = cec_enable (reply 2 p a) own addr off in
      let disabled = cec_disable (reply 1 p a) run on in
      (is_present enabled a ≡ true)
      × (enabled.number_of_devices ≡ pos 0)
      × (is_present disabled a ≡ true)
      × (disabled.cec_enable_status ≡ false)
unfolding cec_enable open_connection announce receive_all cec_disable close_connection
frames_in_calls_are_missed own addr p run a off on e f c h = (
  simp e (process-present p a _ h),
  simp e refl,
  simp (f, c) (process-present p a _ h),
  simp (f, c) refl,
)
