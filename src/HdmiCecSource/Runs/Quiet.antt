-- ===== src/HdmiCecSource/Runs/Quiet.antt =====
-- A sound source, and the operations that neither add nor remove a device.
use mathlib.Core.Path.{fun_ext}
use entservices_inputoutput.Base.{
  ℕ, ◌≤◌, ◌≡◌, refl, Bool, true, false, List, String, pos, arith, if◌then◌else◌, ◌∙◌, sym,
}
use entservices_inputoutput.HdmiCecSink.Types.{PhysicalAddress, PowerStatus}
use entservices_inputoutput.HdmiCecSink.Devices.Count.{others_below}
use entservices_inputoutput.HdmiCecSource.State.{
  Source, DeviceInfo, update_info, Event, notify, is_present,
}
use entservices_inputoutput.HdmiCecSource.Devices.{
  request_osd_name, request_vendor_id, request_cec_dev_details, send_unencrypt_msg,
}
use entservices_inputoutput.HdmiCecSource.Devices
use entservices_inputoutput.HdmiCecSource.Messages.{
  send_device_update_info, take_active_address, on_set_osd_name, on_device_vendor_id, take_tv_power,
}
use entservices_inputoutput.HdmiCecSource.Control.{is_registered}
use entservices_inputoutput.HdmiCecSource.Runs.View.{view, heard, view-notify_each}

-- The client `c`, which is registered, knows of exactly the devices that are there, and none is there
-- under the address 15. If the run was calm, `numberofdevices` counts the devices that are there, none
-- is there while CEC is disabled, and the connection is there while CEC is enabled.
pub record IsSound (c : ℕ) (calm : Bool) (s : Source) : Type 0 where
  pub registered : is_registered c s.clients ≡ true
  pub mirrored : (a : ℕ) → view c s.log a ≡ is_present s a
  pub counted : calm ≡ true → s.number_of_devices ≡ pos (others_below 15 15 (is_present s))
  pub absent : (a : ℕ) → 15 ≤ a → is_present s a ≡ false
  pub idle : calm ≡ true → s.cec_enable_status ≡ false → (a : ℕ) → is_present s a ≡ false
  pub joined : calm ≡ true → s.connected ≡ s.cec_enable_status

-- Nothing of this has changed.
pub record IsQuiet (s t : Source) : Type 0 where
  pub present : is_present t ≡ is_present s
  pub number : t.number_of_devices ≡ s.number_of_devices
  pub clients : t.clients ≡ s.clients
  pub enabled : t.cec_enable_status ≡ s.cec_enable_status
  pub connected : t.connected ≡ s.connected
  pub known : (c a : ℕ) → view c t.log a ≡ view c s.log a

pub IsQuiet-IsSound :
    (c : ℕ) (calm : Bool) (s t : Source) → IsQuiet s t → IsSound c calm s → IsSound c calm t
IsQuiet-IsSound c calm s t q k = record {
  registered = rw q.clients k.registered;
  mirrored = λ a. rw (q.present, q.known c a) (k.mirrored a);
  counted = λ f. rw (q.present, q.number) (k.counted f);
  absent = rw q.present k.absent;
  idle = λ f h a. rw q.present (k.idle f (sym q.enabled ∙ h) a);
  joined = λ f. rw (q.enabled, q.connected) (k.joined f);
}

pub IsQuiet-trans : {s t u : Source} → IsQuiet s t → IsQuiet t u → IsQuiet s u
IsQuiet-trans q r = record {
  present = r.present ∙ q.present;
  number = r.number ∙ q.number;
  clients = r.clients ∙ q.clients;
  enabled = r.enabled ∙ q.enabled;
  connected = r.connected ∙ q.connected;
  known = λ c a. r.known c a ∙ q.known c a;
}

-- An event that is about no device's coming or going.
notify-IsQuiet :
    (e : Event) (s : Source) → ((a : ℕ) (v : Bool) → heard e a v ≡ v) → IsQuiet s (notify e s)
notify-IsQuiet e s h = record {
  present = refl;
  number = refl;
  clients = refl;
  enabled = refl;
  connected = refl;
  known = λ c a. ground (arith, view-notify_each c s.clients e s.log a, h a (view c s.log a));
}

pub request_osd_name-IsQuiet : (a : ℕ) (s : Source) → IsQuiet s (request_osd_name a s)
unfolding request_osd_name view
request_osd_name-IsQuiet a s = ground arith

pub request_vendor_id-IsQuiet : (a : ℕ) (s : Source) → IsQuiet s (request_vendor_id a s)
unfolding request_vendor_id view
request_vendor_id-IsQuiet a s = ground arith

pub request_cec_dev_details-IsQuiet : (a : ℕ) (s : Source) → IsQuiet s (request_cec_dev_details a s)
unfolding request_cec_dev_details view
request_cec_dev_details-IsQuiet a s = ground arith

pub take_active_address-IsQuiet :
    (a : PhysicalAddress) (s : Source) → IsQuiet s (take_active_address a s)
unfolding take_active_address
take_active_address-IsQuiet a s =
    IsQuiet-trans
      (record {
        present = refl;
        number = refl;
        clients = refl;
        enabled = refl;
        connected = refl;
        known = λ c b. refl;
      })
      (notify-IsQuiet _ _ (λ b v. refl))

info-IsQuiet :
    (a : ℕ) (f : DeviceInfo → DeviceInfo) (s : Source)
    → (f (s.device_list a)).is_present ≡ (s.device_list a).is_present
    → IsQuiet s (update_info a f s)
info-IsQuiet a f s h = record {
  present = fun_ext (λ i. ground arith);
  number = refl;
  clients = refl;
  enabled = refl;
  connected = refl;
  known = λ c b. refl;
}

tell-IsQuiet :
    (b : Bool) (a : ℕ) (s t : Source)
    → IsQuiet s t
    → IsQuiet s (if b then send_device_update_info a t else t)
unfolding send_device_update_info
tell-IsQuiet true a s t q = IsQuiet-trans q (notify-IsQuiet _ _ (λ b v. refl))
tell-IsQuiet false a s t q = q

pub on_set_osd_name-IsQuiet : (a : ℕ) (n : String) (s : Source) → IsQuiet s (on_set_osd_name a n s)
unfolding on_set_osd_name
on_set_osd_name-IsQuiet a n s =
    tell-IsQuiet _ a s _ (info-IsQuiet a (Devices.set_osd_name n) s refl)

pub on_device_vendor_id-IsQuiet :
    (a : ℕ) (v : List ℕ) (s : Source) → IsQuiet s (on_device_vendor_id a v s)
unfolding on_device_vendor_id
on_device_vendor_id-IsQuiet a v s =
    tell-IsQuiet _ a s _ (info-IsQuiet a (Devices.set_vendor_id v) s refl)

pub take_tv_power-IsQuiet : (a : ℕ) (p : PowerStatus) (s : Source) → IsQuiet s (take_tv_power a p s)
unfolding take_tv_power
take_tv_power-IsQuiet a p s = ground arith

pub event-IsQuiet :
    (e : Event) (s : Source) → ((a : ℕ) (v : Bool) → heard e a v ≡ v) → IsQuiet s (notify e s)
event-IsQuiet e s h = notify-IsQuiet e s h
