-- ===== src/HdmiCecSource/Runs/Calls.antt =====
-- The key thread, the settings, power, hot plug and the calls of the API that neither add nor remove
-- a device.
use entservices_inputoutput.Base.{
  ℕ, refl, Bool, List, Option, String, arith, Option-cases, List-cases, inl, inr,
}
use entservices_inputoutput.HdmiCecSink.Types.{PhysicalAddress}
use entservices_inputoutput.HdmiCecSource.State.{Source, SendKeyInfo}
use entservices_inputoutput.HdmiCecSink.KeyThread.{key_command}
use entservices_inputoutput.HdmiCecSource.KeyThread.{
  key_round, post_key, send_front, send_key_press, send_key_release,
}
use entservices_inputoutput.HdmiCecSource.Settings.{
  set_enabled_setting, set_otp_enabled, set_osd_name, set_vendor_id,
}
use entservices_inputoutput.HdmiCecSource.Control.{
  get_logical_address, on_power_mode_changed, on_hdmi_hot_plug, send_standby_message,
  perform_otp_action,
}
use entservices_inputoutput.HdmiCecSource.Runs.{after_round}
use entservices_inputoutput.HdmiCecSource.Runs.View.{view}
use entservices_inputoutput.HdmiCecSource.Runs.Quiet.{IsQuiet, IsQuiet-trans}

send_key_press-IsQuiet : (k : SendKeyInfo) (s : Source) → IsQuiet s (send_key_press k s)
unfolding send_key_press view
send_key_press-IsQuiet k s = elim (Option-cases (key_command k.key_code)) [
  | inl e ↦ ground arith
  | inr (c, e) ↦ ground arith
]

send_key_release-IsQuiet : (a : ℕ) (s : Source) → IsQuiet s (send_key_release a s)
unfolding send_key_release view
send_key_release-IsQuiet a s = ground arith

send_front-IsQuiet :
    (k : SendKeyInfo) (rest : List SendKeyInfo) (s : Source) → IsQuiet s (send_front k rest s)
unfolding send_front
send_front-IsQuiet k rest s =
    IsQuiet-trans
      (record {
        present = refl;
        number = refl;
        clients = refl;
        enabled = refl;
        connected = refl;
        known = λ c b. refl;
      })
      (IsQuiet-trans (send_key_press-IsQuiet k _) (send_key_release-IsQuiet k.logical_addr _))

pub key_round-IsQuiet : (s : Source) → IsQuiet s (after_round s (key_round s))
unfolding key_round
key_round-IsQuiet s = elim (List-cases s.keys.queue) [
  | inl e ↦ ground arith
  | inr (k, (rest, e)) ↦ ground (arith, send_front-IsQuiet k rest s)
]

pub post_key-IsQuiet : (k : SendKeyInfo) (s : Source) → IsQuiet s (post_key k s)
unfolding post_key
post_key-IsQuiet k s = ground arith

pub set_enabled_setting-IsQuiet : (b : Bool) (s : Source) → IsQuiet s (set_enabled_setting b s)
unfolding set_enabled_setting
set_enabled_setting-IsQuiet b s = ground arith

pub set_otp_enabled-IsQuiet : (b : Bool) (s : Source) → IsQuiet s (set_otp_enabled b s)
unfolding set_otp_enabled
set_otp_enabled-IsQuiet b s = ground arith

pub set_osd_name-IsQuiet : (n : String) (s : Source) → IsQuiet s (set_osd_name n s)
unfolding set_osd_name
set_osd_name-IsQuiet n s = ground arith

pub set_vendor_id-IsQuiet : (n : Option ℕ) (s : Source) → IsQuiet s (set_vendor_id n s)
unfolding set_vendor_id
set_vendor_id-IsQuiet n s = ground arith

pub get_logical_address-IsQuiet :
    (addr : Option (ℕ × ℕ)) (s : Source) → IsQuiet s (get_logical_address addr s)
unfolding get_logical_address
get_logical_address-IsQuiet addr s = ground arith

pub on_power_mode_changed-IsQuiet :
    (on : Bool) (addr : Option (ℕ × ℕ)) (s : Source) → IsQuiet s (on_power_mode_changed on addr s)
unfolding on_power_mode_changed
on_power_mode_changed-IsQuiet on addr s = ground arith

pub on_hdmi_hot_plug-IsQuiet :
    (event : ℕ) (own : Option PhysicalAddress) (addr : Option (ℕ × ℕ)) (edid : Option (List ℕ))
    (s : Source)
    → IsQuiet s (on_hdmi_hot_plug event own addr edid s)
unfolding on_hdmi_hot_plug view
on_hdmi_hot_plug-IsQuiet event own addr edid s = ground arith

pub send_standby_message-IsQuiet :
    (sends : Bool) (s : Source) → IsQuiet s (send_standby_message sends s).0
unfolding send_standby_message view
send_standby_message-IsQuiet sends s = ground arith

pub perform_otp_action-IsQuiet :
    (sends : ℕ → Bool) (s : Source) → IsQuiet s (perform_otp_action sends s).0
unfolding perform_otp_action view
perform_otp_action-IsQuiet sends s = ground arith
