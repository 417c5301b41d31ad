-- ===== src/HdmiCecSource/Runs/Invariant.antt =====
-- Every step keeps the source sound, and with them every run.
use entservices_inputoutput.Base.{
  ℕ, zero, suc, ◌+◌, ◌≡◌, refl, Bool, true, false, List, Option, pos, arith, length, ap, ◌∙◌, sym,
}
use entservices_inputoutput.HdmiCecSink.Devices.Count.{others_below, one_if}
use entservices_inputoutput.HdmiCecSource.State.{Source, is_present, Settings, init_source}
use entservices_inputoutput.HdmiCecSource.Control.{is_registered, devices_from, get_device_list}
use entservices_inputoutput.HdmiCecSource.Runs.{
  SourceStep, receives, polls, asks_osd_name, asks_vendor_id, sends_key, posts_key, sets_enabled,
  sets_otp_enabled, sets_osd_name, sets_vendor_id, powers, hot_plugs, sends_standby, plays, Reaches,
  start, and_then,
}
use entservices_inputoutput.HdmiCecSource.Runs.View.{view}
use entservices_inputoutput.HdmiCecSource.Runs.Quiet.{
  IsSound, IsQuiet-IsSound, request_osd_name-IsQuiet, request_vendor_id-IsQuiet,
}
use entservices_inputoutput.HdmiCecSource.Runs.Calls.{
  key_round-IsQuiet, post_key-IsQuiet, set_otp_enabled-IsQuiet, set_osd_name-IsQuiet,
  set_vendor_id-IsQuiet, on_power_mode_changed-IsQuiet, on_hdmi_hot_plug-IsQuiet,
  send_standby_message-IsQuiet, perform_otp_action-IsQuiet,
}
use entservices_inputoutput.HdmiCecSource.Runs.Received.{process-IsSound}
use entservices_inputoutput.HdmiCecSource.Runs.Changes.{poll_round-IsSound}
use entservices_inputoutput.HdmiCecSource.Runs.Lifecycle.{others_below-absent, set_enabled-IsSound}

SourceStep-IsSound :
    (c : ℕ) (calm : Bool) {s t : Source} → SourceStep calm s t → IsSound c calm s → IsSound c calm t
SourceStep-IsSound c calm (receives m from s e) k = process-IsSound c calm m from s e k
SourceStep-IsSound c calm (polls answer s) k = poll_round-IsSound c calm answer s k
SourceStep-IsSound c calm (asks_osd_name a s) k =
    IsQuiet-IsSound c calm s _ (request_osd_name-IsQuiet a s) k
SourceStep-IsSound c calm (asks_vendor_id a s) k =
    IsQuiet-IsSound c calm s _ (request_vendor_id-IsQuiet a s) k
SourceStep-IsSound c calm (sends_key s) k = IsQuiet-IsSound c calm s _ (key_round-IsQuiet s) k
SourceStep-IsSound c calm (posts_key i s) k = IsQuiet-IsSound c calm s _ (post_key-IsQuiet i s) k
SourceStep-IsSound c calm (sets_enabled frames b run own addr s f) k =
    set_enabled-IsSound c calm frames b run own addr s f k
SourceStep-IsSound c calm (sets_otp_enabled b s) k =
    IsQuiet-IsSound c calm s _ (set_otp_enabled-IsQuiet b s) k
SourceStep-IsSound c calm (sets_osd_name n s) k =
    IsQuiet-IsSound c calm s _ (set_osd_name-IsQuiet n s) k
SourceStep-IsSound c calm (sets_vendor_id n s) k =
    IsQuiet-IsSound c calm s _ (set_vendor_id-IsQuiet n s) k
SourceStep-IsSound c calm (powers on addr s) k =
    IsQuiet-IsSound c calm s _ (on_power_mode_changed-IsQuiet on addr s) k
SourceStep-IsSound c calm (hot_plugs event own addr edid s) k =
    IsQuiet-IsSound c calm s _ (on_hdmi_hot_plug-IsQuiet event own addr edid s) k
SourceStep-IsSound c calm (sends_standby sends s) k =
    IsQuiet-IsSound c calm s _ (send_standby_message-IsQuiet sends s) k
SourceStep-IsSound c calm (plays sends s) k =
    IsQuiet-IsSound c calm s _ (perform_otp_action-IsQuiet sends s) k

Reaches-IsSound :
    (c : ℕ) (calm : Bool) {s t : Source} → Reaches calm s t → IsSound c calm s → IsSound c calm t
Reaches-IsSound c calm start k = k
Reaches-IsSound c calm (and_then r step) k =
    SourceStep-IsSound c calm step (Reaches-IsSound c calm r k)

init_source-IsSound :
    (c : ℕ) (calm : Bool) (file : Option Settings) (clients : List ℕ)
    → is_registered c clients ≡ true
    → IsSound c calm (init_source file clients)
unfolding view
init_source-IsSound c calm file clients r = record {
  registered = r;
  mirrored = λ a. refl;
  counted = λ q. sym (ap pos (others_below-absent 15 15 (λ a. false) (λ a. refl)));
  absent = λ a h. refl;
  idle = λ q f a. refl;
  joined = λ q. refl;
}

listed_from : Source → (i k : ℕ) → ℕ
listed_from s i zero = 0
listed_from s i (suc k) = one_if (is_present s i) + listed_from s (suc i) k

length-devices_from : (s : Source) (i k : ℕ) → length (devices_from s i k) ≡ listed_from s i k
unfolding devices_from listed_from
length-devices_from s i zero = refl
length-devices_from s i (suc k) = ground (arith, length-devices_from s (suc i) k)

listed-others : (s : Source) → listed_from s 0 15 ≡ others_below 15 15 (is_present s)
unfolding listed_from others_below
listed-others s = omega arith

-- From the start of the plugin, through messages, polls, keys, hot plugs, one touch play, changes of
-- the settings and CEC being enabled and disabled, in any order, with frames processed while CECEnable
-- and CECDisable are under way too: the devices that a client knows of from its notifications are the
-- devices of the list, if it was registered from the start. If the run was calm, no frame having been
-- processed between the opening of the connection and the end of CECEnable, while CECDisable removes
-- the devices and closes it, or while CEC is disabled, the number that GetDeviceList reports is the number of devices
-- that it lists, and no device is there while CEC is disabled.
pub clients_know_devices :
    (c : ℕ) (calm : Bool) (file : Option Settings) (clients : List ℕ) (t : Source)
    → is_registered c clients ≡ true
    → Reaches calm (init_source file clients) t
    → ((a : ℕ) → view c t.log a ≡ is_present t a)
      × (calm ≡ true → t.number_of_devices ≡ pos (length (get_device_list t)))
      × (calm ≡ true → t.cec_enable_status ≡ false → (a : ℕ) → is_present t a ≡ false)
unfolding get_device_list
clients_know_devices c calm file clients t r reaches =
    let k = Reaches-IsSound c calm reaches (init_source-IsSound c calm file clients r) in
    (
      k.mirrored,
      λ q. k.counted q ∙ ap pos (sym (length-devices_from t 0 15 ∙ listed-others t)),
      k.idle,
    )
