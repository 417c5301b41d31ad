-- ===== src/HdmiCecSource/Runs/Received.antt =====
-- A frame keeps the source sound, at whatever point it comes.
use entservices_inputoutput.Base.{ℕ, ◌≡◌, refl, Bool, true, false, List, [], ◌∷◌, arith, ◌∙◌}
use entservices_inputoutput.HdmiCecSink.Types.{PhysicalAddress}
use entservices_inputoutput.HdmiCecSource.State.{Source}
use entservices_inputoutput.HdmiCecSource.Devices.{add_device}
use entservices_inputoutput.HdmiCecSource.Messages.{
  Message, process, take_active_address, take_tv_power, send_standby_msg_event,
  send_key_press_msg_event, send_key_release_msg_event,
}
use entservices_inputoutput.HdmiCecSource.Messages
use entservices_inputoutput.HdmiCecSource.Control.{receive_all}
use entservices_inputoutput.HdmiCecSource.Runs.View.{view}
use entservices_inputoutput.HdmiCecSource.Runs.Quiet.{
  IsSound, IsQuiet, IsQuiet-IsSound, take_active_address-IsQuiet, on_set_osd_name-IsQuiet,
  on_device_vendor_id-IsQuiet, take_tv_power-IsQuiet, event-IsQuiet,
}
use entservices_inputoutput.HdmiCecSource.Runs.Changes.{add_device-IsSound}

take_active_address-enabled :
    (a : PhysicalAddress) (s : Source)
    → (take_active_address a s).cec_enable_status ≡ s.cec_enable_status
unfolding take_active_address
take_active_address-enabled a s = refl

pub process-IsSound :
    (c : ℕ) (calm : Bool) (m : Message) (from : ℕ) (s : Source)
    → (calm ≡ true → s.cec_enable_status ≡ true)
    → IsSound c calm s
    → IsSound c calm (process m from s)
unfolding process view send_standby_msg_event send_key_press_msg_event send_key_release_msg_event
process-IsSound c calm m from s e k = go m
  where
    added : IsSound c calm (add_device from s)
    added = add_device-IsSound c calm from s e k

    quiet : (t : Source) → IsQuiet s t → IsSound c calm t
    quiet t q = IsQuiet-IsSound c calm s t q k

    go : (m : Message) → IsSound c calm (process m from s)
    go (Messages.active_source pa) =
        add_device-IsSound c calm from _ (λ q. take_active_address-enabled pa s ∙ e q)
          (quiet _ (take_active_address-IsQuiet pa s))
    go Messages.image_view_on = added
    go Messages.text_view_on = added
    go (Messages.cec_version v) = added
    go (Messages.report_physical_address pa t) = added
    go (Messages.report_power_status p) =
        add_device-IsSound c calm from _ (λ q. (take_tv_power-IsQuiet from p s).enabled ∙ e q)
          (quiet _ (take_tv_power-IsQuiet from p s))
    go Messages.standby = quiet _ (event-IsQuiet _ s (λ a v. refl))
    go (Messages.set_osd_name n) = quiet _ (on_set_osd_name-IsQuiet from n s)
    go (Messages.device_vendor_id v) = quiet _ (on_device_vendor_id-IsQuiet from v s)
    go (Messages.routing_change a b) = quiet _ (take_active_address-IsQuiet b s)
    go (Messages.routing_information a) = quiet _ (take_active_address-IsQuiet a s)
    go (Messages.set_stream_path a) = quiet _ (take_active_address-IsQuiet a s)
    go (Messages.user_control_pressed n) = quiet _ (event-IsQuiet _ s (λ a v. refl))
    go Messages.user_control_released = quiet _ (event-IsQuiet _ s (λ a v. refl))
    go Messages.request_active_source = quiet _ (ground arith)
    go Messages.get_cec_version = quiet _ (ground arith)
    go Messages.give_osd_name = quiet _ (ground arith)
    go Messages.give_physical_address = quiet _ (ground arith)
    go Messages.give_device_vendor_id = quiet _ (ground arith)
    go Messages.give_device_power_status = quiet _ (ground arith)
    go Messages.abort = quiet _ (ground arith)
    go _ = k

pub receive_all-IsSound :
    (c : ℕ) (ms : List (Message × ℕ)) (s : Source)
    → IsSound c false s
    → IsSound c false (receive_all ms s)
unfolding receive_all
receive_all-IsSound c [] s k = k
receive_all-IsSound c ((m, from) ∷ ms) s k =
    receive_all-IsSound c ms (process m from s) (process-IsSound c false m from s (λ q. cc) k)
