-- ===== src/HdmiCecSource/Control/Shown.antt =====
-- Whether the box is shown: the frames that say so, and one touch play. The vendor id that it reports.
use entservices_inputoutput.Base.{
  ℕ, ◌≡◌, Bool, true, false, ◌&&◌, Option, none, some, List, ◌∷◌, arith, if◌then◌else◌,
}
use entservices_inputoutput.HdmiCecSink.Types.{PhysicalAddress, same_address, broadcast, tv_address}
use entservices_inputoutput.HdmiCecSource.State.{
  Source, Output, sent, device_vendor_id, report_physical_address, lg_vendor_id, image_view_on,
  give_device_power_status,
}
use entservices_inputoutput.HdmiCecSource.State
use entservices_inputoutput.HdmiCecSource.Messages.{Message, process, take_active_address}
use entservices_inputoutput.HdmiCecSource.Messages
use entservices_inputoutput.HdmiCecSource.Devices.{add_device}
use entservices_inputoutput.HdmiCecSource.Control.{on_hdmi_hot_plug, perform_otp_action}

-- The messages that tell which device is shown, with its address.
abbrev pub shown_by : Message → Option PhysicalAddress
shown_by (Messages.active_source a) = some a
shown_by (Messages.routing_change a b) = some b
shown_by (Messages.routing_information a) = some a
shown_by (Messages.set_stream_path a) = some a
shown_by _ = none

add_device-flag :
    (a : ℕ) (s : Source)
    → ((add_device a s).is_active_source ≡ s.is_active_source)
      × ((add_device a s).physical_addr ≡ s.physical_addr)
unfolding add_device
add_device-flag a s = (ground arith, ground arith)

-- After a message that tells which address is shown, the box answers a RequestActiveSource, with its
-- address by broadcast, exactly if that address is its own; else it stays silent.
pub answers_if_shown :
    (m : Message) (a : PhysicalAddress) (from asker : ℕ) (s : Source)
    → shown_by m ≡ some a
    → let t = process m from s in
      (process Messages.request_active_source asker t).log ≡ (
        if same_address a s.physical_addr
        then sent broadcast (State.active_source s.physical_addr) ∷ t.log
        else t.log)
unfolding process take_active_address
answers_if_shown (Messages.active_source b) a from asker s e =
    ground (arith, add_device-flag from (take_active_address b s))
answers_if_shown (Messages.routing_change b d) a from asker s e = ground arith
answers_if_shown (Messages.routing_information b) a from asker s e = ground arith
answers_if_shown (Messages.set_stream_path b) a from asker s e = ground arith
answers_if_shown _ a from asker s e = cc

-- PerformOTPAction succeeds exactly if CEC and its setting are on, there is a connection and all
-- three sends return; then it has sent ImageViewOn to the TV, its address by broadcast and
-- GiveDevicePowerStatus to the TV, in this order, and the box counts as shown.
pub one_touch_play_succeeds :
    (sends : ℕ → Bool) (s : Source)
    → let (t, success) = perform_otp_action sends s in
      (success ≡ (
        (s.cec_enable_status && (s.otp_setting_enabled && s.connected))
        && (sends 0 && (sends 1 && sends 2))))
      × (t ≡ (
          if success
          then record s {
            is_active_source = true;
            log =
                sent tv_address give_device_power_status
                ∷ sent broadcast (State.active_source s.physical_addr)
                ∷ sent tv_address image_view_on
                ∷ s.log;
          }
          else t))
unfolding perform_otp_action
one_touch_play_succeeds sends s = ground arith

-- If only the last of the three sends throws, PerformOTPAction reports a failure, although the box
-- has sent its address as the active source and counts as shown; and no client is told of that.
failed_play_is_shown :
    (sends : ℕ → Bool) (s : Source)
    → s.cec_enable_status ≡ true
    → s.otp_setting_enabled ≡ true
    → s.connected ≡ true
    → sends 0 ≡ true
    → sends 1 ≡ true
    → sends 2 ≡ false
    → perform_otp_action sends s ≡ (
      record s {
        is_active_source = true;
        log =
            sent broadcast (State.active_source s.physical_addr)
            ∷ sent tv_address image_view_on
            ∷ s.log;
      },
      false,
    )
unfolding perform_otp_action
failed_play_is_shown sends s e o c x y z = ground arith

-- Once an LG TV has been connected, the box reports LG's vendor id to every TV that is connected
-- later, whatever its EDID.
lg_vendor_id_stays :
    (own : Option PhysicalAddress) (addr : Option (ℕ × ℕ)) (edid : Option (List ℕ)) (s : Source)
    → s.cec_enable_status ≡ true
    → s.connected ≡ true
    → s.is_lg_tv ≡ true
    → let t = on_hdmi_hot_plug 0 own addr edid s in
      (t.is_lg_tv ≡ true)
      × (t.log
          ≡ sent broadcast (device_vendor_id lg_vendor_id)
            ∷ sent broadcast (report_physical_address t.physical_addr t.logical_address)
            ∷ s.log)
unfolding on_hdmi_hot_plug
lg_vendor_id_stays own addr edid s e c l = (ground arith, ground arith)
