-- ===== src/HdmiCecSource/Runs.antt =====
-- What happens to the source, in any order: messages while it listens, the steps of its threads, the
-- hardware's events and the calls of the API.
pub mod View
pub mod Quiet
pub mod Calls
pub mod Changes
pub mod Received
pub mod Lifecycle
pub mod Races
pub mod Invariant
use entservices_inputoutput.Base.{ℕ, Bool, true, Option, List, [], String, ◌≡◌}
use entservices_inputoutput.HdmiCecSink.Types.{PhysicalAddress}
use entservices_inputoutput.HdmiCecSource.State.{Source, SendKeyInfo}
use entservices_inputoutput.HdmiCecSource.Devices.{request_osd_name, request_vendor_id}
use entservices_inputoutput.HdmiCecSource.Messages.{Message, process}
use entservices_inputoutput.HdmiCecSource.Poll.{Ping, poll_round}
use entservices_inputoutput.HdmiCecSource.KeyThread.{
  KeyRound, key_blocked, key_exits, key_goes_on, post_key, key_round,
}
use entservices_inputoutput.HdmiCecSource.Settings.{set_otp_enabled, set_osd_name, set_vendor_id}
use entservices_inputoutput.HdmiCecSource.Control.{
  Frames, set_enabled, on_power_mode_changed, on_hdmi_hot_plug, send_standby_message,
  perform_otp_action,
}

abbrev pub after_round : Source → KeyRound → Source
after_round s key_blocked = s
after_round s (key_exits t) = t
after_round s (key_goes_on t) = t

-- A step; in a calm run no frame is processed while CECEnable and CECDisable are under way, nor while
-- CEC is disabled.
pub data SourceStep (calm : Bool) : Source → Source → Type 0 where
  receives :
      (m : Message) (from : ℕ) (s : Source)
      → (calm ≡ true → s.cec_enable_status ≡ true)
      → SourceStep calm s (process m from s)
  polls : (answer : ℕ → Ping) (s : Source) → SourceStep calm s (poll_round answer s).0
  asks_osd_name : (a : ℕ) (s : Source) → SourceStep calm s (request_osd_name a s)
  asks_vendor_id : (a : ℕ) (s : Source) → SourceStep calm s (request_vendor_id a s)
  sends_key : (s : Source) → SourceStep calm s (after_round s (key_round s))
  posts_key : (k : SendKeyInfo) (s : Source) → SourceStep calm s (post_key k s)
  sets_enabled :
      (frames : Frames) (b run : Bool) (own : Option PhysicalAddress) (addr : Option (ℕ × ℕ))
      (s : Source)
      → (calm ≡ true → (i : ℕ) → frames i ≡ [])
      → SourceStep calm s (set_enabled frames b run own addr s)
  sets_otp_enabled : (b : Bool) (s : Source) → SourceStep calm s (set_otp_enabled b s)
  sets_osd_name : (n : String) (s : Source) → SourceStep calm s (set_osd_name n s)
  sets_vendor_id : (parsed : Option ℕ) (s : Source) → SourceStep calm s (set_vendor_id parsed s)
  powers :
      (on : Bool) (addr : Option (ℕ × ℕ)) (s : Source)
      → SourceStep calm s (on_power_mode_changed on addr s)
  hot_plugs :
      (event : ℕ) (own : Option PhysicalAddress) (addr : Option (ℕ × ℕ)) (edid : Option (List ℕ))
      (s : Source)
      → SourceStep calm s (on_hdmi_hot_plug event own addr edid s)
  sends_standby : (sends : Bool) (s : Source) → SourceStep calm s (send_standby_message sends s).0
  plays : (sends : ℕ → Bool) (s : Source) → SourceStep calm s (perform_otp_action sends s).0

pub data Reaches (calm : Bool) (s : Source) : Source → Type 0 where
  start : Reaches calm s s
  and_then : {t u : Source} → Reaches calm s t → SourceStep calm t u → Reaches calm s u
