-- ===== src/HdmiCecSource/Poll.antt =====
-- pingDeviceUpdateList, and the rounds of the threads threadRun and threadUpdateCheck. What the bus
-- answers is an argument; so is what happens while a thread sleeps.
pub mod Answers
use entservices_inputoutput.Base.{
  ℕ, zero, suc, ◌+◌, Bool, true, false, not, ◌&&◌, ◌||◌, List, [], ◌∷◌, ◌==◌, if◌then◌else◌,
}
use entservices_inputoutput.HdmiCecSink.Types.{unregistered}
use entservices_inputoutput.HdmiCecSource.State.{Source, DeviceInfo, is_present}
use entservices_inputoutput.HdmiCecSource.Devices.{
  add_device, remove_device, request_osd_name, request_vendor_id,
}

-- How the library's ping ends: it returns, or throws one of the three exceptions that are caught.
pub data Ping : Type 0 where
  acknowledged no_ack_exception io_exception other_exception : Ping

unfoldable pub is_offline : Source → Bool
is_offline s = not s.connected || (s.logical_address == unregistered || not s.cec_enable_status)

-- From the acknowledgement on, which the last catch block falls through to.
unfoldable pub found_device : ℕ → Source → Source × Bool
found_device a s = (if is_present s a then s else add_device a s, true)

unfoldable pub lost_device : ℕ → Source → Source × Bool
lost_device a s = (if is_present s a then remove_device a s else s, false)

abbrev pub ping_ended : Ping → ℕ → Source → Source × Bool
ping_ended acknowledged a s = found_device a s
ping_ended no_ack_exception a s = lost_device a s
ping_ended io_exception a s = (s, false)
ping_ended other_exception a s = found_device a s

-- pingDeviceUpdateList.
unfoldable pub ping_device : Ping → ℕ → Source → Source × Bool
unfolding is_offline found_device lost_device
ping_device p a s =
    if a == s.logical_address
    then (s, false)
    else (if is_offline s then (s, false) else ping_ended p a s)

-- The loop of `threadRun`, for `k` addresses from `i` on; the flag is `isActivateUpdateThread`.
unfoldable pub poll_from : (ℕ → Ping) → (i k : ℕ) → Source → Source × Bool
poll_from answer i zero s = (s, false)
poll_from answer i (suc k) s =
    let (t, here) = ping_device (answer i) i s in
    let (u, rest) = poll_from answer (suc i) k t in (u, here || rest)

unfoldable pub poll_round : (ℕ → Ping) → Source → Source × Bool
unfolding poll_from
poll_round answer s = poll_from answer 0 unregistered s

-- threadUpdateCheck for one device: `sleep n` is what the other threads do in the n-th sleep of two
-- seconds. The flag is `retry`, and `k` are the passes that are left, 5 at first.
unfoldable pub ask_osd_name : (Source → Source) → ℕ → Source → Source × Bool
ask_osd_name sleep a s =
    if (s.device_list a).is_osd_name_updated
    then (s, false)
    else (request_osd_name a (sleep s), true)

unfoldable pub ask_vendor_id : (Source → Source) → ℕ → Source × Bool → Source × Bool
ask_vendor_id sleep a (s, retry) =
    if (s.device_list a).is_vendor_id_updated
    then (s, retry)
    else (request_vendor_id a (sleep s), true)

unfoldable pub ask_round : (Source → Source) → ℕ → Source → Source × Bool
unfolding ask_osd_name ask_vendor_id
ask_round sleep a s = ask_vendor_id sleep a (ask_osd_name sleep a s)

unfoldable pub ask_rounds : (ℕ → Source → Source) → ℕ → (k : ℕ) → Source → Source × Bool
unfolding ask_round
ask_rounds sleep a zero s = (s, true)
ask_rounds sleep a (suc k) s =
    let (t, retry) = ask_round (sleep k) a s in
    let again = ask_rounds sleep a k t in if retry then again else (t, false)

-- The devices from `i` on, `k` of them; a thread that is told to exit stops before the next.
unfoldable pub update_from : (ℕ → ℕ → Source → Source) → (i k : ℕ) → Source → Source
update_from sleep i zero s = s
update_from sleep i (suc k) s =
    let t = if is_present s i then (ask_rounds (sleep i) i 5 s).0 else s in
    let rest = update_from sleep (suc i) k t in if s.update_exit then s else rest

unfoldable pub update_check : (ℕ → ℕ → Source → Source) → Source → Source
unfolding update_from
update_check sleep s = update_from sleep 0 unregistered s
