-- ===== src/HdmiCecSource/Poll/Answers.antt =====
-- What a round of the poll thread makes of the answers, and when the update thread stops asking.
use entservices_inputoutput.Base.{
  ℕ, zero, suc, ◌+◌, ◌≤◌, ◌<◌, ◌≡◌, ◌≢◌, refl, Bool, true, false, arith, ◌==◌, if◌then◌else◌,
  Bool-cases, inl, inr,
}
use entservices_inputoutput.HdmiCecSink.Types.{unregistered}
use entservices_inputoutput.HdmiCecSource.State.{Source, is_present}
use entservices_inputoutput.HdmiCecSource.Devices.{add_device, remove_device}
use entservices_inputoutput.HdmiCecSource.Poll.{
  Ping, acknowledged, no_ack_exception, io_exception, other_exception, ping_device, poll_from,
  poll_round, is_offline, ask_round, ask_rounds,
}

abbrev pub after_ping : Ping → Bool → Bool
after_ping acknowledged old = true
after_ping no_ack_exception old = false
after_ping io_exception old = old
after_ping other_exception old = true

ping_device-present :
    (p : Ping) (a b : ℕ) (s : Source)
    → is_offline s ≡ false
    → b ≢ s.logical_address
    → b < 15
    → (is_present (ping_device p b s).0 a
        ≡ (if b == a then after_ping p (is_present s a) else is_present s a))
      × (is_offline (ping_device p b s).0 ≡ false)
      × ((ping_device p b s).0.logical_address ≡ s.logical_address)
unfolding ping_device add_device remove_device
ping_device-present acknowledged a b s o n l = ground arith
ping_device-present no_ack_exception a b s o n l = ground arith
ping_device-present io_exception a b s o n l = ground arith
ping_device-present other_exception a b s o n l = ground arith

ping_device-own : (p : Ping) (s : Source) → ping_device p s.logical_address s ≡ (s, false)
unfolding ping_device
ping_device-own p s = ground arith

-- A round changes nothing about an address that it does not reach.
poll_from-before :
    (answer : ℕ → Ping) (a i k : ℕ) (s : Source)
    → is_offline s ≡ false
    → a < i
    → i + k < 16
    → is_present (poll_from answer i k s).0 a ≡ is_present s a
unfolding poll_from
poll_from-before answer a i zero s o l h = refl
poll_from-before answer a i (suc k) s o l h = elim (Bool-cases (i == s.logical_address)) [
  | inl e ↦ ground (arith, ping_device-own (answer i) s, poll_from-before answer a (suc i) k s o)
  | inr e ↦
      (let (here, online, own) =
          ping_device-present (answer i) a i s o (ground arith) (omega arith) in
        ground
          (arith, here, poll_from-before answer a (suc i) k (ping_device (answer i) i s).0 online))
]

poll_from-answers :
    (answer : ℕ → Ping) (a i k : ℕ) (s : Source)
    → is_offline s ≡ false
    → a ≢ s.logical_address
    → i ≤ a
    → a < i + k
    → i + k < 16
    → is_present (poll_from answer i k s).0 a ≡ after_ping (answer a) (is_present s a)
unfolding poll_from
poll_from-answers answer a i zero s o n l m h = absurd (omega arith)
poll_from-answers answer a i (suc k) s o n l m h = elim (Bool-cases (i == s.logical_address)) [
  | inl e ↦ ground (arith, ping_device-own (answer i) s, poll_from-answers answer a (suc i) k s o n)
  | inr e ↦
      (let (here, online, own) =
          ping_device-present (answer i) a i s o (ground arith) (omega arith) in
        ground (
          arith,
          here,
          own,
          poll_from-before answer a (suc i) k (ping_device (answer i) i s).0 online,
          poll_from-answers answer a (suc i) k (ping_device (answer i) i s).0 online,
        ))
]

-- After a round of the poll thread, with CEC enabled, a connection and an address, every address
-- below 15 other than the own one is present if it acknowledged its ping or the ping failed with an
-- exception that is neither CECNoAckException nor IOException, absent if nobody acknowledged, and as
-- before on an IOException.
pub polled_as_answered :
    (answer : ℕ → Ping) (a : ℕ) (s : Source)
    → is_offline s ≡ false
    → a ≢ s.logical_address
    → a < 15
    → is_present (poll_round answer s).0 a ≡ after_ping (answer a) (is_present s a)
unfolding poll_round
polled_as_answered answer a s o n h =
    poll_from-answers answer a 0 unregistered s o n (omega arith) (omega arith) (omega arith)

-- The update thread gives up on a device before its passes are over only if the device has told both
-- its name and its vendor id, whatever happens in its sleeps.
pub asks_until_known :
    (sleep : ℕ → Source → Source) (a k : ℕ) (s : Source)
    → (ask_rounds sleep a k s).1 ≡ false
    → (((ask_rounds sleep a k s).0.device_list a).is_osd_name_updated ≡ true)
      × (((ask_rounds sleep a k s).0.device_list a).is_vendor_id_updated ≡ true)
unfolding ask_rounds
asks_until_known sleep a zero s e = cc
asks_until_known sleep a (suc k) s e =
    ground (arith, asks_until_known sleep a k (ask_round (sleep k) a s).0)
