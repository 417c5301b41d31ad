-- ===== src/HdmiCecSource/Runs/Changes.antt =====
-- The operations that add or remove a device keep the source sound.
use entservices_inputoutput.Base.{
  ℕ, zero, suc, ◌+◌, ◌≤◌, ◌<◌, ◌≡◌, Bool, true, false, not, ◌||◌, arith, ◌==◌, if◌then◌else◌,
  Bool-cases, inl, inr, ◌∙◌, sym, leb,
}
use entservices_inputoutput.HdmiCecSink.Types.{unregistered}
use entservices_inputoutput.HdmiCecSink.Devices.Count.{others_below-change}
use entservices_inputoutput.HdmiCecSource.State.{
  Source, is_present, on_device_added, on_device_removed,
}
use entservices_inputoutput.HdmiCecSource.Devices.{add_new, add_device, remove_device, remove_from}
use entservices_inputoutput.HdmiCecSource.Poll.{
  Ping, ping_device, poll_from, poll_round, is_offline,
}
use entservices_inputoutput.HdmiCecSource.Runs.View.{view-notify_each}
use entservices_inputoutput.HdmiCecSource.Runs.Quiet.{
  IsSound, IsQuiet-IsSound, request_cec_dev_details-IsQuiet,
}

add_new-IsSound :
    (c : ℕ) (calm : Bool) (a : ℕ) (s : Source)
    → a < 15
    → (calm ≡ true → s.cec_enable_status ≡ true)
    → IsSound c calm s
    → IsSound c calm (add_new a s)
unfolding add_new
add_new-IsSound c calm a s h e k = elim (Bool-cases (is_present s a)) [
  | inl p ↦ rw p k
  | inr p ↦ record {
    registered = ground (arith, k.registered);
    mirrored = λ b. ground (
      arith,
      view-notify_each c s.clients (on_device_added a) s.log b,
      k.registered,
      k.mirrored b,
    );
    counted = λ q. ground (
      arith,
      k.counted q,
      others_below-change 15 a (is_present s) (is_present (add_new a s)) (λ i m. ground arith) 15 h,
    );
    absent = λ b l. ground (arith, k.absent b l);
    idle = λ q f b. ground (arith, e q);
    joined = λ q. ground (arith, k.joined q);
  }
]

pub add_device-IsSound :
    (c : ℕ) (calm : Bool) (a : ℕ) (s : Source)
    → (calm ≡ true → s.cec_enable_status ≡ true)
    → IsSound c calm s
    → IsSound c calm (add_device a s)
unfolding add_device
add_device-IsSound c calm a s e k = elim (Bool-cases (leb unregistered a)) [
  | inl p ↦ rw p k
  | inr p ↦ rw p (
      IsQuiet-IsSound c calm _ _ (request_cec_dev_details-IsQuiet a (add_new a s))
        (add_new-IsSound c calm a s (ground arith) e k))
]

remove_device-enabled :
    (a : ℕ) (s : Source) → (remove_device a s).cec_enable_status ≡ s.cec_enable_status
unfolding remove_device
remove_device-enabled a s = ground arith

add_device-enabled : (a : ℕ) (s : Source) → (add_device a s).cec_enable_status ≡ s.cec_enable_status
unfolding add_device
add_device-enabled a s = ground arith

pub remove_device-IsSound :
    (c : ℕ) (calm : Bool) (a : ℕ) (s : Source)
    → IsSound c calm s
    → IsSound c calm (remove_device a s)
unfolding remove_device
remove_device-IsSound c calm a s k =
    elim (Bool-cases (leb unregistered a || not (is_present s a))) [
      | inl p ↦ ground (arith, k)
      | inr p ↦ record {
        registered = ground (arith, k.registered);
        mirrored = λ b. ground (
          arith,
          view-notify_each c s.clients (on_device_removed a) s.log b,
          k.registered,
          k.mirrored b,
        );
        counted = λ q. ground (
          arith,
          k.counted q,
          others_below-change 15 a (is_present s) (is_present (remove_device a s))
              (λ i m. ground arith) 15,
        );
        absent = λ b l. ground (arith, k.absent b l);
        idle = λ q f b. ground (arith, k.idle q (sym (remove_device-enabled a s) ∙ f) b);
        joined = λ q. ground (arith, k.joined q);
      }
    ]

-- Devices are found only while CEC is enabled.
ping_device-IsSound :
    (c : ℕ) (calm : Bool) (p : Ping) (a : ℕ) (s : Source)
    → IsSound c calm s
    → IsSound c calm (ping_device p a s).0
unfolding ping_device
ping_device-IsSound c calm p a s k = elim (Bool-cases (a == s.logical_address || is_offline s)) [
  | inl e ↦ ground (arith, k)
  | inr e ↦ ground (
    arith,
    k,
    add_device-IsSound c calm a s (λ q. ground arith) k,
    remove_device-IsSound c calm a s k,
  )
]

poll_from-IsSound :
    (c : ℕ) (calm : Bool) (answer : ℕ → Ping) (i n : ℕ) (s : Source)
    → IsSound c calm s
    → IsSound c calm (poll_from answer i n s).0
unfolding poll_from
poll_from-IsSound c calm answer i zero s k = k
poll_from-IsSound c calm answer i (suc n) s k =
    poll_from-IsSound c calm answer (suc i) n (ping_device (answer i) i s).0
      (ping_device-IsSound c calm (answer i) i s k)

pub poll_round-IsSound :
    (c : ℕ) (calm : Bool) (answer : ℕ → Ping) (s : Source)
    → IsSound c calm s
    → IsSound c calm (poll_round answer s).0
unfolding poll_round
poll_round-IsSound c calm answer s k = poll_from-IsSound c calm answer 0 unregistered s k

pub remove_from-IsSound :
    (c : ℕ) (calm : Bool) (i n : ℕ) (s : Source)
    → IsSound c calm s
    → IsSound c calm (remove_from i n s)
unfolding remove_from
remove_from-IsSound c calm i zero s k = k
remove_from-IsSound c calm i (suc n) s k =
    remove_from-IsSound c calm (i + 1) n (remove_device i s) (remove_device-IsSound c calm i s k)

remove_device-absent :
    (a b : ℕ) (s : Source)
    → a < 15
    → is_present (remove_device a s) b ≡ (if a == b then false else is_present s b)
unfolding remove_device
remove_device-absent a b s h = ground arith

pub remove_from-absent :
    (i n b : ℕ) (s : Source)
    → i + n < 16
    → (i ≤ b → b < i + n → is_present (remove_from i n s) b ≡ false)
      × (is_present s b ≡ false → is_present (remove_from i n s) b ≡ false)
unfolding remove_from
remove_from-absent i zero b s h = (λ l m. absurd (omega arith), λ e. e)
remove_from-absent i (suc n) b s h =
    let (inside, kept) = remove_from-absent (i + 1) n b (remove_device i s) (omega arith) in
    (
      λ l m. elim (Bool-cases (i == b)) [
        | inl e ↦ kept (remove_device-absent i b s (omega arith) ∙ ground arith)
        | inr e ↦ inside (ground arith) (omega arith)
      ],
      λ e. kept (remove_device-absent i b s (omega arith) ∙ ground arith),
    )
