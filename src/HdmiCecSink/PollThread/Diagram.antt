-- ===== src/HdmiCecSink/PollThread/Diagram.antt =====
-- The states of the poll thread.
use entservices_inputoutput.Base.{
  ℕ, zero, suc, ◌+◌, ◌≤◌, ◌<◌, ◌≡◌, ◌≢◌, refl, sym, ◌∙◌, arith, ◌⊎◌, inl, inr, Bool, true, false,
  not, ◌&&◌, ◌||◌, ◌==◌, ltb, if◌then◌else◌, List, [], ◌∷◌, Bool-cases, List-cases, ==_iff,
}
use entservices_inputoutput.HdmiCecSink.Types.{unregistered, broadcast, report_features}
use entservices_inputoutput.HdmiCecSink.State.{
  Sink, PollState, state_none, state_idle, state_poll, state_ping, state_info, state_wait,
  state_clean, state_update, state_exit, not_allocated, send_to,
}
use entservices_inputoutput.HdmiCecSink.Ping.{Answer, ping_devices, allocate_logical_address}
use entservices_inputoutput.HdmiCecSink.Query.{request, request_status}
use entservices_inputoutput.HdmiCecSink.PollThread.{
  Bus, PollThread, LibCall, add_logical_address, set_source, send_features, add_frame_listener,
  send_address, first_incomplete, is_incomplete, is_empty, switch_round, poll_round, join_bus,
  announce_own, announce_address, describe_own, ping_round, info_round, update_round, wait_round,
  refresh_one, refresh_from, after_pings, start_request, check_request,
}

-- Do the calls of the state POLL return, from the frame listener on, from the own entry on, and all?
-- The features are sent with CEC 2.0 only.
abbrev pub announces : (LibCall → Bool) → Bool
announces throws = not (throws add_frame_listener) && not (throws send_address)

abbrev pub announces_own : (LibCall → Bool) → (cec_2_0 : Bool) → Bool
announces_own throws cec_2_0 = not (cec_2_0 && throws send_features) && announces throws

-- Is an address free, and do the calls return?
abbrev pub joins : Bus → Sink → Bool
joins bus s =
    not (not_allocated (allocate_logical_address bus.polled s))
    && (not (bus.throws add_logical_address || bus.throws set_source)
        && announces_own bus.throws s.statics.cec_2_0)

-- The steps that the thread's own code makes, and when it makes them.
pub data Next (bus : Bus) (t : PollThread) : PollState → PollState → Type 0 where
  joined : joins bus t.sink ≡ true → Next bus t state_poll state_ping
  stranded : joins bus t.sink ≡ false → Next bus t state_poll state_exit
  found :
      (a : ℕ) (rest : List ℕ)
      → (ping_devices bus.pinged t.sink).arrived ≡ a ∷ rest
      → Next bus t state_ping state_info
  settled : (ping_devices bus.pinged t.sink).arrived ≡ [] → Next bus t state_ping state_update
  waits_for_answer : t.requested ≢ unregistered → Next bus t state_info state_info
  asks : (i : ℕ) → i < 15 → is_incomplete t.sink i ≡ true → Next bus t state_info state_info
  asked :
      t.requested ≡ unregistered
      → ((i : ℕ) → i < 15 → is_incomplete t.sink i ≡ false)
      → Next bus t state_info state_idle
  refreshed : Next bus t state_update state_idle
  rested : Next bus t state_idle state_ping
  waiting : t.sink.is_hdmi_in_connected ≡ false → Next bus t state_wait state_wait
  plugged : t.sink.is_hdmi_in_connected ≡ true → Next bus t state_wait state_poll
  leaving : Next bus t state_exit state_exit
  unused_none : Next bus t state_none state_none
  unused_clean : Next bus t state_clean state_clean

along : {bus : Bus} {t : PollThread} {p q r : PollState} → Next bus t p q → r ≡ q → Next bus t p r
along n e = rw e n

false_not-true : {b : Bool} → b ≡ false → b ≢ true
false_not-true h k = cc

-- The search for a device that the information is not complete of.
first_incomplete-found :
    (s : Sink) (i k : ℕ)
    → ((j : ℕ) × ((i ≤ j)
          × ((j < i + k) × ((first_incomplete s i k ≡ j) × (is_incomplete s j ≡ true)))))
      ⊎ ((first_incomplete s i k ≡ i + k)
          × ((j : ℕ) → i ≤ j → j < i + k → is_incomplete s j ≡ false))
unfolding first_incomplete
first_incomplete-found s i zero = inr (omega arith, λ j l m. absurd (omega (arith, l, m)))
first_incomplete-found s i (suc k) = elim (Bool-cases (is_incomplete s i)) [
  | inl e ↦ inl (i, (omega arith, (omega arith, (rw e refl, e))))
  | inr e ↦ elim (first_incomplete-found s (suc i) k) [
    | inl (j, (l, (m, (q, r)))) ↦ inl (j, (omega (arith, l), (omega (arith, m), (rw e q, r))))
    | inr (q, r) ↦ inr (
      rw e (omega (arith, q)),
      λ j l m. elim (Bool-cases (i == j)) [
        | inl h ↦ rw (sym ((==_iff i j).0 h)) e
        | inr h ↦ r j (ground (arith, l, h)) (omega (arith, m))
      ],
    )
  ]
]

refresh_one-thread_state :
    (now i : ℕ) (s : Sink) → (refresh_one now i s).poll.thread_state ≡ s.poll.thread_state
unfolding refresh_one
refresh_one-thread_state now i s = ground arith

refresh_from-thread_state :
    (now i k : ℕ) (s : Sink) → (refresh_from now i k s).poll.thread_state ≡ s.poll.thread_state
unfolding refresh_from
refresh_from-thread_state now i zero s = refl
refresh_from-thread_state now i (suc k) s =
    refresh_from-thread_state now (suc i) k (refresh_one now i s) ∙ refresh_one-thread_state now i s

branch-thread_state :
    (b : Bool) (s t : Sink) {p : PollState}
    → (b ≡ true → s.poll.thread_state ≡ p)
    → (b ≡ false → t.poll.thread_state ≡ p)
    → (if b then s else t).poll.thread_state ≡ p
branch-thread_state true s t h k = h refl
branch-thread_state false s t h k = k refl

announce_address-thread_state :
    (throws : LibCall → Bool) (s : Sink)
    → (announce_address throws s).poll.thread_state
      ≡ (if announces throws then state_ping else state_exit)
unfolding announce_address
announce_address-thread_state throws s = ground arith

announce_own-thread_state :
    (throws : LibCall → Bool) (s : Sink)
    → (announce_own throws s).poll.thread_state
      ≡ (if announces_own throws s.statics.cec_2_0 then state_ping else state_exit)
unfolding announce_own describe_own
announce_own-thread_state throws s =
    let d = describe_own s in
    let f = send_to broadcast report_features d in
    branch-thread_state s.statics.cec_2_0 _ _
      (λ h.
        branch-thread_state (throws send_features) _ _ (λ k. simp (h, k) refl)
          (λ k. announce_address-thread_state throws f ∙ simp (h, k) refl))
      (λ h. announce_address-thread_state throws d ∙ simp h refl)

join_bus-thread_state :
    (throws : LibCall → Bool) (s : Sink)
    → (join_bus throws s).poll.thread_state ≡ (
        if not (throws add_logical_address || throws set_source)
          && announces_own throws s.statics.cec_2_0
        then state_ping
        else state_exit)
unfolding join_bus
join_bus-thread_state throws s =
    elim (Bool-cases (throws add_logical_address || throws set_source)) [
      | inl h ↦ rw h refl
      | inr h ↦ rw h (
          announce_own-thread_state throws (record s {
            statics = record (s.statics) { own_logical_address = s.logical_address_allocated };
          }))
    ]

allocate_logical_address-statics :
    (polled : ℕ → ℕ → Answer) (s : Sink) → (allocate_logical_address polled s).statics ≡ s.statics
unfolding allocate_logical_address
allocate_logical_address-statics polled s = ground arith

poll_round-thread_state :
    (bus : Bus) (s : Sink)
    → (poll_round bus s).poll.thread_state ≡ (if joins bus s then state_ping else state_exit)
unfolding poll_round
poll_round-thread_state bus s =
    let t = allocate_logical_address bus.polled s in
    branch-thread_state (not_allocated t) _ _ (λ h. simp h refl)
      (λ h.
        join_bus-thread_state bus.throws t
        ∙ simp (h, allocate_logical_address-statics bus.polled s) refl)

ping_round-thread_state :
    (bus : Bus) (s : Sink)
    → (ping_round bus s).poll.thread_state
      ≡ (if is_empty (ping_devices bus.pinged s).arrived then state_update else state_info)
unfolding ping_round after_pings
ping_round-thread_state bus s = ground arith

request-thread_state :
    (now a : ℕ) (s : Sink) → (request now a s).poll.thread_state ≡ s.poll.thread_state
unfolding request
request-thread_state now a s = ground arith

request_status-thread_state :
    (now a : ℕ) (s : Sink) → (request_status now a s).0.poll.thread_state ≡ s.poll.thread_state
unfolding request_status
request_status-thread_state now a s = ground arith

start_request-thread_state :
    (now : ℕ) (s : Sink)
    → (start_request now s).0.poll.thread_state ≡ (
        if ltb (first_incomplete s 0 unregistered) unregistered
        then s.poll.thread_state
        else state_idle)
unfolding start_request
start_request-thread_state now s =
    ground (arith, request-thread_state now (first_incomplete s 0 unregistered) s)

check_request-thread_state :
    (now requested : ℕ) (s : Sink)
    → (check_request now requested s).0.poll.thread_state ≡ s.poll.thread_state
unfolding check_request
check_request-thread_state now requested s =
    ground (arith, request_status-thread_state now requested s)

info_round-Next :
    (bus : Bus) (t : PollThread)
    → t.sink.poll.thread_state ≡ state_info
    → Next bus t state_info (info_round bus.now t.requested t.sink).0.poll.thread_state
unfolding info_round
info_round-Next bus t e = elim (Bool-cases (t.requested == unregistered)) [
  | inl h ↦ elim (first_incomplete-found t.sink 0 15) [
    | inl (j, (l, (m, (q, r)))) ↦
        along (asks j m r) (ground (arith, h, e, m, q, start_request-thread_state bus.now t.sink))
    | inr (q, r) ↦
        along (asked ((==_iff t.requested unregistered).0 h) (λ i m. r i (omega arith) m))
          (ground (arith, h, q, start_request-thread_state bus.now t.sink))
  ]
  | inr h ↦
      along (waits_for_answer (λ q. false_not-true h ((==_iff t.requested unregistered).1 q)))
        (ground (arith, h, e, check_request-thread_state bus.now t.requested t.sink))
]

update_round-thread_state :
    (now : ℕ) (s : Sink) → (update_round now s).poll.thread_state ≡ state_idle
unfolding update_round
update_round-thread_state now s = refl

wait_round-Next :
    (bus : Bus) (t : PollThread)
    → t.sink.poll.thread_state ≡ state_wait
    → Next bus t state_wait (wait_round t.sink).poll.thread_state
unfolding wait_round
wait_round-Next bus t e = elim (Bool-cases t.sink.is_hdmi_in_connected) [
  | inl h ↦ along (plugged h) (ground (arith, h))
  | inr h ↦ along (waiting h) (ground (arith, h, e))
]

poll_round-Next :
    (bus : Bus) (t : PollThread) → Next bus t state_poll (poll_round bus t.sink).poll.thread_state
poll_round-Next bus t = elim (Bool-cases (joins bus t.sink)) [
  | inl h ↦ along (joined h) (poll_round-thread_state bus t.sink ∙ simp h refl)
  | inr h ↦ along (stranded h) (poll_round-thread_state bus t.sink ∙ simp h refl)
]

ping_round-Next :
    (bus : Bus) (t : PollThread) → Next bus t state_ping (ping_round bus t.sink).poll.thread_state
ping_round-Next bus t = elim (List-cases (ping_devices bus.pinged t.sink).arrived) [
  | inl h ↦ along (settled h) (ping_round-thread_state bus t.sink ∙ simp h refl)
  | inr (a, (rest, h)) ↦ along (found a rest h) (ping_round-thread_state bus t.sink ∙ simp h refl)
]

-- One pass through the switch takes the thread from each of its states to the one that `Next` allows,
-- exactly under the conditions that `Next` has: from POLL to PING if an address is free and the calls
-- return, to EXIT otherwise; from PING to INFO if a device arrives, to UPDATE otherwise; INFO is kept
-- while an answer is awaited or a device's information is incomplete, and left for IDLE when there is
-- neither; from UPDATE to IDLE, from IDLE to PING; from WAIT to POLL if an HDMI input is connected.
pub switch_round-Next :
    (p : PollState) (bus : Bus) (t : PollThread)
    → t.sink.poll.thread_state ≡ p
    → Next bus t p (switch_round p bus t).sink.poll.thread_state
unfolding switch_round
switch_round-Next state_poll bus t e = poll_round-Next bus t
switch_round-Next state_ping bus t e = ping_round-Next bus t
switch_round-Next state_info bus t e = info_round-Next bus t e
switch_round-Next state_update bus t e = rw (update_round-thread_state bus.now t.sink) refreshed
switch_round-Next state_idle bus t e = rested
switch_round-Next state_wait bus t e = wait_round-Next bus t e
switch_round-Next state_exit bus t e = rw e leaving
switch_round-Next state_none bus t e = rw e unused_none
switch_round-Next state_clean bus t e = rw e unused_clean
