-- ===== src/HdmiCecSink/PollThread.antt =====
-- threadRun: the thread that finds the devices and asks them for what is missing. A round is one
-- pass through its loop; the wait of `sleep_time` at its end is left to the caller. What the bus and
-- the CEC library do during a round is an argument.
pub mod Diagram
use entservices_inputoutput.Base.{
  ℕ, zero, suc, ◌+◌, ◌-◌, ◌*◌, Bool, true, false, not, ◌&&◌, ◌||◌, pos, List, [], ◌∷◌, ◌==◌,
  if◌then◌else◌, ltb,
}
use entservices_inputoutput.HdmiCecSink.Types.{
  unregistered, broadcast, tv_type, v_1_4, v_2_0, panel_status, report_features,
  report_physical_address,
}
use entservices_inputoutput.HdmiCecSink.Device.{Device, update_physical_addr, is_all_updated}
use entservices_inputoutput.HdmiCecSink.State.{
  Sink, PollState, state_none, state_idle, state_poll, state_ping, state_info, state_wait,
  state_clean, state_update, state_exit, send_to, update_device, not_allocated,
}
use entservices_inputoutput.HdmiCecSink.Devices.{is_present, set_next_state_info}
use entservices_inputoutput.HdmiCecSink.Ping.{
  Answer, Pinged, ping_devices, remove_devices, add_devices, allocate_logical_address,
}
use entservices_inputoutput.HdmiCecSink.Query.{request, request_status, request_done, RequestStatus}

-- The calls in the state POLL that may throw.
pub data LibCall : Type 0 where
  add_logical_address set_source send_features add_frame_listener send_address : LibCall

pub record Bus : Type 0 where
  pub now : ℕ
  pub polled : ℕ → ℕ → Answer
  pub pinged : ℕ → Answer
  pub throws : LibCall → Bool

-- The thread's locals, `logicalAddressRequested` and `isExit`, beside the members.
pub record PollThread : Type 0 where
  pub sink : Sink
  pub requested : ℕ
  pub is_exit : Bool

abbrev pub set_thread_state : PollState → ℕ → Sink → Sink
set_thread_state p sleep s = record s {
  poll = record (s.poll) { thread_state = p; sleep_time = sleep };
}

-- What the thread takes up: `m_pollNextState`, unless it is NONE.
abbrev pub chosen_state : PollState → PollState → PollState
chosen_state state_none current = current
chosen_state next current = next

abbrev pub take_next : Sink → Sink
take_next s = record s {
  poll = record (s.poll) {
    thread_state = chosen_state s.poll.next_state s.poll.thread_state;
    next_state = state_none;
  };
}

-- The catch blocks: the sleep time stays.
abbrev pub give_up : Sink → Sink
give_up s = record s { poll = record (s.poll) { thread_state = state_exit } }

-- The TV's own entry in the list of devices.
unfoldable pub describe_own : Sink → Sink
describe_own s =
    update_device s.logical_address_allocated
      (λ d. record (update_physical_addr s.statics.own_physical_addr d) {
        device_type = tv_type;
        is_device_present = true;
        cec_version = if s.statics.cec_2_0 then v_2_0 else v_1_4;
        vendor_id = s.statics.app_vendor_id;
        power_status = panel_status s.statics.power_state;
        current_language = "eng";
        osd_name = s.statics.own_osd_name;
      })
      (record s { number_of_devices = pos 0 })

-- From the frame listener on.
unfoldable pub announce_address : (LibCall → Bool) → Sink → Sink
announce_address throws s =
    if throws add_frame_listener || throws send_address
    then give_up s
    else set_thread_state state_ping 0 (
        send_to broadcast
          (report_physical_address s.statics.own_physical_addr
            (s.device_list s.logical_address_allocated).device_type)
          s)

-- From the own entry on; with CEC 2.0 the features are sent.
unfoldable pub announce_own : (LibCall → Bool) → Sink → Sink
unfolding announce_address describe_own
announce_own throws s =
    let t = describe_own s in
    if s.statics.cec_2_0
    then (if throws send_features
        then give_up t
        else announce_address throws (send_to broadcast report_features t))
    else announce_address throws t

-- The try block of the state POLL.
unfoldable pub join_bus : (LibCall → Bool) → Sink → Sink
unfolding announce_own
join_bus throws s =
    let t = record s {
      statics = record (s.statics) { own_logical_address = s.logical_address_allocated };
    } in
    if throws add_logical_address || throws set_source then give_up t else announce_own throws t

unfoldable pub poll_round : Bus → Sink → Sink
unfolding join_bus
poll_round bus s =
    let t = allocate_logical_address bus.polled s in
    if not_allocated t then give_up t else join_bus bus.throws t

-- A device that the information is not complete of.
abbrev pub is_incomplete : Sink → ℕ → Bool
is_incomplete s i =
    not (i == s.logical_address_allocated)
    && (is_present s i && not (is_all_updated (s.device_list i)))

-- The first such address from `i` on, of `k`; `i + k` if there is none.
unfoldable pub first_incomplete : Sink → (i k : ℕ) → ℕ
first_incomplete s i zero = i
first_incomplete s i (suc k) =
    let rest = first_incomplete s (suc i) k in if is_incomplete s i then i else rest

abbrev pub is_empty : List ℕ → Bool
is_empty [] = true
is_empty (x ∷ xs) = false

-- The end of the state PING.
unfoldable pub after_pings : Bool → Sink → Sink
after_pings none_arrived s =
    if none_arrived
    then set_thread_state state_update 0
        (if ltb (first_incomplete s 0 unregistered) unregistered then set_next_state_info s else s)
    else set_thread_state state_info 0 s

unfoldable pub ping_round : Bus → Sink → Sink
unfolding after_pings
ping_round bus s =
    let pinged = ping_devices bus.pinged s in
    after_pings (is_empty pinged.arrived) (
      add_devices pinged.arrived
        (remove_devices pinged.left (set_thread_state state_info s.poll.sleep_time s)))

abbrev pub set_sleep : ℕ → Sink → Sink
set_sleep n s = record s { poll = record (s.poll) { sleep_time = n } }

-- The state INFO with no request under way.
unfoldable pub start_request : ℕ → Sink → Sink × ℕ
start_request now s =
    let i = first_incomplete s 0 unregistered in
    if ltb i unregistered
    then (set_sleep 500 (request now i s), i)
    else (set_thread_state state_idle 0 s, unregistered)

-- The state INFO while a request is under way.
unfoldable pub check_request : ℕ → ℕ → Sink → Sink × ℕ
check_request now requested s =
    let (t, status) = request_status now requested s in
    elim status [ request_done ↦ (t, unregistered) | _ ↦ (set_sleep 500 t, requested) ]

unfoldable pub info_round : ℕ → ℕ → Sink → Sink × ℕ
info_round now requested s =
    if requested == unregistered then start_request now s else check_request now requested s

-- The power status of a device is asked for again after a minute.
abbrev pub is_power_due : ℕ → Sink → ℕ → Bool
is_power_due now s i =
    not (i == s.logical_address_allocated)
    && (is_present s i
        && ((s.device_list i).is_power_status_updated
            && ltb 60000 (now - (s.device_list i).last_power_update_time)))

unfoldable pub refresh_one : ℕ → ℕ → Sink → Sink
refresh_one now i s =
    if is_power_due now s i
    then set_next_state_info (update_device i (λ d. record d { is_power_status_updated = false }) s)
    else s

unfoldable pub refresh_from : ℕ → (i k : ℕ) → Sink → Sink
refresh_from now i zero s = s
refresh_from now i (suc k) s = refresh_from now (suc i) k (refresh_one now i s)

unfoldable pub update_round : ℕ → Sink → Sink
unfolding refresh_from
update_round now s = set_thread_state state_idle 0 (refresh_from now 0 unregistered s)

unfoldable pub wait_round : Sink → Sink
wait_round s =
    if s.is_hdmi_in_connected then set_thread_state state_poll 1000 s else set_sleep 1000 s

-- The switch on the thread's state.
unfoldable pub switch_round : PollState → Bus → PollThread → PollThread
switch_round state_poll bus t = record t { sink = poll_round bus t.sink }
switch_round state_ping bus t = record t { sink = ping_round bus t.sink }
switch_round state_info bus t =
    let (s, requested) = info_round bus.now t.requested t.sink in
    record t { sink = s; requested = requested }
switch_round state_update bus t = record t { sink = update_round bus.now t.sink }
switch_round state_idle bus t = record t { sink = set_thread_state state_ping 10000 t.sink }
switch_round state_wait bus t = record t { sink = wait_round t.sink }
switch_round state_exit bus t = record t { sink = set_sleep 0 t.sink; is_exit = true }
switch_round _ bus t = t

pub data Round : Type 0 where
  left_loop : PollThread → Round
  went_round : PollThread → Round

unfoldable pub thread_round : Bus → PollThread → Round
thread_round bus t =
    if t.sink.poll.thread_exit || t.is_exit
    then left_loop t
    else (let u = record t { sink = take_next t.sink } in
        went_round (switch_round u.sink.poll.thread_state bus u))
