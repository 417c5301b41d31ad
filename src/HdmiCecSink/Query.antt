-- ===== src/HdmiCecSink/Query.antt =====
-- requestType, request and requestStatus: what the sink asks of a device, and when it gives up.
-- `now` is the clock, in milliseconds.
pub mod Silent
use entservices_inputoutput.Base.{
  ℕ, suc, ◌+◌, ◌-◌, Bool, true, false, not, ◌&&◌, ◌||◌, Option, none, some, List, [], ◌∷◌, ◌==◌,
  if◌then◌else◌, leb, ltb,
}
use entservices_inputoutput.HdmiCecSink.Types.{
  unregistered, invalid_address, reserved_type, v_1_4, not_known, Frame, give_physical_address,
  get_cec_version, give_device_vendor_id, give_osd_name, give_device_power_status,
}
use entservices_inputoutput.HdmiCecSink.Device.{
  Device, Request, request_none, request_physical_address, request_cec_version,
  request_device_vendor_id, request_power_status, request_osd_name, update_device_type,
  update_physical_addr, update_vendor_id, update_version, update_osd_name, update_power_status,
}
use entservices_inputoutput.HdmiCecSink.State.{Sink, send_to, update_device, not_allocated}

abbrev pub max_retry : ℕ
max_retry = 3

abbrev pub max_wait_time : ℕ
max_wait_time = 2000

-- The first piece of information that is missing.
unfoldable pub request_type : Device → Request
request_type d =
    if not d.is_pa_updated || not d.is_device_type_updated
    then request_physical_address
    else (if not d.is_osd_name_updated
        then request_osd_name
        else (if not d.is_version_updated
            then request_cec_version
            else (if not d.is_vendor_id_updated
                then request_device_vendor_id
                else (if not d.is_power_status_updated
                    then request_power_status
                    else request_none))))

-- The frame that asks for it.
abbrev pub request_frame : Request → Option Frame
request_frame request_none = none
request_frame request_physical_address = some give_physical_address
request_frame request_cec_version = some get_cec_version
request_frame request_device_vendor_id = some give_device_vendor_id
request_frame request_osd_name = some give_osd_name
request_frame request_power_status = some give_device_power_status

abbrev pub send_request : ℕ → Request → Sink → Sink
send_request a r s = elim (request_frame r) [ none ↦ s | some f ↦ send_to a f s ]

abbrev pub mark_requested : ℕ → Device → Device
mark_requested now d = record d { is_requested = request_type d; request_time = now }

unfoldable pub request : ℕ → ℕ → Sink → Sink
request now a s =
    if not s.connected || (not_allocated s || leb unregistered a)
    then s
    else update_device a (mark_requested now) (send_request a (request_type (s.device_list a)) s)

-- The first switch of `requestStatus`: has the answer arrived?
abbrev pub is_answered : Request → Device → Bool
is_answered request_none d = false
is_answered request_physical_address d = d.is_pa_updated && d.is_device_type_updated
is_answered request_cec_version d = d.is_version_updated
is_answered request_device_vendor_id d = d.is_vendor_id_updated
is_answered request_osd_name d = d.is_osd_name_updated
is_answered request_power_status d = d.is_power_status_updated

abbrev pub is_waiting : Request → Bool
is_waiting request_none = false
is_waiting _ = true

abbrev pub settle : Device → Device
settle d = if is_answered d.is_requested d then record d { is_requested = request_none } else d

-- The second switch: a retry, or a default for what the device does not tell.
abbrev pub time_out : ℕ → Request → Device → Device
time_out now request_none d = d
time_out now request_physical_address d =
    if leb max_retry d.is_request_retry
    then record (update_device_type reserved_type (update_physical_addr invalid_address d)) {
      is_request_retry = 0;
    }
    else record d { is_request_retry = suc d.is_request_retry }
time_out now request_cec_version d = update_version v_1_4 d
time_out now request_device_vendor_id d = update_vendor_id (0 ∷ 0 ∷ 0 ∷ []) d
time_out now request_osd_name d =
    if leb max_retry d.is_request_retry
    then record (update_osd_name "" d) { is_request_retry = 0 }
    else record d { is_request_retry = suc d.is_request_retry }
time_out now request_power_status d = update_power_status now not_known d

abbrev pub is_elapsed : ℕ → Device → Bool
is_elapsed now d = is_waiting d.is_requested && ltb max_wait_time (now - d.request_time)

abbrev pub check_elapsed : ℕ → Device → Device
check_elapsed now d =
    if is_elapsed now d
    then record (time_out now d.is_requested d) { is_requested = request_none }
    else d

-- What `requestStatus` does to the device.
unfoldable pub poll_request : ℕ → Device → Device
poll_request now d = check_elapsed now (settle d)

pub data RequestStatus : Type 0 where
  request_done request_not_done request_invalid : RequestStatus

abbrev pub status_of : Request → RequestStatus
status_of request_none = request_done
status_of _ = request_not_done

unfoldable pub request_status : ℕ → ℕ → Sink → Sink × RequestStatus
unfolding poll_request
request_status now a s = if not_allocated s || leb unregistered a then (s, request_invalid) else (
  update_device a (poll_request now) s,
  status_of (poll_request now (s.device_list a)).is_requested,
)
