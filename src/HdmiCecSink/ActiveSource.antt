-- ===== src/HdmiCecSink/ActiveSource.antt =====
-- Who is shown: the active source, the routes to it, and the frames that ask for a change.
pub mod Flags
use entservices_inputoutput.Base.{
  ℕ, String, Bool, true, false, not, ◌&&◌, ◌||◌, Option, none, some, List, [], ◌∷◌, ◌++◌, ◌+◌, ◌==◌,
  if◌then◌else◌,
}
use entservices_inputoutput.HdmiCecSink.Types.{
  PhysicalAddress, is_standby, unregistered, broadcast, active_source, request_active_source,
  set_stream_path, set_menu_language, on_in_active_source, on_active_source_change,
  on_wakeup_from_standby, on_text_view_on_msg,
}
use entservices_inputoutput.HdmiCecSink.Device.{update_physical_addr}
use entservices_inputoutput.HdmiCecSink.Port.{HdmiPortMap, get_route}
use entservices_inputoutput.HdmiCecSink.State.{Sink, send_to, notify, update_device, not_allocated}
use entservices_inputoutput.HdmiCecSink.Devices.{is_present}

-- `m_currentActiveSource == a`.
abbrev pub is_current : Option ℕ → ℕ → Bool
is_current none a = false
is_current (some c) a = c == a

-- The panel is asleep and the device is there: the application is asked to wake it.
unfoldable pub wake_panel : ℕ → Sink → Sink
wake_panel a s =
    if is_present s a && is_standby (s.device_list s.logical_address_allocated).power_status
    then notify (on_wakeup_from_standby a) s
    else s

-- updateImageViewOn. The event that it raises is OnInActiveSource.
unfoldable pub update_image_view_on : ℕ → Sink → Sink
unfolding wake_panel
update_image_view_on a s =
    if not_allocated s || a == unregistered
    then s
    else notify (on_in_active_source a (s.device_list a).physical_addr) (wake_panel a s)

unfoldable pub update_text_view_on : ℕ → Sink → Sink
unfolding wake_panel
update_text_view_on a s =
    if not_allocated s || a == unregistered
    then s
    else notify (on_text_view_on_msg a) (wake_panel a s)

abbrev pub set_active_flag : Bool → ℕ → Sink → Sink
set_active_flag b a s = update_device a (λ d. record d { is_active_source = b }) s

abbrev pub clear_current_flag : Option ℕ → Sink → Sink
clear_current_flag none s = s
clear_current_flag (some c) s = set_active_flag false c s

unfoldable pub update_active_source : ℕ → PhysicalAddress → Sink → Sink
unfolding wake_panel
update_active_source a source s =
    if not_allocated s
    then s
    else (if a == s.logical_address_allocated
        then s
        else let t =
            update_device a
              (λ d. update_physical_addr source (record d { is_active_source = true }))
              (clear_current_flag s.current_active_source s) in
          let u = record t { current_active_source = some a } in
          notify (on_active_source_change a (u.device_list a).physical_addr) (wake_panel a u))

unfoldable pub update_in_active_source : ℕ → PhysicalAddress → Sink → Sink
update_in_active_source a source s =
    if not_allocated s
    then s
    else (if a == s.logical_address_allocated
        then s
        else let t = set_active_flag false a s in
          notify (on_in_active_source a source) (
            if is_current s.current_active_source a
            then record t { current_active_source = none }
            else t))

unfoldable pub request_active : Sink → Sink
request_active s =
    if not s.connected || not_allocated s then s else send_to broadcast request_active_source s

-- setActiveSource: the TV says that it is the source itself.
unfoldable pub set_active_source : Bool → Sink → Sink
set_active_source is_response s =
    if not s.connected || not_allocated s
    then s
    else (if is_response && not (is_current s.current_active_source s.logical_address_allocated)
        then s
        else record (send_to broadcast
            (active_source (s.device_list s.logical_address_allocated).physical_addr) s) {
              current_active_source = some s.logical_address_allocated;
            })

unfoldable pub set_stream_path_to : PhysicalAddress → Sink → Sink
set_stream_path_to a s =
    if not s.connected || not_allocated s then s else send_to broadcast (set_stream_path a) s

unfoldable pub set_current_language : String → Sink → Sink
set_current_language lang s =
    if not_allocated s
    then s
    else update_device s.logical_address_allocated (λ d. record d { current_language = lang }) s

unfoldable pub send_menu_language : Sink → Sink
send_menu_language s =
    if not s.connected || not_allocated s
    then s
    else send_to broadcast
        (set_menu_language (s.device_list s.logical_address_allocated).current_language) s

-- getActiveRoute: the routes that the ports with the device's first byte give, in port order.
unfoldable pub port_routes : PhysicalAddress → List HdmiPortMap → List ℕ
port_routes a [] = []
port_routes a (p ∷ ps) =
    (if a.byte0 == p.port_id + 1 then get_route p a else []) ++ port_routes a ps

unfoldable pub get_active_route : ℕ → Sink → List ℕ
unfolding port_routes
get_active_route a s =
    if not_allocated s || a == unregistered
    then []
    else (if is_present s a
          && (not (a == s.logical_address_allocated) && (s.device_list a).is_active_source)
        then port_routes (s.device_list a).physical_addr s.hdmi_inputs
        else [])
