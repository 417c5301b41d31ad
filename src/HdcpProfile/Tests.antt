-- ===== src/HdcpProfile/Tests.antt =====
-- A television that authenticates with HDCP 2.2, and two clients.
use entservices_inputoutput.Base.{
  ℕ, ◌+◌, ◌≡◌, refl, true, false, none, some, [], arith, All, if◌then◌else◌,
}
use entservices_inputoutput.HdcpProfile.{
  DsConstants, VideoOutputPort, HdcpStatus, Profile, init_profile, is_registered, register,
  get_hdcp_status, ds_hdmi_event_handler, hdmi_hotplug, dispatch,
}
use entservices_inputoutput.HdcpProfile.Clients.{Distinct}
use entservices_inputoutput.HdcpProfile.Status.{IsConsistent, unread_port_is_enabled}
use entservices_inputoutput.HdcpProfile.Delivery.{
  start, and_then, registers, receives, runs, told, clients_are_told_once,
}

abbrev constants : DsConstants
constants = record {
  status_unpowered = 0;
  status_authenticated = 2;
  version_2x = 1;
  version_max = 2;
}

abbrev television : VideoOutputPort
television = record {
  is_display_connected = some true;
  hdcp_protocol = some 1;
  hdcp_status = some 2;
  is_content_protected = some true;
  hdcp_receiver_protocol = some 1;
  hdcp_current_protocol = none;
}

unread_port_is_enabled_example :
    (television.is_display_connected ≡ some false
      → television.hdcp_protocol ≡ some 1
      → television.hdcp_status ≡ some 2
      → (get_hdcp_status constants (some television)).0.is_hdcp_enabled ≡ false)
    × ((television.is_display_connected ≡ none
          → ((get_hdcp_status constants (some television)).0.is_hdcp_enabled ≡ true)
            × ((get_hdcp_status constants (some television)).0.is_connected ≡ false))
        × ((television.hdcp_protocol ≡ none
              → (get_hdcp_status constants (some television)).0.is_hdcp_enabled ≡ true)
            × ((television.hdcp_status ≡ none
                  → (get_hdcp_status constants (some television)).0.is_hdcp_enabled ≡ true)
                × (((get_hdcp_status constants none).0.is_hdcp_enabled ≡ true)
                    × ((get_hdcp_status constants none).0.is_connected ≡ false)))))
unread_port_is_enabled_example = unread_port_is_enabled constants television 1 2

abbrev two_clients : Profile
two_clients = register 8 (register 7 init_profile)

abbrev plugged : Profile
plugged = ds_hdmi_event_handler constants hdmi_hotplug true (some television) two_clients

abbrev television_status : HdcpStatus
television_status = (get_hdcp_status constants (some television)).0

abbrev told_clients : Profile
told_clients = dispatch television_status (record plugged { jobs = [] })

clients_are_told_once_example :
    All (λ e. IsConsistent constants e.1) told_clients.log
    × (Distinct told_clients.clients
        × ((h : HdcpStatus) (c : ℕ)
            → told c (dispatch h told_clients).log
              ≡ told c told_clients.log + (if is_registered c told_clients.clients then 1 else 0)))
unfolding ds_hdmi_event_handler register init_profile
clients_are_told_once_example = clients_are_told_once constants told_clients (omega arith) (
    and_then
      (and_then
        (and_then (and_then start (registers 7 init_profile))
          (registers 8 (register 7 init_profile)))
        (receives hdmi_hotplug true (some television) two_clients))
      (runs [] [] television_status plugged refl))
