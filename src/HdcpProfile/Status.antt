-- ===== src/HdcpProfile/Status.antt =====
-- What the HDCP status says of the video port.
use entservices_inputoutput.Base.{ℕ, ◌≡◌, ◌≢◌, refl, Bool, true, false, Option, none, some, arith}
use entservices_inputoutput.HdcpProfile.{
  DsConstants, VideoOutputPort, HdcpStatus, Reading, initial_reading, read_connection, read_port,
  version_text, status_of, get_hdcp_status, get_settop_hdcp_support,
}

-- No port is read as more than it is: compliant only when connected and authenticated, and an HDCP
-- 2.2 receiver or session only when connected.
pub record IsConsistent (k : DsConstants) (h : HdcpStatus) : Type 0 where
  pub compliant : h.is_hdcp_compliant ≡ true → h.is_connected ≡ true
  pub authenticated : h.is_hdcp_compliant ≡ true → h.hdcp_reason ≡ k.status_authenticated
  pub receiver : h.is_connected ≡ false → h.receiver_hdcp_version ≡ "1.4"
  pub current : h.is_connected ≡ false → h.current_hdcp_version ≡ "1.4"

record IsRead (k : DsConstants) (r : Reading) : Type 0 where
  compliant : r.compliant ≡ true → r.connected ≡ true
  authenticated : r.compliant ≡ true → r.enabled_status ≡ k.status_authenticated
  receiver : r.connected ≡ false → r.receiver_protocol ≡ k.version_max
  current : r.connected ≡ false → r.current_protocol ≡ k.version_max

read_port-IsRead :
    (k : DsConstants) (port : Option VideoOutputPort)
    → IsRead k (read_port k port (initial_reading k))
unfolding read_port initial_reading read_connection
read_port-IsRead k none = record {
  compliant = ground arith;
  authenticated = ground arith;
  receiver = ground arith;
  current = ground arith;
}
read_port-IsRead k (some v) = record {
  compliant = ground arith;
  authenticated = ground arith;
  receiver = ground arith;
  current = ground arith;
}

-- Whatever the video port answers and whichever of its calls throws, the status is consistent: a
-- display is compliant only if it is connected and authenticated, and without a display no HDCP 2.2
-- receiver or session is reported; success is always reported.
pub get_hdcp_status-IsConsistent :
    (k : DsConstants) (port : Option VideoOutputPort)
    → k.version_max ≢ k.version_2x
    → IsConsistent k (get_hdcp_status k port).0 × ((get_hdcp_status k port).1 ≡ true)
unfolding get_hdcp_status status_of version_text
get_hdcp_status-IsConsistent k port n =
    let r = read_port-IsRead k port in
    (
      record {
        compliant = r.compliant;
        authenticated = r.authenticated;
        receiver = λ e. ground (arith, r.receiver e);
        current = λ e. ground (arith, r.current e);
      },
      refl,
    )

-- A display that is not connected is reported as not HDCP enabled if every call before the answer
-- succeeds; if the port, the connection, the protocol or the status throws, HDCP is reported as
-- enabled, and a display that Device Settings did not say is connected as not connected.
pub unread_port_is_enabled :
    (k : DsConstants) (v : VideoOutputPort) (n s : ℕ)
    → (v.is_display_connected ≡ some false
        → v.hdcp_protocol ≡ some n
        → v.hdcp_status ≡ some s
        → (get_hdcp_status k (some v)).0.is_hdcp_enabled ≡ false)
      × ((v.is_display_connected ≡ none
            → ((get_hdcp_status k (some v)).0.is_hdcp_enabled ≡ true)
              × ((get_hdcp_status k (some v)).0.is_connected ≡ false))
          × ((v.hdcp_protocol ≡ none → (get_hdcp_status k (some v)).0.is_hdcp_enabled ≡ true)
              × ((v.hdcp_status ≡ none → (get_hdcp_status k (some v)).0.is_hdcp_enabled ≡ true)
                  × (((get_hdcp_status k none).0.is_hdcp_enabled ≡ true)
                      × ((get_hdcp_status k none).0.is_connected ≡ false)))))
unfolding get_hdcp_status status_of read_port initial_reading read_connection
unread_port_is_enabled k v n s = (
  λ c p h. ground (arith, c, p, h),
  (λ c. ground (arith, c), (λ p. ground (arith, p), (λ h. ground (arith, h), (refl, refl)))),
)

-- GetSettopHDCPSupport and GetHDCPStatus report the same supported version, if the protocol is read
-- or throws after the connection has been read.
pub supported_version_agrees :
    (k : DsConstants) (v : VideoOutputPort) (b : Bool)
    → v.is_display_connected ≡ some b
    → (get_settop_hdcp_support k (some v)).0 ≡ (get_hdcp_status k (some v)).0.supported_hdcp_version
unfolding get_settop_hdcp_support get_hdcp_status status_of read_port initial_reading
    read_connection version_text
supported_version_agrees k v b e = ground (arith, e)
