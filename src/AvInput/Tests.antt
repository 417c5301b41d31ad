-- ===== src/AvInput/Tests.antt =====
-- Variable refresh rates on two ports.
use entservices_inputoutput.Base.{◌≡◌, refl, true, false, List, [], ◌∷◌, arith}
use entservices_inputoutput.AvInput.{
  VrrType, vrr_none, hdmi_vrr, amd_freesync, init_input, vrr_status_event, notified,
  game_feature_status_changed,
}
use entservices_inputoutput.AvInput.Vrr.{
  believes, feature_name, has_feature, vrr_events, hdmi_feature, freesync, vrr_is_known,
  vrr_of_another_port_ends, NeverTwo,
}

abbrev vrr_history : List VrrType
vrr_history = hdmi_vrr ∷ vrr_none ∷ amd_freesync ∷ []

vrr_is_known_example :
    let s = vrr_events 1 (amd_freesync ∷ vrr_history) init_input in
    (believes 1 (feature_name freesync) s.log ≡ has_feature amd_freesync freesync)
    × (s.current_vrr_type ≡ amd_freesync)
    × NeverTwo 1 s.log
vrr_is_known_example = vrr_is_known 1 amd_freesync vrr_history freesync

vrr_of_another_port_ends_example :
    let before = vrr_status_event 1 hdmi_vrr init_input in
    let s = vrr_status_event 2 vrr_none before in
    (s.log ≡ notified (game_feature_status_changed 2 "VRR-HDMI" false) ∷ before.log)
    × (believes 1 (feature_name hdmi_feature) s.log ≡ true)
    × (s.current_vrr_type ≡ vrr_none)
vrr_of_another_port_ends_example =
    vrr_of_another_port_ends 1 2 hdmi_vrr hdmi_feature (omega arith) refl
