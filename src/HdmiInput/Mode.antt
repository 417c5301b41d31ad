-- ===== src/HdmiInput/Mode.antt =====
-- The events of the inputs: hot plug, signal, status, video mode, game features, content type.
use entservices_inputoutput.Base.{
  ℕ, ◌*◌, ◌/◌, ◌≡◌, ℤ, String, Bool, false, not, Option, ◌∷◌, arith, if◌then◌else◌, refl,
}
use entservices_inputoutput.HdmiInput.{
  number, SignalStatus, no_signal, unstable_signal, not_supported_signal, stable_signal,
  other_signal, PixelResolution, res_720x480, res_720x576, res_1280x720, res_1920x1080,
  res_3840x2160, res_4096x2160, res_other, FrameRate, rate_24, rate_25, rate_30, rate_50, rate_60,
  rate_23dot98, rate_29dot97, rate_59dot94, rate_100, rate_119dot88, rate_120, rate_200,
  rate_239dot76, rate_240, rate_other, VideoMode, devices_changed, signal_changed, status_changed,
  video_mode_updated, game_feature_status_changed, avi_content_type_changed, notified, Input, call,
  get_hdmi_input_devices, start_hdmi_input, is_plane,
}

-- hdmiInputHotplug.
unfoldable pub hdmi_input_hotplug :
    (inputs : Option ℕ) → (connected : ℕ → Option Bool) → Input → Input
unfolding get_hdmi_input_devices
hdmi_input_hotplug inputs connected s =
    call (notified (devices_changed (get_hdmi_input_devices inputs connected))) s

abbrev pub signal_text : SignalStatus → String
signal_text no_signal = "noSignal"
signal_text unstable_signal = "unstableSignal"
signal_text not_supported_signal = "notSupportedSignal"
signal_text stable_signal = "stableSignal"
signal_text other_signal = "none"

unfoldable pub hdmi_input_signal_change : ℕ → SignalStatus → Input → Input
hdmi_input_signal_change port st s = call (notified (signal_changed port (signal_text st))) s

unfoldable pub hdmi_input_status_change : ℕ → (is_presented : Bool) → Input → Input
hdmi_input_status_change port is_presented s =
    call
      (notified (status_changed port (if is_presented then "started" else "stopped") s.plane_type))
      s

-- The three parts of the video mode.
unfoldable pub size : PixelResolution → ℕ × ℕ
size res_720x480 = (720, 480)
size res_720x576 = (720, 576)
size res_1280x720 = (1280, 720)
size res_1920x1080 = (1920, 1080)
size res_3840x2160 = (3840, 2160)
size res_4096x2160 = (4096, 2160)
size res_other = (1920, 1080)

unfoldable pub frame_rate : FrameRate → ℕ × ℕ
frame_rate rate_24 = (24000, 1000)
frame_rate rate_25 = (25000, 1000)
frame_rate rate_30 = (30000, 1000)
frame_rate rate_50 = (50000, 1000)
frame_rate rate_60 = (60000, 1000)
frame_rate rate_23dot98 = (24000, 1001)
frame_rate rate_29dot97 = (30000, 1001)
frame_rate rate_59dot94 = (60000, 1001)
frame_rate rate_100 = (100000, 1000)
frame_rate rate_119dot88 = (120000, 1001)
frame_rate rate_120 = (120000, 1000)
frame_rate rate_200 = (200000, 1000)
frame_rate rate_239dot76 = (240000, 1001)
frame_rate rate_240 = (240000, 100)
frame_rate rate_other = (60000, 1000)

unfoldable pub video_mode : PixelResolution → (interlaced : Bool) → FrameRate → VideoMode
unfolding size frame_rate
video_mode p interlaced r = record {
  width = (size p).0;
  height = (size p).1;
  progressive = not interlaced;
  frame_rate_n = (frame_rate r).0;
  frame_rate_d = (frame_rate r).1;
}

unfoldable pub hdmi_input_video_mode_update :
    ℕ → PixelResolution → (interlaced : Bool) → FrameRate → Input → Input
unfolding video_mode
hdmi_input_video_mode_update port p interlaced r s =
    call (notified (video_mode_updated port (video_mode p interlaced r))) s

unfoldable pub hdmi_input_allm_change : ℕ → (allm_mode : Bool) → Input → Input
hdmi_input_allm_change port allm_mode s =
    call (notified (game_feature_status_changed port allm_mode)) s

unfoldable pub hdmi_input_avi_content_type_change : ℕ → (content_type : ℕ) → Input → Input
hdmi_input_avi_content_type_change port content_type s =
    call (notified (avi_content_type_changed port content_type)) s

-- The rate that a frame rate is named for, in thousandths of a hertz, rounded down.
abbrev pub nominal_rate : FrameRate → ℕ
nominal_rate rate_24 = 24000
nominal_rate rate_25 = 25000
nominal_rate rate_30 = 30000
nominal_rate rate_50 = 50000
nominal_rate rate_60 = 60000
nominal_rate rate_23dot98 = 23976
nominal_rate rate_29dot97 = 29970
nominal_rate rate_59dot94 = 59940
nominal_rate rate_100 = 100000
nominal_rate rate_119dot88 = 119880
nominal_rate rate_120 = 120000
nominal_rate rate_200 = 200000
nominal_rate rate_239dot76 = 239760
nominal_rate rate_240 = 240000
nominal_rate rate_other = 60000

-- How many times its nominal rate a frame rate is reported as.
abbrev pub excess : FrameRate → ℕ
excess rate_240 = 10
excess _ = 1

-- The fraction of the video mode event is the nominal rate, in thousandths of a hertz rounded down,
-- for every frame rate but 240 Hz, which is reported as ten times its rate.
rate_240_is_tenfold :
    (p : PixelResolution) (interlaced : Bool) (r : FrameRate)
    → let m = video_mode p interlaced r in
      m.frame_rate_n * 1000 / m.frame_rate_d ≡ excess r * nominal_rate r
unfolding video_mode
rate_240_is_tenfold p interlaced rate_240 = refl
rate_240_is_tenfold p interlaced _ = refl

-- startHdmiInput with a plane other than 0 and 1 fails and selects no port, but keeps the plane: the
-- next status event, of the input that is still shown, reports it.
rejected_plane_is_reported :
    (port q : ℤ) (audio_mix top_most selects presented : Bool) (n : ℕ) (s : Input)
    → is_plane q ≡ false
    → let (t, success) = start_hdmi_input (number port) audio_mix top_most (number q) selects s in
      (success ≡ false)
      × (t.log ≡ s.log)
      × ((hdmi_input_status_change n presented t).log
          ≡ notified (status_changed n (if presented then "started" else "stopped") q) ∷ s.log)
unfolding start_hdmi_input hdmi_input_status_change
rejected_plane_is_reported port q audio_mix top_most selects presented n s h = ground arith
