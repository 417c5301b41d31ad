-- ===== src/HdmiCecSink/KeyThread.antt =====
-- The queue of remote control keys and threadSendKeyEvent, which sends them to the audio system.
pub mod Order
use entservices_inputoutput.Base.{
  ℕ, ◌+◌, ◌%◌, Bool, true, false, not, ◌&&◌, ◌||◌, Option, none, some, List, [], ◌∷◌, ◌++◌, ◌==◌,
  if◌then◌else◌, leb, length, ◌-◌,
}
use entservices_inputoutput.HdmiCecSink.Types.{
  UiCommand, volume_up, volume_down, mute, up, down, left, right, select, home, back, num,
  user_control_pressed, user_control_released, Frame,
}
use entservices_inputoutput.HdmiCecSink.State.{
  Sink, Keys, SendKeyInfo, UserControl, key_press_event, user_control_pressed_event,
  user_control_released_event, send_to,
}
use entservices_inputoutput.HdmiCecSink.Audio.{send_give_audio_status}

-- The switch of sendKeyPressEvent and sendUserControlPressed; other codes send nothing.
unfoldable pub key_command : ℕ → Option UiCommand
key_command k =
    if k == 0x41
    then some volume_up
    else (if k == 0x42
        then some volume_down
        else (if k == 0x43
            then some mute
            else (if k == 0x01
                then some up
                else (if k == 0x02
                    then some down
                    else (if k == 0x03
                        then some left
                        else (if k == 0x04
                            then some right
                            else (if k == 0x00
                                then some select
                                else (if k == 0x09
                                    then some home
                                    else (if k == 0x0D
                                        then some back
                                        else (if leb 0x20 k && leb k 0x29
                                            then some (num (k - 0x20))
                                            else none))))))))))

abbrev pub send_command : ℕ → Option UiCommand → Sink → Sink
send_command a none s = s
send_command a (some c) s = send_to a (user_control_pressed c) s

unfoldable pub send_key_press : ℕ → ℕ → Sink → Sink
send_key_press a k s = if s.connected then send_command a (key_command k) s else s

unfoldable pub send_key_release : ℕ → Sink → Sink
send_key_release a s = if s.connected then send_to a user_control_released s else s

-- SendKeyPressEvent, SendUserControlPressed and SendUserControlReleased, which sends key code 0.
unfoldable pub post_key : SendKeyInfo → Sink → Sink
post_key k s = record s {
  keys = record (s.keys) { queue = s.keys.queue ++ k ∷ []; thread_run = true };
}

-- The branches on `UserControl`.
abbrev pub send_key : UserControl → ℕ → ℕ → Sink → Sink
send_key user_control_pressed_event a k s = send_key_press a k s
send_key user_control_released_event a k s = send_key_release a s
send_key key_press_event a k s = send_key_release a (send_key_press a k s)

abbrev pub is_mute : ℕ → Bool
is_mute k = k == 0x43

abbrev pub is_volume : ℕ → Bool
is_volume k = k == 0x41 || k == 0x42

-- The audio status after a volume key: asked for at once, or by the timer of 500 ms the first time.
unfoldable pub ask_audio_status : Sink → Sink
ask_audio_status s =
    if not s.audio.info_updated
    then (if s.audio.timer_active
        then s
        else record s { audio = record (s.audio) { timer_started = true; timer_active = true } })
    else (if s.audio.received then s else send_give_audio_status s)

-- `n` is the size of the queue behind the key.
unfoldable pub follow_key : ℕ → ℕ → Sink → Sink
unfolding ask_audio_status
follow_key n k s =
    if (leb n 1 || n % 2 == 0) && (is_volume k || is_mute k)
    then (if is_mute k then send_give_audio_status s else ask_audio_status s)
    else s

unfoldable pub send_front : SendKeyInfo → List SendKeyInfo → Sink → Sink
send_front k rest s = follow_key (length rest) k.key_code (
    send_key k.user_control k.logical_addr k.key_code
      (record s { keys = record (s.keys) { queue = rest } }))

pub data KeyRound : Type 0 where
  key_blocked : KeyRound
  key_exits key_goes_on : Sink → KeyRound

abbrev pub stop_run : Sink → Sink
stop_run s = record s { keys = record (s.keys) { thread_run = false } }

-- One round of threadSendKeyEvent, from its wait on.
unfoldable pub key_round : Sink → KeyRound
key_round s =
    if not s.keys.thread_run
    then key_blocked
    else (if s.keys.thread_exit then key_exits (stop_run s) else elim s.keys.queue [
      | [] ↦ key_goes_on (stop_run s)
      | k ∷ rest ↦ key_goes_on (send_front k rest s)
    ])
