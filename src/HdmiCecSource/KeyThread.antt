-- ===== src/HdmiCecSource/KeyThread.antt =====
-- The queue of remote control keys and threadSendKeyEvent.
use entservices_inputoutput.Base.{
  ℕ, true, false, not, Option, none, some, List, [], ◌∷◌, ◌++◌, if◌then◌else◌,
}
use entservices_inputoutput.HdmiCecSink.Types.{UiCommand}
use entservices_inputoutput.HdmiCecSink.KeyThread.{key_command}
use entservices_inputoutput.HdmiCecSource.State.{
  Source, SendKeyInfo, send_to, user_control_pressed, user_control_released,
}

abbrev pub send_command : ℕ → Option UiCommand → Source → Source
send_command a none s = s
send_command a (some c) s = send_to a (user_control_pressed c) s

-- sendKeyPressEvent: its codes are those of the sink's.
unfoldable pub send_key_press : SendKeyInfo → Source → Source
send_key_press k s =
    if s.connected then send_command k.logical_addr (key_command k.key_code) s else s

unfoldable pub send_key_release : ℕ → Source → Source
send_key_release a s = if s.connected then send_to a user_control_released s else s

-- SendKeyPressEvent.
unfoldable pub post_key : SendKeyInfo → Source → Source
post_key k s = record s {
  keys = record (s.keys) { queue = s.keys.queue ++ k ∷ []; thread_run = true };
}

pub data KeyRound : Type 0 where
  key_blocked : KeyRound
  key_exits key_goes_on : Source → KeyRound

abbrev pub stop_run : Source → Source
stop_run s = record s { keys = record (s.keys) { thread_run = false } }

unfoldable pub send_front : SendKeyInfo → List SendKeyInfo → Source → Source
unfolding send_key_press send_key_release
send_front k rest s =
    send_key_release k.logical_addr
      (send_key_press k (record s { keys = record (s.keys) { queue = rest } }))

-- One round of threadSendKeyEvent, from its wait on.
unfoldable pub key_round : Source → KeyRound
key_round s =
    if not s.keys.thread_run
    then key_blocked
    else (if s.keys.thread_exit then key_exits (stop_run s) else elim s.keys.queue [
      | [] ↦ key_goes_on (stop_run s)
      | k ∷ rest ↦ key_goes_on (send_front k rest s)
    ])
