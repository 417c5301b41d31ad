-- ===== src/HdmiCecSink/KeyThread/Order.antt =====
-- Every key of the queue is sent once, in the order in which the keys were posted.
use entservices_inputoutput.Base.{
  ℕ, zero, suc, ◌≡◌, refl, ◌∙◌, Bool, true, false, Option, none, some, List, [], ◌∷◌, length, arith,
  if◌then◌else◌,
}
use entservices_inputoutput.HdmiCecSink.Types.{
  Output, sent, notified, Frame, user_control_pressed, user_control_released, UiCommand,
}
use entservices_inputoutput.HdmiCecSink.State.{
  Sink, SendKeyInfo, UserControl, key_press_event, user_control_pressed_event,
  user_control_released_event,
}
use entservices_inputoutput.HdmiCecSink.Audio.{send_give_audio_status}
use entservices_inputoutput.HdmiCecSink.KeyThread.{
  KeyRound, key_blocked, key_exits, key_goes_on, key_round, send_front, send_key, key_command,
  follow_key, send_key_press, send_key_release,
}

abbrev pub is_key_frame : Frame → Bool
is_key_frame (user_control_pressed c) = true
is_key_frame user_control_released = true
is_key_frame _ = false

-- The key frames of a log.
unfoldable pub key_frames : List Output → List Output
key_frames [] = []
key_frames (sent a f ∷ out) = if is_key_frame f then sent a f ∷ key_frames out else key_frames out
key_frames (notified c e ∷ out) = key_frames out

-- What a key sends, in front of what was sent before.
abbrev pub pressed : ℕ → Option UiCommand → List Output → List Output
pressed a none out = out
pressed a (some c) out = sent a (user_control_pressed c) ∷ out

abbrev pub frames_of : UserControl → ℕ → ℕ → List Output → List Output
frames_of user_control_pressed_event a k out = pressed a (key_command k) out
frames_of user_control_released_event a k out = sent a user_control_released ∷ out
frames_of key_press_event a k out = sent a user_control_released ∷ pressed a (key_command k) out

-- What a queue sends, its first key first.
unfoldable pub frames_of_all : List SendKeyInfo → List Output → List Output
frames_of_all [] out = out
frames_of_all (k ∷ ks) out =
    frames_of_all ks (frames_of k.user_control k.logical_addr k.key_code out)

-- As many rounds as there are keys; a blocked thread stays as it is.
abbrev pub after_round : Sink → KeyRound → Sink
after_round s key_blocked = s
after_round s (key_exits t) = t
after_round s (key_goes_on t) = t

unfoldable pub key_rounds : ℕ → Sink → Sink
key_rounds zero s = s
key_rounds (suc n) s = key_rounds n (after_round s (key_round s))

follow_key-frames :
    (n k : ℕ) (s : Sink)
    → (key_frames (follow_key n k s).log ≡ key_frames s.log)
      × ((follow_key n k s).keys ≡ s.keys)
      × ((follow_key n k s).connected ≡ s.connected)
unfolding follow_key send_give_audio_status key_frames
follow_key-frames n k s = (ground arith, ground arith, ground arith)

send_key_press-frames :
    (a k : ℕ) (s : Sink)
    → s.connected ≡ true
    → (key_frames (send_key_press a k s).log ≡ pressed a (key_command k) (key_frames s.log))
      × ((send_key_press a k s).keys ≡ s.keys)
      × ((send_key_press a k s).connected ≡ true)
unfolding send_key_press key_frames
send_key_press-frames a k s c = (ground arith, ground arith, ground arith)

send_key_release-frames :
    (a : ℕ) (s : Sink)
    → s.connected ≡ true
    → (key_frames (send_key_release a s).log ≡ sent a user_control_released ∷ key_frames s.log)
      × ((send_key_release a s).keys ≡ s.keys)
      × ((send_key_release a s).connected ≡ true)
unfolding send_key_release key_frames
send_key_release-frames a s c = (ground arith, ground arith, ground arith)

send_key-frames :
    (u : UserControl) (a k : ℕ) (s : Sink)
    → s.connected ≡ true
    → (key_frames (send_key u a k s).log ≡ frames_of u a k (key_frames s.log))
      × ((send_key u a k s).keys ≡ s.keys)
      × ((send_key u a k s).connected ≡ true)
send_key-frames user_control_pressed_event a k s c = send_key_press-frames a k s c
send_key-frames user_control_released_event a k s c = send_key_release-frames a s c
send_key-frames key_press_event a k s c =
    let (f, q, d) = send_key_press-frames a k s c in
    ground (arith, f, q, send_key_release-frames a (send_key_press a k s) d)

send_front-frames :
    (k : SendKeyInfo) (rest : List SendKeyInfo) (s : Sink)
    → s.connected ≡ true
    → (key_frames (send_front k rest s).log
        ≡ frames_of k.user_control k.logical_addr k.key_code (key_frames s.log))
      × ((send_front k rest s).keys ≡ record (s.keys) { queue = rest })
      × ((send_front k rest s).connected ≡ true)
unfolding send_front
send_front-frames k rest s c =
    let t : Sink = record s { keys = record (s.keys) { queue = rest } } in
    let (f, q, d) = send_key-frames k.user_control k.logical_addr k.key_code t c in
    let (g, r, e) =
      follow_key-frames (length rest) k.key_code
        (send_key k.user_control k.logical_addr k.key_code t) in
    (g ∙ f, r ∙ q, e ∙ d)

key_round-front :
    (k : SendKeyInfo) (rest : List SendKeyInfo) (s : Sink)
    → s.keys.thread_run ≡ true
    → s.keys.thread_exit ≡ false
    → s.keys.queue ≡ k ∷ rest
    → after_round s (key_round s) ≡ send_front k rest s
unfolding key_round
key_round-front k rest s r x e = ground arith

-- With a connection and while the thread runs, as many rounds as there are keys empty the queue, and
-- send the frames of every key once, in the order of the queue, behind what was sent before.
pub keys_are_sent_in_order :
    (q : List SendKeyInfo) (s : Sink)
    → s.connected ≡ true
    → s.keys.thread_run ≡ true
    → s.keys.thread_exit ≡ false
    → s.keys.queue ≡ q
    → (key_frames (key_rounds (length q) s).log ≡ frames_of_all q (key_frames s.log))
      × ((key_rounds (length q) s).keys.queue ≡ [])
unfolding key_rounds frames_of_all
keys_are_sent_in_order [] s c r x e = (refl, e)
keys_are_sent_in_order (k ∷ rest) s c r x e =
    let (f, q, d) = send_front-frames k rest s c in
    ground (
      arith,
      f,
      q,
      key_round-front k rest s r x e,
      keys_are_sent_in_order rest (send_front k rest s) d (ground arith) (ground arith)
          (ground arith),
    )
