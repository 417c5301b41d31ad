-- ===== src/HdmiCecSource/Runs/View.antt =====
-- What a client knows of the devices from the notifications that it has got.
use entservices_inputoutput.Base.{
  ℕ, ◌≡◌, refl, Bool, true, false, List, [], ◌∷◌, arith, ◌==◌, if◌then◌else◌,
}
use entservices_inputoutput.HdmiCecSource.State.{
  Output, sent, sent_bytes, notified, Event, on_device_added, on_device_removed, notify_each,
}
use entservices_inputoutput.HdmiCecSource.Control.{is_registered}

-- One notification to the client: is the device `a` there, if `v` was believed before?
abbrev pub heard : Event → ℕ → Bool → Bool
heard (on_device_added b) a v = if b == a then true else v
heard (on_device_removed b) a v = if b == a then false else v
heard _ a v = v

-- The belief of the client `c` after all that it has been told; at first it knows of no device.
unfoldable pub view : ℕ → List Output → ℕ → Bool
view c [] a = false
view c (notified d e ∷ out) a = if d == c then heard e a (view c out a) else view c out a
view c (sent b f ∷ out) a = view c out a
view c (sent_bytes m ∷ out) a = view c out a

heard_twice : (e : Event) (a : ℕ) (v : Bool) → heard e a (heard e a v) ≡ heard e a v
heard_twice e a v = ground arith

pub view-notify_each :
    (c : ℕ) (cs : List ℕ) (e : Event) (out : List Output) (a : ℕ)
    → view c (notify_each cs e out) a
      ≡ (if is_registered c cs then heard e a (view c out a) else view c out a)
unfolding view
view-notify_each c [] e out a = refl
view-notify_each c (d ∷ cs) e out a =
    ground (arith, view-notify_each c cs e (notified d e ∷ out) a, heard_twice e a (view c out a))
