-- ===== src/HdmiCecSource/Runs/Lifecycle.antt =====
-- CECEnable, CECDisable and SetEnabled keep the source sound.
use entservices_inputoutput.Base.{
  ℕ, zero, suc, ◌≡◌, refl, Bool, true, false, not, if◌then◌else◌, Option, none, some, arith,
  Bool-cases, decrement, inl, inr, ◌∙◌, sym, [], leb,
}
use entservices_inputoutput.HdmiCecSink.Types.{PhysicalAddress, unregistered}
use entservices_inputoutput.HdmiCecSink.Devices.Count.{others_below}
use entservices_inputoutput.HdmiCecSource.State.{Source, is_present, send_to, Frame}
use entservices_inputoutput.HdmiCecSource.Devices.{remove_all_cec_devices}
use entservices_inputoutput.HdmiCecSource.Control.{
  Frames, announce, open_connection, close_connection, cec_enable, cec_disable, set_enabled,
  get_physical_address,
}
use entservices_inputoutput.HdmiCecSource.Runs.Received.{receive_all-IsSound}
use mathlib.Core.Path.{subst, fun_ext}
use entservices_inputoutput.HdmiCecSource.Runs.View.{view}
use entservices_inputoutput.HdmiCecSource.Runs.Quiet.{IsSound, IsQuiet-IsSound}
use entservices_inputoutput.HdmiCecSource.Runs.Calls.{
  get_logical_address-IsQuiet, set_enabled_setting-IsQuiet,
}
use entservices_inputoutput.HdmiCecSource.Runs.Changes.{remove_from-IsSound, remove_from-absent}

pub others_below-absent :
    (n own : ℕ) (p : ℕ → Bool) → ((a : ℕ) → p a ≡ false) → others_below n own p ≡ 0
unfolding others_below
others_below-absent zero own p h = refl
others_below-absent (suc n) own p h = ground (arith, h n, others_below-absent n own p h)

-- What claims no more than that the client knows the devices depends on little of the source.
loose-IsSound :
    (c : ℕ) (s t : Source)
    → is_present t ≡ is_present s
    → t.clients ≡ s.clients
    → ((a : ℕ) → view c t.log a ≡ view c s.log a)
    → IsSound c false s
    → IsSound c false t
loose-IsSound c s t p q v k = record {
  registered = rw q k.registered;
  mirrored = λ a. rw (p, v a) (k.mirrored a);
  counted = λ f. cc;
  absent = rw p k.absent;
  idle = λ f h a. cc;
  joined = λ f. cc;
}

sent-IsSound :
    (c from : ℕ) (m : Frame) (s : Source) → IsSound c false s → IsSound c false (send_to from m s)
unfolding view
sent-IsSound c from m s k = loose-IsSound c s _ refl refl (λ a. refl) k

announce-IsSound :
    (c : ℕ) (frames : Frames) (s : Source) → IsSound c false s → IsSound c false (announce frames s)
unfolding announce
announce-IsSound c frames s k =
    let t = receive_all-IsSound c (frames 2) _ (sent-IsSound c _ _ s k) in
    let u =
      receive_all-IsSound c (frames 3) _
        (loose-IsSound c _ _ refl refl (λ a. refl) (sent-IsSound c _ _ _ t)) in
    receive_all-IsSound c (frames 4) _ (sent-IsSound c _ _ _ u)

open_connection-IsSound :
    (c : ℕ) (frames : Frames) (s : Source)
    → IsSound c false s
    → IsSound c false (open_connection frames s)
unfolding open_connection
open_connection-IsSound c frames s k =
    let t = receive_all-IsSound c (frames 0) _ (loose-IsSound c s _ refl refl (λ a. refl) k) in
    let u = receive_all-IsSound c (frames 1) _ (loose-IsSound c _ _ refl refl (λ a. refl) t) in
    loose-IsSound c _ _ refl refl (λ a. refl) (announce-IsSound c frames _ u)

chosen-IsSound :
    (c : ℕ) (b : Bool) {s t : Source}
    → IsSound c false s
    → IsSound c false t
    → IsSound c false (if b then s else t)
chosen-IsSound c true k l = k
chosen-IsSound c false k l = l

located-IsSound :
    (c : ℕ) (own : Option PhysicalAddress) (s : Source)
    → IsSound c false s
    → IsSound c false (get_physical_address own s)
located-IsSound c none s k = k
located-IsSound c (some a) s k = loose-IsSound c s _ refl refl (λ b. refl) k

enable-IsSound :
    (c : ℕ) (frames : Frames) (own : Option PhysicalAddress) (addr : Option (ℕ × ℕ)) (s : Source)
    → IsSound c false s
    → IsSound c false (cec_enable frames own addr s)
unfolding cec_enable
enable-IsSound c frames own addr s k = chosen-IsSound c s.cec_enable_status k (
    open_connection-IsSound c frames _ (
      IsQuiet-IsSound c false _ _ (get_logical_address-IsQuiet addr _)
        (located-IsSound c own _ (loose-IsSound c s _ refl refl (λ b. refl) k))))

calm_enable-IsSound :
    (c : ℕ) (own : Option PhysicalAddress) (addr : Option (ℕ × ℕ)) (s : Source)
    → IsSound c true s
    → IsSound c true (cec_enable (λ i. []) own addr s)
unfolding cec_enable view
calm_enable-IsSound c own addr s k = elim (Bool-cases s.cec_enable_status) [
  | inl e ↦ simp e k
  | inr e ↦ record {
    registered = ground (arith, k.registered);
    mirrored = λ a. ground (arith, k.mirrored a);
    counted = λ q. ground (arith, others_below-absent 15 15 (is_present s) (k.idle refl e));
    absent = λ a h. ground (arith, k.absent a h);
    idle = λ q f a. ground (arith, k.idle refl e a);
    joined = λ q. ground arith;
  }
]

cec_enable-IsSound :
    (c : ℕ) (calm : Bool) (frames : Frames) (own : Option PhysicalAddress) (addr : Option (ℕ × ℕ))
    (s : Source)
    → (calm ≡ true → (i : ℕ) → frames i ≡ [])
    → IsSound c calm s
    → IsSound c calm (cec_enable frames own addr s)
cec_enable-IsSound c true frames own addr s f k =
    subst (λ (g : Frames). IsSound c true (cec_enable g own addr s)) (sym (fun_ext (f refl)))
      (calm_enable-IsSound c own addr s k)
cec_enable-IsSound c false frames own addr s f k = enable-IsSound c frames own addr s k

remove_all-IsSound :
    (c : ℕ) (calm : Bool) (s : Source)
    → IsSound c calm s
    → IsSound c calm (remove_all_cec_devices s)
unfolding remove_all_cec_devices
remove_all-IsSound c calm s k = remove_from-IsSound c calm 0 unregistered s k

remove_all-absent :
    (c : ℕ) (calm : Bool) (s : Source)
    → IsSound c calm s
    → (a : ℕ) → is_present (remove_all_cec_devices s) a ≡ false
unfolding remove_all_cec_devices
remove_all-absent c calm s k a = elim (Bool-cases (leb unregistered a)) [
  | inl e ↦ (remove_from-absent 0 unregistered a s (omega arith)).1 (k.absent a (ground arith))
  | inr e ↦ (remove_from-absent 0 unregistered a s (omega arith)).0 (omega arith) (ground arith)
]

-- What is left behind a connection that is closed.
disconnected-IsSound :
    (c : ℕ) (s t : Source)
    → IsSound c true s
    → ((a : ℕ) → is_present s a ≡ false)
    → t ≡ record s {
      connected = false;
      cec_enable_status = false;
      libcec_init_status = t.libcec_init_status;
    }
    → IsSound c true t
disconnected-IsSound c s t k h e = rw e (record {
  registered = k.registered;
  mirrored = k.mirrored;
  counted = k.counted;
  absent = k.absent;
  idle = λ q f a. h a;
  joined = λ q. refl;
})

stopped-IsSound :
    (c : ℕ) (calm run : Bool) (s : Source)
    → IsSound c calm s
    → IsSound c calm (record s {
      keys = record (s.keys) { thread_exit = true; thread_run = run };
      update_exit = true;
      poll_exit = true;
    })
stopped-IsSound c calm run s k = record {
  registered = k.registered;
  mirrored = k.mirrored;
  counted = k.counted;
  absent = k.absent;
  idle = k.idle;
  joined = k.joined;
}

cec_disable_on :
    (run : Bool) (s : Source)
    → s.cec_enable_status ≡ true
    → s.connected ≡ true
    → (t : Source)
    → t
      ≡ remove_all_cec_devices (record s {
        keys = record (s.keys) { thread_exit = true; thread_run = run };
        update_exit = true;
        poll_exit = true;
      })
    → cec_disable (λ i. []) run s ≡ record t {
      connected = false;
      cec_enable_status = false;
      libcec_init_status = decrement t.libcec_init_status;
    }
unfolding cec_disable
cec_disable_on run s e o t h = ground arith

cec_disable_off :
    (c : ℕ) (run : Bool) (s : Source)
    → s.cec_enable_status ≡ false
    → IsSound c true s
    → IsSound c true (cec_disable (λ i. []) run s)
unfolding cec_disable
cec_disable_off c run s e k = simp e k

calm_disable-IsSound :
    (c : ℕ) (run : Bool) (s : Source)
    → IsSound c true s
    → IsSound c true (cec_disable (λ i. []) run s)
calm_disable-IsSound c run s k = elim (Bool-cases s.cec_enable_status) [
  | inl e ↦
      (let q = stopped-IsSound c true run s k in
        disconnected-IsSound c _ _ (remove_all-IsSound c true _ q) (remove_all-absent c true _ q)
          (simp (cec_disable_on run s e (k.joined refl ∙ e) _ refl)))
  | inr e ↦ cec_disable_off c run s e k
]

close_connection-IsSound :
    (c : ℕ) (frames : Frames) (s : Source)
    → IsSound c false s
    → IsSound c false (close_connection frames s)
unfolding close_connection
close_connection-IsSound c frames s k =
    chosen-IsSound c s.connected
      (loose-IsSound c _ _ refl refl (λ a. refl)
        (receive_all-IsSound c (frames 1) _ (
          remove_all-IsSound c false _
            (receive_all-IsSound c (frames 0) _ (loose-IsSound c s _ refl refl (λ a. refl) k)))))
      k

disable-IsSound :
    (c : ℕ) (frames : Frames) (run : Bool) (s : Source)
    → IsSound c false s
    → IsSound c false (cec_disable frames run s)
unfolding cec_disable
disable-IsSound c frames run s k = chosen-IsSound c (not s.cec_enable_status) k (
    loose-IsSound c _ _ refl refl (λ a. refl)
      (close_connection-IsSound c frames _ (loose-IsSound c s _ refl refl (λ a. refl) k)))

cec_disable-IsSound :
    (c : ℕ) (calm : Bool) (frames : Frames) (run : Bool) (s : Source)
    → (calm ≡ true → (i : ℕ) → frames i ≡ [])
    → IsSound c calm s
    → IsSound c calm (cec_disable frames run s)
cec_disable-IsSound c true frames run s f k =
    subst (λ (g : Frames). IsSound c true (cec_disable g run s)) (sym (fun_ext (f refl)))
      (calm_disable-IsSound c run s k)
cec_disable-IsSound c false frames run s f k = disable-IsSound c frames run s k

pub set_enabled-IsSound :
    (c : ℕ) (calm : Bool) (frames : Frames) (b run : Bool) (own : Option PhysicalAddress)
    (addr : Option (ℕ × ℕ)) (s : Source)
    → (calm ≡ true → (i : ℕ) → frames i ≡ [])
    → IsSound c calm s
    → IsSound c calm (set_enabled frames b run own addr s)
unfolding set_enabled
set_enabled-IsSound c calm frames true run own addr s f k =
    cec_enable-IsSound c calm frames own addr _ f
      (IsQuiet-IsSound c calm s _ (set_enabled_setting-IsQuiet true s) k)
set_enabled-IsSound c calm frames false run own addr s f k =
    cec_disable-IsSound c calm frames run _ f
      (IsQuiet-IsSound c calm s _ (set_enabled_setting-IsQuiet false s) k)
