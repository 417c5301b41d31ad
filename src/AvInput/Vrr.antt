-- ===== src/AvInput/Vrr.antt =====
-- What a client knows of the variable refresh rate from the notifications.
use text.Mathlib.Text.{◌==◌ as same_text}
use entservices_inputoutput.Base.{
  ℕ, ◌≡◌, ◌≢◌, refl, Bool, true, false, ◌&&◌, String, List, [], ◌∷◌, ◌==◌, if◌then◌else◌, arith,
  sym, ◌∙◌, Bool-cases, inl, inr,
}
use entservices_inputoutput.AvInput.{
  VrrType, vrr_none, hdmi_vrr, amd_freesync, amd_freesync_premium, amd_freesync_premium_pro,
  Notification, game_feature_status_changed, Call, init_input, notified, Input, is_vrr,
  vrr_status_event, vrr_notification, avinput_vrr_change,
}

-- Is the feature on at the port, by the newest notification that tells of it?
abbrev heard : Notification → ℕ → String → Bool → Bool
heard (game_feature_status_changed p f on) port feature v =
    if p == port && same_text f feature then on else v
heard _ port feature v = v

unfoldable pub believes : ℕ → String → List Call → Bool
believes port feature [] = false
believes port feature (notified n ∷ cs) = heard n port feature (believes port feature cs)
believes port feature (c ∷ cs) = believes port feature cs

-- The four features that have a name.
pub data Feature : Type 0 where
  hdmi_feature freesync freesync_premium freesync_premium_pro : Feature

abbrev pub feature_name : Feature → String
feature_name hdmi_feature = "VRR-HDMI"
feature_name freesync = "VRR-FREESYNC"
feature_name freesync_premium = "VRR-FREESYNC-PREMIUM"
feature_name freesync_premium_pro = "VRR-FREESYNC-PREMIUM-PRO"

-- Is the type that of the feature?
abbrev pub has_feature : VrrType → Feature → Bool
has_feature hdmi_vrr hdmi_feature = true
has_feature amd_freesync freesync = true
has_feature amd_freesync_premium freesync_premium = true
has_feature amd_freesync_premium_pro freesync_premium_pro = true
has_feature _ _ = false

-- The events of one port, the newest first.
unfoldable pub vrr_events : ℕ → List VrrType → Input → Input
vrr_events port [] s = s
vrr_events port (t ∷ ts) s = vrr_status_event port t (vrr_events port ts s)

-- One notification, to a client that believes `v`.
heard-vrr :
    (port : ℕ) (t : VrrType) (f : Feature) (on v : Bool)
    → heard (vrr_notification port t on) port (feature_name f) v
      ≡ (if has_feature t f then on else v)
unfolding vrr_notification
heard-vrr port hdmi_vrr hdmi_feature on v = ground arith
heard-vrr port amd_freesync freesync on v = ground arith
heard-vrr port amd_freesync_premium freesync_premium on v = ground arith
heard-vrr port amd_freesync_premium_pro freesync_premium_pro on v = ground arith
heard-vrr port _ _ on v = ground arith

believes-vrr :
    (port : ℕ) (t : VrrType) (f : Feature) (on : Bool) (s : Input)
    → believes port (feature_name f) (avinput_vrr_change port t on s).log
      ≡ (if has_feature t f then on else believes port (feature_name f) s.log)
unfolding believes avinput_vrr_change
believes-vrr port t f on s = heard-vrr port t f on (believes port (feature_name f) s.log)

no_vrr-has_feature : (t : VrrType) (f : Feature) → is_vrr t ≡ false → has_feature t f ≡ false
no_vrr-has_feature vrr_none f h = refl
no_vrr-has_feature _ f h = cc

event-believes :
    (port : ℕ) (t : VrrType) (f : Feature) (s : Input)
    → believes port (feature_name f) s.log ≡ has_feature s.current_vrr_type f
    → believes port (feature_name f) (vrr_status_event port t s).log ≡ has_feature t f
unfolding vrr_status_event
event-believes port t f s h = ground (
  arith,
  h,
  no_vrr-has_feature t f,
  no_vrr-has_feature s.current_vrr_type f,
  believes-vrr port t f true s,
  believes-vrr port s.current_vrr_type f false s,
  believes-vrr port t f true (avinput_vrr_change port s.current_vrr_type false s),
)

vrr_events-believes :
    (port : ℕ) (ts : List VrrType) (f : Feature) (s : Input)
    → ((g : Feature) → believes port (feature_name g) s.log ≡ has_feature s.current_vrr_type g)
    → believes port (feature_name f) (vrr_events port ts s).log
      ≡ has_feature (vrr_events port ts s).current_vrr_type f
unfolding vrr_events vrr_status_event
vrr_events-believes port [] f s h = h f
vrr_events-believes port (t ∷ ts) f s h =
    event-believes port t f (vrr_events port ts s) (vrr_events-believes port ts f s h)

init_input-believes :
    (port : ℕ) (f : Feature)
    → believes port (feature_name f) init_input.log ≡ has_feature init_input.current_vrr_type f
unfolding believes
init_input-believes port f = refl

-- At no moment of the log does the client take two features for on at the port.
unfoldable pub NeverTwo : ℕ → List Call → Type 0
unfolding believes
NeverTwo port [] = Unit
NeverTwo port (c ∷ cs) =
    ((f g : Feature)
      → believes port (feature_name f) (c ∷ cs) ≡ true
      → believes port (feature_name g) (c ∷ cs) ≡ true
      → f ≡ g)
    × NeverTwo port cs

one_feature :
    (t : VrrType) (f g : Feature) → has_feature t f ≡ true → has_feature t g ≡ true → f ≡ g
one_feature hdmi_vrr hdmi_feature hdmi_feature h k = refl
one_feature amd_freesync freesync freesync h k = refl
one_feature amd_freesync_premium freesync_premium freesync_premium h k = refl
one_feature amd_freesync_premium_pro freesync_premium_pro freesync_premium_pro h k = refl
one_feature _ _ _ h k = cc

-- A notification after which the features of the type `u` are believed.
change-NeverTwo :
    (port : ℕ) (t u : VrrType) (on : Bool) (s : Input)
    → ((f : Feature)
        → believes port (feature_name f) (avinput_vrr_change port t on s).log ≡ has_feature u f)
    → NeverTwo port s.log
    → NeverTwo port (avinput_vrr_change port t on s).log
unfolding NeverTwo avinput_vrr_change
change-NeverTwo port t u on s h n =
    (λ f g x y. one_feature u f g (sym (h f) ∙ x) (sym (h g) ∙ y), n)

-- The end of the current feature, where one is on.
former_ended : ℕ → Input → Input
former_ended port s =
    if is_vrr s.current_vrr_type then avinput_vrr_change port s.current_vrr_type false s else s

former_ended-believes :
    (port : ℕ) (s : Input)
    → ((f : Feature) → believes port (feature_name f) s.log ≡ has_feature s.current_vrr_type f)
    → (f : Feature)
    → believes port (feature_name f) (former_ended port s).log ≡ has_feature vrr_none f
unfolding former_ended
former_ended-believes port s h f = ground (
  arith,
  h f,
  no_vrr-has_feature s.current_vrr_type f,
  believes-vrr port s.current_vrr_type f false s,
)

former_ended-NeverTwo :
    (port : ℕ) (s : Input)
    → ((f : Feature) → believes port (feature_name f) s.log ≡ has_feature s.current_vrr_type f)
    → NeverTwo port s.log
    → NeverTwo port (former_ended port s).log
unfolding former_ended
former_ended-NeverTwo port s h n = elim (Bool-cases (is_vrr s.current_vrr_type)) [
  | inl q ↦ simp q (
      change-NeverTwo port s.current_vrr_type vrr_none false s
        (λ f. ground (arith, h f, believes-vrr port s.current_vrr_type f false s)) n)
  | inr q ↦ simp q n
]

event-NeverTwo :
    (port : ℕ) (t : VrrType) (s : Input)
    → ((f : Feature) → believes port (feature_name f) s.log ≡ has_feature s.current_vrr_type f)
    → NeverTwo port s.log
    → NeverTwo port (vrr_status_event port t s).log
unfolding vrr_status_event former_ended
event-NeverTwo port t s h n =
    let m = former_ended-NeverTwo port s h n in
    elim (Bool-cases (is_vrr t)) [
      | inl q ↦ simp q (
          change-NeverTwo port t t true (former_ended port s)
            (λ f. ground (
              arith,
              believes-vrr port t f true (former_ended port s),
              former_ended-believes port s h f,
            ))
            m)
      | inr q ↦ simp q m
    ]

vrr_events-NeverTwo :
    (port : ℕ) (ts : List VrrType) → NeverTwo port (vrr_events port ts init_input).log
unfolding vrr_events NeverTwo
vrr_events-NeverTwo port [] = tt
vrr_events-NeverTwo port (t ∷ ts) =
    event-NeverTwo port t (vrr_events port ts init_input)
      (λ f. vrr_events-believes port ts f init_input (init_input-believes port))
      (vrr_events-NeverTwo port ts)

-- After any VRR events of one port, from the start of the plugin on, a client that goes by the
-- notifications takes a feature for on at the port exactly if it is the feature of the last event;
-- and after no single notification, within an event or at its end, does it take two features for on:
-- the end of the one is reported before the other begins.
pub vrr_is_known :
    (port : ℕ) (last : VrrType) (earlier : List VrrType) (f : Feature)
    → let s = vrr_events port (last ∷ earlier) init_input in
      (believes port (feature_name f) s.log ≡ has_feature last f)
      × (s.current_vrr_type ≡ last)
      × NeverTwo port s.log
unfolding vrr_events vrr_status_event
vrr_is_known port last earlier f = (
  event-believes port last f (vrr_events port earlier init_input)
      (vrr_events-believes port earlier f init_input (init_input-believes port)),
  refl,
  vrr_events-NeverTwo port (last ∷ earlier),
)

-- The plugin keeps one type for all the ports: when a second port reports that it has no VRR, the
-- end of the first port's feature is notified for the second port, and nothing else is; and a client
-- goes on taking the feature for on at the first.
pub vrr_of_another_port_ends :
    (port other : ℕ) (t : VrrType) (f : Feature)
    → port ≢ other
    → has_feature t f ≡ true
    → let before = vrr_status_event port t init_input in
      let s = vrr_status_event other vrr_none before in
      (s.log ≡ notified (game_feature_status_changed other (feature_name f) false) ∷ before.log)
      × (believes port (feature_name f) s.log ≡ true)
      × (s.current_vrr_type ≡ vrr_none)
unfolding vrr_status_event avinput_vrr_change vrr_notification believes
vrr_of_another_port_ends port other hdmi_vrr hdmi_feature n h = (refl, ground arith, refl)
vrr_of_another_port_ends port other amd_freesync freesync n h = (refl, ground arith, refl)
vrr_of_another_port_ends port other amd_freesync_premium freesync_premium n h =
    (refl, ground arith, refl)
vrr_of_another_port_ends port other amd_freesync_premium_pro freesync_premium_pro n h =
    (refl, ground arith, refl)
vrr_of_another_port_ends port other _ _ n h = cc
