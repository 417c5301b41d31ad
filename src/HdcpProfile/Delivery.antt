-- ===== src/HdcpProfile/Delivery.antt =====
-- Events of Device Settings, jobs of the worker pool and registrations in any order: who is told
-- what.
use entservices_inputoutput.Base.{
  ℕ, ◌+◌, ◌≡◌, ◌≢◌, refl, Bool, true, false, Option, List, [], ◌∷◌, ◌++◌, ◌==◌, if◌then◌else◌, All,
  arith, Bool-cases, inl, inr,
}
use mathlib.Core.Path.{subst}
use entservices_inputoutput.HdcpProfile.{
  DsConstants, VideoOutputPort, HdcpStatus, Profile, init_profile, is_registered, register,
  unregister, display_connection_changed, DsEvent, hdmi_hotplug, hdcp_status, other_event,
  ds_hdmi_event_handler, tell, dispatch,
}
use entservices_inputoutput.HdcpProfile.Status.{IsConsistent, get_hdcp_status-IsConsistent}
use entservices_inputoutput.HdcpProfile.Clients.{Distinct, Distinct-append, Distinct-erase}

-- The worker pool runs any of the jobs: those before it and after it are left.
pub data ProfileStep (k : DsConstants) : Profile → Profile → Type 0 where
  registers : (c : ℕ) (s : Profile) → ProfileStep k s (register c s)
  unregisters : (c : ℕ) (s : Profile) → ProfileStep k s (unregister c s).0
  receives :
      (e : DsEvent) (power_answers : Bool) (port : Option VideoOutputPort) (s : Profile)
      → ProfileStep k s (ds_hdmi_event_handler k e power_answers port s)
  runs :
      (before after : List HdcpStatus) (h : HdcpStatus) (s : Profile)
      → s.jobs ≡ before ++ h ∷ after
      → ProfileStep k s (dispatch h (record s { jobs = before ++ after }))

pub data Reaches (k : DsConstants) (s : Profile) : Profile → Type 0 where
  start : Reaches k s s
  and_then : {t u : Profile} → Reaches k s t → ProfileStep k t u → Reaches k s u

-- How often a client has been told something.
unfoldable pub told : ℕ → List (ℕ × HdcpStatus) → ℕ
told c [] = 0
told c (e ∷ es) = (if e.0 == c then 1 else 0) + told c es

-- What is sent is consistent.
Consistent : DsConstants → ℕ × HdcpStatus → Type 0
Consistent k e = IsConsistent k e.1

record IsSound (k : DsConstants) (s : Profile) : Type 0 where
  distinct : Distinct s.clients
  queued : All (IsConsistent k) s.jobs
  sent : All (Consistent k) s.log

All-append {ℓ κ} :
    {A : Type ℓ} (P : A → Type κ) (xs ys : List A) → All P xs → All P ys → All P (xs ++ ys)
All-append P [] ys h g = g
All-append P (x ∷ xs) ys h g = (h.0, All-append P xs ys h.1 g)

All-split {ℓ κ} :
    {A : Type ℓ} (P : A → Type κ) (xs ys : List A) → All P (xs ++ ys) → All P xs × All P ys
All-split P [] ys h = (tt, h)
All-split P (x ∷ xs) ys h = let q = All-split P xs ys h.1 in ((h.0, q.0), q.1)

All-tell :
    (k : DsConstants) (h : HdcpStatus) (cs : List ℕ)
    → IsConsistent k h
    → All (Consistent k) (tell h cs)
unfolding tell Consistent
All-tell k h [] i = tt
All-tell k h (c ∷ cs) i = (i, All-tell k h cs i)

register-IsSound : (k : DsConstants) (c : ℕ) (s : Profile) → IsSound k s → IsSound k (register c s)
unfolding register
register-IsSound k c s i = elim (Bool-cases (is_registered c s.clients)) [
  | inl e ↦ simp e i
  | inr e ↦ simp e (record {
    distinct = Distinct-append c s.clients e i.distinct;
    queued = i.queued;
    sent = i.sent;
  })
]

unregister-IsSound :
    (k : DsConstants) (c : ℕ) (s : Profile) → IsSound k s → IsSound k (unregister c s).0
unfolding unregister
unregister-IsSound k c s i = elim (Bool-cases (is_registered c s.clients)) [
  | inl e ↦ simp e (record {
    distinct = Distinct-erase c s.clients i.distinct;
    queued = i.queued;
    sent = i.sent;
  })
  | inr e ↦ simp e i
]

changed-IsSound :
    (k : DsConstants) (port : Option VideoOutputPort) (s : Profile)
    → k.version_max ≢ k.version_2x
    → IsSound k s
    → IsSound k (display_connection_changed k port s)
unfolding display_connection_changed
changed-IsSound k port s n i = record {
  distinct = i.distinct;
  queued =
      All-append (IsConsistent k) s.jobs _ i.queued ((get_hdcp_status-IsConsistent k port n).0, tt);
  sent = i.sent;
}

receives-IsSound :
    (k : DsConstants) (e : DsEvent) (b : Bool) (port : Option VideoOutputPort) (s : Profile)
    → k.version_max ≢ k.version_2x
    → IsSound k s
    → IsSound k (ds_hdmi_event_handler k e b port s)
unfolding ds_hdmi_event_handler
receives-IsSound k hdmi_hotplug b port s n i = changed-IsSound k port s n i
receives-IsSound k hdcp_status true port s n i = changed-IsSound k port s n i
receives-IsSound k hdcp_status false port s n i = i
receives-IsSound k other_event b port s n i = i

runs-IsSound :
    (k : DsConstants) (before after : List HdcpStatus) (h : HdcpStatus) (s : Profile)
    → s.jobs ≡ before ++ h ∷ after
    → IsSound k s
    → IsSound k (dispatch h (record s { jobs = before ++ after }))
unfolding dispatch
runs-IsSound k before after h s e i =
    let q =
      All-split (IsConsistent k) before (h ∷ after) (subst (All (IsConsistent k)) e i.queued) in
    record {
      distinct = i.distinct;
      queued = All-append (IsConsistent k) before after q.0 q.1.1;
      sent = All-append (Consistent k) s.log _ i.sent (All-tell k h s.clients q.1.0);
    }

Reaches-IsSound :
    (k : DsConstants) {s t : Profile}
    → k.version_max ≢ k.version_2x
    → Reaches k s t
    → IsSound k s
    → IsSound k t
Reaches-IsSound k n start i = i
Reaches-IsSound k n (and_then r (registers c u)) i =
    register-IsSound k c u (Reaches-IsSound k n r i)
Reaches-IsSound k n (and_then r (unregisters c u)) i =
    unregister-IsSound k c u (Reaches-IsSound k n r i)
Reaches-IsSound k n (and_then r (receives e b port u)) i =
    receives-IsSound k e b port u n (Reaches-IsSound k n r i)
Reaches-IsSound k n (and_then r (runs before after h u e)) i =
    runs-IsSound k before after h u e (Reaches-IsSound k n r i)

told-append : (c : ℕ) (es fs : List (ℕ × HdcpStatus)) → told c (es ++ fs) ≡ told c es + told c fs
unfolding told
told-append c [] fs = omega arith
told-append c (e ∷ es) fs = ground (arith, told-append c es fs)

told-absent :
    (c : ℕ) (h : HdcpStatus) (cs : List ℕ) → is_registered c cs ≡ false → told c (tell h cs) ≡ 0
unfolding told tell
told-absent c h [] e = refl
told-absent c h (x ∷ xs) e = ground (arith, told-absent c h xs)

told-tell :
    (c : ℕ) (h : HdcpStatus) (cs : List ℕ)
    → Distinct cs
    → told c (tell h cs) ≡ (if is_registered c cs then 1 else 0)
unfolding told tell Distinct
told-tell c h [] d = refl
told-tell c h (x ∷ xs) d = elim (Bool-cases (x == c)) [
  | inl e ↦ ground (arith, told-absent c h xs, d.0)
  | inr e ↦ ground (arith, told-tell c h xs d.1)
]

init_profile-IsSound : (k : DsConstants) → IsSound k init_profile
unfolding init_profile Distinct
init_profile-IsSound k = record { distinct = tt; queued = tt; sent = tt }

-- After any registrations, events and jobs, in any order: everything that a client has been told is
-- consistent, no client is registered twice, and a job that runs tells each registered client once
-- and nobody else.
pub clients_are_told_once :
    (k : DsConstants) (t : Profile)
    → k.version_max ≢ k.version_2x
    → Reaches k init_profile t
    → All (λ e. IsConsistent k e.1) t.log
      × (Distinct t.clients
          × ((h : HdcpStatus) (c : ℕ)
              → told c (dispatch h t).log
                ≡ told c t.log + (if is_registered c t.clients then 1 else 0)))
unfolding Consistent dispatch
clients_are_told_once k t n r =
    let i = Reaches-IsSound k n r (init_profile-IsSound k) in
    (
      i.sent,
      (
        i.distinct,
        λ h c.
            ground
              (arith, told-append c t.log (tell h t.clients), told-tell c h t.clients i.distinct),
      ),
    )
