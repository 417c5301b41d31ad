-- ===== src/AvOutput/PictureMode/Reset.antt =====
-- resetPictureMode: the picture mode of the settings file comes back.
use mathlib.Core.Path.{subst}
use entservices_inputoutput.Base.{
  ℕ, ◌<◌, ℤ, pos, ◌≡◌, refl, sym, ap, ◌∙◌, Bool, true, false, not, ◌&&◌, Option, none, some, List,
  ◌∷◌, All, if◌then◌else◌, Bool-cases, inl, inr,
}
use entservices_inputoutput.AvOutput.Branches.{
  if_true, if_false, true_is_not_false, same_text, same_name_self,
}
use entservices_inputoutput.AvOutput.Text.{Name, same_name, strtok}
use entservices_inputoutput.AvOutput.State.{Env, IsLawful, same_int}
use entservices_inputoutput.AvOutput.Indices.{
  get_source_index, get_format_index, get_picture_mode_index,
}
use entservices_inputoutput.AvOutput.Capabilities.{
  CapDetails, member, no_details, is_capablity_check_passed,
}
use entservices_inputoutput.AvOutput.Update.{Values, each, without_all, values_of}
use entservices_inputoutput.AvOutput.Update.Loops.{All-map, each-back, each-keeps, each-All}
use entservices_inputoutput.AvOutput.Request.{
  SetRequest, picture_mode_key, parsing_set_input_argument, format_or_sdr, value_or,
}
use entservices_inputoutput.AvOutput.PictureMode.{
  ModeCall, set_tv_picture_mode, save_source_picture_mode, ModeOutcome, ModeRun, picture_mode,
  mode_values, ended_mode, get_picture_mode,
}
use entservices_inputoutput.AvOutput.PictureMode.Answered.{if-IsDone}
use entservices_inputoutput.AvOutput.PictureMode.Kept.{
  mode_requested, mode_values-requested, named_mode,
}
use entservices_inputoutput.AvOutput.Levels.Plain.{IsPlain, get_request, fetched}

not-true : (b : Bool) → not b ≡ true → b ≡ false
not-true true h = cc
not-true false h = refl

module _ {S : Type 0} (e : Env S) (accepts : Name → Bool) where
  abbrev stopped : S → ModeRun S → ModeRun S
  stopped s r = record r { store = s; is_stopped = true }

  abbrev saved_source : Name → (source format : ℤ) → S → List ModeCall → ModeRun S
  saved_source mode source format s log = record {
    store = s;
    log = save_source_picture_mode source format (get_picture_mode_index e mode) ∷ log;
    is_stopped = false;
  }

  abbrev is_current_video : (source format : ℤ) → Bool
  is_current_video source format =
      same_int (value_or e.current_source e.video_source_ip) source
      && same_int (format_or_sdr e) format

  -- The mode that is read after the clear.
  abbrev mode_read : (source format : ℤ) → S → ModeRun S → Option Name → ModeRun S
  mode_read source format s r none = stopped s r
  mode_read source format s r (some mode) =
      let sent = set_tv_picture_mode mode ∷ r.log in
      if is_current_video source format
      then (if accepts mode
          then saved_source mode source format s sent
          else record { store = s; log = sent; is_stopped = true })
      else saved_source mode source format s r.log

  abbrev mode_cleared : (source format : ℤ) → S × Bool → ModeRun S → ModeRun S
  mode_cleared source format p r =
      if p.1
      then mode_read source format p.0 r (e.get_local p.0 (picture_mode_key e source format))
      else stopped p.0 r

  -- One source and format.
  unfoldable reset_mode : (source format : ℤ) → ModeRun S → ModeRun S
  reset_mode source format r =
      if r.is_stopped
      then r
      else mode_cleared source format (e.clear_local (picture_mode_key e source format) r.store) r

  unfoldable reset_modes : Values → ModeRun S → ModeRun S
  unfolding each reset_mode
  reset_modes v r =
      each (λ source. each (λ format. reset_mode source format) v.format_values) v.source_values r

  abbrev reset_outcome : ModeRun S → ModeOutcome S
  reset_outcome r = ended_mode e (not r.is_stopped) r.store r.log

  abbrev reset_parsed : S → List ModeCall → Option CapDetails → ModeOutcome S
  reset_parsed s log none = ended_mode e false s log
  reset_parsed s log (some info) =
      if is_capablity_check_passed e (picture_mode e) info
      then reset_outcome
          (reset_modes (mode_values e info) record { store = s; log = log; is_stopped = false })
      else ended_mode e false s log

  -- `accepts`: does SetTVPictureMode succeed?
  unfoldable pub reset_picture_mode : SetRequest → S → List ModeCall → ModeOutcome S
  unfolding reset_modes parsing_set_input_argument is_capablity_check_passed
  reset_picture_mode req s log =
      reset_parsed s log (parsing_set_input_argument e req (picture_mode e) no_details s)

  abbrev Runs : ModeRun S → Type 0
  Runs r = r.is_stopped ≡ false

  abbrev IsReset : (source format : ℤ) → S → Type 0
  IsReset source format s =
      let key = picture_mode_key e source format in e.get_local s key ≡ e.default_local key

  either-store :
      (b : Bool) (x y : ModeRun S) (s : S)
      → x.store ≡ s
      → y.store ≡ s
      → (if b then x else y).store ≡ s
  either-store true x y s p q = p
  either-store false x y s p q = q

  mode_read-store :
      (source format : ℤ) (s : S) (r : ModeRun S) (o : Option Name)
      → (mode_read source format s r o).store ≡ s
  mode_read-store source format s r none = refl
  mode_read-store source format s r (some mode) =
      let sent = set_tv_picture_mode mode ∷ r.log in
      let saved = saved_source mode source format s sent in
      let refused : ModeRun S = record { store = s; log = sent; is_stopped = true } in
      either-store (is_current_video source format) (if accepts mode then saved else refused)
        (saved_source mode source format s r.log) s
        (either-store (accepts mode) saved refused s refl refl) refl

  mode_cleared-Runs :
      (source format : ℤ) (p : S × Bool) (r : ModeRun S)
      → Runs (mode_cleared source format p r)
      → (p.1 ≡ true) × ((mode_cleared source format p r).store ≡ p.0)
  mode_cleared-Runs source format (s, true) r h =
      (refl, mode_read-store source format s r (e.get_local s (picture_mode_key e source format)))
  mode_cleared-Runs source format (s, false) r h = cc

  reset_mode-Runs :
      (source format : ℤ) (r : ModeRun S)
      → Runs (reset_mode source format r)
      → let p = e.clear_local (picture_mode_key e source format) r.store in
        Runs r × ((p.1 ≡ true) × ((reset_mode source format r).store ≡ p.0))
  unfolding reset_mode
  reset_mode-Runs source format r h =
      let p = e.clear_local (picture_mode_key e source format) r.store in
      let next = mode_cleared source format p r in
      elim (Bool-cases r.is_stopped) [
        | inl n ↦ absurd (true_is_not_false (sym n ∙ subst Runs (if_true r.is_stopped r next n) h))
        | inr n ↦
            let q = if_false r.is_stopped r next n in
            let f = mode_cleared-Runs source format p r (subst Runs q h) in
            (n, (f.0, ap (λ t. t.store) q ∙ f.1))
      ]

  step-Resets :
      (law : IsLawful e) (x z source format : ℤ) (r : ModeRun S)
      → Runs (reset_mode source format r)
      → IsReset x z r.store
      → IsReset x z (reset_mode source format r).store
  step-Resets law x z source format r h k =
      let q = reset_mode-Runs source format r h in
      let key = picture_mode_key e source format in
      let j = picture_mode_key e x z in
      ap (λ s. e.get_local s j) q.1.1
      ∙ (law.get-clear r.store key j q.1.0
          ∙ same_text (same_name j key) (e.default_local j) (e.get_local r.store j)
              (e.default_local j) refl k)

  step-makes :
      (law : IsLawful e) (source format : ℤ) (r : ModeRun S)
      → Runs (reset_mode source format r)
      → IsReset source format (reset_mode source format r).store
  step-makes law source format r h =
      let q = reset_mode-Runs source format r h in
      let key = picture_mode_key e source format in
      ap (λ s. e.get_local s key) q.1.1
      ∙ (law.get-clear r.store key key q.1.0
          ∙ if_true (same_name key key) (e.default_local key) (e.get_local r.store key)
              (same_name_self key))

  abbrev formats_loop : Values → (source : ℤ) → ModeRun S → ModeRun S
  formats_loop w source = each (reset_mode source) w.format_values

  reset_modes-All :
      (law : IsLawful e) (w : Values) (r : ModeRun S)
      → Runs (reset_modes w r)
      → All (λ x. All (λ z. IsReset x z (reset_modes w r).store) w.format_values) w.source_values
  unfolding reset_modes
  reset_modes-All law w r h =
      each-All (formats_loop w) Runs (λ x u. All (λ z. IsReset x z u.store) w.format_values)
        (λ x u g.
          each-back (reset_mode x) Runs (λ z t k. (reset_mode-Runs x z t k).0) w.format_values u g)
        (λ x y u g.
          All-map
            (λ z.
              each-keeps (reset_mode y) Runs (λ t. IsReset x z t.store)
                (λ f t k. (reset_mode-Runs y f t k).0) (λ f t. step-Resets law x z y f t)
                w.format_values u g)
            w.format_values)
        (λ x u g.
          each-All (reset_mode x) Runs (λ z t. IsReset x z t.store)
            (λ f t k. (reset_mode-Runs x f t k).0) (λ f k t. step-Resets law x f x k t)
            (step-makes law x) w.format_values u g)
        w.source_values r h

  reset_parsed-IsDone :
      (s : S) (log : List ModeCall) (o : Option CapDetails)
      → (reset_parsed s log o).answer ≡ true
      → (info : CapDetails) × ((o ≡ some info)
          × (let r =
                reset_modes
                  (mode_values e info)
                  (record { store = s; log = log; is_stopped = false }) in
              (r.is_stopped ≡ false) × ((reset_parsed s log o).store ≡ r.store)))
  reset_parsed-IsDone s log none h = cc
  reset_parsed-IsDone s log (some info) h =
      let r =
        reset_modes (mode_values e info) (record { store = s; log = log; is_stopped = false }) in
      let q =
        if-IsDone e (is_capablity_check_passed e (picture_mode e) info) (reset_outcome r) s log h in
      (info, (refl, (not-true r.is_stopped (ap (λ o. o.answer) (sym q) ∙ h), ap (λ o. o.store) q)))

  -- After a reset of the picture mode that is answered with true, getPictureMode answers the settings
  -- file's mode for each source and format that the request names, the whole capability file's where
  -- it names none: if these and the picture mode of the get request are names that the parsing leaves
  -- as they are, the two have indices that fit into a byte, and the local parameters forget what is
  -- cleared.
  pub reset_picture_mode_is_default :
      (law : IsLawful e) (req : SetRequest) (s : S) (log : List ModeCall) (shown : CapDetails)
      (source asked format : Name) (before x z : ℕ)
      → (reset_picture_mode req s log).answer ≡ true
      → mode_requested e req s ≡ some shown
      → member source (without_all (strtok shown.source)) ≡ true
      → member format (strtok shown.format) ≡ true
      → IsPlain source
      → IsPlain asked
      → IsPlain format
      → get_source_index e source ≡ pos x
      → get_format_index e format ≡ pos z
      → x < 256
      → z < 256
      → get_picture_mode e
          (get_request e source asked format)
          before
          (reset_picture_mode req s log).store
        ≡ e.default_local
            (picture_mode_key e (get_source_index e source) (get_format_index e format))
  unfolding reset_picture_mode
  reset_picture_mode_is_default law req s log shown source asked format before x z h q ms mf ps pa
        pf hx hz bx bz =
      let a =
        reset_parsed-IsDone s log (parsing_set_input_argument e req (picture_mode e) no_details s)
          h in
      let start : ModeRun S = record { store = s; log = log; is_stopped = false } in
      let same = mode_values-requested e req s a.0 shown a.1.0 q in
      let w = values_of e shown in
      let all =
        reset_modes-All law w start
          (ap (λ v. (reset_modes v start).is_stopped) (sym same) ∙ a.1.1.0) in
      let listed = fetched e (picture_mode e) req s a.0 a.1.0 in
      named_mode e (λ i j. e.default_local (picture_mode_key e i j)) (reset_modes w start).store
        (reset_picture_mode req s log).store shown listed.0 source asked format before x z listed.1
        (a.1.1.1 ∙ ap (λ v. (reset_modes v start).store) same) ms mf ps pa pf hx hz bx bz all
