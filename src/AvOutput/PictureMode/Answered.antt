-- ===== src/AvOutput/PictureMode/Answered.antt =====
-- What a setPictureMode request with the answer true has passed.
use mathlib.Core.Path.{subst}
use entservices_inputoutput.Base.{
  ◌≡◌, refl, ap, ◌∙◌, Bool, true, false, ◌&&◌, Option, none, some, List, ◌∷◌, if◌then◌else◌,
  Bool-cases, inl, inr, arith,
}
use entservices_inputoutput.HdmiCecSink.Routing.{codes}
use entservices_inputoutput.AvOutput.Branches.{if_true, if_false}
use entservices_inputoutput.AvOutput.Text.{Name}
use entservices_inputoutput.AvOutput.State.{Env}
use entservices_inputoutput.AvOutput.Capabilities.{
  CapDetails, no_details, is_capablity_check_passed,
}
use entservices_inputoutput.AvOutput.Request.{
  SetRequest, parsing_set_input_argument, is_set_required, validate_input_parameter,
}
use entservices_inputoutput.AvOutput.PictureMode.{
  ModeCall, set_tv_picture_mode, ModeOutcome, ModeRun, picture_mode, keep_modes, ended_mode,
  kept_outcome, mode_values, keep_request, apply_mode, mode_parsed, set_picture_mode,
}

module _ {S : Type 0} (e : Env S) where
  abbrev IsDone : ModeOutcome S → Type 0
  IsDone o = o.answer ≡ true

  pub if-IsDone :
      (b : Bool) (next : ModeOutcome S) (s : S) (log : List ModeCall)
      → IsDone (if b then next else ended_mode e false s log)
      → (if b then next else ended_mode e false s log) ≡ next
  if-IsDone true next s log h = refl
  if-IsDone false next s log h = cc

  mode_parsed-IsDone :
      (accepts : Name → Bool) (mode previous : Name) (dals : Bool) (s : S) (log : List ModeCall)
      (o : Option CapDetails)
      → IsDone (mode_parsed e accepts mode previous dals s log o)
      → (info : CapDetails) × ((o ≡ some info)
          × (mode_parsed e accepts mode previous dals s log o
              ≡ apply_mode e accepts mode previous dals info s log))
  mode_parsed-IsDone accepts mode previous dals s log none h = cc
  mode_parsed-IsDone accepts mode previous dals s log (some info) h = (
    info,
    (
      refl,
      if-IsDone
          (validate_input_parameter e (picture_mode e) mode
            && is_capablity_check_passed e (picture_mode e) info)
          (apply_mode e accepts mode previous dals info s log) s log h,
    ),
  )

  apply_mode-IsDone :
      (accepts : Name → Bool) (mode previous : Name) (dals : Bool) (info : CapDetails) (s : S)
      (log : List ModeCall)
      → IsDone (apply_mode e accepts mode previous dals info s log)
      → (l : List ModeCall) × (apply_mode e accepts mode previous dals info s log
          ≡ keep_request e mode previous dals info s l)
  unfolding apply_mode
  apply_mode-IsDone accepts mode previous dals info s log h =
      let sent = set_tv_picture_mode mode ∷ log in
      let b = is_set_required e (codes "Current") info.source info.format s in
      let x = keep_request e mode previous dals info s sent in
      let y = keep_request e mode previous dals info s log in
      let refusal = ended_mode e false s sent in
      elim (Bool-cases b) [
        | inl q ↦
            let f = if_true b (if accepts mode then x else refusal) y q in
            (sent, f ∙ if-IsDone (accepts mode) x s sent (subst IsDone f h))
        | inr q ↦ (log, if_false b (if accepts mode then x else refusal) y q)
      ]

  kept_outcome-IsDone :
      (mode previous : Name) (dals : Bool) (r : ModeRun S)
      → IsDone (kept_outcome e mode previous dals r)
      → (r.is_stopped ≡ false) × ((kept_outcome e mode previous dals r).store ≡ r.store)
  kept_outcome-IsDone mode previous dals r h = ground (arith, h)

  -- The run that a set request with the answer true ends with.
  pub set_picture_mode-IsDone :
      (accepts : Name → Bool) (mode previous : Name) (dals : Bool) (req : SetRequest) (s : S)
      (log : List ModeCall)
      → IsDone (set_picture_mode e accepts (some mode) previous dals req s log)
      → (info : CapDetails) × ((parsing_set_input_argument e req (picture_mode e) no_details s
            ≡ some info)
          × ((l : List ModeCall) × (let r =
                  keep_modes e mode
                    (mode_values e info)
                    (record { store = s; log = l; is_stopped = false }) in
                (r.is_stopped ≡ false)
                × ((set_picture_mode e accepts (some mode) previous dals req s log).store
                    ≡ r.store))))
  unfolding set_picture_mode keep_request
  set_picture_mode-IsDone accepts mode previous dals req s log h =
      let a =
        mode_parsed-IsDone accepts mode previous dals s log
          (parsing_set_input_argument e req (picture_mode e) no_details s) h in
      let b = apply_mode-IsDone accepts mode previous dals a.0 s log (subst IsDone a.1.1 h) in
      let whole = a.1.1 ∙ b.1 in
      let r =
        keep_modes e mode (mode_values e a.0)
          (record { store = s; log = b.0; is_stopped = false }) in
      let d = kept_outcome-IsDone mode previous dals r (subst IsDone whole h) in
      (a.0, (a.1.0, (b.0, (d.0, ap (λ o. o.store) whole ∙ d.1))))
