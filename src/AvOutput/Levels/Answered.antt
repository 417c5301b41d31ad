-- ===== src/AvOutput/Levels/Answered.antt =====
-- What a set or reset request with the answer true has passed.
use mathlib.Core.Path.{subst}
use entservices_inputoutput.Base.{
  ℕ, ℤ, pos, ◌≡◌, refl, ap, ◌∙◌, Bool, true, false, Option, none, some, List, ◌∷◌, if◌then◌else◌,
  Bool-cases, inl, inr, arith,
}
use entservices_inputoutput.HdmiInput.{number}
use entservices_inputoutput.AvOutput.Branches.{if_true, if_false}
use entservices_inputoutput.AvOutput.Text.{◌>>=◌}
use entservices_inputoutput.AvOutput.State.{Call, apply, Env, Run}
use entservices_inputoutput.AvOutput.Storage.{get_localparam, found, Local}
use entservices_inputoutput.AvOutput.Capabilities.{
  CapDetails, no_details, is_capablity_check_passed,
}
use entservices_inputoutput.AvOutput.Update.{
  set_action, reset_action, get_available_capability_modes, update_av_output_tv_param,
}
use entservices_inputoutput.AvOutput.Request.{
  SetRequest, get_param_index, parsing_set_input_argument, is_set_required,
  validate_integer_input_parameter,
}
use entservices_inputoutput.AvOutput.Levels.{
  Level, level_name, pq_index, answered, Outcome, platform_check, start_run, run_outcome, ended,
  on_check, check_capability, on_parsed, save_request, apply_request, checked, throws, apply_local,
  current_details, after_reset, reset_request, reset_level, set_level,
}

bind-some {ℓ κ} :
    {A : Type ℓ} {B : Type κ} (o : Option A) (f : A → Option B) (y : B)
    → (o >>= f) ≡ some y
    → (x : A) × (o ≡ some x)
bind-some none f y h = cc
bind-some (some x) f y h = (x, refl)

module _ {S : Type 0} (e : Env S) where
  abbrev IsTrue : Outcome S → Type 0
  IsTrue o = o.answer ≡ answered true

  -- A request that is answered with true has passed the check.
  on_check-IsTrue :
      (o : Option Bool) (s : S) (log : List Call) (next : Outcome S)
      → IsTrue (on_check e o s log next)
      → (o ≡ some true) × (on_check e o s log next ≡ next)
  on_check-IsTrue none s log next h = cc
  on_check-IsTrue (some false) s log next h = cc
  on_check-IsTrue (some true) s log next h = (refl, refl)

  -- A conditional with an answer that is not true has the other branch.
  if-IsTrue :
      (b : Bool) (next refusal : Outcome S)
      → (IsTrue refusal → ⊥)
      → IsTrue (if b then next else refusal)
      → (if b then next else refusal) ≡ next
  if-IsTrue true next refusal n h = refl
  if-IsTrue false next refusal n h = absurd (n h)

  ended-IsTrue : (s : S) (log : List Call) → IsTrue (ended e false s log) → ⊥
  ended-IsTrue s log h = cc

  run_outcome-IsTrue :
      (r : Run S)
      → IsTrue (run_outcome e r)
      → ((r.is_failed ≡ false) × (r.is_thrown ≡ false)) × ((run_outcome e r).store ≡ r.store)
  run_outcome-IsTrue r h = ground (arith, h)

  on_parsed-IsTrue :
      (p : Level) (next : CapDetails → Outcome S) (s : S) (log : List Call) (o : Option CapDetails)
      → IsTrue (on_parsed e p next s log o)
      → (info : CapDetails) × ((o ≡ some info)
          × ((platform_check e p ≡ some true) × (on_parsed e p next s log o ≡ next info)))
  on_parsed-IsTrue p next s log none h = cc
  on_parsed-IsTrue p next s log (some info) h =
      let k = check_capability e p next s log info in
      let q = on_check-IsTrue (platform_check e p) s log k h in
      (
        info,
        (
          refl,
          (
            q.0,
            q.1
                ∙ if-IsTrue (is_capablity_check_passed e (level_name p) info) (next info)
                    (ended e false s log) (ended-IsTrue s log) (subst IsTrue q.1 h),
          ),
        ),
      )

  apply_request-IsTrue :
      (p : Level) (v : ℤ) (info : CapDetails) (s : S) (log : List Call)
      → IsTrue (apply_request e p v info s log)
      → (l : List Call) × (apply_request e p v info s log ≡ save_request e p v info s l)
  unfolding apply_request
  apply_request-IsTrue p v info s log h =
      let sent = apply (pq_index p) v ∷ log in
      let b = is_set_required e info.pqmode info.source info.format s in
      let c = e.accepts (apply (pq_index p) v) in
      let x = save_request e p v info s sent in
      let refusal = ended e false s sent in
      let other = save_request e p v info s log in
      elim (Bool-cases b) [
        | inl q ↦
            let f = if_true b (if c then x else refusal) other q in
            (sent, f ∙ if-IsTrue c x refusal (ended-IsTrue s sent) (subst IsTrue f h))
        | inr q ↦ (log, if_false b (if c then x else refusal) other q)
      ]

  -- The sources, modes and formats that the request stands for.
  abbrev pub requested : Level → SetRequest → S → Option CapDetails
  requested p req s = parsing_set_input_argument e req (level_name p) no_details s >>= λ info.
      get_available_capability_modes e info

  -- A set request that is answered with true has run the loops to their end.
  pub set_level-IsTrue :
      (p : Level) (v : ℤ) (req : SetRequest) (s : S) (log : List Call)
      → IsTrue (set_level e p (number v) req s log)
      → (platform_check e p ≡ some true)
        × ((info : CapDetails) × ((parsing_set_input_argument e req (level_name p) no_details s
                ≡ some info)
              × ((l : List Call) × (let r =
                      update_av_output_tv_param e set_action
                        (level_name p)
                        (pq_index p)
                        info
                        (start_run e v s l) in
                    ((r.is_failed ≡ false) × (r.is_thrown ≡ false))
                    × ((set_level e p (number v) req s log).store ≡ r.store)))))
  unfolding set_level checked save_request
  set_level-IsTrue p v req s log h =
      let a =
        on_check-IsTrue (validate_integer_input_parameter e (level_name p) v) s log
          (checked e p req (λ info. apply_request e p v info s log) s log) h in
      let b =
        on_parsed-IsTrue p (λ info. apply_request e p v info s log) s log
          (parsing_set_input_argument e req (level_name p) no_details s) (subst IsTrue a.1 h) in
      let c = apply_request-IsTrue p v b.0 s log (subst IsTrue (a.1 ∙ b.1.1.1) h) in
      let whole = a.1 ∙ (b.1.1.1 ∙ c.1) in
      let r =
        update_av_output_tv_param e set_action (level_name p) (pq_index p) b.0
          (start_run e v s c.0) in
      let d = run_outcome-IsTrue r (subst IsTrue whole h) in
      (b.1.1.0, (b.0, (b.1.0, (c.0, (d.0, ap (λ o. o.store) whole ∙ d.1)))))

  guarded-IsTrue :
      (r : Run S) (next : Outcome S)
      → next.store ≡ r.store
      → IsTrue (
          if r.is_thrown
          then throws e r.store r.log
          else if r.is_failed
          then ended e false r.store r.log
          else next)
      → ((r.is_failed ≡ false) × (r.is_thrown ≡ false))
        × ((if r.is_thrown
              then throws e r.store r.log
              else if r.is_failed
              then ended e false r.store r.log
              else next).store
            ≡ r.store)
  guarded-IsTrue r next q h = ground (arith, h, q)

  apply_local-store :
      (p : Level) (l : Local) (s : S) (log : List Call) → (apply_local e p l s log).store ≡ s
  apply_local-store p (found v) s log = refl
  apply_local-store p _ s log = refl

  either-store :
      (b : Bool) (x y : Outcome S) (s : S)
      → x.store ≡ s
      → y.store ≡ s
      → (if b then x else y).store ≡ s
  either-store true x y s p q = p
  either-store false x y s p q = q

  after_reset-IsTrue :
      (p : Level) (info : CapDetails) (before : ℕ) (r : Run S)
      → IsTrue (after_reset e p info before r)
      → ((r.is_failed ≡ false) × (r.is_thrown ≡ false))
        × ((after_reset e p info before r).store ≡ r.store)
  after_reset-IsTrue p info before r h =
      let b = is_set_required e info.pqmode info.source info.format r.store in
      let l =
        get_localparam e (level_name p)
          (get_param_index e (current_details e info) before r.store).0 (pos 0) (pq_index p) false
          r.store in
      let x = apply_local e p l r.store r.log in
      let y = ended e true r.store r.log in
      guarded-IsTrue r (if b then x else y)
        (either-store b x y r.store (apply_local-store p l r.store r.log) refl) h

  -- A reset request that is answered with true has run the loops to their end.
  pub reset_level-IsTrue :
      (p : Level) (req : SetRequest) (before : ℕ) (s : S) (log : List Call)
      → IsTrue (reset_level e p req before s log)
      → (platform_check e p ≡ some true)
        × ((info : CapDetails) × ((parsing_set_input_argument e req (level_name p) no_details s
                ≡ some info)
              × (let r =
                    update_av_output_tv_param e reset_action
                      (level_name p)
                      (pq_index p)
                      info
                      (start_run e (pos 0) s log) in
                  ((r.is_failed ≡ false) × (r.is_thrown ≡ false))
                  × ((reset_level e p req before s log).store ≡ r.store))))
  unfolding reset_level checked reset_request
  reset_level-IsTrue p req before s log h =
      let b =
        on_parsed-IsTrue p (λ info. reset_request e p before info s log) s log
          (parsing_set_input_argument e req (level_name p) no_details s) h in
      let r =
        update_av_output_tv_param e reset_action (level_name p) (pq_index p) b.0
          (start_run e (pos 0) s log) in
      let d = after_reset-IsTrue p b.0 before r (subst IsTrue b.1.1.1 h) in
      (b.1.1.0, (b.0, (b.1.0, (d.0, ap (λ o. o.store) b.1.1.1 ∙ d.1))))
