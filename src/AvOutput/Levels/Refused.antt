-- ===== src/AvOutput/Levels/Refused.antt =====
-- What stands between a request and the driver.
use mathlib.Core.Path.{subst}
use entservices_inputoutput.Base.{
  ℕ, ℤ, pos, negsuc, ◌≡◌, refl, sym, ap, ◌∙◌, ◌⊎◌, inl, inr, Bool, true, false, ◌||◌, Option, none,
  some, List, [], ◌&&◌, ◌∷◌, Bool-cases, if◌then◌else◌, arith,
}
use entservices_inputoutput.HdmiInput.{Param, absent, malformed, number}
use entservices_inputoutput.AvOutput.Branches.{if_false}
use entservices_inputoutput.AvOutput.State.{Call, Env, to_byte}
use entservices_inputoutput.AvOutput.Capabilities.{
  is_one_of, fetch_capablities, CapDetails, CapVectors, get_params_caps, no_details,
  is_capablity_check_passed,
}
use entservices_inputoutput.AvOutput.Request.{
  is_any, is_for_current, is_set_required, get_current_picture_mode, format_or_sdr, value_or,
  SetRequest, parsing_set_input_argument, validate_integer_input_parameter, stoi_at, less, below,
  in_range,
}
use entservices_inputoutput.AvOutput.Levels.{
  reset_request, ended, get_level, got, value, pq_index, Level, level_name, brightness, contrast,
  saturation, sharpness, hue, backlight, Outcome, platform_check, on_check, check_capability,
  on_parsed, checked, apply_request, set_level, reset_level,
}
use entservices_inputoutput.HdmiCecSink.Routing.{codes, contains}
use entservices_inputoutput.AvOutput.Text.{Name}
use entservices_inputoutput.AvOutput.Indices.{
  get_picture_mode_index, convert_source_index_to_string, convert_video_format_to_string,
}
use entservices_inputoutput.AvOutput.Storage.{generate_storage_identifier}
use entservices_inputoutput.AvOutput.Levels.Plain.{IsPlain, get_request, get_level-plain}
use entservices_inputoutput.AvOutput.Levels.Stored.{
  named_index, get_localparam-default, default-got,
}

module _ {S : Type 0} (e : Env S) where
  -- The request has passed the checks that it shares with the reset request.
  abbrev pub IsChecked : Level → SetRequest → S → Type 0
  IsChecked p req s =
      (info : CapDetails) × ((parsing_set_input_argument e req (level_name p) no_details s
          ≡ some info)
        × ((platform_check e p ≡ some true)
            × (is_capablity_check_passed e (level_name p) info ≡ true)))

  -- The value is no less than the first number of the range that the capability file has for the
  -- level, and no greater than the second.
  abbrev pub IsInRange : Level → ℤ → Type 0
  IsInRange p n =
      (info : CapVectors) × ((get_params_caps e (level_name p) ≡ some info)
        × ((from : ℤ) × ((to : ℤ) × ((stoi_at info.range_vector 0 ≡ some from)
                × ((stoi_at info.range_vector 1 ≡ some to)
                    × ((less n from ≡ false) × (less to n ≡ false)))))))

  -- What of the two numbers of a range a value passes.
  passed :
      (b : Bool) (x : Option Bool)
      → (if b then some false else x) ≡ some true
      → (b ≡ false) × (x ≡ some true)
  passed true x h = cc
  passed false x h = (refl, h)

  below-some :
      (n : ℤ) (o : Option ℤ)
      → below e n o ≡ some true
      → (to : ℤ) × ((o ≡ some to) × (less to n ≡ false))
  below-some n none h = cc
  below-some n (some to) h = (to, (refl, ground (arith, h)))

  bounds-some :
      (n : ℤ) (first second : Option ℤ)
      → (elim first [
        | none ↦ none
        | some from ↦ if less n from then some false else below e n second
      ])
        ≡ some true
      → (from : ℤ) × ((to : ℤ) × ((first ≡ some from)
            × ((second ≡ some to) × ((less n from ≡ false) × (less to n ≡ false)))))
  bounds-some n none second h = cc
  bounds-some n (some from) second h =
      let (l, g) = passed (less n from) (below e n second) h in
      let (to, (q, u)) = below-some n second g in (from, (to, (refl, (q, (l, u)))))

  found-some :
      (n : ℤ) (o : Option CapVectors)
      → (elim o [ none ↦ some false | some info ↦ in_range e n info.range_vector ]) ≡ some true
      → (info : CapVectors) × ((o ≡ some info)
          × ((from : ℤ) × ((to : ℤ) × ((stoi_at info.range_vector 0 ≡ some from)
                  × ((stoi_at info.range_vector 1 ≡ some to)
                      × ((less n from ≡ false) × (less to n ≡ false)))))))
  found-some n none h = cc
  found-some n (some info) h =
      (info, (refl, bounds-some n (stoi_at info.range_vector 0) (stoi_at info.range_vector 1) h))

  validated-IsInRange :
      (p : Level) (n : ℤ)
      → validate_integer_input_parameter e (level_name p) n ≡ some true
      → IsInRange p n
  unfolding validate_integer_input_parameter
  validated-IsInRange brightness n h = found-some n (get_params_caps e (level_name brightness)) h
  validated-IsInRange contrast n h = found-some n (get_params_caps e (level_name contrast)) h
  validated-IsInRange saturation n h = found-some n (get_params_caps e (level_name saturation)) h
  validated-IsInRange sharpness n h = found-some n (get_params_caps e (level_name sharpness)) h
  validated-IsInRange hue n h = found-some n (get_params_caps e (level_name hue)) h
  validated-IsInRange backlight n h = found-some n (get_params_caps e (level_name backlight)) h

  -- Nothing is stored, and the driver is not called.
  abbrev pub IsUntouched : Outcome S → S → List Call → Type 0
  IsUntouched o s log = (o.store ≡ s) × (o.log ≡ log)

  untouched :
      (o : Outcome S) {x : Outcome S} (s : S) (log : List Call)
      → o ≡ x
      → IsUntouched x s log
      → IsUntouched o s log
  untouched o s log q u = subst (λ y. IsUntouched y s log) (sym q) u

  on_check-either :
      (o : Option Bool) (s : S) (log : List Call) (next : Outcome S)
      → IsUntouched (on_check e o s log next) s log
        ⊎ ((o ≡ some true) × (on_check e o s log next ≡ next))
  on_check-either none s log next = inl (refl, refl)
  on_check-either (some false) s log next = inl (refl, refl)
  on_check-either (some true) s log next = inr (refl, refl)

  check_capability-either :
      (p : Level) (next : CapDetails → Outcome S) (s : S) (log : List Call) (info : CapDetails)
      → IsUntouched (check_capability e p next s log info) s log
        ⊎ (is_capablity_check_passed e (level_name p) info ≡ true)
  check_capability-either p next s log info =
      let b = is_capablity_check_passed e (level_name p) info in
      elim (Bool-cases b) [
        | inl q ↦ inr q
        | inr q ↦ inl (
            untouched (check_capability e p next s log info) s log
              (if_false b (next info) (ended e false s log) q) (refl, refl))
      ]

  on_parsed-either :
      (p : Level) (next : CapDetails → Outcome S) (s : S) (log : List Call) (o : Option CapDetails)
      → IsUntouched (on_parsed e p next s log o) s log
        ⊎ ((info : CapDetails) × ((o ≡ some info)
              × ((platform_check e p ≡ some true)
                  × (is_capablity_check_passed e (level_name p) info ≡ true))))
  on_parsed-either p next s log none = inl (refl, refl)
  on_parsed-either p next s log (some info) =
      let k = check_capability e p next s log info in
      elim (on_check-either (platform_check e p) s log k) [
        | inl u ↦ inl u
        | inr q ↦ elim (check_capability-either p next s log info) [
          | inl u ↦ inl (untouched (on_check e (platform_check e p) s log k) s log q.1 u)
          | inr c ↦ inr (info, (refl, (q.0, c)))
        ]
      ]

  set_number-either :
      (p : Level) (n : ℤ) (req : SetRequest) (s : S) (log : List Call)
      → IsUntouched (set_level e p (number n) req s log) s log
        ⊎ ((validate_integer_input_parameter e (level_name p) n ≡ some true) × IsChecked p req s)
  unfolding set_level checked
  set_number-either p n req s log =
      let next = λ (info : CapDetails). apply_request e p n info s log in
      elim (on_check-either (validate_integer_input_parameter e (level_name p) n) s log
        (checked e p req next s log)) [
          | inl u ↦ inl u
          | inr q ↦
              elim (on_parsed-either p next s log
                (parsing_set_input_argument e req (level_name p) no_details s)) [
                  | inl u ↦ inl (untouched (set_level e p (number n) req s log) s log q.1 u)
                  | inr c ↦ inr (q.0, c)
                ]
        ]

  set_level-either :
      (p : Level) (v : Param) (req : SetRequest) (s : S) (log : List Call)
      → IsUntouched (set_level e p v req s log) s log
        ⊎ ((n : ℤ) × ((v ≡ number n) × (IsInRange p n × IsChecked p req s)))
  unfolding set_level
  set_level-either p absent req s log = inl (refl, refl)
  set_level-either p malformed req s log = inl (refl, refl)
  set_level-either p (number n) req s log = elim (set_number-either p n req s log) [
    | inl u ↦ inl u
    | inr q ↦ inr (n, (refl, (validated-IsInRange p n q.0, q.1)))
  ]

  -- A set request stores nothing and calls nothing of the driver, or its value is a number that is
  -- neither less than the first nor greater than the second number of the range that the capability
  -- file has for the level, and its picture modes, sources and formats have passed the checks;
  -- a reset request likewise, without the value.
  pub acts_only_after_checks :
      (p : Level) (v : Param) (req : SetRequest) (before : ℕ) (s : S) (log : List Call)
      → (IsUntouched (set_level e p v req s log) s log
          ⊎ ((n : ℤ) × ((v ≡ number n) × (IsInRange p n × IsChecked p req s))))
        × (IsUntouched (reset_level e p req before s log) s log ⊎ IsChecked p req s)
  unfolding reset_level checked
  acts_only_after_checks p v req before s log = (
    set_level-either p v req s log,
    on_parsed-either p (λ info. reset_request e p before info s log) s log
        (parsing_set_input_argument e req (level_name p) no_details s),
  )

  -- A get request for a picture mode that the plugin does not know is not refused: the index of the
  -- mode is a byte, which is compared with -1, and the driver is asked for its default of mode 255.
  -- The names are ones that the parsing leaves as they are, the setting is supported, and no value
  -- is stored for the index.
  pub unknown_mode_is_answered :
      (p : Level) (source mode format : Name) (before : ℕ) (s : S) (listed : CapDetails)
      → fetch_capablities e (level_name p) ≡ some listed
      → platform_check e p ≡ some true
      → IsPlain source
      → IsPlain mode
      → IsPlain format
      → get_picture_mode_index e mode ≡ negsuc 0
      → e.get_local s
          (generate_storage_identifier e (level_name p) (named_index e source mode format))
        ≡ none
      → get_level e p (get_request e source mode format) before s
        ≡ value (
            value_or
              (e.default_pq
                (pq_index p)
                (record (named_index e source mode format) { pqmode_index = 255 }))
              (pos 0))
  unknown_mode_is_answered p source mode format before s listed q c hs hm hf m k =
      let i = named_index e source mode format in
      get_level-plain e p source mode format before s listed q c hs hm hf
      ∙ (ap (got e) (get_localparam-default e p i s k)
          ∙ (default-got e (e.default_pq (pq_index p) i)
              ∙ ap
                  (λ (b : ℤ). value (
                    value_or (e.default_pq (pq_index p) (record i { pqmode_index = to_byte b }))
                      (pos 0)))
                  m))

  any_contains_nothing : (text : Name) → contains [] text ≡ true
  any_contains_nothing [] = refl
  any_contains_nothing (c ∷ text) = refl

  for_current :
      (pqmode source format : Name) (s : S) (current : Option ℤ)
      → get_current_picture_mode e s ≡ none
      → is_for_current e pqmode source format s current
        ≡ is_for_current e (codes "Current") source format s current
  for_current pqmode source format s none h = refl
  for_current pqmode source format s (some current) h =
      let rest =
        is_any e (convert_source_index_to_string e current) source
        && is_any e (convert_video_format_to_string e (format_or_sdr e)) format in
      let listed = λ (text : Name). is_one_of ("Global" ∷ "Current" ∷ "none" ∷ []) text in
      ap (λ o. is_any e (value_or o []) pqmode && rest) h
      ∙ (ap (λ b. (b || listed pqmode) && rest) (any_contains_nothing pqmode)
          ∙ sym (ap (λ o. is_any e (value_or o []) (codes "Current") && rest) h))

  -- If the current picture mode cannot be read, a request for any picture mode is taken for one for
  -- the current mode: isSetRequired answers as for "Current".
  unread_mode_is_current :
      (pqmode source format : Name) (s : S)
      → get_current_picture_mode e s ≡ none
      → is_set_required e pqmode source format s
        ≡ is_set_required e (codes "Current") source format s
  unfolding is_set_required
  unread_mode_is_current pqmode source format s h =
      for_current pqmode source format s e.current_source h
