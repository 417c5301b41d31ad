-- ===== src/AvOutput/Levels/Stored.antt =====
-- A level that is set is read back, and the default after it is reset.
use mathlib.Core.Path.{subst}
use entservices_inputoutput.Base.{
  ℕ, ℤ, pos, ◌≡◌, refl, sym, ap, ◌∙◌, true, false, ◌||◌, Option, none, some, List, [], ◌∷◌, map,
  All, Bool-cases, inl, inr,
}
use entservices_inputoutput.HdmiInput.{number}
use entservices_inputoutput.AvOutput.Branches.{same_name-equal}
use entservices_inputoutput.AvOutput.Text.{◌>>=◌, Name, same_name, strtok, to_string, stoi}
use entservices_inputoutput.AvOutput.Text.Numbers.{IsInt, stoi-to_string}
use entservices_inputoutput.AvOutput.State.{ParamIndex, Call, Env, IsLawful, Run}
use entservices_inputoutput.AvOutput.Indices.{
  get_source_index, get_picture_mode_index, get_format_index,
}
use entservices_inputoutput.AvOutput.Storage.{
  default_result, read_local, read_result, read_stored, to_store, get_localparam,
  generate_storage_identifier, found,
}
use entservices_inputoutput.AvOutput.Capabilities.{CapDetails, no_details, member}
use entservices_inputoutput.AvOutput.Update.{
  Action, get_save_config, update_saved, set_action, reset_action, without_all, values_of,
  get_available_capability_modes, update_values, update_av_output_tv_param,
}
use entservices_inputoutput.AvOutput.Update.Combined.{index_at, AllIndices}
use entservices_inputoutput.AvOutput.Update.Cleared.{IsClean, update_values-Cleared}
use entservices_inputoutput.AvOutput.Update.Written.{
  IsGood, update_values-Written, update_values-level,
}
use entservices_inputoutput.AvOutput.Request.{SetRequest, value_or, parsing_set_input_argument}
use entservices_inputoutput.AvOutput.Levels.{
  Level, brightness, level_name, pq_index, answered, value, start_run, reset_level, set_level, got,
  get_level,
}
use entservices_inputoutput.AvOutput.Levels.Answered.{
  requested, set_level-IsTrue, reset_level-IsTrue,
}
use entservices_inputoutput.AvOutput.Levels.Plain.{IsPlain, get_request, fetched, get_level-plain}

-- An entry of a list of which something holds.
pub All-member {ℓ} :
    (P : Name → Type ℓ) (n : Name) (ns : List Name) → member n ns ≡ true → All P ns → P n
unfolding member
All-member P n [] h a = cc
All-member P n (m ∷ ns) h a = elim (Bool-cases (same_name m n)) [
  | inl q ↦ subst P (same_name-equal m n q) a.0
  | inr q ↦ All-member P n ns (ap (λ b. b || member n ns) (sym q) ∙ h) a.1
]

pub All-mapped {ℓ} :
    (P : ℤ → Type ℓ) (f : Name → ℤ) (ns : List Name) → All P (map f ns) → All (λ n. P (f n)) ns
All-mapped P f [] a = tt
All-mapped P f (n ∷ ns) a = (a.0, All-mapped P f ns a.1)

module _ {S : Type 0} (e : Env S) where
  -- The indices of three names.
  abbrev pub named_index : (source mode format : Name) → ParamIndex
  named_index source mode format =
      index_at (get_source_index e source) (get_picture_mode_index e mode)
        (get_format_index e format)

  level_value :
      (p : Level) (key text : Name)
      → read_stored e.constants (level_name p) key text (pos 0) ≡ stoi text
  unfolding read_stored
  level_value brightness key text = refl
  level_value _ key text = refl

  level_text : (p : Level) (v : ℤ) → to_store e.constants (level_name p) v ≡ some (to_string v)
  unfolding to_store
  level_text brightness v = refl
  level_text _ v = refl

  -- A stored level is what getLocalparam gives.
  get_localparam-stored :
      (p : Level) (i : ParamIndex) (v : ℤ) (s : S)
      → IsInt v
      → e.get_local s (generate_storage_identifier e (level_name p) i) ≡ some (to_string v)
      → get_localparam e (level_name p) i (pos 0) (pq_index p) false s ≡ found v
  unfolding get_localparam generate_storage_identifier
  get_localparam-stored p i v s b h =
      let key = generate_storage_identifier e (level_name p) i in
      ap (read_local e (level_name p) key i (pos 0) (pq_index p) false) h
      ∙ ap read_result (level_value p key (to_string v) ∙ stoi-to_string v b)

  -- What holds of every combination holds of the indices of the names that are listed.
  named :
      (Q : ParamIndex → Type 0) (shown : CapDetails) (source mode format : Name)
      → member source (without_all (strtok shown.source)) ≡ true
      → member mode (strtok shown.pqmode) ≡ true
      → member format (strtok shown.format) ≡ true
      → AllIndices Q (values_of e shown)
      → Q (named_index source mode format)
  named Q shown source mode format ms mm mf a =
      let w = values_of e shown in
      let x = get_source_index e source in
      let y = get_picture_mode_index e mode in
      let formats_at = λ (i j : ℤ). All (λ k. Q (index_at i j k)) w.format_values in
      let modes_at = λ (i : ℤ). All (formats_at i) w.pqmode_values in
      let at_source =
        All-member (λ t. modes_at (get_source_index e t)) source (without_all (strtok shown.source))
          ms (All-mapped modes_at (get_source_index e) (without_all (strtok shown.source)) a) in
      let at_mode =
        All-member (λ t. formats_at x (get_picture_mode_index e t)) mode (strtok shown.pqmode) mm
          (All-mapped (formats_at x) (get_picture_mode_index e) (strtok shown.pqmode) at_source) in
      All-member (λ t. Q (index_at x y (get_format_index e t))) format (strtok shown.format) mf
        (All-mapped (λ k. Q (index_at x y k)) (get_format_index e) (strtok shown.format) at_mode)

  -- The loops that an action runs for the request.
  updated :
      (action : Action) (p : Level) (req : SetRequest) (s : S) (info shown : CapDetails) (r : Run S)
      → parsing_set_input_argument e req (level_name p) no_details s ≡ some info
      → requested e p req s ≡ some shown
      → update_av_output_tv_param e action (level_name p) (pq_index p) info r
        ≡ update_values e action (level_name p) (pq_index p) (values_of e shown) r
  unfolding update_av_output_tv_param get_save_config
  updated action p req s info shown r h q =
      ap
        (λ o. update_saved e action (level_name p) (pq_index p) r (o >>= λ m. some (values_of e m)))
        (ap (λ o. o >>= λ x. get_available_capability_modes e x) (sym h) ∙ q)

  -- A level that is set with the answer true is what a get request answers, for each source, picture
  -- mode and format that the request names, the whole capability file's where it names none: if the
  -- three are names of the lists that the parsing leaves as they are, for a value of 32 bits and
  -- local parameters that keep what is set.
  pub set_level_is_read :
      (law : IsLawful e) (p : Level) (v : ℤ) (b : IsInt v) (req : SetRequest) (s : S)
      (log : List Call) (shown : CapDetails) (source mode format : Name) (before : ℕ)
      → (set_level e p (number v) req s log).answer ≡ answered true
      → requested e p req s ≡ some shown
      → member source (without_all (strtok shown.source)) ≡ true
      → member mode (strtok shown.pqmode) ≡ true
      → member format (strtok shown.format) ≡ true
      → IsPlain source
      → IsPlain mode
      → IsPlain format
      → get_level e p
          (get_request e source mode format)
          before
          (set_level e p (number v) req s log).store
        ≡ value v
  set_level_is_read law p v b req s log shown source mode format before h q ms mm mf ps pm pf =
      let a = set_level-IsTrue e p v req s log h in
      let run = start_run e v s a.1.1.1.0 in
      let n = level_name p in
      let w = values_of e shown in
      let same = updated set_action p req s a.1.0 shown run a.1.1.0 q in
      let end = a.1.1.1.1 in
      let good : IsGood v (update_values e set_action n (pq_index p) w run) = (
        ap (λ r. r.is_failed) (sym same) ∙ end.0.0,
        (
          ap (λ r. r.is_thrown) (sym same) ∙ end.0.1,
          update_values-level e law n (pq_index p) v (to_string v) (level_text p v) w run refl,
        ),
      ) in
      let texts =
        update_values-Written e law n (pq_index p) v (to_string v) (level_text p v) w run good in
      let u = (set_level e p (number v) req s log).store in
      let i = named_index source mode format in
      let key = generate_storage_identifier e n i in
      let listed = fetched e n req s a.1.0 a.1.1.0 in
      get_level-plain e p source mode format before u listed.0 listed.1 a.0 ps pm pf
      ∙ ap (got e) (
          get_localparam-stored p i v u b (
            ap (λ r. e.get_local r key) (end.1 ∙ ap (λ r. r.store) same)
            ∙ named
                (λ j.
                  e.get_local (update_values e set_action n (pq_index p) w run).store
                    (generate_storage_identifier e n j)
                  ≡ some (to_string v))
                shown source mode format ms mm mf texts))

  -- Without a stored value getLocalparam gives the default.
  pub get_localparam-default :
      (p : Level) (i : ParamIndex) (s : S)
      → e.get_local s (generate_storage_identifier e (level_name p) i) ≡ none
      → get_localparam e (level_name p) i (pos 0) (pq_index p) false s
        ≡ default_result (e.default_pq (pq_index p) i) (pos 0)
  unfolding get_localparam generate_storage_identifier
  get_localparam-default p i s h =
      ap
        (read_local e (level_name p) (generate_storage_identifier e (level_name p) i) i (pos 0)
          (pq_index p) false)
        h

  pub default-got : (o : Option ℤ) → got e (default_result o (pos 0)) ≡ value (value_or o (pos 0))
  default-got none = refl
  default-got (some v) = refl

  -- After a reset request that is answered with true, a get request for a source, picture mode and
  -- format that it names, the whole capability file's where it names none, is answered with the
  -- driver's default for their indices, 0 where the driver gives none: if the three are names of the
  -- lists that the parsing leaves as they are, the settings file has no entry for the setting at
  -- their indices, and the local parameters forget what is cleared.
  pub reset_level_is_default :
      (law : IsLawful e) (p : Level) (req : SetRequest) (s : S) (log : List Call)
      (shown : CapDetails) (source mode format : Name) (before : ℕ)
      → (reset_level e p req before s log).answer ≡ answered true
      → requested e p req s ≡ some shown
      → member source (without_all (strtok shown.source)) ≡ true
      → member mode (strtok shown.pqmode) ≡ true
      → member format (strtok shown.format) ≡ true
      → IsPlain source
      → IsPlain mode
      → IsPlain format
      → e.default_local
          (generate_storage_identifier e (level_name p) (named_index source mode format))
        ≡ none
      → get_level e p
          (get_request e source mode format)
          before
          (reset_level e p req before s log).store
        ≡ value (value_or (e.default_pq (pq_index p) (named_index source mode format)) (pos 0))
  reset_level_is_default law p req s log shown source mode format before h q ms mm mf ps pm pf d =
      let a = reset_level-IsTrue e p req before s log h in
      let run = start_run e (pos 0) s log in
      let n = level_name p in
      let w = values_of e shown in
      let same = updated reset_action p req s a.1.0 shown run a.1.1.0 q in
      let end = a.1.1.1 in
      let clean : IsClean (update_values e reset_action n (pq_index p) w run) =
        (ap (λ r. r.is_failed) (sym same) ∙ end.0.0, ap (λ r. r.is_thrown) (sym same) ∙ end.0.1) in
      let u = (reset_level e p req before s log).store in
      let i = named_index source mode format in
      let key = generate_storage_identifier e n i in
      let listed = fetched e n req s a.1.0 a.1.1.0 in
      get_level-plain e p source mode format before u listed.0 listed.1 a.0 ps pm pf
      ∙ (ap (got e) (
            get_localparam-default p i u (
              ap (λ r. e.get_local r key) (end.1 ∙ ap (λ r. r.store) same)
              ∙ named
                  (λ j.
                    e.get_local (update_values e reset_action n (pq_index p) w run).store
                      (generate_storage_identifier e n j)
                    ≡ e.default_local (generate_storage_identifier e n j))
                  shown source mode format ms mm mf
                  (update_values-Cleared e law n (pq_index p) w run clean)
              ∙ d))
          ∙ default-got (e.default_pq (pq_index p) i))
