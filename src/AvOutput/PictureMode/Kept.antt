-- ===== src/AvOutput/PictureMode/Kept.antt =====
-- The picture mode that is set is read back.
use mathlib.Core.Path.{subst}
use entservices_inputoutput.Base.{
  ℕ, ℤ, pos, ◌<◌, ◌%◌, ◌≡◌, refl, sym, ap, ◌∙◌, Bool, true, false, Option, some, List, All,
  Bool-cases, inl, inr, arith,
}
use entservices_inputoutput.HdmiCecSink.Routing.{codes}
use entservices_inputoutput.AvOutput.Branches.{
  if_true, if_false, true_is_not_false, same_text, same_name_self,
}
use entservices_inputoutput.AvOutput.Text.{◌>>=◌, Name, same_name, strtok}
use entservices_inputoutput.AvOutput.State.{Env, IsLawful, to_byte}
use entservices_inputoutput.AvOutput.Indices.{get_source_index, get_format_index}
use entservices_inputoutput.AvOutput.Capabilities.{
  CapDetails, no_details, member, fetch_capablities,
}
use entservices_inputoutput.AvOutput.Update.{
  Values, each, without_all, values_of, get_available_capability_modes, get_save_config,
}
use entservices_inputoutput.AvOutput.Update.Loops.{All-map, each-back, each-keeps, each-All}
use entservices_inputoutput.AvOutput.Request.{
  SetRequest, picture_mode_key, parsing_set_input_argument, get_param_index, colors_of,
}
use entservices_inputoutput.AvOutput.Levels.Plain.{
  IsPlain, get_request, fetched, parsing_get-plain, index-plain,
}
use entservices_inputoutput.AvOutput.Levels.Stored.{All-member, All-mapped}
use entservices_inputoutput.AvOutput.PictureMode.{
  ModeCall, ModeRun, picture_mode, keep_mode, keep_modes, mode_values, set_picture_mode, mode_at,
  mode_of, get_picture_mode, saved_mode, values_or_none,
}
use entservices_inputoutput.AvOutput.PictureMode.Answered.{set_picture_mode-IsDone}

module _ {S : Type 0} (e : Env S) (law : IsLawful e) (mode : Name) where
  abbrev Runs : ModeRun S → Type 0
  Runs r = r.is_stopped ≡ false

  abbrev Keeps : (source format : ℤ) → S → Type 0
  Keeps source format s = e.get_local s (picture_mode_key e source format) ≡ some mode

  saved_mode-Runs :
      (source format : ℤ) (p : S × Bool) (r : ModeRun S)
      → Runs (saved_mode e mode source format p r)
      → Runs r × ((p.1 ≡ true) × ((saved_mode e mode source format p r).store ≡ p.0))
  saved_mode-Runs source format (s, true) r h = (h, (refl, refl))
  saved_mode-Runs source format (s, false) r h = cc

  keep_mode-Runs :
      (source format : ℤ) (r : ModeRun S)
      → Runs (keep_mode e mode source format r)
      → let p = e.set_local (picture_mode_key e source format) mode r.store in
        Runs r × ((p.1 ≡ true) × ((keep_mode e mode source format r).store ≡ p.0))
  unfolding keep_mode
  keep_mode-Runs source format r h =
      let p = e.set_local (picture_mode_key e source format) mode r.store in
      let next = saved_mode e mode source format p r in
      elim (Bool-cases r.is_stopped) [
        | inl n ↦ absurd (true_is_not_false (sym n ∙ subst Runs (if_true r.is_stopped r next n) h))
        | inr n ↦
            let q = if_false r.is_stopped r next n in
            let f = saved_mode-Runs source format p r (subst Runs q h) in
            (n, (f.1.0, ap (λ t. t.store) q ∙ f.1.1))
      ]

  step-Keeps :
      (x z source format : ℤ) (r : ModeRun S)
      → Runs (keep_mode e mode source format r)
      → Keeps x z r.store
      → Keeps x z (keep_mode e mode source format r).store
  step-Keeps x z source format r h k =
      let q = keep_mode-Runs source format r h in
      let key = picture_mode_key e source format in
      let j = picture_mode_key e x z in
      ap (λ s. e.get_local s j) q.1.1
      ∙ (law.get-set r.store key mode j q.1.0
          ∙ same_text (same_name j key) (some mode) (e.get_local r.store j) (some mode) refl k)

  step-makes :
      (source format : ℤ) (r : ModeRun S)
      → Runs (keep_mode e mode source format r)
      → Keeps source format (keep_mode e mode source format r).store
  step-makes source format r h =
      let q = keep_mode-Runs source format r h in
      let key = picture_mode_key e source format in
      ap (λ s. e.get_local s key) q.1.1
      ∙ (law.get-set r.store key mode key q.1.0
          ∙ if_true (same_name key key) (some mode) (e.get_local r.store key) (same_name_self key))

  abbrev formats_loop : Values → (source : ℤ) → ModeRun S → ModeRun S
  formats_loop w source = each (keep_mode e mode source) w.format_values

  formats-back : (w : Values) (source : ℤ) (r : ModeRun S) → Runs (formats_loop w source r) → Runs r
  formats-back w source r h =
      each-back (keep_mode e mode source) Runs (λ z u g. (keep_mode-Runs source z u g).0)
        w.format_values r h

  -- After the loops every source and format has the mode.
  keep_modes-All :
      (w : Values) (r : ModeRun S)
      → Runs (keep_modes e mode w r)
      → All
          (λ x. All (λ z. Keeps x z (keep_modes e mode w r).store) w.format_values)
          w.source_values
  unfolding keep_modes
  keep_modes-All w r h =
      each-All (formats_loop w) Runs (λ x u. All (λ z. Keeps x z u.store) w.format_values)
        (formats-back w)
        (λ x y u g.
          All-map
            (λ z.
              each-keeps (keep_mode e mode y) Runs (λ t. Keeps x z t.store)
                (λ f t k. (keep_mode-Runs y f t k).0) (λ f t. step-Keeps x z y f t) w.format_values
                u g)
            w.format_values)
        (λ x u g.
          each-All (keep_mode e mode x) Runs (λ z t. Keeps x z t.store)
            (λ f t k. (keep_mode-Runs x f t k).0) (λ f k t. step-Keeps x f x k t) (step-makes x)
            w.format_values u g)
        w.source_values r h

small_rem : (i : ℕ) → i < 256 → i % 256 ≡ i
small_rem i h = omega (arith, h)

module _ {S : Type 0} (e : Env S) where
  -- The sources and formats that the request stands for.
  abbrev pub mode_requested : SetRequest → S → Option CapDetails
  mode_requested req s = parsing_set_input_argument e req (picture_mode e) no_details s >>= λ info.
      get_available_capability_modes e (record info { pqmode = codes "Current" })

  pub mode_values-requested :
      (req : SetRequest) (s : S) (info shown : CapDetails)
      → parsing_set_input_argument e req (picture_mode e) no_details s ≡ some info
      → mode_requested req s ≡ some shown
      → mode_values e info ≡ values_of e shown
  unfolding get_save_config
  mode_values-requested req s info shown h q =
      ap (λ o. values_or_none (o >>= λ m. some (values_of e m)))
        (ap
            (λ o.
              o >>= λ i. get_available_capability_modes e (record i { pqmode = codes "Current" }))
            (sym h)
          ∙ q)

  no_colors : (listed info : CapDetails) → colors_of e (picture_mode e) listed info ≡ info
  no_colors listed info = refl

  get_picture_mode-plain :
      (source mode format : Name) (before : ℕ) (s : S) (listed : CapDetails)
      → fetch_capablities e (picture_mode e) ≡ some listed
      → IsPlain source
      → IsPlain mode
      → IsPlain format
      → get_picture_mode e (get_request e source mode format) before s
        ≡ e.get_local s (
            picture_mode_key e
              (pos (to_byte (get_source_index e source)))
              (pos (to_byte (get_format_index e format))))
  unfolding get_picture_mode get_param_index
  get_picture_mode-plain source mode format before s listed q hs hm hf =
      ap (mode_of e before s)
        (parsing_get-plain e (picture_mode e) no_colors s source mode format listed q hs hm hf)
      ∙ ap (λ i. mode_at e s (i, true)) (index-plain e source mode format before s hs hm hf)

  -- An index that fits into a byte.
  byte_index : (x : ℤ) (i : ℕ) → x ≡ pos i → i < 256 → pos (to_byte x) ≡ x
  byte_index x i h b = ap (λ y. pos (to_byte y)) h ∙ (ap pos (small_rem i b) ∙ sym h)

  -- What every source and format of the request has is what getPictureMode reads for the named ones.
  pub named_mode :
      (Q : (source format : ℤ) → Option Name) (st u : S) (shown listed : CapDetails)
      (source asked format : Name) (before x z : ℕ)
      → fetch_capablities e (picture_mode e) ≡ some listed
      → u ≡ st
      → member source (without_all (strtok shown.source)) ≡ true
      → member format (strtok shown.format) ≡ true
      → IsPlain source
      → IsPlain asked
      → IsPlain format
      → get_source_index e source ≡ pos x
      → get_format_index e format ≡ pos z
      → x < 256
      → z < 256
      → All
          (λ i.
            All
              (λ j. e.get_local st (picture_mode_key e i j) ≡ Q i j)
              (values_of e shown).format_values)
          (values_of e shown).source_values
      → get_picture_mode e (get_request e source asked format) before u
        ≡ Q (get_source_index e source) (get_format_index e format)
  named_mode Q st u shown listed source asked format before x z q left ms mf ps pa pf hx hz bx bz
        all =
      let w = values_of e shown in
      let P = λ (i j : ℤ). e.get_local st (picture_mode_key e i j) ≡ Q i j in
      let formats_at = λ (i : ℤ). All (λ j. P i j) w.format_values in
      let at_source =
        All-member (λ t. formats_at (get_source_index e t)) source
          (without_all (strtok shown.source)) ms
          (All-mapped formats_at (get_source_index e) (without_all (strtok shown.source)) all) in
      let i = get_source_index e source in
      let j = get_format_index e format in
      let at_format =
        All-member (λ t. P i (get_format_index e t)) format (strtok shown.format) mf
          (All-mapped (P i) (get_format_index e) (strtok shown.format) at_source) in
      get_picture_mode-plain source asked format before u listed q ps pa pf
      ∙ (ap (λ k. e.get_local u (picture_mode_key e k (pos (to_byte j)))) (byte_index i x hx bx)
          ∙ (ap (λ k. e.get_local u (picture_mode_key e i k)) (byte_index j z hz bz)
              ∙ (ap (λ t. e.get_local t (picture_mode_key e i j)) left ∙ at_format)))

  -- A picture mode that is set with the answer true is what getPictureMode answers, for each source
  -- and format that the request names, the whole capability file's where it names none: if these and
  -- the picture mode of the get request are names that the parsing leaves as they are, the two have
  -- indices that fit into a byte, and the local parameters keep what is set.
  pub set_picture_mode_is_read :
      (law : IsLawful e) (accepts : Name → Bool) (mode previous : Name) (dals : Bool)
      (req : SetRequest) (s : S) (log : List ModeCall) (shown : CapDetails)
      (source asked format : Name) (before x z : ℕ)
      → (set_picture_mode e accepts (some mode) previous dals req s log).answer ≡ true
      → mode_requested req s ≡ some shown
      → member source (without_all (strtok shown.source)) ≡ true
      → member format (strtok shown.format) ≡ true
      → IsPlain source
      → IsPlain asked
      → IsPlain format
      → get_source_index e source ≡ pos x
      → get_format_index e format ≡ pos z
      → x < 256
      → z < 256
      → get_picture_mode e
          (get_request e source asked format)
          before
          (set_picture_mode e accepts (some mode) previous dals req s log).store
        ≡ some mode
  set_picture_mode_is_read law accepts mode previous dals req s log shown source asked format before
        x z h q ms mf ps pa pf hx hz bx bz =
      let a = set_picture_mode-IsDone e accepts mode previous dals req s log h in
      let start : ModeRun S = record { store = s; log = a.1.1.0; is_stopped = false } in
      let same = mode_values-requested req s a.0 shown a.1.0 q in
      let w = values_of e shown in
      let end = a.1.1.1 in
      let all =
        keep_modes-All e law mode w start
          (ap (λ v. (keep_modes e mode v start).is_stopped) (sym same) ∙ end.0) in
      let listed = fetched e (picture_mode e) req s a.0 a.1.0 in
      named_mode (λ i j. some mode) (keep_modes e mode w start).store
        (set_picture_mode e accepts (some mode) previous dals req s log).store shown listed.0 source
        asked format before x z listed.1 (end.1 ∙ ap (λ v. (keep_modes e mode v start).store) same)
        ms mf ps pa pf hx hz bx bz all
