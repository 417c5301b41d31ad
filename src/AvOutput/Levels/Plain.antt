-- ===== src/AvOutput/Levels/Plain.antt =====
-- A get request whose three names are plain reads what is stored for their indices.
use entservices_inputoutput.Base.{
  ℕ, pos, ◌≡◌, refl, ap, ◌∙◌, true, false, ◌||◌, Option, none, some, [], ◌∷◌, if◌then◌else◌,
}
use entservices_inputoutput.AvOutput.Branches.{if_false, or-false}
use entservices_inputoutput.AvOutput.Text.{◌>>=◌, Name, is_empty}
use entservices_inputoutput.AvOutput.State.{to_byte, Env}
use entservices_inputoutput.HdmiCecSink.Routing.{codes}
use entservices_inputoutput.AvOutput.Indices.{
  convert_video_format_to_string, get_source_index, get_picture_mode_index, get_format_index,
}
use entservices_inputoutput.AvOutput.Storage.{is_param, get_localparam}
use entservices_inputoutput.AvOutput.Capabilities.{
  fetch_capablities, CapDetails, no_details, is_one_of,
}
use entservices_inputoutput.AvOutput.Update.Combined.{index_at}
use entservices_inputoutput.AvOutput.Request.{
  SetRequest, GetRequest, parsing_get_input_argument, convert_to_valid_input_parameter, source_of,
  format_of, colors_of, value_or, current_mode_index, index_of_request, get_param_index, is_current,
  or_text, converted, current_source_name, format_or_sdr, get_current_picture_mode,
  parsing_set_input_argument,
}
use entservices_inputoutput.AvOutput.Levels.{
  Level, brightness, level_name, pq_index, platform_check, got, get_level, get_checked, get_parsed,
}

-- A name that the parsing leaves as it is.
abbrev pub IsPlain : Name → Type 0
IsPlain n = (is_empty n ≡ false) × (is_one_of ("Global" ∷ "Current" ∷ "none" ∷ []) n ≡ false)

plain_names :
    (n : Name)
    → IsPlain n
    → (is_param "Global" n ≡ false) × ((is_param "Current" n ≡ false) × (is_param "none" n ≡ false))
plain_names n h =
    let g = or-false (is_param "Global" n) (is_one_of ("Current" ∷ "none" ∷ []) n) h.1 in
    let c = or-false (is_param "Current" n) (is_one_of ("none" ∷ []) n) g.1 in
    (g.0, (c.0, (or-false (is_param "none" n) false c.1).0))

plain_is_not_current : (n : Name) → IsPlain n → is_one_of ("none" ∷ "Current" ∷ []) n ≡ false
plain_is_not_current n h =
    let q = plain_names n h in
    ap (λ b. b || (is_param "Current" n || false)) q.1.1 ∙ ap (λ b. b || false) q.1.0

-- A test of the two special names that fails.
neither {ℓ} :
    {A : Type ℓ} (n : Name) (x y z : A)
    → IsPlain n
    → (if is_param "Global" n then x else if is_param "Current" n then y else z) ≡ z
neither n x y z h =
    let q = plain_names n h in
    if_false (is_param "Global" n) x (if is_param "Current" n then y else z) q.0
    ∙ if_false (is_param "Current" n) y z q.1.0

bind-some {ℓ κ} :
    {A : Type ℓ} {B : Type κ} (o : Option A) (f : A → Option B) (y : B)
    → (o >>= f) ≡ some y
    → (x : A) × (o ≡ some x)
bind-some none f y h = cc
bind-some (some x) f y h = (x, refl)

module _ {S : Type 0} (e : Env S) where
  -- The capability file has an entry for a level that can be set.
  pub fetched :
      (n : Name) (req : SetRequest) (s : S) (info : CapDetails)
      → parsing_set_input_argument e req n no_details s ≡ some info
      → (listed : CapDetails) × (fetch_capablities e n ≡ some listed)
  unfolding parsing_set_input_argument convert_to_valid_input_parameter
  fetched n req s info h = bind-some (fetch_capablities e n) _ info h

  abbrev pub details : (source mode format : Name) → CapDetails
  details source mode format = record no_details { source = source; pqmode = mode; format = format }

  abbrev pub get_request : (source mode format : Name) → GetRequest
  get_request source mode format = record {
    picture_mode = mode;
    video_source = source;
    video_format = format;
  }

  colors_of_level :
      (p : Level) (listed info : CapDetails) → colors_of e (level_name p) listed info ≡ info
  colors_of_level brightness listed info = refl
  colors_of_level _ listed info = refl

  convert-plain :
      (n : Name) (colors : (listed info : CapDetails) → colors_of e n listed info ≡ info) (s : S)
      (source mode format : Name) (listed : CapDetails)
      → fetch_capablities e n ≡ some listed
      → IsPlain source
      → IsPlain mode
      → IsPlain format
      → convert_to_valid_input_parameter e n (details source mode format) s
        ≡ some (details source mode format)
  unfolding convert_to_valid_input_parameter
  convert-plain n colors s source mode format listed q hs hm hf =
      let built = λ (x m f : Name). some (colors_of e n listed (details x m f)) in
      let fd = format_of e listed.format format in
      ap (λ o. o >>= λ l. converted e n (details source mode format) s l) q
      ∙ (ap (λ o. o >>= λ m. source_of e listed.source source >>= λ x. built x m fd)
            (neither mode (some listed.pqmode) (get_current_picture_mode e s) (some mode) hm)
          ∙ (ap (λ o. o >>= λ x. built x mode fd)
                (neither source (some listed.source) (current_source_name e e.current_source)
                  (some source) hs)
              ∙ (ap (λ f. built source mode f)
                    (neither format listed.format
                      (convert_video_format_to_string e (format_or_sdr e)) format hf)
                  ∙ ap some (colors listed (details source mode format)))))

  pub parsing_get-plain :
      (n : Name) (colors : (listed info : CapDetails) → colors_of e n listed info ≡ info) (s : S)
      (source mode format : Name) (listed : CapDetails)
      → fetch_capablities e n ≡ some listed
      → IsPlain source
      → IsPlain mode
      → IsPlain format
      → parsing_get_input_argument e (get_request source mode format) n no_details s
        ≡ some (details source mode format)
  unfolding parsing_get_input_argument
  parsing_get-plain n colors s source mode format listed q hs hm hf =
      let convert = λ (d : CapDetails). convert_to_valid_input_parameter e n d s in
      let given =
        details (or_text source "Current") (or_text mode "Current") (or_text format "Current") in
      let none_is_global =
        ap (λ b. b || is_param "Global" mode || is_param "Global" format) (plain_names source hs).0
        ∙ (ap (λ b. b || is_param "Global" format) (plain_names mode hm).0
            ∙ (plain_names format hf).0) in
      if_false (is_param "Global" source || is_param "Global" mode || is_param "Global" format) none
        (convert given) none_is_global
      ∙ (ap (λ x. convert (details x (or_text mode "Current") (or_text format "Current")))
            (if_false (is_empty source) (codes "Current") source hs.0)
          ∙ (ap (λ m. convert (details source m (or_text format "Current")))
                (if_false (is_empty mode) (codes "Current") mode hm.0)
              ∙ (ap (λ f. convert (details source mode f))
                    (if_false (is_empty format) (codes "Current") format hf.0)
                  ∙ convert-plain n colors s source mode format listed q hs hm hf)))

  pub index-plain :
      (source mode format : Name) (before : ℕ) (s : S)
      → IsPlain source
      → IsPlain mode
      → IsPlain format
      → index_of_request e (details source mode format) before s
        ≡ index_at
            (get_source_index e source)
            (get_picture_mode_index e mode)
            (get_format_index e format)
  unfolding index_of_request
  index-plain source mode format before s hs hm hf =
      let a =
        if_false (is_current e source) (value_or e.current_source e.video_source_ip)
          (get_source_index e source) (plain_is_not_current source hs) in
      let b =
        if_false (is_current e mode) (current_mode_index e (get_current_picture_mode e s) before)
          (to_byte (get_picture_mode_index e mode)) (plain_is_not_current mode hm) in
      let c =
        if_false (is_current e format) (format_or_sdr e) (get_format_index e format)
          (plain_is_not_current format hf) in
      λ i. record { source_index = to_byte (a i); pqmode_index = b i; format_index = to_byte (c i) }

  -- A get request of plain names reads the value of their indices.
  pub get_level-plain :
      (p : Level) (source mode format : Name) (before : ℕ) (s : S) (listed : CapDetails)
      → fetch_capablities e (level_name p) ≡ some listed
      → platform_check e p ≡ some true
      → IsPlain source
      → IsPlain mode
      → IsPlain format
      → get_level e p (get_request source mode format) before s
        ≡ got e (
            get_localparam e
              (level_name p)
              (index_at
                (get_source_index e source)
                (get_picture_mode_index e mode)
                (get_format_index e format))
              (pos 0)
              (pq_index p)
              false
              s)
  unfolding get_level get_param_index
  get_level-plain p source mode format before s listed q c hs hm hf =
      let d = details source mode format in
      ap (get_parsed e p before s) (
        parsing_get-plain (level_name p) (colors_of_level p) s source mode format listed q hs hm hf)
      ∙ (ap (get_checked e p d before s) c
          ∙ ap (λ i. got e (get_localparam e (level_name p) i (pos 0) (pq_index p) false s))
              (index-plain source mode format before s hs hm hf))
