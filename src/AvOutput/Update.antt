-- ===== src/AvOutput/Update.antt =====
-- getSaveConfig and updateAVoutputTVParam: one action on every source, picture mode and format of a
-- request. The colour settings (CMS, white balance) are left out.
pub mod Loops
pub mod Combined
pub mod Written
pub mod Cleared
use entservices_inputoutput.Base.{
  ℤ, pos, String, Bool, true, false, not, ◌||◌, Option, none, some, List, [], ◌∷◌, map,
  if◌then◌else◌,
}
use entservices_inputoutput.HdmiCecSink.Routing.{codes}
use entservices_inputoutput.AvOutput.Text.{◌>>=◌, Name, strtok, convert_to_string}
use entservices_inputoutput.AvOutput.State.{PqParam, ParamIndex, Call, save, Env, Run, to_byte}
use entservices_inputoutput.AvOutput.Indices.{
  get_picture_mode_index, get_source_index, get_format_index,
}
use entservices_inputoutput.AvOutput.Storage.{
  is_param, Local, found, no_key, not_stored, local_thrown, get_localparam, set_to_hal,
  delete_from_hal,
}
use entservices_inputoutput.AvOutput.Capabilities.{CapDetails, get_params_caps}

pub data Action : Type 0 where
  set_action reset_action sync_action : Action

-- valueVectors_t, of a setting that is one value.
pub record Values : Type 0 where
  pub source_values : List ℤ
  pub pqmode_values : List ℤ
  pub format_values : List ℤ

-- A loop over a list.
unfoldable pub each {ℓ κ} : {A : Type ℓ} {R : Type κ} → (A → R → R) → List A → R → R
each step [] r = r
each step (x ∷ xs) r = each step xs (step x r)

-- The tokens but "All".
unfoldable pub without_all : List Name → List Name
without_all [] = []
without_all (n ∷ ns) = let rest = without_all ns in if is_param "All" n then rest else n ∷ rest

module _ {S : Type 0} (e : Env S) where
  unfoldable pub get_available_capability_modes_wrapper : Name → Option Name
  get_available_capability_modes_wrapper param = do
    info ← get_params_caps e param
    some (convert_to_string info.range_vector)

  abbrev modes_or : String → Name → Option Name
  modes_or param text =
      if is_param "none" text
      then get_available_capability_modes_wrapper (codes param)
      else some text

  unfoldable pub get_available_capability_modes : CapDetails → Option CapDetails
  get_available_capability_modes info = do
    pqmode ← modes_or "PictureMode" info.pqmode
    source ← modes_or "VideoSource" info.source
    format ← modes_or "VideoFormat" info.format
    some (record info { pqmode = pqmode; source = source; format = format })

  abbrev pub values_of : CapDetails → Values
  values_of info = record {
    source_values = map (get_source_index e) (without_all (strtok info.source));
    pqmode_values = map (get_picture_mode_index e) (strtok info.pqmode);
    format_values = map (get_format_index e) (strtok info.format);
  }

  unfoldable pub get_save_config : CapDetails → Option Values
  get_save_config info = do modes ← get_available_capability_modes info; some (values_of modes)

  -- The second switch: the Save function of the setting.
  abbrev pub save_level : PqParam → ParamIndex → Run S → Run S
  save_level pq i r = if r.is_thrown then r else record r {
    log = save pq i r.level ∷ r.log;
    is_failed = r.is_failed || not (e.accepts (save pq i r.level));
  }

  -- The level that getLocalparam gives; `continue` where it gives none.
  abbrev pub save_found : PqParam → ParamIndex → Local → Run S → Run S
  save_found pq i (found v) r = save_level pq i (record r { level = v })
  save_found pq i local_thrown r = record r { is_thrown = true }
  save_found pq i no_key r = r
  save_found pq i not_stored r = r

  unfoldable pub act : Action → Name → PqParam → ParamIndex → Run S → Run S
  unfolding get_localparam set_to_hal delete_from_hal
  act set_action for_param pq i r = save_level pq i (set_to_hal e for_param i r.level r)
  act reset_action for_param pq i r =
      let u = delete_from_hal e for_param i r in
      save_found pq i (get_localparam e for_param i (pos 0) pq false u.store) u
  act sync_action for_param pq i r =
      save_found pq i (get_localparam e for_param i (pos 0) pq true r.store) r

  -- An exception ends the loops.
  unfoldable pub visit : Action → Name → PqParam → (source mode format : ℤ) → Run S → Run S
  unfolding act
  visit action for_param pq source mode format r =
      if r.is_thrown
      then r
      else act action for_param pq
          record {
            source_index = to_byte source;
            pqmode_index = to_byte mode;
            format_index = to_byte format;
          }
          r

  unfoldable pub update_values : Action → Name → PqParam → Values → Run S → Run S
  unfolding each visit
  update_values action for_param pq v r =
      each
        (λ source.
          each
            (λ mode. each (λ format. visit action for_param pq source mode format) v.format_values)
            v.pqmode_values)
        v.source_values r

  abbrev pub update_saved : Action → Name → PqParam → Run S → Option Values → Run S
  update_saved action for_param pq r none = record r { is_failed = true }
  update_saved action for_param pq r (some v) = update_values action for_param pq v r

  unfoldable pub update_av_output_tv_param : Action → Name → PqParam → CapDetails → Run S → Run S
  unfolding update_values get_save_config
  update_av_output_tv_param action for_param pq info r =
      update_saved action for_param pq r (get_save_config info)
