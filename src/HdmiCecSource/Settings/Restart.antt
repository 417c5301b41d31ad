-- ===== src/HdmiCecSource/Settings/Restart.antt =====
-- The settings over a restart of the plugin.
use entservices_inputoutput.Base.{
  ℕ, String, ◌≡◌, refl, Bool, Option, none, some, List, [], ◌∷◌, arith,
}
use entservices_inputoutput.HdmiCecSource.State.{Settings, Source, init_source}
use entservices_inputoutput.HdmiCecSource.Settings.{
  load_settings, vendor_bytes, set_enabled_setting, set_otp_enabled, set_osd_name, set_vendor_id,
}

pub data Change : Type 0 where
  change_enabled change_otp : Bool → Change
  change_osd_name : String → Change
  change_vendor_id : (parsed : Option ℕ) → Change

unfoldable pub apply : Change → Source → Source
apply (change_enabled b) s = set_enabled_setting b s
apply (change_otp b) s = set_otp_enabled b s
apply (change_osd_name n) s = set_osd_name n s
apply (change_vendor_id parsed) s = set_vendor_id parsed s

unfoldable pub apply_all : List Change → Source → Source
apply_all [] s = s
apply_all (c ∷ cs) s = apply_all cs (apply c s)

-- The file holds what the members say.
pub record IsStored (s : Source) : Type 0 where
  pub vendor : ℕ
  pub stored :
      s.file
      ≡ some (record {
        enabled = some s.cec_setting_enabled;
        otp_enabled = some s.otp_setting_enabled;
        osd_name = some s.own_osd_name;
        vendor_id = some vendor;
      })
  pub reported : s.app_vendor_id ≡ vendor_bytes vendor

load_settings-IsStored :
    (file : Option Settings) (clients : List ℕ)
    → IsStored (load_settings (init_source file clients))
unfolding load_settings vendor_bytes
load_settings-IsStored none clients = record { vendor = 0x0019FB; stored = refl; reported = refl }
load_settings-IsStored (some f) clients = record { vendor = _; stored = refl; reported = refl }

apply-IsStored : (c : Change) (s : Source) → IsStored s → IsStored (apply c s)
unfolding apply set_enabled_setting set_otp_enabled set_osd_name set_vendor_id
apply-IsStored (change_enabled b) s k = record {
  vendor = k.vendor;
  stored = ground (arith, k.stored);
  reported = ground (arith, k.reported);
}
apply-IsStored (change_otp b) s k = record {
  vendor = k.vendor;
  stored = ground (arith, k.stored);
  reported = ground (arith, k.reported);
}
apply-IsStored (change_osd_name n) s k = record {
  vendor = k.vendor;
  stored = ground (arith, k.stored);
  reported = ground (arith, k.reported);
}
apply-IsStored (change_vendor_id none) s k = record {
  vendor = 0x0019FB;
  stored = ground (arith, k.stored);
  reported = refl;
}
apply-IsStored (change_vendor_id (some n)) s k = record {
  vendor = n;
  stored = ground (arith, k.stored);
  reported = refl;
}

apply_all-IsStored : (cs : List Change) (s : Source) → IsStored s → IsStored (apply_all cs s)
unfolding apply_all
apply_all-IsStored [] s k = k
apply_all-IsStored (c ∷ cs) s k = apply_all-IsStored cs (apply c s) (apply-IsStored c s k)

restarted :
    (s : Source) (clients : List ℕ)
    → IsStored s
    → let t = load_settings (init_source s.file clients) in
      (t.cec_setting_enabled ≡ s.cec_setting_enabled)
      × (t.otp_setting_enabled ≡ s.otp_setting_enabled)
      × (t.own_osd_name ≡ s.own_osd_name)
      × (t.app_vendor_id ≡ s.app_vendor_id)
      × (t.file ≡ s.file)
unfolding load_settings
restarted s clients k = ground (arith, k.stored, k.reported)

-- After the plugin has loaded its settings from any file, or from none, and any of them have been
-- changed by the API, a new start of the plugin loads the same four settings: the two flags, the OSD
-- name and the vendor id.
pub settings_survive_restart :
    (file : Option Settings) (changes : List Change) (clients new_clients : List ℕ)
    → let s = apply_all changes (load_settings (init_source file clients)) in
      let t = load_settings (init_source s.file new_clients) in
      (t.cec_setting_enabled ≡ s.cec_setting_enabled)
      × (t.otp_setting_enabled ≡ s.otp_setting_enabled)
      × (t.own_osd_name ≡ s.own_osd_name)
      × (t.app_vendor_id ≡ s.app_vendor_id)
      × (t.file ≡ s.file)
settings_survive_restart file changes clients new_clients =
    restarted (apply_all changes (load_settings (init_source file clients))) new_clients
      (apply_all-IsStored changes _ (load_settings-IsStored file clients))
