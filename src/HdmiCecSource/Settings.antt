-- ===== src/HdmiCecSource/Settings.antt =====
-- loadSettings, persistJsonSettings (helpers/UtilssyncPersistFile.h) and the calls that change a
-- setting. The file is the record of its labels; reading and writing JSON is the library's.
pub mod Restart
use entservices_inputoutput.Base.{
  ℕ, ◌+◌, ◌*◌, ◌/◌, ◌%◌, String, Bool, true, false, not, ◌&&◌, Option, none, some, List, [], ◌∷◌,
  if◌then◌else◌,
}
use entservices_inputoutput.HdmiCecSource.State.{Settings, Source}

-- `vendorId >> 16 & 0xff`, `vendorId >> 8 & 0xff` and `vendorId & 0xff`.
unfoldable pub vendor_bytes : ℕ → List ℕ
vendor_bytes n = n / 65536 % 256 ∷ n / 256 % 256 ∷ n % 256 ∷ []

-- `(defaultVendorId.at(0) << 16) | (defaultVendorId.at(1) << 8) | defaultVendorId.at(2)`.
abbrev pub default_vendor : ℕ
default_vendor = 0x0019FB

abbrev pub or_default {ℓ} : {A : Type ℓ} → Option A → A → A
or_default none d = d
or_default (some a) d = a

abbrev pub no_settings : Settings
no_settings = record { enabled = none; otp_enabled = none; osd_name = none; vendor_id = none }

-- The branch of `loadSettings` for a file: a label that is missing is added with its default.
unfoldable pub load_file : Settings → Source → Source
unfolding vendor_bytes
load_file f s =
    let enabled = or_default f.enabled true in
    let otp = or_default f.otp_enabled true in
    let name = or_default f.osd_name s.own_osd_name in
    let vendor = or_default f.vendor_id default_vendor in
    record s {
      cec_setting_enabled = enabled;
      otp_setting_enabled = otp;
      own_osd_name = name;
      app_vendor_id = vendor_bytes vendor;
      file = some (record {
        enabled = some enabled;
        otp_enabled = some otp;
        osd_name = some name;
        vendor_id = some vendor;
      });
    }

-- The branch for no file, which leaves the vendor id as it is.
unfoldable pub create_file : Source → Source
create_file s = record s {
  cec_setting_enabled = true;
  otp_setting_enabled = true;
  file = some (record {
    enabled = some true;
    otp_enabled = some true;
    osd_name = some s.own_osd_name;
    vendor_id = some default_vendor;
  });
}

unfoldable pub load_settings : Source → Source
unfolding load_file create_file
load_settings s = elim s.file [ none ↦ create_file s | some f ↦ load_file f s ]

-- persistJsonSettings: the label is changed in what was stored, or in an empty object.
unfoldable pub persist : (Settings → Settings) → Source → Source
persist change s = record s { file = some (change (or_default s.file no_settings)) }

abbrev pub persist_enabled : Bool → Source → Source
persist_enabled b s = persist (λ f. record f { enabled = some b }) s

abbrev pub same_flag : Bool → Bool → Bool
same_flag true b = b
same_flag false b = not b

-- The first half of SetEnabled.
unfoldable pub set_enabled_setting : Bool → Source → Source
unfolding persist
set_enabled_setting b s =
    if same_flag s.cec_setting_enabled b
    then s
    else record (persist_enabled b s) { cec_setting_enabled = b }

unfoldable pub set_otp_enabled : Bool → Source → Source
unfolding persist
set_otp_enabled b s =
    if same_flag s.otp_setting_enabled b
    then s
    else record (persist (λ f. record f { otp_enabled = some b }) s) { otp_setting_enabled = b }

unfoldable pub set_osd_name : String → Source → Source
unfolding persist
set_osd_name n s = record (persist (λ f. record f { osd_name = some n }) s) { own_osd_name = n }

-- SetVendorId: `parsed` is what `stoi` gives in base 16, as an unsigned int, `none` on its exception.
unfoldable pub set_vendor_id : Option ℕ → Source → Source
unfolding persist vendor_bytes
set_vendor_id parsed s =
    let n = or_default parsed default_vendor in
    record (persist (λ f. record f { vendor_id = some n }) s) { app_vendor_id = vendor_bytes n }
