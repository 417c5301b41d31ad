-- ===== src/HdmiCecSource/Devices.antt =====
-- addDevice and removeDevice, the requests that addDevice makes, and CECDeviceInfo_2::update.
use text.Mathlib.Text.{◌==◌ as same_text}
use entservices_inputoutput.Base.{
  ℕ, zero, suc, ◌+◌, ◌*◌, ◌%◌, String, Bool, true, false, not, ◌&&◌, List, [], ◌∷◌, ◌==◌,
  if◌then◌else◌, increment, decrement, leb,
}
use entservices_inputoutput.HdmiCecSink.Types.{unregistered}
use entservices_inputoutput.HdmiCecSource.State.{
  DeviceInfo, cleared, Source, sent_bytes, notify, on_device_added, on_device_removed, update_info,
  is_present,
}

-- The comparison of two vendor ids, which the source makes through their texts.
abbrev pub same_bytes : List ℕ → List ℕ → Bool
same_bytes [] [] = true
same_bytes [] (y ∷ ys) = false
same_bytes (x ∷ xs) [] = false
same_bytes (x ∷ xs) (y ∷ ys) = x == y && same_bytes xs ys

-- The two overloads of `update`: the first answer always counts as new.
abbrev pub is_new_vendor_id : List ℕ → DeviceInfo → Bool
is_new_vendor_id v d = not (d.is_vendor_id_updated && same_bytes d.vendor_id v)

abbrev pub set_vendor_id : List ℕ → DeviceInfo → DeviceInfo
set_vendor_id v d = record d { is_vendor_id_updated = true; vendor_id = v }

abbrev pub is_new_osd_name : String → DeviceInfo → Bool
is_new_osd_name n d = not (d.is_osd_name_updated && same_text d.osd_name n)

abbrev pub set_osd_name : String → DeviceInfo → DeviceInfo
set_osd_name n d = record d { is_osd_name_updated = true; osd_name = n }

-- `(sender << 4) | receiver` in an unsigned char, both cut to a nibble.
unfoldable pub header_byte : (sender receiver : ℕ) → ℕ
header_byte sender receiver = sender % 16 * 16 + receiver % 16

-- sendUnencryptMsg.
unfoldable pub send_unencrypt_msg : List ℕ → Source → Source
send_unencrypt_msg msg s =
    if s.cec_enable_status then record s { log = sent_bytes msg ∷ s.log } else s

unfoldable pub request_vendor_id : ℕ → Source → Source
unfolding send_unencrypt_msg
request_vendor_id a s = send_unencrypt_msg (header_byte s.logical_address a ∷ 0x8c ∷ []) s

unfoldable pub request_osd_name : ℕ → Source → Source
unfolding send_unencrypt_msg
request_osd_name a s = send_unencrypt_msg (header_byte s.logical_address a ∷ 0x46 ∷ []) s

unfoldable pub request_cec_dev_details : ℕ → Source → Source
unfolding request_vendor_id request_osd_name
request_cec_dev_details a s = request_osd_name a (request_vendor_id a s)

-- The branch of `addDevice` for a device that was not there.
unfoldable pub add_new : ℕ → Source → Source
add_new a s =
    if is_present s a
    then s
    else notify (on_device_added a)
        (record (update_info a (λ d. record d { is_present = true; logical_address = a }) s) {
          number_of_devices = increment s.number_of_devices;
        })

unfoldable pub add_device : ℕ → Source → Source
unfolding add_new request_cec_dev_details
add_device a s = if leb unregistered a then s else request_cec_dev_details a (add_new a s)

unfoldable pub remove_device : ℕ → Source → Source
remove_device a s =
    if leb unregistered a
    then s
    else (if is_present s a
        then notify (on_device_removed a) (record (update_info a (λ d. cleared) s) {
          number_of_devices = decrement s.number_of_devices;
        })
        else s)

-- removeAllCecDevices: the addresses from `i` on, `k` of them.
unfoldable pub remove_from : (i k : ℕ) → Source → Source
remove_from i zero s = s
remove_from i (suc k) s = remove_from (i + 1) k (remove_device i s)

unfoldable pub remove_all_cec_devices : Source → Source
unfolding remove_from
remove_all_cec_devices s = remove_from 0 unregistered s
