-- ===== src/AvOutput/Storage/Names.antt =====
-- The values that are stored as names: colour temperatures, dimming modes and HDR modes.
use mathlib.Core.Path.{subst}
use entservices_inputoutput.Base.{
  ℤ, pos, negsuc, ◌≡◌, refl, sym, ap, Bool, true, false, Option, none, some, if◌then◌else◌, ==_iff,
  ◌||◌, arith,
}
use entservices_inputoutput.HdmiCecSink.Routing.{codes, contains}
use entservices_inputoutput.AvOutput.Text.{Name}
use entservices_inputoutput.AvOutput.State.{TvConstants, same_int}
use entservices_inputoutput.AvOutput.Storage.{
  color_temp_string, dimming_mode_string, dolby_mode_string, to_store, read_stored, read_color_temp,
  read_dimming_mode,
}

same_int-equal : (a b : ℤ) → same_int a b ≡ true → a ≡ b
same_int-equal (pos a) (pos b) h = ap pos ((==_iff a b).0 h)
same_int-equal (pos a) (negsuc b) h = cc
same_int-equal (negsuc a) (pos b) h = cc
same_int-equal (negsuc a) (negsuc b) h = ap negsuc ((==_iff a b).0 h)

-- What holds of a text that is there.
abbrev OfText : (Name → Type 0) → Option Name → Type 0
OfText P none = Unit
OfText P (some text) = P text

of_text : (P : Name → Type 0) (o : Option Name) (text : Name) → o ≡ some text → OfText P o → P text
of_text P o text h p = subst (OfText P) h p

-- One entry of a table of names.
entry :
    (P : Name → Type 0) (b : Bool) (name : Name) (rest : Option Name)
    → (b ≡ true → P name)
    → OfText P rest
    → OfText P (if b then some name else rest)
entry P true name rest f p = f refl
entry P false name rest f p = p

color_temp_string-read :
    (t : TvConstants) (v : ℤ) → OfText (λ text. read_color_temp t text ≡ v) (color_temp_string t v)
unfolding color_temp_string
color_temp_string-read t v =
    let P = λ (text : Name). read_color_temp t text ≡ v in
    entry P (same_int v t.color_standard) (codes "Standard") _
      (λ h. sym (same_int-equal v t.color_standard h))
      (entry P (same_int v t.color_warm) (codes "Warm") _
        (λ h. sym (same_int-equal v t.color_warm h))
        (entry P (same_int v t.color_cold) (codes "Cold") _
          (λ h. sym (same_int-equal v t.color_cold h))
          (entry P (same_int v t.color_user) (codes "UserDefined") none
            (λ h. sym (same_int-equal v t.color_user h)) tt)))

dimming_mode_string-read :
    (t : TvConstants) (v value : ℤ)
    → OfText (λ text. read_dimming_mode t text value ≡ v) (dimming_mode_string t v)
unfolding dimming_mode_string
dimming_mode_string-read t v value =
    let P = λ (text : Name). read_dimming_mode t text value ≡ v in
    entry P (same_int v t.dimming_fixed) (codes "Fixed") _
      (λ h. sym (same_int-equal v t.dimming_fixed h))
      (entry P (same_int v t.dimming_local) (codes "Local") _
        (λ h. sym (same_int-equal v t.dimming_local h))
        (entry P (same_int v t.dimming_global) (codes "Global") none
          (λ h. sym (same_int-equal v t.dimming_global h)) tt))

-- A colour temperature or a dimming mode that is stored under its name is read back as the same
-- value, whatever the variable holds before.
pub stored_names_are_read :
    (t : TvConstants) (key color_name mode_name : Name) (color mode value : ℤ)
    → to_store t (codes "ColorTemp") color ≡ some color_name
    → to_store t (codes "DimmingMode") mode ≡ some mode_name
    → (read_stored t (codes "ColorTemp") key color_name value ≡ some color)
      × (read_stored t (codes "DimmingMode") key mode_name value ≡ some mode)
unfolding to_store read_stored
stored_names_are_read t key color_name mode_name color mode value h k = (
  ap some (
      of_text (λ x. read_color_temp t x ≡ color) (color_temp_string t color) color_name h
        (color_temp_string-read t color)),
  ap some (
      of_text (λ x. read_dimming_mode t x value ≡ mode) (dimming_mode_string t mode) mode_name k
        (dimming_mode_string-read t mode value)),
)

-- The formats that have HDR modes, and their modes.
pub data HdrFormat : Type 0 where
  dolby hdr10 hlg : HdrFormat

abbrev pub dark_of : TvConstants → HdrFormat → ℤ
dark_of t dolby = t.dolby_dark
dark_of t hdr10 = t.hdr10_dark
dark_of t hlg = t.hlg_dark

abbrev pub bright_of : TvConstants → HdrFormat → ℤ
bright_of t dolby = t.dolby_bright
bright_of t hdr10 = t.hdr10_bright
bright_of t hlg = t.hlg_bright

abbrev pub game_of : TvConstants → HdrFormat → ℤ
game_of t dolby = t.dolby_game
game_of t hdr10 = t.hdr10_game
game_of t hlg = t.hlg_game

-- What a mode Bright is read as.
abbrev pub bright_as_read : TvConstants → HdrFormat → ℤ
bright_as_read t dolby = t.dolby_game
bright_as_read t hdr10 = t.hdr10_bright
bright_as_read t hlg = t.hlg_bright

-- A key with the format's name, and without those that the reader looks for first.
abbrev pub IsKeyOf : HdrFormat → Name → Type 0
IsKeyOf dolby key = contains (codes "DV") key ≡ true
IsKeyOf hdr10 key = (contains (codes "DV") key ≡ false) × (contains (codes "HDR10") key ≡ true)
IsKeyOf hlg key =
    (contains (codes "DV") key ≡ false)
    × (contains (codes "HDR10") key ≡ false)
    × (contains (codes "HLG") key ≡ true)

-- Is the value one of the three modes Dark, or Bright?
abbrev pub is_dark : TvConstants → ℤ → Bool
is_dark t v = same_int v t.dolby_dark || same_int v t.hdr10_dark || same_int v t.hlg_dark

abbrev pub is_bright : TvConstants → ℤ → Bool
is_bright t v = same_int v t.dolby_bright || same_int v t.hdr10_bright || same_int v t.hlg_bright

same_int_self : (a : ℤ) → same_int a a ≡ true
same_int_self (pos a) = (==_iff a a).1 refl
same_int_self (negsuc a) = (==_iff a a).1 refl

is_dark-dark_of : (t : TvConstants) (f : HdrFormat) → is_dark t (dark_of t f) ≡ true
is_dark-dark_of t dolby = ground (arith, same_int_self t.dolby_dark)
is_dark-dark_of t hdr10 = ground (arith, same_int_self t.hdr10_dark)
is_dark-dark_of t hlg = ground (arith, same_int_self t.hlg_dark)

is_bright-bright_of : (t : TvConstants) (f : HdrFormat) → is_bright t (bright_of t f) ≡ true
is_bright-bright_of t dolby = ground (arith, same_int_self t.dolby_bright)
is_bright-bright_of t hdr10 = ground (arith, same_int_self t.hdr10_bright)
is_bright-bright_of t hlg = ground (arith, same_int_self t.hlg_bright)

is_game-game_of :
    (t : TvConstants) (f : HdrFormat)
    → (same_int (game_of t f) t.dolby_game
        || same_int (game_of t f) t.hdr10_game
        || same_int (game_of t f) t.hlg_game)
      ≡ true
is_game-game_of t dolby = ground (arith, same_int_self t.dolby_game)
is_game-game_of t hdr10 = ground (arith, same_int_self t.hdr10_game)
is_game-game_of t hlg = ground (arith, same_int_self t.hlg_game)

-- An HDR mode that is stored under a key of its format and read back, where the driver's constants
-- for Bright are none of those for Dark, and those for Game none of either: a mode Dark is read as
-- it is, a mode Bright too, but for that of Dolby Vision, which is read as its mode Game; and a mode
-- Game of any format is read as that of Dolby Vision.
pub hdr_mode_is_read_as_game :
    (t : TvConstants) (f : HdrFormat) (key : Name) (value : ℤ)
    → IsKeyOf f key
    → is_dark t (bright_of t f) ≡ false
    → is_dark t (game_of t f) ≡ false
    → is_bright t (game_of t f) ≡ false
    → (read_stored t (codes "HDRMode") key (dolby_mode_string t (dark_of t f)) value
        ≡ some (dark_of t f))
      × (read_stored t (codes "HDRMode") key (dolby_mode_string t (bright_of t f)) value
          ≡ some (bright_as_read t f))
      × (read_stored t (codes "HDRMode") key (dolby_mode_string t (game_of t f)) value
          ≡ some t.dolby_game)
unfolding read_stored dolby_mode_string
hdr_mode_is_read_as_game t dolby key value k b g h = (
  rw (is_dark-dark_of t dolby) (rw (k) refl),
  rw (b, is_bright-bright_of t dolby) (rw (k) refl),
  rw (g, h, is_game-game_of t dolby) refl,
)
hdr_mode_is_read_as_game t hdr10 key value k b g h = (
  rw (is_dark-dark_of t hdr10) (rw (k.0, k.1) refl),
  rw (b, is_bright-bright_of t hdr10) (rw (k.0, k.1) refl),
  rw (g, h, is_game-game_of t hdr10) refl,
)
hdr_mode_is_read_as_game t hlg key value k b g h = (
  rw (is_dark-dark_of t hlg) (rw (k.0, k.1, k.2) refl),
  rw (b, is_bright-bright_of t hlg) (rw (k.0, k.1, k.2) refl),
  rw (g, h, is_game-game_of t hlg) refl,
)
