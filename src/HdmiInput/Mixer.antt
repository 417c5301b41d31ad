-- ===== src/HdmiInput/Mixer.antt =====
-- The levels of the mixer over calls of setMixerLevels and stopHdmiInput.
use entservices_inputoutput.Base.{
  ℕ, ◌≤◌, ◌<◌, ◌≡◌, refl, pos, negsuc, ℤ, Bool, true, false, List, [], ◌∷◌, arith,
}
use entservices_inputoutput.HdmiInput.{
  Param, number, Input, init_input, Call, set_audio_mixer_levels, input_primary, input_system,
  start_hdmi_input, stop_hdmi_input, set_mixer_levels, set_video_rectangle, AudioInput, mix,
  take_levels, to_int,
}

-- The level that the mixer has after the calls of a log, the newest first; at first it has the
-- given levels.
abbrev pub of_primary : AudioInput → ℕ → ℕ → ℕ
of_primary input_primary new old = new
of_primary input_system new old = old

abbrev pub of_system : AudioInput → ℕ → ℕ → ℕ
of_system input_primary new old = old
of_system input_system new old = new

abbrev pub levels_by : Call → ℕ × ℕ → ℕ × ℕ
levels_by (set_audio_mixer_levels a n) (p, i) = (of_primary a n p, of_system a n i)
levels_by _ l = l

unfoldable pub mixer_levels : ℕ × ℕ → List Call → ℕ × ℕ
mixer_levels start [] = start
mixer_levels start (c ∷ cs) = levels_by c (mixer_levels start cs)

-- The calls of the API that can reach the mixer or the planes.
pub data InputStep : Input → Input → Type 0 where
  starts :
      (port plane : Param) (audio_mix top_most selects : Bool) (s : Input)
      → InputStep s (start_hdmi_input port audio_mix top_most plane selects s).0
  stops :
      (mixes : ℕ → Bool) (selects : Bool) (s : Input)
      → InputStep s (stop_hdmi_input mixes selects s).0
  sets_mixer :
      (p i : Param) (mixes : ℕ → Bool) (s : Input) → InputStep s (set_mixer_levels p i mixes s).0
  scales :
      (x y w h : Param) (returns : Bool) (s : Input)
      → InputStep s (set_video_rectangle x y w h returns s).0

pub data Reaches (s : Input) : Input → Type 0 where
  start : Reaches s s
  and_then : {t u : Input} → Reaches s t → InputStep t u → Reaches s u

-- The stored volumes are within their limits.
record IsWithin (s : Input) : Type 0 where
  prim : s.prim_volume ≤ 100
  input : s.input_volume ≤ 100

mix-IsWithin : (p i : ℕ) (mixes : ℕ → Bool) (s : Input) → IsWithin s → IsWithin (mix p i mixes s).0
unfolding mix
mix-IsWithin p i mixes s k = record {
  prim = ground (arith, k.prim);
  input = ground (arith, k.input);
}

take_levels-IsWithin :
    (p i : ℤ) (mixes : ℕ → Bool) (s : Input) → IsWithin s → IsWithin (take_levels p i mixes s).0
unfolding take_levels
take_levels-IsWithin (pos p) (pos i) mixes s k =
    mix-IsWithin p i mixes _ (record { prim = ground arith; input = ground arith })
take_levels-IsWithin (pos p) (negsuc i) mixes s k = k
take_levels-IsWithin (negsuc p) i mixes s k = k

set_mixer_levels-IsWithin :
    (p i : Param) (mixes : ℕ → Bool) (s : Input)
    → IsWithin s
    → IsWithin (set_mixer_levels p i mixes s).0
unfolding set_mixer_levels
set_mixer_levels-IsWithin (number p) (number i) mixes s k =
    take_levels-IsWithin (to_int p) (to_int i) mixes s k
set_mixer_levels-IsWithin _ _ mixes s k = k

-- A number that an int can hold is stored as it is.
to_int-small : (n : ℕ) → n < 2147483648 → to_int (pos n) ≡ pos n
unfolding to_int
to_int-small n h = ground (arith, h)

InputStep-IsWithin : {s t : Input} → InputStep s t → IsWithin s → IsWithin t
unfolding start_hdmi_input stop_hdmi_input set_video_rectangle
InputStep-IsWithin (starts port plane audio_mix top_most selects s) k = record {
  prim = ground (arith, k.prim);
  input = ground (arith, k.input);
}
InputStep-IsWithin (stops mixes selects s) k = record {
  prim = ground (arith, k.prim);
  input = ground (arith, k.input);
}
InputStep-IsWithin (sets_mixer p i mixes s) k = set_mixer_levels-IsWithin p i mixes s k
InputStep-IsWithin (scales x y w h returns s) k = record {
  prim = ground (arith, k.prim);
  input = ground (arith, k.input);
}

Reaches-IsWithin : {s t : Input} → Reaches s t → IsWithin s → IsWithin t
Reaches-IsWithin start k = k
Reaches-IsWithin (and_then r step) k = InputStep-IsWithin step (Reaches-IsWithin r k)

init_input-IsWithin : IsWithin init_input
init_input-IsWithin = record { prim = omega arith; input = omega arith }

-- Whatever has been called before, the stored volumes are at most 100. From there, setMixerLevels
-- with levels p and i that are no negative numbers and fit an int of 32 bits succeeds if both its
-- calls return, and then the mixer has the levels p and i; and a stopHdmiInput after that, whose calls of the mixer and of the port return, sets the mixer back to
-- 100 and 100.
pub stop_restores_mixer :
    (before : ℕ × ℕ) (p i : ℕ) (mixes : ℕ → Bool) (s : Input)
    → Reaches init_input s
    → mixes 0 ≡ true
    → mixes 1 ≡ true
    → p < 2147483648
    → i < 2147483648
    → let (t, success) = set_mixer_levels (number (pos p)) (number (pos i)) mixes s in
      let u = (stop_hdmi_input mixes true t).0 in
      (s.prim_volume ≤ 100)
      × (s.input_volume ≤ 100)
      × (success ≡ true)
      × (mixer_levels before t.log ≡ (p, i))
      × (mixer_levels before u.log ≡ (100, 100))
      × (u.is_audio_balance_set ≡ false)
unfolding set_mixer_levels take_levels mix stop_hdmi_input mixer_levels
stop_restores_mixer before p i mixes s r a b hp hi =
    let k = Reaches-IsWithin r init_input-IsWithin in
    (
      k.prim,
      k.input,
      ground (arith, a, b, to_int-small p hp, to_int-small i hi),
      ground (arith, a, b, to_int-small p hp, to_int-small i hi),
      ground (arith, a, b, to_int-small p hp, to_int-small i hi),
      ground (arith, a, b, to_int-small p hp, to_int-small i hi),
    )

-- A level above 100 is stored as 100, but the mixer gets it as it is.
level_above_limit_is_set :
    (before : ℕ × ℕ) (p i : ℕ) (mixes : ℕ → Bool) (s : Input)
    → 100 < p
    → mixes 0 ≡ true
    → mixes 1 ≡ true
    → p < 2147483648
    → i < 2147483648
    → let t = (set_mixer_levels (number (pos p)) (number (pos i)) mixes s).0 in
      (t.prim_volume ≡ 100) × ((mixer_levels before t.log).0 ≡ p)
unfolding set_mixer_levels take_levels mix mixer_levels
level_above_limit_is_set before p i mixes s h a b hp hi = (
  ground (arith, to_int-small p hp, to_int-small i hi),
  ground (arith, a, b, to_int-small p hp, to_int-small i hi),
)

-- A level of 2 ^ 31 is a negative int, and refused.
wrapped_level_is_refused :
    (i : ℤ) (mixes : ℕ → Bool) (s : Input)
    → set_mixer_levels (number (pos 2147483648)) (number i) mixes s ≡ (s, false)
unfolding set_mixer_levels take_levels to_int
wrapped_level_is_refused i mixes s = refl
