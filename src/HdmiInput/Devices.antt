-- ===== src/HdmiInput/Devices.antt =====
-- The list of the inputs and the hot plug event that carries it.
use entservices_inputoutput.Base.{
  ℕ, zero, suc, ◌+◌, ◌-◌, ◌≤◌, ◌<◌, ◌≡◌, refl, Bool, false, Option, none, some, List, [], ◌∷◌,
  arith, length, get_elem?, ◌⊎◌, inl, inr, ap, ◌∙◌, ltb, Bool-cases,
}
use entservices_inputoutput.HdmiInput.{
  InputDevice, devices_from, get_hdmi_input_devices, Input, notified, devices_changed,
}
use entservices_inputoutput.HdmiInput.Mode.{hdmi_input_hotplug}

devices_from-next :
    (connected : ℕ → Option Bool) (j k : ℕ) (b : Bool)
    → connected j ≡ some b
    → devices_from connected j (suc k)
      ≡ record { id = j; is_connected = b } ∷ devices_from connected (suc j) k
unfolding devices_from
devices_from-next connected j k b h = ground (arith, h)

devices_from-throws :
    (connected : ℕ → Option Bool) (j k : ℕ) → connected j ≡ none → devices_from connected j k ≡ []
unfolding devices_from
devices_from-throws connected j zero h = refl
devices_from-throws connected j (suc k) h = ground (arith, h)

get_elem?-next :
    (x : InputDevice) (xs : List InputDevice) (i j : ℕ)
    → j < i
    → get_elem? (x ∷ xs) (i - j) ≡ get_elem? xs (i - suc j)
get_elem?-next x xs i j h = ap (get_elem? (x ∷ xs)) (gap i j h)
  where
    gap : (i j : ℕ) → j < i → i - j ≡ suc (i - suc j)
    gap i j h = omega arith

get_elem?-here :
    (answer : ℕ → Bool) (xs : List InputDevice) (i j : ℕ)
    → j ≡ i
    → get_elem? (record { id = j; is_connected = answer j } ∷ xs) (i - j)
      ≡ some (record { id = i; is_connected = answer i })
get_elem?-here answer xs i j h =
    ap (get_elem? (record { id = j; is_connected = answer j } ∷ xs)) (zero_gap i j h)
    ∙ ap (λ n. some (record { id = n; is_connected = answer n })) h
  where
    zero_gap : (i j : ℕ) → j ≡ i → i - j ≡ 0
    zero_gap i j h = omega arith

not_less : (j i : ℕ) → ltb j i ≡ false → i ≤ j
not_less j i h = ground arith

-- The list from `j` on, where the answers end before `e`.
length-devices_from :
    (connected : ℕ → Option Bool) (answer : ℕ → Bool) (j k e : ℕ)
    → j ≤ e
    → e ≤ j + k
    → ((i : ℕ) → i < e → connected i ≡ some (answer i))
    → (e ≡ j + k) ⊎ (connected e ≡ none)
    → length (devices_from connected j k) + j ≡ e
unfolding devices_from
length-devices_from connected answer j zero e l m h s = omega arith
length-devices_from connected answer j (suc k) e l m h s = elim (Bool-cases (ltb j e)) [
  | inl q ↦ ground (
    arith,
    devices_from-next connected j k (answer j) (h j (ground arith)),
    length-devices_from connected answer (suc j) k e (ground arith) (omega arith) h (shift s),
  )
  | inr q ↦ ground (arith, stops s (ground arith))
]
  where
    shift : (e ≡ j + suc k) ⊎ (connected e ≡ none) → (e ≡ suc j + k) ⊎ (connected e ≡ none)
    shift (inl p) = inl (omega (arith, p))
    shift (inr p) = inr p

    stops : (e ≡ j + suc k) ⊎ (connected e ≡ none) → j ≡ e → devices_from connected j (suc k) ≡ []
    stops (inl p) q = absurd (omega (arith, p, q))
    stops (inr p) q = devices_from-throws connected j (suc k) (ap connected q ∙ p)

get_elem?-devices_from :
    (connected : ℕ → Option Bool) (answer : ℕ → Bool) (j k e : ℕ)
    → e ≤ j + k
    → ((i : ℕ) → i < e → connected i ≡ some (answer i))
    → (i : ℕ) → j ≤ i
    → i < e
    → get_elem? (devices_from connected j k) (i - j)
      ≡ some (record { id = i; is_connected = answer i })
get_elem?-devices_from connected answer j zero e m h i a b = absurd (omega arith)
get_elem?-devices_from connected answer j (suc k) e m h i a b =
    ap (λ xs. get_elem? xs (i - j)) (devices_from-next connected j k (answer j) (h j (omega arith)))
    ∙ elim (Bool-cases (ltb j i)) [
      | inl q ↦
          get_elem?-next _ _ i j (ground arith)
          ∙ get_elem?-devices_from connected answer (suc j) k e (omega arith) h i (ground arith) b
      | inr q ↦ get_elem?-here answer _ i j (omega (arith, a, not_less j i q))
    ]

-- If the first `m` of the `n` inputs tell whether they are connected, and these are all or the next
-- one throws, the list of a hot plug event has `m` entries: the i-th has the id i and says what the
-- i-th input told. The inputs after one that throws are left out.
pub listed_until_exception :
    (connected : ℕ → Option Bool) (answer : ℕ → Bool) (n m : ℕ) (s : Input)
    → m ≤ n
    → ((i : ℕ) → i < m → connected i ≡ some (answer i))
    → (m ≡ n) ⊎ (connected m ≡ none)
    → let devices = get_hdmi_input_devices (some n) connected in
      ((hdmi_input_hotplug (some n) connected s).log ≡ notified (devices_changed devices) ∷ s.log)
      × (length devices ≡ m)
      × ((i : ℕ) → i < m → get_elem? devices i ≡ some (record { id = i; is_connected = answer i }))
unfolding get_hdmi_input_devices hdmi_input_hotplug
listed_until_exception connected answer n m s l h e = (
  refl,
  omega (
    arith,
    length-devices_from connected answer 0 n m (omega arith) (omega (arith, l)) h (ends e),
  ),
  λ i b.
      ap (get_elem? (devices_from connected 0 n)) (minus_zero i)
      ∙ get_elem?-devices_from connected answer 0 n m (omega (arith, l)) h i (omega arith) b,
)
  where
    ends : (m ≡ n) ⊎ (connected m ≡ none) → (m ≡ 0 + n) ⊎ (connected m ≡ none)
    ends (inl p) = inl (omega (arith, p))
    ends (inr p) = inr p

    minus_zero : (i : ℕ) → i ≡ i - 0
    minus_zero i = omega arith
