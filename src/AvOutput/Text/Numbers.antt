-- ===== src/AvOutput/Text/Numbers.antt =====
-- The number that is printed is read back.
use mathlib.Core.Path.{subst}
use entservices_inputoutput.Base.{
  ℕ, zero, suc, ◌+◌, ◌-◌, ◌*◌, ◌/◌, ◌%◌, ◌≤◌, ◌<◌, ℤ, pos, negsuc, ◌≡◌, refl, sym, ◌∙◌, ap, true,
  some, [], ◌∷◌, ◌++◌, ◌⊎◌, inl, inr, arith, All,
}
use entservices_inputoutput.AvOutput.Text.{
  Name, decimal, to_string, is_digit, value_onto, magnitude, skip_spaces, stoi, positive, negative,
}

-- Is the number one of 32 bits?
abbrev pub IsInt : ℤ → Type 0
IsInt (pos n) = n ≤ 2147483647
IsInt (negsuc n) = n ≤ 2147483647

abbrev limit : ℕ → ℕ
limit zero = 1
limit (suc k) = 10 * limit k

abbrev Digits : Name → Type 0
Digits t = All (λ c. is_digit c ≡ true) t

ten_or_more : (n : ℕ) → (n < 10) ⊎ (10 ≤ n)
ten_or_more n = ground arith

Digits-append : (s t : Name) → Digits s → Digits t → Digits (s ++ t)
Digits-append [] t hs ht = ht
Digits-append (c ∷ s) t hs ht = (hs.0, Digits-append s t hs.1 ht)

decimal_short : (k n : ℕ) → n < 10 → decimal (suc k) n ≡ (b'0' + n) ∷ []
unfolding decimal
decimal_short k n h = ground (arith, h)

decimal_long : (k n : ℕ) → 10 ≤ n → decimal (suc k) n ≡ decimal k (n / 10) ++ (b'0' + n % 10) ∷ []
unfolding decimal
decimal_long k n h = ground (arith, h)

decimal-Digits : (k n : ℕ) → Digits (decimal k n)
unfolding decimal
decimal-Digits zero n = tt
decimal-Digits (suc k) n = elim (ten_or_more n) [
  | inl h ↦ subst Digits (sym (decimal_short k n h)) (ground (arith, h), tt)
  | inr h ↦ subst Digits (sym (decimal_long k n h)) (
      Digits-append (decimal k (n / 10)) ((b'0' + n % 10) ∷ []) (decimal-Digits k (n / 10))
        (ground arith, tt))
]

value_onto_more :
    (v c : ℕ) (cs : Name)
    → is_digit c ≡ true
    → value_onto v (c ∷ cs) ≡ value_onto (v * 10 + (c - b'0')) cs
unfolding value_onto
value_onto_more v c cs h = ground (arith, h)

value_onto-append :
    (s t : Name) (v : ℕ) → Digits s → value_onto v (s ++ t) ≡ value_onto (value_onto v s) t
unfolding value_onto
value_onto-append [] t v h = refl
value_onto-append (c ∷ s) t v h =
    value_onto_more v c (s ++ t) h.0
    ∙ (value_onto-append s t (v * 10 + (c - b'0')) h.1
        ∙ ap (λ w. value_onto w t) (sym (value_onto_more v c s h.0)))

value_onto_digit : (v d : ℕ) → d < 10 → value_onto v ((b'0' + d) ∷ []) ≡ v * 10 + d
unfolding value_onto
value_onto_digit v d h = ground arith

value_onto-decimal : (k n : ℕ) → n < limit k → value_onto 0 (decimal k n) ≡ n
unfolding decimal value_onto
value_onto-decimal zero n h = omega (arith, h)
value_onto-decimal (suc k) n h = elim (ten_or_more n) [
  | inl e ↦ ap (value_onto 0) (decimal_short k n e) ∙ (value_onto_digit 0 n e ∙ omega arith)
  | inr e ↦
      ap (value_onto 0) (decimal_long k n e)
      ∙ (value_onto-append (decimal k (n / 10)) ((b'0' + n % 10) ∷ []) 0 (decimal-Digits k (n / 10))
          ∙ (ap (λ v. value_onto v ((b'0' + n % 10) ∷ []))
                (value_onto-decimal k (n / 10) (omega (arith, h)))
              ∙ (value_onto_digit (n / 10) (n % 10) (omega arith) ∙ omega arith)))
]

-- Does the text begin with a digit?
abbrev StartsWithDigit : Name → Type 0
StartsWithDigit t = (c : ℕ) × ((cs : Name) × ((t ≡ c ∷ cs) × (is_digit c ≡ true)))

Digits-StartsWithDigit :
    (s : Name) (d : ℕ) → Digits s → is_digit d ≡ true → StartsWithDigit (s ++ d ∷ [])
Digits-StartsWithDigit [] d hs h = (d, ([], (refl, h)))
Digits-StartsWithDigit (c ∷ s) d hs h = (c, (s ++ d ∷ [], (refl, hs.0)))

decimal-StartsWithDigit : (k n : ℕ) → StartsWithDigit (decimal (suc k) n)
decimal-StartsWithDigit k n = elim (ten_or_more n) [
  | inl h ↦ (b'0' + n, ([], (decimal_short k n h, ground (arith, h))))
  | inr h ↦ subst StartsWithDigit (sym (decimal_long k n h)) (
      Digits-StartsWithDigit (decimal k (n / 10)) (b'0' + n % 10) (decimal-Digits k (n / 10))
        (ground arith))
]

magnitude_digits : (t : Name) → StartsWithDigit t → magnitude t ≡ some (value_onto 0 t)
unfolding magnitude
magnitude_digits t (c, (cs, (e, h))) =
    subst (λ u. magnitude u ≡ some (value_onto 0 u)) (sym e) (rw h refl)

stoi_unsigned :
    (c : ℕ) (cs : Name) → is_digit c ≡ true → stoi (c ∷ cs) ≡ positive (magnitude (c ∷ cs))
unfolding stoi skip_spaces
stoi_unsigned c cs h = ground (arith, h)

stoi_digits : (t : Name) → StartsWithDigit t → stoi t ≡ positive (magnitude t)
stoi_digits t (c, (cs, (e, h))) =
    subst (λ u. stoi u ≡ positive (magnitude u)) (sym e) (stoi_unsigned c cs h)

magnitude-decimal : (n : ℕ) → n ≤ 2147483648 → magnitude (decimal 10 n) ≡ some n
magnitude-decimal n h =
    magnitude_digits (decimal 10 n) (decimal-StartsWithDigit 9 n)
    ∙ ap some (value_onto-decimal 10 n (omega (arith, h)))

-- An int that is printed is read back.
pub stoi-to_string : (n : ℤ) → IsInt n → stoi (to_string n) ≡ some n
unfolding to_string stoi skip_spaces
stoi-to_string (pos n) h =
    stoi_digits (decimal 10 n) (decimal-StartsWithDigit 9 n)
    ∙ (ap positive (magnitude-decimal n (omega (arith, h))) ∙ ground (arith, h))
stoi-to_string (negsuc n) h =
    ap negative (magnitude-decimal (suc n) (omega (arith, h))) ∙ ground (arith, h)
