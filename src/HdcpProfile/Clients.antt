-- ===== src/HdcpProfile/Clients.antt =====
-- The list of registered notifications has no duplicates.
use entservices_inputoutput.Base.{
  ℕ, ◌≡◌, refl, false, ◌||◌, List, [], ◌∷◌, ◌++◌, ◌==◌, arith, Bool-cases, inl, inr,
}
use entservices_inputoutput.HdcpProfile.{is_registered, erase_client}

-- No client is registered twice.
unfoldable pub Distinct : List ℕ → Type 0
Distinct [] = Unit
Distinct (c ∷ cs) = (is_registered c cs ≡ false) × Distinct cs

is_registered-append :
    (c d : ℕ) (cs : List ℕ) → is_registered c (cs ++ d ∷ []) ≡ (is_registered c cs || (d == c))
is_registered-append c d [] = ground arith
is_registered-append c d (x ∷ xs) = ground (arith, is_registered-append c d xs)

pub Distinct-append :
    (c : ℕ) (cs : List ℕ) → is_registered c cs ≡ false → Distinct cs → Distinct (cs ++ c ∷ [])
unfolding Distinct
Distinct-append c [] h d = (refl, tt)
Distinct-append c (x ∷ xs) h d =
    (ground (arith, is_registered-append x c xs), Distinct-append c xs (ground arith) d.1)

erase-registered :
    (c d : ℕ) (cs : List ℕ)
    → is_registered c cs ≡ false
    → is_registered c (erase_client d cs) ≡ false
erase-registered c d [] h = refl
erase-registered c d (x ∷ xs) h = ground (arith, erase-registered c d xs)

pub Distinct-erase : (d : ℕ) (cs : List ℕ) → Distinct cs → Distinct (erase_client d cs)
unfolding Distinct
Distinct-erase d [] h = tt
Distinct-erase d (x ∷ xs) h = elim (Bool-cases (x == d)) [
  | inl e ↦ simp e h.1
  | inr e ↦ simp e (erase-registered x d xs h.0, Distinct-erase d xs h.1)
]
