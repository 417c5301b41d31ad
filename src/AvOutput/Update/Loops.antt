-- ===== src/AvOutput/Update/Loops.antt =====
-- What a loop establishes for every entry of its list, and what it keeps.
use entservices_inputoutput.Base.{List, [], ◌∷◌, All}
use entservices_inputoutput.AvOutput.Update.{each}

pub All-map {ℓ κ μ} :
    {A : Type ℓ} {P : A → Type κ} {Q : A → Type μ}
    → ((x : A) → P x → Q x)
    → (xs : List A) → All P xs
    → All Q xs
All-map f [] h = tt
All-map f (x ∷ xs) h = (f x h.0, All-map f xs h.1)

module _ {ℓ κ} {A : Type ℓ} {R : Type κ} (step : A → R → R) where
  -- A property that a step can only lose.
  pub each-back {μ} :
      (Good : R → Type μ)
      → ((x : A) (r : R) → Good (step x r) → Good r)
      → (xs : List A) (r : R) → Good (each step xs r)
      → Good r
  unfolding each
  each-back Good back [] r h = h
  each-back Good back (x ∷ xs) r h = back x r (each-back Good back xs (step x r) h)

  -- A property that the steps of a good run keep.
  pub each-keeps {μ ν} :
      (Good : R → Type μ) (P : R → Type ν)
      → ((x : A) (r : R) → Good (step x r) → Good r)
      → ((x : A) (r : R) → Good (step x r) → P r → P (step x r))
      → (xs : List A) (r : R) → Good (each step xs r)
      → P r
      → P (each step xs r)
  unfolding each
  each-keeps Good P back keeps [] r h p = p
  each-keeps Good P back keeps (x ∷ xs) r h p =
      each-keeps Good P back keeps xs (step x r) h
        (keeps x r (each-back Good back xs (step x r) h) p)

  -- What each step establishes for its entry, and the later ones keep, holds of all in the end.
  pub each-All {μ ν} :
      (Good : R → Type μ) (P : A → R → Type ν)
      → ((x : A) (r : R) → Good (step x r) → Good r)
      → ((x y : A) (r : R) → Good (step y r) → P x r → P x (step y r))
      → ((x : A) (r : R) → Good (step x r) → P x (step x r))
      → (xs : List A) (r : R) → Good (each step xs r)
      → All (λ x. P x (each step xs r)) xs
  unfolding each
  each-All Good P back keeps makes [] r h = tt
  each-All Good P back keeps makes (x ∷ xs) r h = (
    each-keeps Good (P x) back (λ y u. keeps x y u) xs (step x r) h
        (makes x r (each-back Good back xs (step x r) h)),
    each-All Good P back keeps makes xs (step x r) h,
  )
