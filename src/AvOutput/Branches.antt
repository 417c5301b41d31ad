-- ===== src/AvOutput/Branches.antt =====
-- Conditionals and Boolean tests whose value is known.
use entservices_inputoutput.Base.{
  ◌≡◌, refl, ap, Bool, true, false, not, ◌||◌, [], ◌∷◌, arith, if◌then◌else◌,
}
use entservices_inputoutput.AvOutput.Text.{Name, same_name}

pub if_true {ℓ} : {A : Type ℓ} (b : Bool) (x y : A) → b ≡ true → (if b then x else y) ≡ x
if_true b x y h = ap (λ c. if c then x else y) h

pub if_false {ℓ} : {A : Type ℓ} (b : Bool) (x y : A) → b ≡ false → (if b then x else y) ≡ y
if_false b x y h = ap (λ c. if c then x else y) h

pub or-false : (a b : Bool) → (a || b) ≡ false → (a ≡ false) × (b ≡ false)
or-false true b h = cc
or-false false b h = (refl, h)

pub not-false : (b : Bool) → not b ≡ false → b ≡ true
not-false true h = refl
not-false false h = cc

pub true_is_not_false : true ≡ false → ⊥
true_is_not_false h = cc

pub same_text {ℓ} : {A : Type ℓ} (b : Bool) (x y z : A) → x ≡ z → y ≡ z → (if b then x else y) ≡ z
same_text true x y z p q = p
same_text false x y z p q = q

pub same_name_self : (n : Name) → same_name n n ≡ true
same_name_self [] = refl
same_name_self (c ∷ n) = ground (arith, same_name_self n)

pub same_name-equal : (m n : Name) → same_name m n ≡ true → m ≡ n
same_name-equal [] [] h = refl
same_name-equal [] (d ∷ n) h = cc
same_name-equal (c ∷ m) [] h = cc
same_name-equal (c ∷ m) (d ∷ n) h = ground (arith, h, same_name-equal m n)
