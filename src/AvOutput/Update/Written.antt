-- ===== src/AvOutput/Update/Written.antt =====
-- A set action that succeeds has written its value for every combination of the request.
use mathlib.Core.Path.{subst}
use entservices_inputoutput.Base.{
  ℤ, ◌≡◌, refl, Bool, true, false, not, ◌||◌, Option, some, none, ◌∷◌, Bool-cases, inl, inr, ap,
  sym, ◌∙◌,
}
use entservices_inputoutput.AvOutput.Branches.{
  if_true, if_false, or-false, not-false, true_is_not_false, same_text, same_name_self,
}
use entservices_inputoutput.AvOutput.Text.{Name, same_name}
use entservices_inputoutput.AvOutput.State.{PqParam, ParamIndex, save, Env, IsLawful, Run}
use entservices_inputoutput.AvOutput.Storage.{
  generate_storage_identifier, to_store, set_to_hal, written, stored,
}
use entservices_inputoutput.AvOutput.Update.{
  set_action, Values, visit, act, save_level, update_values,
}
use entservices_inputoutput.AvOutput.Update.Combined.{
  index_at, AllIndices, update_values-AllIndices, update_values-keeps,
}

-- Nothing has failed, and the level is the one to set.
abbrev pub IsGood : {S : Type 0} → ℤ → Run S → Type 0
IsGood v r = (r.is_failed ≡ false) × ((r.is_thrown ≡ false) × (r.level ≡ v))

module _ {S : Type 0} (e : Env S) (law : IsLawful e) (for_param : Name) (pq : PqParam) (v : ℤ)
    (text : Name) (h : to_store e.constants for_param v ≡ some text) where
  -- The key of the index has the text.
  abbrev Holds : ParamIndex → S → Type 0
  Holds i s = e.get_local s (generate_storage_identifier e for_param i) ≡ some text

  abbrev step : (source mode format : ℤ) → Run S → Run S
  step source mode format r = visit e set_action for_param pq source mode format r

  -- The run after the driver's call.
  abbrev saved : ParamIndex → Run S → Run S
  saved i r = record r {
    log = save pq i r.level ∷ r.log;
    is_failed = r.is_failed || not (e.accepts (save pq i r.level));
  }

  -- The result of a step that no exception stops.
  abbrev result : ParamIndex → Run S → Run S
  result i r =
      save_level e pq i
        (written e (e.set_local (generate_storage_identifier e for_param i) text r.store) r)

  save_level-level : (i : ParamIndex) (r : Run S) → (save_level e pq i r).level ≡ r.level
  save_level-level i r = elim (Bool-cases r.is_thrown) [
    | inl n ↦ ap (λ u. u.level) (if_true r.is_thrown r (saved i r) n)
    | inr n ↦ ap (λ u. u.level) (if_false r.is_thrown r (saved i r) n)
  ]

  stored-level : (key : Name) (o : Option Name) (r : Run S) → (stored e key o r).level ≡ r.level
  stored-level key none r = refl
  stored-level key (some t) r = refl

  step-level : (source mode format : ℤ) (r : Run S) → (step source mode format r).level ≡ r.level
  unfolding visit act set_to_hal generate_storage_identifier
  step-level source mode format r =
      let i = index_at source mode format in
      let key = generate_storage_identifier e for_param i in
      let o = to_store e.constants for_param r.level in
      elim (Bool-cases r.is_thrown) [
        | inl n ↦ ap (λ u. u.level) (if_true r.is_thrown r (act e set_action for_param pq i r) n)
        | inr n ↦
            ap (λ u. u.level) (if_false r.is_thrown r (act e set_action for_param pq i r) n)
            ∙ (save_level-level i (stored e key o r) ∙ stored-level key o r)
      ]

  set_to_hal-written :
      (i : ParamIndex) (r : Run S)
      → r.level ≡ v
      → set_to_hal e for_param i r.level r
        ≡ written e (e.set_local (generate_storage_identifier e for_param i) text r.store) r
  unfolding set_to_hal generate_storage_identifier
  set_to_hal-written i r l =
      ap (λ o. stored e (generate_storage_identifier e for_param i) o r)
        (ap (to_store e.constants for_param) l ∙ h)

  step-result :
      (source mode format : ℤ) (r : Run S)
      → r.level ≡ v
      → r.is_thrown ≡ false
      → step source mode format r ≡ result (index_at source mode format) r
  unfolding visit act
  step-result source mode format r l n =
      let i = index_at source mode format in
      if_false r.is_thrown r (act e set_action for_param pq i r) n
      ∙ ap (save_level e pq i) (set_to_hal-written i r l)

  step-thrown :
      (source mode format : ℤ) (r : Run S) → r.is_thrown ≡ true → step source mode format r ≡ r
  unfolding visit
  step-thrown source mode format r n =
      if_true r.is_thrown r (act e set_action for_param pq (index_at source mode format) r) n

  -- What the store gives for the index.
  abbrev write : ParamIndex → Run S → S × Bool
  write i r = e.set_local (generate_storage_identifier e for_param i) text r.store

  step-saved :
      (source mode format : ℤ) (r : Run S)
      → r.level ≡ v
      → r.is_thrown ≡ false
      → step source mode format r
        ≡ saved (index_at source mode format) (written e (write (index_at source mode format) r) r)
  step-saved source mode format r l n =
      let i = index_at source mode format in
      let u = written e (write i r) r in
      step-result source mode format r l n ∙ if_false r.is_thrown u (saved i u) n

  -- In a good run the step is carried out, and the write has succeeded.
  IsGood-step :
      (source mode format : ℤ) (r : Run S)
      → IsGood v (step source mode format r)
      → IsGood v r
        × (((write (index_at source mode format) r).1 ≡ true)
            × (step source mode format r
                ≡ saved
                    (index_at source mode format)
                    (written e (write (index_at source mode format) r) r)))
  IsGood-step source mode format r g =
      let i = index_at source mode format in
      let l = sym (step-level source mode format r) ∙ g.1.1 in
      elim (Bool-cases r.is_thrown) [
        | inl n ↦
            let q = subst (IsGood v) (step-thrown source mode format r n) g in
            absurd (true_is_not_false (sym n ∙ q.1.0))
        | inr n ↦
            let q = step-saved source mode format r l n in
            let f =
              or-false (r.is_failed || not (write i r).1) (not (e.accepts (save pq i r.level)))
                (ap (λ u. u.is_failed) (sym q) ∙ g.0) in
            let w = or-false r.is_failed (not (write i r).1) f.0 in
            ((w.0, (n, l)), (not-false (write i r).1 w.1, q))
      ]

  step-back :
      (source mode format : ℤ) (r : Run S) → IsGood v (step source mode format r) → IsGood v r
  step-back source mode format r g = (IsGood-step source mode format r g).0

  step-keeps :
      (i : ParamIndex) (source mode format : ℤ) (r : Run S)
      → IsGood v (step source mode format r)
      → Holds i r.store
      → Holds i (step source mode format r).store
  step-keeps i source mode format r g k =
      let q = IsGood-step source mode format r g in
      let key = generate_storage_identifier e for_param (index_at source mode format) in
      let j = generate_storage_identifier e for_param i in
      ap (λ u. e.get_local u.store j) q.1.1
      ∙ (law.get-set r.store key text j q.1.0
          ∙ same_text (same_name j key) (some text) (e.get_local r.store j) (some text) refl k)

  step-makes :
      (source mode format : ℤ) (r : Run S)
      → IsGood v (step source mode format r)
      → Holds (index_at source mode format) (step source mode format r).store
  step-makes source mode format r g =
      let q = IsGood-step source mode format r g in
      let key = generate_storage_identifier e for_param (index_at source mode format) in
      ap (λ u. e.get_local u.store key) q.1.1
      ∙ (law.get-set r.store key text key q.1.0
          ∙ if_true (same_name key key) (some text) (e.get_local r.store key) (same_name_self key))

  -- After a set action that succeeds, the key of every combination has the text of the value.
  pub update_values-Written :
      (w : Values) (r : Run S)
      → IsGood v (update_values e set_action for_param pq w r)
      → AllIndices (λ i. Holds i (update_values e set_action for_param pq w r).store) w
  update_values-Written w r g =
      update_values-AllIndices e set_action for_param pq (IsGood v) Holds step-back step-keeps
        step-makes w r g

  pub update_values-level :
      (w : Values) (r : Run S)
      → r.level ≡ v
      → (update_values e set_action for_param pq w r).level ≡ v
  update_values-level w r l =
      update_values-keeps e set_action for_param pq (λ u. u.level ≡ v)
        (λ x y z u k. step-level x y z u ∙ k) w r l
