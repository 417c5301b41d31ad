-- ===== src/AvOutput/Update/Cleared.antt =====
-- A reset action that succeeds has cleared the value of every combination of the request.
use mathlib.Core.Path.{subst}
use entservices_inputoutput.Base.{
  ℤ, pos, ◌≡◌, refl, sym, ap, ◌∙◌, Bool, true, false, not, ◌||◌, ◌∷◌, Bool-cases, inl, inr,
}
use entservices_inputoutput.AvOutput.Branches.{
  if_true, if_false, or-false, not-false, true_is_not_false, same_text, same_name_self,
}
use entservices_inputoutput.AvOutput.Text.{Name, same_name}
use entservices_inputoutput.AvOutput.State.{PqParam, ParamIndex, save, Env, IsLawful, Run}
use entservices_inputoutput.AvOutput.Storage.{
  Local, found, no_key, not_stored, local_thrown, generate_storage_identifier, delete_from_hal,
  get_localparam, written,
}
use entservices_inputoutput.AvOutput.Update.{
  reset_action, Values, visit, act, save_level, save_found, update_values,
}
use entservices_inputoutput.AvOutput.Update.Combined.{
  index_at, AllIndices, update_values-AllIndices,
}

-- Nothing has failed.
abbrev pub IsClean : {S : Type 0} → Run S → Type 0
IsClean r = (r.is_failed ≡ false) × (r.is_thrown ≡ false)

module _ {S : Type 0} (e : Env S) (pq : PqParam) where
  save_level-Clean :
      (i : ParamIndex) (u : Run S)
      → IsClean (save_level e pq i u)
      → IsClean u × ((save_level e pq i u).store ≡ u.store)
  save_level-Clean i u c =
      let sent = record u {
        log = save pq i u.level ∷ u.log;
        is_failed = u.is_failed || not (e.accepts (save pq i u.level));
      } in
      elim (Bool-cases u.is_thrown) [
        | inl n ↦ let q = if_true u.is_thrown u sent n in (subst IsClean q c, ap (λ r. r.store) q)
        | inr n ↦
            let q = if_false u.is_thrown u sent n in
            (
              (
                (or-false u.is_failed (not (e.accepts (save pq i u.level)))
                    (subst IsClean q c).0).0,
                n,
              ),
              ap (λ r. r.store) q,
            )
      ]

  save_found-Clean :
      (i : ParamIndex) (l : Local) (u : Run S)
      → IsClean (save_found e pq i l u)
      → IsClean u × ((save_found e pq i l u).store ≡ u.store)
  save_found-Clean i (found v) u c =
      let q = save_level-Clean i (record u { level = v }) c in (q.0, q.1)
  save_found-Clean i local_thrown u c = absurd (true_is_not_false c.1)
  save_found-Clean i no_key u c = (c, refl)
  save_found-Clean i not_stored u c = (c, refl)

module _ {S : Type 0} (e : Env S) (law : IsLawful e) (for_param : Name) (pq : PqParam) where
  abbrev IsDefault : ParamIndex → S → Type 0
  IsDefault i s =
      let key = generate_storage_identifier e for_param i in e.get_local s key ≡ e.default_local key

  abbrev clear : ParamIndex → Run S → S × Bool
  clear i r = e.clear_local (generate_storage_identifier e for_param i) r.store

  IsClean-step :
      (x y z : ℤ) (r : Run S)
      → IsClean (visit e reset_action for_param pq x y z r)
      → IsClean r
        × (((clear (index_at x y z) r).1 ≡ true)
            × ((visit e reset_action for_param pq x y z r).store ≡ (clear (index_at x y z) r).0))
  unfolding visit act delete_from_hal generate_storage_identifier
  IsClean-step x y z r c =
      let i = index_at x y z in
      let u = written e (clear i r) r in
      let l = get_localparam e for_param i (pos 0) pq false u.store in
      elim (Bool-cases r.is_thrown) [
        | inl n ↦
            let q = if_true r.is_thrown r (act e reset_action for_param pq i r) n in
            absurd (true_is_not_false (sym n ∙ (subst IsClean q c).1))
        | inr n ↦
            let q = if_false r.is_thrown r (act e reset_action for_param pq i r) n in
            let f = save_found-Clean e pq i l u (subst IsClean q c) in
            let w = or-false r.is_failed (not (clear i r).1) f.0.0 in
            ((w.0, n), (not-false (clear i r).1 w.1, ap (λ t. t.store) q ∙ f.1))
      ]

  step-keeps :
      (i : ParamIndex) (x y z : ℤ) (r : Run S)
      → IsClean (visit e reset_action for_param pq x y z r)
      → IsDefault i r.store
      → IsDefault i (visit e reset_action for_param pq x y z r).store
  step-keeps i x y z r c k =
      let q = IsClean-step x y z r c in
      let key = generate_storage_identifier e for_param (index_at x y z) in
      let j = generate_storage_identifier e for_param i in
      ap (λ s. e.get_local s j) q.1.1
      ∙ (law.get-clear r.store key j q.1.0
          ∙ same_text (same_name j key) (e.default_local j) (e.get_local r.store j)
              (e.default_local j) refl k)

  step-makes :
      (x y z : ℤ) (r : Run S)
      → IsClean (visit e reset_action for_param pq x y z r)
      → IsDefault (index_at x y z) (visit e reset_action for_param pq x y z r).store
  step-makes x y z r c =
      let q = IsClean-step x y z r c in
      let key = generate_storage_identifier e for_param (index_at x y z) in
      ap (λ s. e.get_local s key) q.1.1
      ∙ (law.get-clear r.store key key q.1.0
          ∙ if_true (same_name key key) (e.default_local key) (e.get_local r.store key)
              (same_name_self key))

  -- After a reset action that succeeds, the key of every combination has the settings file's entry.
  pub update_values-Cleared :
      (w : Values) (r : Run S)
      → IsClean (update_values e reset_action for_param pq w r)
      → AllIndices (λ i. IsDefault i (update_values e reset_action for_param pq w r).store) w
  update_values-Cleared w r c =
      update_values-AllIndices e reset_action for_param pq IsClean IsDefault
        (λ x y z u g. (IsClean-step x y z u g).0) step-keeps step-makes w r c
