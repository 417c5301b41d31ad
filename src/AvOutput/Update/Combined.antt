-- ===== src/AvOutput/Update/Combined.antt =====
-- The three loops over the sources, picture modes and formats of a request.
use entservices_inputoutput.Base.{ℤ, List, All}
use entservices_inputoutput.AvOutput.State.{PqParam, ParamIndex, Env, Run, to_byte}
use entservices_inputoutput.AvOutput.Text.{Name}
use entservices_inputoutput.AvOutput.Update.{Action, Values, each, visit, update_values}
use entservices_inputoutput.AvOutput.Update.Loops.{All-map, each-back, each-keeps, each-All}

abbrev pub index_at : (source mode format : ℤ) → ParamIndex
index_at source mode format = record {
  source_index = to_byte source;
  pqmode_index = to_byte mode;
  format_index = to_byte format;
}

-- A property of every combination of the values.
abbrev pub AllIndices : (ParamIndex → Type 0) → Values → Type 0
AllIndices P w =
    All
      (λ source.
        All (λ mode. All (λ format. P (index_at source mode format)) w.format_values)
          w.pqmode_values)
      w.source_values

-- If the steps of a good run come from a good run, establish the property for their index, and keep
-- it for the others, then a good run ends with the property for every combination.
module _ {S : Type 0} (e : Env S) (action : Action) (for_param : Name) (pq : PqParam)
    (Good : Run S → Type 0) (P : ParamIndex → S → Type 0)
    (back : (x y z : ℤ) (r : Run S) → Good (visit e action for_param pq x y z r) → Good r)
    (keeps : (i : ParamIndex) (x y z : ℤ) (r : Run S)
      → Good (visit e action for_param pq x y z r)
      → P i r.store
      → P i (visit e action for_param pq x y z r).store)
    (makes : (x y z : ℤ) (r : Run S)
      → Good (visit e action for_param pq x y z r)
      → P (index_at x y z) (visit e action for_param pq x y z r).store) where
  abbrev step : (source mode format : ℤ) → Run S → Run S
  step source mode format r = visit e action for_param pq source mode format r

  abbrev formats_loop : Values → (source mode : ℤ) → Run S → Run S
  formats_loop w source mode = each (step source mode) w.format_values

  abbrev modes_loop : Values → (source : ℤ) → Run S → Run S
  modes_loop w source = each (formats_loop w source) w.pqmode_values

  formats-back :
      (w : Values) (source mode : ℤ) (r : Run S) → Good (formats_loop w source mode r) → Good r
  formats-back w source mode r g =
      each-back (step source mode) Good (back source mode) w.format_values r g

  formats-keeps :
      (w : Values) (i : ParamIndex) (source mode : ℤ) (r : Run S)
      → Good (formats_loop w source mode r)
      → P i r.store
      → P i (formats_loop w source mode r).store
  formats-keeps w i source mode r g k =
      each-keeps (step source mode) Good (λ u. P i u.store) (back source mode) (keeps i source mode)
        w.format_values r g k

  modes-back : (w : Values) (source : ℤ) (r : Run S) → Good (modes_loop w source r) → Good r
  modes-back w source r g =
      each-back (formats_loop w source) Good (formats-back w source) w.pqmode_values r g

  modes-keeps :
      (w : Values) (i : ParamIndex) (source : ℤ) (r : Run S)
      → Good (modes_loop w source r)
      → P i r.store
      → P i (modes_loop w source r).store
  modes-keeps w i source r g k =
      each-keeps (formats_loop w source) Good (λ u. P i u.store) (formats-back w source)
        (formats-keeps w i source) w.pqmode_values r g k

  formats-All :
      (w : Values) (source mode : ℤ) (r : Run S)
      → Good (formats_loop w source mode r)
      → All
          (λ format. P (index_at source mode format) (formats_loop w source mode r).store)
          w.format_values
  formats-All w source mode r g =
      each-All (step source mode) Good (λ format u. P (index_at source mode format) u.store)
        (back source mode) (λ x y u. keeps (index_at source mode x) source mode y u)
        (makes source mode) w.format_values r g

  modes-All :
      (w : Values) (source : ℤ) (r : Run S)
      → Good (modes_loop w source r)
      → All
          (λ mode.
            All
              (λ format. P (index_at source mode format) (modes_loop w source r).store)
              w.format_values)
          w.pqmode_values
  modes-All w source r g =
      each-All (formats_loop w source) Good
        (λ mode u. All (λ format. P (index_at source mode format) u.store) w.format_values)
        (formats-back w source)
        (λ x y u gu.
          All-map (λ f. formats-keeps w (index_at source x f) source y u gu) w.format_values)
        (formats-All w source) w.pqmode_values r g

  pub update_values-AllIndices :
      (w : Values) (r : Run S)
      → Good (update_values e action for_param pq w r)
      → AllIndices (λ i. P i (update_values e action for_param pq w r).store) w
  unfolding update_values
  update_values-AllIndices w r g =
      each-All (modes_loop w) Good
        (λ source u.
          All (λ mode. All (λ format. P (index_at source mode format) u.store) w.format_values)
            w.pqmode_values)
        (modes-back w)
        (λ x y u gu.
          All-map (λ m. All-map (λ f. modes-keeps w (index_at x m f) y u gu) w.format_values)
            w.pqmode_values)
        (modes-All w) w.source_values r g

-- What every step keeps, the loops keep.
module _ {S : Type 0} (e : Env S) (action : Action) (for_param : Name) (pq : PqParam)
    (P : Run S → Type 0)
    (keeps : (x y z : ℤ) (r : Run S) → P r → P (visit e action for_param pq x y z r)) where
  kept {κ} :
      {A : Type κ} (loop : A → Run S → Run S)
      → ((x : A) (r : Run S) → P r → P (loop x r))
      → (xs : List A) (r : Run S) → P r
      → P (each loop xs r)
  kept loop k xs r p =
      each-keeps {κ, 0, 0, 0} loop (λ u. Unit) P (λ x u g. tt) (λ x u g. k x u) xs r tt p

  pub update_values-keeps :
      (w : Values) (r : Run S) → P r → P (update_values e action for_param pq w r)
  unfolding update_values
  update_values-keeps w r p =
      kept _ (λ x. kept _ (λ y. kept _ (λ z. keeps x y z) w.format_values) w.pqmode_values)
        w.source_values r p
