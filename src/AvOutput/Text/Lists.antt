-- ===== src/AvOutput/Text/Lists.antt =====
-- A list of names that is joined by commas is split into the same names.
use mathlib.Core.List.{append_assoc}
use entservices_inputoutput.Base.{
  ℕ, ◌≡◌, refl, ◌∙◌, ap, false, List, [], ◌∷◌, ◌++◌, ◌==◌, arith, All,
}
use entservices_inputoutput.AvOutput.Text.{
  Name, is_empty, comma, in_front, split, starts_token, strtok, join_onto, convert_to_string,
  append_names,
}

-- A name that a list can hold: it has a character, and no comma.
abbrev IsName : Name → Type 0
IsName n = (is_empty n ≡ false) × All (λ c. (c == comma) ≡ false) n

-- The names with commas between them, the first one apart.
abbrev with_commas : Name → List Name → Name
with_commas n [] = n
with_commas n (m ∷ ms) = n ++ comma ∷ with_commas m ms

append_is_not_empty : (t : Name) (c : ℕ) (u : Name) → is_empty (t ++ c ∷ u) ≡ false
append_is_not_empty [] c u = refl
append_is_not_empty (d ∷ t) c u = refl

join_onto_more :
    (t n m : Name) (ms : List Name)
    → is_empty t ≡ false
    → join_onto t (n ∷ m ∷ ms) ≡ join_onto (t ++ comma ∷ n) (m ∷ ms)
unfolding join_onto
join_onto_more [] n m ms h = cc
join_onto_more (c ∷ t) n m ms h = refl

join_onto-with_commas :
    (t n : Name) (ns : List Name)
    → is_empty t ≡ false
    → join_onto t (n ∷ ns) ≡ t ++ comma ∷ with_commas n ns
unfolding join_onto
join_onto-with_commas [] n ns h = cc
join_onto-with_commas (c ∷ t) n [] h = refl
join_onto-with_commas (c ∷ t) n (m ∷ ms) h =
    join_onto-with_commas ((c ∷ t) ++ comma ∷ n) m ms refl
    ∙ ap (λ u. c ∷ u) (append_assoc t (comma ∷ n) (comma ∷ with_commas m ms))

convert-with_commas :
    (n : Name) (ns : List Name) → is_empty n ≡ false → convert_to_string (n ∷ ns) ≡ with_commas n ns
unfolding join_onto
convert-with_commas n [] h = refl
convert-with_commas n (m ∷ ms) h = join_onto-with_commas n m ms h

append_names-with_commas :
    (t n : Name) (ns : List Name) → append_names t (n ∷ ns) ≡ t ++ with_commas n ns
unfolding append_names
append_names-with_commas t n [] = refl
append_names-with_commas t n (m ∷ ms) =
    append_names-with_commas (t ++ n ++ comma ∷ []) m ms
    ∙ (append_assoc (t ++ n) (comma ∷ []) (with_commas m ms)
        ∙ append_assoc t n (comma ∷ with_commas m ms))

split_more : (c : ℕ) (t : Name) → (c == comma) ≡ false → split (c ∷ t) ≡ in_front c (split t)
unfolding split
split_more c t h = ground (arith, h)

split-append_comma :
    (n t : Name) → All (λ c. (c == comma) ≡ false) n → split (n ++ comma ∷ t) ≡ n ∷ split t
unfolding split
split-append_comma [] t h = refl
split-append_comma (c ∷ n) t h =
    split_more c (n ++ comma ∷ t) h.0 ∙ ap (in_front c) (split-append_comma n t h.1)

split_name : (n : Name) → IsName n → split n ≡ n ∷ []
unfolding split
split_name [] h = cc
split_name (c ∷ []) h = split_more c [] h.1.0
split_name (c ∷ d ∷ n) h =
    split_more c (d ∷ n) h.1.0 ∙ ap (in_front c) (split_name (d ∷ n) (refl, h.1.1))

strtok_end :
    (c : ℕ) (t : Name)
    → (c == comma) ≡ false
    → starts_token t ≡ false
    → strtok (c ∷ t) ≡ (c ∷ []) ∷ strtok t
unfolding strtok
strtok_end c t h e = ground (arith, h, e)

strtok_more :
    (c d : ℕ) (t : Name)
    → (c == comma) ≡ false
    → (d == comma) ≡ false
    → strtok (c ∷ d ∷ t) ≡ in_front c (strtok (d ∷ t))
unfolding strtok
strtok_more c d t h e = ground (arith, h, e)

strtok-append_comma : (n t : Name) → IsName n → strtok (n ++ comma ∷ t) ≡ n ∷ strtok t
unfolding strtok
strtok-append_comma [] t h = cc
strtok-append_comma (c ∷ []) t h = strtok_end c (comma ∷ t) h.1.0 refl
strtok-append_comma (c ∷ d ∷ n) t h =
    strtok_more c d (n ++ comma ∷ t) h.1.0 h.1.1.0
    ∙ ap (in_front c) (strtok-append_comma (d ∷ n) t (refl, h.1.1))

strtok_name : (n : Name) → IsName n → strtok n ≡ n ∷ []
unfolding strtok
strtok_name [] h = cc
strtok_name (c ∷ []) h = strtok_end c [] h.1.0 refl
strtok_name (c ∷ d ∷ n) h =
    strtok_more c d n h.1.0 h.1.1.0 ∙ ap (in_front c) (strtok_name (d ∷ n) (refl, h.1.1))

split-with_commas :
    (n : Name) (ns : List Name) → All IsName (n ∷ ns) → split (with_commas n ns) ≡ n ∷ ns
split-with_commas n [] h = split_name n h.0
split-with_commas n (m ∷ ms) h =
    split-append_comma n (with_commas m ms) h.0.1 ∙ ap (λ r. n ∷ r) (split-with_commas m ms h.1)

strtok-with_commas :
    (n : Name) (ns : List Name) → All IsName (n ∷ ns) → strtok (with_commas n ns) ≡ n ∷ ns
strtok-with_commas n [] h = strtok_name n h.0
strtok-with_commas n (m ∷ ms) h =
    strtok-append_comma n (with_commas m ms) h.0 ∙ ap (λ r. n ∷ r) (strtok-with_commas m ms h.1)

-- Names that have a character and no comma come back from the text that convertToString makes of
-- them, and from the text that parsingSetInputArgument makes, when either is split by getline or by
-- strtok_r.
pub names_survive :
    (ns : List Name)
    → All IsName ns
    → (split (convert_to_string ns) ≡ ns)
      × ((strtok (convert_to_string ns) ≡ ns)
          × ((split (append_names [] ns) ≡ ns) × (strtok (append_names [] ns) ≡ ns)))
unfolding split strtok join_onto append_names
names_survive [] h = (refl, (refl, (refl, refl)))
names_survive (n ∷ ns) h = (
  ap split (convert-with_commas n ns h.0.0) ∙ split-with_commas n ns h,
  (
    ap strtok (convert-with_commas n ns h.0.0) ∙ strtok-with_commas n ns h,
    (
      ap split (append_names-with_commas [] n ns) ∙ split-with_commas n ns h,
      ap strtok (append_names-with_commas [] n ns) ∙ strtok-with_commas n ns h,
    ),
  ),
)
