-- ===== src/AvOutput/Capabilities/Included.antt =====
-- The check of a request against the capability file is inclusion of the lists.
use entservices_inputoutput.Base.{
  ◌≡◌, refl, sym, ap, ◌∙◌, ◌↔◌, Bool, true, false, ◌&&◌, some, List, [], ◌∷◌, All, if◌then◌else◌,
}
use entservices_inputoutput.AvOutput.Branches.{if_false}
use entservices_inputoutput.AvOutput.Text.{Name, split}
use entservices_inputoutput.AvOutput.State.{Env}
use entservices_inputoutput.AvOutput.Storage.{is_param}
use entservices_inputoutput.AvOutput.Capabilities.{
  CapDetails, member, passes, check_modes, check_cms, check_white_balance, is_included,
  read_capablities_from_conf, is_capablity_check_passed,
}

-- Is every name of the second list in the first?
abbrev pub AreListed : List Name → List Name → Type 0
AreListed listed names = All (λ n. member n listed ≡ true) names

and-true : (a b : Bool) → (a && b) ≡ true → (a ≡ true) × (b ≡ true)
and-true true b h = (refl, h)
and-true false b h = cc

true-and : (a b : Bool) → a ≡ true → b ≡ true → (a && b) ≡ true
true-and true b h k = k
true-and false b h k = cc

is_included-AreListed :
    (listed names : List Name) → is_included listed names ≡ true → AreListed listed names
unfolding is_included
is_included-AreListed listed [] h = tt
is_included-AreListed listed (n ∷ ns) h =
    let q = and-true (member n listed) (is_included listed ns) h in
    (q.0, is_included-AreListed listed ns q.1)

AreListed-is_included :
    (listed names : List Name) → AreListed listed names → is_included listed names ≡ true
unfolding is_included
AreListed-is_included listed [] a = refl
AreListed-is_included listed (n ∷ ns) a =
    true-and (member n listed) (is_included listed ns) a.0 (AreListed-is_included listed ns a.1)

passed-check_modes :
    {S : Type 0} (e : Env S) (param : Name) (cap input : CapDetails)
    → read_capablities_from_conf e param ≡ some cap
    → is_param "CMS" param ≡ false
    → is_param "WhiteBalance" param ≡ false
    → is_capablity_check_passed e param input ≡ check_modes cap input
unfolding is_capablity_check_passed
passed-check_modes e param cap input h c w =
    ap (passes param input) h
    ∙ ap (λ b. b && check_modes cap input)
        (if_false (is_param "CMS" param) (check_cms cap input)
            (if is_param "WhiteBalance" param then check_white_balance cap input else true) c
          ∙ if_false (is_param "WhiteBalance" param) (check_white_balance cap input) true w)

-- The request of a setting that is neither CMS nor white balance passes the capability check if and
-- only if each of its picture modes, formats and sources is one that the capability file lists for
-- the setting.
pub check_is_inclusion :
    {S : Type 0} (e : Env S) (param : Name) (cap input : CapDetails)
    → read_capablities_from_conf e param ≡ some cap
    → is_param "CMS" param ≡ false
    → is_param "WhiteBalance" param ≡ false
    → (is_capablity_check_passed e param input ≡ true) ↔ (
        AreListed (split cap.pqmode) (split input.pqmode)
        × (AreListed (split cap.format) (split input.format)
            × AreListed (split cap.source) (split input.source)))
unfolding is_capablity_check_passed
check_is_inclusion e param cap input h c w =
    let q = passed-check_modes e param cap input h c w in
    let pq = is_included (split cap.pqmode) (split input.pqmode) in
    let f = is_included (split cap.format) (split input.format) in
    let s = is_included (split cap.source) (split input.source) in
    (
      λ p.
          let m = and-true pq (f && s) (sym q ∙ p) in
          let n = and-true f s m.1 in
          (
            is_included-AreListed (split cap.pqmode) (split input.pqmode) m.0,
            (
              is_included-AreListed (split cap.format) (split input.format) n.0,
              is_included-AreListed (split cap.source) (split input.source) n.1,
            ),
          ),
      λ a.
          q
          ∙ true-and pq (f && s) (AreListed-is_included (split cap.pqmode) (split input.pqmode) a.0)
              (true-and f s (AreListed-is_included (split cap.format) (split input.format) a.1.0)
                (AreListed-is_included (split cap.source) (split input.source) a.1.1)),
    )
