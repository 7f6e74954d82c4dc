-- ===== src/Prelude/Strings.antt =====
-- Text as a JavaScript string is: a list of UTF-16 code units.
use Prim.Native.Nat.{ℕ}
use Prim.Native.Char.{code}
use Prim.Native.String.{String}
use mathlib.Core.Path.{◌≡◌, refl, sym, ap, ◌∙◌}
use mathlib.Core.Logic.{◌↔◌, inl, inr}
use mathlib.Core.Bool.{Bool, true, false, not, ◌&&◌, false≢true}
use mathlib.Core.Option.{Option, none, some}
use mathlib.Core.List.{List, [], ◌∷◌, ◌++◌}
use native.Mathlib.Omega.{arith}
use tetrac_login_sdk.Prelude.Tests.{◌==◌, if◌then◌else◌, &&_split, Bool-cases}
use tetrac_login_sdk.Prelude.Lists.{length, all}

abbrev pub Text : Type 0
Text = List ℕ

-- A literal, whose code units are its code points (all literals of the program are ASCII).
abbrev pub codes : String → Text
codes String.[] = []
codes (String.◌∷◌ c s) = code c ∷ codes s

-- `===` on strings.
unfoldable pub text_eq : Text → Text → Bool
text_eq [] [] = true
text_eq [] (b ∷ bs) = false
text_eq (a ∷ as') [] = false
text_eq (a ∷ as') (b ∷ bs) = (a == b) && text_eq as' bs

text_eq→eq : (s t : Text) → text_eq s t ≡ true → s ≡ t
unfolding text_eq
text_eq→eq [] [] h = refl
text_eq→eq [] (b ∷ bs) h = cc
text_eq→eq (a ∷ as') [] h = cc
text_eq→eq (a ∷ as') (b ∷ bs) h = ground (arith, text_eq→eq as' bs)

pub text_eq_refl : (s : Text) → text_eq s s ≡ true
unfolding text_eq
text_eq_refl [] = refl
text_eq_refl (a ∷ as') = ground (arith, text_eq_refl as')

pub text_eq_iff : (s t : Text) → (text_eq s t ≡ true) ↔ (s ≡ t)
text_eq_iff s t = (text_eq→eq s t, λ e. rw e (text_eq_refl t))

pub text_neq : (s t : Text) → (s ≡ t → ⊥) → text_eq s t ≡ false
text_neq s t apart = elim (Bool-cases (text_eq s t)) [
  | inl same ↦ absurd (apart (text_eq→eq s t same))
  | inr no_match ↦ no_match
]

-- The text before and after the first `c`.
unfoldable pub split_first : ℕ → Text → Option (Text × Text)
split_first c [] = none
split_first c (d ∷ s) =
    let rest = split_first c s in
    if d == c then some ([], s) else elim rest [ none ↦ none | some (a, b) ↦ some (d ∷ a, b) ]

-- `s.split(c)` at a character.
unfoldable pub split_on : ℕ → Text → List Text
split_on c [] = [] ∷ []
split_on c (d ∷ s) =
    let rest = split_on c s in
    if d == c then [] ∷ rest else elim rest [ [] ↦ [] | part ∷ parts ↦ (d ∷ part) ∷ parts ]

-- The character does not occur.
unfoldable pub lacks : ℕ → Text → Bool
lacks c [] = true
lacks c (d ∷ s) = not (d == c) && lacks c s

-- The first occurrence of a separator splits a text in one way.
pub split_unique :
    (c : ℕ) (s t u v : Text)
    → lacks c s ≡ true
    → lacks c t ≡ true
    → s ++ c ∷ u ≡ t ++ c ∷ v
    → (s ≡ t) × (u ≡ v)
unfolding lacks
split_unique c [] [] u v p q e = (refl, cc)
split_unique c [] (b ∷ t) u v p q e = let h : c ≡ b = cc in ground arith
split_unique c (a ∷ s) [] u v p q e = let h : a ≡ c = cc in ground arith
split_unique c (a ∷ s) (b ∷ t) u v p q e =
    let rest : (s ≡ t) × (u ≡ v) = split_unique c s t u v (ground arith) (ground arith) (cc) in
    (ground arith, rest.1)

pub append_cancel : (s : Text) {t u : Text} → s ++ t ≡ s ++ u → t ≡ u
append_cancel [] e = e
append_cancel (a ∷ s) e = append_cancel s (cc)

-- Texts of one length split in one way.
pub split_length :
    (s t : Text) {u v : Text} → length s ≡ length t → s ++ u ≡ t ++ v → (s ≡ t) × (u ≡ v)
split_length [] [] l e = (refl, e)
split_length [] (b ∷ t) l e = absurd (omega arith)
split_length (a ∷ s) [] l e = absurd (omega arith)
split_length (a ∷ s) (b ∷ t) {u} {v} l e =
    let rest : (s ≡ t) × (u ≡ v) = split_length s t (omega arith) (cc) in (ground arith, rest.1)

-- A class of characters that excludes one.
pub all-lacks :
    (p : ℕ → Bool) (c : ℕ) → p c ≡ false → (s : Text) → all p s ≡ true → lacks c s ≡ true
unfolding lacks
all-lacks p c out [] h = refl
all-lacks p c out (d ∷ s) h =
    let parts : (p d ≡ true) × (all p s ≡ true) = &&_split (p d) (all p s) h in
    let differs : (d == c) ≡ false = elim (Bool-cases (d == c)) [
      | inl same ↦
          let e : d ≡ c = ground arith in absurd (false≢true (sym out ∙ (ap p (sym e) ∙ parts.0)))
      | inr no_match ↦ no_match
    ] in
    rw differs (all-lacks p c out s parts.1)
