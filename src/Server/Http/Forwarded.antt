-- ===== src/Server/Http/Forwarded.antt =====
-- `clientIp` (server/http.ts) and what a client writes into `x-forwarded-for`.
use tetrac_login_sdk.Prelude.{
  ℕ, ◌+◌, ◌-◌, ◌<◌, ◌≡◌, refl, ap, ◌∙◌, true, false, List, [], ◌∷◌, ◌++◌, map, some, Text, length,
  length-append, get_elem?, get_elem?-append, split_on, text_eq, ◌==◌, Bool-cases, inl, inr, arith,
}
use tetrac_login_sdk.Core.Config.{trim, drop_while}
use tetrac_login_sdk.Server.Http.{Request, client_ip, drop_empty, entry_from_right, forwarded_parts}

split_on-cons :
    (c : ℕ) (s : Text) → (part : Text) × (parts : List Text) × (split_on c s ≡ part ∷ parts)
unfolding split_on
split_on-cons c [] = ([], [], refl)
split_on-cons c (d ∷ s) =
    let (part, parts, e) = split_on-cons c s in
    elim (Bool-cases (d == c)) [
      | inl same ↦ ([], split_on c s, rw same refl)
      | inr other ↦ (d ∷ part, parts, rw other (rw e refl))
    ]

split_on-append : (c : ℕ) (s t : Text) → split_on c (s ++ (c ∷ t)) ≡ split_on c s ++ split_on c t
unfolding split_on
split_on-append c [] t = ground arith
split_on-append c (d ∷ s) t =
    let (part, parts, e) = split_on-cons c s in
    let more : split_on c (s ++ (c ∷ t)) ≡ (part ∷ parts) ++ split_on c t =
      split_on-append c s t ∙ ap (λ x. x ++ split_on c t) e in
    elim (Bool-cases (d == c)) [
      | inl same ↦ rw same (ap (λ x. [] ∷ x) (split_on-append c s t))
      | inr other ↦ rw other (rw more (rw e refl))
    ]

map-append : (f : Text → Text) (xs ys : List Text) → map f (xs ++ ys) ≡ map f xs ++ map f ys
map-append f [] ys = refl
map-append f (x ∷ xs) ys = ap (λ t. f x ∷ t) (map-append f xs ys)

drop_empty-append : (xs ys : List Text) → drop_empty (xs ++ ys) ≡ drop_empty xs ++ drop_empty ys
unfolding drop_empty
drop_empty-append [] ys = refl
drop_empty-append ([] ∷ xs) ys = drop_empty-append xs ys
drop_empty-append ((c ∷ x) ∷ xs) ys = ap (λ t. (c ∷ x) ∷ t) (drop_empty-append xs ys)

forwarded_parts-append :
    (s t : Text) → forwarded_parts (s ++ (b',' ∷ t)) ≡ forwarded_parts s ++ forwarded_parts t
forwarded_parts-append s t =
    ap (λ x. drop_empty (map trim x)) (split_on-append b',' s t)
    ∙ (ap drop_empty (map-append trim (split_on b',' s) (split_on b',' t))
        ∙ drop_empty-append (map trim (split_on b',' s)) (map trim (split_on b',' t)))

-- An entry that is counted from the right is found whatever stands to the left.
entry_from_right-append :
    (xs ys : List Text) (hops : ℕ)
    → hops < length ys
    → entry_from_right (xs ++ ys) hops ≡ entry_from_right ys hops
unfolding entry_from_right
entry_from_right-append xs ys hops h =
    let size : length (xs ++ ys) ≡ length xs + length ys = length-append xs ys in
    let place : length (xs ++ ys) - 1 - hops ≡ length xs + (length ys - 1 - hops) = omega arith in
    let found = ap (get_elem? (xs ++ ys)) place ∙ get_elem?-append xs ys (length ys - 1 - hops) in
    ground (arith, found)

not_empty : (s t : Text) → text_eq (s ++ (b',' ∷ t)) [] ≡ false
unfolding text_eq
not_empty [] t = refl
not_empty (c ∷ s) t = refl

has_parts : (hops : ℕ) (t : Text) → hops < length (forwarded_parts t) → text_eq t [] ≡ false
unfolding text_eq split_on trim drop_while drop_empty
has_parts hops [] h = absurd (omega arith)
has_parts hops (c ∷ t) h = refl

module _ (req req' : Request) (hops : ℕ) (spoofed real : Text) where
  -- Where the trusted part of `x-forwarded-for` has an entry for each trusted hop and one more, the
  -- address read behind trusted proxies depends on that part alone: nothing that a client writes
  -- before it has any effect.
  pub client_ip-append :
      req.header "x-forwarded-for" ≡ some (spoofed ++ (b',' ∷ real))
      → req'.header "x-forwarded-for" ≡ some real
      → hops < length (forwarded_parts real)
      → client_ip req true hops ≡ client_ip req' true hops
  unfolding client_ip
  client_ip-append h h' enough =
      let from : entry_from_right (forwarded_parts (spoofed ++ (b',' ∷ real))) hops
          ≡ entry_from_right (forwarded_parts real) hops =
        ap (λ x. entry_from_right x hops) (forwarded_parts-append spoofed real)
        ∙ entry_from_right-append (forwarded_parts spoofed) (forwarded_parts real) hops enough in
      rw (h, h') (rw (not_empty spoofed real, has_parts hops real enough) from)
