-- ===== src/Storage/Kv/Refines.antt =====
-- The key-value store over the in-memory adapter, as the machine of Storage/Contract.
use tetrac_login_sdk.Prelude.{
  ℕ, zero, suc, ◌+◌, ◌*◌, ◌≤◌, ◌≡◌, ◌≢◌, refl, sym, ap, ◌∙◌, Bool, true, false, Option, none, some,
  [], ◌∷◌, ◌++◌, Text, codes, lacks, text_eq, text_eq_iff, text_eq_refl, leb, is_some,
  if◌then◌else◌, text_neq, Bool_ext, append_assoc, ok, arith,
}
use tetrac_login_sdk.Core.Platform.{Platform}
use tetrac_login_sdk.Core.Config.{KeyPrefixes}
use tetrac_login_sdk.Effect.{World, ◌>>=◌, ◌>>◌}
use tetrac_login_sdk.Storage.Adapter.{SessionValue}
use tetrac_login_sdk.Storage.Keys.{app_scoped, app_scoped-injective}
use tetrac_login_sdk.Storage.Memory.{Entry, Memory, memory_adapter, get, set, del, getdel, value_of}
use tetrac_login_sdk.Storage.Memory.Later.{
  seen, seen-set, seen-del, seen-get, seen-getdel, get_answer, getdel_answer, now-get, now-getdel,
}
use tetrac_login_sdk.Storage.Kv.{
  JsonCodec, kv_store, put_challenge, take_challenge, put_session, get_session, delete_session,
  encode_session, decode_session,
}
use tetrac_login_sdk.Storage.Kv.Challenges.{name, name-injective}
use tetrac_login_sdk.Storage.Kv.SessionCodec.{decode_session-encode_session}
use tetrac_login_sdk.Storage.Contract.{
  Model, Operation, issue, consume, open_session, look_up, revoke, wait, session, was_outstanding,
  same_challenge, same_session, same_challenge-eq, same_challenge_refl, same_session-eq,
  same_session_refl, outstanding, current, with_challenge, with_session, model_step, passed,
  store_step, Refinement,
}

-- App ids and keys hold no ':', a session's key no '|'; a fingerprint is not empty, and a time to
-- live is positive. `validateAppId` and `validatePublicKey` see to the first two.
abbrev pub KvAllows : Operation → Type 0
KvAllows (issue a k c seconds) = (lacks b':' a ≡ true) × (lacks b':' k ≡ true) × (1 ≤ seconds)
KvAllows (consume a k c) = (lacks b':' a ≡ true) × (lacks b':' k ≡ true)
KvAllows (open_session a h v seconds) =
    (lacks b':' a ≡ true)
    × (lacks b'|' v.public_key ≡ true)
    × (v.fingerprint ≢ some [])
    × (1 ≤ seconds)
KvAllows (look_up a h) = lacks b':' a ≡ true
KvAllows (revoke a h) = lacks b':' a ≡ true
KvAllows (wait ms) = Unit

-- No key of a challenge is one of a session.
abbrev pub PrefixesApart : KeyPrefixes → Type 0
PrefixesApart prefixes = (x y : Text) → prefixes.challenge ++ x ≡ prefixes.session ++ y → ⊥

abbrev decoded : Option Entry → Option SessionValue
decoded none = none
decoded (some e) = some (decode_session e.value)

module _ (p : Platform) (json : JsonCodec) (prefixes : KeyPrefixes)
    (apart : PrefixesApart prefixes) where
  abbrev session_name : Text → Text → Text
  session_name a h = app_scoped prefixes.session a h

  abbrev challenge_name : Text → Text → Text → Text
  challenge_name a k c = name p json prefixes a k c

  abbrev ChallengesAgree : ℕ → World Memory → (Text → Text → Text → Option ℕ) → Type 0
  ChallengesAgree now w challenges =
      (a k c : Text) (t : ℕ)
      → (lacks b':' a ≡ true) × (lacks b':' k ≡ true)
      → now ≤ t
      → is_some (seen t (challenge_name a k c) w) ≡ outstanding t (challenges a k c)

  abbrev SessionsAgree : ℕ → World Memory → (Text → Text → Option (SessionValue × ℕ)) → Type 0
  SessionsAgree now w sessions =
      (a h : Text) (t : ℕ)
      → lacks b':' a ≡ true
      → now ≤ t
      → decoded (seen t (session_name a h) w) ≡ current t (sessions a h)

  abbrev Agrees : World Memory → Model → Type 0
  Agrees w m = ChallengesAgree w.now w m.challenges × SessionsAgree w.now w m.sessions

  -- The keys of two challenges, of two sessions and of one of each.
  challenge_names :
      (a k c a' k' c' : Text)
      → (lacks b':' a ≡ true) × (lacks b':' k ≡ true)
      → (lacks b':' a' ≡ true) × (lacks b':' k' ≡ true)
      → text_eq (challenge_name a k c) (challenge_name a' k' c') ≡ same_challenge a k c a' k' c'
  challenge_names a k c a' k' c' x y =
      Bool_ext _ _
        (λ same.
          (let (u, v, z) =
              name-injective p json prefixes a k c a' k' c' (x.0, y.0) (x.1, y.1)
                ((text_eq_iff (challenge_name a k c) (challenge_name a' k' c')).0 same) in
            rw (u, v, z) (same_challenge_refl a' k' c')))
        (λ same.
          (let (u, v, z) = same_challenge-eq a k c a' k' c' same in
            rw (u, v, z) (text_eq_refl (challenge_name a k c))))

  session_names :
      (a h a' h' : Text)
      → lacks b':' a ≡ true
      → lacks b':' a' ≡ true
      → text_eq (session_name a h) (session_name a' h') ≡ same_session a h a' h'
  session_names a h a' h' x y =
      Bool_ext _ _
        (λ same.
          (let (u, v) =
              app_scoped-injective prefixes.session a h a' h' x y
                ((text_eq_iff (session_name a h) (session_name a' h')).0 same) in
            rw (u, v) (same_session_refl a' h')))
        (λ same.
          (let (u, v) = same_session-eq a h a' h' same in
            rw (u, v) (text_eq_refl (session_name a h))))

  names_differ : (a k c a' h' : Text) → challenge_name a k c ≡ session_name a' h' → ⊥
  unfolding app_scoped
  names_differ a k c a' h' e =
      apart _ _ (sym (append_assoc prefixes.challenge (a ++ (b':' ∷ k)) (b':' ∷ c)) ∙ e)

  not_session : (a k c a' h' : Text) → text_eq (challenge_name a k c) (session_name a' h') ≡ false
  not_session a k c a' h' =
      text_neq (challenge_name a k c) (session_name a' h') (names_differ a k c a' h')

  not_challenge : (a k c a' h' : Text) → text_eq (session_name a' h') (challenge_name a k c) ≡ false
  not_challenge a k c a' h' =
      text_neq (session_name a' h') (challenge_name a k c) (λ e. names_differ a k c a' h' (sym e))

  module _ (a k c : Text) (good : (lacks b':' a ≡ true) × (lacks b':' k ≡ true)) (w : World Memory)
      (m : Model) (rel : Agrees w m) where
    issued_agree :
        (n : ℕ)
        → ChallengesAgree w.now
            (set (challenge_name a k c) (codes "1") (some (suc n)) w).1
            (with_challenge a k c (some (w.now + suc n * 1000)) m).challenges
    issued_agree n a' k' c' t fine later =
        rw
          (
            seen-set (challenge_name a k c) w t (challenge_name a' k' c') (codes "1") n,
            challenge_names a k c a' k' c' good fine,
          )
          (at (same_challenge a k c a' k' c'))
      where
        at :
            (b : Bool)
            → is_some (
                if b
                then (if leb (w.now + suc n * 1000) t
                    then none
                    else some
                        (record { value = codes "1"; expires_at = some (w.now + suc n * 1000) }))
                else seen t (challenge_name a' k' c') w)
              ≡ outstanding t (if b then some (w.now + suc n * 1000) else m.challenges a' k' c')
        at true = ground arith
        at false = rel.0 a' k' c' t fine later

    issued_sessions :
        (n : ℕ)
        → SessionsAgree w.now (set (challenge_name a k c) (codes "1") (some (suc n)) w).1 m.sessions
    issued_sessions n a' h' t fine later =
        rw
          (
            seen-set (challenge_name a k c) w t (session_name a' h') (codes "1") n,
            not_session a k c a' h',
          )
          (rel.1 a' h' t fine later)

    taken_agree :
        ChallengesAgree w.now
          (getdel (challenge_name a k c) w).1
          (with_challenge a k c none m).challenges
    taken_agree a' k' c' t fine later =
        rw
          (
            seen-getdel (challenge_name a k c) w t (challenge_name a' k' c') later,
            challenge_names a k c a' k' c' good fine,
          )
          (at (same_challenge a k c a' k' c'))
      where
        at :
            (b : Bool)
            → is_some (if b then none else seen t (challenge_name a' k' c') w)
              ≡ outstanding t (if b then none else m.challenges a' k' c')
        at true = refl
        at false = rel.0 a' k' c' t fine later

    taken_sessions : SessionsAgree w.now (getdel (challenge_name a k c) w).1 m.sessions
    taken_sessions a' h' t fine later =
        rw
          (
            seen-getdel (challenge_name a k c) w t (session_name a' h') later,
            not_session a k c a' h',
          )
          (rel.1 a' h' t fine later)

  module _ (a h : Text) (good : lacks b':' a ≡ true) (w : World Memory) (m : Model)
      (rel : Agrees w m) where
    opened_agree :
        (v : SessionValue) (n : ℕ)
        → lacks b'|' v.public_key ≡ true
        → v.fingerprint ≢ some []
        → SessionsAgree w.now
            (set (session_name a h) (encode_session v) (some (suc n)) w).1
            (with_session a h (some (v, w.now + suc n * 1000)) m).sessions
    opened_agree v n bar nonempty a' h' t fine later =
        rw
          (
            seen-set (session_name a h) w t (session_name a' h') (encode_session v) n,
            session_names a h a' h' good fine,
          )
          (at (same_session a h a' h'))
      where
        at :
            (b : Bool)
            → decoded (
                if b
                then (if leb (w.now + suc n * 1000) t
                    then none
                    else some (record {
                      value = encode_session v;
                      expires_at = some (w.now + suc n * 1000);
                    }))
                else seen t (session_name a' h') w)
              ≡ current t (if b then some (v, w.now + suc n * 1000) else m.sessions a' h')
        at true = ground (arith, decode_session-encode_session v bar nonempty)
        at false = rel.1 a' h' t fine later

    opened_challenges :
        (value : Text) (n : ℕ)
        → ChallengesAgree w.now (set (session_name a h) value (some (suc n)) w).1 m.challenges
    opened_challenges value n a' k' c' t fine later =
        rw
          (
            seen-set (session_name a h) w t (challenge_name a' k' c') value n,
            not_challenge a' k' c' a h,
          )
          (rel.0 a' k' c' t fine later)

    revoked_agree :
        SessionsAgree w.now (del (session_name a h) w).1 (with_session a h none m).sessions
    revoked_agree a' h' t fine later =
        rw (seen-del (session_name a h) w t (session_name a' h'), session_names a h a' h' good fine)
          (at (same_session a h a' h'))
      where
        at :
            (b : Bool)
            → decoded (if b then none else seen t (session_name a' h') w)
              ≡ current t (if b then none else m.sessions a' h')
        at true = refl
        at false = rel.1 a' h' t fine later

    revoked_challenges : ChallengesAgree w.now (del (session_name a h) w).1 m.challenges
    revoked_challenges a' k' c' t fine later =
        rw (seen-del (session_name a h) w t (challenge_name a' k' c'), not_challenge a' k' c' a h)
          (rel.0 a' k' c' t fine later)

    looked_up : Agrees (get (session_name a h) w).1 m
    looked_up = (
      λ a' k' c' t fine later.
          (ap is_some (seen-get (session_name a h) w t (challenge_name a' k' c') (from later))
            ∙ rel.0 a' k' c' t fine (from later)),
      λ a' h' t fine later.
          (ap decoded (seen-get (session_name a h) w t (session_name a' h') (from later))
            ∙ rel.1 a' h' t fine (from later)),
    )
      where
        from : {t : ℕ} → (get (session_name a h) w).1.now ≤ t → w.now ≤ t
        from later = omega (arith, now-get (session_name a h) w)

  -- What is read of an entry.
  is_some-value_of : (o : Option Entry) → is_some (value_of o) ≡ is_some o
  is_some-value_of none = refl
  is_some-value_of (some e) = refl

  decoded_lem :
      (o : Option Entry)
      → (elim (value_of o) [ none ↦ none | some raw ↦ some (decode_session raw) ]) ≡ decoded o
  decoded_lem none = refl
  decoded_lem (some e) = refl

  pub step_lem :
      (op : Operation) (w : World Memory) (m : Model)
      → KvAllows op
      → Agrees w m
      → ((store_step (kv_store p json memory_adapter prefixes) op w).0
          ≡ ok (model_step op w.now m).0)
        × ((store_step (kv_store p json memory_adapter prefixes) op w).1.now ≡ w.now + passed op)
        × Agrees
            (store_step (kv_store p json memory_adapter prefixes) op w).1
            (model_step op w.now m).1
  unfolding store_step model_step ◌>>=◌ ◌>>◌ put_challenge take_challenge put_session get_session
      delete_session set del
  step_lem (issue a k c (suc n)) w m good rel = (
    refl,
    omega arith,
    (
      issued_agree a k c (good.0, good.1) w m rel n,
      issued_sessions a k c (good.0, good.1) w m rel n,
    ),
  )
  step_lem (issue a k c zero) w m good rel = absurd (ground arith)
  step_lem (consume a k c) w m good rel = rw (getdel_answer (challenge_name a k c) w) (
    ap (λ b. ok (was_outstanding b)) (is_some-value_of _ ∙ rel.0 a k c w.now good (omega arith)),
    omega (arith, now-getdel (challenge_name a k c) w),
    (
      λ a' k' c' t fine later.
          taken_agree a k c good w m rel a' k' c' t fine
            (omega (arith, now-getdel (challenge_name a k c) w)),
      λ a' h' t fine later.
          taken_sessions a k c good w m rel a' h' t fine
            (omega (arith, now-getdel (challenge_name a k c) w)),
    ),
  )
  step_lem (open_session a h v (suc n)) w m good rel = (
    refl,
    omega arith,
    (
      opened_challenges a h good.0 w m rel (encode_session v) n,
      opened_agree a h good.0 w m rel v n good.1 good.2,
    ),
  )
  step_lem (open_session a h v zero) w m good rel = absurd (ground arith)
  step_lem (look_up a h) w m good rel = rw (get_answer (session_name a h) w) (
    ap (λ o. ok (session o)) (decoded_lem _ ∙ rel.1 a h w.now good (omega arith)),
    omega (arith, now-get (session_name a h) w),
    looked_up a h good w m rel,
  )
  step_lem (revoke a h) w m good rel =
      (refl, omega arith, (revoked_challenges a h good w m rel, revoked_agree a h good w m rel))
  step_lem (wait ms) w m good rel = (
    refl,
    refl,
    (
      λ a k c t fine later. rel.0 a k c t fine (omega arith),
      λ a h t fine later. rel.1 a h t fine (omega arith),
    ),
  )

-- Over the in-memory adapter, the key-value store refines the machine on the operations it allows.
abbrev pub kv_refines :
    (p : Platform) (json : JsonCodec) (prefixes : KeyPrefixes)
    → PrefixesApart prefixes
    → Refinement Memory (kv_store p json memory_adapter prefixes) KvAllows
kv_refines p json prefixes apart = record {
  Rel = Agrees p json prefixes apart;
  step = step_lem p json prefixes apart;
}
