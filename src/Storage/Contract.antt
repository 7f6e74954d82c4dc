-- ===== src/Storage/Contract.antt =====
-- What a store promises about challenges and sessions (the port `AuthStore` of storage/store.ts):
-- an abstract machine, and what it is for a store to refine it.
use tetrac_login_sdk.Prelude.{
  ℕ, ◌+◌, ◌*◌, ◌≡◌, refl, subst, Bool, true, false, ◌&&◌, Option, none, some, List, [], ◌∷◌, Text,
  text_eq, text_eq_iff, text_eq_refl, &&_split, ltb, if◌then◌else◌, ok, All,
}
use tetrac_login_sdk.Effect.{World, Act, pure, ◌>>=◌, ◌>>◌}
use tetrac_login_sdk.Storage.Adapter.{AuthStore, SessionValue}

-- A challenge has a deadline, and a session a value and a deadline.
pub record Model : Type 0 where
  pub challenges : Text → Text → Text → Option ℕ
  pub sessions : Text → Text → Option (SessionValue × ℕ)

pub data Operation : Type 0 where
  issue : Text → Text → Text → ℕ → Operation
  consume : Text → Text → Text → Operation
  open_session : Text → Text → SessionValue → ℕ → Operation
  look_up : Text → Text → Operation
  revoke : Text → Text → Operation
  -- Time passes, in milliseconds.
  wait : ℕ → Operation

pub data Answer : Type 0 where
  done : Answer
  was_outstanding : Bool → Answer
  session : Option SessionValue → Answer

abbrev pub same_challenge : Text → Text → Text → Text → Text → Text → Bool
same_challenge a k c a' k' c' = text_eq a' a && (text_eq k' k && text_eq c' c)

abbrev pub same_session : Text → Text → Text → Text → Bool
same_session a h a' h' = text_eq a' a && text_eq h' h

pub same_challenge-eq :
    (a k c a' k' c' : Text) → same_challenge a k c a' k' c' ≡ true → (a' ≡ a) × (k' ≡ k) × (c' ≡ c)
same_challenge-eq a k c a' k' c' h =
    let (x, rest) = &&_split (text_eq a' a) (text_eq k' k && text_eq c' c) h in
    let (y, z) = &&_split (text_eq k' k) (text_eq c' c) rest in
    ((text_eq_iff a' a).0 x, (text_eq_iff k' k).0 y, (text_eq_iff c' c).0 z)

pub same_challenge_refl : (a k c : Text) → same_challenge a k c a k c ≡ true
same_challenge_refl a k c = rw (text_eq_refl a, text_eq_refl k, text_eq_refl c) refl

pub same_session-eq : (a h a' h' : Text) → same_session a h a' h' ≡ true → (a' ≡ a) × (h' ≡ h)
same_session-eq a h a' h' e =
    let (x, y) = &&_split (text_eq a' a) (text_eq h' h) e in
    ((text_eq_iff a' a).0 x, (text_eq_iff h' h).0 y)

pub same_session_refl : (a h : Text) → same_session a h a h ≡ true
same_session_refl a h = rw (text_eq_refl a, text_eq_refl h) refl

-- Alive strictly before its deadline.
abbrev pub outstanding : ℕ → Option ℕ → Bool
outstanding now none = false
outstanding now (some deadline) = ltb now deadline

abbrev pub current : ℕ → Option (SessionValue × ℕ) → Option SessionValue
current now none = none
current now (some (v, deadline)) = if ltb now deadline then some v else none

abbrev pub with_challenge : Text → Text → Text → Option ℕ → Model → Model
with_challenge a k c d m = record m {
  challenges = λ a' k' c'. if same_challenge a k c a' k' c' then d else m.challenges a' k' c';
}

abbrev pub with_session : Text → Text → Option (SessionValue × ℕ) → Model → Model
with_session a h s m = record m {
  sessions = λ a' h'. if same_session a h a' h' then s else m.sessions a' h';
}

unfoldable pub model_step : Operation → ℕ → Model → Answer × Model
model_step (issue a k c seconds) now m =
    (done, with_challenge a k c (some (now + seconds * 1000)) m)
model_step (consume a k c) now m =
    (was_outstanding (outstanding now (m.challenges a k c)), with_challenge a k c none m)
model_step (open_session a h v seconds) now m =
    (done, with_session a h (some (v, now + seconds * 1000)) m)
model_step (look_up a h) now m = (session (current now (m.sessions a h)), m)
model_step (revoke a h) now m = (done, with_session a h none m)
model_step (wait ms) now m = (done, m)

abbrev pub passed : Operation → ℕ
passed (wait ms) = ms
passed _ = 0

unfoldable pub model_run : List Operation → ℕ → Model → List Answer
unfolding model_step
model_run [] now m = []
model_run (op ∷ ops) now m =
    (model_step op now m).0 ∷ model_run ops (now + passed op) (model_step op now m).1

module _ {S : Type 0} (st : AuthStore S) where
  unfoldable pub store_step : Operation → Act S Answer
  unfolding ◌>>=◌ ◌>>◌
  store_step (issue a k c seconds) = st.put_challenge a k c seconds >> pure done
  store_step (consume a k c) = st.take_challenge a k c >>= λ b. pure (was_outstanding b)
  store_step (open_session a h v seconds) = st.put_session a h v seconds >> pure done
  store_step (look_up a h) = st.get_session a h >>= λ s. pure (session s)
  store_step (revoke a h) = st.delete_session a h >> pure done
  store_step (wait ms) = λ w. (ok done, record w { now = w.now + ms })

  unfoldable pub store_run : List Operation → Act S (List Answer)
  unfolding ◌>>=◌ store_step
  store_run [] = pure []
  store_run (op ∷ ops) = do a ← store_step op; answers ← store_run ops; pure (a ∷ answers)

-- The machine after a sequence of operations.
pub model_after : List Operation → ℕ → Model → Model
unfolding model_step
model_after [] now m = m
model_after (op ∷ ops) now m = model_after ops (now + passed op) (model_step op now m).1

-- A store refines the machine by a relation of its worlds to models that every operation of a kind
-- keeps, with the answer of the machine.
pub record Refinement (S : Type 0) (st : AuthStore S) (Allowed : Operation → Type 0) : Type 1 where
  pub Rel : World S → Model → Type 0
  pub step :
      (op : Operation) (w : World S) (m : Model)
      → Allowed op
      → Rel w m
      → ((store_step st op w).0 ≡ ok (model_step op w.now m).0)
        × ((store_step st op w).1.now ≡ w.now + passed op)
        × Rel (store_step st op w).1 (model_step op w.now m).1

module _ {S : Type 0} {st : AuthStore S} {Allowed : Operation → Type 0}
    (r : Refinement S st Allowed) where
  -- Every sequence of allowed operations is answered as the machine answers it.
  pub run-model_run :
      (ops : List Operation) (w : World S) (m : Model)
      → All Allowed ops
      → r.Rel w m
      → (store_run st ops w).0 ≡ ok (model_run ops w.now m)
  unfolding store_run model_run ◌>>=◌
  run-model_run [] w m allowed rel = refl
  run-model_run (op ∷ ops) w m allowed rel =
      let (answer, time, next) = r.step op w m allowed.0 rel in
      let rest =
        run-model_run ops (store_step st op w).1 (model_step op w.now m).1 allowed.1 next in
      rw answer (rw rest (rw time refl))

  -- The relation holds after every sequence of allowed operations.
  pub run-Rel :
      (ops : List Operation) (w : World S) (m : Model)
      → All Allowed ops
      → r.Rel w m
      → r.Rel (store_run st ops w).1 (model_after ops w.now m)
  unfolding store_run model_after ◌>>=◌
  run-Rel [] w m allowed rel = rel
  run-Rel (op ∷ ops) w m allowed rel =
      let (answer, time, next) = r.step op w m allowed.0 rel in
      let rest = run-Rel ops (store_step st op w).1 (model_step op w.now m).1 allowed.1 next in
      let answers =
        run-model_run ops (store_step st op w).1 (model_step op w.now m).1 allowed.1 next in
      rw answer (
        rw answers (
          subst
            (λ n.
              r.Rel (store_run st ops (store_step st op w).1).1
                (model_after ops n (model_step op w.now m).1))
            time rest))
