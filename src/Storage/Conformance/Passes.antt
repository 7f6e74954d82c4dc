-- ===== src/Storage/Conformance/Passes.antt =====
-- Stores that refine the machine of Storage/Contract pass the suite's cases on challenges and sessions.
use tetrac_login_sdk.Prelude.{
  ℕ, ◌+◌, ◌≡◌, refl, ap, true, false, Option, none, some, List, [], ◌∷◌, Text, text_eq,
  text_eq_refl, ltb, ok, All, arith, ◌<◌, ◌≤◌,
}
use tetrac_login_sdk.Effect.{World, ◌>>=◌, ◌>>◌}
use tetrac_login_sdk.Storage.Adapter.{AuthStore, SessionValue}
use tetrac_login_sdk.Storage.Contract.{
  Operation, Model, model_step, passed, Refinement, Answer, current, done, was_outstanding, session,
  store_step,
}
use tetrac_login_sdk.Storage.Agreement.{empty_model}
use tetrac_login_sdk.Storage.Conformance.{
  assert, same_answer, Line, does, asserts, Case, run_line, run_case, suite, bound, unbound,
}

abbrev pub call : Line → Operation
call (does op) = op
call (asserts op expected) = op

-- The machine's answer is the one that the line asserts.
abbrev pub Met : Line → ℕ → Model → Type 0
Met (does op) now m = Unit {0}
Met (asserts op expected) now m = (model_step op now m).0 ≡ expected

abbrev pub Holds : Case → ℕ → Model → Type 0
Holds [] now m = Unit {0}
Holds (line ∷ lines) now m =
    Met line now m × Holds lines (now + passed (call line)) (model_step (call line) now m).1

pub same_answer_refl : (a : Answer) → same_answer a a ≡ true
unfolding same_answer
same_answer_refl done = refl
same_answer_refl (was_outstanding true) = refl
same_answer_refl (was_outstanding false) = refl
same_answer_refl (session none) = refl
same_answer_refl (session (some v)) = value v.public_key v.fingerprint
  where
    value :
        (k : Text) (f : Option Text)
        → same_answer
            (session (some (record { public_key = k; fingerprint = f })))
            (session (some (record { public_key = k; fingerprint = f })))
          ≡ true
    value k none = rw (text_eq_refl k) refl
    value k (some t) = rw (text_eq_refl k, text_eq_refl t) refl

module _ {S : Type 0} {st : AuthStore S} {Allowed : Operation → Type 0}
    (r : Refinement S st Allowed) where
  run_line_lem :
      (line : Line) (w : World S) (m : Model)
      → Allowed (call line)
      → r.Rel w m
      → Met line w.now m
      → run_line st line w ≡ (ok tt, (store_step st (call line) w).1)
  unfolding run_line ◌>>=◌ ◌>>◌ assert
  run_line_lem (does op) w m allowed rel met = rw ((r.step op w m allowed rel).0) refl
  run_line_lem (asserts op expected) w m allowed rel met =
      rw ((r.step op w m allowed rel).0, met, same_answer_refl expected) refl

  pub run_case_lem :
      (lines : Case) (w : World S) (m : Model)
      → All (λ line. Allowed (call line)) lines
      → r.Rel w m
      → Holds lines w.now m
      → (run_case st lines w).0 ≡ ok tt
  unfolding run_case ◌>>◌
  run_case_lem [] w m allowed rel holds = refl
  run_case_lem (line ∷ lines) w m allowed rel holds =
      let (answer, time, next) = r.step (call line) w m allowed.0 rel in
      let v = (store_step st (call line) w).1 in
      rw (run_line_lem line w m allowed.0 rel holds.0)
        (run_case_lem lines v (model_step (call line) w.now m).1 allowed.1 next (rw time holds.1))

still_live : {t d : ℕ} → t < d → was_outstanding (ltb t d) ≡ was_outstanding true
still_live h = ap was_outstanding (ground arith)

expired : {t d : ℕ} → d ≤ t → was_outstanding (ltb t d) ≡ was_outstanding false
expired h = ap was_outstanding (ground arith)

still_current :
    {t d : ℕ} (v : SessionValue) → t < d → session (current t (some (v, d))) ≡ session (some v)
still_current v h = ap session (ground arith)

lapsed : {t d : ℕ} (v : SessionValue) → d ≤ t → session (current t (some (v, d))) ≡ session none
lapsed v h = ap session (ground arith)

suite-Holds : (now : ℕ) → All (λ lines. Holds lines now empty_model) suite
unfolding model_step text_eq
suite-Holds now = (
  (tt, (still_live (omega arith), (refl, tt))),
  (
    (tt, (tt, (still_live (omega arith), (still_live (omega arith), tt)))),
    (
      (tt, (tt, (still_live (omega arith), (refl, (still_live (omega arith), tt))))),
      (
        (tt, (tt, (expired (omega arith), tt))),
        (
          (refl, tt),
          (
            (
              tt,
              (still_current unbound (omega arith), (tt, (still_current bound (omega arith), tt))),
            ),
            (
              (tt, (tt, (lapsed unbound (omega arith), tt))),
              ((tt, (tt, (refl, tt))), ((tt, (refl, tt)), tt)),
            ),
          ),
        ),
      ),
    ),
  ),
)

module _ {S : Type 0} {st : AuthStore S} {Allowed : Operation → Type 0}
    (r : Refinement S st Allowed) where
  -- A store that refines the machine passes every case of the suite on challenges and sessions but
  -- the one that runs calls at once, from a world that stands for the empty machine, at any time,
  -- where the operations of the cases are allowed: no case throws.
  pub refining_store_passes :
      (w : World S)
      → r.Rel w empty_model
      → All (λ lines. All (λ line. Allowed (call line)) lines) suite
      → All (λ lines. (run_case st lines w).0 ≡ ok tt) suite
  refining_store_passes w rel allowed = every_case suite allowed (suite-Holds w.now)
    where
      every_case :
          (cases : List Case)
          → All (λ lines. All (λ line. Allowed (call line)) lines) cases
          → All (λ lines. Holds lines w.now empty_model) cases
          → All (λ lines. (run_case st lines w).0 ≡ ok tt) cases
      every_case [] _ _ = tt
      every_case (lines ∷ cases) (a, as') (h, hs) =
          (run_case_lem r lines w empty_model a rel h, every_case cases as' hs)
