-- ===== src/Storage/Conformance.antt =====
-- The acceptance suite for stores (storage/conformance.ts): its assertions, its fixtures, and its
-- cases on challenges and sessions, each a list of calls with what the case asserts of their answers.
pub mod Cases
pub mod Records
pub mod Faults
pub mod Passes
use tetrac_login_sdk.Prelude.{
  ℕ, ◌≡◌, Bool, true, false, ◌&&◌, Option, none, some, List, [], ◌∷◌, Text, text_eq, codes, String,
  zero, suc, ◌++◌, if◌then◌else◌,
}
use tetrac_login_sdk.Effect.{World, Act, pure, throw, assertion_failed, ◌>>=◌, ◌>>◌}
use tetrac_login_sdk.Storage.Adapter.{AuthStore, SessionValue}
use tetrac_login_sdk.Storage.Contract.{
  Operation, issue, consume, open_session, look_up, revoke, wait, Answer, done, was_outstanding,
  session, store_step,
}

module _ {S : Type 0} where
  unfoldable pub assert : Bool → Act S (Unit {0})
  assert true = pure tt
  assert false = throw assertion_failed

abbrev pub same_text : Option Text → Option Text → Bool
same_text none none = true
same_text none (some b) = false
same_text (some a) none = false
same_text (some a) (some b) = text_eq a b

abbrev same_value : SessionValue → SessionValue → Bool
same_value a b = text_eq a.public_key b.public_key && same_text a.fingerprint b.fingerprint

unfoldable pub same_answer : Answer → Answer → Bool
unfolding text_eq
same_answer done done = true
same_answer (was_outstanding true) (was_outstanding true) = true
same_answer (was_outstanding false) (was_outstanding false) = true
same_answer (session none) (session none) = true
same_answer (session (some a)) (session (some b)) = same_value a b
same_answer _ _ = false

pub data Line : Type 0 where
  -- A call whose answer is not looked at.
  does : Operation → Line
  -- A call whose answer is asserted.
  asserts : Operation → Answer → Line

abbrev pub Case : Type 0
Case = List Line

module _ {S : Type 0} (store : AuthStore S) where
  unfoldable pub run_line : Line → Act S (Unit {0})
  run_line (does op) = store_step store op >> pure tt
  run_line (asserts op expected) =
      store_step store op >>= λ actual. assert (same_answer actual expected)

  unfoldable pub run_case : Case → Act S (Unit {0})
  run_case [] = pure tt
  run_case (line ∷ lines) = run_line line >> run_case lines

abbrev pub pk_a : Text
pk_a = codes "AaBbCcDdEeFfGgHhJjKkLmNnPpQqRrSsTtUuVvWwXxYy"

abbrev pub pk_b : Text
pk_b = codes "ZzYyXxWwVvUuTtSsRrQqPpNnMmLlKkJjHhGgFfEeDdCc"

abbrev pub app1 : Text
app1 = codes "app1"

abbrev pub app2 : Text
app2 = codes "app2"

abbrev repeat : ℕ → Text → Text
repeat zero t = []
repeat (suc n) t = t ++ repeat n t

-- `"a".repeat(64)` and the like.
abbrev pub repeated : String → Text
repeated s = repeat 64 (codes s)

abbrev pub unbound : SessionValue
unbound = record { public_key = pk_a; fingerprint = none }

abbrev pub bound : SessionValue
bound = record { public_key = pk_a; fingerprint = some (codes "fp-abc") }

abbrev pub takes : Text → Bool → Line
takes c found = asserts (consume app1 pk_a c) (was_outstanding found)

abbrev pub consumed_is_gone : Case
consumed_is_gone =
    let c = repeated "b" in does (issue app1 pk_a c 300) ∷ takes c true ∷ takes c false ∷ []

abbrev pub new_keeps_one_in_flight : Case
new_keeps_one_in_flight =
    let in_flight = repeated "c" in
    let attacker = repeated "d" in
    does (issue app1 pk_a in_flight 300)
    ∷ does (issue app1 pk_a attacker 300)
    ∷ takes in_flight true
    ∷ takes attacker true
    ∷ []

abbrev pub one_value_only : Case
one_value_only =
    let a = repeated "e" in
    let b = repeated "f" in
    does (issue app1 pk_a a 300)
    ∷ does (issue app1 pk_a b 300)
    ∷ takes a true
    ∷ takes a false
    ∷ takes b true
    ∷ []

abbrev pub expired_challenge_is_invisible : Case
expired_challenge_is_invisible =
    let c = repeated "1" in does (issue app1 pk_a c 1) ∷ does (wait 1000) ∷ takes c false ∷ []

abbrev pub absent_challenge : Case
absent_challenge = asserts (consume app1 pk_b (repeated "9")) (was_outstanding false) ∷ []

abbrev pub session_round_trip : Case
session_round_trip =
    does (open_session app1 (codes "hash-1") unbound 300)
    ∷ asserts (look_up app1 (codes "hash-1")) (session (some unbound))
    ∷ does (open_session app1 (codes "hash-2") bound 300)
    ∷ asserts (look_up app1 (codes "hash-2")) (session (some bound))
    ∷ []

abbrev pub expired_session_is_invisible : Case
expired_session_is_invisible =
    does (open_session app1 (codes "hash-exp") unbound 1)
    ∷ does (wait 1000)
    ∷ asserts (look_up app1 (codes "hash-exp")) (session none)
    ∷ []

abbrev pub revoked_at_once : Case
revoked_at_once =
    does (open_session app1 (codes "hash-3") unbound 300)
    ∷ does (revoke app1 (codes "hash-3"))
    ∷ asserts (look_up app1 (codes "hash-3")) (session none)
    ∷ []

abbrev pub isolated_per_tenant : Case
isolated_per_tenant =
    does (open_session app1 (codes "shared-hash") unbound 300)
    ∷ asserts (look_up app2 (codes "shared-hash")) (session none)
    ∷ []

-- The cases on challenges and sessions, less the one that runs eight calls at once.
abbrev pub suite : List Case
suite =
    consumed_is_gone ∷ new_keeps_one_in_flight ∷ one_value_only ∷ expired_challenge_is_invisible
    ∷ absent_challenge ∷ session_round_trip ∷ expired_session_is_invisible ∷ revoked_at_once
    ∷ isolated_per_tenant ∷ []
