-- ===== src/Tests/Requests.antt =====
-- Runs of requests with an idempotency key: the handler counts its calls.
use flow_pay.Prelude.{ℕ, suc, ◌≡◌, true, false, Option, none, [], ◌∷◌, refl, arith}
use flow_pay.Prelude.Text.{Text}
use flow_pay.Exec.{Exec, ok, err, conflict, get_status}
use flow_pay.Idempotency.{
  KeyStore, RunIdempotentParams, RunIdempotentResult, body_of, error_response, inserting, run,
  steps, step,
}
use flow_pay.Idempotency.HashPayload.{Json, str}
use flow_pay.Idempotency.Interleaved.{System, Timely, Reach, start, later, advance, advanced, init}
use flow_pay.Idempotency.Exclusion.{one_execution}
use flow_pay.Idempotency.Alone.{answered, finished, run-answered, run-ends}
use flow_pay.Idempotency.Repeated.{run_again, run_thrown}

abbrev hash : Json → Text
hash (str t) = t
hash _ = []

abbrev request : Exec ℕ (ℕ × Option ℕ) → RunIdempotentParams ℕ ℕ
request handler = record {
  user_id = 1;
  key = 75 ∷ [];
  endpoint = [];
  request_payload = str (80 ∷ []);
  success_status = 201;
  handler = handler;
}

-- It answers how often it was called, and counts the call.
abbrev counting : Exec ℕ (ℕ × Option ℕ)
counting calls = (ok (calls, none), suc calls)

abbrev refusing : Exec ℕ (ℕ × Option ℕ)
refusing calls = (err conflict, suc calls)

abbrev clock : ℕ → ℕ
clock calls = 0

abbrev fresh : KeyStore ℕ ℕ
fresh = record { keys = []; store = 0 }

run-ends_example :
    steps hash 10 clock 6 (request counting) inserting fresh
    ≡ finished hash 10 clock (request counting) (answered hash 10 clock (request counting) fresh)
run-ends_example = run-ends hash 10 clock (request counting) fresh

abbrev counted : KeyStore ℕ ℕ
counted = (answered hash 10 clock (request counting) fresh).1

abbrev count_answer : RunIdempotentResult ℕ
count_answer = record { body = body_of 0; status_code = 201; replayed = false }

run_again_example :
    run hash 10 clock (request refusing) (record { keys = counted.keys; store = 7 }) ≡ (
      ok (record { body = body_of 0; status_code = 201; replayed = true }),
      record { keys = counted.keys; store = 7 },
    )
run_again_example =
    run_again hash 10 clock (request counting) fresh counted count_answer 7 refusing
      (run-answered hash 10 clock (request counting) fresh)

abbrev refused : KeyStore ℕ ℕ
refused = (answered hash 10 clock (request refusing) fresh).1

run_thrown_example :
    run hash 10 clock (request refusing) (record { keys = refused.keys; store = 7 }) ≡ (
      ok (record { body = error_response conflict; status_code = 409; replayed = true }),
      record { keys = refused.keys; store = 7 },
    )
unfolding get_status
run_thrown_example =
    run_thrown hash 10 clock (request refusing) fresh refused conflict 7 refl
      (run-answered hash 10 clock (request refusing) fresh)

-- Two requests with one key: the first inserts the key, the second is turned away from it.
abbrev requests : ℕ → RunIdempotentParams ℕ ℕ
requests i = request counting

abbrev first_in : System ℕ ℕ
first_in = advanced hash 10 clock requests 0 (init hash 10 clock requests 0)

abbrev second_out : System ℕ ℕ
second_out = advanced hash 10 clock requests 1 first_in

new-Timely : Timely hash 10 clock requests (record { keys = []; store = 0 })
new-Timely u k row found p = cc found

first_in-Timely : Timely hash 10 clock requests first_in.shared
first_in-Timely u k row found p = omega arith

reached : Reach hash 10 clock requests 0 second_out
reached = later (later start (advance 0 new-Timely)) (advance 1 first_in-Timely)

one_execution_example : ◌≡◌ {A = ℕ} 0 0
unfolding step
one_execution_example = one_execution hash 10 clock requests reached 0 0 refl refl refl refl
