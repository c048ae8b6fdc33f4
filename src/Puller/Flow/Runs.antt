-- ===== src/Puller/Flow/Runs.antt =====
-- The circuit breaker of packages/syntrix/internal/puller/flowcontrol/circuitbreaker.go over whole runs
-- of calls.
use syntrix.Common.{
  ℤ, pos, negsuc, compareℤ, Ordering, at_most, ℕ, ◌≤◌, ◌+◌, ◌≡◌, refl, ap, sym, subst, Bool, false,
  List, [], ◌∷◌, if◌then◌else◌, arith, length, All, map, inl, inr, Bool-cases, ◌∙◌, ◌⊎◌, ◌≢◌, zero,
  suc,
}
use syntrix.Puller.Flow.{
  State, state_closed, state_open, state_half_open, CircuitBreaker, CircuitBreakerOptions,
  new_circuit_breaker, or_when_zero, allow, record_success, record_failure,
}

-- A call of the breaker, with the time at which it reads the clock.
pub data Call : Type 0 where
  asks : ℕ → Call
  succeeds : Call
  fails : ℕ → Call

abbrev pub step : Call → CircuitBreaker → CircuitBreaker
step (asks now) cb = (allow now cb).1
step succeeds cb = record_success cb
step (fails now) cb = record_failure now cb

unfoldable pub run : List Call → CircuitBreaker → CircuitBreaker
run [] cb = cb
run (c ∷ cs) cb = run cs (step c cb)

-- The answers of Allow in a run.
unfoldable pub answers : List Call → CircuitBreaker → List Bool
answers [] cb = []
answers (asks now ∷ cs) cb = (allow now cb).0 ∷ answers cs (allow now cb).1
answers (succeeds ∷ cs) cb = answers cs (record_success cb)
answers (fails now ∷ cs) cb = answers cs (record_failure now cb)

-- A closed breaker has counted no failure, or fewer than its threshold.
abbrev pub IsSound : CircuitBreaker → Type 0
IsSound cb =
    cb.state ≡ state_closed
    → (cb.failure_count ≡ 0) ⊎ (compareℤ (pos cb.failure_count) cb.threshold ≡ Ordering.lt)

compareℤ-pos :
    (n : ℕ) (z : ℤ) → at_most (compareℤ z (pos n)) ≡ false → compareℤ (pos n) z ≡ Ordering.lt
compareℤ-pos n (pos m) h = ground arith
compareℤ-pos n (negsuc m) h = ground arith

State-cases : (s : State) → (s ≡ state_closed) ⊎ ((s ≡ state_open) ⊎ (s ≡ state_half_open))
State-cases state_closed = inl refl
State-cases state_open = inr (inl refl)
State-cases state_half_open = inr (inr refl)

step-IsSound : (c : Call) (cb : CircuitBreaker) → IsSound cb → IsSound (step c cb)
unfolding allow record_success record_failure
step-IsSound (asks now) cb h = ground (arith, State-cases cb.state)
step-IsSound succeeds cb h = ground (arith, State-cases cb.state)
step-IsSound (fails now) cb h =
    ground (arith, State-cases cb.state, compareℤ-pos (cb.failure_count + 1) cb.threshold)

step-threshold : (c : Call) (cb : CircuitBreaker) → (step c cb).threshold ≡ cb.threshold
unfolding allow record_success record_failure
step-threshold (asks now) cb = ground (arith, State-cases cb.state)
step-threshold succeeds cb = ground (arith, State-cases cb.state)
step-threshold (fails now) cb = refl

or_when_zero-given : (n : ℕ) (x : ℤ) → x ≢ pos 0 → or_when_zero n x ≡ x
or_when_zero-given n (pos zero) h = absurd (h refl)
or_when_zero-given n (pos (suc m)) h = refl
or_when_zero-given n (negsuc m) h = refl

run-IsSound_from : (cs : List Call) (cb : CircuitBreaker) → IsSound cb → IsSound (run cs cb)
unfolding run
run-IsSound_from [] cb h = h
run-IsSound_from (c ∷ cs) cb h = run-IsSound_from cs (step c cb) (step-IsSound c cb h)

run-threshold : (cs : List Call) (cb : CircuitBreaker) → (run cs cb).threshold ≡ cb.threshold
unfolding run
run-threshold [] cb = refl
run-threshold (c ∷ cs) cb = run-threshold cs (step c cb) ∙ step-threshold c cb

-- Behind any run of calls, a breaker made by NewCircuitBreaker with any options, negative ones too, has
-- the threshold of the options, or 5 where this is 0, and where it is closed it has counted no failure
-- or fewer than its threshold.
pub run-IsSound :
    (cs : List Call) (opts : CircuitBreakerOptions)
    → let cb = run cs (new_circuit_breaker opts) in
      ((opts.threshold ≡ pos 0) → cb.threshold ≡ pos 5)
      × (((opts.threshold ≢ pos 0) → cb.threshold ≡ opts.threshold) × IsSound cb)
unfolding new_circuit_breaker
run-IsSound cs opts =
    let kept = run-threshold cs (new_circuit_breaker opts) in
    (
      λ zero_given. kept ∙ rw zero_given refl,
      (
        λ given. kept ∙ or_when_zero-given 5 opts.threshold given,
        run-IsSound_from cs (new_circuit_breaker opts) (ground arith),
      ),
    )

fails-open :
    (ts : List ℕ) (cb : CircuitBreaker)
    → cb.state ≡ state_open
    → (run (map fails ts) cb).state ≡ state_open
unfolding run record_failure
fails-open [] cb h = h
fails-open (t ∷ ts) cb h = fails-open ts (record_failure t cb) (ground (arith, h))

-- A closed breaker that has counted fewer failures than its threshold is open behind failures in a row,
-- at any times, if they bring the count to the threshold, and otherwise closed.
pub run-fails :
    (ts : List ℕ) (cb : CircuitBreaker)
    → cb.state ≡ state_closed
    → compareℤ (pos cb.failure_count) cb.threshold ≡ Ordering.lt
    → (run (map fails ts) cb).state ≡ (
        if at_most (compareℤ cb.threshold (pos (cb.failure_count + length ts)))
        then state_open
        else state_closed)
unfolding run record_failure
run-fails [] cb h lt = ground (arith, h)
run-fails (t ∷ ts) cb h lt =
    elim (Bool-cases (at_most (compareℤ cb.threshold (pos (cb.failure_count + 1))))) [
      | inl b ↦ fails-open ts (record_failure t cb) (ground (arith, h, b)) ∙ ground (arith, b)
      | inr b ↦
          run-fails ts (record_failure t cb) (ground (arith, h, b)) (ground (arith, b))
          ∙ ground (arith, b)
    ]

-- What may be called on an open breaker until its timeout has passed: any success, and a question
-- no later than the last failure and the timeout.
abbrev pub IsEarly : CircuitBreaker → Call → Type 0
IsEarly cb (asks now) = (t : ℕ) × ((cb.timeout ≡ pos t) × (now ≤ cb.last_fail_time + t))
IsEarly cb succeeds = Unit
IsEarly cb (fails now) = ⊥

allow-early :
    (now t : ℕ) (cb : CircuitBreaker)
    → cb.state ≡ state_open
    → cb.timeout ≡ pos t
    → now ≤ cb.last_fail_time + t
    → allow now cb ≡ (false, cb)
unfolding allow
allow-early now t cb h e a = rw h (ground (arith, e, a))

record_success-open : (cb : CircuitBreaker) → cb.state ≡ state_open → record_success cb ≡ cb
unfolding record_success
record_success-open cb h = rw h refl

-- Until the timeout has passed since its last failure an open breaker refuses every question, and no
-- question and no success changes it.
pub run-early :
    (cs : List Call) (cb : CircuitBreaker)
    → cb.state ≡ state_open
    → All (IsEarly cb) cs
    → (run cs cb ≡ cb) × All (λ b. b ≡ false) (answers cs cb)
unfolding run answers
run-early [] cb h a = (refl, tt)
run-early (asks now ∷ cs) cb h a =
    let same : allow now cb ≡ (false, cb) =
      allow-early now ((a.0).0) cb h (((a.0).1).0) (((a.0).1).1) in
    (
      ap (λ p. run cs p.1) same ∙ (run-early cs cb h (a.1)).0,
      (
        ap (λ p. p.0) same,
        subst (λ p. All (λ b. b ≡ false) (answers cs p.1)) (sym same) ((run-early cs cb h (a.1)).1),
      ),
    )
run-early (succeeds ∷ cs) cb h a = (
  ap (run cs) (record_success-open cb h) ∙ (run-early cs cb h (a.1)).0,
  subst (λ c. All (λ b. b ≡ false) (answers cs c)) (sym (record_success-open cb h))
      ((run-early cs cb h (a.1)).1),
)
run-early (fails now ∷ cs) cb h a = absurd a.0
