-- ===== src/Gateway/ReplicaBudget/Queue.antt =====
-- The authorization queue over time: packages/syntrix/internal/gateway/realtime/replica_budget.go.
use syntrix.Common.{
  ◌≡◌, ℕ, ◌+◌, ◌-◌, ◌≤◌, ◌<◌, true, ◌&&◌, Option, none, some, List, [], ◌∷◌, ◌++◌, length,
  length-append, ltb, leb, lt→ltb, if◌then◌else◌, arith, Bool-cases, inl, inr, ◌⊎◌,
}
use syntrix.Gateway.ReplicaBudget.{
  ReplicaConfig, TokenBucket, AuthQueue, new_queue, cut_waiter, is_member, grant,
  dispatch_auth_locked, release_auth, enqueue_auth, cancel_auth,
}

-- What happens to the queue; a timer that was stopped too late still fires.
pub data Event (Time : Type 0) : Type 0 where
  arrives leaves cancels : Time → ℕ → Event Time
  fires : Time → Event Time

length-cut_waiter : (w : ℕ) (xs : List ℕ) → length (cut_waiter w xs) ≤ length xs
unfolding cut_waiter
length-cut_waiter w [] = ground arith
length-cut_waiter w (x ∷ xs) = ground (arith, length-cut_waiter w xs)

length-cut_member :
    (w : ℕ) (xs : List ℕ) → is_member w xs ≡ true → length (cut_waiter w xs) + 1 ≡ length xs
unfolding cut_waiter is_member
length-cut_member w [] h = absurd (cc)
length-cut_member w (x ∷ xs) h = ground (arith, h, length-cut_member w xs)

module _ {Tokens Time : Type 0} (bucket : TokenBucket Tokens Time) (cfg : ReplicaConfig) where
  abbrev arrived : Option (AuthQueue Tokens Time) → AuthQueue Tokens Time → AuthQueue Tokens Time
  arrived none q = q
  arrived (some n) q = n

  -- A waiter that has no place leaves without a trace, as a function that ran before does.
  abbrev pub step : Event Time → AuthQueue Tokens Time → AuthQueue Tokens Time
  step (arrives now w) q = arrived (enqueue_auth bucket cfg now w q) q
  step (leaves now w) q = if is_member w q.granted then release_auth bucket cfg now w q else q
  step (cancels now w) q = cancel_auth bucket cfg now w q
  step (fires now) q = dispatch_auth_locked bucket cfg now q

  unfoldable pub run : List (Event Time) → AuthQueue Tokens Time → AuthQueue Tokens Time
  run [] q = q
  run (e ∷ es) q = run es (step e q)

  -- The running authorizations are the places given, within the limit.
  abbrev IsFair : AuthQueue Tokens Time → Type 0
  IsFair q = (q.auth_running ≡ length q.granted) × (q.auth_running ≤ cfg.auth_concurrency)

  -- Nobody waits in vain: while there are waiters and room the timer is set.
  abbrev pub IsSound : AuthQueue Tokens Time → Type 0
  IsSound q =
      (q.auth_running ≡ length q.granted)
      × ((q.auth_running ≤ cfg.auth_concurrency)
          × ((length q.auth_waiters ≤ cfg.pending_registrations)
              × ((q.auth_waiters ≡ [])
                  ⊎ ((q.auth_running ≡ cfg.auth_concurrency) ⊎ (q.auth_timer ≡ true)))))

  grant-IsFair :
      (ws : List ℕ) (q : AuthQueue Tokens Time) → IsFair q → IsFair (grant bucket cfg ws q)
  unfolding grant
  grant-IsFair [] q h = h
  grant-IsFair (w ∷ ws) q h =
      elim (Bool-cases (ltb q.auth_running cfg.auth_concurrency && bucket.has_one q.auth_tokens)) [
        | inr b ↦ rw b h
        | inl b ↦ rw b (
            grant-IsFair ws
              (record q {
                granted = w ∷ q.granted;
                auth_running = q.auth_running + 1;
                auth_tokens = bucket.take_one q.auth_tokens;
              })
              (ground (arith, h, b)))
      ]

  length-grant :
      (ws : List ℕ) (q : AuthQueue Tokens Time)
      → length (grant bucket cfg ws q).auth_waiters ≤ length ws
  unfolding grant
  length-grant [] q = ground arith
  length-grant (w ∷ ws) q =
      elim (Bool-cases (ltb q.auth_running cfg.auth_concurrency && bucket.has_one q.auth_tokens)) [
        | inr b ↦ rw b ground arith
        | inl b ↦ rw b ground (
          arith,
          length-grant ws (record q {
            granted = w ∷ q.granted;
            auth_running = q.auth_running + 1;
            auth_tokens = bucket.take_one q.auth_tokens;
          }),
        )
      ]

  dispatch-IsSound :
      (now : Time) (q : AuthQueue Tokens Time)
      → IsFair q
      → length q.auth_waiters ≤ cfg.pending_registrations
      → IsSound (dispatch_auth_locked bucket cfg now q)
  unfolding dispatch_auth_locked
  dispatch-IsSound now q h k =
      let start = record q {
        auth_tokens = bucket.refill q.auth_updated now q.auth_tokens;
        auth_updated = now;
      } in
      let fair = grant-IsFair q.auth_waiters start h in
      let fewer = length-grant q.auth_waiters start in
      (fair.0, (fair.1, (grind arith, ground (arith, fair))))

  step-IsSound : (e : Event Time) (q : AuthQueue Tokens Time) → IsSound q → IsSound (step e q)
  unfolding release_auth enqueue_auth cancel_auth
  step-IsSound (arrives now w) q h =
      elim (Bool-cases (leb cfg.pending_registrations (length q.auth_waiters))) [
        | inl b ↦ rw b h
        | inr b ↦ rw b (
            dispatch-IsSound now (record q { auth_waiters = q.auth_waiters ++ (w ∷ []) })
              (h.0, (h.1).0) (ground (arith, b, length-append q.auth_waiters (w ∷ []))))
      ]
  step-IsSound (leaves now w) q h = elim (Bool-cases (is_member w q.granted)) [
    | inr b ↦ rw b h
    | inl b ↦ rw b (
        dispatch-IsSound now
          (record q { auth_running = q.auth_running - 1; granted = cut_waiter w q.granted })
          (ground (arith, h, length-cut_member w q.granted b)) (((h.1).1).0))
  ]
  step-IsSound (cancels now w) q h = elim (Bool-cases (is_member w q.granted)) [
    | inl b ↦ rw b (
        dispatch-IsSound now
          (record q { auth_running = q.auth_running - 1; granted = cut_waiter w q.granted })
          (ground (arith, h, length-cut_member w q.granted b)) (((h.1).1).0))
    | inr b ↦ rw b (
        dispatch-IsSound now (record q { auth_waiters = cut_waiter w q.auth_waiters })
          (h.0, (h.1).0) (ground (arith, h, length-cut_waiter w q.auth_waiters)))
  ]
  step-IsSound (fires now) q h = dispatch-IsSound now q (h.0, (h.1).0) (((h.1).1).0)

  from-IsSound :
      (es : List (Event Time)) (q : AuthQueue Tokens Time) → IsSound q → IsSound (run es q)
  unfolding run
  from-IsSound [] q h = h
  from-IsSound (e ∷ es) q h = from-IsSound es (step e q) (step-IsSound e q h)

  -- Behind any run of arrivals, departures, cancellations and timers on a new queue, the running
  -- authorizations are the places that are given, within the limit, the queue is within its limit, and
  -- where someone waits all places are given or the timer is set.
  pub queue_run-IsSound :
      (now : Time) (es : List (Event Time)) → IsSound (run es (new_queue bucket cfg now))
  queue_run-IsSound now es = from-IsSound es (new_queue bucket cfg now) (ground arith)

  is_member-grant :
      (w : ℕ) (ws : List ℕ) (q : AuthQueue Tokens Time)
      → is_member w q.granted ≡ true
      → is_member w (grant bucket cfg ws q).granted ≡ true
  unfolding grant is_member
  is_member-grant w [] q h = h
  is_member-grant w (x ∷ xs) q h =
      elim (Bool-cases (ltb q.auth_running cfg.auth_concurrency && bucket.has_one q.auth_tokens)) [
        | inr b ↦ rw b h
        | inl b ↦ rw b (
            is_member-grant w xs
              (record q {
                granted = x ∷ q.granted;
                auth_running = q.auth_running + 1;
                auth_tokens = bucket.take_one q.auth_tokens;
              })
              (ground (arith, h)))
      ]

  -- Behind any run on a new queue, where someone waits and a place is free, the timer is set, and once
  -- it fires when the refilled tokens have one, the first that waits has a place.
  pub run-granted :
      (now then_ : Time) (es : List (Event Time)) (w : ℕ) (ws : List ℕ)
      → (run es (new_queue bucket cfg now)).auth_waiters ≡ w ∷ ws
      → (run es (new_queue bucket cfg now)).auth_running < cfg.auth_concurrency
      → bucket.has_one (
          bucket.refill
            (run es (new_queue bucket cfg now)).auth_updated
            then_
            (run es (new_queue bucket cfg now)).auth_tokens)
        ≡ true
      → ((run es (new_queue bucket cfg now)).auth_timer ≡ true)
        × (is_member w (step (fires then_) (run es (new_queue bucket cfg now))).granted ≡ true)
  unfolding dispatch_auth_locked grant is_member
  run-granted now then_ es w ws e k t =
      let q = run es (new_queue bucket cfg now) in
      let h = queue_run-IsSound now es in
      (
        ground (arith, h, e, k),
        rw (e, t, lt→ltb q.auth_running cfg.auth_concurrency k)
            (is_member-grant w ws
              (record q {
                auth_waiters = w ∷ ws;
                granted = w ∷ q.granted;
                auth_running = q.auth_running + 1;
                auth_tokens = bucket.take_one (bucket.refill q.auth_updated then_ q.auth_tokens);
                auth_updated = then_;
              })
              (ground arith)),
      )
