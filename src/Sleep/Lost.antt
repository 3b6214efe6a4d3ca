-- ===== src/Sleep/Lost.antt =====
-- Two tasks in `interruptible_sleep_on` on one queue.
use linux.Prelude.{ℕ, none, ◌==◌, ◌<◌, ◌≡◌, ◌≢◌, refl, true, false, arith}
use linux.Prelude.Outcome.{Outcome, ok, ◌>>=◌}
use linux.Task.{interruptible}
use linux.Sleep.{
  Waits, elsewhere, interruptible_sleep_on, resume, interruptible_resumed, wake_up_last,
}
use linux.Sleep.Queue.{IsStart}

-- The first sleeps, the queue is woken, the second sleeps, the first goes on and then the second.
unfoldable pub overtaken : ℕ → ℕ → Waits → Outcome Waits
overtaken x n s = do
  s₁ ← interruptible_sleep_on x s
  s₂ ← interruptible_sleep_on n (wake_up_last s₁)
  ok (interruptible_resumed n none (interruptible_resumed x none s₂))

-- A task sleeps, is not in the queue, and nobody else is to go on and wake it.
pub record IsLost (x : ℕ) (s : Waits) : Type 0 where
  pub asleep : s.state x ≡ interruptible
  pub unqueued : s.queue ≡ none
  pub alone : (j : ℕ) → j ≢ x → s.place j ≡ elsewhere

pub data Loses (x : ℕ) : Outcome Waits → Type 0 where
  loses : {s : Waits} → IsLost x s → Loses x (ok s)

-- A task other than task 0 sleeps in `interruptible_sleep_on`, is woken, and goes on only after
-- another one has entered the queue, in which nobody slept before: once that one has gone on too,
-- the first still sleeps, the queue is empty, and no other task is there to wake it.
pub overtaken-Loses :
    (x n : ℕ) (s : Waits) → 0 < x → 0 < n → x ≢ n → IsStart s → Loses x (overtaken x n s)
unfolding overtaken interruptible_sleep_on interruptible_resumed resume wake_up_last
overtaken-Loses x n s px pn ne (q, away) =
    let zx : (x == 0) ≡ false = ground arith in
    let zn : (n == 0) ≡ false = ground arith in
    let xn : (x == n) ≡ false = ground arith in
    let nn : (n == n) ≡ true = ground arith in
    rw (zx, zn, xn, nn)
      (loses (record {
        asleep = ground arith;
        unqueued = refl;
        alone = λ j d.
            let dj : (x == j) ≡ false = ground arith in let aj = away j in rw dj (ground arith);
      }))
