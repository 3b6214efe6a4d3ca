-- ===== src/Sched/Waking.antt =====
-- Which tasks the first loop of `schedule()` makes runnable.
use linux.Prelude.{
  ℕ, ◌^◌, ◌<◌, ◌≡◌, ◌≢◌, ◌⊎◌, inl, inr, ap, ◌∙◌, subst, true, false, not, ◌&&◌, ◌||◌, ℤ, pos, ◌<ℤ◌,
  ◌↔◌, eqb_ℤ-eq, ltb_ℤ, eqb_ℤ, ◌==◌, Bool-cases, arith,
}
use linux.Prelude.Bits.{
  test_bit, test_bit-bit_and, test_bit-bit_or, test_bit-bit_not, test_bit-pow, bit_not, bit_and-le,
  bit_or-lt, ne_zero_of_test_bit, bit_of_ne_zero,
}
use Prim.Native.Nat.{bit_and, bit_or}
use linux.Task.{Task, running, interruptible, sig_bit, sigalrm}
use linux.Sched.{ring_alarm, wake_signalled, check_task, pending, blockable}

-- Signal i + 1 reaches the task: it is raised, and not blocked unless it is SIGKILL or SIGSTOP.
abbrev pub Delivers : Task → ℕ → Type 0
Delivers t i = (test_bit t.signal i ≡ true) × ((test_bit t.blocked i ≡ false) ⊎ (i ≡ 8) ⊎ (i ≡ 18))

-- Bit i of _BLOCKABLE
test_bit-blockable : (i : ℕ) → i < 32 → test_bit blockable i ≡ not ((8 == i) || (18 == i))
test_bit-blockable i h =
    test_bit-bit_not 32 (bit_or (2 ^ 8) (2 ^ 18)) i (omega arith) h
    ∙ ap not (test_bit-bit_or (2 ^ 8) (2 ^ 18) i)
    ∙ ground (arith, test_bit-pow 8 i, test_bit-pow 18 i)

-- Bit i of what is pending
test_bit-pending :
    (t : Task) (i : ℕ)
    → i < 32
    → test_bit (pending t) i
      ≡ (test_bit t.signal i && not (not ((8 == i) || (18 == i)) && test_bit t.blocked i))
test_bit-pending t i h =
    test_bit-bit_and t.signal (bit_not 32 (bit_and blockable t.blocked)) i
    ∙ ap (λ b. test_bit t.signal i && b)
        (test_bit-bit_not 32 (bit_and blockable t.blocked) i
            (omega (arith, bit_and-le blockable t.blocked)) h
          ∙ ap not (
              test_bit-bit_and blockable t.blocked i
              ∙ ap (λ b. b && test_bit t.blocked i) (test_bit-blockable i h)))

pending-of-Delivers : (t : Task) (i : ℕ) → i < 32 → Delivers t i → test_bit (pending t) i ≡ true
pending-of-Delivers t i h d = ground (arith, test_bit-pending t i h)

Delivers-of_pending : (t : Task) (i : ℕ) → i < 32 → test_bit (pending t) i ≡ true → Delivers t i
Delivers-of_pending t i h d = ground (arith, test_bit-pending t i h)

-- An interruptible task runs after `wake_signalled` exactly if a signal reaches it.
wake-of-Delivers :
    (t : Task) (i : ℕ)
    → i < 32
    → Delivers t i
    → t.state ≡ interruptible
    → (wake_signalled t).state ≡ running
unfolding wake_signalled
wake-of-Delivers t i h d e = rw (ne_zero_of_test_bit (pending t) i (pending-of-Delivers t i h d), e)

Delivers-of_wake :
    (t : Task)
    → t.signal < 2 ^ 32
    → t.state ≡ interruptible
    → (wake_signalled t).state ≡ running
    → (i : ℕ) × (i < 32) × Delivers t i
unfolding wake_signalled
Delivers-of_wake t h e w = elim (Bool-cases (pending t == 0)) [
  | inl z ↦ absurd (ground arith)
  | inr nz ↦
      let (i, lt, s) =
        bit_of_ne_zero 32 (pending t)
          (omega (arith, bit_and-le t.signal (bit_not 32 (bit_and blockable t.blocked))))
          (λ p. ground arith) in
      (i, lt, Delivers-of_pending t i lt s)
]

-- Signal i + 1 is raised, or it is SIGALRM and the alarm is over.
abbrev pub Raised : ℤ → Task → ℕ → Type 0
Raised jiffies t i =
    (test_bit t.signal i ≡ true) ⊎ ((i ≡ 13) × ((t.alarm ≢ pos 0) × (t.alarm <ℤ jiffies)))

abbrev pub Unblocked : Task → ℕ → Type 0
Unblocked t i = (test_bit t.blocked i ≡ false) ⊎ (i ≡ 8) ⊎ (i ≡ 18)

alarm_test :
    (j : ℤ) (t : Task)
    → ((not (eqb_ℤ t.alarm (pos 0)) && ltb_ℤ t.alarm j) ≡ true)
      ↔ ((t.alarm ≢ pos 0) × (t.alarm <ℤ j))
alarm_test j t = (λ h. ((λ e. ground arith), ground arith), λ h. due h)
  where
    due :
        (t.alarm ≢ pos 0) × (t.alarm <ℤ j) → (not (eqb_ℤ t.alarm (pos 0)) && ltb_ℤ t.alarm j) ≡ true
    due h = elim (Bool-cases (eqb_ℤ t.alarm (pos 0))) [
      | inl e ↦ absurd (h.0 (eqb_ℤ-eq _ _ e))
      | inr e ↦ ground arith
    ]

-- What `ring_alarm` does to the bits, and that it leaves the mask and the state alone.
ring_alarm_bits :
    (j : ℤ) (t : Task) (i : ℕ) → (test_bit (ring_alarm j t).signal i ≡ true) ↔ Raised j t i
unfolding ring_alarm
ring_alarm_bits j t i = elim (Bool-cases (not (eqb_ℤ t.alarm (pos 0)) && ltb_ℤ t.alarm j)) [
  | inl due ↦ rw due (
    (λ s. elim (Bool-cases (test_bit t.signal i)) [
      | inl b ↦ inl b
      | inr b ↦ inr (
        ground (arith, test_bit-bit_or t.signal (2 ^ 13) i, test_bit-pow 13 i),
        (alarm_test j t).0 due,
      )
    ]),
    λ r. ground (arith, test_bit-bit_or t.signal (2 ^ 13) i, test_bit-pow 13 i),
  )
  | inr not_due ↦ rw not_due (inl, λ r. elim r [ inl b ↦ b | inr q ↦ cc ((alarm_test j t).1 q.1) ])
]

ring_alarm_rest :
    (j : ℤ) (t : Task)
    → ((ring_alarm j t).blocked ≡ t.blocked)
      × ((ring_alarm j t).state ≡ t.state)
      × (t.signal < 2 ^ 32 → (ring_alarm j t).signal < 2 ^ 32)
unfolding ring_alarm
ring_alarm_rest j t = (
  ground arith,
  ground arith,
  λ h. ground (arith, bit_or-lt 32 t.signal (sig_bit sigalrm) h (omega arith)),
)

-- For an interruptible task, what the first loop of `schedule()` does at time `jiffies`: the task
-- becomes runnable exactly if some signal is raised for it, or its alarm is over and so SIGALRM is,
-- which is not blocked or is SIGKILL or SIGSTOP, whatever mask it has.
pub check_task-wakes :
    (jiffies : ℤ) (t : Task)
    → t.signal < 2 ^ 32
    → t.state ≡ interruptible
    → ((check_task jiffies t).state ≡ running)
      ↔ ((i : ℕ) × (i < 32) × Raised jiffies t i × Unblocked t i)
unfolding check_task
check_task-wakes j t h e =
    let t' = ring_alarm j t in
    let (b, s, w) = ring_alarm_rest j t in
    (
      (λ r.
          let (i, lt, d) = Delivers-of_wake t' (w h) (s ∙ e) r in
          (
            i,
            lt,
            (ring_alarm_bits j t i).0 d.0,
            subst (λ m. (test_bit m i ≡ false) ⊎ (i ≡ 8) ⊎ (i ≡ 18)) b d.1,
          )),
      λ r. wake-of-Delivers t' r.0 r.1 ((ring_alarm_bits j t r.0).1 r.2, rw b (r.3)) (s ∙ e),
    )

-- A task that is not interruptible keeps its state.
pub check_task_others :
    (jiffies : ℤ) (t : Task) → t.state ≢ interruptible → (check_task jiffies t).state ≡ t.state
unfolding check_task wake_signalled ring_alarm
check_task_others j t h = ground arith
