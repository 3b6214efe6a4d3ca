-- ===== src/Sleep/Covered.antt =====
-- Who is in reach after a step of the queue.
use linux.Prelude.{
  ℕ, Option, none, some, Bool, true, false, ◌==◌, ◌≡◌, ◌∙◌, sym, ap, subst, refl, ◌⊎◌, inl, inr,
  arith, Bool-cases,
}
use linux.Prelude.Outcome.{ok}
use linux.Task.{TaskState, running, uninterruptible}
use linux.Sleep.{
  Place, elsewhere, in_sleep_on, in_interruptible, Waits, assign, wake, enqueue, sleep_on,
  sleep_on_resumed, wake_up_last,
}
use linux.Sleep.Queue.{
  Step, sleeps, goes_on, wakes, IsStart, Reach, here, later, InReach, last, by_woken, by_next,
  IsCovered,
}

assign-running :
    (i : ℕ) (f : ℕ → TaskState) (j : ℕ) → f j ≡ running → assign i running f j ≡ running
assign-running i f j e = ground arith

wake-running :
    (k : Option ℕ) (s : Waits) (j : ℕ) → s.state j ≡ running → (wake k s).state j ≡ running
wake-running none s j e = e
wake-running (some i) s j e = assign-running i s.state j e

wake-woken : (k : Option ℕ) (s : Waits) (j : ℕ) → k ≡ some j → (wake k s).state j ≡ running
wake-woken k s j e = rw e (ground arith)

wake_place : (k : Option ℕ) (s : Waits) → (wake k s).place ≡ s.place
wake_place none s = refl
wake_place (some i) s = refl

wake_queue : (k : Option ℕ) (s : Waits) → (wake k s).queue ≡ s.queue
wake_queue none s = refl
wake_queue (some i) s = refl

-- What a task in `sleep_on` will wake
abbrev tmp_of : Place → Option ℕ
tmp_of elsewhere = none
tmp_of (in_sleep_on k) = k
tmp_of (in_interruptible k) = k

same_tmp : (k m : Option ℕ) (p : Place) → p ≡ in_sleep_on k → p ≡ in_sleep_on m → k ≡ m
same_tmp k m p d e = ap tmp_of (sym d ∙ e)

assign_here : (i : ℕ) (a : Place) (f : ℕ → Place) → assign i a f i ≡ a
assign_here i a f = ground arith

-- A task that has not moved is where it was.
assign_other :
    (i j : ℕ) (a p : Place) (f : ℕ → Place) → (i == j) ≡ false → f j ≡ p → assign i a f j ≡ p
assign_other i j a p f h e = rw h e

eq-true : (i j : ℕ) → (i == j) ≡ true → i ≡ j
eq-true i j e = ground arith

other_place : (i j : ℕ) (a : Place) (f : ℕ → Place) → (i == j) ≡ false → assign i a f j ≡ f j
other_place i j a f h = rw h refl

gone : (i j : ℕ) (f : ℕ → Place) → (i == j) ≡ true → assign i elsewhere f j ≡ elsewhere
gone i j f h = rw h refl

abbrev in_it : Place → Bool
in_it elsewhere = false
in_it (in_sleep_on k) = true
in_it (in_interruptible k) = false

-- A task elsewhere is not one that sleeps.
apart :
    (s : Waits) (i k : ℕ) (m : Option ℕ)
    → s.place i ≡ elsewhere
    → s.place k ≡ in_sleep_on m
    → (i == k) ≡ false
apart s i k m away p = elim (Bool-cases (i == k)) [
  | inl e ↦
      let here : s.place i ≡ in_sleep_on m = ap s.place (eq-true i k e) ∙ p in
      absurd (let t : true ≡ false = sym (ap in_it here) ∙ ap in_it away in ground arith)
  | inr e ↦ e
]

-- Who was in reach still is, once another task sleeps.
still-InReach :
    (s : Waits) (i : ℕ)
    → s.place i ≡ elsewhere
    → (j : ℕ) → InReach s j
    → InReach (enqueue i uninterruptible (in_sleep_on s.queue) s) j
still-InReach s i away j (last _ q) =
    by_next i j (last i refl) (assign_here i (in_sleep_on s.queue) s.place ∙ ap in_sleep_on q)
still-InReach s i away j (by_woken k _ p r) =
    let e = apart s i k (some j) away p in
    by_woken k j (assign_other i k (in_sleep_on s.queue) _ s.place e p) (rw e r)
still-InReach s i away j (by_next k _ h p) =
    let e = apart s i k (some j) away p in
    by_next k j (still-InReach s i away k h) (assign_other i k (in_sleep_on s.queue) _ s.place e p)

-- What a task that goes on has woken runs, and the other sleepers stay where they are.
resumed-woken :
    (s : Waits) (i k : ℕ) (tmp : Option ℕ) (j : ℕ)
    → s.place i ≡ in_sleep_on tmp
    → (i == k) ≡ true
    → s.place k ≡ in_sleep_on (some j)
    → (sleep_on_resumed i tmp s).state j ≡ running
unfolding sleep_on_resumed
resumed-woken s i k tmp j at e p =
    wake-woken tmp _ j (same_tmp tmp (some j) (s.place i) at (ap s.place (eq-true i k e) ∙ p))

resumed_place :
    (s : Waits) (i k : ℕ) (tmp : Option ℕ) (p : Place)
    → (i == k) ≡ false
    → s.place k ≡ p
    → (sleep_on_resumed i tmp s).place k ≡ p
unfolding sleep_on_resumed
resumed_place s i k tmp p e q =
    ap (λ f. f k) (wake_place tmp _) ∙ assign_other i k elsewhere p s.place e q

-- Who was in reach runs or still is, once a woken task has gone on.
next-InReach :
    (s : Waits) (i : ℕ) (tmp : Option ℕ)
    → s.place i ≡ in_sleep_on tmp
    → (j : ℕ) → InReach s j
    → ((sleep_on_resumed i tmp s).state j ≡ running) ⊎ InReach (sleep_on_resumed i tmp s) j
unfolding sleep_on_resumed
next-InReach s i tmp at j (last _ q) = inr (last j (wake_queue tmp _ ∙ q))
next-InReach s i tmp at j (by_woken k _ p r) = elim (Bool-cases (i == k)) [
  | inl e ↦ inl (resumed-woken s i k tmp j at e p)
  | inr e ↦ inr (by_woken k j (resumed_place s i k tmp _ e p) (wake-running tmp _ k r))
]
next-InReach s i tmp at j (by_next k _ h p) = elim (Bool-cases (i == k)) [
  | inl e ↦ inl (resumed-woken s i k tmp j at e p)
  | inr e ↦
      let q = resumed_place s i k tmp _ e p in
      inr
        (elim (next-InReach s i tmp at k h) [ inl r ↦ by_woken k j q r | inr r ↦ by_next k j r q ])
]

-- The same, once the last in the queue has been woken.
woken-InReach :
    (s : Waits) (j : ℕ)
    → InReach s j
    → ((wake_up_last s).state j ≡ running) ⊎ InReach (wake_up_last s) j
unfolding wake_up_last
woken-InReach s j (last _ q) = inl (wake-woken s.queue s j q)
woken-InReach s j (by_woken k _ p r) =
    inr (by_woken k j (ap (λ f. f k) (wake_place s.queue s) ∙ p) (wake-running s.queue s k r))
woken-InReach s j (by_next k _ h p) =
    let q = ap (λ f. f k) (wake_place s.queue s) ∙ p in
    inr (elim (woken-InReach s k h) [ inl r ↦ by_woken k j q r | inr r ↦ by_next k j r q ])

enqueue-IsCovered :
    (s : Waits) (i : ℕ)
    → s.place i ≡ elsewhere
    → IsCovered s
    → IsCovered (enqueue i uninterruptible (in_sleep_on s.queue) s)
enqueue-IsCovered s i away c j m p = elim (Bool-cases (i == j)) [
  | inl e ↦ inr (last j (ap some (eq-true i j e)))
  | inr e ↦
      let old : s.place j ≡ in_sleep_on m =
        sym (other_place i j (in_sleep_on s.queue) s.place e) ∙ p in
      elim (c j m old) [ inl r ↦ inl (rw e r) | inr h ↦ inr (still-InReach s i away j h) ]
]

resumed-IsCovered :
    (s : Waits) (i : ℕ) (tmp : Option ℕ)
    → s.place i ≡ in_sleep_on tmp
    → IsCovered s
    → IsCovered (sleep_on_resumed i tmp s)
unfolding sleep_on_resumed
resumed-IsCovered s i tmp at c j m p =
    let q : assign i elsewhere s.place j ≡ in_sleep_on m =
      ap (λ f. f j) (sym (wake_place tmp _)) ∙ p in
    elim (Bool-cases (i == j)) [
      | inl e ↦
          absurd (
            let t : false ≡ true = sym (ap in_it (gone i j s.place e)) ∙ ap in_it q in ground arith)
      | inr e ↦ elim (c j m (sym (other_place i j elsewhere s.place e) ∙ q)) [
        | inl r ↦ inl (wake-running tmp _ j r)
        | inr h ↦ next-InReach s i tmp at j h
      ]
    ]

woken-IsCovered : (s : Waits) → IsCovered s → IsCovered (wake_up_last s)
unfolding wake_up_last
woken-IsCovered s c j m p = elim (c j m (ap (λ f. f j) (sym (wake_place s.queue s)) ∙ p)) [
  | inl r ↦ inl (wake-running s.queue s j r)
  | inr h ↦ woken-InReach s j h
]

slept :
    (i : ℕ) (s t : Waits)
    → sleep_on i s ≡ ok t
    → t ≡ enqueue i uninterruptible (in_sleep_on s.queue) s
unfolding sleep_on
slept i s t e = ground arith

Step-IsCovered : (s t : Waits) → Step s t → IsCovered s → IsCovered t
Step-IsCovered s _ (sleeps i t away e) c =
    subst IsCovered (sym (slept i s t e)) (enqueue-IsCovered s i away c)
Step-IsCovered s _ (goes_on i tmp at r) c = resumed-IsCovered s i tmp at c
Step-IsCovered s _ wakes c = woken-IsCovered s c

start-IsCovered : (s : Waits) → IsStart s → IsCovered s
start-IsCovered s (q, away) j m p =
    absurd (let t : false ≡ true = sym (ap in_it (away j)) ∙ ap in_it p in ground arith)

-- In every state that tasks reach by sleeping in `sleep_on`, waking the queue and going on, from
-- one in which nobody sleeps, each task in `sleep_on` runs or is in reach: it is the last in the
-- queue, or what a woken task, or one in reach, will wake when it goes on.
pub Reach-IsCovered : (s t : Waits) → IsStart s → Reach s t → IsCovered t
Reach-IsCovered s _ start here = start-IsCovered s start
Reach-IsCovered s t start (later {t = u} r step) =
    Step-IsCovered u t step (Reach-IsCovered s u start r)
