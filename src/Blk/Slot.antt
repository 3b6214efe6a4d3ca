-- ===== src/Blk/Slot.antt =====
-- `make_request`: the slot that a request takes.
use linux.Prelude.{
  ℕ, zero, suc, ◌<◌, ◌≡◌, ◌⊎◌, refl, Option, none, some, Bool, true, false, pos, ltb_ℤ, ◌==◌,
  if◌then◌else◌, Bool-cases, arith, inl, inr,
}
use linux.Blk.{
  Request, Disk, Made, returned, sleeps_on_request, find_free, slot_limit, fill_slot, new_request,
  queue_request, add_request, update, unlock_buffer,
}

abbrev pub is_free : Request → Bool
is_free r = ltb_ℤ r.dev (pos 0)

-- What the search for a slot below `limit` finds: the last free one, or nothing if all are in use.
abbrev pub IsLastFree : (ℕ → Request) → ℕ → Option ℕ → Type 0
IsLastFree request limit none = (i : ℕ) → i < limit → is_free (request i) ≡ false
IsLastFree request limit (some n) =
    (n < limit)
    × (is_free (request n) ≡ true)
    × ((i : ℕ) → i < limit → n < i → is_free (request i) ≡ false)

busy_step :
    (request : ℕ → Request) (n i : ℕ)
    → is_free (request n) ≡ false
    → i < suc n
    → (i < n → is_free (request i) ≡ false)
    → is_free (request i) ≡ false
busy_step request n i busy h below = elim (Bool-cases (i == n)) [
  | inl e ↦ let p : i ≡ n = ground arith in rw p busy
  | inr e ↦ below (ground arith)
]

lower-IsLastFree :
    (request : ℕ → Request) (n : ℕ) (o : Option ℕ)
    → is_free (request n) ≡ false
    → IsLastFree request n o
    → IsLastFree request (suc n) o
lower-IsLastFree request n none busy all = λ i h. busy_step request n i busy h (all i)
lower-IsLastFree request n (some k) busy (h, f, l) =
    (omega arith, f, λ i g j. busy_step request n i busy g (λ u. l i u j))

find_free-IsLastFree :
    (request : ℕ → Request) (limit : ℕ) → IsLastFree request limit (find_free request limit)
unfolding find_free
find_free-IsLastFree request zero = λ i h. absurd (omega arith)
find_free-IsLastFree request (suc n) = elim (Bool-cases (is_free (request n))) [
  | inl free ↦ rw free (omega arith, free, λ i h k. absurd (omega arith))
  | inr busy ↦
      rw busy
        (lower-IsLastFree request n (find_free request n) busy (find_free-IsLastFree request n))
]

-- The slots above the searched ones are left alone, and of the others only the free one changes.
pub record Taken (request request' : ℕ → Request) (limit n : ℕ) (r : Request) : Type 0 where
  pub in_range : n < limit
  pub was_free : is_free (request n) ≡ true
  pub last : (i : ℕ) → i < limit → n < i → is_free (request i) ≡ false
  pub filled : request' n ≡ r
  pub kept : (i : ℕ) → (i ≡ n) ⊎ (request' i ≡ request i)

update-Taken :
    (request : ℕ → Request) (limit n : ℕ) (r : Request)
    → IsLastFree request limit (some n)
    → Taken request (update n r request) limit n r
update-Taken request limit n r (h, f, l) = record {
  in_range = h;
  was_free = f;
  last = l;
  filled = ground arith;
  kept = λ i. elim (Bool-cases (n == i)) [ inl e ↦ inl (ground arith) | inr e ↦ inr (rw e refl) ];
}

-- What became of a command for the buffer b, which is locked.
abbrev pub Queued : (Disk → Disk) → ℕ → ℕ → Bool → ℕ → Disk → ℕ → Made → Type 0
Queued request_fn major rw rw_ahead b d limit m =
    ((n : ℕ) × (request' : ℕ → Request) × Taken d.request request' limit n
        (new_request rw b (d.buffer b))
      × (m ≡ returned (add_request request_fn major n (record d { request = request' }))))
    ⊎ (((i : ℕ) → i < limit → is_free (d.request i) ≡ false)
        × (m ≡ (if rw_ahead then returned (unlock_buffer b d) else sleeps_on_request d)))

fill_slot-Queued :
    (request_fn : Disk → Disk) (major rw : ℕ) (rw_ahead : Bool) (b : ℕ) (d : Disk) (limit : ℕ)
    (o : Option ℕ)
    → IsLastFree d.request limit o
    → Queued request_fn major rw rw_ahead b d limit (fill_slot request_fn major rw rw_ahead b o d)
fill_slot-Queued request_fn major rw rw_ahead b d limit none all = inr (all, refl)
fill_slot-Queued request_fn major rw rw_ahead b d limit (some n) l = inl (
  n,
  update n (new_request rw b (d.buffer b)) d.request,
  update-Taken d.request limit n _ l,
  refl,
)

-- A command that is carried out takes the last free slot, of all 32 for a read and of the first 21
-- for a write, leaves every other request as it is, and hands the slot to `add_request`; if none of
-- these is free it waits, or gives up with the buffer unlocked if it is a command ahead.
pub queue_request-Queued :
    (request_fn : Disk → Disk) (major rw : ℕ) (rw_ahead : Bool) (b : ℕ) (d : Disk)
    → Queued request_fn major rw rw_ahead b d
        (if rw == 0 then 32 else 21)
        (queue_request request_fn major rw rw_ahead b d)
unfolding queue_request
queue_request-Queued request_fn major rw rw_ahead b d =
    fill_slot-Queued request_fn major rw rw_ahead b d (slot_limit rw)
      (find_free d.request (slot_limit rw)) (find_free-IsLastFree d.request (slot_limit rw))
