-- ===== src/Timer/Add.antt =====
-- Where `add_timer` puts a new request, and what it does to those behind it.
use linux.Prelude.{
  ℕ, ◌+◌, ◌-◌, ◌≤◌, ◌<◌, ◌≡◌, refl, ap, ap₂, sym, List, [], ◌∷◌, ◌++◌, ltb, Bool-cases, inl, inr,
  pos, some, arith,
}
use linux.Timer.{Timer, insert, add_timer, linked}
use linux.Timer.Due.{due, delay, IsSpaced, delay-due}

-- Every entry is due before d; from d on.
abbrev pub AllBefore : ℕ → List (ℕ × ℕ) → Type 0
AllBefore d [] = Unit
AllBefore d ((n, f) ∷ r) = (n < d) × AllBefore d r

abbrev pub AllFrom : ℕ → List (ℕ × ℕ) → Type 0
AllFrom d [] = Unit
AllFrom d ((n, f) ∷ r) = (d ≤ n) × AllFrom d r

-- The tick of the last entry, b if there is none.
abbrev pub latest : ℕ → List (ℕ × ℕ) → ℕ
latest b [] = b
latest b ((n, f) ∷ r) = latest n r

-- What a new function f at tick d, counted from b, does to a list.
pub record Inserts (b d f : ℕ) (old new : List (ℕ × ℕ)) : Type 0 where
  pub before : List (ℕ × ℕ)
  pub after : List (ℕ × ℕ)
  pub splits : old ≡ before ++ after
  pub earlier : AllBefore d before
  pub later : AllFrom d after
  pub is_new : new ≡ before ++ ((d, f) ∷ delay (d - latest b before) after)

due-ge : (d b : ℕ) (ts : List Timer) → d ≤ b → AllFrom d (due b ts)
due-ge d b [] h = tt
due-ge d b (t ∷ ts) h = (omega arith, due-ge d (b + t.jiffies) ts (omega arith))

Inserts-cons :
    {b d f : ℕ} {old new : List (ℕ × ℕ)} (n g : ℕ)
    → n < d
    → Inserts n d f old new
    → Inserts b d f ((n, g) ∷ old) ((n, g) ∷ new)
Inserts-cons n g h i = record {
  before = (n, g) ∷ i.before;
  after = i.after;
  splits = ap (λ r. (n, g) ∷ r) i.splits;
  earlier = (h, i.earlier);
  later = i.later;
  is_new = ap (λ r. (n, g) ∷ r) i.is_new;
}

insert-Inserts :
    (b d due_at f : ℕ) (ts : List Timer)
    → due_at ≡ b + d
    → 0 < d
    → Inserts b due_at f (due b ts) (due b (insert d f ts))
unfolding insert
insert-Inserts b d due_at f [] e h = record {
  before = [];
  after = [];
  splits = refl;
  earlier = tt;
  later = tt;
  is_new = rw e;
}
insert-Inserts b d due_at f (t ∷ ts) e h = elim (Bool-cases (ltb t.jiffies d)) [
  | inl first ↦ rw first (
      Inserts-cons (b + t.jiffies) t.fn (ground arith)
        (insert-Inserts (b + t.jiffies) (d - t.jiffies) due_at f ts (ground arith) (ground arith)))
  | inr last ↦ rw last (record {
    before = [];
    after = due b (t ∷ ts);
    splits = refl;
    earlier = tt;
    later = (ground arith, due-ge due_at (b + t.jiffies) ts (ground arith));
    is_new =
        let c = due_at - b in
        ap₂ ◌∷◌ (ground arith) (
          ap₂ ◌∷◌ (ground arith)
            (sym (delay-due c (b + t.jiffies) (b + d + t.jiffies) ts (omega arith))));
  })
]

insert-IsSpaced : (d f : ℕ) (ts : List Timer) → 0 < d → IsSpaced ts → IsSpaced (insert d f ts)
unfolding insert
insert-IsSpaced d f [] h s = (h, tt)
insert-IsSpaced d f (t ∷ ts) h s = ground (arith, insert-IsSpaced (d - t.jiffies) f ts)

-- A request for a positive number of ticks that finds a free slot: the list stays one in which every
-- entry waits at least a tick after the one before. The entries due earlier keep their ticks, the
-- new one is due exactly at `d`, behind them and before the rest. The rest runs too late: each
-- of those entries by as many ticks as the new one is later than the last of the earlier ones.
pub add_timer-Inserts :
    (d f : ℕ) (ts : List Timer) {ts' : List Timer}
    → 0 < d
    → IsSpaced ts
    → add_timer (pos d) (some f) ts ≡ linked ts'
    → Inserts 0 d f (due 0 ts) (due 0 ts') × IsSpaced ts'
unfolding add_timer
add_timer-Inserts d f ts {ts'} h s e =
    let p : ts' ≡ insert d f ts = ground arith in
    rw p (insert-Inserts 0 d d f ts (omega arith) h, insert-IsSpaced d f ts h s)
