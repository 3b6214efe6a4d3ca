-- ===== src/Blk/Elevator.antt =====
-- `add_request`: the order of a device's queue.
use linux.Prelude.{
  ℕ, ◌+◌, ◌≤◌, ◌≡◌, ◌⊎◌, refl, List, [], ◌∷◌, Option, none, some, true, false, ◌||◌, ◌==◌,
  if◌then◌else◌, Bool-cases, arith, inl, inr, max,
}
use linux.Blk.{Request, Disk, update, in_order, insert_behind, add_request, clean}

in_order_trans : (r s t : Request) → in_order r s ≡ true → in_order s t ≡ true → in_order r t ≡ true
unfolding in_order
in_order_trans r s t p q = ground arith

in_order_irrefl : (r s : Request) → in_order r s ≡ true → in_order s r ≡ false
unfolding in_order
in_order_irrefl r s p = ground arith

-- How often the heads turn back on their way from `tmp` through the queue.
pub turns : (ℕ → Request) → ℕ → List ℕ → ℕ
turns request tmp [] = 0
turns request tmp (next ∷ rest) =
    (if in_order (request tmp) (request next) then 0 else 1) + turns request next rest

-- The request is for another place than each of the queue.
abbrev pub Differs : (ℕ → Request) → ℕ → List ℕ → Type 0
Differs request req [] = Unit
Differs request req (r ∷ rs) =
    ((in_order (request r) (request req) || in_order (request req) (request r)) ≡ true)
    × Differs request req rs

-- How often a slot is queued.
pub queued : ℕ → List ℕ → ℕ
queued i [] = 0
queued i (r ∷ rs) = (if i == r then 1 else 0) + queued i rs

-- From a request below the new one, the way with the new one turns as often.
turns-insert_behind_above :
    (request : ℕ → Request) (req tmp : ℕ) (rest : List ℕ)
    → Differs request req rest
    → in_order (request tmp) (request req) ≡ true
    → turns request tmp (insert_behind request req tmp rest) ≤ turns request tmp rest
unfolding turns insert_behind
turns-insert_behind_above request req tmp [] d o = rw o (omega arith)
turns-insert_behind_above request req tmp (next ∷ rest) (d, ds) o =
    let trans = in_order_trans (request tmp) (request req) (request next) o in
    let ih = turns-insert_behind_above request req next rest ds in ground (arith, trans, ih)

turns-insert_behind :
    (request : ℕ → Request) (req tmp : ℕ) (rest : List ℕ)
    → Differs request req (tmp ∷ rest)
    → turns request tmp (insert_behind request req tmp rest) ≤ max 1 (turns request tmp rest)
unfolding turns insert_behind
turns-insert_behind request req tmp [] d = ground arith
turns-insert_behind request req tmp (next ∷ rest) (d, ds) =
    let above = turns-insert_behind_above request req tmp (next ∷ rest) ds in
    let above_next = turns-insert_behind_above request req next rest ds.1 in
    let trans = in_order_trans (request req) (request tmp) (request next) in
    let irrefl = in_order_irrefl (request req) (request tmp) in
    let ih = turns-insert_behind request req next rest ds in
    ground (arith, above, above_next, trans, irrefl, ih)

queued-insert_behind :
    (request : ℕ → Request) (req tmp : ℕ) (rest : List ℕ) (i : ℕ)
    → queued i (insert_behind request req tmp rest) ≡ queued i (req ∷ rest)
unfolding queued insert_behind
queued-insert_behind request req tmp [] i = refl
queued-insert_behind request req tmp (next ∷ rest) i =
    let ih = queued-insert_behind request req next rest i in ground arith

-- What becomes of the queue behind `head`, the request that the device works on.
pub record Ordered (request : ℕ → Request) (req head : ℕ) (rest rest' : List ℕ) : Type 0 where
  pub turns_once : turns request head rest' ≤ max 1 (turns request head rest)
  pub on_the_way :
      (in_order (request head) (request req) ≡ false)
      ⊎ (turns request head rest' ≤ turns request head rest)
  pub same : (i : ℕ) → queued i rest' ≡ queued i (req ∷ rest)

insert_behind-Ordered :
    (request : ℕ → Request) (req head : ℕ) (rest : List ℕ)
    → Differs request req (head ∷ rest)
    → Ordered request req head rest (insert_behind request req head rest)
insert_behind-Ordered request req head rest (d, ds) = record {
  turns_once = turns-insert_behind request req head rest (d, ds);
  on_the_way = elim (Bool-cases (in_order (request head) (request req))) [
    | inl o ↦ inr (turns-insert_behind_above request req head rest ds o)
    | inr o ↦ inl o
  ];
  same = queued-insert_behind request req head rest;
}

clean_keeps :
    (o : Option ℕ) (d : Disk) → ((clean o d).queue ≡ d.queue) × ((clean o d).request ≡ d.request)
clean_keeps none d = (refl, refl)
clean_keeps (some b) d = (refl, refl)

update_self : (i : ℕ) (v : List ℕ) (f : ℕ → List ℕ) → update i v f i ≡ v
update_self i v f = ground arith

update_ne : (i j : ℕ) (v : List ℕ) (f : ℕ → List ℕ) → (update i v f j ≡ f j) ⊎ (i ≡ j)
update_ne i j v f = elim (Bool-cases (i == j)) [
  | inl e ↦ inr (ground arith)
  | inr e ↦ inl (rw e refl)
]

-- `add_request` on a device that works, with a request for another place than those queued: the
-- device goes on with the request it works on, behind it stand the ones that stood there and the
-- new one, and the way through the queue turns back once, or no more often than before; it turns
-- no more often than before if the new request is above the one worked on. The requests of other
-- devices stay queued, and no request changes.
pub add_request-Ordered :
    (request_fn : Disk → Disk) (major req : ℕ) (d : Disk) (head : ℕ) (rest : List ℕ)
    → d.queue major ≡ head ∷ rest
    → Differs d.request req (head ∷ rest)
    → let d' = add_request request_fn major req d in
      ((rest' : List ℕ) × (d'.queue major ≡ head ∷ rest') × Ordered d.request req head rest rest')
      × ((other : ℕ) → (d'.queue other ≡ d.queue other) ⊎ (major ≡ other))
      × (d'.request ≡ d.request)
unfolding add_request
add_request-Ordered request_fn major req d head rest e ds =
    let c = clean_keeps (d.request req).bh d in
    rw (e, c.0, c.1)
      (
        (
          insert_behind d.request req head rest,
          update_self major _ d.queue,
          insert_behind-Ordered d.request req head rest ds,
        ),
        (λ other. update_ne major other _ d.queue),
        refl,
      )
