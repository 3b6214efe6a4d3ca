-- ===== src/Exit/Adopt.antt =====
-- The children of a process that ends.
use linux.Prelude.{
  ℕ, zero, suc, ◌+◌, ◌/◌, ◌<◌, ◌≤◌, ◌≡◌, refl, sym, ap, ◌∙◌, inl, inr, [], ◌∷◌, Option, none, some,
  Bool, true, false, ◌&&◌, ◌||◌, ◌==◌, ltb, leb, if◌then◌else◌, ℤ, pos, eqb_ℤ, get_or, set, length,
  length-set, arith, Bool-cases,
}
use linux.Prelude.Bits.{bit_or_step, div-bit_or}
use Prim.Native.Nat.{bit_or}
use linux.Task.{Task, Table, sigchld, sig_bit}
use linux.Signal.{raise, send_sig}
use linux.Exit.{zombie_state, adopt_task, adopt}

abbrev pub slot : Table → ℕ → Option Task
slot ts k = get_or ts k none

pub slot-set :
    (ts : Table) (i k : ℕ) (o : Option Task)
    → i < length ts
    → slot (set ts i o) k ≡ (if k == i then o else slot ts k)
slot-set [] i k o h = absurd (omega arith)
slot-set (t ∷ ts) zero zero o h = refl
slot-set (t ∷ ts) zero (suc k) o h = let e : (suc k == 0) ≡ false = ground arith in rw e refl
slot-set (t ∷ ts) (suc i) zero o h = let e : (0 == suc i) ≡ false = ground arith in rw e refl
slot-set (t ∷ ts) (suc i) (suc k) o h =
    let e : (suc k == suc i) ≡ (k == i) = ground arith in rw e (slot-set ts i k o (omega arith))

-- A child of process `pid` goes to process 1.
abbrev pub to_init : ℤ → Task → Task
to_init pid t = record t { father = if eqb_ℤ t.father pid then pos 1 else t.father }

-- If `b`
abbrev pub adopted : ℤ → Bool → Option Task → Option Task
adopted pid b none = none
adopted pid b (some t) = if b then some (to_init pid t) else some t

abbrev pub notified : Bool → Option Task → Option Task
notified b none = none
notified b (some t) = if b then some (raise sigchld t) else some t

abbrev pub dead_child : ℤ → Option Task → Bool
dead_child pid none = false
dead_child pid (some t) = eqb_ℤ t.father pid && zombie_state t.state

-- Whether one of the `n` slots from slot `i` on holds a child of `pid` that is a zombie
pub dead_children : ℤ → ℕ → ℕ → Table → Bool
dead_children pid zero i ts = false
dead_children pid (suc n) i ts = dead_child pid (slot ts i) || dead_children pid n (i + 1) ts

or_twice_fuel : (n x y : ℕ) → x ≤ n → y ≤ n → bit_or (bit_or x y) y ≡ bit_or x y
or_twice_fuel zero x y h k =
    let a : x ≡ 0 = omega arith in let b : y ≡ 0 = omega arith in rw (a, b) refl
or_twice_fuel (suc n) x y h k =
    let ih = or_twice_fuel n (x / 2) (y / 2) (omega arith) (omega arith) in
    let d = ap (λ z. bit_or z (y / 2)) (div-bit_or x y) ∙ ih in
    let a = bit_or_step x y in let b = bit_or_step (bit_or x y) y in omega (arith, a, b, d)

or_twice : (x y : ℕ) → bit_or (bit_or x y) y ≡ bit_or x y
or_twice x y = or_twice_fuel (x + y) x y (omega arith) (omega arith)

notified_twice : (a b : Bool) (o : Option Task) → notified a (notified b o) ≡ notified (b || a) o
notified_twice a b none = refl
notified_twice true true (some t) =
    ap (λ s. some (record t { signal = s })) (or_twice t.signal (sig_bit sigchld))
notified_twice true false (some t) = refl
notified_twice false true (some t) = refl
notified_twice false false (some t) = refl

adopted-notified :
    (pid : ℤ) (a b : Bool) (o : Option Task)
    → adopted pid a (notified b o) ≡ notified b (adopted pid a o)
adopted-notified pid a b none = refl
adopted-notified pid true true (some t) = refl
adopted-notified pid true false (some t) = refl
adopted-notified pid false true (some t) = refl
adopted-notified pid false false (some t) = refl

dead_child-notified :
    (pid : ℤ) (b : Bool) (o : Option Task) → dead_child pid (notified b o) ≡ dead_child pid o
dead_child-notified pid b none = refl
dead_child-notified pid true (some t) = refl
dead_child-notified pid false (some t) = refl

send_sig-notified :
    (euid : ℕ) (o : Option Task) → (send_sig (pos sigchld) euid o true).1 ≡ notified true o
unfolding send_sig
send_sig-notified euid none = refl
send_sig-notified euid (some t) = refl

adopted-false : (pid : ℤ) (o : Option Task) → adopted pid false o ≡ o
adopted-false pid none = refl
adopted-false pid (some t) = refl

-- Slot `i`, and then the `n` slots behind it
adopted_twice :
    (pid : ℤ) (n i k : ℕ) (o : Option Task)
    → adopted pid (leb (i + 1) k && ltb k (i + 1 + n)) (adopted pid (k == i) o)
      ≡ adopted pid (leb i k && ltb k (i + suc n)) o
adopted_twice pid n i k o = elim (Bool-cases (k == i)) [
  | inl e ↦
      let a : (leb (i + 1) k && ltb k (i + 1 + n)) ≡ false = ground arith in
      let b : (leb i k && ltb k (i + suc n)) ≡ true = ground arith in
      rw (e, a, b) (adopted-false pid (adopted pid true o))
  | inr e ↦
      let a : (leb (i + 1) k && ltb k (i + 1 + n)) ≡ (leb i k && ltb k (i + suc n)) =
        ground arith in
      rw (e, a) (ap (adopted pid _) (adopted-false pid o))
]

-- Nothing is there to adopt in slot `i`.
adopted_other :
    (pid : ℤ) (ts : Table) (i k : ℕ)
    → adopted pid true (slot ts i) ≡ slot ts i
    → adopted pid (k == i) (slot ts k) ≡ slot ts k
adopted_other pid ts i k e = elim (Bool-cases (k == i)) [
  | inl h ↦
      let s : k ≡ i = ground arith in
      rw h (ap (λ j. adopted pid true (slot ts j)) s ∙ e ∙ ap (slot ts) (sym s))
  | inr h ↦ rw h (adopted-false pid (slot ts k))
]

notified-false : (o : Option Task) → notified false o ≡ o
notified-false none = refl
notified-false (some t) = refl

no_child :
    (pid : ℤ) (ts : Table) (i k : ℕ)
    → adopted pid true (slot ts i) ≡ slot ts i
    → slot ts k ≡ notified ((k == 1) && false) (adopted pid (k == i) (slot ts k))
no_child pid ts i k e =
    let a = adopted_other pid ts i k e in
    let b : ((k == 1) && false) ≡ false = ground arith in
    sym (rw (b, a) (notified-false (slot ts k)))

some_child :
    (euid : ℕ) (pid : ℤ) (ts : Table) (i k : ℕ) (t : Task)
    → slot ts i ≡ some t
    → eqb_ℤ t.father pid ≡ true
    → i < length ts
    → slot (set ts i (some (record t { father = pos 1 }))) k ≡ adopted pid (k == i) (slot ts k)
some_child euid pid ts i k t e f h =
    slot-set ts i k (some (record t { father = pos 1 })) h ∙ (elim (Bool-cases (k == i)) [
      | inl s ↦
          let w : slot ts k ≡ some t = let q : k ≡ i = ground arith in ap (slot ts) q ∙ e in
          rw (s, w, f) refl
      | inr s ↦ rw s (kept (slot ts k))
    ])
  where
    kept : (o : Option Task) → o ≡ adopted pid false o
    kept none = refl
    kept (some t) = refl

adopt_task-slot :
    (euid : ℕ) (pid : ℤ) (i : ℕ) (ts : Table) (k : ℕ) (o : Option Task)
    → slot ts i ≡ o
    → i < length ts
    → 1 < length ts
    → slot (adopt_task euid pid i o ts) k
      ≡ notified ((k == 1) && dead_child pid o) (adopted pid (k == i) (slot ts k))
unfolding adopt_task
adopt_task-slot euid pid i ts k none e h l = no_child pid ts i k (rw e refl)
adopt_task-slot euid pid i ts k (some t) e h l = elim (Bool-cases (eqb_ℤ t.father pid)) [
  | inr f ↦ rw f (no_child pid ts i k (rw (e, f) refl))
  | inl f ↦
      let c = some_child euid pid ts i k t e f h in
      elim (Bool-cases (zombie_state t.state)) [
        | inr z ↦
            let b : ((k == 1) && false) ≡ false = ground arith in
            rw (f, z, b) (c ∙ sym (notified-false (adopted pid (k == i) (slot ts k))))
        | inl z ↦
            let ts₁ = set ts i (some (record t { father = pos 1 })) in
            let l₁ : 1 < length ts₁ =
              let y = length-set ts i (some (record t { father = pos 1 })) in omega (arith, y, l) in
            rw (f, z)
              (slot-set ts₁ 1 k ((send_sig (pos sigchld) euid (slot ts₁ 1) true).1) l₁
                ∙ (elim (Bool-cases (k == 1)) [
                  | inl s ↦
                      let q : k ≡ 1 = ground arith in
                      rw s (
                        send_sig-notified euid (slot ts₁ 1)
                        ∙ ap (λ j. notified true (slot ts₁ j)) (sym q)
                        ∙ ap (notified true) c)
                  | inr s ↦ rw s (c ∙ sym (notified-false (adopted pid (k == i) (slot ts k))))
                ]))
      ]
]

pub length-adopt_task :
    (euid : ℕ) (pid : ℤ) (i : ℕ) (o : Option Task) (ts : Table)
    → length (adopt_task euid pid i o ts) ≡ length ts
unfolding adopt_task
length-adopt_task euid pid i none ts = refl
length-adopt_task euid pid i (some t) ts =
    let a = length-set ts i (some (record t { father = pos 1 })) in
    elim (Bool-cases (eqb_ℤ t.father pid)) [
      | inr f ↦ rw f refl
      | inl f ↦ elim (Bool-cases (zombie_state t.state)) [
        | inr z ↦ rw (f, z) a
        | inl z ↦ rw (f, z) (length-set (set ts i (some (record t { father = pos 1 }))) 1 _ ∙ a)
      ]
    ]

-- Slots behind slot `i` hold the same dead children after it was handled.
dead_children-adopt_task :
    (euid : ℕ) (pid : ℤ) (i : ℕ) (ts : Table) (n j : ℕ)
    → i < length ts
    → 1 < length ts
    → i < j
    → dead_children pid n j (adopt_task euid pid i (slot ts i) ts) ≡ dead_children pid n j ts
unfolding dead_children
dead_children-adopt_task euid pid i ts zero j h l b = refl
dead_children-adopt_task euid pid i ts (suc n) j h l b =
    let a = adopt_task-slot euid pid i ts j (slot ts i) refl h l in
    let e : (j == i) ≡ false = ground arith in
    let c : slot (adopt_task euid pid i (slot ts i) ts) j
        ≡ notified ((j == 1) && dead_child pid (slot ts i)) (slot ts j) =
      a ∙ ap (notified _) (ap (λ x. adopted pid x (slot ts j)) e ∙ adopted-false pid (slot ts j)) in
    let d = ap (dead_child pid) c ∙ dead_child-notified pid _ (slot ts j) in
    let r = dead_children-adopt_task euid pid i ts n (j + 1) h l (omega arith) in rw (d, r) refl

adopt-slot :
    (euid : ℕ) (pid : ℤ) (n i : ℕ) (ts : Table) (k : ℕ)
    → i + n ≤ length ts
    → 1 < length ts
    → slot (adopt euid pid n i ts) k
      ≡ notified
          ((k == 1) && dead_children pid n i ts)
          (adopted pid (leb i k && ltb k (i + n)) (slot ts k))
unfolding adopt dead_children
adopt-slot euid pid zero i ts k h l =
    let a : ((k == 1) && false) ≡ false = ground arith in
    let b : (leb i k && ltb k (i + 0)) ≡ false = ground arith in
    sym (rw (a, b) (notified-false (adopted pid false (slot ts k)) ∙ adopted-false pid (slot ts k)))
adopt-slot euid pid (suc n) i ts k h l =
    let ts' = adopt_task euid pid i (slot ts i) ts in
    let m = length-adopt_task euid pid i (slot ts i) ts in
    let w = leb (i + 1) k && ltb k (i + 1 + n) in
    let d = dead_child pid (slot ts i) in
    let e = dead_children pid n (i + 1) ts in
    let ih = adopt-slot euid pid n (i + 1) ts' k (omega (arith, m, h)) (omega (arith, m, l)) in
    let s = adopt_task-slot euid pid i ts k (slot ts i) refl (omega arith) l in
    let r = dead_children-adopt_task euid pid i ts n (i + 1) (omega arith) l (omega arith) in
    let b : (((k == 1) && d) || ((k == 1) && e)) ≡ ((k == 1) && (d || e)) = ground arith in
    ih
    ∙ ap (λ x. notified ((k == 1) && x) (adopted pid w (slot ts' k))) r
    ∙ ap (λ o. notified ((k == 1) && e) (adopted pid w o)) s
    ∙ ap (notified ((k == 1) && e)) (adopted-notified pid w ((k == 1) && d) _)
    ∙ notified_twice ((k == 1) && e) ((k == 1) && d) _
    ∙ ap (λ x. notified x (adopted pid w (adopted pid (k == i) (slot ts k)))) b
    ∙ ap (notified ((k == 1) && (d || e))) (adopted_twice pid n i k (slot ts k))

-- The loop of `do_exit` over the tasks, on a full table: every child of the process gets process 1
-- for its father, process 1 has SIGCHLD raised exactly if one of these children is a zombie, and no
-- task changes otherwise.
pub adopt_lem :
    (euid : ℕ) (pid : ℤ) (ts : Table) (k : ℕ)
    → length ts ≡ 64
    → k < 64
    → slot (adopt euid pid 64 0 ts) k
      ≡ notified ((k == 1) && dead_children pid 64 0 ts) (adopted pid true (slot ts k))
adopt_lem euid pid ts k h l =
    let w : (leb 0 k && ltb k (0 + 64)) ≡ true = ground arith in
    adopt-slot euid pid 64 0 ts k (omega (arith, h)) (omega (arith, h))
    ∙ ap (λ x. notified ((k == 1) && dead_children pid 64 0 ts) (adopted pid x (slot ts k))) w
