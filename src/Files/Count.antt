-- ===== src/Files/Count.antt =====
-- The counts of the open files, and the descriptors that stand for them.
use linux.Prelude.{
  ℕ, zero, suc, ◌+◌, ◌-◌, ◌%◌, ◌^◌, ◌≤◌, ◌<◌, ◌≡◌, ◌⊎◌, refl, List, [], ◌∷◌, Option, none, some,
  false, leb, ◌==◌, if◌then◌else◌, get_or, set, length, length-set, arith, Bool-cases, Option-cases,
  inl, inr,
}
use linux.Files.{File, Files, with_file, filp_at, first_free, share_file, dup_file, dupfd}

abbrev pub is_slot : ℕ → Option ℕ → ℕ
is_slot f none = 0
is_slot f (some g) = if f == g then 1 else 0

-- The descriptors of a list that stand for the file f.
unfoldable pub refs : ℕ → List (Option ℕ) → ℕ
refs f [] = 0
refs f (o ∷ os) = is_slot f o + refs f os

refs-le : (f : ℕ) (os : List (Option ℕ)) → refs f os ≤ length os
unfolding refs
refs-le f [] = omega arith
refs-le f (none ∷ os) = let ih = refs-le f os in omega arith
refs-le f (some g ∷ os) = let ih = refs-le f os in ground arith

refs-set :
    (f : ℕ) (os : List (Option ℕ)) (i : ℕ) (o : Option ℕ)
    → i < length os
    → refs f (set os i o) + is_slot f (get_or os i none) ≡ refs f os + is_slot f o
unfolding refs
refs-set f [] i o h = absurd (omega arith)
refs-set f (x ∷ xs) zero o h = omega arith
refs-set f (x ∷ xs) (suc i) o h = let ih = refs-set f xs i o (omega arith) in omega arith

refs_of_open : (f : ℕ) (os : List (Option ℕ)) (i : ℕ) → get_or os i none ≡ some f → 1 ≤ refs f os
unfolding refs
refs_of_open f [] i e = cc
refs_of_open f (none ∷ os) zero e = cc
refs_of_open f (some g ∷ os) zero e = let p : g ≡ f = cc in rw p (ground arith)
refs_of_open f (o ∷ os) (suc i) e = let ih = refs_of_open f os i e in omega arith

-- Where the search of `dupfd` ends, an empty descriptor or NR_OPEN.
pub first_free_lem :
    (n arg : ℕ) (os : List (Option ℕ))
    → let a = first_free n arg os in (a ≡ n + arg) ⊎ ((a < n + arg) × (get_or os a none ≡ none))
unfolding first_free
first_free_lem zero arg os = inl (omega arith)
first_free_lem (suc n) arg os = elim (Option-cases (get_or os arg none)) [
  | inl e ↦ rw e (inr (omega arith, e))
  | inr (f, e) ↦
      let ih = first_free_lem n (suc arg) os in
      rw e (elim ih [ inl p ↦ inl (omega arith) | inr (l, p) ↦ inr (omega arith, p) ])
]

-- Every count is that of the current task's descriptors and those of the `others`, which are too
-- few for a count to wrap; the task has NR_OPEN descriptors.
pub record Counted (others : ℕ → ℕ) (filp : List (Option ℕ)) (file : ℕ → File) : Type 0 where
  pub open_files : length filp ≡ 20
  pub counted : (f : ℕ) → (file f).count ≡ refs f filp + others f
  pub few : (f : ℕ) → others f ≤ 60000

abbrev pub IsCounted : (ℕ → ℕ) → Files → Type 0
IsCounted others s = Counted others s.current.filp s.file

-- A descriptor changes, and the counts with it.
pub recount :
    (others : ℕ → ℕ) (filp : List (Option ℕ)) (file file' : ℕ → File) (fd : ℕ) (o : Option ℕ)
    → Counted others filp file
    → fd < 20
    → ((f : ℕ) → (file' f).count + is_slot f (get_or filp fd none) ≡ (file f).count + is_slot f o)
    → Counted others (set filp fd o) file'
recount others filp file file' fd o c h e =
    let n = c.open_files in
    record {
      open_files = let l = length-set filp fd o in omega arith;
      counted = λ f.
          let r = refs-set f filp fd o (omega arith) in
          let k = c.counted f in let g = e f in omega arith;
      few = c.few;
    }

pub count_at :
    (file : ℕ → File) (f n g : ℕ)
    → (with_file f (record (file f) { count = n }) file g).count
      ≡ (if f == g then n else (file g).count)
count_at file f n g = elim (Bool-cases (f == g)) [ inl e ↦ rw e refl | inr e ↦ rw e refl ]

-- A file of the task has a user, and not too many.
pub count_bounds :
    (others : ℕ → ℕ) (filp : List (Option ℕ)) (file : ℕ → File) (fd f : ℕ)
    → Counted others filp file
    → get_or filp fd none ≡ some f
    → (1 ≤ (file f).count) × ((file f).count ≤ 60020)
count_bounds others filp file fd f c e =
    let a = refs_of_open f filp fd e in
    let b = refs-le f filp in
    let n = c.open_files in let k = c.counted f in let w = c.few f in (omega arith, omega arith)

-- One user more, or one less, of the file f.
pub count_up :
    (file : ℕ → File) (f g : ℕ)
    → (file f).count ≤ 60020
    → (with_file f (record (file f) { count = ((file f).count + 1) % 2 ^ 16 }) file g).count
      ≡ (file g).count + is_slot g (some f)
count_up file f g h = elim (Bool-cases (f == g)) [
  | inl e ↦ let p : g ≡ f = ground arith in rw p (ground arith)
  | inr e ↦ rw e (ground arith)
]

pub count_down :
    (file : ℕ → File) (f g : ℕ)
    → 1 ≤ (file f).count
    → (with_file f (record (file f) { count = (file f).count - 1 }) file g).count
        + is_slot g (some f)
      ≡ (file g).count
count_down file f g h = elim (Bool-cases (f == g)) [
  | inl e ↦ let p : g ≡ f = ground arith in rw p (ground arith)
  | inr e ↦ rw e (ground arith)
]

share_file-IsCounted :
    (others : ℕ → ℕ) (s : Files) (fd f arg : ℕ)
    → IsCounted others s
    → filp_at s fd ≡ some f
    → (arg ≡ 20) ⊎ ((arg < 20) × (filp_at s arg ≡ none))
    → IsCounted others (share_file f arg s).1
share_file-IsCounted others s fd f arg c e (inl full) = rw full c
share_file-IsCounted others s fd f arg c e (inr (l, free)) =
    let (lo, hi) = count_bounds others s.current.filp s.file fd f c e in
    let ups =
      recount others s.current.filp s.file
        (with_file f (record (s.file f) { count = ((s.file f).count + 1) % 2 ^ 16 }) s.file) arg
        (some f) c l (λ g. let u = count_up s.file f g hi in rw (free, u) (omega arith)) in
    let small : leb 20 arg ≡ false = ground arith in rw small ups

dup_slot :
    (others : ℕ → ℕ) (s : Files) (fd f arg : ℕ)
    → IsCounted others s
    → filp_at s fd ≡ some f
    → IsCounted others (dup_file (some f) arg s).1
dup_slot others s fd f arg c e = elim (Bool-cases (leb 20 arg)) [
  | inl out ↦ rw out c
  | inr in_range ↦
      let a = first_free_lem (20 - arg) arg s.current.filp in
      let b : (first_free (20 - arg) arg s.current.filp ≡ 20) ⊎ _ = elim a [
        | inl p ↦ inl (ground arith)
        | inr (l, q) ↦ inr (ground arith, q)
      ] in
      rw in_range
        (share_file-IsCounted others s fd f (first_free (20 - arg) arg s.current.filp) c e b)
]

pub dupfd-IsCounted :
    (others : ℕ → ℕ) (s : Files) (fd arg : ℕ)
    → IsCounted others s
    → IsCounted others (dupfd fd arg s).1
unfolding dupfd
dupfd-IsCounted others s fd arg c = elim (Bool-cases (leb 20 fd)) [
  | inl out ↦ rw out c
  | inr in_range ↦ rw in_range (elim (Option-cases (filp_at s fd)) [
    | inl e ↦ rw e c
    | inr (f, e) ↦ rw e (dup_slot others s fd f arg c e)
  ])
]
