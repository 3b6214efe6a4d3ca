-- ===== src/Pipe/Ring.antt =====
-- The bytes that a pipe holds, and what a round of reading or writing does to them.
use linux.Prelude.{
  ℕ, zero, suc, ◌+◌, ◌-◌, ◌%◌, ◌≤◌, ◌<◌, ◌≡◌, ◌≢◌, refl, ap, ap₂, subst, ◌∙◌, sym, List, [], ◌∷◌,
  ◌++◌, get_or, set, length, take, length-set, length-take, get_or-set_self, get_or-set_ne, arith,
}
use linux.Pipe.{
  Pipe, page_size, pipe_size, pipe_room, copy_out, copy_in, chars, read_chunk, write_chunk,
}

-- n bytes of the page from index i on, going round at its end.
abbrev pub window : List ℕ → ℕ → ℕ → List ℕ
window b i zero = []
window b i (suc n) = get_or b i 0 ∷ window b ((i + 1) % page_size) n

-- What a reader will get, oldest first.
abbrev pub contents : Pipe → List ℕ
contents p = window p.buf p.tail (pipe_size p)

pub record IsValid (p : Pipe) : Type 0 where
  pub full_page : length p.buf ≡ page_size
  pub head_in : p.head < page_size
  pub tail_in : p.tail < page_size

pub length-window : (b : List ℕ) (i n : ℕ) → length (window b i n) ≡ n
length-window b i zero = refl
length-window b i (suc n) = ap suc (length-window b ((i + 1) % page_size) n)

window-add :
    (b : List ℕ) (i m n j k : ℕ)
    → i < page_size
    → j ≡ (i + m) % page_size
    → k ≡ m + n
    → window b i k ≡ window b i m ++ window b j n
window-add b i zero n j k h e s =
    let p : j ≡ i = omega arith in let q : k ≡ n = omega arith in rw (p, q)
window-add b i (suc m) n j zero h e s = absurd (omega arith)
window-add b i (suc m) n j (suc k) h e s =
    ap (λ r. get_or b i 0 ∷ r)
      (window-add b ((i + 1) % page_size) m n j k (omega arith) (omega arith) (omega arith))

-- Up to the end of the page the window is a plain copy.
copy_out-eq-window : (b : List ℕ) (i n : ℕ) → i + n ≤ page_size → copy_out b i n ≡ window b i n
unfolding copy_out
copy_out-eq-window b i zero h = refl
copy_out-eq-window b i (suc zero) h = refl
copy_out-eq-window b i (suc (suc n)) h =
    let e : (i + 1) % page_size ≡ i + 1 = omega arith in
    ap (λ r. get_or b i 0 ∷ r)
      (copy_out-eq-window b (i + 1) (suc n) (omega arith) ∙ ap (λ k. window b k (suc n)) (sym e))

-- A round of reading takes the oldest bytes, at least one.
pub record IsChunk (count : ℕ) (p : Pipe) (bytes : List ℕ) (p' : Pipe) : Type 0 where
  pub some_bytes : 0 < length bytes
  pub enough : length bytes ≤ count
  pub taken : contents p ≡ bytes ++ contents p'
  pub valid : IsValid p'
  pub same_count : p'.i_count ≡ p.i_count

pub read_chunk-IsChunk :
    (count : ℕ) (p : Pipe)
    → IsValid p
    → 0 < count
    → 0 < pipe_size p
    → IsChunk count p (read_chunk count p).0 (read_chunk count p).1
unfolding read_chunk
read_chunk-IsChunk count p v hc hs =
    let n = chars p.tail count (pipe_size p) in
    let e = copy_out-eq-window p.buf p.tail n (omega arith) in
    let l : length (copy_out p.buf p.tail n) ≡ n = ap length e ∙ length-window p.buf p.tail n in
    record {
      some_bytes = omega (arith, l);
      enough = omega (arith, l);
      taken = rw e (
          window-add p.buf p.tail n _ ((p.tail + n) % page_size) (pipe_size p) v.tail_in refl
            (omega arith));
      valid = record { full_page = v.full_page; head_in = v.head_in; tail_in = omega arith };
      same_count = refl;
    }

-- Writing past a window leaves it alone.
window-set :
    (b : List ℕ) (i n k v : ℕ)
    → i < page_size
    → ((d : ℕ) → d < n → (i + d) % page_size ≢ k)
    → window (set b k v) i n ≡ window b i n
window-set b i zero k v h ne = refl
window-set b i (suc n) k v h ne =
    ap₂ ◌∷◌ (get_or-set_ne b k i v 0 (λ e. ne 0 (omega arith) (omega arith))) (
      window-set b ((i + 1) % page_size) n k v (omega arith)
        (λ d l. λ e. ne (d + 1) (omega arith) (omega arith)))

window-copy_in :
    (b : List ℕ) (i n k : ℕ) (xs : List ℕ)
    → i < page_size
    → k + length xs ≤ page_size
    → ((d e : ℕ) → d < n → e < length xs → (i + d) % page_size ≢ k + e)
    → window (copy_in b k xs) i n ≡ window b i n
unfolding copy_in
window-copy_in b i n k [] h l ne = refl
window-copy_in b i n k (x ∷ xs) h l ne =
    window-copy_in (set b k x) i n (k + 1) xs h (omega arith)
      (λ d e p q r. ne d (e + 1) p (omega arith) (omega arith))
    ∙ window-set b i n k x h (λ d p r. ne d 0 p (omega arith) (omega arith))

length-copy_in : (b : List ℕ) (k : ℕ) (xs : List ℕ) → length (copy_in b k xs) ≡ length b
unfolding copy_in
length-copy_in b k [] = refl
length-copy_in b k (x ∷ xs) = length-copy_in (set b k x) (k + 1) xs ∙ length-set b k x

get_or-copy_in_before :
    (b : List ℕ) (k : ℕ) (xs : List ℕ) (j : ℕ) → j < k → get_or (copy_in b k xs) j 0 ≡ get_or b j 0
unfolding copy_in
get_or-copy_in_before b k [] j h = refl
get_or-copy_in_before b k (x ∷ xs) j h =
    get_or-copy_in_before (set b k x) (k + 1) xs j (omega arith)
    ∙ get_or-set_ne b k j x 0 (λ e. absurd (omega arith))

-- What was written is the window that starts there.
copy_in-eq-window :
    (b : List ℕ) (k : ℕ) (xs : List ℕ)
    → length b ≡ page_size
    → k + length xs ≤ page_size
    → window (copy_in b k xs) k (length xs) ≡ xs
unfolding copy_in
copy_in-eq-window b k [] e h = refl
copy_in-eq-window b k (x ∷ []) e h = ap (λ y. y ∷ []) (get_or-set_self b k x 0 (omega arith))
copy_in-eq-window b k (x ∷ y ∷ ys) e h =
    let m : (k + 1) % page_size ≡ k + 1 = omega arith in
    ap₂ ◌∷◌
      (get_or-copy_in_before (set b k x) (k + 1) (y ∷ ys) k (omega arith)
        ∙ get_or-set_self b k x 0 (omega arith))
      (rw m (copy_in-eq-window (set b k x) (k + 1) (y ∷ ys) (length-set b k x ∙ e) (omega arith)))

-- A round of writing appends the first bytes, at least one.
pub record IsAppended (xs : List ℕ) (p : Pipe) (n : ℕ) (p' : Pipe) : Type 0 where
  pub some_bytes : 0 < n
  pub enough : n ≤ length xs
  pub appended : contents p' ≡ contents p ++ take n xs
  pub valid : IsValid p'
  pub same_count : p'.i_count ≡ p.i_count

contents-copy_in :
    (xs : List ℕ) (p : Pipe) (n : ℕ)
    → IsValid p
    → p.head + n ≤ page_size
    → n ≤ pipe_room p
    → length (take n xs) ≡ n
    → contents
        (record p { buf = copy_in p.buf p.head (take n xs); head = (p.head + n) % page_size })
      ≡ contents p ++ take n xs
contents-copy_in xs p n v h r l =
    let b = copy_in p.buf p.head (take n xs) in
    let s = pipe_size p in
    let k = ((p.head + n) % page_size + 65536 - p.tail) % page_size in
    let old : window b p.tail s ≡ window p.buf p.tail s =
      window-copy_in p.buf p.tail s p.head (take n xs) v.tail_in (omega arith)
        (λ d e dl el q. absurd (omega arith)) in
    let new : window b p.head n ≡ take n xs =
      subst (λ m. window b p.head m ≡ take n xs) l
        (copy_in-eq-window p.buf p.head (take n xs) v.full_page (omega arith)) in
    window-add b p.tail s n p.head k v.tail_in (omega arith) (omega arith) ∙ ap₂ ◌++◌ old new

pub write_chunk-IsAppended :
    (xs : List ℕ) (p : Pipe)
    → IsValid p
    → 0 < length xs
    → 0 < pipe_room p
    → IsAppended xs p (write_chunk xs p).0 (write_chunk xs p).1
unfolding write_chunk
write_chunk-IsAppended xs p v hc hs =
    let n = chars p.head (length xs) (pipe_room p) in
    let l : length (take n xs) ≡ n = length-take n xs ∙ omega arith in
    let b = copy_in p.buf p.head (take n xs) in
    record {
      some_bytes = omega arith;
      enough = omega arith;
      appended = contents-copy_in xs p n v (omega arith) (omega arith) l;
      valid = record {
        full_page = length-copy_in p.buf p.head (take n xs) ∙ v.full_page;
        head_in = omega arith;
        tail_in = v.tail_in;
      };
      same_count = refl;
    }
