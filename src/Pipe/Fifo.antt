-- ===== src/Pipe/Fifo.antt =====
-- The ring of a pipe against the list of bytes that it holds: pipewrite, piperead of srcs/pipe.c.
use mathlib.Core.List.{append_assoc, append-nil}
use os_project_mlfqschedulin.Base.{
  ℕ, zero, suc, ◌%◌, ◌^◌, ◌<◌, ◌≤◌, ◌≡◌, refl, sym, ap, subst, ◌∙◌, ◌≢◌, ◌⊎◌, inl, inr, Bool, true,
  false, ◌||◌, ◌&&◌, not, List, [], ◌∷◌, ◌++◌, arith, ◌==◌, if◌then◌else◌, Bool-cases, update, inc,
  length, length-append,
}
use os_project_mlfqschedulin.Pipe.{
  pipesize, Pipe, is_full, put, fill, Wrote, all_written, write_failed, write_sleeps,
  pipewrite_stop, pipewrite, take_byte, drain, Got, bytes, read_failed, read_sleeps, piperead,
}
use os_project_mlfqschedulin.Pipe.Counters.{
  after, after-zero, after-inc, inc-after, after-apart, full_lem, empty_lem,
}

-- From the counter `r` on the ring has the bytes `xs`.
abbrev pub Ring : (ℕ → ℕ) → ℕ → List ℕ → Type 0
Ring f r [] = Unit
Ring f r (x ∷ xs) = (f (r % pipesize) ≡ x) × Ring f (inc r) xs

-- The pipe holds `xs`, the next byte to read first.
pub record Contents (p : Pipe) (xs : List ℕ) : Type 0 where
  pub small : p.nread < 2 ^ 32
  pub few : length xs ≤ pipesize
  pub end : p.nwrite ≡ after p.nread (length xs)
  pub ring : Ring p.data_at p.nread xs

abbrev pub take : ℕ → List ℕ → List ℕ
take zero xs = []
take (suc n) [] = []
take (suc n) (x ∷ xs) = x ∷ take n xs

abbrev pub drop : ℕ → List ℕ → List ℕ
drop zero xs = xs
drop (suc n) [] = []
drop (suc n) (x ∷ xs) = drop n xs

Ring-put :
    (f : ℕ → ℕ) (r i b : ℕ) (xs : List ℕ)
    → r < 2 ^ 32
    → length xs < pipesize
    → i ≡ after r (length xs) % pipesize
    → Ring f r xs
    → Ring (update f i b) r (xs ++ b ∷ [])
Ring-put f r i b [] lt few e s =
    let at : (i == r % pipesize) ≡ true = ground (arith, after-zero r lt) in (rw at refl, tt)
Ring-put f r i b (x ∷ xs) lt few e s =
    let apart : (i == r % pipesize) ≡ false =
      rw e (after-apart r (suc (length xs)) lt (omega arith) (omega arith)) in
    let e' : i ≡ after (inc r) (length xs) % pipesize =
      e ∙ ap (λ (c : ℕ). c % pipesize) (sym (after-inc r (length xs))) in
    (rw apart s.0, Ring-put f (inc r) i b xs (omega arith) (omega arith) e' s.1)

pub put-Contents :
    (p : Pipe) (xs : List ℕ) (b : ℕ)
    → Contents p xs
    → length xs < pipesize
    → Contents (put b p) (xs ++ b ∷ [])
unfolding put
put-Contents p xs b h few =
    let e = length-append xs (b ∷ []) in
    record {
      small = h.small;
      few = omega arith;
      end = ap inc h.end ∙ inc-after p.nread (length xs) ∙ ap (after p.nread) (sym e);
      ring =
          Ring-put p.data_at p.nread _ b xs h.small few (ap (λ (c : ℕ). c % pipesize) h.end) h.ring;
    }

not_full : (p : Pipe) (xs : List ℕ) → Contents p xs → length xs < pipesize → is_full p ≡ false
not_full p xs h few =
    ap (λ (c : ℕ). c == after p.nread pipesize) h.end ∙ full_lem p.nread (length xs) h.small few

full : (p : Pipe) (xs : List ℕ) → Contents p xs → length xs ≡ pipesize → is_full p ≡ true
full p xs h e =
    let same : p.nwrite ≡ after p.nread pipesize = h.end ∙ ap (after p.nread) e in ground arith

-- What `fill` does: some bytes `ys` go in, and bytes are left only if the pipe is full.
pub record Filled (bs xs : List ℕ) (p : Pipe) (r : Pipe × List ℕ) : Type 0 where
  pub ys : List ℕ
  pub whole : ys ++ r.1 ≡ bs
  pub contents : Contents r.0 (xs ++ ys)
  pub stop : (r.1 ≡ []) ⊎ (length (xs ++ ys) ≡ pipesize)
  pub readopen : r.0.readopen ≡ p.readopen

put-readopen : (b : ℕ) (p : Pipe) → (put b p).readopen ≡ p.readopen
unfolding put
put-readopen b p = refl

fill-Filled : (bs xs : List ℕ) (p : Pipe) → Contents p xs → Filled bs xs p (fill bs p)
unfolding fill
fill-Filled [] xs p h = record {
  ys = [];
  whole = refl;
  contents = subst (Contents p) (sym (append-nil xs)) h;
  stop = inl refl;
  readopen = refl;
}
fill-Filled (b ∷ bs) xs p h = elim (Bool-cases (is_full p)) [
  | inl e ↦
      let few = h.few in
      let all : length xs ≡ pipesize = elim (Bool-cases (length xs == pipesize)) [
        | inl s ↦ ground arith
        | inr s ↦ absurd (ground (arith, not_full p xs h (ground arith)))
      ] in
      rw e (record {
        ys = [];
        whole = refl;
        contents = subst (Contents p) (sym (append-nil xs)) h;
        stop = inr (ap length (append-nil xs) ∙ all);
        readopen = refl;
      })
  | inr e ↦
      let few : length xs < pipesize = elim (Bool-cases (length xs == pipesize)) [
        | inl s ↦ absurd (ground (arith, full p xs h (ground arith)))
        | inr s ↦ let lim = h.few in ground arith
      ] in
      let w = fill-Filled bs (xs ++ b ∷ []) (put b p) (put-Contents p xs b h few) in
      let eq : (xs ++ b ∷ []) ++ w.ys ≡ xs ++ b ∷ w.ys = append_assoc xs (b ∷ []) w.ys in
      rw e (record {
        ys = b ∷ w.ys;
        whole = ap (λ zs. b ∷ zs) w.whole;
        contents = subst (Contents (fill bs (put b p)).0) eq w.contents;
        stop = subst (λ zs. ((fill bs (put b p)).1 ≡ []) ⊎ (length zs ≡ pipesize)) eq w.stop;
        readopen = w.readopen ∙ put-readopen b p;
      })
]

-- What pipewrite comes to: all bytes are behind those that the pipe held, or the first of them are,
-- the pipe is full, and the call fails or sleeps with the others.
pub data Writes (killed : Bool) (bs xs : List ℕ) (p : Pipe) (r : Pipe × Wrote) : Type 0 where
  writes_all :
      (p' : Pipe) → r ≡ (p', all_written) → Contents p' (xs ++ bs) → Writes killed bs xs p r
  writes_some :
      (p' : Pipe) (ys rest : List ℕ)
      → r ≡ (p', if not p.readopen || killed then write_failed else write_sleeps rest)
      → ys ++ rest ≡ bs
      → rest ≢ []
      → length (xs ++ ys) ≡ pipesize
      → Contents p' (xs ++ ys)
      → Writes killed bs xs p r

stop-Writes :
    (killed : Bool) (bs xs : List ℕ) (p : Pipe) (r : Pipe × List ℕ)
    → Filled bs xs p r
    → Writes killed bs xs p (pipewrite_stop killed r)
unfolding pipewrite_stop
stop-Writes killed bs xs p (q, []) w =
    let eq : w.ys ≡ bs = sym (append-nil w.ys) ∙ w.whole in
    writes_all q refl (subst (λ zs. Contents q (xs ++ zs)) eq w.contents)
stop-Writes killed bs xs p (q, b ∷ rest) w =
    writes_some q w.ys (b ∷ rest)
      (if-pair (not q.readopen || killed) q
        ∙ ap (λ (t : Bool). (q, if not t || killed then write_failed else write_sleeps (b ∷ rest)))
            w.readopen)
      w.whole (λ e. absurd cc) (elim w.stop [ inl e ↦ absurd cc | inr e ↦ e ]) w.contents
  where
    if-pair :
        (t : Bool) (q : Pipe)
        → ◌≡◌ {A = Pipe × Wrote}
            (if t then (q, write_failed) else (q, write_sleeps (b ∷ rest)))
            (q, if t then write_failed else write_sleeps (b ∷ rest))
    if-pair true q = refl
    if-pair false q = refl

-- On a pipe that holds `xs`, pipewrite up to its return or next sleep puts all its bytes behind `xs`
-- and succeeds, or fills the pipe with the first of them: it then fails if no reader is left or the
-- caller is marked, and otherwise sleeps with the rest. No byte is lost, changed or reordered.
pub pipewrite-Writes :
    (killed : Bool) (bs xs : List ℕ) (p : Pipe)
    → Contents p xs
    → Writes killed bs xs p (pipewrite killed bs p)
unfolding pipewrite
pipewrite-Writes killed bs xs p h = stop-Writes killed bs xs p (fill bs p) (fill-Filled bs xs p h)

-- What the copying loop of piperead does.
pub record Drained (n : ℕ) (xs : List ℕ) (r : Pipe × List ℕ) : Type 0 where
  pub got : r.1 ≡ take n xs
  pub contents : Contents r.0 (drop n xs)

take_byte-Contents :
    (p : Pipe) (x : ℕ) (xs : List ℕ) → Contents p (x ∷ xs) → Contents (take_byte p) xs
unfolding take_byte
take_byte-Contents p x xs h =
    let few = h.few in
    record {
      small = omega arith;
      few = omega arith;
      end = h.end ∙ sym (after-inc p.nread (length xs));
      ring = h.ring.1;
    }

drain-Drained : (n : ℕ) (xs : List ℕ) (p : Pipe) → Contents p xs → Drained n xs (drain n p)
unfolding drain
drain-Drained zero xs p h = record { got = refl; contents = h }
drain-Drained (suc n) [] p h =
    let e : (p.nread == p.nwrite) ≡ true =
      let end = h.end ∙ after-zero p.nread h.small in ground arith in
    rw e (record { got = refl; contents = h })
drain-Drained (suc n) (x ∷ xs) p h =
    let few = h.few in
    let e : (p.nread == p.nwrite) ≡ false =
      ap (λ (c : ℕ). p.nread == c) h.end
      ∙ empty_lem p.nread (suc (length xs)) h.small (omega arith) (omega arith) in
    let w = drain-Drained n xs (take_byte p) (take_byte-Contents p x xs h) in
    rw e (record { got = rw h.ring.0 (ap (λ zs. x ∷ zs) w.got); contents = w.contents })

-- What piperead comes to: the first `n` bytes are taken, or the pipe is empty and has a writer, and
-- the call fails or sleeps.
pub data Reads (killed : Bool) (n : ℕ) (xs : List ℕ) (p : Pipe) (r : Pipe × Got) : Type 0 where
  takes :
      (p' : Pipe)
      → r ≡ (p', bytes (take n xs))
      → Contents p' (drop n xs)
      → (xs ≢ []) ⊎ (p.writeopen ≡ false)
      → Reads killed n xs p r
  must_wait :
      r ≡ (p, if killed then read_failed else read_sleeps)
      → xs ≡ []
      → p.writeopen ≡ true
      → Reads killed n xs p r

is_empty : (p : Pipe) → Contents p [] → (p.nread == p.nwrite) ≡ true
is_empty p h = let end = h.end ∙ after-zero p.nread h.small in ground arith

not_empty : (p : Pipe) (x : ℕ) (xs : List ℕ) → Contents p (x ∷ xs) → (p.nread == p.nwrite) ≡ false
not_empty p x xs h =
    let few = h.few in
    ap (λ (c : ℕ). p.nread == c) h.end
    ∙ empty_lem p.nread (suc (length xs)) h.small (omega arith) (omega arith)

piperead-copy :
    (killed : Bool) (n : ℕ) (xs : List ℕ) (p : Pipe)
    → Contents p xs
    → ((p.nread == p.nwrite) && p.writeopen) ≡ false
    → (p' : Pipe) × (piperead killed n p ≡ (p', bytes (take n xs))) × Contents p' (drop n xs)
unfolding piperead
piperead-copy killed n xs p h e =
    let w = drain-Drained n xs p h in
    ((drain n p).0, rw e (ap (λ ys. ((drain n p).0, bytes ys)) w.got), w.contents)

piperead-wait :
    (killed : Bool) (n : ℕ) (p : Pipe)
    → ((p.nread == p.nwrite) && p.writeopen) ≡ true
    → piperead killed n p ≡ (p, if killed then read_failed else read_sleeps)
unfolding piperead
piperead-wait true n p e = rw e refl
piperead-wait false n p e = rw e refl

-- On a pipe that holds `xs`, piperead up to its return or next sleep returns the first `n` bytes of
-- `xs`, in order, and leaves the others; only if the pipe is empty and a writer is left it takes
-- nothing, and fails if the caller is marked or sleeps if not.
pub piperead-Reads :
    (killed : Bool) (n : ℕ) (xs : List ℕ) (p : Pipe)
    → Contents p xs
    → Reads killed n xs p (piperead killed n p)
piperead-Reads killed n (x ∷ xs) p h =
    let e : ((p.nread == p.nwrite) && p.writeopen) ≡ false = rw (not_empty p x xs h) refl in
    let (p', run, h') = piperead-copy killed n (x ∷ xs) p h e in
    takes p' run h' (inl (λ e. absurd cc))
piperead-Reads killed n [] p h = elim (Bool-cases p.writeopen) [
  | inl o ↦ must_wait (piperead-wait killed n p (rw (is_empty p h, o) refl)) refl o
  | inr o ↦
      let (p', run, h') = piperead-copy killed n [] p h (rw (is_empty p h, o) refl) in
      takes p' run h' (inr o)
]

take_all : (xs : List ℕ) → take (length xs) xs ≡ xs
take_all [] = refl
take_all (x ∷ xs) = ap (λ zs. x ∷ zs) (take_all xs)

fits : (ys rest : List ℕ) → length (ys ++ rest) ≤ pipesize → length ys ≡ pipesize → rest ≡ []
fits ys [] le e = refl
fits ys (b ∷ rest) le e = let l = length-append ys (b ∷ rest) in absurd (omega arith)

-- Bytes that fit are written to an empty pipe in one call, by any caller, and a call of piperead for
-- as many bytes then returns exactly them.
pipe-roundtrip :
    (killed : Bool) (bs : List ℕ) (p : Pipe)
    → Contents p []
    → length bs ≤ pipesize
    → 0 < length bs
    → (p' : Pipe) × (p'' : Pipe) × (pipewrite killed bs p ≡ (p', all_written))
      × (piperead killed (length bs) p' ≡ (p'', bytes bs))
pipe-roundtrip killed bs p h le some_bytes = elim (pipewrite-Writes killed bs [] p h) [
  | writes_all p' run w ↦ elim (piperead-Reads killed (length bs) bs p' w) [
    | takes p'' read left why ↦ (p', p'', run, read ∙ ap (λ ys. (p'', bytes ys)) (take_all bs))
    | must_wait read no_bytes writer ↦
        let zero_length : length bs ≡ 0 = ap length no_bytes in absurd (omega arith)
  ]
  | writes_some p' ys rest run whole more is_full' w ↦
      absurd (more (fits ys rest (subst (λ zs. length zs ≤ pipesize) (sym whole) le) is_full'))
]
