-- ===== src/Ipc/Pipe/Ring.antt =====
-- The byte ring of a pipe against the queue of the bytes that it holds.
use Prim.Native.Nat.{min}
use theory_os.Base.{
  ℕ, zero, suc, ◌+◌, ◌-◌, ◌%◌, ◌≤◌, ◌<◌, ◌≡◌, ◌≢◌, refl, ap, ◌∙◌, sym, List, [], ◌∷◌, ◌++◌, arith,
  append-nil, append_assoc, ltb, leb, length, length-set, get_or, get_or-set_self, get_or-set_ne,
  set, take, drop, take-nil, length-replicate, Bool-cases, inl, inr,
}
use theory_os.Ipc.Pipe.{PipeInner, pipe_buf, new_inner, put, drop_head, write_once, read_once}
use mathlib.Core.Path.{ap₂}

-- Indices in range, and the three cursors in step.
pub record IsValid (p : PipeInner) : Type 0 where
  pub storage : length p.buf ≡ 4096
  pub head_in : p.head < 4096
  pub len_in : p.len ≤ 4096
  pub in_step : p.tail ≡ (p.head + p.len) % 4096

-- The `n` bytes from position `h` on, going round.
abbrev pub window : List ℕ → ℕ → ℕ → List ℕ
window buf h zero = []
window buf h (suc n) = get_or buf (h % 4096) 0 ∷ window buf (suc h) n

-- The bytes in the pipe, oldest first.
abbrev pub contents : PipeInner → List ℕ
contents p = window p.buf p.head p.len

length-window : (buf : List ℕ) (h n : ℕ) → length (window buf h n) ≡ n
length-window buf h zero = refl
length-window buf h (suc n) = ap suc (length-window buf (suc h) n)

pub length-contents : (p : PipeInner) → length (contents p) ≡ p.len
length-contents p = length-window p.buf p.head p.len

window-mod : (buf : List ℕ) (h k n : ℕ) → h % 4096 ≡ k % 4096 → window buf h n ≡ window buf k n
window-mod buf h k zero e = refl
window-mod buf h k (suc n) e =
    ap₂ ◌∷◌ (ap (λ i. get_or buf i 0) e) (window-mod buf (suc h) (suc k) n (omega arith))

-- A write just past a window extends it.
window-set :
    (buf : List ℕ) (h n i x : ℕ)
    → length buf ≡ 4096
    → n < 4096
    → i ≡ (h + n) % 4096
    → window (set buf i x) h (suc n) ≡ window buf h n ++ (x ∷ [])
window-set buf h zero i x s lt e =
    let at : h % 4096 ≡ i = omega arith in
    ap (λ v. v ∷ [])
      (ap (λ j. get_or (set buf i x) j 0) at ∙ get_or-set_self buf i x 0 (omega arith))
window-set buf h (suc n) i x s lt e =
    ap₂ ◌∷◌ (get_or-set_ne buf i (h % 4096) x 0 (omega arith))
      (window-set buf (suc h) n i x s (omega arith) (omega arith))

window-pred :
    (buf : List ℕ) (h n : ℕ)
    → n ≢ 0
    → window buf h n ≡ get_or buf (h % 4096) 0 ∷ window buf (suc h) (n - 1)
window-pred buf h zero ne = absurd (ne refl)
window-pred buf h (suc n) ne = let e : suc n - 1 ≡ n = omega arith in rw e

put-IsValid : (p : PipeInner) (x : ℕ) → IsValid p → p.len < 4096 → IsValid (put p x)
put-IsValid p x v lt = ground (arith, length-set p.buf p.tail x)

contents-put :
    (p : PipeInner) (x : ℕ) → IsValid p → p.len < 4096 → contents (put p x) ≡ contents p ++ (x ∷ [])
contents-put p x v lt =
    let e : p.len + 1 ≡ suc p.len = omega arith in
    rw e (window-set p.buf p.head p.len p.tail x v.storage lt v.in_step)

drop_head-IsValid : (p : PipeInner) → IsValid p → 0 < p.len → IsValid (drop_head p)
drop_head-IsValid p v lt = omega arith

contents-drop_head :
    (p : PipeInner)
    → IsValid p
    → 0 < p.len
    → contents p ≡ get_or p.buf p.head 0 ∷ contents (drop_head p)
contents-drop_head p v lt =
    let at : p.head % 4096 ≡ p.head = omega arith in
    window-pred p.buf p.head p.len (omega arith)
    ∙ ap₂ ◌∷◌ (ap (λ j. get_or p.buf j 0) at)
        (window-mod p.buf (suc p.head) ((p.head + 1) % 4096) (p.len - 1) (omega arith))

contents-empty : (p : PipeInner) → p.len ≡ 0 → contents p ≡ []
contents-empty p e = ap (λ n. window p.buf p.head n) e

-- The reference counts and the wait queues are those of before.
pub record SameEnds (p p' : PipeInner) : Type 0 where
  pub read_refs : p'.read_refs ≡ p.read_refs
  pub write_refs : p'.write_refs ≡ p.write_refs
  pub read_waiters : p'.read_waiters ≡ p.read_waiters
  pub write_waiters : p'.write_waiters ≡ p.write_waiters

-- What `write_once` has done, started with `written` bytes counted.
pub record Wrote (p : PipeInner) (bytes : List ℕ) (written : ℕ) (out : ℕ × PipeInner) : Type 0 where
  pub valid : IsValid out.1
  pub count : out.0 ≡ written + min (length bytes) (4096 - p.len)
  pub stored : contents out.1 ≡ contents p ++ take (4096 - p.len) bytes
  pub level : out.1.len ≡ p.len + min (length bytes) (4096 - p.len)
  pub ends : SameEnds p out.1

take-pos : (n x : ℕ) (xs : List ℕ) → 0 < n → take n (x ∷ xs) ≡ x ∷ take (n - 1) xs
take-pos zero x xs h = absurd (omega arith)
take-pos (suc n) x xs h = let e : suc n - 1 ≡ n = omega arith in rw e

pub write_once_lem :
    (bytes : List ℕ) (p : PipeInner) (written : ℕ)
    → IsValid p
    → Wrote p bytes written (write_once p bytes written)
unfolding write_once
write_once_lem [] p written v = record {
  valid = v;
  count = omega arith;
  stored = rw (take-nil, append-nil);
  level = omega arith;
  ends = record { read_refs = refl; write_refs = refl; read_waiters = refl; write_waiters = refl };
}
write_once_lem (x ∷ xs) p written v = elim (Bool-cases (leb pipe_buf p.len)) [
  | inl full ↦ rw full (record {
    valid = v;
    count = ground arith;
    stored =
        let none_left : 4096 - p.len ≡ 0 = ground arith in
        rw (ap (λ k. take k (x ∷ xs)) none_left, append-nil);
    level = ground arith;
    ends = record {
      read_refs = refl;
      write_refs = refl;
      read_waiters = refl;
      write_waiters = refl;
    };
  })
  | inr room ↦
      let lt : p.len < 4096 = ground arith in
      let rest : Wrote (put p x) xs (written + 1) (write_once (put p x) xs (written + 1)) =
        write_once_lem xs (put p x) (written + 1) (put-IsValid p x v lt) in
      rw room (record {
        valid = rest.valid;
        count = omega (arith, rest.count);
        stored =
            rest.stored
            ∙ ap (λ l. l ++ take (4096 - (p.len + 1)) xs) (contents-put p x v lt)
            ∙ append_assoc (contents p) (x ∷ []) (take (4096 - (p.len + 1)) xs)
            ∙ ap (λ l. contents p ++ l)
                (ap (λ k. x ∷ take k xs) (omega arith)
                  ∙ sym (take-pos (4096 - p.len) x xs (omega arith)));
        level = omega (arith, rest.level);
        ends = record {
          read_refs = rest.ends.read_refs;
          write_refs = rest.ends.write_refs;
          read_waiters = rest.ends.read_waiters;
          write_waiters = rest.ends.write_waiters;
        };
      })
]

-- What `read_once` has done with room for `room` bytes.
pub record Took (p : PipeInner) (room : ℕ) (out : List ℕ × PipeInner) : Type 0 where
  pub valid : IsValid out.1
  pub bytes : out.0 ≡ take room (contents p)
  pub rest : contents out.1 ≡ drop room (contents p)
  pub ends : SameEnds p out.1

pub read_once_lem : (room : ℕ) (p : PipeInner) → IsValid p → Took p room (read_once p room)
unfolding read_once
read_once_lem zero p v = record {
  valid = v;
  bytes = refl;
  rest = refl;
  ends = record { read_refs = refl; write_refs = refl; read_waiters = refl; write_waiters = refl };
}
read_once_lem (suc room) p v = elim (Bool-cases (ltb 0 p.len)) [
  | inl some_left ↦
      let lt : 0 < p.len = ground arith in
      let rest : Took (drop_head p) room (read_once (drop_head p) room) =
        read_once_lem room (drop_head p) (drop_head-IsValid p v lt) in
      let split : contents p ≡ get_or p.buf p.head 0 ∷ contents (drop_head p) =
        contents-drop_head p v lt in
      rw some_left (record {
        valid = rest.valid;
        bytes = rw split (ap (λ l. get_or p.buf p.head 0 ∷ l) rest.bytes);
        rest = rw split rest.rest;
        ends = record {
          read_refs = rest.ends.read_refs;
          write_refs = rest.ends.write_refs;
          read_waiters = rest.ends.read_waiters;
          write_waiters = rest.ends.write_waiters;
        };
      })
  | inr empty ↦
      let nothing : contents p ≡ [] = contents-empty p (ground arith) in
      rw empty (record {
        valid = v;
        bytes = rw nothing;
        rest = nothing ∙ ap (λ l. drop (suc room) l) (sym nothing);
        ends = record {
          read_refs = refl;
          write_refs = refl;
          read_waiters = refl;
          write_waiters = refl;
        };
      })
]

-- A new pipe is empty and well formed.
pub new_inner-IsValid : IsValid new_inner
unfolding new_inner
new_inner-IsValid = record {
  storage = length-replicate {A = ℕ} 4096 0;
  head_in = omega arith;
  len_in = omega arith;
  in_step = omega arith;
}
