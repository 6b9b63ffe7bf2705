-- ===== src/BoundedBuffer/Safety.antt =====
-- What the semaphores and the mutex of 4.semaphore/demo.c guard: the order of the items, the unread
-- slots, and the access of the buffer.
use learn_c.Common.{
  ℕ, zero, suc, ◌+◌, ◌-◌, ◌%◌, ◌≤◌, ◌<◌, ◌≡◌, List, [], ◌∷◌, ◌++◌, arith, append-nil, append_assoc,
}
use learn_c.BoundedBuffer.{Owner, nobody, by_producer, by_consumer, State, Execution, buffer_size}
use learn_c.BoundedBuffer.Counts.{accesses, producer_has, consumer_has, inside, upto}
use learn_c.BoundedBuffer.Invariant.{Execution-Inv}

-- So many items, from the given slot of the ring on.
abbrev pub contents : (ℕ → ℕ) → ℕ → ℕ → List ℕ
contents buffer at zero = []
contents buffer at (suc n) = buffer at ∷ contents buffer ((at + 1) % buffer_size) n

append-contents :
    (buffer : ℕ → ℕ) (n c : ℕ)
    → ((k : ℕ) → c ≤ k → k < c + n → buffer (k % 5) ≡ k)
    → upto c ++ contents buffer (c % 5) n ≡ upto (c + n)
append-contents buffer zero c h = let e : c + 0 ≡ c = omega arith in rw (e, append-nil)
append-contents buffer (suc n) c h =
    let e : c + suc n ≡ suc c + n = omega arith in
    let m : (c % 5 + 1) % 5 ≡ suc c % 5 = omega arith in
    let first : buffer (c % 5) ≡ c = h c (omega arith) (omega arith) in
    let rest = append-contents buffer n (suc c) (λ k a b. h k (omega arith) (omega arith)) in
    rw (e, ← rest, m, first, append_assoc)

-- In every state that a run reaches, the items consumed and then those in the ring, from slot `out`
-- on, are the numbers that the producer has written, from 0 on in order; and there are at most five
-- of them in the ring.
pub Execution-contents :
    {n : ℕ} {s : State}
    → Execution n s
    → (s.consumed ++ contents s.buffer s.out (accesses s.prod - accesses s.cons)
        ≡ upto (accesses s.prod))
      × (accesses s.cons ≤ accesses s.prod)
      × (accesses s.prod ≤ accesses s.cons + 5)
Execution-contents {s = s} r =
    let v = Execution-Inv r in
    let le : accesses s.cons ≤ accesses s.prod = omega (arith, v.items) in
    let n = accesses s.prod - accesses s.cons in
    let e : accesses s.prod ≡ accesses s.cons + (accesses s.prod - accesses s.cons) = omega arith in
    let full = append-contents s.buffer n (accesses s.cons) (λ k a b. v.kept k a (omega arith)) in
    (rw (v.read, v.out_at, full, ← e), le, omega (arith, v.items, v.slots))

one_owner : (m : Owner) → producer_has m + consumer_has m ≤ 1
one_owner nobody = omega arith
one_owner by_producer = omega arith
one_owner by_consumer = omega arith

-- In every state that a run reaches, the two threads are not both between the lock and the unlock.
pub Execution-inside : {n : ℕ} {s : State} → Execution n s → inside s.prod + inside s.cons ≤ 1
Execution-inside {s = s} r =
    let v = Execution-Inv r in omega (arith, one_owner s.mutex, v.prod_mutex, v.cons_mutex)
