-- ===== src/ThreadPool/Wakeup.antt =====
-- `pool_destroy` of 1.thread_pool.c sets `shutdown` and broadcasts without the mutex.

use learn_c.Common.{
  ℕ, ◌<◌, ◌≡◌, inl, inr, refl, true, false, none, some, List, [], ◌∷◌, arith, ◌==◌, update,
  Bool-cases, ap, ◌∙◌,
}
use learn_c.ThreadPool.{
  Pc, start, locked, to_wait, waiting, passed, joining, Pool, pool_init, thread_routine, take_head,
  destroy_begin, destroy_broadcast, Step, thread, add, signal, signal_lost, destroy, broadcast,
  joined, Reach, initial, later,
}

pub data Steps (n : ℕ) (s : Pool) : Pool → Type 0 where
  here : Steps n s s
  next : {t u : Pool} → Steps n s t → Step n t u → Steps n s u

-- The main thread waits for the threads to end, and thread 0 waits to be woken.
pub record IsHung (s : Pool) : Type 0 where
  pub joins : s.main ≡ joining
  pub waits : s.pcs 0 ≡ waiting

-- A step of thread `i` moves neither another thread nor the main one.
module _ (i j : ℕ) (s : Pool) (ne : (j == i) ≡ false) where
  abbrev Untouched : Pool → Type 0
  Untouched t = (t.main ≡ s.main) × (t.pcs j ≡ s.pcs j)

  take_head-Untouched : (qs : List ℕ) → Untouched (take_head i s qs)
  unfolding take_head
  take_head-Untouched [] = ground arith
  take_head-Untouched (t ∷ rest) = ground arith

  routine-Untouched : {t : Pool} (p : Pc) → thread_routine i s p ≡ some t → Untouched t
  unfolding thread_routine
  routine-Untouched start h = ground arith
  routine-Untouched passed h = ground (arith, take_head-Untouched s.queue)
  routine-Untouched p h = ground arith

waiting-blocked :
    (i : ℕ) (s : Pool) {t : Pool} (p : Pc) → p ≡ waiting → thread_routine i s p ≡ some t → ⊥
unfolding thread_routine
waiting-blocked i s waiting e h = cc
waiting-blocked i s p e h = cc

Step-IsHung : {n : ℕ} {s t : Pool} → 0 < n → Step n s t → IsHung s → IsHung t
Step-IsHung {s} lt (thread i il h) u = elim (Bool-cases (0 == i)) [
  | inl same ↦
      let at : i ≡ 0 = ground arith in
      absurd (waiting-blocked i s (s.pcs i) (ap s.pcs at ∙ u.waits) h)
  | inr other ↦ let (m, p) = routine-Untouched i 0 s other (s.pcs i) h in ground arith
]
Step-IsHung lt (add task at free) u = absurd (ground arith)
Step-IsHung lt (signal i at w) u = absurd (ground arith)
Step-IsHung lt (signal_lost at all) u = absurd (ground arith)
Step-IsHung lt (destroy at h) u = absurd (ground arith)
Step-IsHung lt (broadcast at) u = absurd (ground arith)
Step-IsHung lt (joined at all) u = absurd (ground (arith, all 0))

Steps-IsHung : {n : ℕ} {s t : Pool} → 0 < n → Steps n s t → IsHung s → IsHung t
Steps-IsHung lt here u = u
Steps-IsHung lt (next r st) u = Step-IsHung lt st (Steps-IsHung lt r u)

-- Thread 0 finds the queue empty and no shutdown, and is held up just before `pthread_cond_wait`.
abbrev at_the_wait : Pool
at_the_wait = record pool_init {
  owner = some 0;
  pcs = update (update (λ _. start) 0 locked) 0 to_wait;
}

-- Then `pool_destroy` runs up to the joins, and only now thread 0 waits.
abbrev pub overslept : Pool
overslept = record (destroy_broadcast (record at_the_wait { shutdown = true })) {
  owner = none;
  pcs = update (destroy_broadcast (record at_the_wait { shutdown = true })).pcs 0 waiting;
}

overslept-Reach : (n : ℕ) → 0 < n → Reach n overslept
unfolding pool_init thread_routine destroy_begin destroy_broadcast
overslept-Reach n lt =
    later
      (later
        (later (later (later initial (thread 0 lt refl)) (thread 0 lt refl)) (destroy refl refl))
        (broadcast refl))
      (thread 0 lt refl)

-- A pool of one or more threads can reach a state in which `pool_destroy` has broadcast and waits for
-- the threads to end, and from which every sequence of steps, as long as `pthread_cond_wait` does not
-- return by itself, leaves the main thread in the joins and thread 0 asleep: the wake-up is lost, and
-- `pool_destroy` does not return.
pub lost_wakeup :
    (n : ℕ) → 0 < n → (s : Pool) × Reach n s × IsHung s × ((t : Pool) → Steps n s t → IsHung t)
unfolding destroy_broadcast
lost_wakeup n lt =
    let hung : IsHung overslept = record { joins = refl; waits = refl } in
    (overslept, overslept-Reach n lt, hung, λ t r. Steps-IsHung lt r hung)
