-- ===== src/Sync/ReadersWriters/Completion.antt =====
-- Every schedule comes to an end, and all threads to theirs.
use native.Mathlib.Nat.{suc-mul}
use std.Path.{subst}
use mathlib.Core.Option.{some-injective}
use dcl140_2023_nov.Prelude.{
  ℕ, zero, suc, ◌+◌, ◌-◌, ◌*◌, ◌≤◌, ◌<◌, ◌≡◌, ◌⊎◌, refl, inl, inr, Bool, true, false, Option, none,
  some, List, [], ◌∷◌, get_elem?, All, arith, ltb, if◌then◌else◌, >>=-eq-some,
}
use dcl140_2023_nov.Sync.Sums.{
  zero_or_pos, total, total-set, total_pos, total-append, All-set, All-get_elem?, All-append,
}
use dcl140_2023_nov.Sync.ReadersWriters.Defs.{
  Locks, Role, reader, writer, Pc, test, lock, unlock, ended, Thread, get_lock, release_lock,
  System, put, by_pc, step, fresh, readers, process_threads, all_threads, initial, Reach, start,
  next, num_readers,
}
use dcl140_2023_nov.Sync.ReadersWriters.Exclusion.{
  is_reading, is_writing, Agrees, AgreesWith, Reach-AgreesWith,
}

-- How many steps a thread has before it.
abbrev pub left_at : ℕ → Pc → ℕ → ℕ
left_at most test n = 3 * (most - n) + 1
left_at most lock n = 3 * (most - n)
left_at most unlock n = 3 * (most - n) - 1
left_at most ended n = 0

abbrev pub left : ℕ → Thread → ℕ
left most t = left_at most t.pc t.loop_count

abbrev pub BoundedAt : ℕ → Pc → ℕ → Type 0
BoundedAt most test n = n ≤ most
BoundedAt most lock n = n < most
BoundedAt most unlock n = n < most
BoundedAt most ended n = n ≡ most

abbrev pub Bounded : ℕ → Thread → Type 0
Bounded most t = BoundedAt most t.pc t.loop_count

abbrev pub HasEnded : ℕ → Thread → Type 0
HasEnded most t = (t.pc ≡ ended) × (t.loop_count ≡ most)

abbrev pub is_some : Option System → Bool
is_some none = false
is_some (some s) = true

-- A thread that can move whatever the locks are, and one that is at its lock.
abbrev pub is_ready : Thread → ℕ
is_ready t = elim t.pc [ test ↦ 1 | unlock ↦ 1 | _ ↦ 0 ]

abbrev pub is_asking : Thread → ℕ
is_asking t = elim t.pc [ lock ↦ 1 | _ ↦ 0 ]

get_lock-free :
    (u : Bool) (o : Role) (l : Locks) → Agrees u l 0 0 → (l' : Locks) × (get_lock u o l ≡ some l')
unfolding get_lock
get_lock-free true reader l a = (record l { reading = l.reading + 1 }, ground (arith, a))
get_lock-free true writer l a = (record l { writing = true }, ground (arith, a))
get_lock-free false reader l a = (record l { locked = true }, ground (arith, a))
get_lock-free false writer l a = (record l { locked = true }, ground (arith, a))

reading_ready : (t : Thread) → is_reading t ≤ is_ready t
reading_ready t = ground arith

writing_ready : (t : Thread) → is_writing t ≤ is_ready t
writing_ready t = ground arith

module _ (most : ℕ) (u : Bool) where
  abbrev pub Runs : System → Type 0
  Runs s = (i : ℕ) × (is_some (step most u i s) ≡ true)

  module _ (s : System) (i : ℕ) (t : Thread) (e : get_elem? s.threads i ≡ some t)
      (b : All (Bounded most) s.threads) where
    put-left :
        (q : Pc) (n : ℕ) (l : Locks)
        → left_at most q n + 1 ≡ left most t
        → BoundedAt most q n
        → (total (left most) (put i (record t { pc = q; loop_count = n }) l s).threads + 1
            ≡ total (left most) s.threads)
          × All (Bounded most) (put i (record t { pc = q; loop_count = n }) l s).threads
    put-left q n l x y = (
      omega (arith, total-set (left most) s.threads i t (record t { pc = q; loop_count = n }) e, x),
      All-set (Bounded most) s.threads i (record t { pc = q; loop_count = n }) b y,
    )

    abbrev StepsTo : System → Type 0
    StepsTo v =
        (total (left most) v.threads + 1 ≡ total (left most) s.threads)
        × All (Bounded most) v.threads

    bounded : Bounded most t
    bounded = All-get_elem? (Bounded most) s.threads i t b e

    by_pc-StepsTo : (p : Pc) {v : System} → t.pc ≡ p → by_pc most u i s t p ≡ some v → StepsTo v
    unfolding by_pc
    by_pc-StepsTo test f h =
        let k : t.loop_count ≤ most = ground (arith, bounded, f) in
        subst StepsTo (some-injective _ _ h) (
          put-left (if ltb t.loop_count most then lock else ended) t.loop_count s.locks
            (ground (arith, f, k)) (ground (arith, k)))
    by_pc-StepsTo lock f h =
        let k : t.loop_count < most = ground (arith, bounded, f) in
        let (l, g, m) = >>=-eq-some (get_lock u t.role s.locks) _ h in
        subst StepsTo (some-injective _ _ m)
          (put-left unlock t.loop_count l (ground (arith, f, k)) k)
    by_pc-StepsTo unlock f h =
        let k : t.loop_count < most = ground (arith, bounded, f) in
        subst StepsTo (some-injective _ _ h) (
          put-left test (t.loop_count + 1) (release_lock u s.locks) (ground (arith, f, k))
            (omega arith))
    by_pc-StepsTo ended f h = cc

    ready-Runs : 0 < is_ready t → Runs s
    unfolding step by_pc
    ready-Runs h = (i, ground (arith, e, h))

    asking-Runs : 0 < is_asking t → Agrees u s.locks 0 0 → Runs s
    unfolding step by_pc
    asking-Runs h a =
        let f : t.pc ≡ lock = ground (arith, h) in
        let (l, g) = get_lock-free u t.role s.locks a in (i, rw e (rw f (rw g refl)))

  -- A thread inside can move.
  reading-le-ready : (ts : List Thread) → total is_reading ts ≤ total is_ready ts
  unfolding total
  reading-le-ready [] = omega arith
  reading-le-ready (t ∷ ts) = omega (arith, reading-le-ready ts, reading_ready t)

  writing-le-ready : (ts : List Thread) → total is_writing ts ≤ total is_ready ts
  unfolding total
  writing-le-ready [] = omega arith
  writing-le-ready (t ∷ ts) = omega (arith, writing-le-ready ts, writing_ready t)

  All-ended :
      (ts : List Thread)
      → total is_ready ts ≡ 0
      → total is_asking ts ≡ 0
      → All (Bounded most) ts
      → All (HasEnded most) ts
  unfolding total
  All-ended [] r a b = tt
  All-ended (t ∷ ts) r a b =
      let x : is_ready t ≡ 0 = omega (arith, r) in
      let y : is_asking t ≡ 0 = omega (arith, a) in
      let h = b.0 in
      (ground (arith, x, y, h), All-ended ts (omega (arith, r)) (omega (arith, a)) b.1)

  Runs-or_ended :
      (s : System)
      → AgreesWith u s
      → All (Bounded most) s.threads
      → Runs s ⊎ All (HasEnded most) s.threads
  Runs-or_ended s a b = elim (zero_or_pos (total is_ready s.threads)) [
    | inr k ↦ let (i, t, e, p) = total_pos is_ready s.threads k in inl (ready-Runs s i t e b p)
    | inl z ↦ elim (zero_or_pos (total is_asking s.threads)) [
      | inl y ↦ inr (All-ended s.threads z y b)
      | inr k ↦
          let (i, t, e, p) = total_pos is_asking s.threads k in
          let r : total is_reading s.threads ≡ 0 = omega (arith, reading-le-ready s.threads, z) in
          let w : total is_writing s.threads ≡ 0 = omega (arith, writing-le-ready s.threads, z) in
          inl (asking-Runs s i t e b p (rw w at rw r at a))
    ]
  ]

  -- The steps of the threads at first.
  fresh-left : (r : Role) → left most (fresh r) ≡ 3 * most + 1
  fresh-left r = omega arith

  readers-left : (n : ℕ) → total (left most) (readers n) ≡ n * (3 * most + 1)
  unfolding readers total
  readers-left zero = omega arith
  readers-left (suc n) = omega (arith, readers-left n, suc-mul n (3 * most + 1))

  process-left : total (left most) process_threads ≡ 11 * (3 * most + 1)
  unfolding process_threads total
  process-left = omega (
    arith,
    total-append (left most) (readers num_readers) (fresh writer ∷ []),
    readers-left num_readers,
  )

  all-left : (n : ℕ) → total (left most) (all_threads n) ≡ n * (11 * (3 * most + 1))
  unfolding all_threads total
  all-left zero = omega arith
  all-left (suc n) = omega (
    arith,
    total-append (left most) process_threads (all_threads n),
    process-left,
    all-left n,
    suc-mul n (11 * (3 * most + 1)),
  )

  readers-Bounded : (n : ℕ) → All (Bounded most) (readers n)
  unfolding readers
  readers-Bounded zero = tt
  readers-Bounded (suc n) = (omega arith, readers-Bounded n)

  process-Bounded : All (Bounded most) process_threads
  unfolding process_threads
  process-Bounded =
      All-append (Bounded most) (readers num_readers) (fresh writer ∷ [])
        (readers-Bounded num_readers) (omega arith, tt)

  All-Bounded : (n : ℕ) → All (Bounded most) (all_threads n)
  unfolding all_threads
  All-Bounded zero = tt
  All-Bounded (suc n) =
      All-append (Bounded most) process_threads (all_threads n) process-Bounded (All-Bounded n)

  pub Reach-left :
      {p n : ℕ} {s : System}
      → Reach most p u n s
      → (n + total (left most) s.threads ≡ p * (11 * (3 * most + 1))) × All (Bounded most) s.threads
  unfolding step initial
  Reach-left {p} start = (omega (arith, all-left p), All-Bounded p)
  Reach-left (next {n} {s} i r h) =
      let (t, e, k) = >>=-eq-some (get_elem? s.threads i) _ h in
      let (a, b) = Reach-left r in
      let (c, d) = by_pc-StepsTo s i t e b t.pc refl k in (omega (arith, a, c), d)

-- Whatever the schedule, the steps that the readers and writers of some processes have made and
-- those before them are together 11 times three for each round and one, for each process; and some
-- thread can move, unless all have ended and made all their rounds.
pub Reach-completion :
    (most processes : ℕ) (u : Bool) {n : ℕ} {s : System}
    → Reach most processes u n s
    → (n + total (left most) s.threads ≡ processes * (11 * (3 * most + 1)))
      × (Runs most u s ⊎ All (HasEnded most) s.threads)
Reach-completion most processes u {n} {s} r =
    let (a, b) = Reach-left most u r in (a, Runs-or_ended most u s (Reach-AgreesWith most u r) b)
