-- ===== src/Sync/ReadersWriters/Exclusion.antt =====
-- Who is inside at the same time.
use std.Path.{subst}
use mathlib.Core.Option.{some-injective}
use dcl140_2023_nov.Prelude.{
  ℕ, zero, suc, ◌+◌, ◌≤◌, ◌≡◌, ◌⊎◌, refl, inl, ap, sym, ◌∙◌, Bool, true, false, some, [], ◌∷◌,
  get_elem?, set, arith, ltb, if◌then◌else◌, >>=-eq-some,
}
use dcl140_2023_nov.Sync.Sums.{total, total-set, total-append}
use dcl140_2023_nov.Sync.ReadersWriters.Defs.{
  Locks, Role, reader, writer, Pc, test, lock, unlock, ended, Thread, get_lock, release_lock,
  System, put, by_pc, step, fresh, readers, process_threads, all_threads, initial, Reach, start,
  next, num_readers,
}

-- Whether a thread is between its lock and its unlock, as a reader or as a writer.
abbrev pub inside : Pc → ℕ
inside unlock = 1
inside _ = 0

abbrev pub as_reader : Role → Pc → ℕ
as_reader reader p = inside p
as_reader writer p = 0

abbrev pub as_writer : Role → Pc → ℕ
as_writer reader p = 0
as_writer writer p = inside p

abbrev pub is_reading : Thread → ℕ
is_reading t = as_reader t.role t.pc

abbrev pub is_writing : Thread → ℕ
is_writing t = as_writer t.role t.pc

abbrev pub bit : Bool → ℕ
bit true = 1
bit false = 0

-- The locks are as those inside have left them.
abbrev pub Agrees : Bool → Locks → ℕ → ℕ → Type 0
Agrees true l r w = (l.reading ≡ r) × (bit l.writing ≡ w) × ((w ≡ 0) ⊎ (r ≡ 0))
Agrees false l r w = bit l.locked ≡ r + w

abbrev pub AgreesWith : Bool → System → Type 0
AgreesWith u s = Agrees u s.locks (total is_reading s.threads) (total is_writing s.threads)

as_reader_out : (o : Role) (p : Pc) → inside p ≡ 0 → as_reader o p ≡ 0
as_reader_out reader p h = h
as_reader_out writer p h = refl

as_writer_out : (o : Role) (p : Pc) → inside p ≡ 0 → as_writer o p ≡ 0
as_writer_out reader p h = refl
as_writer_out writer p h = h

-- A lock taken, by what the sums of those inside become.
get_lock-Agrees :
    (u : Bool) (o : Role) (l l' : Locks) (r w r' w' : ℕ)
    → Agrees u l r w
    → get_lock u o l ≡ some l'
    → r' ≡ r + as_reader o unlock
    → w' ≡ w + as_writer o unlock
    → Agrees u l' r' w'
unfolding get_lock
get_lock-Agrees true reader l l' r w r' w' a h e f = ground (arith, a, h, e, f)
get_lock-Agrees true writer l l' r w r' w' a h e f = ground (arith, a, h, e, f)
get_lock-Agrees false reader l l' r w r' w' a h e f = ground (arith, a, h, e, f)
get_lock-Agrees false writer l l' r w r' w' a h e f = ground (arith, a, h, e, f)

release_lock-Agrees :
    (u : Bool) (o : Role) (l : Locks) (r w r' w' : ℕ)
    → Agrees u l r w
    → r ≡ r' + as_reader o unlock
    → w ≡ w' + as_writer o unlock
    → Agrees u (release_lock u l) r' w'
unfolding release_lock
release_lock-Agrees true reader l r w r' w' a e f = ground (arith, a, e, f)
release_lock-Agrees true writer l r w r' w' a e f = ground (arith, a, e, f)
release_lock-Agrees false reader l r w r' w' a e f = ground (arith, a, e, f)
release_lock-Agrees false writer l r w r' w' a e f = ground (arith, a, e, f)

module _ (most : ℕ) (u : Bool) where
  -- The sums, as thread `i` comes to another place.
  module _ (s : System) (i : ℕ) (t : Thread) (e : get_elem? s.threads i ≡ some t)
      (a : AgreesWith u s) where
    abbrev now : Pc → ℕ → Thread
    now p n = record t { pc = p; loop_count = n }

    reading :
        (p : Pc) (n : ℕ)
        → total is_reading (set s.threads i (now p n)) + is_reading t
          ≡ total is_reading s.threads + as_reader t.role p
    reading p n = total-set is_reading s.threads i t (now p n) e

    writing :
        (p : Pc) (n : ℕ)
        → total is_writing (set s.threads i (now p n)) + is_writing t
          ≡ total is_writing s.threads + as_writer t.role p
    writing p n = total-set is_writing s.threads i t (now p n) e

    module _ (p q : Pc) (n : ℕ) (f : t.pc ≡ p) where
      reading_from :
          total is_reading (set s.threads i (now q n)) + as_reader t.role p
          ≡ total is_reading s.threads + as_reader t.role q
      reading_from =
          ap (λ z. total is_reading (set s.threads i (now q n)) + as_reader t.role z) (sym f)
          ∙ reading q n

      writing_from :
          total is_writing (set s.threads i (now q n)) + as_writer t.role p
          ≡ total is_writing s.threads + as_writer t.role q
      writing_from =
          ap (λ z. total is_writing (set s.threads i (now q n)) + as_writer t.role z) (sym f)
          ∙ writing q n

    stays_out :
        (p q : Pc) (n : ℕ)
        → t.pc ≡ p
        → inside p ≡ 0
        → inside q ≡ 0
        → AgreesWith u (put i (now q n) s.locks s)
    stays_out p q n f x y =
        let r : total is_reading (set s.threads i (now q n)) ≡ total is_reading s.threads =
          omega (arith, reading_from p q n f, as_reader_out t.role p x, as_reader_out t.role q y) in
        let w : total is_writing (set s.threads i (now q n)) ≡ total is_writing s.threads =
          omega (arith, writing_from p q n f, as_writer_out t.role p x, as_writer_out t.role q y) in
        rw r (rw w a)

    by_pc-AgreesWith :
        (p : Pc) {v : System} → t.pc ≡ p → by_pc most u i s t p ≡ some v → AgreesWith u v
    unfolding by_pc
    by_pc-AgreesWith test f h = subst (AgreesWith u) (some-injective _ _ h) (
        stays_out test (if ltb t.loop_count most then lock else ended) t.loop_count f refl
          (ground arith))
    by_pc-AgreesWith lock f h =
        let (l, g, k) = >>=-eq-some (get_lock u t.role s.locks) _ h in
        subst (AgreesWith u) (some-injective _ _ k) (
          get_lock-Agrees u t.role s.locks l _ _ _ _ a g
            (omega (arith, reading_from lock unlock t.loop_count f, as_reader_out t.role lock refl))
            (omega
              (arith, writing_from lock unlock t.loop_count f, as_writer_out t.role lock refl)))
    by_pc-AgreesWith unlock f h = subst (AgreesWith u) (some-injective _ _ h) (
        release_lock-Agrees u t.role s.locks _ _ _ _ a
          (omega
            (arith, reading_from unlock test (t.loop_count + 1) f, as_reader_out t.role test refl))
          (omega
            (arith, writing_from unlock test (t.loop_count + 1) f, as_writer_out t.role test refl)))
    by_pc-AgreesWith ended f h = cc

  -- Nobody is inside at first.
  module _ (w : Thread → ℕ) (z : (r : Role) → w (fresh r) ≡ 0) where
    readers_zero : (n : ℕ) → total w (readers n) ≡ 0
    unfolding readers total
    readers_zero zero = refl
    readers_zero (suc n) = omega (arith, z reader, readers_zero n)

    process_zero : total w process_threads ≡ 0
    unfolding process_threads total
    process_zero = omega (
      arith,
      total-append w (readers num_readers) (fresh writer ∷ []),
      readers_zero num_readers,
      z writer,
    )

    all_zero : (n : ℕ) → total w (all_threads n) ≡ 0
    unfolding all_threads total
    all_zero zero = refl
    all_zero (suc n) =
        omega (arith, total-append w process_threads (all_threads n), process_zero, all_zero n)

  is_reading-fresh : (r : Role) → is_reading (fresh r) ≡ 0
  is_reading-fresh reader = refl
  is_reading-fresh writer = refl

  is_writing-fresh : (r : Role) → is_writing (fresh r) ≡ 0
  is_writing-fresh reader = refl
  is_writing-fresh writer = refl

  initial-Agrees : (u : Bool) (n : ℕ) → AgreesWith u (initial n)
  unfolding initial
  initial-Agrees true n =
      let r = all_zero is_reading is_reading-fresh n in
      let w = all_zero is_writing is_writing-fresh n in (sym r, sym w, inl w)
  initial-Agrees false n =
      let r = all_zero is_reading is_reading-fresh n in
      let w = all_zero is_writing is_writing-fresh n in omega (arith, r, w)

  pub Reach-AgreesWith : {p n : ℕ} {s : System} → Reach most p u n s → AgreesWith u s
  unfolding step
  Reach-AgreesWith {p} start = initial-Agrees u p
  Reach-AgreesWith (next {n} {s} i r h) =
      let (t, e, k) = >>=-eq-some (get_elem? s.threads i) _ h in
      by_pc-AgreesWith s i t e (Reach-AgreesWith r) t.pc refl k

-- Under the reader-writer lock no reader is inside with a writer, nor a second writer; under the mutex
-- no second thread is.
abbrev pub Excluded : Bool → System → Type 0
Excluded true s =
    (total is_writing s.threads ≡ 0)
    ⊎ ((total is_writing s.threads ≡ 1) × (total is_reading s.threads ≡ 0))
Excluded false s = total is_reading s.threads + total is_writing s.threads ≤ 1

Agrees-Excluded : (u : Bool) (s : System) → AgreesWith u s → Excluded u s
Agrees-Excluded true s a = ground (arith, a)
Agrees-Excluded false s a = ground (arith, a)

-- In every reachable state of the readers and writers of some processes, under the reader-writer
-- lock no reader is inside with a writer, nor is a second writer; under the mutex at most one
-- thread is inside.
pub Reach-Excluded :
    (most processes : ℕ) (u : Bool) {n : ℕ} {s : System} → Reach most processes u n s → Excluded u s
Reach-Excluded most processes u {n} {s} r = Agrees-Excluded u s (Reach-AgreesWith most u r)
