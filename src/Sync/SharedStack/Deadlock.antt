-- ===== src/Sync/SharedStack/Deadlock.antt =====
-- Four processes may all come to wait for each other.
use dcl140_2023_nov.Prelude.{
  ℕ, ◌≡◌, refl, ap, Option, none, some, List, [], ◌∷◌, get_elem?, All, ◌>>=◌,
}
use dcl140_2023_nov.Sync.Sums.{total, All-get_elem?}
use dcl140_2023_nov.Sync.SharedStack.Defs.{
  producer, consumer, outside, asleep, woken, Thread, System, Move, calls, enter, step, call,
  popped, signal, wake, threads_of, Reach, start, run, Reach-run,
}

abbrev pub IsAsleep : Thread → Type 0
IsAsleep t = t.pc ≡ asleep

-- With all threads asleep no thread takes the mutex.
All-asleep :
    (s : System) → All IsAsleep s.threads → (i c : ℕ) (w : Option ℕ) → step (calls i c w) s ≡ none
unfolding step
All-asleep s a i c w = by_thread (get_elem? s.threads i) refl
  where
    by_thread :
        (o : Option Thread) → get_elem? s.threads i ≡ o → (o >>= λ t. enter i c w s t t.pc) ≡ none
    by_thread none e = refl
    by_thread (some t) e = ap (enter i c w s t) (All-get_elem? IsAsleep s.threads i t a e)

-- Signals that wake threads of the role that gives them, until all eight threads wait.
module _ (x y z c : ℕ) where
  abbrev first_moves : List Move
  first_moves =
      calls 1 c none
      ∷ calls 3 c none
      ∷ calls 5 c none
      ∷ calls 7 c none
      ∷ calls 0 c (some 1)
      ∷ calls 0 c (some 3)
      ∷ calls 0 c (some 5)
      ∷ calls 0 c none
      ∷ []

  abbrev first_state : System
  first_state = record {
    buffer = c ∷ c ∷ c ∷ [];
    index = 3;
    threads =
        record { role = producer; pc = asleep; todo = 22; char = c }
        ∷ record { role = consumer; pc = woken; todo = 25; char = 0 }
        ∷ record { role = producer; pc = outside; todo = 25; char = 0 }
        ∷ record { role = consumer; pc = woken; todo = 25; char = 0 }
        ∷ record { role = producer; pc = outside; todo = 25; char = 0 }
        ∷ record { role = consumer; pc = woken; todo = 25; char = 0 }
        ∷ record { role = producer; pc = outside; todo = 25; char = 0 }
        ∷ record { role = consumer; pc = asleep; todo = 25; char = 0 }
        ∷ [];
  }

  first-Reach : Reach 4 first_state
  unfolding run step enter call popped signal wake threads_of total
  first-Reach = Reach-run first_moves (start (x ∷ y ∷ z ∷ []) refl) refl

  abbrev second_moves : List Move
  second_moves =
      calls 2 c none
      ∷ calls 4 c none
      ∷ calls 6 c none
      ∷ calls 1 c (some 7)
      ∷ calls 1 c (some 0)
      ∷ calls 1 c (some 2)
      ∷ calls 1 c none
      ∷ calls 3 c none
      ∷ []

  abbrev second_state : System
  second_state = record {
    buffer = c ∷ c ∷ c ∷ [];
    index = 0;
    threads =
        record { role = producer; pc = woken; todo = 22; char = c }
        ∷ record { role = consumer; pc = asleep; todo = 22; char = c }
        ∷ record { role = producer; pc = woken; todo = 25; char = c }
        ∷ record { role = consumer; pc = asleep; todo = 25; char = 0 }
        ∷ record { role = producer; pc = asleep; todo = 25; char = c }
        ∷ record { role = consumer; pc = woken; todo = 25; char = 0 }
        ∷ record { role = producer; pc = asleep; todo = 25; char = c }
        ∷ record { role = consumer; pc = woken; todo = 25; char = 0 }
        ∷ [];
  }

  second-Reach : Reach 4 second_state
  unfolding run step enter call popped signal wake threads_of total
  second-Reach = Reach-run second_moves (first-Reach) refl

  abbrev third_moves : List Move
  third_moves =
      calls 5 c none
      ∷ calls 7 c none
      ∷ calls 0 c (some 1)
      ∷ calls 0 c (some 4)
      ∷ calls 0 c (some 6)
      ∷ calls 0 c none
      ∷ calls 2 c none
      ∷ calls 4 c none
      ∷ []

  abbrev third_state : System
  third_state = record {
    buffer = c ∷ c ∷ c ∷ [];
    index = 3;
    threads =
        record { role = producer; pc = asleep; todo = 19; char = c }
        ∷ record { role = consumer; pc = woken; todo = 22; char = c }
        ∷ record { role = producer; pc = asleep; todo = 25; char = c }
        ∷ record { role = consumer; pc = asleep; todo = 25; char = 0 }
        ∷ record { role = producer; pc = asleep; todo = 25; char = c }
        ∷ record { role = consumer; pc = asleep; todo = 25; char = 0 }
        ∷ record { role = producer; pc = woken; todo = 25; char = c }
        ∷ record { role = consumer; pc = asleep; todo = 25; char = 0 }
        ∷ [];
  }

  third-Reach : Reach 4 third_state
  unfolding run step enter call popped signal wake threads_of total
  third-Reach = Reach-run third_moves (second-Reach) refl

  abbrev fourth_moves : List Move
  fourth_moves =
      calls 6 c none
      ∷ calls 1 c (some 3)
      ∷ calls 1 c (some 5)
      ∷ calls 1 c (some 7)
      ∷ calls 1 c none
      ∷ calls 3 c none
      ∷ calls 5 c none
      ∷ calls 7 c none
      ∷ []

  abbrev fourth_state : System
  fourth_state = record {
    buffer = c ∷ c ∷ c ∷ [];
    index = 0;
    threads =
        record { role = producer; pc = asleep; todo = 19; char = c }
        ∷ record { role = consumer; pc = asleep; todo = 19; char = c }
        ∷ record { role = producer; pc = asleep; todo = 25; char = c }
        ∷ record { role = consumer; pc = asleep; todo = 25; char = 0 }
        ∷ record { role = producer; pc = asleep; todo = 25; char = c }
        ∷ record { role = consumer; pc = asleep; todo = 25; char = 0 }
        ∷ record { role = producer; pc = asleep; todo = 25; char = c }
        ∷ record { role = consumer; pc = asleep; todo = 25; char = 0 }
        ∷ [];
  }

  fourth-Reach : Reach 4 fourth_state
  unfolding run step enter call popped signal wake threads_of total
  fourth-Reach = Reach-run fourth_moves (third-Reach) refl

  -- Whatever the characters, the producers and consumers of four processes can come to a state in
  -- which all eight threads wait and none can make a call: only a spurious wake-up goes on from
  -- there.
  pub Reach-deadlock :
      (s : System) × Reach 4 s
      × All IsAsleep s.threads
      × ((i d : ℕ) (w : Option ℕ) → step (calls i d w) s ≡ none)
  Reach-deadlock =
      let a : All IsAsleep fourth_state.threads =
        (refl, (refl, (refl, (refl, (refl, (refl, (refl, (refl, tt)))))))) in
      (fourth_state, fourth-Reach, a, All-asleep fourth_state a)
