-- ===== src/Sync/SharedStack/Counts.antt =====
-- What is counted over the threads of a shared stack.
use dcl140_2023_nov.Prelude.{ℕ, ◌+◌, ◌≤◌, ◌≡◌, ◌⊎◌, ap, sym, ◌∙◌, some, List, get_elem?, set, arith}
use dcl140_2023_nov.Sync.Sums.{total, total-set}
use dcl140_2023_nov.Sync.SharedStack.Defs.{Role, producer, consumer, Pc, asleep, woken, Thread}

-- A number for the threads of a role only.
abbrev pub among : Role → Role → ℕ → ℕ
among producer producer n = n
among consumer consumer n = n
among _ _ n = 0

abbrev pub sleeps : Pc → ℕ
sleeps asleep = 1
sleeps _ = 0

abbrev pub wakes : Pc → ℕ
wakes woken = 1
wakes _ = 0

abbrev pub stays : Pc → ℕ
stays asleep = 0
stays _ = 1

-- The threads of a role that sleep, that were woken, that do not sleep, and the rounds left to them.
abbrev pub sleeping : Role → Thread → ℕ
sleeping r t = among r t.role (sleeps t.pc)

abbrev pub waking : Role → Thread → ℕ
waking r t = among r t.role (wakes t.pc)

abbrev pub up : Role → Thread → ℕ
up r t = among r t.role (stays t.pc)

abbrev pub rounds : Role → Thread → ℕ
rounds r t = among r t.role t.todo

-- With few threads producers and consumers never sleep together, and there is room for those that do; and
-- for each item that consumers wait for, or place that producers wait for, one of them was woken.
abbrev pub Fine : (index p_asleep p_woken c_asleep c_woken : ℕ) → Type 0
Fine i pa pw ca cw =
    (((pa ≡ 0) × (i + ca ≤ 3)) ⊎ ((ca ≡ 0) × (pa ≤ i)))
    × ((ca ≡ 0) ⊎ (i ≤ cw))
    × ((pa ≡ 0) ⊎ (3 ≤ i + pw))

-- The same between a push or a pop and its signal.
abbrev pub Owed : (index p_asleep p_woken c_asleep c_woken : ℕ) → Type 0
Owed i pa pw ca cw =
    (((pa ≡ 0) × ((ca ≡ 0) ⊎ (i + ca ≤ 4))) ⊎ ((ca ≡ 0) × ((pa ≡ 0) ⊎ (pa ≤ i + 1))))
    × ((ca ≡ 0) ⊎ (i ≤ cw + 1))
    × ((pa ≡ 0) ⊎ (3 ≤ i + pw + 1))

module _ (i pa pw ca cw : ℕ) where
  pub Fine-pushed : (pw' : ℕ) → Fine i pa pw ca cw → pw ≤ pw' + 1 → Owed (i + 1) pa pw' ca cw
  Fine-pushed pw' f h = ground arith

  pub Fine-popped : (cw' : ℕ) → Fine (i + 1) pa pw ca cw → cw ≤ cw' + 1 → Owed i pa pw ca cw'
  Fine-popped cw' f h = ground arith

  pub Fine-p_sleeps :
      (pw' : ℕ) → Fine i pa pw ca cw → i ≡ 3 → pa + 1 ≤ 3 → Fine i (pa + 1) pw' ca cw
  Fine-p_sleeps pw' f e h = ground arith

  pub Fine-c_sleeps :
      (cw' : ℕ) → Fine i pa pw ca cw → i ≡ 0 → ca + 1 ≤ 3 → Fine i pa pw (ca + 1) cw'
  Fine-c_sleeps cw' f e h = ground arith

  pub Owed-p_wakes : Owed i (pa + 1) pw ca cw → Fine i pa (pw + 1) ca cw
  Owed-p_wakes f = ground arith

  pub Owed-c_wakes : Owed i pa pw (ca + 1) cw → Fine i pa pw ca (cw + 1)
  Owed-c_wakes f = ground arith

  pub Fine-p_wakes : Fine i (pa + 1) pw ca cw → Fine i pa (pw + 1) ca cw
  Fine-p_wakes f = ground arith

  pub Fine-c_wakes : Fine i pa pw (ca + 1) cw → Fine i pa pw ca (cw + 1)
  Fine-c_wakes f = ground arith

  pub Owed-nobody : Owed i pa pw ca cw → i ≤ 3 → pa + ca ≡ 0 → Fine i pa pw ca cw
  Owed-nobody f h z = ground arith

sleeping-up : (r : Role) (t : Thread) → sleeping r t + up r t ≡ among r t.role 1
sleeping-up r t = ground arith

-- A thread of the same role in place of one: the threads of each role are as many as before.
pub people_lem :
    (r : Role) (ts : List Thread) (i : ℕ) (t u : Thread)
    → get_elem? ts i ≡ some t
    → u.role ≡ t.role
    → total (sleeping r) (set ts i u) + total (up r) (set ts i u)
      ≡ total (sleeping r) ts + total (up r) ts
people_lem r ts i t u e q =
    let w : sleeping r t + up r t ≡ sleeping r u + up r u =
      sleeping-up r t ∙ ap (λ o. among r o 1) (sym q) ∙ sym (sleeping-up r u) in
    omega (arith, total-set (sleeping r) ts i t u e, total-set (up r) ts i t u e, w)
