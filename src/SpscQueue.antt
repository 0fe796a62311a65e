-- ===== src/SpscQueue.antt =====
-- include/hyperliquid/spsc_queue.h: the ring buffer that joins two threads, as its calls follow
-- one another. N is a power of two, so `& MASK` is written `% size_n`.
pub mod Fifo
pub mod Threads
pub mod Steps
pub mod Interleaving
pub mod Popping
use hyperliquid_matching_eng.Base.{
  ℕ, ◌+◌, ◌-◌, ◌%◌, Bool, true, false, List, Option, none, some, ◌==◌, if◌then◌else◌, get_elem?,
  set,
}

pub record SpscQueue {ℓ} (T : Type ℓ) : Type ℓ where
  pub size_n : ℕ
  pub buffer : List T
  pub head : ℕ
  pub tail : ℕ

module _ {ℓ} {T : Type ℓ} where
  -- The constructor, over the N slots of uninitialised memory.
  unfoldable pub init : ℕ → List T → SpscQueue T
  init size_n memory = record { size_n = size_n; buffer = memory; head = 0; tail = 0 }

  abbrev pub next_index : SpscQueue T → ℕ → ℕ
  next_index q i = (i + 1) % q.size_n

  unfoldable pub push : T → SpscQueue T → Bool × SpscQueue T
  push item q =
      let next_tail = next_index q q.tail in
      if next_tail == q.head
      then (false, q)
      else (true, record q { buffer = set q.buffer q.tail item; tail = next_tail })

  -- The second component is what is assigned to `item`.
  unfoldable pub pop : SpscQueue T → Bool × Option T × SpscQueue T
  pop q =
      if q.head == q.tail
      then (false, none, q)
      else (true, get_elem? q.buffer q.head, record q { head = next_index q q.head })

  unfoldable pub empty : SpscQueue T → Bool
  empty q = q.head == q.tail

  -- (tail - head) & MASK: the unsigned difference modulo N.
  unfoldable pub size : SpscQueue T → ℕ
  size q = (q.tail + q.size_n - q.head) % q.size_n

  unfoldable pub capacity : SpscQueue T → ℕ
  capacity q = q.size_n - 1

  -- `while (!push(item)) yield();` in a thread of its own: `none` is the loop that still waits.
  unfoldable pub push_or_wait : T → SpscQueue T → Option (SpscQueue T)
  unfolding push
  push_or_wait item q = let (done, q') = push item q in if done then some q' else none
