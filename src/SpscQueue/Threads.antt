-- ===== src/SpscQueue/Threads.antt =====
-- The two threads of libs/sys/memory/spsc_queue.hpp: `try_push` and `try_pop` cut at their loads and
-- stores of the other thread's data, so that the steps of the threads interleave. A thread may go on with an
-- index that the other has moved since.
use low_latency_tick_to_trad.Prelude.{ℕ, ◌%◌, List, [], ◌∷◌, ◌++◌, ◌==◌, if◌then◌else◌}
use low_latency_tick_to_trad.Prelude.Word.{add32, sub32}
use low_latency_tick_to_trad.SpscQueue.{put, SpscQueue}

-- In `try_push`: the value, with the indices that were loaded.
pub data Producer (A : Type 0) : Type 0 where
  at_rest : Producer A
  loaded : A → ℕ → ℕ → Producer A
  written : A → ℕ → Producer A

-- In `try_pop`: the indices that were loaded, or the index and the value that was read.
pub data Consumer (A : Type 0) : Type 0 where
  at_rest : Consumer A
  loaded : ℕ → ℕ → Consumer A
  taken : ℕ → A → Consumer A

-- A step of a thread; the producer's next value, if it is at rest.
pub data Move (A : Type 0) : Type 0 where
  produce : A → Move A
  consume : Move A

-- The queue, where the threads are, and the values of the calls that have answered true so far.
pub record Threads (A : Type 0) : Type 0 where
  pub queue : SpscQueue A
  pub producer : Producer A
  pub consumer : Consumer A
  pub pushed : List A
  pub popped : List A

module _ {A : Type 0} where
  unfoldable pub step_producer : A → Producer A → Threads A → Threads A
  step_producer v at_rest s = record s { producer = loaded v s.queue.tail s.queue.head }
  step_producer v (loaded w t h) s =
      if sub32 t h == s.queue.capacity then record s { producer = at_rest } else record s {
        queue = record s.queue { buf = put s.queue.buf (t % s.queue.capacity) w };
        producer = written w t;
      }
  step_producer v (written w t) s = record s {
    queue = record s.queue { tail = add32 t 1 };
    producer = at_rest;
    pushed = s.pushed ++ w ∷ [];
  }

  unfoldable pub step_consumer : Consumer A → Threads A → Threads A
  step_consumer at_rest s = record s { consumer = loaded s.queue.head s.queue.tail }
  step_consumer (loaded h t) s =
      if h == t
      then record s { consumer = at_rest }
      else record s { consumer = taken h (s.queue.buf (h % s.queue.capacity)) }
  step_consumer (taken h x) s = record s {
    queue = record s.queue { head = add32 h 1 };
    consumer = at_rest;
    popped = s.popped ++ x ∷ [];
  }

  unfoldable pub step : Move A → Threads A → Threads A
  unfolding step_producer step_consumer
  step (produce v) s = step_producer v s.producer s
  step consume s = step_consumer s.consumer s

  -- The threads after the moves of a schedule.
  unfoldable pub run : List (Move A) → Threads A → Threads A
  unfolding step
  run [] s = s
  run (m ∷ ms) s = run ms (step m s)
