-- ===== src/Tests/Queues.antt =====
-- A queue of two slots whose indices are about to wrap (libs/sys/memory/spsc_queue.hpp).
use low_latency_tick_to_trad.Prelude.{
  ℕ, ◌-◌, ◌≡◌, refl, List, [], ◌∷◌, ◌++◌, arith, length, min, ◌^◌, take, some, Option, none,
}
use low_latency_tick_to_trad.SpscQueue.{SpscQueue, try_push, try_push_batch, drain}
use low_latency_tick_to_trad.SpscQueue.View.{view}
use low_latency_tick_to_trad.SpscQueue.Slots.{IsValid, contents}
use low_latency_tick_to_trad.SpscQueue.Laws.{try_push-contents, push_list}
use low_latency_tick_to_trad.SpscQueue.Batches.{try_push_batch-contents, drain-contents, Drained}
use low_latency_tick_to_trad.SpscQueue.Threads.{Move, Threads, run, at_rest, produce, consume}
use low_latency_tick_to_trad.SpscQueue.Fifo.{Sound, run-Sound}

abbrev no_values : SpscQueue ℕ
no_values = record { buf = λ i. 0; head = 2 ^ 32 - 1; tail = 2 ^ 32 - 1; capacity = 2 }

no_values-IsValid : IsValid no_values
no_values-IsValid = record {
  room = omega arith;
  fits = omega arith;
  chunks = 2 ^ 31;
  divides = refl;
  head_fits = omega arith;
  tail_fits = omega arith;
  bounded = omega arith;
}

abbrev two_values : SpscQueue ℕ
two_values = (try_push_batch no_values (7 ∷ 8 ∷ 9 ∷ [])).0

two_values-IsValid : IsValid two_values
two_values-IsValid = (try_push_batch-contents no_values (7 ∷ 8 ∷ 9 ∷ []) no_values-IsValid).0

abbrev handed_out : Option (SpscQueue ℕ × List ℕ) → List ℕ
handed_out none = []
handed_out (some (_, out)) = out

two_taken : (contents two_values ≡ 7 ∷ 8 ∷ []) × (handed_out (drain two_values 5) ≡ 7 ∷ 8 ∷ [])
unfolding view try_push_batch drain
two_taken = (refl, refl)

try_push-contents_example :
    IsValid (try_push no_values 5).0
    × ((contents (try_push no_values 5).0, (try_push no_values 5).1)
        ≡ push_list no_values.capacity (contents no_values) 5)
try_push-contents_example = try_push-contents no_values 5 no_values-IsValid

try_push_batch-contents_example :
    IsValid (try_push_batch no_values (7 ∷ 8 ∷ 9 ∷ [])).0
    × ((try_push_batch no_values (7 ∷ 8 ∷ 9 ∷ [])).1 ≡ min 3 (2 - length (contents no_values)))
    × (contents (try_push_batch no_values (7 ∷ 8 ∷ 9 ∷ [])).0
        ≡ contents no_values ++ take (try_push_batch no_values (7 ∷ 8 ∷ 9 ∷ [])).1 (7 ∷ 8 ∷ 9 ∷ []))
try_push_batch-contents_example =
    try_push_batch-contents no_values (7 ∷ 8 ∷ 9 ∷ []) no_values-IsValid

drain-contents_example :
    (r : SpscQueue ℕ) × (out : List ℕ) × (drain two_values 5 ≡ some (r, out))
    × Drained two_values 5 r out
drain-contents_example = drain-contents two_values 5 two_values-IsValid (omega arith)

abbrev at_start : Threads ℕ
at_start = record {
  queue = no_values;
  producer = at_rest;
  consumer = at_rest;
  pushed = [];
  popped = [];
}

at_start-Sound : Sound at_start
unfolding view
at_start-Sound = record {
  valid = no_values-IsValid;
  in_order = refl;
  producing = tt;
  consuming = tt;
}

-- The consumer loads its indices before the first value is published, and again after.
abbrev schedule : List (Move ℕ)
schedule =
    produce 7
    ∷ consume
    ∷ produce 0
    ∷ produce 0
    ∷ consume
    ∷ consume
    ∷ produce 8
    ∷ consume
    ∷ produce 0
    ∷ consume
    ∷ produce 0
    ∷ []

interleaved :
    ((run schedule at_start).pushed ≡ 7 ∷ 8 ∷ []) × ((run schedule at_start).popped ≡ 7 ∷ [])
unfolding run
interleaved = (refl, refl)

run-Sound_example : Sound (run schedule at_start)
run-Sound_example = run-Sound schedule at_start at_start-Sound
