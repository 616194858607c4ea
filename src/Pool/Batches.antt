-- ===== src/Pool/Batches.antt =====
-- dokan-sys/src/dokany/dokan/dokan_pool.c: the buffer that a batch of events shares: PushIoBatchBuffer is called once for each event.
use crv_virtual_disk.Prelude.{
  update, ℕ, zero, suc, ◌+◌, ◌-◌, ◌%◌, ◌^◌, ◌<◌, ◌≡◌, refl, ◌∙◌, Bool, true, List, some, arith,
  ◌==◌,
}
use crv_virtual_disk.Memory.{Outcome, ok, ◌>>=◌}
use crv_virtual_disk.Vector.{Vector}
use crv_virtual_disk.Vector.Contents.{Holds, Fits}
use crv_virtual_disk.Pool.Store.{IoBatch, State, io_batch_pool, io_batch_pool_size, member}
use crv_virtual_disk.Pool.Buffers.{
  is_positive, decremented, retire_batch, push_io_batch_buffer, free_io_batch_buffer, free_pointer,
}
use crv_virtual_disk.Pool.Reuse.{Released, release-Released}

-- The calls for the first `n` events of the batch at `p`.
unfoldable pub push_batch_times : (ℕ → Bool) → ℕ → ℕ → State → Outcome State
unfolding push_io_batch_buffer
push_batch_times malloc p zero s = ok s
push_batch_times malloc p (suc n) s =
    push_io_batch_buffer malloc p s >>= push_batch_times malloc p n

-- The state with one event less to come.
abbrev pub count_down : ℕ → State → State
unfolding decremented
count_down p s = record s { io_batches = update s.io_batches p (decremented (s.io_batches p)) }

decremented-count : (n m : ℕ) → m ≡ suc n → n < 2 ^ 31 → (m + (2 ^ 32 - 1)) % 2 ^ 32 ≡ n
decremented-count n m e h = omega (arith, e, h)

is_positive-suc : (n : ℕ) → suc n < 2 ^ 31 → is_positive (suc n) ≡ true
is_positive-suc n h = ground (arith, h)

self : (p : ℕ) → (p == p) ≡ true
self p = ground arith

module _ (malloc : ℕ → Bool) (p : ℕ) where
  retire-early :
      (b : IoBatch) (s : State)
      → is_positive b.event_context_batch_count ≡ true
      → retire_batch malloc p b s ≡ ok s
  unfolding retire_batch
  retire-early b s h = simp (h) refl

  retire-last :
      (b : IoBatch) (s : State) (v : Vector ℕ) (xs : List ℕ)
      → b.event_context_batch_count ≡ 0
      → b.pool_allocated ≡ true
      → s.pools io_batch_pool ≡ some v
      → Holds v xs
      → Fits v
      → member p s.live ≡ true
      → Released malloc io_batch_pool io_batch_pool_size p s v xs (retire_batch malloc p b s)
  unfolding retire_batch free_io_batch_buffer free_pointer
  retire-last b s v xs e own pool holds fits alive =
      simp (e, own)
        (release-Released malloc io_batch_pool io_batch_pool_size p s v xs pool holds fits alive)

  push-early :
      (n : ℕ) (s : State)
      → (s.io_batches p).event_context_batch_count ≡ suc (suc n)
      → suc n < 2 ^ 31
      → push_io_batch_buffer malloc p s ≡ ok (count_down p s)
  unfolding push_io_batch_buffer decremented
  push-early n s e h = retire-early (decremented (s.io_batches p)) (count_down p s) (
      rw (decremented-count (suc n) (s.io_batches p).event_context_batch_count e h)
        (is_positive-suc n h))

  count_down-count :
      (n : ℕ) (s : State)
      → (s.io_batches p).event_context_batch_count ≡ suc n
      → n < 2 ^ 31
      → ((count_down p s).io_batches p).event_context_batch_count ≡ n
  unfolding decremented
  count_down-count n s e h =
      simp (self p) (decremented-count n (s.io_batches p).event_context_batch_count e h)

  count_down-owner :
      (s : State) → ((count_down p s).io_batches p).pool_allocated ≡ (s.io_batches p).pool_allocated
  unfolding decremented
  count_down-owner s = simp (self p) refl

  -- A live batch of n + 1 events, n + 1 < 2 ^ 31, that came from the pool, whose vector is well-
  -- formed and computes no size that wraps, stays with its holder for the calls of PushIoBatchBuffer
  -- of the first n events, which change no pool and free nothing. With the call for the last event
  -- the pool takes the batch, or the pool's vector cannot grow and the batch is neither kept nor
  -- freed, or the pool is full and the batch is freed.
  pub push_batch_times-Released :
      (n : ℕ) (s : State) (v : Vector ℕ) (xs : List ℕ)
      → (s.io_batches p).event_context_batch_count ≡ suc n
      → suc n < 2 ^ 31
      → (s.io_batches p).pool_allocated ≡ true
      → s.pools io_batch_pool ≡ some v
      → Holds v xs
      → Fits v
      → member p s.live ≡ true
      → (t : State) × (push_batch_times malloc p n s ≡ ok t)
        × (t.pools ≡ s.pools)
        × (t.live ≡ s.live)
        × Released malloc io_batch_pool io_batch_pool_size p
            (count_down p t)
            v
            xs
            (push_io_batch_buffer malloc p t)
  unfolding push_batch_times push_io_batch_buffer decremented
  push_batch_times-Released zero s v xs e h own pool holds fits alive = (
    s,
    refl,
    refl,
    refl,
    retire-last (decremented (s.io_batches p)) (count_down p s) v xs
        (decremented-count 0 (s.io_batches p).event_context_batch_count e (omega arith)) own pool
        holds fits alive,
  )
  push_batch_times-Released (suc n) s v xs e h own pool holds fits alive =
      rw (push-early n s e (omega arith)) (
        push_batch_times-Released n (count_down p s) v xs
          (count_down-count (suc n) s e (omega arith)) (omega arith) (count_down-owner s ∙ own) pool
          holds fits alive)
