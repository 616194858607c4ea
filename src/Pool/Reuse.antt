-- ===== src/Pool/Reuse.antt =====
-- dokan-sys/src/dokany/dokan/dokan_pool.c: how the pools of events and of event results pass an object on from a push to a pop.
use crv_virtual_disk.Prelude.{
  remove, ◌-◌, ◌⊎◌, ap, refl, length-append, none, ◌==◌, ℕ, ◌+◌, ◌≤◌, ◌<◌, ◌≡◌, Bool, true, false,
  List, [], ◌∷◌, ◌++◌, Option, some, arith, ltb, length, inl, inr, Bool-cases,
}
use crv_virtual_disk.Memory.{Outcome, ok, ◌>>=◌, map_outcome, mul_size}
use crv_virtual_disk.Vector.{
  Vector, read_cell, cells, pop_back, get_last_item, new_capacity, get_count,
}
use crv_virtual_disk.Vector.Contents.{Holds, Fits}
use crv_virtual_disk.Vector.Access.{pop_back-Holds}
use crv_virtual_disk.Vector.Push.{Pushed, pushed, kept, push_back-Pushed}
use crv_virtual_disk.Pool.Store.{
  acquire, zero_memory, pop_item, alloc_block, Pool, Sizes, State, io_event_pool, event_result_pool,
  event_result_16k_pool, event_result_32k_pool, event_result_64k_pool, event_result_128k_pool,
  io_event_pool_size, io_extra_event_pool_size, set_pool, member, free_block, release, push_item,
  unless_pushed,
}
use crv_virtual_disk.Pool.Buffers.{
  free_event_result, free_io_event_buffer, free_pointer, pop_io_event_buffer, push_io_event_buffer,
  pop_event_result, push_event_result, pop_event_result_16k, push_event_result_16k,
  pop_event_result_32k, push_event_result_32k, pop_event_result_64k, push_event_result_64k,
  pop_event_result_128k, push_event_result_128k,
}

-- The objects whose pools work alike.
pub data Buffer : Type 0 where
  io_event : Buffer
  result_default : Buffer
  result_16k : Buffer
  result_32k : Buffer
  result_64k : Buffer
  result_128k : Buffer

abbrev pub pool_of : Buffer → Pool
pool_of io_event = io_event_pool
pool_of result_default = event_result_pool
pool_of result_16k = event_result_16k_pool
pool_of result_32k = event_result_32k_pool
pool_of result_64k = event_result_64k_pool
pool_of result_128k = event_result_128k_pool

abbrev pub capacity_of : Buffer → ℕ
capacity_of io_event = io_event_pool_size
capacity_of result_default = io_event_pool_size
capacity_of result_16k = io_extra_event_pool_size
capacity_of result_32k = io_extra_event_pool_size
capacity_of result_64k = io_extra_event_pool_size
capacity_of result_128k = io_extra_event_pool_size

-- The bytes that a pop sets to zero.
abbrev pub cleared_of : Sizes → Buffer → ℕ
cleared_of sizes io_event = sizes.io_event
cleared_of sizes result_default = sizes.event_info_default
cleared_of sizes result_16k = sizes.event_info_header
cleared_of sizes result_32k = sizes.event_info_header
cleared_of sizes result_64k = sizes.event_info_header
cleared_of sizes result_128k = sizes.event_info_header

unfoldable pub pop_buffer : Buffer → Sizes → (ℕ → Bool) → State → Outcome (Option ℕ × State)
pop_buffer io_event = pop_io_event_buffer
pop_buffer result_default = pop_event_result
pop_buffer result_16k = pop_event_result_16k
pop_buffer result_32k = pop_event_result_32k
pop_buffer result_64k = pop_event_result_64k
pop_buffer result_128k = pop_event_result_128k

unfoldable pub push_buffer : Buffer → (ℕ → Bool) → ℕ → State → Outcome State
push_buffer io_event = push_io_event_buffer
push_buffer result_default = push_event_result
push_buffer result_16k = push_event_result_16k
push_buffer result_32k = push_event_result_32k
push_buffer result_64k = push_event_result_64k
push_buffer result_128k = push_event_result_128k

-- What a push of `p` makes of a pool that holds `xs`.
pub data Released (malloc : ℕ → Bool) (k : Pool) (limit : ℕ) (p : ℕ) (s : State) (v : Vector ℕ)
    (xs : List ℕ) : Outcome State → Type 0 where
  -- The pool takes the pointer.
  pooled :
      (v' : Vector ℕ)
      → length xs < limit
      → Holds v' (xs ++ p ∷ [])
      → Released malloc k limit p s v xs (ok (set_pool s k (some v')))
  -- The pool has room, but its vector cannot grow: the pointer is neither kept nor freed.
  lost :
      length xs < limit
      → v.max_items ≤ length xs + 1
      → malloc (mul_size (new_capacity v.max_items 1) v.item_size) ≡ false
      → Released malloc k limit p s v xs (ok (set_pool s k (some v)))
  -- The pool is full, and the object is freed.
  freed :
      limit ≤ length xs
      → Released malloc k limit p s v xs (ok (record s { live = remove p s.live }))

Released-push :
    (malloc : ℕ → Bool) (k : Pool) (limit p : ℕ) (s : State) (v : Vector ℕ) (xs : List ℕ)
    (free : State → Outcome State) {r : Outcome (Vector ℕ × Bool)}
    → length xs < limit
    → Pushed malloc v xs (xs ++ p ∷ []) r
    → Released malloc k limit p s v xs
        (map_outcome (λ q. (true, set_pool s k (some q.0))) r >>= unless_pushed free)
Released-push malloc k limit p s v xs free short (pushed h) = pooled _ short h
Released-push malloc k limit p s v xs free short (kept denied full) = lost short full denied

unsnoc : (xs : List ℕ) → (xs ≡ []) ⊎ ((rest : List ℕ) × (p : ℕ) × (xs ≡ rest ++ p ∷ []))
unsnoc [] = inl refl
unsnoc (x ∷ xs) = inr (elim (unsnoc xs) [
  | inl e ↦ ([], x, ap (λ r. x ∷ r) e)
  | inr (rest, p, e) ↦ (x ∷ rest, p, ap (λ r. x ∷ r) e)
])

pub release-Released :
    (malloc : ℕ → Bool) (k : Pool) (limit p : ℕ) (s : State) (v : Vector ℕ) (xs : List ℕ)
    → s.pools k ≡ some v
    → Holds v xs
    → Fits v
    → member p s.live ≡ true
    → Released malloc k limit p s v xs (release malloc limit k p (free_block p) s)
unfolding release push_item get_count free_block
release-Released malloc k limit p s v xs e h f alive = elim (Bool-cases (ltb v.item_count limit)) [
  | inl short ↦
      let room : length xs < limit = ground (arith, short, h.count) in
      simp (e, short)
        (Released-push malloc k limit p s v xs (free_block p) room
          (push_back-Pushed malloc v xs p h f))
  | inr full ↦ simp (e, full, alive) (freed (ground (arith, full, h.count)))
]

-- A push of a live object to a pool of events or event results, whose vector holds `xs` and computes no
-- size that wraps, touches no memory outside of the vector's block. The pool takes the pointer, or the
-- vector cannot grow and the pointer is neither kept nor freed, or the pool is full and the object is
-- freed.
pub push_buffer-Released :
    (b : Buffer) (malloc : ℕ → Bool) (p : ℕ) (s : State) (v : Vector ℕ) (xs : List ℕ)
    → s.pools (pool_of b) ≡ some v
    → Holds v xs
    → Fits v
    → member p s.live ≡ true
    → Released malloc (pool_of b) (capacity_of b) p s v xs (push_buffer b malloc p s)
unfolding push_buffer push_io_event_buffer push_event_result push_event_result_16k
    push_event_result_32k push_event_result_64k push_event_result_128k free_event_result
    free_io_event_buffer free_pointer
push_buffer-Released io_event malloc p s v xs e h f alive =
    release-Released malloc io_event_pool io_event_pool_size p s v xs e h f alive
push_buffer-Released result_default malloc p s v xs e h f alive =
    release-Released malloc event_result_pool io_event_pool_size p s v xs e h f alive
push_buffer-Released result_16k malloc p s v xs e h f alive =
    release-Released malloc event_result_16k_pool io_extra_event_pool_size p s v xs e h f alive
push_buffer-Released result_32k malloc p s v xs e h f alive =
    release-Released malloc event_result_32k_pool io_extra_event_pool_size p s v xs e h f alive
push_buffer-Released result_64k malloc p s v xs e h f alive =
    release-Released malloc event_result_64k_pool io_extra_event_pool_size p s v xs e h f alive
push_buffer-Released result_128k malloc p s v xs e h f alive =
    release-Released malloc event_result_128k_pool io_extra_event_pool_size p s v xs e h f alive

-- What a pop makes of a pool that holds `xs`, an object of `size` bytes being asked for.
pub data Acquired (malloc : ℕ → Bool) (k : Pool) (clear : ℕ) (s : State) (v : Vector ℕ)
    : List ℕ → Outcome (Option ℕ × State) → Type 0 where
  -- The pool's last pointer, which the pool does not hold any more.
  reused :
      {xs : List ℕ} {t : State} (rest : List ℕ) (p : ℕ) (v' : Vector ℕ)
      → xs ≡ rest ++ p ∷ []
      → Holds v' rest
      → t.pools ≡ (set_pool s k (some v')).pools
      → t.live ≡ s.live
      → t.cleared p ≡ clear
      → Acquired malloc k clear s v xs (ok (some p, t))
  -- A new block, as the pool is empty.
  fresh :
      {xs : List ℕ} {t : State}
      → xs ≡ []
      → t.pools ≡ s.pools
      → t.live ≡ s.next ∷ s.live
      → t.cleared s.next ≡ clear
      → Acquired malloc k clear s v xs (ok (some s.next, t))
  -- A null pointer, as the pool is empty and malloc refuses a block.
  denied : {xs : List ℕ} → xs ≡ [] → Acquired malloc k clear s v xs (ok (none, s))

update_self : (n : ℕ) → (n == n) ≡ true
update_self n = ground arith

last_cell :
    (v : Vector ℕ) (p : ℕ)
    → ltb 0 v.item_count ≡ true
    → get_last_item v ≡ some (some p)
    → read_cell (cells v) (v.item_count - 1) ≡ some p
unfolding get_last_item
last_cell v p filled item = let i = simp (filled) at item in cc

acquire-Acquired :
    (malloc : ℕ → Bool) (size clear : ℕ) (k : Pool) (s : State) (v : Vector ℕ) (xs : List ℕ)
    → s.pools k ≡ some v
    → Holds v xs
    → Acquired malloc k clear s v xs (map_outcome (zero_memory clear) (acquire malloc size k s))
unfolding acquire pop_item get_count alloc_block
acquire-Acquired malloc size clear k s v xs e h = go (unsnoc xs)
  where
    go :
        (xs ≡ []) ⊎ ((rest : List ℕ) × (p : ℕ) × (xs ≡ rest ++ p ∷ []))
        → Acquired malloc k clear s v xs (map_outcome (zero_memory clear) (acquire malloc size k s))
    go (inl none_left) =
        let empty : ltb 0 v.item_count ≡ false = ground (arith, h.count, ap length none_left) in
        elim (Bool-cases (malloc size)) [
          | inl granted ↦
              simp (e, empty, granted) (fresh none_left refl refl (rw (update_self s.next) refl))
          | inr refused ↦ simp (e, empty, refused) (denied none_left)
        ]
    go (inr (rest, p, some_left)) =
        let (item, left) = pop_back-Holds v rest p (rw (some_left) at h) in
        let filled : ltb 0 v.item_count ≡ true =
          ground (arith, h.count, ap length some_left, length-append rest (p ∷ [])) in
        simp (e, filled, last_cell v p filled item)
          (reused rest p (pop_back v) some_left left refl refl (rw (update_self p) refl))

-- A pop from a pool of events or event results, whose vector holds `xs`, touches no memory outside of
-- the vector's block. It gives the pool's last pointer, which leaves the pool, or, of an empty pool, a new
-- block or, where malloc refuses, null; the leading bytes of the object are set to zero.
pub pop_buffer-Acquired :
    (b : Buffer) (sizes : Sizes) (malloc : ℕ → Bool) (s : State) (v : Vector ℕ) (xs : List ℕ)
    → s.pools (pool_of b) ≡ some v
    → Holds v xs
    → Acquired malloc (pool_of b) (cleared_of sizes b) s v xs (pop_buffer b sizes malloc s)
unfolding pop_buffer pop_io_event_buffer pop_event_result pop_event_result_16k pop_event_result_32k
    pop_event_result_64k pop_event_result_128k
pop_buffer-Acquired io_event sizes malloc s v xs e h =
    acquire-Acquired malloc sizes.io_event sizes.io_event io_event_pool s v xs e h
pop_buffer-Acquired result_default sizes malloc s v xs e h =
    acquire-Acquired malloc sizes.event_info_default sizes.event_info_default event_result_pool s v
      xs e h
pop_buffer-Acquired result_16k sizes malloc s v xs e h =
    acquire-Acquired malloc sizes.event_info_16k sizes.event_info_header event_result_16k_pool s v
      xs e h
pop_buffer-Acquired result_32k sizes malloc s v xs e h =
    acquire-Acquired malloc sizes.event_info_32k sizes.event_info_header event_result_32k_pool s v
      xs e h
pop_buffer-Acquired result_64k sizes malloc s v xs e h =
    acquire-Acquired malloc sizes.event_info_64k sizes.event_info_header event_result_64k_pool s v
      xs e h
pop_buffer-Acquired result_128k sizes malloc s v xs e h =
    acquire-Acquired malloc sizes.event_info_128k sizes.event_info_header event_result_128k_pool s v
      xs e h
