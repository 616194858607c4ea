-- ===== src/Pool/Given.antt =====
-- dokan-sys/src/dokany/dokan/dokan_pool.c: a DOKAN_OPEN_INFO that is given to its pool.
use crv_virtual_disk.Prelude.{
  remove, ℕ, ◌+◌, ◌≤◌, ◌<◌, ◌≡◌, refl, ap, Bool, true, false, List, [], ◌∷◌, ◌++◌, none, some,
  arith, ltb, ◌==◌, if◌then◌else◌, length, inl, inr, Bool-cases,
}
use crv_virtual_disk.Memory.{Outcome, ok, ◌>>=◌, map_outcome, mul_size}
use crv_virtual_disk.Vector.{Vector, new_capacity, get_count}
use crv_virtual_disk.Vector.Contents.{Holds, Fits}
use crv_virtual_disk.Vector.Push.{Pushed, pushed, kept, push_back-Pushed}
use crv_virtual_disk.Pool.Store.{
  State, file_info_pool, io_event_pool_size, set_pool, member, free_block, release, push_item,
  unless_pushed,
}
use crv_virtual_disk.Pool.OpenInfos.{
  push_if_any, cleanup_file_open_info, free_file_open_info, push_file_open_info,
}

-- What becomes of the DOKAN_OPEN_INFO at `p` and of its pool, whose vector held `xs`.
pub data Given (malloc : ℕ → Bool) (p : ℕ) (s : State) (v : Vector ℕ) (xs : List ℕ) (w : State)
    : Type 0 where
  -- The pool takes the pointer.
  pooled :
      (v' : Vector ℕ)
      → length xs < io_event_pool_size
      → Holds v' (xs ++ p ∷ [])
      → w.pools ≡ (set_pool s file_info_pool (some v')).pools
      → w.live ≡ s.live
      → Given malloc p s v xs w
  -- The pool has room, but its vector cannot grow: the pointer is neither kept nor freed.
  lost :
      length xs < io_event_pool_size
      → v.max_items ≤ length xs + 1
      → malloc (mul_size (new_capacity v.max_items 1) v.item_size) ≡ false
      → w.pools ≡ (set_pool s file_info_pool (some v)).pools
      → w.live ≡ s.live
      → Given malloc p s v xs w
  -- The pool is full, and the object is freed.
  freed :
      io_event_pool_size ≤ length xs
      → w.pools ≡ s.pools
      → w.live ≡ remove p s.live
      → Given malloc p s v xs w

self : (p : ℕ) → (p == p) ≡ true
self p = ground arith

module _ (malloc : ℕ → Bool) (p : ℕ) where
  -- The object without its directory list.
  abbrev cleaned : State → State
  cleaned s = record s {
    open_infos = λ q.
        if p == q
        then record (s.open_infos p) { dir_list = none; dir_list_search_pattern = none }
        else s.open_infos q;
  }

  cleanup_file_open_info-cleaned :
      (s : State)
      → (s.open_infos p).dir_list ≡ none
      → cleanup_file_open_info malloc p s ≡ ok (cleaned s)
  unfolding cleanup_file_open_info
  cleanup_file_open_info-cleaned s h = ap (λ d. push_if_any malloc d (cleaned s)) h

  free_cleaned :
      (s : State)
      → member p s.live ≡ true
      → (w : State) × (free_file_open_info malloc (some p) (cleaned s) ≡ ok w)
        × (w.pools ≡ s.pools)
        × (w.live ≡ remove p s.live)
  unfolding free_file_open_info free_block
  free_cleaned s alive =
      let none_left : ((cleaned s).open_infos p).dir_list ≡ none = simp (self p) refl in
      (
        record (cleaned (cleaned s)) { live = remove p s.live },
        rw (cleanup_file_open_info-cleaned (cleaned s) none_left) (simp alive refl),
        refl,
        refl,
      )

  Pushed-Given :
      (s : State) (v : Vector ℕ) (xs : List ℕ) (free : State → Outcome State)
      {r : Outcome (Vector ℕ × Bool)}
      → length xs < io_event_pool_size
      → Pushed malloc v xs (xs ++ p ∷ []) r
      → (w : State) × ((map_outcome (λ q. (true, set_pool (cleaned s) file_info_pool (some q.0))) r
            >>= unless_pushed free)
          ≡ ok w)
        × Given malloc p s v xs w
  Pushed-Given s v xs free short (pushed h) = (_, refl, pooled _ short h refl refl)
  Pushed-Given s v xs free short (kept denied full) = (_, refl, lost short full denied refl refl)

  -- PushFileOpenInfo of a live DOKAN_OPEN_INFO without a directory list, to a pool whose vector holds
  -- xs and computes no size that wraps, does not fault. The pool takes the pointer, or its vector
  -- cannot grow and the pointer is neither kept nor freed, or the pool is full and the object is
  -- freed.
  pub push_file_open_info-Given :
      (s : State) (v : Vector ℕ) (xs : List ℕ)
      → (s.open_infos p).dir_list ≡ none
      → s.pools file_info_pool ≡ some v
      → Holds v xs
      → Fits v
      → member p s.live ≡ true
      → (w : State) × (push_file_open_info malloc p s ≡ ok w) × Given malloc p s v xs w
  unfolding push_file_open_info release push_item get_count
  push_file_open_info-Given s v xs d e h f alive =
      rw (cleanup_file_open_info-cleaned s d) (elim (Bool-cases (ltb v.item_count 1024)) [
        | inl short ↦
            simp (e, short)
              (Pushed-Given s v xs (free_file_open_info malloc (some p))
                (ground (arith, short, h.count)) (push_back-Pushed malloc v xs p h f))
        | inr full ↦
            let (w, run, pools, live) = free_cleaned s alive in
            simp (e, full) (w, run, freed (ground (arith, full, h.count)) pools live)
      ])
