-- ===== src/Event/Close/Delayed.antt =====
-- dokan-sys/src/dokany/dokan/dokan.c and close.c: a Close request that arrives while other events use the file.
use crv_virtual_disk.Prelude.{
  ℕ, suc, ◌+◌, ◌*◌, ◌^◌, ◌<◌, ◌≡◌, ap, ◌∙◌, Bool, true, List, none, some, arith, length,
}
use crv_virtual_disk.Memory.{ok, map_outcome}
use crv_virtual_disk.Vector.{Vector}
use crv_virtual_disk.Vector.Contents.{Holds, Fits}
use crv_virtual_disk.Pool.Store.{State, file_info_pool, member}
use crv_virtual_disk.Pool.Given.{Given, push_file_open_info-Given}
use crv_virtual_disk.Event.{Event, check_file_name}
use crv_virtual_disk.Event.Close.Waiting.{
  Uses, AllUse, release_all, closed_event, release_all-Waiting, close-Waiting, last-release,
}
use crv_virtual_disk.Event.Close.{release_dokan_open_info, dispatch_close}

-- The block at `p` is live and has no directory list, and its pool holds xs.
pub record Poolable (p : ℕ) (s : State) (v : Vector ℕ) (xs : List ℕ) : Type 0 where
  pub no_list : (s.open_infos p).dir_list ≡ none
  pub vector : s.pools file_info_pool ≡ some v
  pub holds : Holds v xs
  pub fits : Fits v
  pub alive : member p s.live ≡ true

module _ (has : Bool) (malloc : ℕ → Bool) (p : ℕ) where
  -- A Close request for a DOKAN_OPEN_INFO that is in use by its opening, by the request itself, by a
  -- list of other events and by one more, which are no Close requests, where there are less than 2 ^
  -- 32 uses, malloc gives the block for the copy of the name, and the DOKAN_OPEN_INFO is live and has
  -- no directory list, and the vector of its pool is well-formed and computes no size that wraps: the
  -- Close request calls nothing, and neither do the completions of the events of the list; no block
  -- is freed and no pool changed by these. The completion of the last event calls CloseFile, if the
  -- file system has it, with the name and the context of the Close request; the pool takes the
  -- DOKAN_OPEN_INFO, or its vector cannot grow and the DOKAN_OPEN_INFO is neither kept nor freed, or
  -- the pool is full and it is freed.
  pub delayed_close :
      (c : Event) (es : List Event) (e : Event) (name : List ℕ) (s : State) (v : Vector ℕ)
      (xs : List ℕ)
      → c.open_info ≡ some p
      → c.close_name ≡ some name
      → AllUse p es
      → Uses p e
      → (s.open_infos p).open_count ≡ suc (suc (suc (length es)))
      → suc (suc (suc (length es))) < 2 ^ 32
      → malloc (2 * (length (check_file_name name) + 1)) ≡ true
      → Poolable p s v xs
      → (r : Event) × (t : State) × (t' : State) × (u : State) × (w : State) × (dispatch_close has
            malloc c s
          ≡ ok (r, t))
        × (r.calls ≡ c.calls)
        × (release_all has malloc es t ≡ ok (es, t'))
        × (t'.live ≡ s.live)
        × (t'.pools ≡ s.pools)
        × (release_dokan_open_info has malloc e t'
            ≡ ok (closed_event has e (some (check_file_name name)) c.context, w))
        × (u.live ≡ s.live)
        × (u.pools ≡ s.pools)
        × Given malloc p u v xs w
  delayed_close c es e name s v xs refers closes all last count h granted pool =
      let (r, t, run, silent, live, pools, w) =
        close-Waiting has malloc p c (length es) name s refers closes granted pool.no_list count
          h in
      let (t', run', live', pools', w') =
        release_all-Waiting has malloc p es (check_file_name name) c.context t all w
          (omega arith) in
      let (u, live'', pools'', empty, run'') =
        last-release has malloc p e (check_file_name name) c.context t' last w' in
      let (z, given, end) =
        push_file_open_info-Given malloc p u v xs empty
          (ap (λ k. k file_info_pool) (pools'' ∙ pools' ∙ pools) ∙ pool.vector) pool.holds pool.fits
          (ap (member p) (live'' ∙ live' ∙ live) ∙ pool.alive) in
      (
        r,
        t,
        t',
        u,
        z,
        run,
        silent,
        run',
        live' ∙ live,
        pools' ∙ pools,
        run''
            ∙ ap
                (λ o.
                  map_outcome (λ w. (closed_event has e (some (check_file_name name)) c.context, w))
                    o)
                given,
        live'' ∙ live' ∙ live,
        pools'' ∙ pools' ∙ pools,
        end,
      )
