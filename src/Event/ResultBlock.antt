-- ===== src/Event/ResultBlock.antt =====
-- dokan-sys/src/dokany/dokan/dokan.c: the block that CreateDispatchCommon finds for a result, and the EventResultSize
-- that it records for it.
use crv_virtual_disk.Prelude.{
  ℕ, ◌+◌, ◌*◌, ◌^◌, ◌≤◌, ◌<◌, ◌≡◌, refl, Bool, true, false, Option, none, some, arith, leb,
  if◌then◌else◌, inl, inr, Bool-cases, leb→le,
}
use crv_virtual_disk.Memory.{Outcome, ok, fault, ◌>>=◌, map_outcome}
use crv_virtual_disk.Pool.Store.{Sizes, State}
use crv_virtual_disk.Pool.Buffers.{
  pop_event_result, pop_event_result_16k, pop_event_result_32k, pop_event_result_64k,
  pop_event_result_128k,
}
use crv_virtual_disk.Event.{
  Event, information_length, with_result, extra_result, with_block, or_own_result, large_result,
  answer_in, answer_context, answer_to, answer_if_any, create_dispatch_common,
}

-- The macros for the sizes of the results, and the size of EVENT_INFORMATION itself.
pub record Sane (sizes : Sizes) (minimum : ℕ) : Type 0 where
  pub default : sizes.event_info_default ≡ sizes.event_info_header + 4096
  pub k16 : sizes.event_info_16k ≡ sizes.event_info_header + 16 * 1024
  pub k32 : sizes.event_info_32k ≡ sizes.event_info_header + 32 * 1024
  pub k64 : sizes.event_info_64k ≡ sizes.event_info_header + 64 * 1024
  pub k128 : sizes.event_info_128k ≡ sizes.event_info_header + 128 * 1024
  pub small : minimum ≤ sizes.event_info_header + 4096

-- The event has no result block, or an EventResultSize of at least `need`.
data HasRoom (need : ℕ) : Outcome (Event × State) → Type 0 where
  no_block : {e : Event} {s : State} → e.event_result ≡ none → HasRoom need (ok (e, s))
  block : {e : Event} {s : State} → need ≤ e.event_result_size → HasRoom need (ok (e, s))
  faulted : HasRoom need fault

with_result-HasRoom :
    (need : ℕ) (e : Event) (n : ℕ) (o : Outcome (Option ℕ × State))
    → need ≤ n
    → HasRoom need (map_outcome (with_result e n) o)
with_result-HasRoom need e n (ok (p, s)) h = block h
with_result-HasRoom need e n fault h = faulted

with_block-HasRoom :
    (n : ℕ) (e : Event) (c : ℕ) (r : Option ℕ × State) → HasRoom n (ok (with_block n e c r))
with_block-HasRoom n e c (none, s) = no_block refl
with_block-HasRoom n e c (some p, s) = block (omega arith)

-- What the assertion of CreateDispatchCommon says: there is a block, and EventResultSize is at least `need`.
-- Only behind a large result does the function return before it, without a block.
pub data Asserted (size need : ℕ) : Outcome (Event × State) → Type 0 where
  early :
      {e : Event} {s : State} → 4096 < size → e.event_result ≡ none → Asserted size need (ok (e, s))
  holds :
      {e : Event} {s : State} (p : ℕ)
      → e.event_result ≡ some p
      → need ≤ e.event_result_size
      → Asserted size need (ok (e, s))
  faulted : Asserted size need fault

answer_context-Asserted :
    (size need : ℕ) (o : Outcome (Event × State))
    → HasRoom need o
    → Asserted size need (o >>= answer_context)
answer_context-Asserted size need (ok (e, s)) h = go e.event_result refl h
  where
    go :
        (p : Option ℕ)
        → e.event_result ≡ p
        → HasRoom need (ok (e, s))
        → Asserted size need (answer_in p (e, s))
    go none q h = faulted
    go (some p) q (no_block n) = cc
    go (some p) q (block n) = holds p q n
answer_context-Asserted size need fault h = faulted

answer_if_any-Asserted :
    (size need : ℕ) (o : Outcome (Event × State))
    → 4096 < size
    → HasRoom need o
    → Asserted size need (map_outcome answer_if_any o)
answer_if_any-Asserted size need (ok (e, s)) l h = go e.event_result refl h
  where
    go :
        (p : Option ℕ)
        → e.event_result ≡ p
        → HasRoom need (ok (e, s))
        → Asserted size need (ok (answer_to p (e, s)))
    go none q h = early l q
    go (some p) q (no_block n) = cc
    go (some p) q (block n) = holds p q n
answer_if_any-Asserted size need fault l h = faulted

module _ (sizes : Sizes) (minimum : ℕ) (malloc : ℕ → Bool) (size : ℕ) where
  large_result-HasRoom :
      (clear : Bool) (o : Outcome (Event × State))
      → HasRoom (information_length sizes minimum size) o
      → HasRoom
          (information_length sizes minimum size)
          (map_outcome (large_result sizes minimum malloc size clear) o)
  unfolding large_result or_own_result
  large_result-HasRoom clear (ok (e, s)) h = go e.event_result refl h
    where
      go :
          (p : Option ℕ)
          → e.event_result ≡ p
          → HasRoom (information_length sizes minimum size) (ok (e, s))
          → HasRoom
              (information_length sizes minimum size)
              (ok (or_own_result sizes minimum malloc size clear p (e, s)))
      go none q h = with_block-HasRoom (information_length sizes minimum size) e _ _
      go (some p) q h = h
  large_result-HasRoom clear fault h = faulted

  need-bound :
      (limit : ℕ)
      → size ≤ limit
      → minimum ≤ sizes.event_info_header + limit
      → sizes.event_info_header + limit < 2 ^ 32
      → information_length sizes minimum size ≤ sizes.event_info_header + limit
  unfolding information_length
  need-bound limit a b c = ground (arith, a, b, c)

  module _ (sane : Sane sizes minimum) (large : sizes.event_info_header + 128 * 1024 < 2 ^ 32) where
    pop-HasRoom :
        (limit n : ℕ) (e : Event) (o : Outcome (Option ℕ × State))
        → leb size limit ≡ true
        → 4096 ≤ limit
        → limit ≤ 128 * 1024
        → n ≡ sizes.event_info_header + limit
        → HasRoom (information_length sizes minimum size) (map_outcome (with_result e n) o)
    pop-HasRoom limit n e o h low high same =
        with_result-HasRoom (information_length sizes minimum size) e n o (
          omega (
            arith,
            same,
            need-bound limit (leb→le size limit h) (omega (arith, sane.small))
                (omega (arith, large)),
          ))

    extra_result-HasRoom :
        (e : Event) (s : State)
        → e.event_result ≡ none
        → HasRoom (information_length sizes minimum size) (extra_result sizes malloc size e s)
    unfolding extra_result
    extra_result-HasRoom e s h = elim (Bool-cases (leb size (16 * 1024))) [
      | inl a ↦ simp (a) (
          pop-HasRoom (16 * 1024) _ e (pop_event_result_16k sizes malloc s) a (omega arith)
            (omega arith) sane.k16)
      | inr a ↦ elim (Bool-cases (leb size (32 * 1024))) [
        | inl b ↦
            simp (a, b)
              (pop-HasRoom (32 * 1024) _ e (pop_event_result_32k sizes malloc s) b (omega arith)
                (omega arith) sane.k32)
        | inr b ↦ elim (Bool-cases (leb size (64 * 1024))) [
          | inl c ↦
              simp (a, b, c)
                (pop-HasRoom (64 * 1024) _ e (pop_event_result_64k sizes malloc s) c (omega arith)
                  (omega arith) sane.k64)
          | inr c ↦ elim (Bool-cases (leb size (128 * 1024))) [
            | inl d ↦
                simp (a, b, c, d)
                  (pop-HasRoom (128 * 1024) _ e (pop_event_result_128k sizes malloc s) d
                    (omega arith) (omega arith) sane.k128)
            | inr d ↦ simp (a, b, c, d) (no_block h)
          ]
        ]
      ]
    ]

    block-Asserted :
        (extra clear : Bool) (e : Event) (s : State)
        → e.event_result ≡ none
        → Asserted size
            (information_length sizes minimum size)
            (create_dispatch_common sizes minimum malloc size extra clear e s)
    unfolding create_dispatch_common
    block-Asserted extra clear e s h = elim (Bool-cases (leb size 4096)) [
      | inl a ↦ simp (a) (
          answer_context-Asserted size (information_length sizes minimum size) _ (
            pop-HasRoom 4096 _ e (pop_event_result sizes malloc s) a (omega arith) (omega arith)
              sane.default))
      | inr a ↦ simp (a) (
          answer_if_any-Asserted size (information_length sizes minimum size) _ (ground (arith, a))
            (large_result-HasRoom clear _ (source extra)))
    ]
      where
        source :
            (b : Bool)
            → HasRoom
                (information_length sizes minimum size)
                (if b then extra_result sizes malloc size e s else ok (e, s))
        source true = extra_result-HasRoom e s h
        source false = no_block h

-- For the sizes of the macros, where an EVENT_INFORMATION is not larger than the default result and a
-- result of 128 KB wraps no 32-bit size, and for an event without a result block: the assertion of
-- CreateDispatchCommon holds, that there is a block and that the recorded EventResultSize is at least
-- the length that DispatchGetEventInformationLength gives for the request, unless the function faults
-- or, for a request of more than 4096 bytes, returns before it without a block.
pub create_dispatch_common-Asserted :
    (sizes : Sizes) (minimum : ℕ) (malloc : ℕ → Bool) (size : ℕ) (extra clear : Bool) (e : Event)
    (s : State)
    → Sane sizes minimum
    → sizes.event_info_header + 128 * 1024 < 2 ^ 32
    → e.event_result ≡ none
    → Asserted size
        (information_length sizes minimum size)
        (create_dispatch_common sizes minimum malloc size extra clear e s)
create_dispatch_common-Asserted sizes minimum malloc size extra clear e s sane large h =
    block-Asserted sizes minimum malloc size sane large extra clear e s h
