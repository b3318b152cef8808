-- ===== src/Oracle/Seeded.antt =====
-- The watermark of `YoloOracleManager` (compute/learning/yolo_oracle.py) over one tick, whatever the other
-- threads call meanwhile.
use Prim.Native.String.{String}
use cat_automation.Prelude.{
  ℕ, suc, ◌+◌, ◌-◌, ◌≡◌, ◌<◌, refl, subst, inl, inr, ◌⊎◌, true, Option, none, some, List, [], ◌∷◌,
  ◌||◌, ltb, min, zero, All, Bool-cases, if◌then◌else◌, arith,
}
use cat_automation.Live.Watermark.{last_end, clamped}
use cat_automation.Oracle.Worker.{
  Oracle, OracleCall, oracle_starts, oracle_stops, oracle_restores, oracle_resets, seed_watermark,
  start_oracle, stop_oracle, restore_oracle, oracle_answer, oracle_answers, oracle_event_is_set,
  advance_oracle,
}
use cat_automation.Oracle.Tick.{
  max_frames_per_tick, chunk_size, Chunk, OracleMoment, Swept, fail_oracle, break_sweep, save_chunk,
  after_chunk_detect, sweep_chunk, with_window, chunk_loop, sweep_beyond, sweep_from, sweep_window,
  set_up_oracle, oracle_at_snapshot, tick_oracle,
}

-- A start, a restore or a reset among the calls seeds the watermark with `value`.
abbrev pub SeedsTo : ℕ → OracleCall → Type 0
SeedsTo value (oracle_starts horizon) = horizon ≡ value
SeedsTo value (oracle_stops persist) = value ≡ value
SeedsTo value (oracle_restores flag horizon) = horizon ≡ value
SeedsTo value (oracle_resets v) = v ≡ value

pub record ChunkSeedsTo (value : ℕ) (chunk : Chunk) : Type 0 where
  pub before : All (SeedsTo value) chunk.before
  pub detecting : All (SeedsTo value) chunk.detecting
  pub saving : All (SeedsTo value) chunk.saving

pub record MomentSeedsTo (value : ℕ) (m : OracleMoment) : Type 0 where
  pub reading : All (SeedsTo value) m.reading
  pub clamping : All (SeedsTo value) m.clamping
  pub chunk : (i : ℕ) → ChunkSeedsTo value (m.chunk i)

-- The watermark is `base` since the tick's snapshot of `epoch`, or `value` where a seed landed.
abbrev pub SeededOr : ℕ → ℕ → ℕ → Oracle → Type 0
SeededOr epoch value base o =
    (o.epoch ≡ epoch) × (o.watermark ≡ base) ⊎ (epoch < o.epoch) × (o.watermark ≡ value)

module _ (epoch value : ℕ) where
  oracle_answer-SeededOr :
      (base : ℕ) (call : OracleCall) (o : Oracle)
      → SeedsTo value call
      → SeededOr epoch value base o
      → SeededOr epoch value base (oracle_answer call o)
  unfolding oracle_answer start_oracle stop_oracle restore_oracle seed_watermark
  oracle_answer-SeededOr base (oracle_starts horizon) o r m = ground (arith, r, m)
  oracle_answer-SeededOr base (oracle_stops persist) o r m = ground (arith, r, m)
  oracle_answer-SeededOr base (oracle_restores flag horizon) o r m = ground (arith, r, m)
  oracle_answer-SeededOr base (oracle_resets v) o r m = ground (arith, r, m)

  oracle_answers-SeededOr :
      (base : ℕ) (calls : List OracleCall) (o : Oracle)
      → All (SeedsTo value) calls
      → SeededOr epoch value base o
      → SeededOr epoch value base (oracle_answers calls o)
  unfolding oracle_answers
  oracle_answers-SeededOr base [] o r m = m
  oracle_answers-SeededOr base (call ∷ calls) o r m =
      oracle_answers-SeededOr base calls (oracle_answer call o) r.1
        (oracle_answer-SeededOr base call o r.0 m)

  advance_oracle-SeededOr :
      (base end : ℕ) (saving : List OracleCall) (o : Oracle)
      → All (SeedsTo value) saving
      → SeededOr epoch value base o
      → SeededOr epoch value end (advance_oracle saving end epoch o).0
  unfolding advance_oracle
  advance_oracle-SeededOr base end saving o r m =
      ground (arith, m, oracle_answers-SeededOr end saving (record o { watermark = end }) r)

  -- The mark after a round that ends at `hi`, and that the loop goes on only after a whole pass.
  abbrev RoundSeeded : ℕ → ℕ → Swept → Type 0
  RoundSeeded base hi v =
      SeededOr epoch value (if v.completed then hi else base) v.worker
      × (v.goes_on ≡ true → v.completed ≡ true)

  after_chunk_detect-Seeded :
      (base hi : ℕ) (error : Option String) (chunk : Chunk) (event : ℕ) (o : Oracle)
      → ChunkSeedsTo value chunk
      → SeededOr epoch value base o
      → RoundSeeded base hi (after_chunk_detect error chunk event epoch hi o)
  unfolding after_chunk_detect save_chunk break_sweep fail_oracle
  after_chunk_detect-Seeded base hi (some error) chunk event o r m = (m, λ e. cc)
  after_chunk_detect-Seeded base hi none chunk event o r m =
      elim (Bool-cases (oracle_event_is_set event o)) [
        | inl set ↦ rw set (m, λ e. cc)
        | inr clear ↦
            rw clear (advance_oracle-SeededOr base hi chunk.saving o r.saving m, λ e. refl)
      ]

  sweep_chunk-Seeded :
      (base hi : ℕ) (chunk : Chunk) (event : ℕ) (o : Oracle)
      → ChunkSeedsTo value chunk
      → SeededOr epoch value base o
      → RoundSeeded base hi (sweep_chunk chunk event epoch hi o)
  unfolding sweep_chunk break_sweep
  sweep_chunk-Seeded base hi chunk event o r m =
      let o' = oracle_answers chunk.before o in
      let m' = oracle_answers-SeededOr base chunk.before o r.before m in
      elim (Bool-cases (oracle_event_is_set event o' || chunk.busy)) [
        | inl yields ↦ rw yields (m', λ e. cc)
        | inr clear ↦ rw clear (
            after_chunk_detect-Seeded base hi chunk.detect_error chunk event
              (oracle_answers chunk.detecting o') r
              (oracle_answers-SeededOr base chunk.detecting o' r.detecting m'))
      ]

  last_round :
      (base lo hi : ℕ) (v : Swept)
      → SeededOr epoch value (if v.completed then hi else base) v.worker
      → SeededOr epoch value (last_end base (with_window v.completed lo hi [])) v.worker
  unfolding last_end with_window
  last_round base lo hi v m = elim (Bool-cases v.completed) [
    | inl e ↦ rw e (subst (λ p. SeededOr epoch value (if p then hi else base) v.worker) e m)
    | inr e ↦ rw e (subst (λ p. SeededOr epoch value (if p then hi else base) v.worker) e m)
  ]

  chunk_loop-Seeded :
      (base fuel : ℕ) (chunk : ℕ → Chunk) (event until i lo : ℕ) (o : Oracle)
      → ((k : ℕ) → ChunkSeedsTo value (chunk k))
      → SeededOr epoch value base o
      → let t = chunk_loop fuel chunk event epoch until i lo o in
        SeededOr epoch value (last_end base t.swept) t.worker
  unfolding chunk_loop last_end with_window
  chunk_loop-Seeded base zero chunk event until i lo o r m = m
  chunk_loop-Seeded base (suc fuel) chunk event until i lo o r m =
      let hi = min (lo + chunk_size - 1) until in
      let v = sweep_chunk (chunk i) event epoch hi o in
      let (seeded, passes) = sweep_chunk-Seeded base hi (chunk i) event o (r i) m in
      elim (Bool-cases (ltb until lo)) [
        | inl over ↦ rw over m
        | inr more ↦ elim (Bool-cases v.goes_on) [
          | inl on ↦
              rw (more, on, passes on)
                (chunk_loop-Seeded hi fuel chunk event until (suc i) (suc hi) v.worker r (
                  subst (λ p. SeededOr epoch value (if p then hi else base) v.worker) (passes on)
                    seeded))
          | inr off ↦ rw (more, off) (last_round base lo hi v seeded)
        ]
      ]

sweep_from-Seeded :
    (m : OracleMoment) (event value epoch watermark : ℕ) (o : Oracle)
    → SeededOr epoch value watermark o
    → MomentSeedsTo value m
    → let t = sweep_from m event epoch watermark o in
      SeededOr epoch value (last_end (clamped m.latest watermark) t.swept) t.worker
unfolding sweep_from sweep_beyond clamped last_end
sweep_from-Seeded m event value epoch watermark o now_seeded r =
    let (o', advanced) = advance_oracle m.clamping m.latest epoch o in
    let seeded =
      advance_oracle-SeededOr epoch value watermark m.latest m.clamping o r.clamping now_seeded in
    let until : ℕ → ℕ = λ since. min m.latest (since + max_frames_per_tick) in
    elim (Bool-cases (ltb m.latest watermark)) [
      | inl above ↦ elim (Bool-cases advanced) [
        | inl on ↦
            rw (above, on)
              (chunk_loop-Seeded epoch value m.latest (suc (until m.latest - m.latest)) m.chunk
                event (until m.latest) 0 (suc m.latest) o' r.chunk seeded)
        | inr off ↦ rw (above, off) seeded
      ]
      | inr below ↦ rw below (
          chunk_loop-Seeded epoch value watermark (suc (until watermark - watermark)) m.chunk event
            (until watermark) 0 (suc watermark) o r.chunk now_seeded)
    ]

sweep_window-Seeded :
    (m : OracleMoment) (event value : ℕ) (o : Oracle)
    → MomentSeedsTo value m
    → let t = sweep_window m event o in
      SeededOr o.epoch value (last_end (clamped m.latest o.watermark) t.swept) t.worker
unfolding sweep_window
sweep_window-Seeded m event value o r =
    sweep_from-Seeded m event value o.epoch o.watermark (oracle_answers m.reading o)
      (oracle_answers-SeededOr o.epoch value o.watermark m.reading o r.reading (inl (refl, refl))) r

set_up_oracle-Seeded :
    (error : Option String) (m : OracleMoment) (event value : ℕ) (o : Oracle)
    → MomentSeedsTo value m
    → let t = set_up_oracle error m event o in
      SeededOr o.epoch value (last_end (clamped m.latest o.watermark) t.swept) t.worker
      ⊎ (t.worker.epoch ≡ o.epoch) × (t.worker.watermark ≡ o.watermark) × (t.swept ≡ [])
unfolding set_up_oracle fail_oracle
set_up_oracle-Seeded none m event value o r = inl (sweep_window-Seeded m event value o r)
set_up_oracle-Seeded (some error) m event value o r = inr (refl, refl, refl)

-- Where every start, restore and reset that lands after the tick's snapshot of epoch and watermark seeds the
-- watermark with `value`, whatever is called before the snapshot: at the tick's end, the watermark is
-- `value` where one of them took effect after the snapshot; where none did, it is the end of the last
-- window whose detect pass completed, or, where there is no such window, what it was at the snapshot, or
-- the latest id where it stood above that and the tick came to read it.
pub tick_oracle-watermark :
    (m : OracleMoment) (event value : ℕ) (o : Oracle)
    → MomentSeedsTo value m
    → let t = tick_oracle m event o in
      let at_snapshot = oracle_at_snapshot m o in
      ((t.worker.epoch ≡ at_snapshot.epoch)
        × ((t.worker.watermark ≡ last_end (clamped m.latest at_snapshot.watermark) t.swept)
            ⊎ (t.worker.watermark ≡ at_snapshot.watermark) × (t.swept ≡ [])))
      ⊎ (at_snapshot.epoch < t.worker.epoch) × (t.worker.watermark ≡ value)
unfolding tick_oracle
tick_oracle-watermark m event value o r =
    let o' = oracle_at_snapshot m o in
    elim (Bool-cases m.busy) [
      | inl busy ↦ simp busy (inl (refl, inr (refl, refl)))
      | inr free ↦ simp free (ground (arith, set_up_oracle-Seeded m.setup_error m event value o' r))
    ]
