-- ===== src/Whole.antt =====
-- `DB_MASTER` (kvaccel/db/db_impl/db_impl_master.cc) over `iLSM::DB` (kvaccel/db/db_impl/iLSM.cc):
-- the two as they are put together, where the Dev-LSM is the one of Ilsm.Device.
pub mod Moved
use kvaccel.Base.{
  ℕ, List, [], ◌+◌, ◌*◌, ◌≤◌, ◌<◌, ◌≡◌, refl, true, false, arith, length, ◌∙◌, sym, ap,
}
use kvaccel.Base.Int.{pos, sub_ℕ}
use kvaccel.Base.Bytes.{Bytes, first_word, load32}
use kvaccel.HashMap.{contains}
use kvaccel.HashMap.Laws.{contains-insert}
use kvaccel.Rocks.{MainLsm, ok}
use kvaccel.Ilsm.{Host, Ilsm, Fault, Stat, BufferingInfo, M}
use kvaccel.Ilsm.Passthru.{nvme_passthru, timed, IlsmOp, finish_op}
use kvaccel.Ilsm.Buffer.{
  put, put_now, limit_value_buffer_entry, max_value_buffer_size, append_entry,
}
use kvaccel.Ilsm.Buffer.Contents.{Pairs, IsBuffer, total_pages}
use kvaccel.Ilsm.Buffer.Pending.{put_now-buffered}
use kvaccel.Ilsm.Point.{get, get-load32}
use kvaccel.Ilsm.Device.{device}
use kvaccel.Master.{Env, State, track, tracker_size, double_hash}
use kvaccel.Master.Write
use kvaccel.Master.Write.{is_high}
use kvaccel.Master.Coherence.{IsCoherent, view, from_dev, put-stalled}

abbrev pub whole : MainLsm → (Bytes → ℕ → ℕ × ℕ) → Host → Env
whole m murmur h = record { main = m; dev = device h; murmur = murmur }

module _ (h : Host) where
  -- To read the clock changes nothing.
  abbrev pub ClockReads : Type 0
  ClockReads = (w : h.World) → (h.now w).1 ≡ w

  -- What `Get` answers depends on the file and on the device alone.
  get-world :
      (s : Ilsm h.World) (b : BufferingInfo) (o : Stat) (f : List Fault) (key value : Bytes)
      → (get h key value (record s { buffering_info = b; op_stat = o; faults = f })).0
        ≡ (get h key value s).0
  unfolding get nvme_passthru
  get-world s b o f key value = ground arith

  -- An operation whose body is known, with the clock around it.
  timed-known :
      {A : Type 0} (op : IlsmOp) (action : M h.World A) (s t : Ilsm h.World) (a : A)
      → ClockReads
      → action s ≡ (a, t)
      → (o : Stat) × (f : List Fault) × (timed h op action s
          ≡ (a, record t { op_stat = o; faults = f }))
  unfolding timed finish_op
  timed-known op action s t a still known =
      let d = sub_ℕ (h.now t.world).0 (h.now s.world).0 in
      let t' = (finish_op op d t).1 in
      (t'.op_stat, t'.faults, rw (still s.world, known, still t.world) (ground arith))

load32-first_word : (k : Bytes) → load32 (first_word k) 0 ≡ load32 k 0
unfolding load32
load32-first_word k = refl

module _ (m : MainLsm) (murmur : Bytes → ℕ → ℕ × ℕ) (h : Host) where
  abbrev Joined : Env
  Joined = whole m murmur h

  put-known :
      (s : Ilsm h.World) (es : Pairs) (key value : Bytes)
      → ClockReads h
      → s.buffering_info.is_init_required ≡ false
      → IsBuffer s.buffering_info es
      → length es + 1 < limit_value_buffer_entry
      → total_pages es * 4096 + length value ≤ max_value_buffer_size
      → (o : Stat) × (f : List Fault) × (put h key value s ≡ (
        pos 0,
        record s {
          buffering_info = append_entry s.buffering_info key value;
          op_stat = o;
          faults = f;
        },
      ))
  unfolding put
  put-known s es key value still there b room fits =
      timed-known h IlsmOp.put (put_now h key value) s
        (record s { buffering_info = append_entry s.buffering_info key value }) (pos 0) still
        (put_now-buffered h s es key value there b room fits)

  -- Over the device of this program, with a clock that changes nothing when it is read, a stalled
  -- write in a coherent state into an allocated buffer of at most 126 pairs whose value fits
  -- answers OK, but its key reads as what the device answered before.
  pub view-put_pending :
      (s : State Joined) (es : Pairs) (k v value : Bytes)
      → ClockReads h
      → IsCoherent Joined s
      → is_high s.monitor_l0_status ≡ true
      → s.dev.buffering_info.is_init_required ≡ false
      → IsBuffer s.dev.buffering_info es
      → length es + 1 < limit_value_buffer_entry
      → total_pages es * 4096 + length v ≤ max_value_buffer_size
      → ((Write.put Joined s k v).0 ≡ ok)
        × (view Joined (Write.put Joined s k v).1 k value ≡ from_dev Joined s k value)
  unfolding view
  view-put_pending s es k v value still c high there b room fits =
      let (o, f, done) = put-known s.dev es k v still there b room fits in
      let b' = append_entry s.dev.buffering_info k v in
      rw (put-stalled Joined s k v high) (
        refl,
        rw done (
            ground (
              arith,
              contains-insert tracker_size s.key_tracker (track Joined k) (track Joined k) k
                  c.sized,
              get-world h s.dev b' o f k [],
            )),
      )

  load32-same : (k j : Bytes) → first_word k ≡ first_word j → load32 k 0 ≡ load32 j 0
  load32-same k j same = sym (load32-first_word k) ∙ ap (λ w. load32 w 0) same ∙ load32-first_word j

  track-same : (k j : Bytes) → first_word k ≡ first_word j → track Joined k ≡ track Joined j
  unfolding double_hash
  track-same k j same = rw same refl

  -- Over the device of this program, keys with the same first four bytes read the same while one
  -- of them is tracked.
  pub view-first_word :
      (s : State Joined) (k j value : Bytes)
      → first_word k ≡ first_word j
      → contains tracker_size s.key_tracker (track Joined k) ≡ true
      → view Joined s k value ≡ view Joined s j value
  unfolding view
  view-first_word s k j value same tracked =
      let tracked' : contains tracker_size s.key_tracker (track Joined j) ≡ true =
        rw (track-same k j same) at tracked in
      rw (tracked, tracked', get-load32 h s.dev k j [] (load32-same k j same)) refl
