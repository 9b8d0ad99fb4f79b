-- ===== src/Ilsm/Buffer/Fuel.antt =====
-- The loop of `_ValueFlush` in kvaccel/db/db_impl/iLSM.cc ends by its own condition.
use kvaccel.Base.{
  ℕ, zero, suc, ◌+◌, ◌*◌, ◌≤◌, ◌≡◌, refl, arith, ltb, false, inl, inr, Bool-cases, ltb→lt,
}
use kvaccel.Base.Int.{is_neg}
use kvaccel.Memory.{from}
use kvaccel.Ilsm.{Host, Ilsm, BufferingInfo}
use kvaccel.Ilsm.Passthru.{nvme_passthru}
use kvaccel.Ilsm.Buffer.{
  flush_chunks, value_flush, value_command, chunk_length, total_length, chunk_size,
  limit_value_buffer_entry, max_value_buffer_entry, u32,
}

module _ (h : Host) where
  flush_chunks-fuel :
      (n k : ℕ) (b : BufferingInfo) (i : ℕ) (s : Ilsm h.World)
      → b.value_log_offset ≤ max_value_buffer_entry
      → i ≤ 3
      → b.value_log_offset ≤ (i + n) * limit_value_buffer_entry
      → flush_chunks h (n + k) b i s ≡ flush_chunks h n b i s
  unfolding flush_chunks
  flush_chunks-fuel zero zero b i s small low enough = refl
  flush_chunks-fuel zero (suc k) b i s small low enough =
      let over : ltb (u32 (i * limit_value_buffer_entry)) b.value_log_offset ≡ false =
        ground arith in
      let e : zero + suc k ≡ suc k = omega arith in rw (e, over) refl
  flush_chunks-fuel (suc n) k b i s small low enough =
      let e : suc n + k ≡ suc (n + k) = omega arith in
      let len = chunk_length b.value_log_offset (total_length b) i in
      let sent =
        nvme_passthru h (value_command len i) (from b.value_log (u32 (i * chunk_size))) s in
      let there = u32 (i * limit_value_buffer_entry) in
      elim (Bool-cases (ltb there b.value_log_offset)) [
        | inr over ↦ rw (e, over) refl
        | inl more ↦ elim (Bool-cases (is_neg sent.0.err)) [
          | inl failed ↦ rw (e, more, failed) refl
          | inr done ↦
              rw (e, more, done)
                (flush_chunks-fuel n k b (i + 1) sent.1 small
                  (omega (arith, ltb→lt there b.value_log_offset more)) (omega arith))
        ]
      ]

  -- For a buffer of at most 341 pages, whatever the device answers, the loop of `_ValueFlush` ends
  -- by its own condition: with any more fuel it does the same.
  pub value_flush-fuel :
      (s : Ilsm h.World) (k : ℕ)
      → s.buffering_info.value_log_offset ≤ max_value_buffer_entry
      → flush_chunks h (s.buffering_info.value_log_offset + 1 + k) s.buffering_info 0 s
        ≡ value_flush h s
  unfolding value_flush
  value_flush-fuel s k small =
      flush_chunks-fuel (s.buffering_info.value_log_offset + 1) k s.buffering_info 0 s small
        (omega arith) (omega arith)
