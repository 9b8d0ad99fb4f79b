-- ===== src/Ilsm/Buffer/Pending.antt =====
-- A `Put` of kvaccel/db/db_impl/iLSM.cc that stays in the buffer: what it does.
use kvaccel.Base.{◌+◌, ◌*◌, ◌≤◌, ◌<◌, ◌≡◌, true, false, arith, length, leb, le→leb, ◌==◌}
use kvaccel.Base.Int.{pos}
use kvaccel.Base.Bytes.{Bytes}
use kvaccel.Ilsm.{Host, Ilsm, BufferingInfo}
use kvaccel.Ilsm.Passthru.{page_size}
use kvaccel.Ilsm.Buffer.{
  append_entry, put_now, buffering, u32, bytes_per_kv_pair, max_value_buffer_size,
  limit_value_buffer_entry, insert_pair, max_key_value_buffer_size,
}
use kvaccel.Ilsm.Buffer.Contents.{Pairs, IsBuffer, total_pages}

module _ (h : Host) where
  insert_pair_lem :
      (s : Ilsm h.World) (key value : Bytes)
      → leb
          (u32 (s.buffering_info.value_log_offset * page_size) + length value)
          max_value_buffer_size
        ≡ true
      → leb
          (u32 (s.buffering_info.kv_pair_offset * bytes_per_kv_pair) + bytes_per_kv_pair)
          max_key_value_buffer_size
        ≡ true
      → insert_pair h key value s
        ≡ (pos 0, record s { buffering_info = append_entry s.buffering_info key value })
  unfolding insert_pair
  insert_pair_lem s key value values pairs = rw (values, pairs)

  buffering_lem :
      (s : Ilsm h.World) (key value : Bytes) (b : BufferingInfo)
      → s.buffering_info.is_init_required ≡ false
      → insert_pair h key value s ≡ (pos 0, record s { buffering_info = b })
      → buffering h key value s ≡ (pos 0, record s { buffering_info = b })
  unfolding buffering
  buffering_lem s key value b there inserted = ground (arith, inserted)

  put_now_lem :
      (s : Ilsm h.World) (key value : Bytes) (b : BufferingInfo)
      → buffering h key value s ≡ (pos 0, record s { buffering_info = b })
      → (b.kv_pair_offset == limit_value_buffer_entry) ≡ false
      → put_now h key value s ≡ (pos 0, record s { buffering_info = b })
  unfolding put_now
  put_now_lem s key value b done below = rw done (rw below)

  -- A `_Put` into an allocated buffer of at most 126 pairs whose value fits answers 0 and changes
  -- the buffer alone: nothing is sent to the device.
  pub put_now-buffered :
      (s : Ilsm h.World) (es : Pairs) (key value : Bytes)
      → s.buffering_info.is_init_required ≡ false
      → IsBuffer s.buffering_info es
      → length es + 1 < limit_value_buffer_entry
      → total_pages es * 4096 + length value ≤ max_value_buffer_size
      → put_now h key value s
        ≡ (pos 0, record s { buffering_info = append_entry s.buffering_info key value })
  put_now-buffered s es key value there v room fits =
      let b = s.buffering_info in
      let values : leb (u32 (b.value_log_offset * page_size) + length value) max_value_buffer_size
          ≡ true =
        le→leb _ _ (omega (arith, v.page_count)) in
      let pairs : leb (u32 (b.kv_pair_offset * bytes_per_kv_pair) + bytes_per_kv_pair)
            max_key_value_buffer_size
          ≡ true =
        le→leb _ _ (omega (arith, v.pair_count)) in
      put_now_lem s key value (append_entry b key value)
        (buffering_lem s key value (append_entry b key value) there
          (insert_pair_lem s key value values pairs))
        (unfold append_entry in ground (arith, v.pair_count))
