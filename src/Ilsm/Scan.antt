-- ===== src/Ilsm/Scan.antt =====
-- `RangeScan`, `SeekScan` and `NextScan` of kvaccel/db/db_impl/iLSM.cc.
pub mod Pairing
pub mod Leftovers
use kvaccel.Base.{
  ℕ, zero, suc, ◌+◌, ◌-◌, Bool, true, false, ◌||◌, Option, none, some, List, [], ◌∷◌, ltb, ◌==◌,
  if◌then◌else◌, set, get_or, length, back?, pop_back,
}
use kvaccel.Base.Int.{ℤ, pos, negsuc}
use kvaccel.Base.Bytes.{Bytes}
use kvaccel.Ilsm.{Host, Fault, empty_list, Ilsm, M, ◌>>=◌, ◌>>◌, pure, note, host, read_local}
use kvaccel.Ilsm.Passthru.{timed, kv_range_scan_seek, kv_range_scan_next, IlsmOp}
use kvaccel.Ilsm.Point.{check_iter}
use kvaccel.Ilsm.Bulk.{do_bulky_scan, do_bulky_next_scan}

-- The break point that says that the device has no more keys.
abbrev pub no_more : ℕ
no_more = 0xFFFFFFFF

abbrev pub is_minus_two : ℤ → Bool
is_minus_two (pos n) = false
is_minus_two (negsuc n) = n == 1

abbrev pub pop_front : List Bytes → List Bytes
pop_front [] = []
pop_front (k ∷ ks) = ks

module _ (h : Host) where
  set_scan_cnt : ℕ → ℕ → M h.World (Unit {0})
  set_scan_cnt id n = do check_iter id; λ s. (tt, record s { scan_cnt = set s.scan_cnt id n })

  unfoldable pub set_brk : ℕ → ℕ → M h.World (Unit {0})
  set_brk id n = do check_iter id; λ s. (tt, record s { brk_point_key = set s.brk_point_key id n })

  -- The loop of `RangeScan` makes one round.
  unfoldable pub range_scan : ℕ → ℕ → Bytes → M h.World ℕ
  unfolding set_scan_cnt
  range_scan opcode id key = do
    start ← λ s. (get_or s.brk_point_key id 0, s)
    r ←
        (if opcode == kv_range_scan_seek
          then do_bulky_scan h opcode id key
          else do_bulky_next_scan h opcode id start)
    next ← read_local h r.1
    if is_minus_two r.0 || next == no_more
        then (do set_scan_cnt id no_more; pure next)
        else pure next

  abbrev pub Scanned : Type 0
  Scanned = ℤ × Bytes × Bytes

  -- `keys[iter_id].front()` of an empty list is noted, and reads as the empty text.
  front : List Bytes → M h.World Bytes
  front [] = (do note empty_list; pure [])
  front (k ∷ ks) = pure k

  -- The last value that is left goes with the first key that is left.
  take_pair : ℕ → Bytes → M h.World Scanned
  unfolding front
  take_pair id value = do
    key ← λ s. front (get_or s.keys id []) s
    λ s. (
      tt,
      record s {
        values = set s.values id (pop_back (get_or s.values id []));
        keys = set s.keys id (pop_front (get_or s.keys id []));
      },
    )
    pure (pos 1, key, value)

  -- The copies in `iter_values` and `iter_keys`.
  record_pair : ℕ → Scanned → M h.World Scanned
  record_pair id r s =
      (r, record s { iter_values = set s.iter_values id r.2; iter_keys = set s.iter_keys id r.1 })

  seek_scan_now : ℕ → Bytes → Bytes → M h.World Scanned
  unfolding set_scan_cnt set_brk take_pair record_pair
  seek_scan_now id key value = do
    set_scan_cnt id 1
    next ← range_scan kv_range_scan_seek id key
    set_brk id next
    λ s. elim (back? (get_or s.values id [])) [
      | none ↦ ((negsuc 1, key, value), s)
      | some v ↦ (do r ← take_pair id v; record_pair id r) s
    ]

  scan_again : ℕ → Bytes → Bytes → M h.World Scanned
  unfolding set_brk take_pair
  scan_again id key value = do
    next ← range_scan kv_range_scan_next id []
    set_brk id next
    λ s. elim (back? (get_or s.values id [])) [
      | none ↦ ((negsuc 1, key, value), s)
      | some v ↦ take_pair id v s
    ]

  pub next_scan_now : ℕ → Bytes → Bytes → M h.World Scanned
  unfolding take_pair record_pair scan_again
  next_scan_now id key value s =
      let again =
        (if get_or s.brk_point_key id 0 == no_more
          then ((negsuc 2, key, value), s)
          else scan_again id key value s) in
      elim (back? (get_or s.values id [])) [
        | none ↦ again
        | some v ↦ (do r ← take_pair id v; record_pair id r) s
      ]

  unfoldable pub seek_scan : ℕ → Bytes → Bytes → M h.World Scanned
  unfolding seek_scan_now timed
  seek_scan id key value = timed h IlsmOp.seek (seek_scan_now id key value)

  unfoldable pub next_scan : ℕ → Bytes → Bytes → M h.World Scanned
  unfolding next_scan_now timed
  next_scan id key value = timed h IlsmOp.next (next_scan_now id key value)
