-- ===== src/Bench/Seeks/Ends.antt =====
-- `SeekRandom` of integration/tools/db_bench_tool.cc at the end of the store.
use kvaccel.Base.{
  ℕ, zero, suc, ◌+◌, ◌<◌, ◌≡◌, refl, ap, ◌∙◌, Bool, true, false, not, ◌&&◌, arith, ◌==◌,
  if◌then◌else◌, length,
}
use kvaccel.Base.Bytes.{Bytes}
use kvaccel.Master.{Env, State}
use kvaccel.Master.Iterate.{
  iterator_reset, iterator_seek, iterator_next, iterator_compare, iterator_key, iterator_value,
}
use kvaccel.Bench.{Tools, Outcome, undefined}
use kvaccel.Bench.Seeks.{Flags, Locals, advance, read_nexts, seek_once}

module _ (e : Env) (t : Tools) (f : Flags) where
  open e.main use {Iter, seek, valid, next, new_iterator}

  abbrev L : Type 0
  L = Locals e t

  -- `Next`, some times.
  abbrev pub steps : ℕ → Iter → Iter
  steps zero it = it
  steps (suc n) it = steps n (next it)

  both : (b : Bool) (o : Outcome L) → (if b then o else o) ≡ o
  both true o = refl
  both false o = refl

  -- Forward over the Main-LSM alone.
  advance-main :
      (it : Iter) (s : L)
      → f.reverse_iterator ≡ false
      → s.master.kache_flag ≡ 0
      → valid it ≡ true
      → advance e t f it s ≡ (next it, s)
  unfolding advance iterator_next
  advance-main it s forward unstalled there = rw (forward, unstalled, there) refl

  -- What the entry under the iterator adds to the bytes.
  abbrev shown : Iter → L → L
  shown it s = record s {
    bytes = s.bytes + (length (iterator_key e it s.master) + length (iterator_value e it s.master));
  }

  -- An entry that is there.
  read_nexts-there :
      (n : ℕ) (it : Iter) (s : L)
      → f.reverse_iterator ≡ false
      → s.master.kache_flag ≡ 0
      → valid it ≡ true
      → read_nexts e t f (suc n) it s ≡ read_nexts e t f n (next it) (shown it s)
  unfolding read_nexts
  read_nexts-there n it s forward unstalled there =
      let moved = advance e t f it (shown it s) in
      let fine : (s.master.iter_location == 0 && not (valid it)) ≡ false = ground (arith, there) in
      ap (λ b. if b then undefined else read_nexts e t f n moved.0 moved.1) fine
      ∙ ap (λ m. read_nexts e t f n m.0 m.1) (advance-main it (shown it s) forward unstalled there)

  read_nexts-past_end :
      (n nexts : ℕ) (it : Iter) (s : L)
      → f.reverse_iterator ≡ false
      → s.master.kache_flag ≡ 0
      → s.master.iter_location ≡ 0
      → ((i : ℕ) → i < n → valid (steps i it) ≡ true)
      → valid (steps n it) ≡ false
      → n < nexts
      → read_nexts e t f nexts it s ≡ undefined
  unfolding read_nexts
  read_nexts-past_end n zero it s forward unstalled main_side before over less =
      absurd (omega (arith, less))
  read_nexts-past_end zero (suc nexts) it s forward unstalled main_side before over less =
      let moved = advance e t f it (shown it s) in
      let asked : (s.master.iter_location == 0 && not (valid it)) ≡ true =
        ground (arith, main_side, over) in
      ap (λ b. if b then undefined else read_nexts e t f nexts moved.0 moved.1) asked
  read_nexts-past_end (suc n) (suc nexts) it s forward unstalled main_side before over less =
      read_nexts-there nexts it s forward unstalled (before 0 (omega arith))
      ∙ read_nexts-past_end n nexts (next it) (shown it s) forward unstalled main_side
          (λ i less'. before (suc i) (omega (arith, less'))) over (omega (arith, less))

  -- The iterator of a seek over the Main-LSM alone.
  seek-main :
      (m : State e) (k : Bytes)
      → m.kache_flag ≡ 0
      → iterator_seek e (iterator_reset e m).0 (iterator_reset e m).1 k
        ≡ (seek (new_iterator m.main) k, m)
  unfolding iterator_reset iterator_seek
  seek-main m k unstalled = rw unstalled refl

  -- Forward, without `--use_tailing_iterator` and with an empty Dev-LSM and the iterator's place
  -- on the Main-LSM: where the store has fewer entries from the key that is sought on than
  -- `--seek_nexts`, the seek asks RocksDB for the value of an iterator that is not valid.
  pub seek_once-past_end :
      (n : ℕ) (s : L) (k : Bytes)
      → f.use_tailing_iterator ≡ false
      → f.reverse_iterator ≡ false
      → s.master.kache_flag ≡ 0
      → s.master.iter_location ≡ 0
      → (let it = seek (new_iterator s.master.main) k in
          ((i : ℕ) → i < n → valid (steps i it) ≡ true))
      → (let it = seek (new_iterator s.master.main) k in valid (steps n it) ≡ false)
      → n < f.seek_nexts
      → seek_once e t f s k ≡ undefined
  unfolding seek_once
  seek_once-past_end n s k plain forward unstalled main_side before over less =
      let went : Iter × State e → Outcome L = λ r. read_nexts e t f f.seek_nexts r.0 (record s {
        master = r.1;
        read = s.read + 1;
        found = if iterator_compare e r.0 r.1 k then s.found + 1 else s.found;
      }) in
      rw plain (
        ap went (seek-main s.master k unstalled)
        ∙ read_nexts-past_end n f.seek_nexts (seek (new_iterator s.master.main) k) _ forward
            unstalled main_side before over less)
