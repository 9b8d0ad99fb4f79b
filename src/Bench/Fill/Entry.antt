-- ===== src/Bench/Fill/Entry.antt =====
-- The body of the inner loop of `DoWrite` in integration/tools/db_bench_tool.cc: which number the
-- next key is made from, and what is written.
use kvaccel.Base.{
  ℕ, zero, suc, ◌+◌, ◌-◌, ◌/◌, ◌%◌, Bool, true, false, ◌&&◌, some, none, Option, List, [], ◌∷◌, ltb,
  leb, ◌==◌, if◌then◌else◌, length, push_back, drop, get_elem?,
}
use mathlib.Core.Option
use kvaccel.Base.Bytes.{Bytes}
use kvaccel.Master.{Env}
use kvaccel.Master.Write.{put}
use kvaccel.Bench.{Tools, Outcome, going, undefined, given, generate_key_from_int}
use kvaccel.Bench.Numbers.{next_number, fetch}
use kvaccel.Bench.Values.{generate_sized}
use kvaccel.Bench.Fill.{Flags, Inputs, delete, delete_range, num_disp_and_pers, is_unique, Locals}

module _ (e : Env) (t : Tools) (f : Flags) (x : Inputs) where
  abbrev L : Type 0
  L = Locals e t

  -- How an entry begins: with the number of a key to write, or with a delete that ends it.
  pub data Choice : Type 0 where
    write_number : ℕ → L → Choice
    skipped : L → Choice

  -- `key_gens[id]->Next()`
  unfoldable pub take_next : L → (ℕ → L → Option Choice) → Option Choice
  take_next s use_it =
      Option.bind (next_number t s.key_gen s.rand)
        (λ d. use_it d.0 (record s { key_gen = d.1; rand = d.2 }))

  -- The window of the last keys: a new one pushes the oldest out.
  pub slide : ℕ → List ℕ → List ℕ
  slide number window =
      if ltb (length window) f.overwrite_window_size
      then push_back window number
      else push_back (drop 1 window) number

  unfoldable pub choose_overwriting : L → Option Choice
  unfolding take_next slide
  choose_overwriting s =
      let size = length s.inserted_key_window in
      let has = ltb 0 size in
      let again = has && x.overwrite_decider s.decisions in
      let s' : L = record s { decisions = if has then s.decisions + 1 else s.decisions } in
      if again
      then Option.bind (get_elem? s.inserted_key_window (x.reservoir_id s.reservoir_reads % size))
          (λ number. some (
            Choice.write_number number (record s' {
              num_overwrites = s.num_overwrites + 1;
              reservoir_reads = s.reservoir_reads + 1;
            })))
      else take_next (record s' { num_unique_keys = s.num_unique_keys + 1 })
          (λ number s''. some (
            Choice.write_number number
              (record s'' { inserted_key_window = slide number s.inserted_key_window })))

  abbrev is_due : List (ℕ × ℕ) → ℕ → Bool
  is_due [] now = false
  is_due (job ∷ jobs) now = ltb job.0 now

  -- The job at the front of the queue is done when all its entries are written and deleted.
  unfoldable pub pop_job : L → L
  pop_job s =
      let due = is_due s.disposable_entries_q (x.clock s.clock_reads) in
      let s' : L = record s { clock_reads = s.clock_reads + 1 } in
      if due && s.persistent_ent_and_del_index == num_disp_and_pers f
      then record s' {
        disposable_entries_q = drop 1 s.disposable_entries_q;
        persistent_ent_and_del_index = 0;
      }
      else s'

  -- "first write all the persistent KV entries not targeted by deletes"
  unfoldable pub write_persistent : L → ℕ → Option Choice
  unfolding pop_job
  write_persistent s first =
      let i = s.persistent_ent_and_del_index in
      Option.bind (fetch s.key_gen (first + f.disposable_entries_batch_size + i)) (λ number. some (
        Choice.write_number number (
          pop_job
            (record s { persistent_ent_and_del_index = i + 1; is_disposable_entry = false }))))

  -- "and then we write the disposable entries deletes"
  unfoldable pub delete_disposable : L → ℕ → Option Choice
  unfolding pop_job
  delete_disposable s first =
      let i = s.persistent_ent_and_del_index in
      Option.bind (fetch s.key_gen (first + (i - f.persistent_entries_batch_size))) (λ number.
        Option.bind (generate_key_from_int f.spec number f.flags_num) (λ key. some (
          Choice.skipped (
            pop_job (record s {
              persistent_ent_and_del_index = i + 1;
              batch = push_back s.batch (delete key);
              bytes = s.bytes + f.spec.key_size;
              num_selective_deletes = s.num_selective_deletes + 1;
            })))))

  unfoldable pub do_job : L → ℕ → Option Choice
  unfolding write_persistent delete_disposable
  do_job s first =
      if ltb s.persistent_ent_and_del_index f.persistent_entries_batch_size
      then write_persistent s first
      else if ltb s.persistent_ent_and_del_index (num_disp_and_pers f)
      then delete_disposable s first
      else none

  -- "If no job is in the queue, then we keep inserting disposable KV entries"
  unfoldable pub write_disposable : L → Option Choice
  write_disposable s = Option.bind (fetch s.key_gen s.disposable_entries_index) (λ number.
      let i = s.disposable_entries_index + 1 in
      let of_batch = i % f.disposable_entries_batch_size in
      if f.disposable_entries_batch_size == 0
      then none
      else some (
          Choice.write_number number (record s {
            disposable_entries_index =
                if of_batch == 0 then i + f.persistent_entries_batch_size else i;
            is_disposable_entry = true;
          })))

  unfoldable pub by_queue : List (ℕ × ℕ) → L → Option Choice
  unfolding do_job write_disposable
  by_queue [] s = write_disposable s
  by_queue (job ∷ jobs) s =
      let s' : L = record s { clock_reads = s.clock_reads + 1 } in
      if ltb job.0 (x.clock s.clock_reads) then do_job s' job.1 else write_disposable s'

  unfoldable pub choose_disposable : L → Option Choice
  unfolding by_queue
  choose_disposable s = by_queue s.disposable_entries_q s

  -- The number of the next key.
  unfoldable pub choose : L → Option Choice
  unfolding choose_overwriting choose_disposable take_next
  choose s =
      if is_unique f.write_mode && f.overwrites
      then choose_overwriting s
      else if ltb 0 (num_disp_and_pers f)
      then choose_disposable s
      else take_next s (λ number s'. some (Choice.write_number number s'))

  -- A random string of the entry's kind, or a slice of the generator's data.
  unfoldable pub make_value : L → Bytes × L
  make_value s =
      if ltb 0 (num_disp_and_pers f)
      then (
        x.random_string s.strings (
            if s.is_disposable_entry
            then f.disposable_entries_value_size
            else f.persistent_entries_value_size),
        record s { strings = s.strings + 1; num_unique_keys = s.num_unique_keys + 1 },
      )
      else let (value, gen) = generate_sized f.sizes (t.drawn s.num_written) s.gen in
        (value, record s { gen = gen })

  -- What `Put` answers is dropped.
  unfoldable pub put_entry : Bytes → L → L
  unfolding make_value
  put_entry key s =
      let (value, s') = make_value s in
      record s' {
        master = (put e s.master key value).1;
        bytes = s.bytes + (length value + f.spec.key_size);
        num_written = s.num_written + 1;
      }

  -- The last disposable entry of a batch schedules its job.
  unfoldable pub schedule : L → L
  schedule s =
      let k = num_disp_and_pers f in
      if ltb 0 k && (s.is_disposable_entry && s.disposable_entries_index % k == 0)
      then record s {
        clock_reads = s.clock_reads + 1;
        disposable_entries_q = push_back s.disposable_entries_q (
          x.clock s.clock_reads + f.disposable_entries_delete_delay,
          s.disposable_entries_index - k,
        );
      }
      else s

  -- Deletes of `n` keys one by one.
  unfoldable pub expand : ℕ → ℕ → L → Outcome L
  expand zero number s = going s
  expand (suc n) number s =
      let rest = expand n (number + 1) in
      given (generate_key_from_int f.spec number f.flags_num)
        (λ key. rest (record s { batch = push_back s.batch (delete key) }))

  unfoldable pub delete_from : ℕ → L → Outcome L
  unfolding expand
  delete_from number s =
      if f.expand_range_tombstones
      then expand f.range_tombstone_width number s
      else given (generate_key_from_int f.spec number f.flags_num) (λ begin.
        given (generate_key_from_int f.spec (number + f.range_tombstone_width) f.flags_num)
          (λ end_key. going (record s { batch = push_back s.batch (delete_range begin end_key) })))

  unfoldable pub is_range_deletion_due : L → Bool
  is_range_deletion_due s =
      let after = s.num_written - f.writes_before_delete_range in
      let every = f.writes_per_range_tombstone in
      ltb 0 every
      && (ltb f.writes_before_delete_range s.num_written
          && (leb (after / every) f.max_num_range_tombstones && after % every == 0))

  unfoldable pub range_deletion : L → Outcome L
  unfolding is_range_deletion_due delete_from
  range_deletion s =
      if is_range_deletion_due s
      then given (next_number t s.key_gen s.rand) (λ d.
        delete_from d.0
          (record s { num_range_deletions = s.num_range_deletions + 1; key_gen = d.1; rand = d.2 }))
      else going s

  -- Behind the choice.
  unfoldable pub complete : Option Choice → Outcome L
  unfolding put_entry schedule range_deletion
  complete none = undefined
  complete (some (Choice.write_number number s)) =
      given (generate_key_from_int f.spec number f.flags_num)
        (λ key. range_deletion (schedule (put_entry key s)))
  complete (some (Choice.skipped s)) = going s

  unfoldable pub write_entry : L → Outcome L
  unfolding choose complete
  write_entry s = complete (choose s)
