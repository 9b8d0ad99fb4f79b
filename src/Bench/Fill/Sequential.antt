-- ===== src/Bench/Fill/Sequential.antt =====
-- What `DoWrite` of integration/tools/db_bench_tool.cc leaves in the store when it fills it in order
-- (`fillseq`) and nothing stalls.
pub mod Readback
use kvaccel.Base.{
  ℕ, zero, suc, ◌+◌, ◌*◌, ◌/◌, ◌≤◌, ◌<◌, ◌^◌, ◌≡◌, ◌≢◌, ◌⊎◌, refl, sym, ◌∙◌, ap, true, false, some,
  none, List, [], inl, inr, ltb, ◌==◌, arith, Bool-cases,
}
use mathlib.Core.Option
use Prim.Native.Nat.{min}
use kvaccel.Base.Bytes.{Bytes}
use kvaccel.Rocks.{ok, IsStore, is_ok}
use kvaccel.Master.{Env, State}
use kvaccel.Master.Write.{put, get, main_put, is_high}
use kvaccel.Bench.{Tools, Outcome, going, generate_key_from_int, fill_field, given}
use kvaccel.Bench.Keys.{generate-plain, bytes_lt-fill_field, bytes_lt_refl}
use kvaccel.Master.Iterate.{bytes_lt}
use kvaccel.Bench.Numbers.{sequential, next_number}
use kvaccel.Bench.Fill.{Flags, Inputs, num_disp_and_pers, is_unique, is_valid, Locals}
use kvaccel.Bench.Fill.Entry.{
  write_entry, Choice, choose, take_next, complete, put_entry, schedule, range_deletion,
  is_range_deletion_due, make_value,
}
use kvaccel.Bench.Fill.Loop.{
  write_entries, select, write_batch, write_loop, do_write, fresh_locals, num_ops,
}

-- The flags of a plain fill in order.
pub record IsPlain (f : Flags) : Type 0 where
  pub in_order : f.write_mode ≡ sequential
  pub no_jobs : num_disp_and_pers f ≡ 0
  pub no_tombstones : f.writes_per_range_tombstone ≡ 0
  pub no_keys : f.spec.keys ≡ []
  pub no_prefix : f.spec.keys_per_prefix ≡ 0

module _ (e : Env) (t : Tools) (f : Flags) (x : Inputs) where
  abbrev L : Type 0
  L = Locals e t

  -- The state in which the number of the next key has been taken.
  abbrev pub taken : L → L
  taken s = record s { key_gen = record s.key_gen { next_ = s.key_gen.next_ + 1 } }

  pub choose-plain :
      (s : L)
      → IsPlain f
      → s.key_gen.mode ≡ sequential
      → choose e t f x s ≡ some (Choice.write_number s.key_gen.next_ (taken s))
  unfolding choose take_next next_number Option.bind
  choose-plain s p mode = rw (p.in_order, p.no_jobs, mode) refl

  pub complete-plain :
      (s : L) (number : ℕ)
      → IsPlain f
      → complete e t f x (some (Choice.write_number number s))
        ≡ going (put_entry e t f x (fill_field f.spec.key_size number) s)
  unfolding complete schedule range_deletion is_range_deletion_due
  complete-plain s number p =
      rw
        (generate-plain f.spec number f.flags_num p.no_keys p.no_prefix, p.no_jobs, p.no_tombstones)
        refl

  -- After `n` entries on a store that does not stall: the keys of the numbers below `n` are there.
  pub record IsFilled (n : ℕ) (s : L) : Type 0 where
    pub unstalled : s.master.kache_flag ≡ 0
    pub calm : is_high s.master.monitor_l0_status ≡ false
    pub mode : s.key_gen.mode ≡ sequential
    pub taken_up_to : s.key_gen.next_ ≡ n
    pub written : s.num_written ≡ n
    pub last : s.next_seq_db_at ≡ num_ops f
    pub stored :
        (i : ℕ) → i < n → is_ok (e.main.get s.master.main (fill_field f.spec.key_size i)).0 ≡ true

  -- Writes into the Main-LSM are acknowledged.
  abbrev pub Accepts : Type 0
  Accepts = (s : e.main.State) (k v : Bytes) → (e.main.put s k v).0 ≡ ok

  put_main :
      (s : State e) (k v : Bytes)
      → s.kache_flag ≡ 0
      → is_high s.monitor_l0_status ≡ false
      → (put e s k v).1 ≡ record s { main = (e.main.put s.main k v).1 }
  unfolding put main_put
  put_main s k v unstalled calm = rw (calm, unstalled) refl

  fill_field-ne :
      (i n : ℕ)
      → i < n
      → n < 2 ^ (8 * min f.spec.key_size 8)
      → fill_field f.spec.key_size n ≢ fill_field f.spec.key_size i
  fill_field-ne i n less small same =
      let ks = f.spec.key_size in
      let order : bytes_lt (fill_field ks i) (fill_field ks n) ≡ ltb i n =
        bytes_lt-fill_field ks i n (omega (arith, less, small)) small in
      let order' : bytes_lt (fill_field ks i) (fill_field ks i) ≡ ltb i n = rw same at order in
      let self = bytes_lt_refl (fill_field ks i) in ground (arith, order', self, less)

  stored-put :
      (n i : ℕ) (m : e.main.State) (v : Bytes)
      → IsStore e.main
      → Accepts
      → n < 2 ^ (8 * min f.spec.key_size 8)
      → (i < n → is_ok (e.main.get m (fill_field f.spec.key_size i)).0 ≡ true)
      → i < n + 1
      → is_ok
          (e.main.get
            (e.main.put m (fill_field f.spec.key_size n) v).1
            (fill_field f.spec.key_size i)).0
        ≡ true
  stored-put n i m v store accepts small before less = elim (Bool-cases (i == n)) [
    | inl same ↦
        let e' : i ≡ n = ground (arith, same) in
        rw (e', store.get-put m (fill_field f.spec.key_size n) v (accepts m _ v)) refl
    | inr other ↦
        let less' : i < n = ground (arith, other, less) in
        rw
          (store.get-put_ne m (fill_field f.spec.key_size n) (fill_field f.spec.key_size i) v
            (fill_field-ne i n less' small))
          (before less')
  ]

  make_value-kept :
      (s : L)
      → ((make_value e t f x s).1.key_gen ≡ s.key_gen)
        × ((make_value e t f x s).1.next_seq_db_at ≡ s.next_seq_db_at)
  unfolding make_value
  make_value-kept s = elim (Bool-cases (ltb 0 (num_disp_and_pers f))) [
    | inl jobs ↦ rw jobs (refl, refl)
    | inr plain ↦ rw plain (refl, refl)
  ]

  pub IsFilled-put_entry :
      (n : ℕ) (s : L)
      → IsStore e.main
      → Accepts
      → n < 2 ^ (8 * min f.spec.key_size 8)
      → IsFilled n s
      → IsFilled (n + 1) (put_entry e t f x (fill_field f.spec.key_size n) (taken s))
  unfolding put_entry
  IsFilled-put_entry n s store accepts small i =
      let key = fill_field f.spec.key_size n in
      let value = (make_value e t f x (taken s)).0 in
      let kept = make_value-kept (taken s) in
      let there = put_main s.master key value i.unstalled i.calm in
      record {
        unstalled = rw there i.unstalled;
        calm = rw there i.calm;
        mode = rw kept.0 i.mode;
        taken_up_to = rw kept.0 (omega (arith, i.taken_up_to));
        written = omega (arith, i.written);
        last = kept.1 ∙ i.last;
        stored = λ j less.
            rw there (stored-put n j s.master.main value store accepts small (i.stored j) less);
      }
