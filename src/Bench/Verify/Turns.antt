-- ===== src/Bench/Verify/Turns.antt =====
-- How `RandomWithVerify` of integration/tools/db_bench_tool.cc divides its rounds.
use kvaccel.Base.{
  ℕ, zero, suc, ◌+◌, ◌-◌, ◌*◌, ◌≤◌, ◌<◌, ◌≡◌, ◌≢◌, refl, ◌∙◌, ap, List, [], true, false, ltb, ◌==◌,
  ◌&&◌, arith, inl, inr, Bool-cases, Option,
}
use native.Mathlib.Nat.{suc-mul}
use kvaccel.Base.Int.{pos}
use kvaccel.Base.Bytes.{Bytes}
use kvaccel.Rocks.{ok}
use kvaccel.Bench.{Tools, going}
use kvaccel.Bench.Many.{BatchDb, put_many, delete_many}
use kvaccel.Bench.Verify.{
  Flags, Locals, is_zero, is_above_zero, less_one, verify_refill, verify_get, verify_put,
  verify_delete, verify_op,
}

-- Percentages as they are documented; keys, all generated and without a prefix; a database that
-- takes every batch.
pub record IsUsable (b : BatchDb) (f : Flags) : Type 0 where
  pub percents : f.readwritepercent + f.deletepercent ≤ 100
  pub some_keys : f.numdistinct ≢ 0
  pub no_keys : f.spec.keys ≡ []
  pub no_prefix : f.spec.keys_per_prefix ≡ 0
  pub takes : (d : b.Db) (ops : List (Bytes × Option Bytes)) → (b.write d ops).0 ≡ ok

module _ (t : Tools) (b : BatchDb) (f : Flags) where
  abbrev L : Type 0
  L = Locals t b

  abbrev pub puts_percent : ℕ
  puts_percent = 100 - (f.readwritepercent + f.deletepercent)

  -- After `n` operations, with `p` writes and as many reads and deletes as the weights say to do in
  -- the last of the batches of 100.
  pub record IsDivided (n batches p : ℕ) (s : L) : Type 0 where
    pub put_left : s.put_weight ≡ pos p
    pub gets : s.gets_done + s.get_weight ≡ batches * f.readwritepercent
    pub puts : s.puts_done + p ≡ batches * puts_percent
    pub deletes : s.deletes_done + s.delete_weight ≡ batches * f.deletepercent
    pub all : s.gets_done + s.puts_done + s.deletes_done ≡ n

  -- What is left of the batch.
  abbrev pub left : ℕ → L → ℕ
  left p s = s.get_weight + p + s.delete_weight

  module _ (u : IsUsable b f) where
    after_get :
        (n batches p : ℕ) (s : L) (key : Bytes)
        → IsDivided n batches p s
        → 0 < s.get_weight
        → IsDivided (n + 1) batches p (verify_get t b s key)
    unfolding verify_get
    after_get n batches p s key i some_left = record {
      put_left = i.put_left;
      gets = omega (arith, i.gets, some_left);
      puts = i.puts;
      deletes = i.deletes;
      all = omega (arith, i.all);
    }

    put_many-ok : (d : b.Db) (key value : Bytes) → (put_many b d key value).0 ≡ ok
    unfolding put_many
    put_many-ok d key value = u.takes d _

    delete_many-ok : (d : b.Db) (key : Bytes) → (delete_many b d key).0 ≡ ok
    unfolding delete_many
    delete_many-ok d key = u.takes d _

    after_put :
        (n batches p : ℕ) (s : L) (key : Bytes)
        → IsDivided n batches (suc p) s
        → (s' : L) × (verify_put t b f s key ≡ going s')
          × IsDivided (n + 1) batches p s'
          × (s'.get_weight ≡ s.get_weight)
          × (s'.delete_weight ≡ s.delete_weight)
    unfolding verify_put
    after_put n batches p s key i = rw (put_many-ok s.db key _) (
      _,
      refl,
      record {
        put_left = ap less_one i.put_left;
        gets = i.gets;
        puts = omega (arith, i.puts);
        deletes = i.deletes;
        all = omega (arith, i.all);
      },
      refl,
      refl,
    )

    after_delete :
        (n batches p : ℕ) (s : L) (key : Bytes)
        → IsDivided n batches p s
        → 0 < s.delete_weight
        → (s' : L) × (verify_delete t b s key ≡ going s')
          × IsDivided (n + 1) batches p s'
          × (s'.get_weight ≡ s.get_weight)
          × (s'.delete_weight + 1 ≡ s.delete_weight)
    unfolding verify_delete
    after_delete n batches p s key i some_left = rw (delete_many-ok s.db key) (
      _,
      refl,
      record {
        put_left = i.put_left;
        gets = i.gets;
        puts = i.puts;
        deletes = omega (arith, i.deletes, some_left);
        all = omega (arith, i.all);
      },
      refl,
      omega (arith, some_left),
    )

    got_one :
        (s : L) (key : Bytes) (p : ℕ)
        → 0 < s.get_weight
        → left p (verify_get t b s key) + 1 ≡ left p s
    unfolding verify_get
    got_one s key p some_left = omega (arith, some_left)

    -- No read is due.
    after_change :
        (n batches p : ℕ) (s : L) (key : Bytes)
        → IsDivided n batches p s
        → 0 < left p s
        → ltb 0 s.get_weight ≡ false
        → (s' : L) × (q : ℕ) × (verify_op t b f s key ≡ going s')
          × IsDivided (n + 1) batches q s'
          × (left q s' + 1 ≡ left p s)
    unfolding verify_op
    after_change n batches zero s key i due no_gets =
        let no_puts : is_above_zero s.put_weight ≡ false = ap is_above_zero i.put_left in
        let deletes : ltb 0 s.delete_weight ≡ true = ground (arith, due, no_gets) in
        let (s', went, j, gets, one_less) =
          after_delete n batches zero s key i (ground (arith, deletes)) in
        (s', zero, rw (no_gets, no_puts, deletes) went, j, omega (arith, gets, one_less))
    after_change n batches (suc p) s key i due no_gets =
        let puts : is_above_zero s.put_weight ≡ true = ap is_above_zero i.put_left ∙ ground arith in
        let (s', went, j, gets, deletes) = after_put n batches p s key i in
        (s', p, rw (no_gets, puts) went, j, omega (arith, gets, deletes))

    pub after_op :
        (n batches p : ℕ) (s : L) (key : Bytes)
        → IsDivided n batches p s
        → 0 < left p s
        → (s' : L) × (q : ℕ) × (verify_op t b f s key ≡ going s')
          × IsDivided (n + 1) batches q s'
          × (left q s' + 1 ≡ left p s)
    unfolding verify_op
    after_op n batches p s key i due = elim (Bool-cases (ltb 0 s.get_weight)) [
      | inl gets ↦
          let some_left : 0 < s.get_weight = ground (arith, gets) in
          (
            verify_get t b s key,
            p,
            rw gets refl,
            after_get n batches p s key i some_left,
            got_one s key p some_left,
          )
      | inr no_gets ↦ after_change n batches p s key i due no_gets
    ]

    -- What a round finds, behind the start of a new batch where one is due.
    pub after_refill :
        (n batches p : ℕ) (s : L)
        → IsDivided n batches p s
        → left p s < 100
        → (c : ℕ) × (q : ℕ) × IsDivided n c q (verify_refill t b f s)
          × (0 < left q (verify_refill t b f s))
          × (left q (verify_refill t b f s) ≤ 100)
    unfolding verify_refill
    after_refill n batches p s i small = elim (Bool-cases (left p s == 0)) [
      | inl over ↦
          let none_left : left p s ≡ 0 = ground (arith, over) in
          let test : (s.get_weight == 0 && (is_zero s.put_weight && s.delete_weight == 0)) ≡ true =
            rw (ap is_zero i.put_left) (ground (arith, none_left)) in
          rw test (
            batches + 1,
            puts_percent,
            record {
              put_left = ground (arith, u.percents);
              gets = omega (arith, i.gets, none_left, suc-mul batches f.readwritepercent);
              puts = omega (arith, i.puts, none_left, suc-mul batches puts_percent);
              deletes = omega (arith, i.deletes, none_left, suc-mul batches f.deletepercent);
              all = i.all;
            },
            omega (arith, u.percents),
            omega (arith, u.percents),
          )
      | inr more ↦
          let some_left : 0 < left p s = ground (arith, more) in
          let test : (s.get_weight == 0 && (is_zero s.put_weight && s.delete_weight == 0)) ≡ false =
            rw (ap is_zero i.put_left) (ground (arith, some_left)) in
          rw test (batches, p, i, some_left, omega (arith, small))
    ]
