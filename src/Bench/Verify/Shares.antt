-- ===== src/Bench/Verify/Shares.antt =====
-- What `RandomWithVerify` of integration/tools/db_bench_tool.cc has done after whole batches of rounds.
use kvaccel.Base.{
  subst, ℕ, zero, suc, ◌+◌, ◌*◌, ◌<◌, ◌≡◌, refl, ◌∙◌, ap, some, [], ◌==◌, arith, inl, inr,
  Bool-cases,
}
use native.Mathlib.Nat.{mul-add}
use kvaccel.Base.Int.{pos}
use kvaccel.Base.Bytes.{Bytes}
use kvaccel.Bench.{Tools, going, and_then, random_key}
use kvaccel.Bench.Keys.{generate-plain}
use kvaccel.Bench.Values.{RandomGenerator}
use kvaccel.Bench.Many.{BatchDb}
use kvaccel.Bench.Verify.{
  Flags, Locals, verify_refill, verify_round, verify_rounds, random_with_verify,
}
use kvaccel.Bench.Verify.Turns.{IsUsable, IsDivided, puts_percent, left, after_op, after_refill}

module _ (t : Tools) (b : BatchDb) (f : Flags) (u : IsUsable b f) where
  abbrev L : Type 0
  L = Locals t b

  parts :
      (c : ℕ) → c * f.readwritepercent + c * (puts_percent t b f) + c * f.deletepercent ≡ c * 100
  parts c =
      let whole : f.readwritepercent + (puts_percent t b f) + f.deletepercent ≡ 100 =
        omega (arith, u.percents) in
      omega (
        arith,
        mul-add c (f.readwritepercent + (puts_percent t b f)) f.deletepercent,
        mul-add c f.readwritepercent (puts_percent t b f),
        ap (λ n. c * n) whole,
      )

  whole_batches :
      (k c q g x gets puts deletes : ℕ)
      → gets + g ≡ c * f.readwritepercent
      → puts + q ≡ c * (puts_percent t b f)
      → deletes + x ≡ c * f.deletepercent
      → gets + puts + deletes ≡ 100 * k
      → g + q + x < 100
      → (gets ≡ k * f.readwritepercent) × (deletes ≡ k * f.deletepercent)
  whole_batches k c q g x gets puts deletes reads writes dels all small =
      let sum = parts c in
      let same : c ≡ k = omega (arith, sum, reads, writes, dels, all, small) in
      let over : g + q + x ≡ 0 = omega (arith, sum, reads, writes, dels, all, same) in
      (
        omega (arith, reads, over) ∙ ap (λ n. n * f.readwritepercent) same,
        omega (arith, dels, over) ∙ ap (λ n. n * f.deletepercent) same,
      )

  random_key-made :
      (number : ℕ) → (key : Bytes) × (random_key f.spec f.numdistinct number ≡ some key)
  unfolding random_key
  random_key-made number = elim (Bool-cases (f.numdistinct == 0)) [
    | inl none_there ↦ absurd (u.some_keys (ground (arith, none_there)))
    | inr there ↦ rw there (_, generate-plain f.spec _ f.numdistinct u.no_keys u.no_prefix)
  ]

  after_round :
      (n batches p : ℕ) (s : L)
      → IsDivided t b f n batches p s
      → left t b f p s < 100
      → (s' : L) × (c : ℕ) × (q : ℕ) × (verify_round t b f s ≡ going s')
        × IsDivided t b f (n + 1) c q s'
        × (left t b f q s' < 100)
  unfolding verify_round
  after_round n batches p s i small =
      let (number, rand) = t.next (t.next s.rand).1 in
      let s₁ : L = record s { rand = rand } in
      let i₁ : IsDivided t b f n batches p s₁ = record {
        put_left = i.put_left;
        gets = i.gets;
        puts = i.puts;
        deletes = i.deletes;
        all = i.all;
      } in
      let (c, q₁, j, due, bound) = after_refill t b f u n batches p s₁ i₁ small in
      let (key, made) = random_key-made number in
      let (s', q, went, k, one_less) = after_op t b f u n c q₁ (verify_refill t b f s₁) key j due in
      (s', c, q, rw made went, k, omega (arith, one_less, bound))

  after_rounds :
      (m n batches p : ℕ) (s : L)
      → IsDivided t b f n batches p s
      → left t b f p s < 100
      → (s' : L) × (c : ℕ) × (q : ℕ) × (verify_rounds t b f m s ≡ going s')
        × IsDivided t b f (n + m) c q s'
        × (left t b f q s' < 100)
  unfolding verify_rounds
  after_rounds zero n batches p s i small =
      (s, batches, p, refl, subst (λ k. IsDivided t b f k batches p s) (omega arith) i, small)
  after_rounds (suc m) n batches p s i small =
      let (s₁, c₁, q₁, went, i₁, small₁) = after_round n batches p s i small in
      let (s', c, q, rest, j, bound) = after_rounds m (n + 1) c₁ q₁ s₁ i₁ small₁ in
      (
        s',
        c,
        q,
        ap (λ o. and_then o (verify_rounds t b f m)) went ∙ rest,
        subst (λ k. IsDivided t b f k c q s') (omega arith) j,
        bound,
      )

  -- With percentages of reads and deletes that are at most 100 together, over a database that
  -- takes every batch, with at least one key, no existing keys and no prefixes: 100 k rounds of
  -- `RandomWithVerify` end without an error, and have done k times the first percentage of reads,
  -- k times the second of deletes, and 100 k operations in all.
  random_with_verify-shares :
      (k : ℕ) (db : b.Db) (rand : t.Random) (gen : RandomGenerator)
      → (s : L) × (random_with_verify t b f (100 * k) db rand gen ≡ going s)
        × (s.gets_done ≡ k * f.readwritepercent)
        × (s.deletes_done ≡ k * f.deletepercent)
        × (s.gets_done + s.puts_done + s.deletes_done ≡ 100 * k)
  unfolding random_with_verify
  random_with_verify-shares k db rand gen =
      let fresh : L = record {
        db = db;
        rand = rand;
        gen = gen;
        value = [];
        found = 0;
        get_weight = 0;
        put_weight = pos 0;
        delete_weight = 0;
        gets_done = 0;
        puts_done = 0;
        deletes_done = 0;
      } in
      let begun : IsDivided t b f 0 0 0 fresh = record {
        put_left = refl;
        gets = omega arith;
        puts = omega arith;
        deletes = omega arith;
        all = omega arith;
      } in
      let (s, c, q, went, i, small) = after_rounds (100 * k) 0 0 0 fresh begun (omega arith) in
      let (gets, deletes) =
        whole_batches k c q s.get_weight s.delete_weight s.gets_done s.puts_done s.deletes_done
          i.gets i.puts i.deletes (i.all ∙ omega arith) small in
      (s, went, gets, deletes, i.all ∙ omega arith)
