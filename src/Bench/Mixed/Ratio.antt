-- ===== src/Bench/Mixed/Ratio.antt =====
-- How `ReadRandomWriteRandom` of integration/tools/db_bench_tool.cc divides its rounds, and what they
-- leave of the master, while its other callers and threads go on.
use kvaccel.Base.{
  ℕ, zero, suc, ◌+◌, ◌-◌, ◌*◌, ◌/◌, ◌%◌, ◌≤◌, ◌<◌, ◌≡◌, ◌⊎◌, inl, inr, arith, ltb, ltb→lt, ◌==◌,
  ◌&&◌, Bool-cases,
}
use Prim.Native.Nat.{min}
use native.Mathlib.Nat.{suc-mul}
use kvaccel.Master.{Env}
use kvaccel.Base.Bytes.{Bytes}
use kvaccel.Bench.{Leaves, Tools, random_key, Leaves-given}
use kvaccel.Bench.Mixed.{Flags, Locals, refill, read_one, write_one, one_op, mixed_round}
use kvaccel.Bench.Values.{generate_sized}
use kvaccel.Rocks.{is_ok}
use kvaccel.Master.Write.{put}

-- What is done so far is some whole batches of 100 without what is left of the last one, in which
-- the reads come first.
pub record IsBalanced (e : Env) (t : Tools) (p : ℕ) (s : Locals e t) : Type 0 where
  pub batches : ℕ
  pub reads : s.reads_done + s.get_weight ≡ batches * p
  pub all : s.reads_done + s.writes_done + s.get_weight + s.put_weight ≡ 100 * batches
  pub gets : s.get_weight ≤ p
  pub puts : s.put_weight + p ≤ 100
  pub first : 0 < s.get_weight → s.put_weight + p ≡ 100

pub divided :
    (b p r w g q : ℕ)
    → p < 100
    → r + g ≡ b * p
    → r + w + g + q ≡ 100 * b
    → g ≤ p
    → q + p ≤ 100
    → (0 < g → q + p ≡ 100)
    → r ≡ (r + w) / 100 * p + min ((r + w) % 100) p
divided zero p r w g q small reads all gets puts first =
    let none : r + w ≡ 0 = omega (arith, all) in rw none (omega (arith, reads))
divided (suc b) p r w g q small reads all gets puts first = elim (Bool-cases (g + q == 0)) [
  | inl whole ↦
      let n : r + w ≡ 100 * suc b = ground (arith, whole, all) in
      let hundreds : 100 * suc b / 100 ≡ suc b = omega arith in
      let over : 100 * suc b % 100 ≡ 0 = omega arith in
      let rest : g ≡ 0 = ground (arith, whole) in
      rw (n, hundreds, over) (omega (arith, reads, rest))
  | inr part ↦
      let used : 0 < g + q = ground (arith, part) in
      let first' : (g ≡ 0) ⊎ (q + p ≡ 100) = elim (Bool-cases (g == 0)) [
        | inl gone ↦ inl (ground (arith, gone))
        | inr left ↦ inr (first (ground (arith, left)))
      ] in
      let n : r + w ≡ 100 * b + (100 - g - q) = omega (arith, all, first') in
      let hundreds : (r + w) / 100 ≡ b = omega (arith, n, used) in
      let over : (r + w) % 100 ≡ 100 - g - q = omega (arith, n, used) in
      rw (hundreds, over) (omega (arith, reads, first', gets, puts, suc-mul b p))
]

module _ (e : Env) (t : Tools) where
  IsBalanced-refill :
      (p : ℕ) (s : Locals e t) → p ≤ 100 → IsBalanced e t p s → IsBalanced e t p (refill e t p s)
  unfolding refill
  IsBalanced-refill p s small b = elim (Bool-cases (s.get_weight == 0 && s.put_weight == 0)) [
    | inl empty ↦ rw empty (record {
      batches = suc b.batches;
      reads = ground (arith, empty, b.reads, suc-mul b.batches p);
      all = ground (arith, empty, b.all);
      gets = omega arith;
      puts = omega arith;
      first = λ h. omega arith;
    })
    | inr left ↦ rw left b
  ]

  write_one-IsBalanced :
      (f : Flags) (s : Locals e t) (key : Bytes)
      → s.get_weight ≡ 0
      → 0 < s.put_weight
      → IsBalanced e t f.readwritepercent s
      → Leaves (IsBalanced e t f.readwritepercent) (write_one e t f s key)
  unfolding write_one
  write_one-IsBalanced f s key gone left b =
      let (value, gen) = generate_sized f.sizes (t.drawn s.writes_done) s.gen in
      elim (Bool-cases (is_ok (put e s.master key value).0)) [
        | inl done ↦ rw done (record {
          batches = b.batches;
          reads = b.reads;
          all = omega (arith, left, b.all);
          gets = b.gets;
          puts = omega (arith, b.puts);
          first = λ h. absurd (omega (arith, h, gone));
        })
        | inr refused ↦ rw refused (record {
          batches = b.batches;
          reads = b.reads;
          all = b.all;
          gets = b.gets;
          puts = b.puts;
          first = b.first;
        })
      ]

  one_op-IsBalanced :
      (f : Flags) (s : Locals e t) (key : Bytes)
      → IsBalanced e t f.readwritepercent s
      → Leaves (IsBalanced e t f.readwritepercent) (one_op e t f s key)
  unfolding one_op read_one
  one_op-IsBalanced f s key b = elim (Bool-cases (ltb 0 s.get_weight)) [
    | inl gets_left ↦ rw gets_left (record {
      batches = b.batches;
      reads = ground (arith, gets_left, b.reads);
      all = ground (arith, gets_left, b.all);
      gets = ground (arith, b.gets);
      puts = b.puts;
      first = λ h. b.first (ltb→lt _ _ gets_left);
    })
    | inr gone ↦ rw gone (elim (Bool-cases (ltb 0 s.put_weight)) [
      | inl puts_left ↦
          rw puts_left
            (write_one-IsBalanced f s key (ground (arith, gone)) (ltb→lt _ _ puts_left) b)
      | inr none_left ↦ rw none_left b
    ])
  ]

  -- The state in which a round takes its key.
  abbrev pub before_op : Flags → Locals e t → Locals e t
  before_op f s = refill e t f.readwritepercent (record s { rand = (t.next (t.next s.rand).1).1 })

  -- A round leaves what its operation leaves, for whatever key.
  pub mixed_round-Leaves :
      (P : Locals e t → Type 0) (f : Flags) (s : Locals e t)
      → ((key : Bytes) → Leaves P (one_op e t f (before_op f s) key))
      → Leaves P (mixed_round e t f s)
  unfolding mixed_round
  mixed_round-Leaves P f s kept =
      Leaves-given P (random_key f.spec f.num (t.next (t.next s.rand).1).0) _ kept

  pub mixed_round-IsBalanced :
      (f : Flags) (s : Locals e t)
      → f.readwritepercent ≤ 100
      → IsBalanced e t f.readwritepercent s
      → Leaves (IsBalanced e t f.readwritepercent) (mixed_round e t f s)
  mixed_round-IsBalanced f s small b =
      let s₁ : Locals e t = record s { rand = (t.next (t.next s.rand).1).1 } in
      let b₁ : IsBalanced e t f.readwritepercent s₁ = record {
        batches = b.batches;
        reads = b.reads;
        all = b.all;
        gets = b.gets;
        puts = b.puts;
        first = b.first;
      } in
      mixed_round-Leaves (IsBalanced e t f.readwritepercent) f s (λ key.
        one_op-IsBalanced f (before_op f s) key (IsBalanced-refill f.readwritepercent s₁ small b₁))
