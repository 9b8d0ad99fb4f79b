-- ===== src/Bench/Fill/Unwritten.antt =====
-- The deletes of `DoWrite` in integration/tools/db_bench_tool.cc, which go into a batch that nobody
-- writes.
use kvaccel.Base.{
  ℕ, ◌+◌, ◌≡◌, refl, ◌∙◌, ap, subst, Bool, true, false, ◌&&◌, none, some, Option, List, [], ◌∷◌,
  ltb, ◌==◌, if◌then◌else◌, arith,
}
use mathlib.Core.Option
use kvaccel.Bench.{Tools, going}
use kvaccel.Bench.Fill.{Flags, Inputs, Locals, num_disp_and_pers, is_unique}
use kvaccel.Bench.Fill.Entry.{
  Choice, write_entry, choose, complete, take_next, choose_overwriting, pop_job, write_persistent,
  delete_disposable, do_job, write_disposable, choose_disposable, by_queue,
}
use kvaccel.Master.{Env}

module _ (e : Env) (t : Tools) (f : Flags) (x : Inputs) where
  abbrev L : Type 0
  L = Locals e t

  -- If the entry ends with a delete, the delete was counted, and the store is as before.
  abbrev Unwritten : L → Option (Choice e t f x) → Type 0
  Unwritten s none = Unit {0}
  Unwritten s (some (Choice.write_number number s')) = Unit {0}
  Unwritten s (some (Choice.skipped s')) =
      (s'.master ≡ s.master) × (s'.num_selective_deletes ≡ s.num_selective_deletes + 1)

  Unwritten-bind :
      {B : Type 0} (s : L) (o : Option B) (after : B → Option (Choice e t f x))
      → ((b : B) → Unwritten s (after b))
      → Unwritten s (Option.bind o after)
  unfolding Option.bind
  Unwritten-bind s none after kept = tt
  Unwritten-bind s (some b) after kept = kept b

  pop_job-kept :
      (s : L)
      → ((pop_job e t f x s).master ≡ s.master)
        × ((pop_job e t f x s).num_selective_deletes ≡ s.num_selective_deletes)
  unfolding pop_job
  pop_job-kept s = ground arith

  Unwritten-if :
      (s : L) (test : Bool) (a b : Option (Choice e t f x))
      → Unwritten s a
      → Unwritten s b
      → Unwritten s (if test then a else b)
  Unwritten-if s true a b u v = u
  Unwritten-if s false a b u v = v

  -- The state may have gone on from the one at the beginning, in other fields.
  Unwritten-do_job :
      (s s₁ : L) (first : ℕ)
      → s₁.master ≡ s.master
      → s₁.num_selective_deletes ≡ s.num_selective_deletes
      → Unwritten s (do_job e t f x s₁ first)
  unfolding do_job write_persistent delete_disposable
  Unwritten-do_job s s₁ first same count =
      Unwritten-if s (ltb s₁.persistent_ent_and_del_index f.persistent_entries_batch_size) _ _
        (Unwritten-bind s _ _ (λ number. tt))
        (Unwritten-if s (ltb s₁.persistent_ent_and_del_index (num_disp_and_pers f)) _ _
          (Unwritten-bind s _ _ (λ number.
            Unwritten-bind s _ _ (λ key.
              let kept = pop_job-kept _ in (kept.0 ∙ same, kept.1 ∙ ap (λ n. n + 1) count))))
          tt)

  Unwritten-write_disposable : (s s₁ : L) → Unwritten s (write_disposable e t f x s₁)
  unfolding write_disposable
  Unwritten-write_disposable s s₁ =
      Unwritten-bind s _ _
        (λ number. Unwritten-if s (f.disposable_entries_batch_size == 0) none _ tt tt)

  Unwritten-by_queue : (s : L) (jobs : List (ℕ × ℕ)) → Unwritten s (by_queue e t f x jobs s)
  unfolding by_queue
  Unwritten-by_queue s [] = Unwritten-write_disposable s s
  Unwritten-by_queue s (job ∷ jobs) =
      let s₁ : L = record s { clock_reads = s.clock_reads + 1 } in
      Unwritten-if s (ltb job.0 (x.clock s.clock_reads)) (do_job e t f x s₁ job.1)
        (write_disposable e t f x s₁) (Unwritten-do_job s s₁ job.1 refl refl)
        (Unwritten-write_disposable s s₁)

  Unwritten-choose : (s : L) → Unwritten s (choose e t f x s)
  unfolding choose choose_overwriting choose_disposable take_next
  Unwritten-choose s =
      Unwritten-if s (is_unique f.write_mode && f.overwrites) _ _
        (Unwritten-if s _ _ _ (Unwritten-bind s _ _ (λ number. tt))
          (Unwritten-bind s _ _ (λ d. tt)))
        (Unwritten-if s (ltb 0 (num_disp_and_pers f)) _ _
          (Unwritten-by_queue s s.disposable_entries_q) (Unwritten-bind s _ _ (λ d. tt)))

  -- An entry of `DoWrite` that is a delete is counted as one, goes on without an error, and leaves
  -- the master as it was.
  pub write_entry-skipped :
      (s s' : L)
      → choose e t f x s ≡ some (Choice.skipped s')
      → (write_entry e t f x s ≡ going s')
        × (s'.master ≡ s.master)
        × (s'.num_selective_deletes ≡ s.num_selective_deletes + 1)
  unfolding write_entry complete
  write_entry-skipped s s' chosen =
      let u : Unwritten s (some (Choice.skipped s')) =
        subst (Unwritten s) chosen (Unwritten-choose s) in
      (ap (complete e t f x) chosen, u.0, u.1)
