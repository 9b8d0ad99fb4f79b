-- ===== src/Bench/Calls/Fill.antt =====
-- Which calls of `DB_MASTER` an entry of `DoWrite` of integration/tools/db_bench_tool.cc makes: one
-- `Put`, or none where the entry is a delete.
use kvaccel.Base.{
  ℕ, zero, suc, ◌+◌, ◌≡◌, refl, sym, ◌∙◌, subst, arith, inl, inr, Bool-cases, Option, some, none,
  [], ◌∷◌, List, ltb, ◌==◌, ◌&&◌, length, if◌then◌else◌,
}
use mathlib.Core.Option
use kvaccel.Base.Bytes.{Bytes}
use kvaccel.Master.{Env, State}
use kvaccel.Master.Write.{put}
use kvaccel.Master.Rollback.{Cursor}
use kvaccel.Master.Steps.{Step, Run}
use kvaccel.Bench.{
  Tools, Outcome, going, exits, undefined, Leaves, Leaves-given, generate_key_from_int,
}
use kvaccel.Bench.Numbers.{next_number}
use kvaccel.Bench.Calls.{Calls, one}
use kvaccel.Bench.Fill
use kvaccel.Bench.Fill.{Inputs, num_disp_and_pers, is_unique}
use kvaccel.Bench.Fill.Entry.{
  Choice, take_next, choose_overwriting, slide, pop_job, write_persistent, delete_disposable,
  do_job, write_disposable, by_queue, choose_disposable, choose, make_value, put_entry, schedule,
  expand, delete_from, range_deletion, is_range_deletion_due, complete, write_entry,
}

module _ (e : Env) (t : Tools) (f : Fill.Flags) (x : Inputs) where
  abbrev L : Type 0
  L = Fill.Locals e t

  -- The state that a choice comes with has the same master.
  abbrev Keeps : State e → Option (Choice e t f x) → Type 0
  Keeps m none = Unit {0}
  Keeps m (some (Choice.write_number number s)) = m ≡ s.master
  Keeps m (some (Choice.skipped s)) = m ≡ s.master

  Keeps-bind :
      {B : Type 0} (m : State e) (o : Option B) (use_it : B → Option (Choice e t f x))
      → ((b : B) → Keeps m (use_it b))
      → Keeps m (Option.bind o use_it)
  unfolding Option.bind
  Keeps-bind m none use_it kept = tt
  Keeps-bind m (some b) use_it kept = kept b

  Keeps-take_next :
      (s : L) (use_it : ℕ → L → Option (Choice e t f x))
      → ((number : ℕ) (s' : L) → s.master ≡ s'.master → Keeps s.master (use_it number s'))
      → Keeps s.master (take_next e t f x s use_it)
  unfolding take_next
  Keeps-take_next s use_it kept =
      Keeps-bind s.master (next_number t s.key_gen s.rand) _
        (λ d. kept d.0 (record s { key_gen = d.1; rand = d.2 }) refl)

  Keeps-choose_overwriting : (s : L) → Keeps s.master (choose_overwriting e t f x s)
  unfolding choose_overwriting
  Keeps-choose_overwriting s =
      let has = ltb 0 (length s.inserted_key_window) in
      let new_key : L = record s {
        decisions = if has then s.decisions + 1 else s.decisions;
        num_unique_keys = s.num_unique_keys + 1;
      } in
      elim (Bool-cases (has && x.overwrite_decider s.decisions)) [
        | inl again ↦ rw again (Keeps-bind s.master _ _ (λ number. refl))
        | inr new ↦ rw new (
            Keeps-take_next new_key
              (λ number s''. some (
                Choice.write_number number (record s'' {
                  inserted_key_window = slide e t f x number s.inserted_key_window;
                })))
              (λ number s'' same. same))
      ]

  pop_job-master : (s : L) → s.master ≡ (pop_job e t f x s).master
  unfolding pop_job
  pop_job-master s = ground arith

  Keeps-do_job : (s : L) (first : ℕ) → Keeps s.master (do_job e t f x s first)
  unfolding do_job write_persistent delete_disposable
  Keeps-do_job s first =
      let i = s.persistent_ent_and_del_index in
      elim (Bool-cases (ltb i f.persistent_entries_batch_size)) [
        | inl persistent ↦ rw persistent (Keeps-bind s.master _ _ (λ number. pop_job-master _))
        | inr written ↦ rw written (elim (Bool-cases (ltb i (num_disp_and_pers f))) [
          | inl deletes ↦ rw deletes (
              Keeps-bind s.master _ _ (λ number. Keeps-bind s.master _ _ (λ key. pop_job-master _)))
          | inr over ↦ rw over tt
        ])
      ]

  Keeps-write_disposable : (s : L) → Keeps s.master (write_disposable e t f x s)
  unfolding write_disposable
  Keeps-write_disposable s = Keeps-bind s.master _ _ (λ number.
      elim (Bool-cases (f.disposable_entries_batch_size == 0)) [
        | inl empty ↦ rw empty tt
        | inr batch ↦ rw batch refl
      ])

  Keeps-by_queue : (jobs : List (ℕ × ℕ)) (s : L) → Keeps s.master (by_queue e t f x jobs s)
  unfolding by_queue
  Keeps-by_queue [] s = Keeps-write_disposable s
  Keeps-by_queue (job ∷ jobs) s =
      let s' : L = record s { clock_reads = s.clock_reads + 1 } in
      elim (Bool-cases (ltb job.0 (x.clock s.clock_reads))) [
        | inl due ↦ rw due (Keeps-do_job s' job.1)
        | inr early ↦ rw early (Keeps-write_disposable s')
      ]

  Keeps-choose : (s : L) → Keeps s.master (choose e t f x s)
  unfolding choose choose_disposable
  Keeps-choose s = elim (Bool-cases (is_unique f.write_mode && f.overwrites)) [
    | inl overwriting ↦ rw overwriting (Keeps-choose_overwriting s)
    | inr fresh ↦ rw fresh (elim (Bool-cases (ltb 0 (num_disp_and_pers f))) [
      | inl disposable ↦ rw disposable (Keeps-by_queue s.disposable_entries_q s)
      | inr plain ↦ rw plain (
          Keeps-take_next s (λ number s'. some (Choice.write_number number s'))
            (λ number s' same. same))
    ])
  ]

  make_value-master : (s : L) → (make_value e t f x s).1.master ≡ s.master
  unfolding make_value
  make_value-master s = ground arith

  schedule-master : (s : L) → s.master ≡ (schedule e t f x s).master
  unfolding schedule
  schedule-master s = ground arith

  expand-master :
      (n number : ℕ) (s : L) → Leaves (λ s'. s.master ≡ s'.master) (expand e t f x n number s)
  unfolding expand
  expand-master zero number s = refl
  expand-master (suc n) number s =
      Leaves-given (λ s'. s.master ≡ s'.master) (generate_key_from_int f.spec number f.flags_num) _
        (λ key. expand-master n (number + 1) _)

  range_deletion-master : (s : L) → Leaves (λ s'. s.master ≡ s'.master) (range_deletion e t f x s)
  unfolding range_deletion delete_from
  range_deletion-master s = elim (Bool-cases (is_range_deletion_due e t f x s)) [
    | inl due ↦ rw due (
        Leaves-given (λ s'. s.master ≡ s'.master) (next_number t s.key_gen s.rand) _
          (λ d. elim (Bool-cases f.expand_range_tombstones) [
            | inl expanded ↦ rw expanded (expand-master f.range_tombstone_width d.0 _)
            | inr ranged ↦ rw ranged (
                Leaves-given (λ s'. s.master ≡ s'.master)
                  (generate_key_from_int f.spec d.0 f.flags_num) _
                  (λ begin.
                    Leaves-given (λ s'. s.master ≡ s'.master)
                      (generate_key_from_int f.spec (d.0 + f.range_tombstone_width) f.flags_num) _
                      (λ end_key. refl)))
          ]))
    | inr quiet ↦ rw quiet refl
  ]

  -- A write whose rest leaves the master as the write does.
  Leaves-put :
      (c : Cursor) (m : State e) (key value : Bytes) (o : Outcome L)
      → Leaves (λ s'. (put e m key value).1 ≡ s'.master) o
      → Leaves (λ s'. Calls e c m s'.master) o
  Leaves-put c m key value (going s) same =
      subst (Calls e c m) same (one e c (Step.write m c key value))
  Leaves-put c m key value (exits s) same =
      subst (Calls e c m) same (one e c (Step.write m c key value))
  Leaves-put c m key value undefined same = tt

  Leaves-same :
      (m m' : State e) (o : Outcome L)
      → m ≡ m'
      → Leaves (λ s'. m' ≡ s'.master) o
      → Leaves (λ s'. m ≡ s'.master) o
  Leaves-same m m' (going s) first rest = first ∙ rest
  Leaves-same m m' (exits s) first rest = first ∙ rest
  Leaves-same m m' undefined first rest = tt

  written-Calls :
      (c : Cursor) (s : L) (key : Bytes)
      → Leaves
          (λ s'. Calls e c s.master s'.master)
          (range_deletion e t f x (schedule e t f x (put_entry e t f x key s)))
  unfolding put_entry
  written-Calls c s key =
      let value = (make_value e t f x s).0 in
      let s₁ = put_entry e t f x key s in
      let o = range_deletion e t f x (schedule e t f x s₁) in
      Leaves-put c s.master key value o (
        Leaves-same (put e s.master key value).1 (schedule e t f x s₁).master o (schedule-master s₁)
          (range_deletion-master (schedule e t f x s₁)))

  complete-Calls :
      (c : Cursor) (m : State e) (o : Option (Choice e t f x))
      → Keeps m o
      → Leaves (λ s'. Calls e c m s'.master) (complete e t f x o)
  unfolding complete
  complete-Calls c m none keeps = tt
  complete-Calls c m (some (Choice.write_number number s)) keeps =
      Leaves-given (λ s'. Calls e c m s'.master) (generate_key_from_int f.spec number f.flags_num)
        (λ key. range_deletion e t f x (schedule e t f x (put_entry e t f x key s)))
        (λ key.
          subst
            (λ m'.
              Leaves (λ s'. Calls e c m' s'.master)
                (range_deletion e t f x (schedule e t f x (put_entry e t f x key s))))
            (sym keeps) (written-Calls c s key))
  complete-Calls c m (some (Choice.skipped s)) keeps = subst (Calls e c m) keeps (Run.stop m c)

  pub write_entry-Calls :
      (c : Cursor) (s : L) → Leaves (λ s'. Calls e c s.master s'.master) (write_entry e t f x s)
  unfolding write_entry
  write_entry-Calls c s = complete-Calls c s.master (choose e t f x s) (Keeps-choose s)
