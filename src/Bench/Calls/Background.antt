-- ===== src/Bench/Calls/Background.antt =====
-- Which calls of `DB_MASTER` a round of `BGWriter` of integration/tools/db_bench_tool.cc makes: its
-- range deletions go to the other database.
use kvaccel.Base.{ℕ, zero, suc, ◌+◌, ◌%◌, ◌≡◌, refl, subst, inl, inr, Bool-cases}
use kvaccel.Base.Bytes.{Bytes}
use kvaccel.Rocks.{Status, is_ok}
use kvaccel.Master.{Env, State}
use kvaccel.Master.Write.{put}
use kvaccel.Master.Rollback.{Cursor}
use kvaccel.Master.Steps.{Step}
use kvaccel.Bench.{
  Tools, Outcome, going, exits, undefined, Leaves, Leaves-given, random_key, generate_key_from_int,
}
use kvaccel.Bench.Values.{generate_sized}
use kvaccel.Bench.Calls.{Calls, one}
use kvaccel.Bench.Background
use kvaccel.Bench.Background.{
  PlainDb, deleted, delete_keys, delete_numbers, is_tombstone_due, write_tombstone, write_key,
  background_round,
}

module _ (e : Env) (t : Tools) (c : Cursor) (d : PlainDb) (f : Background.Flags) where
  abbrev Same : State e → Outcome (Background.Locals e t d) → Type 0
  Same m o = Leaves (λ s'. m ≡ s'.master) o

  deleted-Same :
      (answer : Status × d.Db) (s : Background.Locals e t d)
      (rest : Background.Locals e t d → Outcome (Background.Locals e t d))
      → ((s' : Background.Locals e t d) → Same s'.master (rest s'))
      → Same s.master (deleted e t d answer s rest)
  deleted-Same (status, db) s rest kept = elim (Bool-cases (is_ok status)) [
    | inl done ↦ rw done (kept (record s { db = db }))
    | inr refused ↦ rw refused refl
  ]

  delete_keys-Same :
      (n number : ℕ) (s : Background.Locals e t d) → Same s.master (delete_keys e t d f n number s)
  unfolding delete_keys
  delete_keys-Same zero number s = refl
  delete_keys-Same (suc n) number s =
      Leaves-given (λ s'. s.master ≡ s'.master) (generate_key_from_int f.spec number f.num) _
        (λ key.
          deleted-Same (d.delete s.db key) s (delete_keys e t d f n (number + 1))
            (λ s'. delete_keys-Same n (number + 1) s'))

  delete_numbers-Same :
      (number : ℕ) (s : Background.Locals e t d) → Same s.master (delete_numbers e t d f number s)
  unfolding delete_numbers
  delete_numbers-Same number s = elim (Bool-cases f.expand_range_tombstones) [
    | inl expanded ↦ rw expanded (delete_keys-Same f.range_tombstone_width number s)
    | inr ranged ↦ rw ranged (
        Leaves-given (λ s'. s.master ≡ s'.master) (generate_key_from_int f.spec number f.num) _
          (λ begin_key.
            Leaves-given (λ s'. s.master ≡ s'.master)
              (generate_key_from_int f.spec (number + f.range_tombstone_width) f.num) _
              (λ end_key.
                deleted-Same (d.delete_range s.db begin_key end_key) s going (λ s'. refl))))
  ]

  write_tombstone-Same : (s : Background.Locals e t d) → Same s.master (write_tombstone e t d f s)
  unfolding write_tombstone
  write_tombstone-Same s = elim (Bool-cases (is_tombstone_due f s.written)) [
    | inl due ↦ rw due (delete_numbers-Same ((t.next s.rand).0 % f.num) _)
    | inr quiet ↦ rw quiet refl
  ]

  Leaves-put :
      (m : State e) (key value : Bytes) (o : Outcome (Background.Locals e t d))
      → Same (put e m key value).1 o
      → Leaves (λ s'. Calls e c m s'.master) o
  Leaves-put m key value (going s) same =
      subst (Calls e c m) same (one e c (Step.write m c key value))
  Leaves-put m key value (exits s) same =
      subst (Calls e c m) same (one e c (Step.write m c key value))
  Leaves-put m key value undefined same = tt

  write_key-Calls :
      (s : Background.Locals e t d) (key : Bytes)
      → Leaves (λ s'. Calls e c s.master s'.master) (write_key e t d f s key)
  unfolding write_key
  write_key-Calls s key =
      let value = (generate_sized f.sizes (t.drawn s.passes) s.gen).0 in
      elim (Bool-cases (is_ok (put e s.master key value).0)) [
        | inl done ↦
            rw done
              (Leaves-put s.master key value (write_tombstone e t d f _) (write_tombstone-Same _))
        | inr refused ↦ rw refused (one e c (Step.write s.master c key value))
      ]

  pub background_round-Calls :
      (s : Background.Locals e t d)
      → Leaves (λ s'. Calls e c s.master s'.master) (background_round e t d f s)
  unfolding background_round
  background_round-Calls s =
      let (number, rand) = t.next s.rand in
      Leaves-given (λ s'. Calls e c s.master s'.master) (random_key f.spec f.num number)
        (write_key e t d f (record s { rand = rand }))
        (λ key. write_key-Calls (record s { rand = rand }) key)
