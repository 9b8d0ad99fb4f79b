-- ===== src/Bench/Calls/Graph.antt =====
-- Which calls of `DB_MASTER` a round of `MixGraph` of integration/tools/db_bench_tool.cc makes: at most
-- one `GetPin` or `Put`; its seeks go to the other database.
use kvaccel.Base.{
  ℕ, zero, suc, ◌+◌, ◌≡◌, ◌%◌, ◌^◌, ◌==◌, refl, subst, inl, inr, Bool-cases, if◌then◌else◌, length,
}
use kvaccel.Base.Bytes.{Bytes}
use kvaccel.Rocks.{Status, ok, not_found, not_supported, failed, is_ok}
use kvaccel.Master.{Env, State}
use kvaccel.Master.Write.{put, get_pin}
use kvaccel.Master.Rollback.{Cursor}
use kvaccel.Master.Steps.{Step, Run}
use kvaccel.Bench.{Tools, Leaves, Leaves-given, generate_key_from_int}
use kvaccel.Bench.Values.{generate}
use kvaccel.Bench.Reads.{get_random_key}
use kvaccel.Bench.Calls.{Calls, one}
use kvaccel.Bench.Graph
use kvaccel.Bench.Graph.{
  SeekDb, got, graph_get, graph_put, graph_seek, scan, query, graph_round, graph_key, get_type,
  initiate, value_size,
}

module _ (e : Env) (t : Tools) (c : Cursor) (d : SeekDb) where
  abbrev L : Type 0
  L = Graph.Locals e t d

  got-Calls :
      (m : State e) (status : Status) (key : Bytes) (s : L)
      → Calls e c m s.master
      → Leaves (λ s'. Calls e c m s'.master) (got e t d status key s)
  unfolding got
  got-Calls m ok key s calls = calls
  got-Calls m not_found key s calls = calls
  got-Calls m not_supported key s calls = calls
  got-Calls m (failed n) key s calls = calls

  graph_get-Calls :
      (s : L) (key : Bytes) → Leaves (λ s'. Calls e c s.master s'.master) (graph_get e t d s key)
  unfolding graph_get
  graph_get-Calls s key =
      let r = get_pin e s.master key s.pinnable_val in
      got-Calls s.master r.0 key (record s { master = r.2; pinnable_val = r.1; gets = s.gets + 1 })
        (one e c (Step.read_pin s.master c key s.pinnable_val))

  graph_put-Calls :
      (s : L) (key : Bytes) (size : ℕ)
      → Leaves (λ s'. Calls e c s.master s'.master) (graph_put e t d s key size)
  unfolding graph_put
  graph_put-Calls s key size =
      let value = (generate (size % 2 ^ 32) s.gen).0 in
      let write : Calls e c s.master (put e s.master key value).1 =
        one e c (Step.write s.master c key value) in
      elim (Bool-cases (is_ok (put e s.master key value).0)) [
        | inl done ↦ rw done write
        | inr refused ↦ rw refused write
      ]

  scan-master : (n : ℕ) (it : d.Iter) (s : L) → s.master ≡ (scan e t d n it s).master
  unfolding scan
  scan-master zero it s = refl
  scan-master (suc n) it s = elim (Bool-cases (d.valid it)) [
    | inl there ↦ rw there (
        scan-master n (d.next it) (record s {
          bytes = s.bytes + (length (d.key it) + length (d.value it));
          total_scan_length = s.total_scan_length + 1;
        }))
    | inr over ↦ rw over refl
  ]

  graph_seek-Calls :
      (s : L) (key : Bytes) (n : ℕ) → Calls e c s.master (graph_seek e t d s key n).master
  unfolding graph_seek
  graph_seek-Calls s key n =
      subst (Calls e c s.master) (scan-master n (d.seek key) _) (Run.stop s.master c)

  query-Calls :
      (f : Graph.Flags) (query_type rand_v : ℕ) (key : Bytes) (s : L)
      → Leaves (λ s'. Calls e c s.master s'.master) (query e t d f query_type rand_v key s)
  unfolding query
  query-Calls f query_type rand_v key s = elim (Bool-cases (query_type == 0)) [
    | inl get ↦ rw get (graph_get-Calls s key)
    | inr no_get ↦ rw no_get (elim (Bool-cases (query_type == 1)) [
      | inl put_one ↦ rw put_one (
          Leaves-given (λ s'. Calls e c s.master s'.master) (value_size f (f.pareto_value rand_v))
            (graph_put e t d s key) (λ size. graph_put-Calls s key size))
      | inr no_put ↦ rw no_put (elim (Bool-cases (query_type == 2)) [
        | inl seek ↦ rw seek (elim (Bool-cases (f.max_scan_len == 0)) [
          | inl empty ↦ rw empty tt
          | inr some_len ↦
              rw some_len (graph_seek-Calls s key (f.pareto_scan rand_v % f.max_scan_len))
        ])
        | inr nothing ↦ rw nothing (Run.stop s.master c)
      ])
    ])
  ]

  pub graph_round-Calls :
      (f : Graph.Flags) (s : L)
      → Leaves (λ s'. Calls e c s.master s'.master) (graph_round e t d f s)
  unfolding graph_round
  graph_round-Calls f s =
      let (number, rand) = t.next (t.next s.rand).1 in
      let ini_rand = get_random_key f.reading number in
      let rand_v = ini_rand % f.num in
      let s' : L = record s { rand = rand } in
      elim (Bool-cases (f.num == 0)) [
        | inl no_keys ↦ rw no_keys tt
        | inr keys ↦ rw keys (
            Leaves-given (λ o. Calls e c s.master o.master) (graph_key f ini_rand) _
              (λ key_rand.
                Leaves-given (λ o. Calls e c s.master o.master)
                  (generate_key_from_int f.spec key_rand f.num) _
                  (λ key.
                    Leaves-given (λ o. Calls e c s.master o.master)
                      (get_type (initiate f.shares) rand_v)
                      (λ query_type.
                        query e t d f (if f.only_put then 1 else query_type) rand_v key s')
                      (λ query_type.
                        query-Calls f (if f.only_put then 1 else query_type) rand_v key s'))))
      ]
