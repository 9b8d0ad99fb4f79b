-- ===== src/Bench/Graph.antt =====
-- `QueryDecider` and `MixGraph` of integration/tools/db_bench_tool.cc with one column family and
-- without the rates of `--sine_mix_rate`: the workload of the key-value traces.
pub mod Decider
use kvaccel.Base.{
  ℕ, zero, suc, ◌+◌, ◌%◌, ◌^◌, Bool, Option, none, some, List, [], ◌∷◌, ltb, ◌==◌, ◌&&◌,
  if◌then◌else◌, length,
}
use Prim.Native.Nat.{min}
use kvaccel.Base.Bytes.{Bytes, bytes_eq}
use kvaccel.Rocks.{Status, ok, not_found, not_supported, failed, is_ok}
use kvaccel.Master.{Env, State}
use kvaccel.Master.Write.{put, get_pin}
use kvaccel.Bench.{
  KeySpec, Tools, Outcome, going, exits, undefined, given, loop_on, generate_key_from_int,
}
use kvaccel.Bench.Values.{RandomGenerator, generate}
use kvaccel.Bench.Duration.{Duration, start, done}
use kvaccel.Bench.Reads
use kvaccel.Bench.Reads.{get_random_key}
use kvaccel.Bench.Ranges.{ExpKeys, dist_get_key_id}

pub record QueryDecider : Type 0 where
  pub type_ : List ℕ
  pub range_ : ℕ

-- `type_` and `range_` behind the loop of `Initiate`, from `range_` on.
unfoldable pub accumulate : ℕ → List ℕ → QueryDecider
accumulate range [] = record { type_ = []; range_ = range }
accumulate range (share ∷ shares) =
    let rest = accumulate (range + share) shares in
    record { type_ = (range + share) ∷ rest.type_; range_ = rest.range_ }

-- `Initiate`; the shares are what the floating-point code makes of the ratios, rounded up.
unfoldable pub initiate : List ℕ → QueryDecider
unfolding accumulate
initiate shares = accumulate 0 shares

unfoldable pub first_above : List ℕ → ℕ → ℕ → ℕ
first_above [] place i = 0
first_above (t ∷ ts) place i =
    let rest = first_above ts place (i + 1) in if ltb place t then i else rest

-- `GetType` of a number that is not negative, as `MixGraph` gives; it asserts that `range_` is not 0.
unfoldable pub get_type : QueryDecider → ℕ → Option ℕ
unfolding first_above
get_type q rand_num =
    if q.range_ == 0 then none else some (first_above q.type_ (rand_num % q.range_) 0)

-- How the numbers of the keys are distributed; what the floating-point code and its generators
-- give is a function of the random number.
pub data KeyModel : Type 0 where
  random_model : KeyModel
  prefix_model : ExpKeys → (ℕ → Option ℕ) → KeyModel
  hot_model : (ℕ → ℕ) → KeyModel

-- The flags. `num` is `FLAGS_num`, `reading` those of `GetRandomKey`; `pareto_value` and
-- `pareto_scan` are `ParetoCdfInversion`, by the random number below `num`.
pub record Flags : Type 0 where
  pub spec : KeySpec
  pub num : ℕ
  pub reads : ℕ
  pub duration : ℕ
  pub granularity : ℕ
  pub reading : Reads.Flags
  pub model : KeyModel
  pub shares : List ℕ
  pub only_put : Bool
  pub min_value_size : ℕ
  pub max_value_size : ℕ
  pub max_scan_len : ℕ
  pub pareto_value : ℕ → ℕ
  pub pareto_scan : ℕ → ℕ

-- `key_rand`
unfoldable pub graph_key : Flags → ℕ → Option ℕ
graph_key f ini_rand = elim f.model [
  | random_model ↦ some ini_rand
  | prefix_model g offset ↦ dist_get_key_id g ini_rand (offset ini_rand)
  | hot_model next_of ↦ some (next_of (ini_rand % f.num) % f.num)
]

-- `value_max`
abbrev pub value_max : Flags → ℕ
value_max f = min (1048576) f.max_value_size

-- `val_size`; a remainder by 0 is left open.
unfoldable pub value_size : Flags → ℕ → Option ℕ
value_size f size =
    if ltb size f.min_value_size
    then some f.min_value_size
    else if ltb (value_max f) size
    then (if value_max f == 0 then none else some (size % value_max f))
    else some size

-- The iterators of `db_.db`, over which the seeks go.
pub record SeekDb : Type 1 where
  pub Iter : Type 0
  pub seek : Bytes → Iter
  pub valid : Iter → Bool
  pub key : Iter → Bytes
  pub value : Iter → Bytes
  pub next : Iter → Iter

module _ (e : Env) (t : Tools) (d : SeekDb) where
  open t use {Random, next}

  pub record Locals : Type 0 where
    pub master : State e
    pub rand : Random
    pub gen : RandomGenerator
    pub pinnable_val : Bytes
    pub gets : ℕ
    pub puts : ℕ
    pub get_found : ℕ
    pub seek : ℕ
    pub seek_found : ℕ
    pub bytes : ℕ
    pub total_scan_length : ℕ
    pub total_val_size : ℕ
    pub clock_reads : ℕ

  -- What follows `GetPin`.
  unfoldable pub got : Status → Bytes → Locals → Outcome Locals
  got ok key s = going (record s {
    get_found = s.get_found + 1;
    bytes = s.bytes + (length key + length s.pinnable_val);
  })
  got not_found key s = going s
  got not_supported key s = exits s
  got (failed n) key s = exits s

  unfoldable pub graph_get : Locals → Bytes → Outcome Locals
  unfolding got
  graph_get s key =
      let (status, value, master) = get_pin e s.master key s.pinnable_val in
      got status key (record s { master = master; pinnable_val = value; gets = s.gets + 1 })

  unfoldable pub graph_put : Locals → Bytes → ℕ → Outcome Locals
  graph_put s key size =
      let (value, gen) = generate (size % 2 ^ 32) s.gen in
      let (status, master) = put e s.master key value in
      let s' : Locals = record s {
        master = master;
        gen = gen;
        puts = s.puts + 1;
        total_val_size = s.total_val_size + size;
      } in
      if is_ok status then going s' else exits s'

  unfoldable pub scan : ℕ → d.Iter → Locals → Locals
  scan zero it s = s
  scan (suc n) it s =
      let rest = scan n (d.next it) (record s {
        bytes = s.bytes + (length (d.key it) + length (d.value it));
        total_scan_length = s.total_scan_length + 1;
      }) in
      if d.valid it then rest else s

  unfoldable pub graph_seek : Locals → Bytes → ℕ → Locals
  unfolding scan
  graph_seek s key scan_length =
      let it = d.seek key in
      let found = d.valid it && bytes_eq (d.key it) key in
      scan scan_length it (record s {
        seek = s.seek + 1;
        seek_found = if found then s.seek_found + 1 else s.seek_found;
      })

  unfoldable pub query : Flags → ℕ → ℕ → Bytes → Locals → Outcome Locals
  unfolding graph_get graph_put graph_seek value_size
  query f query_type rand_v key s =
      if query_type == 0
      then graph_get s key
      else if query_type == 1
      then given (value_size f (f.pareto_value rand_v)) (graph_put s key)
      else if query_type == 2
      then (if f.max_scan_len == 0
          then undefined
          else going (graph_seek s key (f.pareto_scan rand_v % f.max_scan_len)))
      else going s

  -- The body of the loop; `SelectDBWithCfh` takes a number of its own.
  unfoldable pub graph_round : Flags → Locals → Outcome Locals
  unfolding get_type graph_key query
  graph_round f s =
      let (number, rand) = next (next s.rand).1 in
      let ini_rand = get_random_key f.reading number in
      let rand_v = ini_rand % f.num in
      let s' : Locals = record s { rand = rand } in
      let decided = get_type (initiate f.shares) rand_v in
      let run = given (graph_key f ini_rand) (λ key_rand.
        given (generate_key_from_int f.spec key_rand f.num) (λ key.
          given decided
            (λ query_type. query f (if f.only_put then 1 else query_type) rand_v key s'))) in
      if f.num == 0 then undefined else run

  module _ (f : Flags) (clock : ℕ → ℕ) where
    -- `while (!duration.Done(1))`, on fuel.
    unfoldable pub graph_loop : ℕ → Duration → Locals → Option (Outcome Locals)
    unfolding graph_round
    graph_loop zero c s = none
    graph_loop (suc fuel) c s =
        let (over, c') = done f.granularity 1 (clock s.clock_reads) c in
        let s' : Locals = record s { clock_reads = s.clock_reads + 1 } in
        let rest = loop_on (graph_round f s') (graph_loop fuel c') in
        if over then some (going s) else rest

    -- `MixGraph`, up to its messages.
    unfoldable pub mix_graph : ℕ → State e → Random → RandomGenerator → Option (Outcome Locals)
    unfolding graph_loop
    mix_graph fuel master rand gen =
        graph_loop fuel (start f.duration f.reads 0 (clock 0)) (record {
          master = master;
          rand = rand;
          gen = gen;
          pinnable_val = [];
          gets = 0;
          puts = 0;
          get_found = 0;
          seek = 0;
          seek_found = 0;
          bytes = 0;
          total_scan_length = 0;
          total_val_size = 0;
          clock_reads = 1;
        })
