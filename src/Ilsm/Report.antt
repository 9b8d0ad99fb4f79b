-- ===== src/Ilsm/Report.antt =====
-- `Report` of kvaccel/db/db_impl/iLSM.cc: the rows that it prints, and its last command. How a row
-- becomes text, with the average as a `double`, is left out.
use kvaccel.Base.{
  ℕ, zero, suc, ◌+◌, ◌-◌, ◌≡◌, refl, Bool, false, ◌||◌, List, [], ◌∷◌, ◌++◌, arith, ltb, ◌==◌,
  if◌then◌else◌, get_or, length, Bool-cases, inl, inr,
}
use kvaccel.Base.Int.{ℤ, pos, negsuc, ◌+ℤ◌}
use kvaccel.Memory.{Memory, zeroed}
use kvaccel.Ilsm.{Command, Host, Ilsm, Fault, stat_index, Stat, M, ◌>>=◌, ◌>>◌, pure, note}
use kvaccel.Ilsm.Passthru.{
  nvme_passthru, command, kv_put, kv_get, kv_iter_create_iter, kv_iter_seek, kv_iter_next,
  kv_iter_destroy_iter, kv_range_scan_seek, kv_range_scan_next, kv_last, reports,
}

-- The text in brackets; "[????]" and "[???]" are the last of each kind.
pub data Label : Type 0 where
  put_op get_op create_iter_op seek_op next_op destroy_iter_op unknown_op : Label
  put_cmd get_cmd delete_cmd create_iter_cmd seek_cmd next_cmd destroy_iter_cmd unknown_cmd : Label

abbrev pub op_label : ℕ → Label
op_label i =
    if i == 0
    then put_op
    else if i == 1
    then get_op
    else if i == 2
    then create_iter_op
    else if i == 3
    then seek_op
    else if i == 4
    then next_op
    else if i == 5
    then destroy_iter_op
    else unknown_op

-- The label of the opcode i + 0xA0.
abbrev pub cmd_label : ℕ → Label
cmd_label i =
    let opcode = i + kv_put in
    if opcode == kv_put
    then put_cmd
    else if opcode == kv_get
    then get_cmd
    else if opcode == 0xA2
    then delete_cmd
    else if opcode == kv_iter_create_iter
    then create_iter_cmd
    else if opcode == kv_iter_seek || opcode == kv_range_scan_seek
    then seek_cmd
    else if opcode == kv_iter_next || opcode == kv_range_scan_next
    then next_cmd
    else if opcode == kv_iter_destroy_iter
    then destroy_iter_cmd
    else unknown_cmd

-- A row: its label, the time in nanoseconds, and how often.
pub record Row : Type 0 where
  pub label : Label
  pub total : ℤ
  pub count : ℕ

abbrev no_time : ℤ → Bool
no_time (pos n) = n == 0
no_time (negsuc n) = false

-- `for (int i = ...; ...; i++)` by the rounds that are left: a row for each place with a time.
pub rows : (ℕ → Label) → Stat → ℕ → ℕ → List Row
rows label st zero i = []
rows label st (suc n) i =
    let rest = rows label st n (i + 1) in
    let t = get_or st.t i (pos 0) in
    if no_time t
    then rest
    else record { label = label i; total = t; count = get_or st.c i 0 } ∷ rest

-- A place past the end is noted, and gives no row.
check_places : {W : Type 0} → Stat → ℕ → ℕ → M W (Unit {0})
check_places st zero i = pure tt
check_places st (suc n) i = do
  if ltb i (length st.t) then pure tt else note (stat_index i)
  check_places st n (i + 1)

noted : ℕ → ℕ → ℕ → List Fault → List Fault
noted len zero i fs = fs
noted len (suc n) i fs = noted len n (i + 1) (if ltb i len then fs else stat_index i ∷ fs)

check_places-noted :
    {W : Type 0} (st : Stat) (n i : ℕ) (s : Ilsm W)
    → check_places st n i s ≡ (tt, record s { faults = noted (length st.t) n i s.faults })
unfolding check_places noted
check_places-noted st zero i s = refl
check_places-noted st (suc n) i s = elim (Bool-cases (ltb i (length st.t))) [
  | inl inside ↦ rw inside (check_places-noted st n (i + 1) s)
  | inr outside ↦
      rw outside (check_places-noted st n (i + 1) (record s { faults = stat_index i ∷ s.faults }))
]

-- iLSMOp::LAST
abbrev pub op_last : ℕ
op_last = 8

module _ (h : Host) where
  pub report : M h.World (List Row)
  report = do
    λ s. check_places s.op_stat op_last 0 s
    λ s. check_places s.passthru_stat (kv_last - kv_put) 0 s
    msg ← (λ s. (
      rows op_label s.op_stat op_last 0 ++ rows cmd_label s.passthru_stat (kv_last - kv_put) 0,
      s,
    ))
    nvme_passthru h (command kv_last 0 0 0 0) zeroed
    pure msg

  passthru-faults :
      (cmd : Command) (m : Memory) (s : Ilsm h.World)
      → reports cmd.opcode ≡ false
      → (nvme_passthru h cmd m s).1.faults ≡ s.faults
  unfolding nvme_passthru
  passthru-faults cmd m s silent = ground arith

  -- With 8 and 9 places, as the constructor makes them, `Report` reads four places past the end of
  -- `passthru_stat` and nothing else that is not there, whatever the device answers.
  pub faults-report :
      (s : Ilsm h.World)
      → length s.op_stat.t ≡ 8
      → length s.passthru_stat.t ≡ 9
      → (report s).1.faults
        ≡ stat_index 12 ∷ stat_index 11 ∷ stat_index 10 ∷ stat_index 9 ∷ s.faults
  unfolding report nvme_passthru noted
  faults-report s eight nine =
      rw
        (
          check_places-noted {W = h.World} s.op_stat 8 0 s,
          eight,
          check_places-noted {W = h.World} s.passthru_stat 13 0 s,
          nine,
        )
        (passthru-faults _ _ _ refl)

-- The times of the rows, added up, and those of the places, from the i-th on.
abbrev pub sum_rows : List Row → ℤ
sum_rows [] = pos 0
sum_rows (r ∷ rs) = r.total +ℤ sum_rows rs

abbrev pub sum_times : Stat → ℕ → ℕ → ℤ
sum_times st zero i = pos 0
sum_times st (suc n) i = get_or st.t i (pos 0) +ℤ sum_times st n (i + 1)

zero-sum : (x : ℤ) → pos 0 +ℤ x ≡ x
zero-sum x = ground arith

-- The times of the rows that `Report` prints add up to all the times that were recorded, under any
-- labels.
pub sum_rows-rows :
    (label : ℕ → Label) (st : Stat) (n i : ℕ) → sum_rows (rows label st n i) ≡ sum_times st n i
unfolding rows
sum_rows-rows label st zero i = refl
sum_rows-rows label st (suc n) i =
    ground (arith, sum_rows-rows label st n (i + 1), zero-sum (sum_times st n (i + 1)))
