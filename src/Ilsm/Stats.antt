-- ===== src/Ilsm/Stats.antt =====
-- Which commands of kvaccel/db/db_impl/iLSM.cc are counted inside their array.
use kvaccel.Base.{
  ℕ, ◌+◌, ◌-◌, ◌^◌, ◌≤◌, ◌<◌, get_or, lt→ltb, ◌≡◌, inl, inr, true, false, ◌∷◌, arith, ltb,
  if◌then◌else◌, length, Bool-cases,
}
use kvaccel.Base.Int.{ℤ}
use kvaccel.Ilsm.{Ilsm, stat_index}
use kvaccel.Ilsm.Passthru.{finish_passthru, kv_put}

-- With 9 places, as the constructor makes them, and no count at its limit, `finishPassthru` leaves
-- its vectors exactly for the opcodes from 0xA9 on (the reset and the two flushes).
pub faults-finish_passthru :
    {W : Type 0} (s : Ilsm W) (opcode : ℕ) (d : ℤ)
    → length s.passthru_stat.c ≡ 9
    → get_or s.passthru_stat.c (opcode - kv_put) 0 + 1 < 2 ^ 31
    → kv_put ≤ opcode
    → (finish_passthru opcode d s).1.faults
      ≡ (if ltb opcode 0xA9 then s.faults else stat_index (opcode - kv_put) ∷ s.faults)
unfolding finish_passthru
faults-finish_passthru s opcode d nine room from_put = elim (Bool-cases (ltb opcode 0xA9)) [
  | inl low ↦
      let inside : ltb (opcode - kv_put) (length s.passthru_stat.c) ≡ true =
        rw nine (ground arith) in
      rw (low, inside, lt→ltb _ _ room)
  | inr high ↦
      let outside : ltb (opcode - kv_put) (length s.passthru_stat.c) ≡ false =
        rw nine (ground arith) in
      rw (high, outside)
]
