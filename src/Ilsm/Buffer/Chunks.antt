-- ===== src/Ilsm/Buffer/Chunks.antt =====
-- The commands of `_ValueFlush` in kvaccel/db/db_impl/iLSM.cc: together they carry the value buffer.
use kvaccel.Base.{ℕ, zero, suc, ◌+◌, ◌*◌, ◌≤◌, ◌<◌, ◌≡◌, refl, arith}
use kvaccel.Ilsm.Buffer.{chunk_length, chunk_size, limit_value_buffer_entry, max_value_buffer_entry}

-- The lengths of the first commands, added up.
abbrev pub sum_chunks : ℕ → ℕ → ℕ → ℕ
sum_chunks v_cnt total zero = 0
sum_chunks v_cnt total (suc n) = sum_chunks v_cnt total n + chunk_length v_cnt total n

sum_chunks-full :
    (v_cnt total n : ℕ)
    → v_cnt ≤ max_value_buffer_entry
    → n * limit_value_buffer_entry < v_cnt
    → sum_chunks v_cnt total n ≡ n * chunk_size
unfolding chunk_length
sum_chunks-full v_cnt total zero small h = refl
sum_chunks-full v_cnt total (suc n) small h =
    ground (arith, sum_chunks-full v_cnt total n small (omega arith))

-- For at most 341 pages whose last one is in use, the commands that `_ValueFlush` sends, up to the
-- first n + 1 with no page past them, carry together exactly the bytes in use.
pub sum_chunks-total :
    (v_cnt total n : ℕ)
    → v_cnt ≤ max_value_buffer_entry
    → total ≤ v_cnt * 4096
    → v_cnt * 4096 < total + 4096
    → n * limit_value_buffer_entry < v_cnt
    → v_cnt ≤ suc n * limit_value_buffer_entry
    → sum_chunks v_cnt total (suc n) ≡ total
unfolding chunk_length
sum_chunks-total v_cnt total n small fits tight started last =
    ground (arith, sum_chunks-full v_cnt total n small started)
