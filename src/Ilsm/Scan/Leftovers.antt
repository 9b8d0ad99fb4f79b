-- ===== src/Ilsm/Scan/Leftovers.antt =====
-- What `DestroyIter` and `Reset` of kvaccel/db/db_impl/iLSM.cc leave in an iterator's lists, and what
-- the next scan makes of it.
use kvaccel.Base.{
  ℕ, ◌<◌, ◌≡◌, ◌≢◌, ap, sym, get_or-set_ne, ◌∙◌, false, some, List, [], ◌∷◌, ◌++◌, arith, get_or,
  set, back?, get_or-set_self, length-set, lt→ltb,
}
use kvaccel.Base.Int.{pos, is_neg}
use kvaccel.Base.Bytes.{Bytes}
use kvaccel.Ilsm.{Host, Ilsm}
use kvaccel.Ilsm.Passthru.{Answer, nvme_passthru}
use kvaccel.Ilsm.Point.{max_iterator_num, no_such_key, destroyed, reset}
use kvaccel.Ilsm.Bulk.{push_batch}
use kvaccel.Ilsm.Scan.{next_scan_now}
use kvaccel.Ilsm.Scan.Pairing.{HasBatch, next_scan_now-pair}

module _ (h : Host) where
  destroyed-lists :
      (s : Ilsm h.World) (id : ℕ) (a : Answer)
      → id < max_iterator_num
      → is_neg a.err ≡ false
      → no_such_key a.err ≡ false
      → ((destroyed h id a s).1.keys ≡ s.keys)
        × ((destroyed h id a s).1.values ≡ set s.values id [])
  unfolding destroyed
  destroyed-lists s id a small done known = ground (arith, lt→ltb id max_iterator_num small)

  -- `DestroyIter` frees the values and keeps the keys.
  pub destroyed-HasBatch :
      (s : Ilsm h.World) (id : ℕ) (a : Answer) (ks vs : List Bytes)
      → id < max_iterator_num
      → is_neg a.err ≡ false
      → no_such_key a.err ≡ false
      → HasBatch s id ks vs
      → HasBatch (destroyed h id a s).1 id ks []
  destroyed-HasBatch s id a ks vs small done known b =
      let (keys, values) = destroyed-lists s id a small done known in
      record {
        keys_left = rw keys b.keys_left;
        values_left = rw values (get_or-set_self s.values id [] [] b.values_sized);
        keys_sized = rw keys b.keys_sized;
        values_sized = rw values (rw (length-set s.values id []) b.values_sized);
      }

  push_batch-HasBatch :
      (s : Ilsm h.World) (id : ℕ) (ks vs ks' vs' : List Bytes)
      → id < max_iterator_num
      → HasBatch s id ks vs
      → HasBatch (push_batch h id (ks', vs') s).1 id (ks ++ ks') (vs ++ vs')
  unfolding push_batch
  push_batch-HasBatch s id ks vs ks' vs' small b = rw (lt→ltb id max_iterator_num small) (record {
    keys_left = get_or-set_self s.keys id _ [] b.keys_sized ∙ ap (λ l. l ++ ks') b.keys_left;
    values_left =
        get_or-set_self s.values id _ [] b.values_sized ∙ ap (λ l. l ++ vs') b.values_left;
    keys_sized = rw (length-set s.keys id (get_or s.keys id [] ++ ks')) b.keys_sized;
    values_sized = rw (length-set s.values id (get_or s.values id [] ++ vs')) b.values_sized;
  })

  -- If an iterator is destroyed with success while a key is left over, the next batch that is
  -- brought for its number is handed out with that old key first.
  pub scan-destroyed :
      (s : Ilsm h.World) (id : ℕ) (a : Answer) (k : Bytes) (ks vs ks' vs' : List Bytes)
      (v key value : Bytes)
      → id < max_iterator_num
      → is_neg a.err ≡ false
      → no_such_key a.err ≡ false
      → HasBatch s id (k ∷ ks) vs
      → back? vs' ≡ some v
      → (next_scan_now h id key value (push_batch h id (ks', vs') (destroyed h id a s).1).1).0
        ≡ (pos 1, k, v)
  scan-destroyed s id a k ks vs ks' vs' v key value small done known b last =
      (next_scan_now-pair h _ id k v key value (ks ++ ks') vs'
        (push_batch-HasBatch _ id (k ∷ ks) [] ks' vs' small
          (destroyed-HasBatch s id a (k ∷ ks) vs small done known b))
        last).0

  -- `Reset` empties the lists of iterator 0 and leaves those of every other iterator, whatever the
  -- device answers.
  reset-lists :
      (s : Ilsm h.World)
      → ((reset h s).1.keys ≡ set s.keys 0 []) × ((reset h s).1.values ≡ set s.values 0 [])
  unfolding reset nvme_passthru
  reset-lists s = ground arith

  reset-HasBatch :
      (s : Ilsm h.World) (id : ℕ) (ks vs : List Bytes)
      → id ≢ 0
      → HasBatch s id ks vs
      → HasBatch (reset h s).1 id ks vs
  reset-HasBatch s id ks vs other b =
      let (keys, values) = reset-lists s in
      record {
        keys_left = rw keys (get_or-set_ne s.keys 0 id [] [] (λ q. other (sym q)) ∙ b.keys_left);
        values_left =
            rw values (get_or-set_ne s.values 0 id [] [] (λ q. other (sym q)) ∙ b.values_left);
        keys_sized = rw keys (rw (length-set s.keys 0 []) b.keys_sized);
        values_sized = rw values (rw (length-set s.values 0 []) b.values_sized);
      }

  -- After a `Reset`, whatever the device answers, the next `_NextScan` of an iterator other than 0
  -- that had keys and values left hands out its first key and last value of before.
  pub scan-reset :
      (s : Ilsm h.World) (id : ℕ) (k v key value : Bytes) (ks vs : List Bytes)
      → id ≢ 0
      → HasBatch s id (k ∷ ks) vs
      → back? vs ≡ some v
      → (next_scan_now h id key value (reset h s).1).0 ≡ (pos 1, k, v)
  scan-reset s id k v key value ks vs other b last =
      (next_scan_now-pair h _ id k v key value ks vs (reset-HasBatch s id (k ∷ ks) vs other b)
        last).0
