-- ===== src/Ilsm/Scan/Pairing.antt =====
-- Which value a scan of kvaccel/db/db_impl/iLSM.cc hands out with which key, and what is left behind.
use kvaccel.Base.{
  ℕ, zero, suc, ◌<◌, ◌≡◌, refl, ap, ◌∙◌, some, List, [], ◌∷◌, ◌++◌, arith, length, get_or, set,
  back?, pop_back, get_or-set_self, length-set,
}
use kvaccel.Base.Int.{pos}
use kvaccel.Base.Bytes.{Bytes}
use kvaccel.Ilsm.{Host, Ilsm}
use kvaccel.Ilsm.Scan.{next_scan, next_scan_now, pop_front}

-- What an iterator still has to hand out.
pub record HasBatch {W : Type 0} (s : Ilsm W) (id : ℕ) (ks vs : List Bytes) : Type 0 where
  pub keys_left : get_or s.keys id [] ≡ ks
  pub values_left : get_or s.values id [] ≡ vs
  pub keys_sized : id < length s.keys
  pub values_sized : id < length s.values

module _ {A : Type 0} where
  abbrev pub pairs : {B : Type 0} → List A → List B → List (A × B)
  pairs [] ys = []
  pairs (x ∷ xs) [] = []
  pairs (x ∷ xs) (y ∷ ys) = (x, y) ∷ pairs xs ys

  -- A list read from its end.
  abbrev pub backwards : List A → List A
  backwards [] = []
  backwards (x ∷ xs) = backwards xs ++ x ∷ []

  back?-some : (vs : List A) → 0 < length vs → (v : A) × (back? vs ≡ some v)
  back?-some [] h = absurd (omega arith)
  back?-some (x ∷ []) h = (x, refl)
  back?-some (x ∷ y ∷ r) h = back?-some (y ∷ r) (omega arith)

  length-pop_back : (vs : List A) (n : ℕ) → length vs ≡ suc n → length (pop_back vs) ≡ n
  length-pop_back [] n h = absurd (omega arith)
  length-pop_back (x ∷ []) n h = omega arith
  length-pop_back (x ∷ y ∷ r) zero h = absurd (omega arith)
  length-pop_back (x ∷ y ∷ r) (suc n) h = ap suc (length-pop_back (y ∷ r) n (omega arith))

  backwards-back? :
      (vs : List A) (v : A) → back? vs ≡ some v → backwards vs ≡ v ∷ backwards (pop_back vs)
  backwards-back? [] v h = cc
  backwards-back? (x ∷ []) v h = cc
  backwards-back? (x ∷ y ∷ r) v h = rw (backwards-back? (y ∷ r) v h)

module _ (h : Host) where
  next_scan_now_lem :
      (s : Ilsm h.World) (id : ℕ) (k v key value : Bytes) (ks : List Bytes)
      → back? (get_or s.values id []) ≡ some v
      → get_or s.keys id [] ≡ k ∷ ks
      → next_scan_now h id key value s ≡ (
        (pos 1, k, v),
        record s {
          values = set s.values id (pop_back (get_or s.values id []));
          keys = set s.keys id ks;
          iter_values = set s.iter_values id v;
          iter_keys = set s.iter_keys id k;
        },
      )
  unfolding next_scan_now
  next_scan_now_lem s id k v key value ks last first =
      rw (last, next_scan_now) (ground (arith, ap pop_front first))

  -- One call of `NextScan` with entries left: the first key with the last value.
  pub next_scan_now-pair :
      (s : Ilsm h.World) (id : ℕ) (k v key value : Bytes) (ks vs : List Bytes)
      → HasBatch s id (k ∷ ks) vs
      → back? vs ≡ some v
      → ((next_scan_now h id key value s).0 ≡ (pos 1, k, v))
        × HasBatch (next_scan_now h id key value s).1 id ks (pop_back vs)
  next_scan_now-pair s id k v key value ks vs b last =
      let last' : back? (get_or s.values id []) ≡ some v = rw b.values_left last in
      rw (next_scan_now_lem s id k v key value ks last' b.keys_left) (
        refl,
        record {
          keys_left = get_or-set_self s.keys id ks [] b.keys_sized;
          values_left =
              get_or-set_self s.values id (pop_back (get_or s.values id [])) [] b.values_sized
              ∙ ap pop_back b.values_left;
          keys_sized = rw (length-set s.keys id ks) b.keys_sized;
          values_sized =
              rw (length-set s.values id (pop_back (get_or s.values id []))) b.values_sized;
        },
      )

  pub next_scan-pair :
      (s : Ilsm h.World) (id : ℕ) (k v key value : Bytes) (ks vs : List Bytes)
      → HasBatch s id (k ∷ ks) vs
      → back? vs ≡ some v
      → (next_scan h id key value s).0 ≡ (pos 1, k, v)
  unfolding next_scan
  next_scan-pair s id k v key value ks vs b last =
      (next_scan_now-pair (record s { world = (h.now s.world).1 }) id k v key value ks vs
        (record {
          keys_left = b.keys_left;
          values_left = b.values_left;
          keys_sized = b.keys_sized;
          values_sized = b.values_sized;
        })
        last).0

  -- So many calls of `NextScan`, each with the arguments that the one before left, and the pairs
  -- that they answer.
  pub scan_pairs : ℕ → ℕ → Bytes → Bytes → Ilsm h.World → List (Bytes × Bytes)
  scan_pairs zero id key value s = []
  scan_pairs (suc n) id key value s =
      let r = next_scan_now h id key value s in (r.0.1, r.0.2) ∷ scan_pairs n id r.0.1 r.0.2 r.1

  -- If n keys and n values wait for an iterator, n calls of `_NextScan` answer the first key with
  -- the last value, the second with the last but one, and so on.
  pub scan_pairs-reverse :
      (n : ℕ) (s : Ilsm h.World) (id : ℕ) (key value : Bytes) (ks vs : List Bytes)
      → HasBatch s id ks vs
      → length ks ≡ n
      → length vs ≡ n
      → scan_pairs n id key value s ≡ pairs ks (backwards vs)
  unfolding scan_pairs
  scan_pairs-reverse zero s id key value [] vs b p q = refl
  scan_pairs-reverse zero s id key value (k ∷ ks) vs b p q = absurd (omega arith)
  scan_pairs-reverse (suc n) s id key value [] vs b p q = absurd (omega arith)
  scan_pairs-reverse (suc n) s id key value (k ∷ ks) vs b p q =
      let (v, last) = back?-some vs (omega arith) in
      let (r, left) = next_scan_now-pair s id k v key value ks vs b last in
      let rest =
        scan_pairs-reverse n (next_scan_now h id key value s).1 id k v ks (pop_back vs) left
          (omega arith) (length-pop_back vs n q) in
      rw (r, backwards-back? vs v last) (ap (◌∷◌ (k, v)) rest)
