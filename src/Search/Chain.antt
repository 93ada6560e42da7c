-- ===== src/Search/Chain.antt =====
-- src/chainFollower.c: what the walk of a chain adds to the result list: a row for each position whose
-- tuple has the key of the probing tuple.
use join_operator_software_d.Prelude.{
  ℕ, zero, suc, ◌-◌, ◌≤◌, ◌<◌, ◌≡◌, refl, sym, ap, arith, ◌==◌, if◌then◌else◌, inl, inr, Bool-cases,
  ==_iff, ==_eq_false, sub64, u64_mod, List, [], ◌∷◌, ◌++◌, append-nil, append_assoc, length,
  get_or, take, take-suc, All, flat_map, weigh, weigh-append,
}
use join_operator_software_d.Structs.{Tuple, RowTuple, HeadResult}
use join_operator_software_d.Hashing.{hashing}
use join_operator_software_d.Index.{no_tuple}
use join_operator_software_d.Index.Chains.{Linked, positions}
use join_operator_software_d.ResultList.{push_result_ver2}
use join_operator_software_d.ResultList.Contents.{IsOpen, contents, push_result_ver2-IsOpen}
use join_operator_software_d.Search.{row_of, follow_loop, empty_bucket}

-- The join as nested loops: a row for each tuple with the key of `t`, and that for each `t`.
unfoldable pub equi_rows : List Tuple → Tuple → List RowTuple
equi_rows [] t = []
equi_rows (r ∷ rs) t =
    let rest = equi_rows rs t in if r.key == t.key then row_of r t ∷ rest else rest

unfoldable pub join_rows : List Tuple → List Tuple → List RowTuple
join_rows rs ts = flat_map (equi_rows rs) ts

-- The rows of the positions of a chain.
unfoldable pub chain_rows : List Tuple → Tuple → List ℕ → List RowTuple
chain_rows tuples t [] = []
chain_rows tuples t (i ∷ l) =
    let r = get_or tuples i no_tuple in
    let rest = chain_rows tuples t l in if r.key == t.key then row_of r t ∷ rest else rest

-- `list'` is `list` with `added` behind its rows.
pub record Adds (list : HeadResult) (added : List RowTuple) (list' : HeadResult) : Type 0 where
  pub is_open : IsOpen list'
  pub appended : contents list' ≡ contents list ++ added

pub Adds-nil : (list : HeadResult) → IsOpen list → Adds list [] list
Adds-nil list v = record { is_open = v; appended = sym (append-nil (contents list)) }

pub Adds-trans :
    {a b c : HeadResult} (xs ys : List RowTuple) → Adds a xs b → Adds b ys c → Adds a (xs ++ ys) c
Adds-trans {a} xs ys p q = record {
  is_open = q.is_open;
  appended = rw (q.appended, p.appended) (append_assoc (contents a) xs ys);
}

push_result_ver2-Adds :
    (list : HeadResult) (t : RowTuple) → IsOpen list → Adds list (t ∷ []) (push_result_ver2 list t)
push_result_ver2-Adds list t v =
    let p = push_result_ver2-IsOpen list t v in record { is_open = p.0; appended = p.1 }

-- The row of one pair of tuples, if their keys are equal.
hit_rows : Tuple → Tuple → List RowTuple
hit_rows r t = if r.key == t.key then row_of r t ∷ [] else []

hit-Adds :
    (list : HeadResult) (r t : Tuple)
    → IsOpen list
    → Adds list (hit_rows r t) (if r.key == t.key then push_result_ver2 list (row_of r t) else list)
unfolding hit_rows
hit-Adds list r t v = elim (Bool-cases (r.key == t.key)) [
  | inl e ↦ rw e (push_result_ver2-Adds list (row_of r t) v)
  | inr e ↦ rw e (Adds-nil list v)
]

chain_rows-cons :
    (tuples : List Tuple) (t : Tuple) (i : ℕ) (l : List ℕ)
    → hit_rows (get_or tuples i no_tuple) t ++ chain_rows tuples t l ≡ chain_rows tuples t (i ∷ l)
unfolding hit_rows chain_rows
chain_rows-cons tuples t i l = elim (Bool-cases ((get_or tuples i no_tuple).key == t.key)) [
  | inl e ↦ rw e
  | inr e ↦ rw e
]

-- With fuel for its positions the walk along a chain pushes the rows of the chain, in its order.
follow_loop-Adds :
    (l : List ℕ) (i fuel : ℕ) (list : HeadResult) (tuples : List Tuple) (chain : List ℕ) (t : Tuple)
    → length (i ∷ l) ≤ fuel
    → Linked chain (get_or chain i 0) l
    → IsOpen list
    → Adds list (chain_rows tuples t (i ∷ l)) (follow_loop fuel list tuples chain t i)
unfolding follow_loop chain_rows
follow_loop-Adds l i zero list tuples chain t h k v = absurd (omega arith)
follow_loop-Adds [] i (suc fuel) list tuples chain t h k v =
    rw (← chain_rows-cons tuples t i [], k)
      (Adds-trans _ [] (hit-Adds list (get_or tuples i no_tuple) t v)
        (Adds-nil _ (hit-Adds list (get_or tuples i no_tuple) t v).is_open))
follow_loop-Adds (j ∷ l) i (suc fuel) list tuples chain t h k v =
    let hit = hit-Adds list (get_or tuples i no_tuple) t v in
    let back : get_or chain i 0 - 1 ≡ j = omega (arith, k.0) in
    rw
      (
        ← chain_rows-cons tuples t i (j ∷ l),
        ==_eq_false (get_or chain i 0) 0 (omega (arith, k.0)),
        back,
      )
      (Adds-trans _ _ hit
        (follow_loop-Adds l j fuel _ tuples chain t (omega arith) k.1 hit.is_open))

pub length-positions :
    (tuples : List Tuple) (hash1 hash2 h n : ℕ) → length (positions tuples hash1 hash2 h n) ≤ n
unfolding positions
length-positions tuples hash1 hash2 h zero = omega arith
length-positions tuples hash1 hash2 h (suc n) =
    ground (arith, length-positions tuples hash1 hash2 h n)

-- Entering the table: bucket 0 says that nothing hashed there.
pub enter-Adds :
    (l : List ℕ) (p size : ℕ) (list : HeadResult) (tuples : List Tuple) (chain : List ℕ) (t : Tuple)
    → Linked chain p l
    → All (λ i. i < size) l
    → length l ≤ size
    → size < u64_mod
    → IsOpen list
    → Adds list (chain_rows tuples t l) (
        if sub64 p 1 == empty_bucket
        then list
        else follow_loop size list tuples chain t (sub64 p 1))
unfolding chain_rows
enter-Adds [] p size list tuples chain t k below len small v = rw k (Adds-nil list v)
enter-Adds (i ∷ l) p size list tuples chain t k below len small v =
    let at : sub64 p 1 ≡ i = omega (arith, k.0, below.0) in
    rw (at, ==_eq_false i empty_bucket (omega (arith, below.0)))
      (follow_loop-Adds l i size list tuples chain t len k.1 v)

pub equi_rows-append :
    (a b : List Tuple) (t : Tuple) → equi_rows (a ++ b) t ≡ equi_rows a t ++ equi_rows b t
unfolding equi_rows
equi_rows-append [] b t = refl
equi_rows-append (r ∷ a) b t = elim (Bool-cases (r.key == t.key)) [
  | inl e ↦ rw (e, equi_rows-append a b t)
  | inr e ↦ rw (e, equi_rows-append a b t)
]

-- A tuple with the same key lies on the chain, so the chain misses no row of the bucket.
pub weigh-chain_rows :
    (tuples : List Tuple) (hash1 hash2 : ℕ) (t : Tuple) (f : RowTuple → ℕ) (n : ℕ)
    → n ≤ length tuples
    → weigh f (chain_rows tuples t (positions tuples hash1 hash2 (hashing t.key hash1 hash2) n))
      ≡ weigh f (equi_rows (take n tuples) t)
unfolding chain_rows positions equi_rows
weigh-chain_rows tuples hash1 hash2 t f zero h = refl
weigh-chain_rows tuples hash1 hash2 t f (suc n) h =
    let r = get_or tuples n no_tuple in
    let ih = weigh-chain_rows tuples hash1 hash2 t f n (omega arith) in
    rw (take-suc n tuples no_tuple h, equi_rows-append, weigh-append)
      (elim (Bool-cases (r.key == t.key)) [
        | inl e ↦
            let same : hashing r.key hash1 hash2 ≡ hashing t.key hash1 hash2 =
              ap (λ k. hashing k hash1 hash2) ((==_iff r.key t.key).0 e) in
            rw ((==_iff _ _).1 same, e) (omega (arith, ih))
        | inr e ↦ elim (Bool-cases (hashing r.key hash1 hash2 == hashing t.key hash1 hash2)) [
          | inl on ↦ rw (on, e) (omega (arith, ih))
          | inr off ↦ rw (off, e) (omega (arith, ih))
        ]
      ])
