-- ===== src/Search/Probe.antt =====
-- What a probe of an index adds to the result list: a row for each tuple of the bucket with the
-- same key, once for each such tuple.
use join_operator_software_d.Prelude.{
  ℕ, ◌+◌, ◌≤◌, ◌<◌, ◌≡◌, refl, sym, arith, u64_mod, none, List, [], ◌∷◌, ◌++◌, length, take,
  flat_map, weigh, weigh-append, SameBag,
}
use join_operator_software_d.Structs.{Tuple, RelationIndex, RowTuple, HeadResult}
use join_operator_software_d.Hashing.{hashing, hashing-lt}
use join_operator_software_d.Index.Chains.{positions, positions-lt, IsIndex}
use join_operator_software_d.Index.Parts.{Covers, done, part}
use join_operator_software_d.ResultList.Contents.{IsOpen}
use join_operator_software_d.Search.{follow_chain, follow_all, search_key_rec}
use join_operator_software_d.Search.Chain.{
  equi_rows, join_rows, chain_rows, length-positions, Adds, Adds-nil, Adds-trans, enter-Adds,
  weigh-chain_rows, equi_rows-append,
}

-- `list'` has, behind the rows of `list`, the rows of `spec` in some order.
pub record Gains (list : HeadResult) (spec : List RowTuple) (list' : HeadResult) : Type 0 where
  pub added : List RowTuple
  pub adds : Adds list added list'
  pub same : SameBag added spec

pub Gains-nil : (list : HeadResult) → IsOpen list → Gains list [] list
Gains-nil list v = record { added = []; adds = Adds-nil list v; same = λ f. refl }

pub Gains-trans :
    {a b c : HeadResult} (xs ys zs : List RowTuple)
    → Gains a xs b
    → Gains b ys c
    → ((f : RowTuple → ℕ) → weigh f xs + weigh f ys ≡ weigh f zs)
    → Gains a zs c
Gains-trans xs ys zs p q e = record {
  added = p.added ++ q.added;
  adds = Adds-trans p.added q.added p.adds q.adds;
  same = λ f. omega (arith, weigh-append {0} f p.added q.added, p.same f, q.same f, e f);
}

-- In an index of the first `size` tuples, fewer than 2^64, following the chain of a tuple adds to an
-- open list a row for each of these tuples with its key, and keeps the list open.
pub follow_chain-Gains :
    (tuples : List Tuple) (hash1 hash2 size : ℕ) (index : RelationIndex) (list : HeadResult)
    (t : Tuple)
    → IsIndex tuples hash1 hash2 size index
    → size ≤ length tuples
    → size < u64_mod
    → IsOpen list
    → Gains list
        (equi_rows (take size tuples) t)
        (follow_chain list index (record { tuples = tuples; size = size }) t hash1)
unfolding follow_chain
follow_chain-Gains tuples hash1 hash2 size index list t x fits small v =
    let h = hashing t.key hash1 hash2 in
    record {
      added = chain_rows tuples t (positions tuples hash1 hash2 h size);
      adds = rw x.second (
          enter-Adds (positions tuples hash1 hash2 h size) _ size list tuples index.chain t
            (x.built.linked h (hashing-lt t.key hash1 hash2))
            (positions-lt tuples hash1 hash2 h size) (length-positions tuples hash1 hash2 h size)
            small v);
      same = λ f. weigh-chain_rows tuples hash1 hash2 t f size fits;
    }

follow_all-Gains :
    (tuples : List Tuple) (hash1 hash2 size : ℕ) (index : RelationIndex) (ts : List Tuple)
    (list : HeadResult)
    → IsIndex tuples hash1 hash2 size index
    → size ≤ length tuples
    → size < u64_mod
    → IsOpen list
    → Gains list
        (join_rows (take size tuples) ts)
        (follow_all list index (record { tuples = tuples; size = size }) ts hash1)
unfolding follow_all join_rows
follow_all-Gains tuples hash1 hash2 size index [] list x fits small v = Gains-nil list v
follow_all-Gains tuples hash1 hash2 size index (t ∷ ts) list x fits small v =
    let first = follow_chain-Gains tuples hash1 hash2 size index list t x fits small v in
    Gains-trans _ _ _ first
      (follow_all-Gains tuples hash1 hash2 size index ts _ x fits small first.adds.is_open)
      (λ f. sym (weigh-append f (equi_rows (take size tuples) t) _))

join_rows-append :
    (a b ts : List Tuple) (f : RowTuple → ℕ)
    → weigh f (join_rows a ts) + weigh f (join_rows b ts) ≡ weigh f (join_rows (a ++ b) ts)
unfolding join_rows
join_rows-append a b [] f = refl
join_rows-append a b (t ∷ ts) f = rw equi_rows-append (
    omega (
      arith,
      weigh-append {0} f (equi_rows a t) (flat_map (equi_rows a) ts),
      weigh-append {0} f (equi_rows b t) (flat_map (equi_rows b) ts),
      weigh-append {0} f (equi_rows a t ++ equi_rows b t) (flat_map (equi_rows (a ++ b)) ts),
      weigh-append {0} f (equi_rows a t) (equi_rows b t),
      join_rows-append a b ts f,
    ))

pub join_rows-nil : (ts : List Tuple) → join_rows [] ts ≡ []
unfolding join_rows equi_rows
join_rows-nil [] = refl
join_rows-nil (t ∷ ts) = join_rows-nil ts

-- Probing the indexes that cover a bucket adds to an open list the rows of the join of the bucket
-- with the probing tuples, each as often as its pair occurs, and keeps the list open.
pub search_key_rec-Gains :
    (hash1 : ℕ) (bucket : List Tuple) (indexes : List RelationIndex) (list : HeadResult)
    (checked : List Tuple)
    → Covers hash1 bucket indexes
    → IsOpen list
    → Gains list (join_rows bucket checked) (search_key_rec indexes list checked hash1)
unfolding search_key_rec
search_key_rec-Gains hash1 bucket [] list checked done v = rw join_rows-nil (Gains-nil list v)
search_key_rec-Gains hash1 bucket (index ∷ next) list checked (part {xs = xs} {rest = rest} x c e)
      v =
    let first =
      follow_all-Gains x.tuples hash1 x.second x.size index checked list x.is_index x.fits x.small
        v in
    rw (x.is_index.over, e)
      (Gains-trans _ _ _ (rw (← x.part_eq) at first)
        (search_key_rec-Gains hash1 rest next _ checked c first.adds.is_open)
        (join_rows-append xs rest checked))

-- A null entry ends the walk at once.
pub search_key_rec_null :
    (hash1 : ℕ) (index : RelationIndex) (next : List RelationIndex) (list : HeadResult)
    (checked : List Tuple)
    → index.rel ≡ none
    → search_key_rec (index ∷ next) list checked hash1 ≡ list
unfolding search_key_rec
search_key_rec_null hash1 index next list checked e = rw e
