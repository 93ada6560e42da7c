-- ===== src/Reorder/Sorted.antt =====
-- src/H1.c: the reordered relation is ready for the index and the search.
use mathlib.Core.Path.{subst}
use native.Mathlib.Decide.{ℕ_discrete}
use native.Mathlib.Nat.{one-le-pow}
use join_operator_software_d.Prelude.{
  ℕ, ◌+◌, ◌*◌, ◌/◌, ◌^◌, ◌≤◌, ◌<◌, ◌≡◌, refl, sym, arith, List, [], ==_iff, ==_eq_false, SameBag,
}
use join_operator_software_d.Structs.{
  Tuple, Relation, ReorderedR, first_reordered, available_cache_size, sizeof_tuple,
}
use join_operator_software_d.Hashing.{hash1_range}
use join_operator_software_d.Search.Result.{Prepared}
use join_operator_software_d.Reorder.{find_next_power, hash1_buckets, reorder_relation}
use join_operator_software_d.Reorder.Powers.{IsNextPower, find_next_power-IsNextPower}
use join_operator_software_d.Reorder.Placing.{no_places}
use join_operator_software_d.Reorder.Ready.{
  Reorders, Reorderable, reordered-Reorders, hash1_range_lem, exponent_small,
}

-- No tuples give no buckets.
abbrev pub no_relation : ReorderedR
no_relation = record {
  p_sum_arr = record { psum = []; psum_size = 0 };
  rel = record { tuples = []; size = 0 };
}

pub no_relation-Prepared : (e : ℕ) → Prepared e [] no_relation
no_relation-Prepared e = record {
  encodes = record { psum_eq = refl; psum_size_eq = refl; tuples_eq = refl; size_eq = refl };
  increases = tt;
  hashed = tt;
  below = tt;
  small = omega arith;
}

module _ (margin : ℕ → ℕ) (r : Relation) (fresh : List Tuple) (order : List ℕ)
    (can : Reorderable r fresh order) where
  pub reorder_relation_empty :
      (hash1 : ℕ) → r.size ≡ 0 → reorder_relation margin fresh order r hash1 ≡ (no_relation, hash1)
  unfolding reorder_relation
  reorder_relation_empty hash1 e = rw ((==_iff r.size 0).1 e) refl

  pub no_tuples-SameBag : r.size ≡ 0 → SameBag [] r.tuples
  no_tuples-SameBag e =
      subst (λ (ts : List Tuple). SameBag [] ts)
        (sym (no_places r.tuples (omega (arith, can.size_eq, e)))) (λ f. refl)

  -- For an exponent below 64, a relation of fewer than 2^64 tuples and any order that places each
  -- tuple once, the reordered relation holds the tuples of the relation in buckets of their hash, in
  -- the order of the hashes, none of them empty, with the prefix sums of these buckets, and the
  -- exponent stays.
  pub reorder_relation-Reorders :
      (e : ℕ) → e < 64 → Reorders r e (reorder_relation margin fresh order r e)
  unfolding reorder_relation
  reorder_relation-Reorders e lt = elim (ℕ_discrete r.size 0) [
    | yes nothing ↦ subst (Reorders r e) (sym (reorder_relation_empty e nothing)) (record {
      exponent = refl;
      buckets = [];
      ready = no_relation-Prepared e;
      no_empty = tt;
      same = no_tuples-SameBag nothing;
    })
    | no ne ↦
        rw
          (
            ==_eq_false e first_reordered (λ q. absurd (omega (arith, q, lt))),
            ==_eq_false r.size 0 ne,
          )
          (reordered-Reorders r fresh order can (omega (arith, ne)) (2 ^ e)
            (one-le-pow e 2 (omega arith)) e lt (hash1_range_lem e))
  ]

  -- When the number of buckets is to be chosen, for a relation that is not empty and for which the
  -- number that is asked for is 2^63 at most, the same holds for an exponent below 64, whose power
  -- is the least that is not below that number.
  pub reorder_relation_first-Reorders :
      let number = margin (r.size * sizeof_tuple / available_cache_size) + 1 in
      0 < r.size
      → number ≤ 2 ^ 63
      → (e : ℕ) × (e < 64)
        × IsNextPower number (hash1_range e)
        × Reorders r e (reorder_relation margin fresh order r first_reordered)
  unfolding reorder_relation hash1_buckets hash1_range
  reorder_relation_first-Reorders some_tuple le =
      let number = margin (r.size * sizeof_tuple / available_cache_size) + 1 in
      let next = find_next_power-IsNextPower number (omega arith) le in
      let e = next.exponent in
      let small : e < 64 = exponent_small e (omega (arith, next.is_power, next.least, le)) in
      (
        e,
        small,
        subst (IsNextPower number) next.is_power next,
        rw (==_eq_false r.size 0 (λ q. absurd (omega (arith, q, some_tuple)))) (
            reordered-Reorders r fresh order can some_tuple (find_next_power number)
              (omega (arith, next.enough)) e small next.is_power),
      )
