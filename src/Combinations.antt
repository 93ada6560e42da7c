-- ===== src/Combinations.antt =====
-- src/combinations.c: the sets of relations of one size, from which the join enumeration grows the
-- next size, and the number of them that src/joinEnumeration.c allocates.
pub mod Count
use mathlib.Core.List.{map}
use join_operator_software_d.Prelude.{
  ℕ, zero, suc, ◌+◌, ◌-◌, ◌*◌, ◌/◌, ◌%◌, List, [], ◌∷◌, ◌++◌, if◌then◌else◌, ◌==◌, ◌&&◌, ltb, leb,
  get_or, set, take, replicate, u64_mod,
}

-- The array `data`, and the strings of `combs` up to `indexComb`.
pub record Combining : Type 0 where
  pub data_of : List ℕ
  pub combs : List (List ℕ)

-- `strcat` of the strings of the numbers.
pub concat : List (List ℕ) → List ℕ
concat [] = []
concat (s ∷ rest) = s ++ concat rest

-- `Factorial`, in 64-bit words.
pub factorial : ℕ → ℕ
factorial zero = 1
factorial (suc n) = (suc n * factorial n) % u64_mod

-- `Factorial(numRels) / (Factorial(i) * Factorial(numRels-i))` of joinEnumeration.c.
pub numb_of_combs : ℕ → ℕ → ℕ
numb_of_combs num_rels i = factorial num_rels / ((factorial i * factorial (num_rels - i)) % u64_mod)

-- `for (i = 0; i < n; i++) arr[i] = i;`, with `n` rounds left.
pub arr_loop : ℕ → ℕ → List ℕ
arr_loop zero i = []
arr_loop (suc n) i = i ∷ arr_loop n (i + 1)

-- `sprintf_d` writes a number with `sprintf(str, "%d", ...)`.
module _ (sprintf_d : ℕ → List ℕ) where
  -- The branch `index == r`: the first `r` numbers are written to `combs[indexComb++]`.
  pub write_comb : ℕ → Combining → Combining
  write_comb r s = record s { combs = s.combs ++ concat (map sprintf_d (take r s.data_of)) ∷ [] }

  -- The loop of `combinationUtil` from `i`, with `n` rounds left up to the end of the array, which
  -- has `size` numbers: `end` is `size - 1`.
  pub combs_loop : ℕ → List ℕ → ℕ → ℕ → ℕ → ℕ → Combining → Combining
  combs_loop zero arr i size index r s = s
  combs_loop (suc n) arr i size index r s =
      let chosen : Combining = record s { data_of = set s.data_of index (get_or arr i 0) } in
      let inner = combs_loop n arr (i + 1) size (index + 1) r chosen in
      let after = if index + 1 == r then write_comb r chosen else inner in
      let rest = combs_loop n arr (i + 1) size index r after in
      if ltb i size && leb (r - index) (size - i) then rest else s

  pub combination_util : ℕ → List ℕ → ℕ → ℕ → ℕ → ℕ → Combining → Combining
  combination_util n arr start size index r s =
      if index == r then write_comb r s else combs_loop n arr start size index r s

  -- `fresh` is what the stack holds in `data`.
  pub get_combination : List ℕ → ℕ → ℕ → List (List ℕ)
  get_combination fresh n r =
      (combination_util n (arr_loop n 0) 0 n 0 r
        (record { data_of = take r fresh; combs = [] })).combs
