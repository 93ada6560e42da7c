-- ===== src/Reorder/Orders.antt =====
-- src/H1.c: an order in which the threads place every tuple once keeps the tuples.
use native.Mathlib.Decide.{ℕ_discrete}
use join_operator_software_d.Prelude.{
  ℕ, zero, suc, ◌+◌, ◌≤◌, ◌<◌, ◌≡◌, refl, ap, ◌∙◌, arith, inl, inr, Bool-cases, List, [], ◌∷◌, ◌++◌,
  if◌then◌else◌, ◌==◌, ==_iff, ==_eq_false, ltb, length, get_or, All, weigh, weigh-append, SameBag,
}
use join_operator_software_d.Structs.{Tuple}
use join_operator_software_d.Index.{no_tuple}
use join_operator_software_d.Hashing.{hash1_2-lt}
use join_operator_software_d.Histogram.Counts.{hash_at, hits, hashes}
use join_operator_software_d.Search.Jobs.{count_from, IsSchedule}
use join_operator_software_d.Reorder.Segments.{flat, flat_congr}
use join_operator_software_d.Reorder.Placing.{in_order}

abbrev is_hit : List Tuple → ℕ → ℕ → ℕ → ℕ
is_hit t range h i = if hash_at t range i == h then 1 else 0

length-in_order :
    (t : List Tuple) (range h : ℕ) (order : List ℕ)
    → length (in_order t range h order) ≡ weigh (is_hit t range h) order
length-in_order t range h [] = refl
length-in_order t range h (i ∷ order) = elim (Bool-cases (hash_at t range i == h)) [
  | inl e ↦ rw e (omega (arith, length-in_order t range h order))
  | inr e ↦ rw e (omega (arith, length-in_order t range h order))
]

weigh-hits :
    (t : List Tuple) (range h i n : ℕ)
    → weigh (is_hit t range h) (count_from i n) ≡ hits t range h i n
weigh-hits t range h i zero = refl
weigh-hits t range h i (suc n) =
    ap (λ (m : ℕ). is_hit t range h i + m) (weigh-hits t range h (i + 1) n)

-- Each hash gets as many tuples as the histogram counts.
pub length-in_order_hits :
    (t : List Tuple) (range h n : ℕ) (order : List ℕ)
    → IsSchedule n order
    → length (in_order t range h order) ≡ hits t range h 0 n
length-in_order_hits t range h n order every =
    length-in_order t range h order ∙ every (is_hit t range h) ∙ weigh-hits t range h 0 n

abbrev is_over : ℕ → ℕ → ℕ
is_over n i = if ltb i n then 0 else 1

weigh-is_over : (n i m : ℕ) → i + m ≤ n → weigh (is_over n) (count_from i m) ≡ 0
weigh-is_over n i zero le = refl
weigh-is_over n i (suc m) le = ground (arith, weigh-is_over n (i + 1) m)

All-under : (n : ℕ) (order : List ℕ) → weigh (is_over n) order ≡ 0 → All (λ i. i < n) order
All-under n [] e = tt
All-under n (i ∷ order) e = (ground (arith, e), All-under n order (omega (arith, e)))

pub IsSchedule-All : (n : ℕ) (order : List ℕ) → IsSchedule n order → All (λ i. i < n) order
IsSchedule-All n order every =
    All-under n order (every (is_over n) ∙ weigh-is_over n 0 n (omega arith))

weigh_map :
    (f : Tuple → ℕ) (t : List Tuple) (i : ℕ) (k : ℕ → ℕ)
    → ((j : ℕ) → j < length t → k (i + j) ≡ f (get_or t j no_tuple))
    → weigh k (count_from i (length t)) ≡ weigh f t
weigh_map f [] i k same = refl
weigh_map f (x ∷ t) i k same =
    let z : i + 0 ≡ i = omega arith in
    let rest = weigh_map f t (i + 1) k (λ j lt.
      let move : i + 1 + j ≡ i + suc j = omega arith in
      ap k move ∙ same (suc j) (omega (arith, lt))) in
    omega (arith, rest, same 0 (omega arith), ap k z)

-- One more tuple at the front of the segment of `v`.
weigh-flat_insert :
    (f : Tuple → ℕ) (g : ℕ → List Tuple) (v : ℕ) (x : Tuple) (i n : ℕ)
    → i ≤ v
    → v < i + n
    → weigh f (flat (λ h. if v == h then x ∷ g h else g h) i n) ≡ f x + weigh f (flat g i n)
weigh-flat_insert f g v x i zero ge lt = absurd (omega (arith, ge, lt))
weigh-flat_insert f g v x i (suc n) ge lt = elim (ℕ_discrete v i) [
  | yes e ↦ rw ((==_iff v i).1 e) (
      ap (λ (xs : List Tuple). f x + weigh f (g i ++ xs))
        (flat_congr (λ h. if v == h then x ∷ g h else g h) g (i + 1) n
          (λ h le below. rw (==_eq_false v h (λ q. absurd (omega (arith, q, e, le)))))))
  | no ne ↦ rw (==_eq_false v i ne) (
      omega (
        arith,
        weigh-append {0} f (g i) (flat (λ h. if v == h then x ∷ g h else g h) (i + 1) n),
        weigh-append {0} f (g i) (flat g (i + 1) n),
        weigh-flat_insert f g v x (i + 1) n (omega (arith, ge, ne)) (omega (arith, lt)),
      ))
]

weigh-flat_nil : (f : Tuple → ℕ) (i n : ℕ) → weigh f (flat (λ h. []) i n) ≡ 0
weigh-flat_nil f i zero = refl
weigh-flat_nil f i (suc n) = weigh-flat_nil f (i + 1) n

weigh-flat_order :
    (f : Tuple → ℕ) (t : List Tuple) (range : ℕ) (order : List ℕ)
    → 0 < range
    → weigh f (flat (λ h. in_order t range h order) 0 range)
      ≡ weigh (λ i. f (get_or t i no_tuple)) order
weigh-flat_order f t range [] pos = weigh-flat_nil f 0 range
weigh-flat_order f t range (i ∷ order) pos =
    let v = hash_at t range i in
    let x = get_or t i no_tuple in
    weigh-flat_insert f (λ h. in_order t range h order) v x 0 range (omega arith)
      (omega (arith, hash1_2-lt x.key range pos))
    ∙ ap (λ (m : ℕ). f x + m) (weigh-flat_order f t range order pos)

-- The segments hold the tuples of the relation.
pub flat-SameBag :
    (t : List Tuple) (range : ℕ) (order : List ℕ)
    → 0 < range
    → IsSchedule (length t) order
    → SameBag (flat (λ h. in_order t range h order) 0 range) t
flat-SameBag t range order pos every f =
    weigh-flat_order f t range order pos
    ∙ every (λ i. f (get_or t i no_tuple))
    ∙ weigh_map f t 0 (λ i. f (get_or t i no_tuple))
        (λ j lt. ap (λ (i : ℕ). f (get_or t i no_tuple)) (omega arith))

pub get_or-hashes :
    (t : List Tuple) (range j n i : ℕ)
    → i < n
    → get_or (hashes t range j n) i 0 ≡ hash_at t range (j + i)
get_or-hashes t range j zero i lt = absurd (omega (arith, lt))
get_or-hashes t range j (suc n) zero lt = ap (hash_at t range) (omega arith)
get_or-hashes t range j (suc n) (suc i) lt =
    let move : j + 1 + i ≡ j + suc i = omega arith in
    get_or-hashes t range (j + 1) n i (omega (arith, lt)) ∙ ap (hash_at t range) move
