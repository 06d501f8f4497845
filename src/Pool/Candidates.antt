-- ===== src/Pool/Candidates.antt =====
-- RpcClientPool::orderedCandidates. An endpoint is its text.
use coroutine_rpc_scheduler.Common.{
  Bool, List, Option-cases, String, [], any, ap, arith, dec_lt, drop, eq_iff, get_elem?,
  get_elem?-append_left, get_elem?-append_right, if◌then◌else◌, inl, inr, is_empty, keep_if, length,
  ltb, none, not, refl, rotation, some, str_empty, str_eq, suc, sym, take, take-append-drop,
  take-drop-suc, zero, ℕ, ◌%◌, ◌&&◌, ◌++◌, ◌+◌, ◌-◌, ◌<◌, ◌||◌, ◌∷◌, ◌≡◌, ◌≤◌,
}
use mathlib.Core.Path.{◌∙◌}
use coroutine_rpc_scheduler.Pool.{EndpointState, is_healthy_enough}
use native.Mathlib.Nat.{mod-eq_of_lt, mod-lt, mod-eq-sub-mod}

-- The loop that collects the endpoints without repetition, after those of `seen`.
unfoldable pub unique_from : List String → List String → List String
unique_from seen [] = seen
unique_from seen (e ∷ es) =
    let skip = str_empty e || any (str_eq e) seen in
    if skip then unique_from seen es else unique_from (seen ++ (e ∷ [])) es

abbrev pub unique_endpoints : List String → List String
unique_endpoints = unique_from []

-- The loop over `i`, for the `count` indices from `i` on; an index out of range ends it, which does
-- not occur.
unfoldable pub ordered_from : (String → Bool) → List String → ℕ → ℕ → ℕ → List String
ordered_from healthy unique start i zero = []
ordered_from healthy unique start i (suc count) =
    let rest = ordered_from healthy unique start (i + 1) count in
    elim (get_elem? unique ((start + i) % length unique)) [
      | none ↦ []
      | some e ↦ if healthy e then e ∷ rest else rest
    ]

-- `states` is the map, which makes a new state for an endpoint that it does not know, and `turn`
-- what fetch_add returned.
unfoldable pub ordered_candidates : (String → EndpointState) → ℕ → ℕ → List String → List String
unfolding unique_from ordered_from
ordered_candidates states now turn endpoints =
    let unique = unique_endpoints endpoints in
    let healthy : String → Bool = λ e. is_healthy_enough now (states e) in
    if is_empty unique
    then unique
    else ordered_from healthy unique (turn % length unique) 0 (length unique)

get_elem?-append_twice :
    (xs : List String) (k : ℕ)
    → k < length xs + length xs
    → get_elem? (xs ++ xs) k ≡ get_elem? xs (k % length xs)
get_elem?-append_twice xs k h = elim (dec_lt k (length xs)) [
  | yes below ↦ get_elem?-append_left xs xs k below ∙ ap (get_elem? xs) (sym (mod-eq_of_lt below))
  | no above ↦
      let right : length xs ≤ k = omega (arith, above) in
      get_elem?-append_right xs xs k (k - length xs) (omega arith)
      ∙ ap (get_elem? xs) (sym (mod-eq-sub-mod right ∙ mod-eq_of_lt (omega arith)))
]

ordered_from_lem :
    (healthy : String → Bool) (unique : List String) (start i count : ℕ)
    → start + i + count ≤ length unique + length unique
    → ordered_from healthy unique start i count
      ≡ keep_if healthy (take count (drop (start + i) (unique ++ unique)))
unfolding ordered_from
ordered_from_lem healthy unique start i zero h = refl
ordered_from_lem healthy unique start i (suc count) h =
    let at = get_elem?-append_twice unique (start + i) (omega arith) in
    let next_index : start + (i + 1) ≡ suc (start + i) = omega arith in
    let rest =
      ordered_from_lem healthy unique start (i + 1) count (omega arith)
      ∙ ap (λ k. keep_if healthy (take count (drop k (unique ++ unique)))) next_index in
    let next = take-drop-suc (unique ++ unique) (start + i) count in
    elim (Option-cases (get_elem? unique ((start + i) % length unique))) [
      | inl n ↦ ground (arith, at, rest, next, n)
      | inr (e, n) ↦ ground (arith, at, rest, next, n)
    ]

-- How often an endpoint stands in a list.
abbrev pub count_of : String → List String → ℕ
count_of e xs = length (keep_if (str_eq e) xs)

count_of-append :
    (e : String) (xs ys : List String) → count_of e (xs ++ ys) ≡ count_of e xs + count_of e ys
count_of-append e [] ys = omega arith
count_of-append e (x ∷ xs) ys = ground (arith, count_of-append e xs ys)

count_of-keep_if :
    (e : String) (p : String → Bool) (xs : List String)
    → count_of e (keep_if p xs) ≡ (if p e then count_of e xs else 0)
count_of-keep_if e p [] = ground arith
count_of-keep_if e p (x ∷ xs) = ground (arith, count_of-keep_if e p xs, eq_iff e x)

pub any-count_of : (e : String) (xs : List String) → any (str_eq e) xs ≡ ltb 0 (count_of e xs)
any-count_of e [] = refl
any-count_of e (x ∷ xs) = ground (arith, any-count_of e xs)

count_of-unique_from :
    (e : String) (seen es : List String)
    → count_of e (unique_from seen es) ≡ (
        if ltb 0 (count_of e seen)
        then count_of e seen
        else if not (str_empty e) && any (str_eq e) es
        then 1
        else 0)
unfolding unique_from
count_of-unique_from e seen [] = ground arith
count_of-unique_from e seen (x ∷ es) = ground (
  arith,
  count_of-unique_from e seen es,
  count_of-unique_from e (seen ++ (x ∷ [])) es,
  any-count_of e seen,
  count_of-append e seen (x ∷ []),
  eq_iff e x,
)

keep_if-rotation_nil :
    (healthy : String → Bool) (s : ℕ) → [] ≡ keep_if healthy (drop s [] ++ take s [])
keep_if-rotation_nil healthy zero = refl
keep_if-rotation_nil healthy (suc s) = refl

ordered_from-rotation :
    (healthy : String → Bool) (unique : List String) (turn : ℕ)
    → (if is_empty unique
        then unique
        else ordered_from healthy unique (turn % length unique) 0 (length unique))
      ≡ (let start = turn % length unique in
          keep_if healthy (drop start unique ++ take start unique))
ordered_from-rotation healthy [] turn = keep_if-rotation_nil healthy (turn % 0)
ordered_from-rotation healthy (e ∷ es) turn =
    let unique = e ∷ es in
    let start = turn % length unique in
    let below : start < length unique = mod-lt turn (omega arith) in
    let first : start + 0 ≡ start = omega arith in
    ordered_from_lem healthy unique start 0 (length unique) (omega arith)
    ∙ ap (λ k. keep_if healthy (take (length unique) (drop k (unique ++ unique)))) first
    ∙ ap (keep_if healthy) (rotation start unique (omega arith))

-- The candidates are the healthy ones of the endpoints without repetition, in their order from the
-- turn's place on and around: an endpoint stands once among them if it was given, is not empty and
-- is healthy, and not at all otherwise.
pub ordered_candidates_lem :
    (states : String → EndpointState) (now turn : ℕ) (endpoints : List String)
    → let found = ordered_candidates states now turn endpoints in
      let unique = unique_endpoints endpoints in
      let start = turn % length unique in
      let healthy : String → Bool = λ e. is_healthy_enough now (states e) in
      (found ≡ keep_if healthy (drop start unique ++ take start unique))
      × ((e : String)
          → count_of e found
            ≡ (if not (str_empty e) && any (str_eq e) endpoints && healthy e then 1 else 0))
unfolding ordered_candidates
ordered_candidates_lem states now turn endpoints =
    let unique = unique_endpoints endpoints in
    let start = turn % length unique in
    let healthy : String → Bool = λ e. is_healthy_enough now (states e) in
    let once = λ (e : String). count_of-unique_from e [] endpoints in
    let shape : ordered_candidates states now turn endpoints
        ≡ keep_if healthy (drop start unique ++ take start unique) =
      ordered_from-rotation healthy unique turn in
    (
      shape,
      λ e. ground (
        arith,
        ap (count_of e) shape,
        count_of-keep_if e healthy (drop start unique ++ take start unique),
        count_of-append e (drop start unique) (take start unique),
        count_of-append e (take start unique) (drop start unique),
        ap (count_of e) (take-append-drop start unique),
        once e,
      ),
    )
