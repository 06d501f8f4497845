-- ===== src/Tasks/Pages/Slices.antt =====
-- Pages that follow one another are one listing.
use mathlib.Core.List.{map-append}
use mathlib.Core.Path.{ap₂}
use coroutine_rpc_scheduler.Common.{
  All, Bool, List, String, [], ap, arith, drop, drop-add, false, if◌then◌else◌, keep_if, length,
  length-drop, length-map, length-take, map, min, refl, suc, sym, take, take-nil, true, zero, ℕ,
  ◌%◌, ◌++◌, ◌+◌, ◌-◌, ◌<◌, ◌==◌, ◌∙◌, ◌∷◌, ◌≡◌,
}
use coroutine_rpc_scheduler.Common.Sort.{sort_by, length-sort_by}
use coroutine_rpc_scheduler.Tasks.Pages.Reordered.{
  IsReordered, IsAmong, keep_if-IsReordered, keep_if-All, All-IsAmong, All-self,
  sort_by-IsReordered,
}
use coroutine_rpc_scheduler.Tasks.{Table, TaskRow}
use coroutine_rpc_scheduler.Tasks.Queries.{read_all, to_meta}
use coroutine_rpc_scheduler.Tasks.Pages.{
  window, TaskQuery, counted, matches_task, newest_first, list_tasks,
}

module _ {ℓ} {A : Type ℓ} where
  take-add : (a b : ℕ) (xs : List A) → take a xs ++ take b (drop a xs) ≡ take (a + b) xs
  take-add zero b xs = ap (λ n. take n xs) (omega arith)
  take-add (suc a) b [] = take-nil b [] refl ∙ sym (take-nil (suc a + b) [] refl)
  take-add (suc a) b (x ∷ xs) =
      let e : suc (a + b) ≡ suc a + b = omega arith in
      ap (◌∷◌ x) (take-add a b xs) ∙ ap (λ n. take n (x ∷ xs)) e

  slices-append :
      (a b o : ℕ) (xs : List A)
      → take a (drop o xs) ++ take b (drop (o + a) xs) ≡ take (a + b) (drop o xs)
  slices-append a b o xs =
      ap (λ ys. take a (drop o xs) ++ take b ys) (drop-add o a xs) ∙ take-add a b (drop o xs)

  window_lem :
      (limit offset : ℕ) (xs : List A)
      → 0 < limit
      → limit < 4294967296
      → offset < 4294967296
      → window limit offset xs ≡ take limit (drop offset xs)
  window_lem limit offset xs pos le le' =
      let l : (if limit == 0 then 100 else limit) % 4294967296 ≡ limit = ground arith in
      let o : offset % 4294967296 ≡ offset = omega arith in
      ap (λ n. take n (drop (offset % 4294967296) xs)) l ∙ ap (λ n. take limit (drop n xs)) o

-- The primary key: no two rows of the table have ids that the order of the server ties.
abbrev pub IsKeyed : (String → String → Bool) → Table → Type 0
IsKeyed text_before t =
    All (λ a. All (λ b. text_before a.0 b.0 ≡ true → text_before b.0 a.0 ≡ true → a ≡ b) t) t

module _ (text_before : String → String → Bool)
    (text-total : (a b : String) → text_before a b ≡ false → text_before b a ≡ true)
    (text-trans : (a b c : String)
      → text_before a b ≡ true
      → text_before b c ≡ true
      → text_before a c ≡ true) where
  newest_first_total :
      (a b : String × TaskRow)
      → newest_first text_before a b ≡ false
      → newest_first text_before b a ≡ true
  unfolding newest_first
  newest_first_total a b h = ground (arith, h, text-total b.0 a.0)

  newest_first_trans :
      (a b c : String × TaskRow)
      → newest_first text_before a b ≡ true
      → newest_first text_before b c ≡ true
      → newest_first text_before a c ≡ true
  unfolding newest_first
  newest_first_trans a b c h k = ground (arith, h, k, text-trans c.0 b.0 a.0)

  newest_first_ids :
      (a b : String × TaskRow)
      → newest_first text_before a b ≡ true
      → newest_first text_before b a ≡ true
      → (text_before a.0 b.0 ≡ true) × (text_before b.0 a.0 ≡ true)
  unfolding newest_first
  newest_first_ids a b h k = (ground (arith, h, k), ground (arith, h, k))

  -- The rows that a query finds come in one order, however the table is read.
  sort_by-keep_if-IsReordered :
      (like : String → String → Bool) (q : TaskQuery) {t t' : Table}
      → IsKeyed text_before t
      → IsReordered t t'
      → sort_by (newest_first text_before) (keep_if (matches_task like q) t)
        ≡ sort_by (newest_first text_before) (keep_if (matches_task like q) t')
  sort_by-keep_if-IsReordered like q {t} keyed d =
      sort_by-IsReordered (newest_first text_before) newest_first_total newest_first_trans
        (λ a. IsAmong a t)
        (λ a b m n h k.
          let ids = newest_first_ids a b h k in
          All-IsAmong (λ y. text_before a.0 y.0 ≡ true → text_before y.0 a.0 ≡ true → a ≡ y) n
            (All-IsAmong
              (λ x. All (λ y. text_before x.0 y.0 ≡ true → text_before y.0 x.0 ≡ true → x ≡ y) t) m
              keyed)
            ids.0 ids.1)
        (keep_if-IsReordered (matches_task like q) d)
        (keep_if-All (λ a. IsAmong a t) (matches_task like q) t (All-self t))

-- Pages that follow one another, over a table that stays the same, are one listing: none of its
-- tasks is skipped, and none is shown twice, whatever the order in which the server reads the rows
-- for each page. Both pages have the same total, and a page has as many tasks as its limit, or as
-- the total leaves behind its offset. The server's order of the ids is total and transitive and
-- ties no two ids of the table, every statement is answered whole, limits are positive, and 32 bits
-- are enough for them.
pub list_tasks_pages :
    (like text_before : String → String → Bool)
    → ((a b : String) → text_before a b ≡ false → text_before b a ≡ true)
    → ((a b c : String) → text_before a b ≡ true → text_before b c ≡ true → text_before a c ≡ true)
    → (q : TaskQuery) (a b : ℕ) {t t₁ t₂ : Table} → IsKeyed text_before t
    → IsReordered t t₁
    → IsReordered t t₂
    → 0 < a
    → 0 < b
    → q.offset + a + b < 4294967296
    → let page = λ (limit offset : ℕ) (read : Table).
      list_tasks like text_before
        (counted read_all)
        (record q { limit = limit; offset = offset })
        read
        read in
      ((page a q.offset t₁).items ++ (page b (q.offset + a) t₂).items
        ≡ (page (a + b) q.offset t).items)
      × ((page a q.offset t₁).total ≡ (page b (q.offset + a) t₂).total)
      × (length (page a q.offset t₁).items ≡ min a ((page a q.offset t₁).total - q.offset))
unfolding list_tasks
list_tasks_pages like text_before text-total text-trans q a b {t} {t₁} {t₂} keyed d₁ d₂ pa pb
      small =
    let sorted =
      λ (read : Table). sort_by (newest_first text_before) (keep_if (matches_task like q) read) in
    let found = sorted t in
    let same₁ : found ≡ sorted t₁ =
      sort_by-keep_if-IsReordered text_before text-total text-trans like q keyed d₁ in
    let same₂ : found ≡ sorted t₂ =
      sort_by-keep_if-IsReordered text_before text-total text-trans like q keyed d₂ in
    let size = λ (read : Table).
      length-sort_by (newest_first text_before) (keep_if (matches_task like q) read) in
    let o = q.offset in
    let first =
      window_lem a o (sorted t₁) pa (omega arith) (omega arith)
      ∙ ap (λ xs. take a (drop o xs)) (sym same₁) in
    let second =
      window_lem b (o + a) (sorted t₂) pb (omega arith) (omega arith)
      ∙ ap (λ xs. take b (drop (o + a) xs)) (sym same₂) in
    let both = window_lem (a + b) o found (omega arith) (omega arith) (omega arith) in
    let one = window a o (sorted t₁) in
    (
      sym (map-append to_meta one (window b (o + a) (sorted t₂)))
          ∙ ap (map to_meta) (ap₂ ◌++◌ first second ∙ slices-append a b o found ∙ sym both),
      sym (size t₁) ∙ ap length (sym same₁ ∙ same₂) ∙ size t₂,
      length-map to_meta one
          ∙ ap length first
          ∙ omega
              (arith, length-take a (drop o found), length-drop o found, ap length same₁, size t₁),
    )
