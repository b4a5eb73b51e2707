-- ===== src/WalletBlocklist/Pages.antt =====
-- src/middleware/wallet-blocklist.ts: how many entries a page of the list has.
use x402_agent_suite.Base.{
  ℕ, suc, ◌≤◌, ◌≡◌, refl, ap, ◌∙◌, inl, inr, List, [], ◌∷◌, Text, length, length-map, length-take,
  take, Dict, ltb, min, Bool-cases, arith,
}
use x402_agent_suite.WalletBlocklist.{
  BlockRow, BlockedWallet, row_to_wallet, insert_by_time, by_time, QueryNumber, nan, whole, minus,
  page_limit, page_offset, skipped, list_blocklist, count_blocklist,
}

length-insert_by_time :
    (e : Text × BlockRow) (rows : Dict BlockRow)
    → length (insert_by_time e rows) ≡ suc (length rows)
unfolding insert_by_time
length-insert_by_time e [] = refl
length-insert_by_time e (f ∷ rows) = ground (arith, length-insert_by_time e rows)

length-by_time : (rows : Dict BlockRow) → length (by_time rows) ≡ length rows
unfolding by_time
length-by_time [] = refl
length-by_time (e ∷ rows) = length-insert_by_time e (by_time rows) ∙ ap suc (length-by_time rows)

-- What the route answers.
abbrev pub page : QueryNumber → QueryNumber → Dict BlockRow → List BlockedWallet
page limit offset table = list_blocklist (page_limit limit) (page_offset offset) table

page_whole :
    (n : ℕ) (offset : QueryNumber) (table : Dict BlockRow)
    → n ≤ 1000
    → length (list_blocklist (whole n) offset table) ≤ 1000
unfolding list_blocklist
page_whole n offset table h =
    let rows = skipped offset (by_time table) in
    omega (arith, length-map row_to_wallet (take n rows), length-take n rows)

-- A page has at most 1000 entries when the limit is missing, no number, or not negative. A negative
-- limit is passed to SQLite as it is and lifts the bound: the first page is then the whole list.
pub page_bound :
    (table : Dict BlockRow) (offset : QueryNumber)
    → (length (page nan offset table) ≤ 1000)
      × ((n : ℕ) → length (page (whole n) offset table) ≤ 1000)
      × ((n : ℕ) → length (page (minus n) nan table) ≡ count_blocklist table)
unfolding page_limit
page_bound table offset = (
  page_whole 200 (page_offset offset) table (omega arith),
  λ n. elim (Bool-cases (ltb 0 n)) [
    | inl some_limit ↦
        rw some_limit (page_whole (min n 1000) (page_offset offset) table (omega arith))
    | inr no_limit ↦ rw no_limit (page_whole 200 (page_offset offset) table (omega arith))
  ],
  λ n. all_rows n,
)
  where
    all_rows : (n : ℕ) → length (list_blocklist (minus n) (whole 0) table) ≡ count_blocklist table
    all_rows n =
        unfold list_blocklist count_blocklist in
        (length-map row_to_wallet (by_time table) ∙ length-by_time table)
