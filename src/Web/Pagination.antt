-- ===== src/Web/Pagination.antt =====
-- oxana-web/src/pagination.rs: the pages of a listing, over the jobs that `get_many` of
-- oxana/src/storage_internal.rs finds for its entries. Numbers are of `usize`, 64 bits wide.
use oxana.Base.{
  ℕ, zero, suc, ◌+◌, ◌-◌, ◌*◌, ◌/◌, ◌%◌, ◌^◌, ◌≤◌, ◌<◌, Bool, List, [], ◌∷◌, ◌++◌, Option, none,
  some, ◌&&◌, ◌==◌, ap, ◌≡◌, refl, ◌∙◌, ◌⊎◌, ltb, max_of, min_of, arith,
}
use oxana.Base.Lists.{length, take, drop}
use oxana.Base.Slices.{length-drop, length-take, take-take, take-split, take-all}
use oxana.Storage.Listing.{QueueListOpts, listed}

abbrev pub jobs_per_page : ℕ
jobs_per_page = 50

pub record JobPage (A : Type 0) : Type 0 where
  pub jobs : List A
  pub number : ℕ
  pub total : ℕ
  pub has_next : Bool

abbrev usize : ℕ → ℕ
usize n = n % 2 ^ 64

unfoldable pub clamp_number : ℕ → ℕ → ℕ
clamp_number page total = min_of (max_of page 1) (max_of ((total + 49) / jobs_per_page) 1)

unfoldable pub list_opts : ℕ → QueueListOpts
list_opts page = record {
  count = jobs_per_page + 1;
  offset = usize ((max_of page 1 - 1) * jobs_per_page);
}

-- There is a next page if more entries are left than a page has and none of those read is missing.
more_left :
    (x n found lost : ℕ)
    → found + lost ≡ min_of 51 (n - x)
    → ltb 50 found ≡ (ltb (x + 50) n && (lost == 0))
more_left x n found lost h = ground (arith, h)

small : (n : ℕ) → n < 2 ^ 64 → usize n ≡ n
small n h = omega (arith, h)

shown_lem : (found lost left : ℕ) → found + lost ≡ min_of 51 left → min_of 50 found ≤ left
shown_lem found lost left h = ground (arith, h)

range_lem :
    (x n len : ℕ)
    → x ≤ n
    → n < 2 ^ 63
    → len ≤ n - x
    → min_of (usize (x + len)) n + 1 ≡ usize (x + 1) + len
range_lem x n len h bounded short =
    rw
      (
        small (x + len) (omega (arith, h, short, bounded)),
        small (x + 1) (omega (arith, h, bounded)),
      )
      (ground (arith, h, short))

module _ {A : Type 0} where
  unfoldable pub new : ℕ → ℕ → List A → JobPage A
  new page total jobs = record {
    jobs = take jobs_per_page jobs;
    number = max_of page 1;
    total = total;
    has_next = ltb jobs_per_page (length jobs);
  }

  unfoldable pub range_start : JobPage A → ℕ
  range_start p = usize ((p.number - 1) * jobs_per_page + 1)

  unfoldable pub range_end : JobPage A → ℕ
  range_end p = min_of (usize ((p.number - 1) * jobs_per_page + length p.jobs)) p.total

-- `read` is the job that is read of an entry, if there is one: `get_many` leaves out the entries whose
-- payload is gone, and `list_dead` those that are no envelopes.
module _ {Entry A : Type 0} (read : Entry → Option A) where
  abbrev read_in : Option A → List A → List A
  read_in none jobs = jobs
  read_in (some job) jobs = job ∷ jobs

  unfoldable pub present : List Entry → List A
  present [] = []
  present (i ∷ is) = read_in (read i) (present is)

  abbrev lost : Option A → ℕ
  lost none = 1
  lost (some job) = 0

  -- How many entries have no job.
  unfoldable pub missing : List Entry → ℕ
  missing [] = 0
  missing (i ∷ is) = lost (read i) + missing is

  -- The page of a listing of all entries.
  abbrev pub page_of : ℕ → List Entry → JobPage A
  page_of page all = new page (length all) (present (listed (list_opts page) all))

  abbrev pub pages : ℕ → List Entry → List A
  pages zero all = []
  pages (suc n) all = pages n all ++ (page_of (suc n) all).jobs

  length-read_in :
      (o : Option A) (jobs : List A) → length (read_in o jobs) + lost o ≡ length jobs + 1
  length-read_in none jobs = omega arith
  length-read_in (some job) jobs = omega arith

  length-present : (is : List Entry) → length (present is) + missing is ≡ length is
  unfolding present missing
  length-present [] = omega arith
  length-present (i ∷ is) = omega (arith, length-present is, length-read_in (read i) (present is))

  take-read_in :
      (n : ℕ) (o : Option A) (jobs : List A)
      → lost o ≡ 0
      → read_in o (take n jobs) ≡ take (suc n) (read_in o jobs)
  take-read_in n none jobs h = absurd (omega (arith, h))
  take-read_in n (some job) jobs h = refl

  drop-read_in :
      (n : ℕ) (o : Option A) (jobs : List A)
      → lost o ≡ 0
      → drop n jobs ≡ drop (suc n) (read_in o jobs)
  drop-read_in n none jobs h = absurd (omega (arith, h))
  drop-read_in n (some job) jobs h = refl

  present-take :
      (n : ℕ) (is : List Entry) → missing is ≡ 0 → present (take n is) ≡ take n (present is)
  unfolding present missing
  present-take zero is h = refl
  present-take (suc n) [] h = refl
  present-take (suc n) (i ∷ is) h =
      ap (read_in (read i)) (present-take n is (omega (arith, h)))
      ∙ take-read_in n (read i) (present is) (omega (arith, h))

  present-drop :
      (n : ℕ) (is : List Entry) → missing is ≡ 0 → present (drop n is) ≡ drop n (present is)
  unfolding present missing
  present-drop zero is h = refl
  present-drop (suc n) [] h = refl
  present-drop (suc n) (i ∷ is) h =
      present-drop n is (omega (arith, h)) ∙ drop-read_in n (read i) (present is) (omega (arith, h))

  missing-drop : (n : ℕ) (is : List Entry) → missing (drop n is) ≤ missing is
  unfolding missing
  missing-drop zero is = omega arith
  missing-drop (suc n) [] = omega arith
  missing-drop (suc n) (i ∷ is) = omega (arith, missing-drop n is)

  page_of-listed :
      (page : ℕ) (all : List Entry)
      → 1 ≤ page
      → page * 50 < 2 ^ 63
      → listed (list_opts page) all ≡ take 51 (drop ((page - 1) * 50) all)
  unfolding list_opts
  page_of-listed page all h fits =
      let offset : usize ((max_of page 1 - 1) * 50) ≡ (page - 1) * 50 = ground arith in
      let count : (page - 1) * 50 + 51 - 1 + 1 - (page - 1) * 50 ≡ 51 = omega arith in
      rw (offset, count) refl

  -- The page of a listing with less than 2 ^ 63 entries, from the first one up to the one behind the
  -- last, has the jobs that are read of the 51 entries from its place on, fifty of them at most. It
  -- says that there are more exactly if more entries are left than fifty and each of the 51 has its
  -- job. The range that it names is as long as its jobs are.
  pub page_of-Window :
      (page : ℕ) (all : List Entry)
      → 1 ≤ page
      → page * 50 < 2 ^ 63
      → (page - 1) * 50 ≤ length all
      → length all < 2 ^ 63
      → let p = page_of page all in
        let entries = take 51 (drop ((page - 1) * 50) all) in
        (p.jobs ≡ take 50 (present entries))
        × (p.has_next ≡ (ltb (page * 50) (length all) && (missing entries == 0)))
        × (range_end p + 1 ≡ range_start p + length p.jobs)
  unfolding new range_start range_end
  page_of-Window page all h fits within bounded =
      let found = page_of-listed page all h fits in
      let entries = take 51 (drop ((page - 1) * 50) all) in
      let n = length-take 51 (drop ((page - 1) * 50) all) in
      let left = length-drop ((page - 1) * 50) all in
      let read = length-present entries in
      let shown = length-take 50 (present entries) in
      (
        rw found refl,
        rw found (
            let e : page * 50 ≡ (page - 1) * 50 + 50 = omega (arith, h) in
            rw e (
              more_left ((page - 1) * 50) (length all) (length (present entries)) (missing entries)
                (ground (arith, read, n, left)))),
        rw (found, shown)
            (let e : max_of page 1 ≡ page = ground (arith, h) in
              rw e (
                range_lem ((page - 1) * 50) (length all) _ within bounded (
                  shown_lem (length (present entries)) (missing entries)
                    (length all - (page - 1) * 50) (read ∙ n ∙ ap (min_of 51) left)))),
      )

  page_of-jobs :
      (page : ℕ) (all : List Entry)
      → 1 ≤ page
      → page * 50 < 2 ^ 63
      → missing all ≡ 0
      → (page_of page all).jobs ≡ take 50 (drop ((page - 1) * 50) (present all))
  unfolding new
  page_of-jobs page all h fits none_lost =
      let k = (page - 1) * 50 in
      let here : missing (drop k all) ≡ 0 = omega (arith, missing-drop k all, none_lost) in
      rw
        (
          page_of-listed page all h fits,
          present-take 51 (drop k all) here,
          present-drop k all none_lost,
        )
        (take-take 50 51 (drop k (present all)) (omega arith))

  pages-take :
      (n : ℕ) (all : List Entry)
      → n * 50 < 2 ^ 63
      → missing all ≡ 0
      → pages n all ≡ take (n * 50) (present all)
  pages-take zero all fits none_lost = refl
  pages-take (suc n) all fits none_lost =
      let start : suc n - 1 ≡ n = omega arith in
      let more : suc n * 50 ≡ n * 50 + 50 = omega arith in
      rw
        (
          pages-take n all (omega (arith, fits)) none_lost,
          page_of-jobs (suc n) all (omega arith) fits none_lost,
          start,
          more,
        )
        (take-split (n * 50) 50 (present all))

  -- If each entry of a listing has its job, and the listing less than 2 ^ 62 entries, then a number that
  -- is the length of the listing at least is brought into range as that of its last page: the pages up
  -- to it have all jobs, each of them once and in their order.
  pub pages-whole :
      (page : ℕ) (all : List Entry)
      → length all ≤ page
      → length all < 2 ^ 62
      → missing all ≡ 0
      → pages (clamp_number page (length all)) all ≡ present all
  unfolding clamp_number
  pages-whole page all last fits none_lost =
      let n = clamp_number page (length all) in
      let whole = length-present all in
      pages-take n all (ground (arith, fits, last)) none_lost
      ∙ take-all (n * 50) (present all) (ground (arith, fits, last, whole))

-- A page number that is brought into range is that of a page which is not empty, unless there are no
-- jobs, and it stays as it is unless it was 0 or behind the last page.
pub clamp_number-InRange :
    (page total : ℕ)
    → (1 ≤ clamp_number page total)
      × ((clamp_number page total - 1) * 50 < max_of total 1)
      × ((clamp_number page total ≡ page) ⊎ ((page ≡ 0) ⊎ (total ≤ (page - 1) * 50)))
unfolding clamp_number
clamp_number-InRange page total = (ground arith, ground arith, ground arith)
