-- ===== src/Exclusions/Docs.antt =====
-- Which documents the lists of a set hold.
use r_search.Base.{
  ℕ, ◌≡◌, refl, ap, Bool, true, false, ◌&&◌, ◌||◌, List, [], ◌∷◌, ◌++◌, Option, none, some, arith,
  ◌==◌, Bool-cases, inl, inr, ℤ, leb_ℤ, Option-cases, compare, filter, contains, contains-append,
}
use r_search.Search.TopK.{insert_by, insert_all, sort_by}
use r_search.Exclusions.{
  Tombstone, Segment, dedup_from, dedup, merge_docs, is_older, docs_of, additions_of, additions,
}

contains-insert_by :
    (d x : ℕ) (ys : List ℕ) → contains d (insert_by compare x ys) ≡ contains d (x ∷ ys)
unfolding insert_by
contains-insert_by d x [] = refl
contains-insert_by d x (y ∷ ys) = ground (arith, contains-insert_by d x ys)

contains-insert_all :
    (d : ℕ) (ss xs : List ℕ)
    → contains d (insert_all compare ss xs) ≡ (contains d xs || contains d ss)
contains-insert_all d ss [] = refl
contains-insert_all d ss (x ∷ xs) =
    ground (arith, contains-insert_all d (insert_by compare x ss) xs, contains-insert_by d x ss)

contains-dedup_from :
    (d e : ℕ) (xs : List ℕ) → contains d (e ∷ dedup_from e xs) ≡ contains d (e ∷ xs)
contains-dedup_from d e [] = refl
contains-dedup_from d e (x ∷ xs) = ground (arith, contains-dedup_from d x xs)

contains-dedup : (d : ℕ) (xs : List ℕ) → contains d (dedup xs) ≡ contains d xs
contains-dedup d [] = refl
contains-dedup d (x ∷ xs) = contains-dedup_from d x xs

pub contains-merge_docs :
    (d : ℕ) (existing added : List ℕ)
    → contains d (merge_docs existing added) ≡ (contains d existing || contains d added)
unfolding merge_docs
contains-merge_docs d existing [] = ground arith
contains-merge_docs d existing (a ∷ added) = ground (
  arith,
  contains-dedup d (sort_by compare (existing ++ (a ∷ added))),
  contains-insert_all d [] (existing ++ (a ∷ added)),
  contains-append d existing (a ∷ added),
)

contains-filter :
    (d : ℕ) (p : ℕ → Bool) (xs : List ℕ) → contains d (filter p xs) ≡ (contains d xs && p d)
contains-filter d p [] = refl
contains-filter d p (x ∷ xs) = elim (Bool-cases (x == d)) [
  | inl e ↦ let same : x ≡ d = ground arith in ground (arith, contains-filter d p xs, ap p same)
  | inr e ↦ ground (arith, contains-filter d p xs)
]

-- A tombstone hides the older versions of its document.
abbrev pub hides : Segment → Tombstone → ℕ → Bool
hides segment t doc =
    contains doc (docs_of (segment.postings t.doc_id))
    && is_older (segment.seq_column doc) t.before_seq

abbrev pub hidden_by : Segment → List Tombstone → ℕ → Bool
hidden_by segment [] doc = false
hidden_by segment (t ∷ ts) doc = hides segment t doc || hidden_by segment ts doc

pub hidden_by-append :
    (segment : Segment) (ts us : List Tombstone) (doc : ℕ)
    → hidden_by segment (ts ++ us) doc ≡ (hidden_by segment ts doc || hidden_by segment us doc)
hidden_by-append segment [] us doc = refl
hidden_by-append segment (t ∷ ts) us doc = ground (arith, hidden_by-append segment ts us doc)

hides-addition :
    (segment : Segment) (t : Tombstone) (doc : ℕ)
    → contains doc (additions_of segment none t) ≡ hides segment t doc
hides-addition segment t doc =
    contains-filter doc (λ d. is_older (segment.seq_column d) t.before_seq)
      (docs_of (segment.postings t.doc_id))

-- The split's lowest `_seq` bounds those of its documents.
abbrev pub Bounded : Option ℤ → Segment → Type 0
Bounded none segment = Unit
Bounded (some seq_min) segment =
    (doc : ℕ) (seq : ℤ) → segment.seq_column doc ≡ some seq → leb_ℤ seq_min seq ≡ true

past_hides :
    (segment : Segment) (min : ℤ) (t : Tombstone) (doc : ℕ)
    → Bounded (some min) segment
    → leb_ℤ t.before_seq min ≡ true
    → is_older (segment.seq_column doc) t.before_seq ≡ false
past_hides segment min t doc b h = elim (Option-cases (segment.seq_column doc)) [
  | inl e ↦ rw e refl
  | inr (seq, e) ↦ rw e (let above = b doc seq e in ground arith)
]

pub contains-additions_of :
    (segment : Segment) (seq_min : Option ℤ) (t : Tombstone) (doc : ℕ)
    → Bounded seq_min segment
    → contains doc (additions_of segment seq_min t) ≡ hides segment t doc
contains-additions_of segment none t doc b = hides-addition segment t doc
contains-additions_of segment (some min) t doc b = elim (Bool-cases (leb_ℤ t.before_seq min)) [
  | inl e ↦ ground (arith, past_hides segment min t doc b e)
  | inr e ↦ ground (arith, hides-addition segment t doc)
]

pub contains-additions :
    (segment : Segment) (seq_min : Option ℤ) (ts : List Tombstone) (doc : ℕ)
    → Bounded seq_min segment
    → contains doc (additions seq_min ts segment) ≡ hidden_by segment ts doc
contains-additions segment seq_min [] doc b = refl
contains-additions segment seq_min (t ∷ ts) doc b = ground (
  arith,
  contains-append doc (additions_of segment seq_min t) (additions seq_min ts segment),
  contains-additions_of segment seq_min t doc b,
  contains-additions segment seq_min ts doc b,
)
