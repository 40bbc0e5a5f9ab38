-- ===== src/Admission/Sort.antt =====
-- `candidates.sort_by_key(|c| c.last_activity)`: a stable sort, here by insertion.
use llamesh.Prelude.{
  ℕ, ◌+◌, ◌≤◌, ◌≡◌, refl, Bool, List, [], ◌∷◌, String, arith, leb, All, count_by, if◌then◌else◌,
}

pub record Candidate : Type 0 where
  pub id : String
  pub last_activity : ℕ
  pub vram : ℕ
  pub sysmem : ℕ

unfoldable pub insert_by_key : Candidate → List Candidate → List Candidate
insert_by_key c [] = c ∷ []
insert_by_key c (d ∷ ds) =
    if leb c.last_activity d.last_activity then c ∷ d ∷ ds else d ∷ insert_by_key c ds

unfoldable pub sort_by_key : List Candidate → List Candidate
unfolding insert_by_key
sort_by_key [] = []
sort_by_key (c ∷ cs) = insert_by_key c (sort_by_key cs)

-- Least recently used first.
abbrev pub IsSorted : List Candidate → Type 0
IsSorted [] = Unit {0}
IsSorted (c ∷ cs) = All (λ d. c.last_activity ≤ d.last_activity) cs × IsSorted cs

All-insert :
    (n : ℕ) (c : Candidate) (cs : List Candidate)
    → n ≤ c.last_activity
    → All (λ d. n ≤ d.last_activity) cs
    → All (λ d. n ≤ d.last_activity) (insert_by_key c cs)
unfolding insert_by_key
All-insert n c [] h all = (h, tt)
All-insert n c (d ∷ ds) h all = ground (arith, All-insert n c ds)

All-mono :
    (m n : ℕ) (cs : List Candidate)
    → m ≤ n
    → All (λ d. n ≤ d.last_activity) cs
    → All (λ d. m ≤ d.last_activity) cs
All-mono m n [] h all = tt
All-mono m n (d ∷ ds) h all = (omega arith, All-mono m n ds h all.1)

insert-IsSorted :
    (c : Candidate) (cs : List Candidate) → IsSorted cs → IsSorted (insert_by_key c cs)
unfolding insert_by_key
insert-IsSorted c [] s = (tt, tt)
insert-IsSorted c (d ∷ ds) s = ground (
  arith,
  insert-IsSorted c ds,
  All-insert d.last_activity c ds,
  All-mono c.last_activity d.last_activity ds,
)

pub sort-IsSorted : (cs : List Candidate) → IsSorted (sort_by_key cs)
unfolding sort_by_key
sort-IsSorted [] = tt
sort-IsSorted (c ∷ cs) = insert-IsSorted c (sort_by_key cs) (sort-IsSorted cs)

count-insert :
    (p : Candidate → Bool) (c : Candidate) (cs : List Candidate)
    → count_by p (insert_by_key c cs) ≡ (if p c then 1 else 0) + count_by p cs
unfolding insert_by_key
count-insert p c [] = refl
count-insert p c (d ∷ ds) = ground (arith, count-insert p c ds)

-- Sorting keeps every candidate, as often: no test counts otherwise.
pub count-sort :
    (p : Candidate → Bool) (cs : List Candidate) → count_by p (sort_by_key cs) ≡ count_by p cs
unfolding sort_by_key
count-sort p [] = refl
count-sort p (c ∷ cs) = omega (arith, count-insert p c (sort_by_key cs), count-sort p cs)
