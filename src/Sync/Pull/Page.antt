-- ===== src/Sync/Pull/Page.antt =====
-- What a page of `pull` holds: the smallest entries of the merged list, in order.
use planner_api.Common.{
  ℕ, zero, suc, ◌+◌, ◌≤◌, ◌<◌, ◌≡◌, refl, Bool, true, false, List, [], ◌∷◌, ◌++◌, arith, leb,
  length, take, All, Occurs, All-Occurs, if◌then◌else◌, Bool-cases, inl, inr, ◌⊎◌,
}
use planner_api.Sync.Pull.{Entry, insert_entry, sort_entries, last_seq_of}

-- In ascending order of seq.
abbrev pub Ascending : List Entry → Type 0
Ascending [] = Unit
Ascending (e ∷ es) = All (λ f. e.seq ≤ f.seq) es × Ascending es

All-insert_entry :
    (n : ℕ) (a : Entry) (l : List Entry)
    → n ≤ a.seq
    → All (λ f. n ≤ f.seq) l
    → All (λ f. n ≤ f.seq) (insert_entry a l)
unfolding insert_entry
All-insert_entry n a [] h k = (h, tt)
All-insert_entry n a (b ∷ l) h k = ground (arith, All-insert_entry n a l h k.1)

weaken : (m n : ℕ) (l : List Entry) → m ≤ n → All (λ f. n ≤ f.seq) l → All (λ f. m ≤ f.seq) l
weaken m n [] h k = tt
weaken m n (b ∷ l) h k = (omega arith, weaken m n l h k.1)

insert_entry-Ascending : (a : Entry) (l : List Entry) → Ascending l → Ascending (insert_entry a l)
unfolding insert_entry
insert_entry-Ascending a [] h = (tt, tt)
insert_entry-Ascending a (b ∷ l) h = elim (Bool-cases (leb a.seq b.seq)) [
  | inl e ↦ rw e ((ground arith, weaken a.seq b.seq l (ground arith) h.0), h)
  | inr e ↦ rw e (All-insert_entry b.seq a l (ground arith) h.0, insert_entry-Ascending a l h.1)
]

pub sort_entries-Ascending : (l : List Entry) → Ascending (sort_entries l)
unfolding sort_entries
sort_entries-Ascending [] = tt
sort_entries-Ascending (a ∷ l) =
    insert_entry-Ascending a (sort_entries l) (sort_entries-Ascending l)

-- How many entries have a seq of at most `n`.
abbrev pub count_le : ℕ → List Entry → ℕ
count_le n [] = 0
count_le n (e ∷ es) = let rest = count_le n es in if leb e.seq n then suc rest else rest

count_le-insert_entry :
    (n : ℕ) (a : Entry) (l : List Entry) → count_le n (insert_entry a l) ≡ count_le n (a ∷ l)
unfolding insert_entry
count_le-insert_entry n a [] = refl
count_le-insert_entry n a (b ∷ l) = ground (arith, count_le-insert_entry n a l)

pub count_le-sort_entries : (n : ℕ) (l : List Entry) → count_le n (sort_entries l) ≡ count_le n l
unfolding sort_entries
count_le-sort_entries n [] = refl
count_le-sort_entries n (a ∷ l) =
    ground (arith, count_le-insert_entry n a (sort_entries l), count_le-sort_entries n l)

pub count_le-append : (n : ℕ) (k l : List Entry) → count_le n (k ++ l) ≡ count_le n k + count_le n l
count_le-append n [] l = omega arith
count_le-append n (e ∷ k) l = ground (arith, count_le-append n k l)

count_le-zero : (n : ℕ) (m : ℕ) (l : List Entry) → n < m → All (λ f. m ≤ f.seq) l → count_le n l ≡ 0
count_le-zero n m [] h k = refl
count_le-zero n m (e ∷ l) h k = ground (arith, count_le-zero n m l h k.1)

-- If `cap` entries have a seq of at most `n`, so has each of the first `cap`.
pub take-le :
    (n cap : ℕ) (l : List Entry)
    → Ascending l
    → cap ≤ count_le n l
    → All (λ e. e.seq ≤ n) (take cap l)
take-le n zero l h k = tt
take-le n (suc cap) [] h k = tt
take-le n (suc cap) (e ∷ l) h k = elim (Bool-cases (leb e.seq n)) [
  | inl f ↦ (ground arith, take-le n cap l h.1 (ground arith))
  | inr f ↦ absurd (ground (arith, count_le-zero n e.seq l))
]

Occurs-insert_entry :
    (e a : Entry) (l : List Entry) → (e ≡ a) ⊎ Occurs e l → Occurs e (insert_entry a l)
unfolding insert_entry
Occurs-insert_entry e a [] h = h
Occurs-insert_entry e a (b ∷ l) h = elim (Bool-cases (leb a.seq b.seq)) [
  | inl f ↦ rw f h
  | inr f ↦ rw f (go h (Occurs-insert_entry e a l))
]
  where
    go :
        (e ≡ a) ⊎ ((e ≡ b) ⊎ Occurs e l)
        → ((e ≡ a) ⊎ Occurs e l → Occurs e (insert_entry a l))
        → (e ≡ b) ⊎ Occurs e (insert_entry a l)
    go (inl p) k = inr (k (inl p))
    go (inr (inl p)) k = inl p
    go (inr (inr o)) k = inr (k (inr o))

pub Occurs-sort_entries : (e : Entry) (l : List Entry) → Occurs e l → Occurs e (sort_entries l)
unfolding sort_entries
Occurs-sort_entries e [] o = o
Occurs-sort_entries e (a ∷ l) (inl p) = Occurs-insert_entry e a (sort_entries l) (inl p)
Occurs-sort_entries e (a ∷ l) (inr o) =
    Occurs-insert_entry e a (sort_entries l) (inr (Occurs-sort_entries e l o))

Occurs-if :
    (e : Entry) (c : Bool) (k l : List Entry)
    → Occurs e (if c then k else l)
    → Occurs e k ⊎ Occurs e l
Occurs-if e true k l o = inl o
Occurs-if e false k l o = inr o

insert_entry-Occurs :
    (e a : Entry) (l : List Entry) → Occurs e (insert_entry a l) → (e ≡ a) ⊎ Occurs e l
unfolding insert_entry
insert_entry-Occurs e a [] o = o
insert_entry-Occurs e a (b ∷ l) o =
    elim (Occurs-if e (leb a.seq b.seq) (a ∷ b ∷ l) (b ∷ insert_entry a l) o) [
      | inl there ↦ there
      | inr (inl p) ↦ inr (inl p)
      | inr (inr q) ↦ elim (insert_entry-Occurs e a l q) [
        | inl p ↦ inl p
        | inr there ↦ inr (inr there)
      ]
    ]

pub sort_entries-Occurs : (e : Entry) (l : List Entry) → Occurs e (sort_entries l) → Occurs e l
unfolding sort_entries
sort_entries-Occurs e [] o = o
sort_entries-Occurs e (a ∷ l) o = elim (insert_entry-Occurs e a (sort_entries l) o) [
  | inl p ↦ inl p
  | inr there ↦ inr (sort_entries-Occurs e l there)
]

length-insert_entry : (a : Entry) (l : List Entry) → length (insert_entry a l) ≡ length l + 1
unfolding insert_entry
length-insert_entry a [] = omega arith
length-insert_entry a (b ∷ l) = ground (arith, length-insert_entry a l)

pub length-sort_entries : (l : List Entry) → length (sort_entries l) ≡ length l
unfolding sort_entries
length-sort_entries [] = refl
length-sort_entries (a ∷ l) =
    omega (arith, length-insert_entry a (sort_entries l), length-sort_entries l)

-- An entry of an ascending list is among the first `cap`, or these are full and none is larger.
pub Occurs-take :
    (e : Entry) (cap : ℕ) (l : List Entry)
    → Ascending l
    → Occurs e l
    → Occurs e (take cap l) ⊎ (All (λ f. f.seq ≤ e.seq) (take cap l) × (cap < length l))
Occurs-take e zero (a ∷ l) h o = inr (tt, omega arith)
Occurs-take e (suc cap) (a ∷ l) h (inl p) = inl (inl p)
Occurs-take e (suc cap) (a ∷ l) h (inr o) = elim (Occurs-take e cap l h.1 o) [
  | inl q ↦ inl (inr q)
  | inr (k, n) ↦ inr ((All-Occurs (λ f. a.seq ≤ f.seq) e l h.0 o, k), omega arith)
]
Occurs-take e cap [] h o = absurd o

pub last-le :
    (since n : ℕ) (l : List Entry) → since ≤ n → All (λ e. e.seq ≤ n) l → last_seq_of since l ≤ n
last-le since n [] h k = h
last-le since n (e ∷ []) h k = k.0
last-le since n (e ∷ f ∷ es) h k = last-le since n (f ∷ es) h k.1
