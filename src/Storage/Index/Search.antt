-- ===== src/Storage/Index/Search.antt =====
-- What the binary search in the offset index finds (internal/storage/index.go).
use pocketkafka.Prelude.{
  ℕ, zero, suc, ◌+◌, ◌/◌, ◌≤◌, ◌<◌, ◌≡◌, ◌⊎◌, inl, inr, refl, sym, subst, ◌∙◌, arith, Bool, true,
  false, List, [], ◌∷◌, length, All, ltb, leb, eqb, if◌then◌else◌, Bool-cases,
}
use pocketkafka.Prelude.Ints.{ℤ, unsigned, ◌-ℤ◌}
use pocketkafka.Storage.Index.{
  IndexEntry, IndexFile, search_loop, search, is_beyond, position_at, position_below,
  position_for_offset,
}

module _ (n : ℕ) (test : ℕ → Bool) where
  -- The test fails just below `i`, and passes at `j` unless that is the end.
  abbrev pub Below : ℕ → Type 0
  Below i = (k : ℕ) → suc k ≡ i → test k ≡ false

  abbrev pub Above : ℕ → Type 0
  Above j = (j ≡ n) ⊎ (test j ≡ true)

  abbrev pub Finds : ℕ → Type 0
  Finds r = Below r × Above r

  search_loop-low :
      (fuel i j : ℕ)
      → ltb i j ≡ true
      → test ((i + j) / 2) ≡ true
      → search_loop (suc fuel) test i j ≡ search_loop fuel test i ((i + j) / 2)
  unfolding search_loop
  search_loop-low fuel i j q t = rw (search_loop, q, t) refl

  search_loop-high :
      (fuel i j : ℕ)
      → ltb i j ≡ true
      → test ((i + j) / 2) ≡ false
      → search_loop (suc fuel) test i j ≡ search_loop fuel test ((i + j) / 2 + 1) j
  unfolding search_loop
  search_loop-high fuel i j q t = rw (search_loop, q, t) refl

  search_loop-over : (fuel i j : ℕ) → ltb i j ≡ false → search_loop (suc fuel) test i j ≡ i
  unfolding search_loop
  search_loop-over fuel i j q = rw (search_loop, q) refl

  search_loop-Finds :
      (fuel i j : ℕ) → i ≤ j → j ≤ i + fuel → Below i → Above j → Finds (search_loop fuel test i j)
  unfolding search_loop
  search_loop-Finds zero i j h f b a = let e : j ≡ i = omega arith in (b, subst Above e a)
  search_loop-Finds (suc fuel) i j h f b a = elim (Bool-cases (ltb i j)) [
    | inl q ↦ elim (Bool-cases (test ((i + j) / 2))) [
      | inl t ↦
          subst Finds (sym (search_loop-low fuel i j q t))
            (search_loop-Finds fuel i ((i + j) / 2) (ground arith) (ground arith) b (inr t))
      | inr t ↦ subst Finds (sym (search_loop-high fuel i j q t)) (
          search_loop-Finds fuel ((i + j) / 2 + 1) j (ground arith) (ground arith)
            (λ k e. let e' : k ≡ (i + j) / 2 = omega arith in rw e' t) a)
    ]
    | inr q ↦
        let e : j ≡ i = ground arith in
        subst Finds (sym (search_loop-over fuel i j q)) (b, subst Above e a)
  ]

  search-Finds : Below (search n test) × Above (search n test)
  unfolding search
  search-Finds =
      search_loop-Finds n 0 n (omega arith) (omega arith) (λ k e. absurd (omega arith)) (inl refl)

-- The entry below the one that the search finds has what every entry has.
position_at-All :
    (P : IndexEntry → Type 0) (es : List IndexEntry) (rel i : ℕ)
    → All P es
    → is_beyond es rel i ≡ false
    → (e : IndexEntry) × (position_at es i ≡ e.position) × (e.relative_offset ≤ rel) × P e
unfolding is_beyond position_at
position_at-All P [] rel i h b = absurd (cc b)
position_at-All P (e ∷ es) rel zero h b = (e, refl, ground arith, h.0)
position_at-All P (e ∷ es) rel (suc i) h b = position_at-All P es rel i h.1 b

Below-floor :
    (P : IndexEntry → Type 0) (es : List IndexEntry) (rel r : ℕ)
    → All P es
    → Below (length es) (is_beyond es rel) r
    → (position_below es r ≡ 0)
      ⊎ ((e : IndexEntry) × (position_below es r ≡ e.position) × (e.relative_offset ≤ rel) × P e)
unfolding position_below
Below-floor P es rel zero h b = inl refl
Below-floor P es rel (suc r) h b = inr (position_at-All P es rel r h (b r refl))

-- The position is that of an entry at the offset or below it, or the start of the log.
pub position_for_offset-floor :
    (P : IndexEntry → Type 0) (idx : IndexFile) (target : ℤ)
    → All P idx.entries
    → (position_for_offset idx target ≡ 0)
      ⊎ ((e : IndexEntry) × (position_for_offset idx target ≡ e.position)
          × (e.relative_offset ≤ unsigned 32 (target -ℤ idx.base_offset))
          × P e)
unfolding position_for_offset
position_for_offset-floor P idx target h =
    let rel = unsigned 32 (target -ℤ idx.base_offset) in
    let f = search-Finds (length idx.entries) (is_beyond idx.entries rel) in
    elim (Bool-cases (eqb (length idx.entries) 0)) [
      | inl q ↦ rw q (inl refl)
      | inr q ↦ rw q (Below-floor P idx.entries rel _ h f.0)
    ]

-- The entries in the order of their offsets.
abbrev pub Ascending : List IndexEntry → Type 0
Ascending [] = Unit {0}
Ascending (e ∷ es) =
    All (λ (e' : IndexEntry). e.relative_offset ≤ e'.relative_offset) es × Ascending es

-- The position of the last entry at the offset or below it, by going through all of them.
unfoldable pub floor_position : ℕ → List IndexEntry → ℕ → ℕ
floor_position rel [] found = found
floor_position rel (e ∷ es) found =
    floor_position rel es (if leb e.relative_offset rel then e.position else found)

abbrev position_or : ℕ → List IndexEntry → ℕ → ℕ
position_or found es zero = found
position_or found es (suc i) = position_at es i

floor_position-beyond :
    (rel least : ℕ) (es : List IndexEntry) (found : ℕ)
    → rel < least
    → All (λ (e : IndexEntry). least ≤ e.relative_offset) es
    → floor_position rel es found ≡ found
unfolding floor_position
floor_position-beyond rel least [] found h a = refl
floor_position-beyond rel least (e ∷ es) found h a =
    let q : leb e.relative_offset rel ≡ false = ground arith in
    rw q (floor_position-beyond rel least es found h a.1)

least_at :
    (rel least i : ℕ) (es : List IndexEntry)
    → All (λ (e : IndexEntry). least ≤ e.relative_offset) es
    → is_beyond es rel i ≡ false
    → least ≤ rel
least_at rel least i es a b = let (e, q, l, p) = position_at-All _ es rel i a b in omega arith

Above-tail :
    (rel : ℕ) (e : IndexEntry) (es : List IndexEntry) (r : ℕ)
    → Above (suc (length es)) (is_beyond (e ∷ es) rel) (suc r)
    → Above (length es) (is_beyond es rel) r
unfolding is_beyond
Above-tail rel e es r (inl q) = inl (omega arith)
Above-tail rel e es r (inr q) = inr q

floor_position-found :
    (rel : ℕ) (es : List IndexEntry) (found r : ℕ)
    → Ascending es
    → Below (length es) (is_beyond es rel) r
    → Above (length es) (is_beyond es rel) r
    → floor_position rel es found ≡ position_or found es r
unfolding floor_position is_beyond position_at
floor_position-found rel [] found zero h b a = refl
floor_position-found rel [] found (suc r) h b a = absurd (cc (b r refl))
floor_position-found rel (e ∷ es) found zero h b (inl q) = absurd (omega arith)
floor_position-found rel (e ∷ es) found zero h b (inr q) =
    let p : leb e.relative_offset rel ≡ false = ground arith in
    rw p (floor_position-beyond rel e.relative_offset es found (ground arith) h.0)
floor_position-found rel (e ∷ es) found (suc zero) h b a =
    let p : leb e.relative_offset rel ≡ true = ground (arith, b 0 refl) in
    rw p (
      floor_position-found rel es e.position 0 h.1 (λ k q. absurd (omega arith))
        (Above-tail rel e es _ a))
floor_position-found rel (e ∷ es) found (suc (suc r)) h b a =
    let t = b (suc r) refl in
    let p : leb e.relative_offset rel ≡ true =
      ground (arith, least_at rel e.relative_offset r es h.0 t) in
    rw p (
      floor_position-found rel es e.position (suc r) h.1
        (λ k q. let k' : k ≡ r = omega arith in rw k' t) (Above-tail rel e es _ a))

floor_position-none : (rel : ℕ) (es : List IndexEntry) → length es ≡ 0 → floor_position rel es 0 ≡ 0
unfolding floor_position
floor_position-none rel [] h = refl
floor_position-none rel (e ∷ es) h = absurd (omega arith)

position_below-or : (es : List IndexEntry) (r : ℕ) → position_below es r ≡ position_or 0 es r
unfolding position_below
position_below-or es zero = refl
position_below-or es (suc r) = refl

-- In an index whose entries are in the order of their offsets, the binary search finds the position
-- of the last entry whose offset, as a uint32 relative to the base, is at the target or below it,
-- and 0 where there is none.
pub position_for_offset-floor_position :
    (idx : IndexFile) (target : ℤ)
    → Ascending idx.entries
    → position_for_offset idx target
      ≡ floor_position (unsigned 32 (target -ℤ idx.base_offset)) idx.entries 0
unfolding position_for_offset
position_for_offset-floor_position idx target h =
    let rel = unsigned 32 (target -ℤ idx.base_offset) in
    let f = search-Finds (length idx.entries) (is_beyond idx.entries rel) in
    elim (Bool-cases (eqb (length idx.entries) 0)) [
      | inl q ↦ rw q (sym (floor_position-none rel idx.entries (ground arith)))
      | inr q ↦ rw q (
          position_below-or idx.entries _
          ∙ sym (floor_position-found rel idx.entries 0 _ h f.0 f.1))
    ]
