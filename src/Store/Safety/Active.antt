-- ===== src/Store/Safety/Active.antt =====
-- The blocks that are active, and their counts.
use mathlib.Core.List.Memᴰ
use chum.Base.{
  ℕ, zero, suc, ◌<◌, ◌≡◌, ◌↔◌, refl, sym, ◌∙◌, ap, subst, Bool, ◌&&◌, List, [], ◌∷◌, Memᴰ, Option,
  none, some, ltb, select, length, Bool-cases, inl, inr, select-In, In-select, ltb→lt, lt→ltb,
}
use chum.Base.Result.{Result, ok, err, ◌>>=◌}
use chum.Base.Sort.{sort_by, In-sort_by, sort_by-In}
use chum.Text.{Text, text_eq, text_eq_iff}
use chum.Text.Dict.{lookup, lookup-insert}
use chum.Store.Claims.{seconds}
use chum.Store.Safety.{
  BlockRow, Json, SafetyBlock, is_active, next_count, block_less, decode_block, decode_blocks,
  get_active_blocks, count_types, get_block_counts_by_type,
}

-- The number of rows of a type, where there are any.
abbrev pub positive : ℕ → Option ℕ
positive zero = none
positive (suc n) = some (suc n)

next_positive : (n : ℕ) → some (next_count (positive n)) ≡ positive (suc n)
next_positive zero = refl
next_positive (suc n) = refl

select-select :
    (p q : BlockRow → Bool) (rows : List BlockRow)
    → select p (select q rows) ≡ select (λ r. p r && q r) rows
select-select p q [] = refl
select-select p q (r ∷ rows) = elim (Bool-cases (p r)) [
  | inl e ↦ elim (Bool-cases (q r)) [
    | inl f ↦ rw (e, f, e) (ap (λ (l : List BlockRow). r ∷ l) (select-select p q rows))
    | inr f ↦ rw (e, f) (select-select p q rows)
  ]
  | inr e ↦ elim (Bool-cases (q r)) [
    | inl f ↦ rw (e, f, e) (select-select p q rows)
    | inr f ↦ rw (e, f) (select-select p q rows)
  ]
]

count_types-length :
    (rows : List BlockRow) (t : Text)
    → lookup t (count_types rows) ≡ positive (length (select (λ r. text_eq r.block_type t) rows))
unfolding lookup
count_types-length [] t = refl
count_types-length (r ∷ rows) t =
    let counts = count_types rows in
    lookup-insert r.block_type t (next_count (lookup r.block_type counts)) counts
    ∙ elim (Bool-cases (text_eq r.block_type t)) [
      | inl e ↦
          let q : r.block_type ≡ t = (text_eq_iff r.block_type t).0 e in
          rw e (
            ap (λ o. some (next_count o)) (ap (λ k. lookup k counts) q ∙ count_types-length rows t)
            ∙ next_positive _)
      | inr e ↦ rw e (count_types-length rows t)
    ]

-- GetBlockCountsByType has an entry for exactly the types of which a block ends later than now, the number of
-- these blocks.
pub get_block_counts_by_type-length :
    (now : ℕ) (rows : List BlockRow) (t : Text)
    → lookup t (get_block_counts_by_type now rows)
      ≡ positive
          (length (select (λ r. text_eq r.block_type t && ltb (seconds now) r.blocked_until) rows))
unfolding get_block_counts_by_type
get_block_counts_by_type-length now rows t =
    count_types-length (select (is_active now) rows) t
    ∙ ap (λ (l : List BlockRow). positive (length l))
        (select-select (λ r. text_eq r.block_type t) (is_active now) rows)

bind-ok :
    {A B : Type 0} (first : Result Text A) (next : A → Result Text B) (b : B)
    → (first >>= next) ≡ ok b
    → (a : A) × (first ≡ ok a) × (next a ≡ ok b)
bind-ok (ok a) next b e = (a, refl, e)
bind-ok (err x) next b e = cc e

ok-injective : {A : Type 0} (a b : A) → ◌≡◌ {A = Result Text A} (ok a) (ok b) → a ≡ b
ok-injective a b e = cc e

module _ (json : Json) where
  -- A list of blocks is decoded row by row.
  decode_blocks-In :
      (rows : List BlockRow) (bs : List (SafetyBlock json.Metadata))
      → decode_blocks json rows ≡ ok bs
      → (b : SafetyBlock json.Metadata)
      → Memᴰ b bs ↔ ((r : BlockRow) × Memᴰ r rows × (decode_block json r ≡ ok b))
  decode_blocks-In [] bs e b = (
    λ m. absurd (Memᴰ.not-nil (rw (sym (ok-injective [] bs e)) at m)),
    λ h. absurd (Memᴰ.not-nil h.1),
  )
  decode_blocks-In (r ∷ rows) bs e b =
      let (c, p, f) =
        bind-ok (decode_block json r) (λ c. decode_blocks json rows >>= λ cs. ok (c ∷ cs)) bs e in
      let (cs, q, g) = bind-ok (decode_blocks json rows) (λ cs. ok (c ∷ cs)) bs f in
      let same : c ∷ cs ≡ bs = ok-injective (c ∷ cs) bs g in
      (
        λ m. elim (Memᴰ.cases_cons (subst (λ l. Memᴰ b l) (sym same) m)) [
          | inl x ↦ (r, Memᴰ.head refl, p ∙ ap ok (sym x))
          | inr n ↦ let (s, i, d) = (decode_blocks-In rows cs q b).0 n in (s, Memᴰ.tail i, d)
        ],
        λ h.
            subst (λ l. Memᴰ b l) same
              (elim (Memᴰ.cases_cons h.1) [
                | inl x ↦ Memᴰ.head (ok-injective b c (sym h.2 ∙ ap (decode_block json) x ∙ p))
                | inr n ↦ Memᴰ.tail ((decode_blocks-In rows cs q b).1 (h.0, n, h.2))
              ]),
      )

  -- The blocks that GetActiveBlocks answers are those of exactly the rows that end later than now.
  pub get_active_blocks-decides :
      (now : ℕ) (rows : List BlockRow) (bs : List (SafetyBlock json.Metadata))
      → get_active_blocks json now rows ≡ ok bs
      → (b : SafetyBlock json.Metadata)
      → Memᴰ b bs ↔ (
          (r : BlockRow) × Memᴰ r rows
          × (seconds now < r.blocked_until)
          × (decode_block json r ≡ ok b))
  unfolding get_active_blocks
  get_active_blocks-decides now rows bs e b =
      let active = select (is_active now) rows in
      let (f, g) = decode_blocks-In (sort_by block_less active) bs e b in
      (
        λ m.
            let (r, i, d) = f m in
            let (j, t) = In-select (is_active now) rows r (In-sort_by block_less active r i) in
            (r, j, ltb→lt (seconds now) r.blocked_until t, d),
        λ h. g (
          h.0,
          sort_by-In block_less active h.0
              (select-In (is_active now) rows h.0 h.1 (lt→ltb (seconds now) h.0.blocked_until h.2)),
          h.3,
        ),
      )
