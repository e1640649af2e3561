-- ===== src/Store/Safety/Validating.antt =====
-- Removal of blocks, and the blocks that mark a morsel as validating.
use chum.Base.{
  ℕ, ◌*◌, ◌≡◌, refl, ◌∙◌, ap, Bool, true, false, List, [], ◌∷◌, Option, none, if◌then◌else◌, ltb,
  Bool-cases, inl, inr,
}
use chum.Base.Result.{Result, ok, ◌>>=◌}
use chum.Text.{Text, text, is_empty, is_space, text_eq}
use chum.Text.Trim.{trim_space, trim_space_idem, trim_left, trim_right}
use chum.Store.Table.{select_key}
use chum.Store.Rows.{select_key-delete_key}
use chum.Store.Stages.{pair_eq, pair_eq_iff}
use chum.Store.Claims.{seconds}
use chum.Store.Safety.{
  BlockRow, by_scope_type, Json, JsonLaws, SafetyBlock, has_parts, or_now, remove_block,
  found_block, get_block, set_block_with_metadata, set_block, is_morsel_validating,
  set_morsel_validating, clear_morsel_validating, is_blocked,
}
use chum.Store.Safety.Laws.{put, read_after}

abbrev tag : Text
tag = text "morsel_validating"

tag_trim : trim_space tag ≡ tag
unfolding trim_space trim_left trim_right is_space
tag_trim = refl

has_tag : (x : Text) → is_empty x ≡ false → has_parts x tag ≡ true
has_tag [] h = cc h
has_tag (c ∷ x) h = refl

pair_eq-tag : (x y : Text) → pair_eq (x, tag) (y, tag) ≡ text_eq x y
unfolding text_eq
pair_eq-tag x y = elim (Bool-cases (text_eq x y)) [ inl e ↦ rw e refl | inr e ↦ rw e refl ]

under {ℓ} :
    {A : Type ℓ} {b c : Bool} (x y : A) → b ≡ c → (if b then x else y) ≡ (if c then x else y)
under {A = A} x y e = ap (λ (b : Bool). if◌then◌else◌ {A = A} b x y) e

-- What GetBlock answers after RemoveBlock.
pub remove-get_block :
    (json : Json) (scope type i j : Text) (rows : List BlockRow)
    → get_block json i j (remove_block scope type rows) ≡ (
        if pair_eq (trim_space i, trim_space j) (trim_space scope, trim_space type)
        then ok none
        else get_block json i j rows)
unfolding get_block remove_block
remove-get_block json scope type i j rows =
    let k : Text × Text = (trim_space scope, trim_space type) in
    let q : Text × Text = (trim_space i, trim_space j) in
    let same = λ (p : pair_eq q k ≡ true).
      ap (λ (z : Text × Text). has_parts z.0 z.1) ((pair_eq_iff q k).0 p) in
    elim (Bool-cases (has_parts (trim_space scope) (trim_space type))) [
      | inl h ↦ elim (Bool-cases (pair_eq q k)) [
        | inl p ↦
            rw (h, same p ∙ h, p)
              (ap (found_block json) (
                select_key-delete_key by_scope_type k q rows
                ∙ ap (λ (b : Bool). if b then none else select_key by_scope_type q rows) p))
        | inr p ↦
            rw (h, p)
              (ap
                (λ o.
                  if has_parts (trim_space i) (trim_space j) then found_block json o else ok none)
                (select_key-delete_key by_scope_type k q rows
                  ∙ ap (λ (b : Bool). if b then none else select_key by_scope_type q rows) p))
      ]
      | inr h ↦ elim (Bool-cases (pair_eq q k)) [
        | inl p ↦ rw (h, same p ∙ h, p) refl
        | inr p ↦ rw (h, p) refl
      ]
    ]

module _ (json : Json) (laws : JsonLaws json) (s : Text)
    (empty_ok : json.marshal json.empty ≡ ok s) where
  answer :
      (later : ℕ) {p q : Result Text (Option (SafetyBlock json.Metadata))}
      → p ≡ q
      → (p >>= λ b. ok (is_blocked json later b)) ≡ (q >>= λ b. ok (is_blocked json later b))
  answer later e = ap (λ p. p >>= λ b. ok (is_blocked json later b)) e

  -- After SetMorselValidating of a morsel whose id is not blank, where json.Marshal writes no blank text
  -- and the empty map is marshalled and comes back as it was, IsMorselValidating answers yes for this
  -- morsel, trimmed, exactly before the start of the second of the given time, and for other morsels what
  -- it answered before; after ClearMorselValidating it answers no.
  pub set-is_morsel_validating :
      (now later : ℕ) (m o : Text) (until : Option ℕ) (rows : List BlockRow)
      → is_empty (trim_space m) ≡ false
      → (rows' : List BlockRow) × (set_morsel_validating json now m until rows ≡ ok rows')
        × (is_morsel_validating json later o rows' ≡ (
            if text_eq (trim_space m) (trim_space o)
            then ok (ltb later (seconds (or_now now until) * 1000000000))
            else is_morsel_validating json later o rows))
        × (is_morsel_validating json later m (clear_morsel_validating m rows') ≡ ok false)
  unfolding set_morsel_validating is_morsel_validating clear_morsel_validating set_block
      set_block_with_metadata
  set-is_morsel_validating now later m o until rows h =
      let hm : has_parts (trim_space (trim_space m)) (trim_space tag) ≡ true =
        rw (trim_space_idem m, tag_trim) (has_tag (trim_space m) h) in
      let k : Text × Text = (trim_space (trim_space m), trim_space tag) in
      let rows' = put json laws now k until (text "morsel validating") s rows in
      let done : set_morsel_validating json now m until rows ≡ ok rows' = rw (hm, empty_ok) refl in
      let read =
        read_after json laws now k until (text "morsel validating") none s (ok json.empty)
          (trim_space o) tag rows hm empty_ok (laws.empty_round_trip s empty_ok) in
      let key : pair_eq (trim_space (trim_space m), trim_space tag)
            (trim_space (trim_space o), trim_space tag)
          ≡ text_eq (trim_space m) (trim_space o) =
        rw (trim_space_idem m, trim_space_idem o, tag_trim)
          (pair_eq-tag (trim_space m) (trim_space o)) in
      (
        rows',
        done,
        elim (Bool-cases (text_eq (trim_space m) (trim_space o))) [
          | inl e ↦ rw e (answer later (read ∙ under _ _ (key ∙ e)))
          | inr e ↦ rw e (answer later (read ∙ under _ _ (key ∙ e)))
        ],
        answer later (
            remove-get_block json (trim_space m) tag (trim_space m) tag rows'
            ∙ under _ _ ((pair_eq_iff k k).1 refl)),
      )
