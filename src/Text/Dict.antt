-- ===== src/Text/Dict.antt =====
-- Go maps with string keys, as association lists with one entry for a key.
use chum.Base.{◌≡◌, refl, List, [], ◌∷◌, ◌++◌, Option, none, some, arith, if◌then◌else◌}
use chum.Text.{Text, text_eq, text_eq_iff, text_eq_refl}

abbrev pub Dict {ℓ} : Type ℓ → Type ℓ
Dict V = List (Text × V)

module _ {ℓ} {V : Type ℓ} where
  unfoldable pub lookup : Text → Dict V → Option V
  lookup k [] = none
  lookup k ((j, v) ∷ m) = let rest = lookup k m in if text_eq j k then some v else rest

  -- `m[k] = v`.
  unfoldable pub insert : Text → V → Dict V → Dict V
  insert k v [] = (k, v) ∷ []
  insert k v ((j, w) ∷ m) =
      let rest = insert k v m in if text_eq j k then (k, v) ∷ m else (j, w) ∷ rest

  pub lookup-insert :
      (k j : Text) (v : V) (m : Dict V)
      → lookup j (insert k v m) ≡ (if text_eq k j then some v else lookup j m)
  unfolding lookup insert
  lookup-insert k j v [] = refl
  lookup-insert k j v ((i, w) ∷ m) = ground (
    arith,
    text_eq_iff k j,
    text_eq_iff i k,
    text_eq_iff i j,
    text_eq_refl j,
    lookup-insert k j v m,
  )

module _ {ℓ} {V : Type ℓ} where
  -- The value of a missing key is nil.
  abbrev pub get_list : Text → Dict (List V) → List V
  get_list k m = elim (lookup k m) [ none ↦ [] | some vs ↦ vs ]

  -- `m[k] = append(m[k], v)`.
  unfoldable pub append_to : Text → V → Dict (List V) → Dict (List V)
  append_to k v m = insert k (get_list k m ++ v ∷ []) m

  -- `if _, ok := m[k]; !ok { m[k] = make(...) }`.
  unfoldable pub ensure_key : Text → Dict (List V) → Dict (List V)
  ensure_key k m = elim (lookup k m) [ none ↦ insert k [] m | some vs ↦ m ]

  pub get_list-append_to :
      (k j : Text) (v : V) (m : Dict (List V))
      → get_list j (append_to k v m)
        ≡ (if text_eq k j then get_list k m ++ v ∷ [] else get_list j m)
  unfolding append_to
  get_list-append_to k j v m = ground (arith, lookup-insert k j (get_list k m ++ v ∷ []) m)

  pub get_list-ensure_key :
      (k j : Text) (m : Dict (List V)) → get_list j (ensure_key k m) ≡ get_list j m
  unfolding ensure_key
  get_list-ensure_key k j m = ground (arith, lookup-insert k j [] m, text_eq_iff k j)

module _ {ℓ} {V : Type ℓ} where
  -- `delete(m, k)`.
  unfoldable pub erase : Text → Dict V → Dict V
  erase k [] = []
  erase k ((j, v) ∷ m) = let rest = erase k m in if text_eq j k then rest else (j, v) ∷ rest

  pub lookup-erase :
      (k j : Text) (m : Dict V) → lookup j (erase k m) ≡ (if text_eq k j then none else lookup j m)
  unfolding erase lookup
  lookup-erase k j [] = ground arith
  lookup-erase k j ((i, w) ∷ m) =
      ground (
        arith,
        text_eq_iff k j,
        text_eq_iff i k,
        text_eq_iff i j,
        text_eq_refl j,
        lookup-erase k j m,
      )
