-- ===== src/Store/Safety/Laws.antt =====
-- What is read back of a safety block that was set or removed.
use chum.Base.{
  ℕ, ◌≡◌, ◌⊎◌, refl, ◌∙◌, ap, Bool, true, false, List, Option, none, some, if◌then◌else◌,
  Bool-cases, find_sound, inl, inr,
}
use chum.Base.Result.{Result, ok, err, ◌>>=◌, Result-cases}
use chum.Text.{Text, text}
use chum.Text.Trim.{trim_space}
use chum.Store.Table.{has_key, select_key, upsert, select_key-upsert}
use chum.Store.Stages.{pair_eq, pair_eq_iff}
use chum.Store.Claims.{seconds}
use chum.Store.Safety.{
  BlockRow, by_scope_type, Json, JsonLaws, SafetyBlock, has_parts, new_block, merge_block, or_now,
  decode_metadata, decode_block, found_block, get_block, or_empty, set_block_with_metadata,
  block_of,
}

module _ (json : Json) (laws : JsonLaws json) where
  -- The block that is read back of what was written.
  abbrev pub written_block :
      ℕ → Text × Text → Option ℕ → Text → json.Metadata → SafetyBlock json.Metadata
  written_block now (s, t) until reason d = record {
    scope = s;
    block_type = t;
    blocked_until = seconds (or_now now until);
    reason = trim_space reason;
    metadata = d;
    created_at = seconds now;
    updated_at = seconds now;
  }

  -- What is read back, with `u` for what json.Unmarshal makes of the written metadata.
  abbrev pub read_back :
      ℕ
      → Text × Text
      → Option ℕ
      → Text
      → Result Text json.Metadata
      → Result Text (Option (SafetyBlock json.Metadata))
  read_back now k until reason (err e) = err e
  read_back now k until reason (ok d) = ok (some (written_block now k until reason d))

  decode_written :
      (r : BlockRow) (m : json.Metadata) (s : Text) (u : Result Text json.Metadata)
      → json.marshal m ≡ ok s
      → json.unmarshal s ≡ u
      → r.metadata ≡ s
      → decode_block json r ≡ (u >>= λ d. ok (block_of json r d))
  unfolding decode_block decode_metadata
  decode_written r m s u e f q = rw q (rw (laws.marshal_blank m s e, f) refl)

  found_written :
      (r : BlockRow) (now : ℕ) (k : Text × Text) (until : Option ℕ) (reason : Text)
      (u : Result Text json.Metadata)
      → decode_block json r ≡ (u >>= λ d. ok (block_of json r d))
      → ((d : json.Metadata) → block_of json r d ≡ written_block now k until reason d)
      → found_block json (some r) ≡ read_back now k until reason u
  found_written r now k until reason (err e) h g = rw h refl
  found_written r now k until reason (ok d) h g = rw h (ap (λ b. ok (some b)) (g d))

  found_after :
      (now : ℕ) (k : Text × Text) (until : Option ℕ) (reason : Text) (m : Option json.Metadata)
      (s : Text) (u : Result Text json.Metadata) (b : Bool) (old other : Option BlockRow)
      → json.marshal (or_empty json m) ≡ ok s
      → json.unmarshal s ≡ u
      → ((r : BlockRow) → old ≡ some r → ◌≡◌ {A = Text × Text} (r.scope, r.block_type) k)
      → found_block json (
          if b
          then some (elim old [
            | none ↦ new_block now k (or_now now until) (trim_space reason) s
            | some r ↦ merge_block now (or_now now until) (trim_space reason) s r
          ])
          else other)
        ≡ (if b then read_back now k until reason u else found_block json other)
  found_after now k until reason m s u false old other e f h = refl
  found_after now (x, y) until reason m s u true none other e f h =
      let row = new_block now (x, y) (or_now now until) (trim_space reason) s in
      found_written row now (x, y) until reason u
        (decode_written row (or_empty json m) s u e f refl) (λ d. refl)
  found_after now (x, y) until reason m s u true (some r) other e f h =
      let a : r.scope ≡ x = ap (λ (z : Text × Text). z.0) (h r refl) in
      let b : r.block_type ≡ y = ap (λ (z : Text × Text). z.1) (h r refl) in
      let row = merge_block now (or_now now until) (trim_space reason) s r in
      found_written row now (x, y) until reason u
        (decode_written row (or_empty json m) s u e f refl) (λ d. cc (a, b))

  abbrev pub put : ℕ → Text × Text → Option ℕ → Text → Text → List BlockRow → List BlockRow
  put now k until reason x rows =
      upsert by_scope_type k (new_block now k (or_now now until) (trim_space reason) x)
        (merge_block now (or_now now until) (trim_space reason) x) rows

  new_block-key :
      (now : ℕ) (k : Text × Text) (t : ℕ) (reason x : Text)
      → by_scope_type.key (new_block now k t reason x) ≡ k
  new_block-key now (a, b) t reason x = refl

  pub read_after :
      (now : ℕ) (k : Text × Text) (until : Option ℕ) (reason : Text) (m : Option json.Metadata)
      (x : Text) (u : Result Text json.Metadata) (i j : Text) (rows : List BlockRow)
      → has_parts k.0 k.1 ≡ true
      → json.marshal (or_empty json m) ≡ ok x
      → json.unmarshal x ≡ u
      → get_block json i j (put now k until reason x rows) ≡ (
          if pair_eq k (trim_space i, trim_space j)
          then read_back now k until reason u
          else get_block json i j rows)
  unfolding get_block
  read_after now k until reason m x u i j rows h e f =
      let q : Text × Text = (trim_space i, trim_space j) in
      elim (Bool-cases (has_parts (trim_space i) (trim_space j))) [
        | inl g ↦ rw g (
            ap (found_block json) (
              select_key-upsert by_scope_type k
                (new_block now k (or_now now until) (trim_space reason) x)
                (merge_block now (or_now now until) (trim_space reason) x)
                (new_block-key now k (or_now now until) (trim_space reason) x) (λ r. refl) q rows)
            ∙ found_after now k until reason m x u (pair_eq k q) (select_key by_scope_type k rows)
                (select_key by_scope_type q rows) e f
                (λ r o.
                  (pair_eq_iff (r.scope, r.block_type) k).0
                    (find_sound (has_key by_scope_type k) rows o).1))
        | inr g ↦ elim (Bool-cases (pair_eq k q)) [
          | inr p ↦ rw (g, p) refl
          | inl p ↦
              absurd
                (cc (ap (λ (z : Text × Text). has_parts z.0 z.1) ((pair_eq_iff k q).0 p), g, h))
        ]
      ]

  -- What GetBlock answers after SetBlockWithMetadata, where json.Marshal writes no blank text and the empty
  -- map comes back as it was. A blank scope or type is an error, and so is metadata that cannot be
  -- marshalled. Else the block of that scope and type, both trimmed, has as its metadata what
  -- json.Unmarshal makes of the marshalled map, the empty one for no metadata, or GetBlock answers the
  -- error of json.Unmarshal; its reason is the given one, trimmed, its time the given one in seconds, the
  -- present for a zero time, and its creation the present, also where a block stood there. Every other
  -- block is answered as before.
  pub set-get_block :
      (now : ℕ) (scope type : Text) (until : Option ℕ) (reason : Text) (m : Option json.Metadata)
      (i j : Text) (rows : List BlockRow)
      → ((has_parts (trim_space scope) (trim_space type) ≡ false)
          × (set_block_with_metadata json now scope type until reason m rows
              ≡ err (text "store: set block: scope and block_type are required")))
        ⊎ (((x : Text) × (has_parts (trim_space scope) (trim_space type) ≡ true)
              × (json.marshal (or_empty json m) ≡ err x)
              × (set_block_with_metadata json now scope type until reason m rows ≡ err x))
            ⊎ ((x : Text) × (rows' : List BlockRow) × (has_parts
                    (trim_space scope)
                    (trim_space type)
                  ≡ true)
                × (json.marshal (or_empty json m) ≡ ok x)
                × (set_block_with_metadata json now scope type until reason m rows ≡ ok rows')
                × (get_block json i j rows' ≡ (
                    if pair_eq (trim_space scope, trim_space type) (trim_space i, trim_space j)
                    then read_back now
                        (trim_space scope, trim_space type)
                        until
                        reason
                        (json.unmarshal x)
                    else get_block json i j rows))))
  unfolding set_block_with_metadata
  set-get_block now scope type until reason m i j rows =
      let k : Text × Text = (trim_space scope, trim_space type) in
      elim (Bool-cases (has_parts (trim_space scope) (trim_space type))) [
        | inr e ↦ inl (e, rw e refl)
        | inl e ↦ elim (Result-cases (json.marshal (or_empty json m))) [
          | inr (x, f) ↦ inr (inl (x, e, f, rw (e, f) refl))
          | inl (x, f) ↦ inr (
              inr (
                x,
                put now k until reason x rows,
                e,
                f,
                rw (e, f) refl,
                read_after now k until reason m x (json.unmarshal x) i j rows e f refl,
              ))
        ]
      ]
