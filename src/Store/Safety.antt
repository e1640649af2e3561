-- ===== src/Store/Safety.antt =====
-- internal/store/safety.go, on the table safety_blocks of internal/store/schema_scheduling.go. Clocks count
-- nanoseconds and columns hold seconds. The metadata of a block and json.Marshal and json.Unmarshal on it are
-- parameters.
pub mod Laws
pub mod Active
pub mod Validating
use chum.Base.{
  ℕ, suc, ◌*◌, ◌≡◌, ◌/◌, Bool, true, false, ◌&&◌, ◌||◌, List, [], ◌∷◌, Option, none, some,
  if◌then◌else◌, ltb, select,
}
use chum.Base.Result.{Result, ok, err, ◌>>=◌}
use chum.Base.Sort.{sort_by}
use chum.Text.{Text, text, text_eq, text_lt, is_empty}
use chum.Text.Trim.{trim_space}
use chum.Text.Dict.{Dict, lookup, insert}
use chum.Store.Table.{Key, select_key, upsert, delete_key}
use chum.Store.Stages.{pair_eq, pair_eq_iff}
use chum.Store.Claims.{seconds}

pub record BlockRow : Type 0 where
  pub scope : Text
  pub block_type : Text
  pub blocked_until : ℕ
  pub reason : Text
  pub metadata : Text
  pub created_at : ℕ
  pub updated_at : ℕ

abbrev pub by_scope_type : Key BlockRow (Text × Text)
by_scope_type = record { key = λ r. (r.scope, r.block_type); eq = pair_eq; eq_iff = pair_eq_iff }

-- The package encoding/json on values of type map[string]interface{}.
pub record Json : Type 1 where
  pub Metadata : Type 0
  pub empty : Metadata
  pub marshal : Metadata → Result Text Text
  pub unmarshal : Text → Result Text Metadata

-- What is marshalled is not blank, and the empty map comes back as the empty map. Another map may come back
-- changed: an int as the float64 of its value, a struct as a map.
pub record JsonLaws (json : Json) : Type 0 where
  pub marshal_blank :
      (m : json.Metadata) (s : Text) → json.marshal m ≡ ok s → is_empty (trim_space s) ≡ false
  pub empty_round_trip :
      (s : Text) → json.marshal json.empty ≡ ok s → json.unmarshal s ≡ ok json.empty

-- A block as it is answered, times in seconds.
pub record SafetyBlock (M : Type 0) : Type 0 where
  pub scope : Text
  pub block_type : Text
  pub blocked_until : ℕ
  pub reason : Text
  pub metadata : M
  pub created_at : ℕ
  pub updated_at : ℕ

-- Both parts of a key are given.
abbrev pub has_parts : Text → Text → Bool
has_parts [] t = false
has_parts (c ∷ s) [] = false
has_parts (c ∷ s) (d ∷ t) = true

abbrev pub new_block : ℕ → Text × Text → ℕ → Text → Text → BlockRow
new_block now (s, t) blocked_until reason metadata = record {
  scope = s;
  block_type = t;
  blocked_until = seconds blocked_until;
  reason = reason;
  metadata = metadata;
  created_at = seconds now;
  updated_at = seconds now;
}

-- On conflict every column but the key is overwritten, the creation included.
abbrev pub merge_block : ℕ → ℕ → Text → Text → BlockRow → BlockRow
merge_block now blocked_until reason metadata r = record r {
  blocked_until = seconds blocked_until;
  reason = reason;
  metadata = metadata;
  created_at = seconds now;
  updated_at = seconds now;
}

-- `blockedUntil.IsZero()` is none, and becomes the present.
abbrev pub or_now : ℕ → Option ℕ → ℕ
or_now now none = now
or_now now (some t) = t

unfoldable pub remove_block : Text → Text → List BlockRow → List BlockRow
remove_block scope block_type rows =
    let s = trim_space scope in
    let t = trim_space block_type in
    if has_parts s t then delete_key by_scope_type (s, t) rows else rows

-- `WHERE blocked_until > datetime('now')`.
abbrev pub is_active : ℕ → BlockRow → Bool
is_active now r = ltb (seconds now) r.blocked_until

-- `ORDER BY block_type, scope`.
abbrev pub block_less : BlockRow → BlockRow → Bool
block_less a b =
    text_lt a.block_type b.block_type
    || (text_eq a.block_type b.block_type && text_lt a.scope b.scope)

abbrev pub next_count : Option ℕ → ℕ
next_count none = 1
next_count (some n) = suc n

-- `GROUP BY block_type`, as a map of counts.
abbrev pub count_types : List BlockRow → Dict ℕ
count_types [] = []
count_types (r ∷ rows) =
    let counts = count_types rows in
    insert r.block_type (next_count (lookup r.block_type counts)) counts

unfoldable pub get_block_counts_by_type : ℕ → List BlockRow → Dict ℕ
get_block_counts_by_type now rows = count_types (select (is_active now) rows)

unfoldable pub clear_morsel_validating : Text → List BlockRow → List BlockRow
clear_morsel_validating morsel_id rows =
    remove_block (trim_space morsel_id) (text "morsel_validating") rows

module _ (json : Json) where
  abbrev pub block_of : BlockRow → json.Metadata → SafetyBlock json.Metadata
  block_of r m = record {
    scope = r.scope;
    block_type = r.block_type;
    blocked_until = r.blocked_until;
    reason = r.reason;
    metadata = m;
    created_at = r.created_at;
    updated_at = r.updated_at;
  }

  unfoldable pub decode_metadata : Text → Result Text json.Metadata
  decode_metadata s = if is_empty (trim_space s) then ok json.empty else json.unmarshal s

  unfoldable pub decode_block : BlockRow → Result Text (SafetyBlock json.Metadata)
  unfolding decode_metadata
  decode_block r = decode_metadata r.metadata >>= λ m. ok (block_of r m)

  abbrev pub found_block : Option BlockRow → Result Text (Option (SafetyBlock json.Metadata))
  found_block none = ok none
  found_block (some r) = decode_block r >>= λ b. ok (some b)

  unfoldable pub get_block :
      Text → Text → List BlockRow → Result Text (Option (SafetyBlock json.Metadata))
  get_block scope block_type rows =
      let s = trim_space scope in
      let t = trim_space block_type in
      if has_parts s t then found_block (select_key by_scope_type (s, t) rows) else ok none

  -- nil is none, and becomes the empty map.
  abbrev pub or_empty : Option json.Metadata → json.Metadata
  or_empty none = json.empty
  or_empty (some m) = m

  unfoldable pub set_block_with_metadata :
      ℕ
      → Text
      → Text
      → Option ℕ
      → Text
      → Option json.Metadata
      → List BlockRow
      → Result Text (List BlockRow)
  set_block_with_metadata now scope block_type blocked_until reason metadata rows =
      let s = trim_space scope in
      let t = trim_space block_type in
      let written = json.marshal (or_empty metadata) >>= λ m. ok (
        upsert by_scope_type (s, t)
          (new_block now (s, t) (or_now now blocked_until) (trim_space reason) m)
          (merge_block now (or_now now blocked_until) (trim_space reason) m) rows) in
      if has_parts s t
      then written
      else err (text "store: set block: scope and block_type are required")

  unfoldable pub set_block :
      ℕ → Text → Text → Option ℕ → Text → List BlockRow → Result Text (List BlockRow)
  set_block now scope block_type blocked_until reason rows =
      set_block_with_metadata now scope block_type blocked_until reason none rows

  abbrev pub decode_blocks : List BlockRow → Result Text (List (SafetyBlock json.Metadata))
  decode_blocks [] = ok []
  decode_blocks (r ∷ rows) = decode_block r >>= λ b. decode_blocks rows >>= λ bs. ok (b ∷ bs)

  unfoldable pub get_active_blocks :
      ℕ → List BlockRow → Result Text (List (SafetyBlock json.Metadata))
  get_active_blocks now rows = decode_blocks (sort_by block_less (select (is_active now) rows))

  -- `time.Now().Before(block.BlockedUntil)`.
  abbrev pub is_blocked : ℕ → Option (SafetyBlock json.Metadata) → Bool
  is_blocked now none = false
  is_blocked now (some b) = ltb now (b.blocked_until * 1000000000)

  unfoldable pub is_morsel_validating : ℕ → Text → List BlockRow → Result Text Bool
  is_morsel_validating now morsel_id rows =
      get_block (trim_space morsel_id) (text "morsel_validating") rows >>= λ b.
      ok (is_blocked now b)

  unfoldable pub set_morsel_validating :
      ℕ → Text → Option ℕ → List BlockRow → Result Text (List BlockRow)
  set_morsel_validating now morsel_id until rows =
      set_block now (trim_space morsel_id) (text "morsel_validating") until
        (text "morsel validating") rows
